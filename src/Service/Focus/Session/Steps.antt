-- ===== src/Service/Focus/Session/Steps.antt =====
-- crates/mgmt-service/src/status.rs and time.rs: the sessions that the commands and the clock lead to.
use mathlib.Core.Path.{subst}
use mgmtui.Service.Focus.{is_focus}
use mgmtui.Base.{
  ◌+◌, ◌^◌, sym, ap, ◌∙◌, Bool-cases, ℕ, ◌%◌, max, Option, none, some, ◌≡◌, ◌≢◌, ◌⊎◌, refl, arith,
  if◌then◌else◌, eqb, Option-cases, inl, inr,
}
use mgmtui.Domain.Instant.{Instant}
use mgmtui.Service.Focus.{
  Phase, Pomodoro, pomodoro, by_pomodoro, initial, break_after, count_focus, next,
}
use mgmtui.Service.Focus.Session.{Session, start, elapsed, toggle, skip, is_over, tick}

-- A command or a tick, at any instant.
pub data Step : Session → Session → Type 0 where
  toggled : (s : Session) (now : Instant) → Step s (toggle s now)
  skipped : (s s' : Session) (now : Instant) → skip s now ≡ some s' → Step s s'
  ticked :
      (s s' : Session) (now : Instant) (new : Option Phase)
      → tick s now ≡ some (s', new)
      → Step s s'

pub data Reach (s : Session) : Session → Type 0 where
  here : Reach s s
  after : {t u : Session} → Reach s t → Step t u → Reach s u

-- How many times the run has left a focus.
abbrev pub left_focus : Session → ℕ
left_focus s = if is_focus s.phase then 1 else 0

abbrev pub completed : {s u : Session} → Step s u → ℕ
completed (toggled s now) = 0
completed (skipped s s' now e) = left_focus s
completed (ticked s s' now none e) = 0
completed (ticked s s' now (some phase) e) = left_focus s

abbrev pub focuses : {s u : Session} → Reach s u → ℕ
focuses here = 0
focuses (after r t) = focuses r + completed t

-- The phase of a pomodoro with its lengths after so many focuses: a focus, or the break that the count
-- of focuses, a `u32`, calls for.
abbrev pub IsPomodoro : ℕ → ℕ → ℕ → ℕ → ℕ → Session → Type 0
IsPomodoro length short long every n s =
    (p : Pomodoro) × (s.engine ≡ by_pomodoro p)
    × (p.focus_length ≡ length)
    × (p.short_break ≡ short)
    × (p.long_break ≡ long)
    × (p.focuses_before_long_break ≡ max every 1)
    × (p.completed_focuses ≡ n % 2 ^ 32)
    × ((s.phase ≡ Phase.focus (some length))
        ⊎ (s.phase ≡ Phase.break (some (if eqb (n % 2 ^ 32 % max every 1) 0 then long else short))))

next-focus :
    (p : Pomodoro) (every : ℕ) (t : Option ℕ) (time : ℕ)
    → p.focuses_before_long_break ≡ max every 1
    → next (by_pomodoro p) (Phase.focus t) time
      ≡ some (break_after (count_focus p), by_pomodoro (count_focus p))
unfolding next
next-focus p every t time e = ground arith

next-break :
    (p : Pomodoro) (t : Option ℕ) (time : ℕ)
    → next (by_pomodoro p) (Phase.break t) time
      ≡ some (Phase.focus (some p.focus_length), by_pomodoro p)
unfolding next
next-break p t time = refl

break_after-eq :
    (p : Pomodoro) (long short every : ℕ)
    → p.short_break ≡ short
    → p.long_break ≡ long
    → p.focuses_before_long_break ≡ max every 1
    → break_after p
      ≡ Phase.break (some (if eqb (p.completed_focuses % max every 1) 0 then long else short))
unfolding break_after
break_after-eq p long short every a b c = ground arith

counted :
    (p : Pomodoro) (n : ℕ)
    → p.completed_focuses ≡ n % 2 ^ 32
    → (count_focus p).completed_focuses ≡ (n + 1) % 2 ^ 32
unfolding count_focus
counted p n c = omega arith

module _ (length short long every : ℕ) where
  skip-focus :
      (s s' : Session) (now : Instant) (p : Pomodoro)
      → s.engine ≡ by_pomodoro p
      → s.phase ≡ Phase.focus (some length)
      → p.focuses_before_long_break ≡ max every 1
      → skip s now ≡ some s'
      → (s'.engine ≡ by_pomodoro (count_focus p)) × (s'.phase ≡ break_after (count_focus p))
  unfolding skip
  skip-focus s s' now p e f n k =
      let forward = next-focus p every (some length) (elapsed s now) n in ground arith

  skip-break :
      (s s' : Session) (now : Instant) (p : Pomodoro) (t : Option ℕ)
      → s.engine ≡ by_pomodoro p
      → s.phase ≡ Phase.break t
      → skip s now ≡ some s'
      → (s'.engine ≡ by_pomodoro p) × (s'.phase ≡ Phase.focus (some p.focus_length))
  unfolding skip
  skip-break s s' now p t e f k = let back = next-break p t (elapsed s now) in ground arith

  skip-IsPomodoro :
      (s s' : Session) (now : Instant) (n : ℕ)
      → IsPomodoro length short long every n s
      → skip s now ≡ some s'
      → IsPomodoro length short long every (n + left_focus s) s'
  unfolding is_focus
  skip-IsPomodoro s s' now n (p, e, l, a, b, m, c, inl f) k =
      let (e', f') = skip-focus s s' now p e f m k in
      let count : (count_focus p).completed_focuses ≡ (n + 1) % 2 ^ 32 = counted p n c in
      rw f (
        count_focus p,
        e',
        unfold count_focus in l,
        unfold count_focus in a,
        unfold count_focus in b,
        unfold count_focus in m,
        count,
        inr (
            f'
            ∙ (break_after-eq (count_focus p) long short every (unfold count_focus in a)
                  (unfold count_focus in b) (unfold count_focus in m)
                ∙ rw count refl)),
      )
  skip-IsPomodoro s s' now n (p, e, l, a, b, m, c, inr f) k =
      let (e', f') = skip-break s s' now p _ e f k in
      rw f (
        p,
        e',
        l,
        a,
        b,
        m,
        c ∙ ap (λ x. x % 2 ^ 32) (omega arith),
        inl (f' ∙ ap (λ x. Phase.focus (some x)) l),
      )

  -- A session of a pomodoro never panics.
  skip-some :
      (s : Session) (now : Instant) (n : ℕ)
      → IsPomodoro length short long every n s
      → skip s now ≢ none
  unfolding skip
  skip-some s now n (p, e, l, a, b, m, c, inl f) k =
      let forward = next-focus p every (some length) (elapsed s now) m in ground arith
  skip-some s now n (p, e, l, a, b, m, c, inr f) k =
      let back =
        next-break p (some (if eqb (n % 2 ^ 32 % max every 1) 0 then long else short))
          (elapsed s now) in
      ground arith

  toggle-IsPomodoro :
      (s : Session) (now : Instant) (n : ℕ)
      → IsPomodoro length short long every n s
      → IsPomodoro length short long every n (toggle s now)
  unfolding toggle
  toggle-IsPomodoro s now n h = elim (Option-cases s.running_since) [
    | inl e ↦ rw (e, toggle) h
    | inr (since, e) ↦ rw (e, toggle) h
  ]

  -- A tick that gives a new phase has skipped, and one that gives none has done nothing.
  tick-cases :
      (s s' : Session) (now : Instant) (new : Option Phase) (n : ℕ)
      → IsPomodoro length short long every n s
      → tick s now ≡ some (s', new)
      → ((new ≡ none) × (s' ≡ s)) ⊎ ((phase : Phase) × (new ≡ some phase) × (skip s now ≡ some s'))
  unfolding tick
  tick-cases s s' now new n h e = elim (Bool-cases (is_over s now)) [
    | inl o ↦ elim (Option-cases (skip s now)) [
      | inl k ↦ absurd (skip-some s now n h k)
      | inr (next, k) ↦ inr (next.phase, ground arith, ground arith)
    ]
    | inr o ↦ inl (ground arith, ground arith)
  ]

  Step-IsPomodoro :
      {s s' : Session} (t : Step s s') (n : ℕ)
      → IsPomodoro length short long every n s
      → IsPomodoro length short long every (n + completed t) s'
  Step-IsPomodoro (toggled s now) n h =
      subst (λ m. IsPomodoro length short long every m (toggle s now)) (omega arith)
        (toggle-IsPomodoro s now n h)
  Step-IsPomodoro (skipped s s' now e) n h = skip-IsPomodoro s s' now n h e
  Step-IsPomodoro (ticked s s' now none e) n h = elim (tick-cases s s' now none n h e) [
    | inl (_, same) ↦
        subst (λ m. IsPomodoro length short long every m s') (omega arith)
          (subst (λ u. IsPomodoro length short long every n u) (sym same) h)
    | inr (phase, e', k) ↦ absurd (ground arith)
  ]
  Step-IsPomodoro (ticked s s' now (some phase) e) n h =
      elim (tick-cases s s' now (some phase) n h e) [
        | inl (e', same) ↦ absurd (ground arith)
        | inr (phase', _, k) ↦ skip-IsPomodoro s s' now n h k
      ]

  start-IsPomodoro :
      (now : Instant)
      → IsPomodoro length short long every 0
          (start (by_pomodoro (pomodoro length short long every)) now)
  unfolding start pomodoro initial
  start-IsPomodoro now =
      (pomodoro length short long every, refl, refl, refl, refl, refl, refl, inl refl)

  Reach-IsPomodoro :
      {s s' : Session} (r : Reach s s')
      → IsPomodoro length short long every 0 s
      → IsPomodoro length short long every (focuses r) s'
  Reach-IsPomodoro here h = h
  Reach-IsPomodoro (after r t) h = Step-IsPomodoro t (focuses r) (Reach-IsPomodoro r h)

  -- In every session that pausing, resuming, skipping and ticking lead to from the start of a pomodoro,
  -- the engine counts the times that a focus was left, modulo 2 ^ 32, the phase is a focus of the given
  -- length or the break that this count calls for, the long one after every so many, and skipping does
  -- not panic.
  pub Reach-start :
      (began now : Instant) (s : Session)
      (r : Reach (start (by_pomodoro (pomodoro length short long every)) began) s)
      → IsPomodoro length short long every (focuses r) s × (skip s now ≢ none)
  Reach-start began now s r =
      let h = Reach-IsPomodoro r (start-IsPomodoro began) in (h, skip-some s now (focuses r) h)
