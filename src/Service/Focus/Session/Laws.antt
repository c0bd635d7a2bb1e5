-- ===== src/Service/Focus/Session/Laws.antt =====
-- crates/mgmt-service/src/status.rs: the time of a phase, and when it ends.
use mgmtui.Base.{
  Bool-cases, ◌≢◌, ℕ, ◌+◌, ◌≤◌, ◌<◌, true, false, none, some, ◌≡◌, ◌↔◌, arith, if◌then◌else◌,
  Option-cases, inl, inr,
}
use mgmtui.Domain.Instant.{Instant}
use mgmtui.Service.Focus.{target, next}
use mgmtui.Service.Focus.Session.{
  Session, is_running, elapsed, remaining, toggle, skip, is_over, tick, ends_at,
}

-- A pause stops the time of a phase, at any later instant, and a resumed phase goes on from there.
pub elapsed-toggle :
    (s : Session) (now : Instant) (later : ℕ)
    → elapsed (toggle s now) (now + later)
      ≡ (if is_running s then elapsed s now else elapsed s now + later)
unfolding elapsed toggle is_running
elapsed-toggle s now later = ground arith

is_over-ends_at :
    (s : Session) (since now end : Instant)
    → s.running_since ≡ some since
    → since ≤ now
    → ends_at s ≡ some (some end)
    → (is_over s now ≡ true) ↔ (end ≤ now)
unfolding is_over is_running remaining elapsed ends_at
is_over-ends_at s since now end r h e = elim (Option-cases (target s.phase)) [
  | inl t ↦ absurd (ground arith)
  | inr (t, k) ↦ ground arith
]

tick-over : (s : Session) (now : Instant) → is_over s now ≡ true → tick s now ≢ some (s, none)
unfolding tick
tick-over s now o e = elim (Option-cases (skip s now)) [
  | inl k ↦ ground arith
  | inr (next, k) ↦ ground arith
]

tick-going : (s : Session) (now : Instant) → is_over s now ≡ false → tick s now ≡ some (s, none)
unfolding tick
tick-going s now o = rw (o, tick)

-- The instant that a status bar is sent as the end of a running phase is the first one, from the start
-- of the segment on, at which a tick ends the phase.
pub tick-ends_at :
    (s : Session) (since now end : Instant)
    → s.running_since ≡ some since
    → since ≤ now
    → ends_at s ≡ some (some end)
    → (tick s now ≡ some (s, none)) ↔ (now < end)
tick-ends_at s since now end r h e =
    let over = is_over-ends_at s since now end r h e in
    elim (Bool-cases (is_over s now)) [
      | inl o ↦ (λ t. absurd (tick-over s now o t), λ l. absurd (omega (arith, over.0 o)))
      | inr o ↦ (λ t. ground (arith, over.1), λ l. tick-going s now o)
    ]
