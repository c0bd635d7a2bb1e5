-- ===== src/Service/Reminders/Reported.antt =====
-- crates/mgmt-service/src/reminders.rs: a reminder whose window is open is reported.
use mathlib.Core.Path.{subst}
use mgmtui.Base.{
  map, ◌⊎◌, sym, ℕ, ◌≤◌, ◌<◌, Text, text_eq, contains, Bool, true, false, Option, none, some, List,
  [], ◌∷◌, ◌++◌, ◌≡◌, ◌≢◌, refl, arith, In, inl, inr,
}
use mgmtui.Base.Int.{ℤ}
use mgmtui.Domain.Instant.{Instant, sub_minutes}
use mgmtui.Domain.Event.{Event, EventStatus, confirmed, tentative, cancelled, Alarm, fire_at}
use mgmtui.Domain.Task.{Task}
use mgmtui.Service.Reminders.{
  ReminderHit, both, hit_if, task_key, task_hit, task_reminder, task_reminders, pending_tasks,
  window_end, alarm_key, legacy_key, alarm_hit, alarm_reminder, alarm_reminders, pending_events,
  pending,
}
use mgmtui.Service.Reminders.Laws.{both-eq-some, TaskIsDue, AlarmIsDue}

abbrev pub keys : List ReminderHit → List Text
keys hits = map (λ h. h.key) hits

In-keys-append :
    (k : Text) (xs ys : List ReminderHit)
    → (In k (keys xs) ⊎ In k (keys ys))
    → In k (keys (xs ++ ys))
In-keys-append k [] ys (inl m) = absurd m
In-keys-append k [] ys (inr m) = m
In-keys-append k (x ∷ xs) ys m = ground (arith, In-keys-append k xs ys)

-- The key is reported, if there is no panic.
abbrev Gives : Text → Option (List ReminderHit) → Type 0
Gives k o = (hits : List ReminderHit) → o ≡ some hits → In k (keys hits)

both-Gives :
    (k : Text) (xs ys : Option (List ReminderHit))
    → (Gives k xs ⊎ Gives k ys)
    → Gives k (both xs ys)
both-Gives k xs ys (inl h) hits e =
    let (front, back, ex, ey, split) = both-eq-some xs ys hits e in
    rw split (In-keys-append k front back (inl (h front ex)))
both-Gives k xs ys (inr h) hits e =
    let (front, back, ex, ey, split) = both-eq-some xs ys hits e in
    rw split (In-keys-append k front back (inr (h back ey)))

one-Gives : (b : Bool) (h : ReminderHit) → b ≡ true → Gives h.key (some (hit_if b h))
one-Gives b h e hits f = let same : hits ≡ h ∷ [] = ground arith in rw same (inl refl)

module _ (now : Instant) (fired : List Text) where
  task_reminder-Gives :
      (t : Task) (due fire : Instant) (r : ℤ)
      → sub_minutes due r ≡ some fire
      → fire ≤ now
      → now < due
      → contains fired (task_key t.uid due r) ≡ false
      → Gives (task_key t.uid due r) (task_reminder t due now fired r)
  unfolding task_reminder task_hit
  task_reminder-Gives t due fire r e h k n =
      rw (e, task_reminder) (one-Gives _ (task_hit t due r) (ground arith))

  task_reminders-Gives :
      (t : Task) (due : Instant) (key : Text) (r : ℤ) (rs : List ℤ)
      → In r rs
      → Gives key (task_reminder t due now fired r)
      → Gives key (task_reminders t due now fired rs)
  unfolding task_reminders
  task_reminders-Gives t due key r [] m g = absurd m
  task_reminders-Gives t due key r (x ∷ rs) (inl e) g = both-Gives key _ _ (inl (rw (sym e) g))
  task_reminders-Gives t due key r (x ∷ rs) (inr m) g =
      both-Gives key _ _ (inr (task_reminders-Gives t due key r rs m g))

  abbrev of_task : Task → Option (List ReminderHit)
  of_task t = elim t.due [ none ↦ some [] | some due ↦ task_reminders t due now fired t.reminders ]

  pending_tasks-Gives :
      (t : Task) (key : Text) (ts : List Task)
      → In t ts
      → Gives key (of_task t)
      → Gives key (pending_tasks ts now fired)
  unfolding pending_tasks
  pending_tasks-Gives t key [] m g = absurd m
  pending_tasks-Gives t key (x ∷ ts) (inl e) g =
      both-Gives key (of_task x) _ (inl (subst (λ y. Gives key (of_task y)) e g))
  pending_tasks-Gives t key (x ∷ ts) (inr m) g =
      both-Gives key _ _ (inr (pending_tasks-Gives t key ts m g))

  dated-Gives :
      (t : Task) (due : Instant) (key : Text) (d : Option Instant)
      → d ≡ some due
      → Gives key (task_reminders t due now fired t.reminders)
      → Gives key (elim d [ none ↦ some [] | some w ↦ task_reminders t w now fired t.reminders ])
  dated-Gives t due key d e g = rw e g

  module _ (rfc3339 : Instant → Text) (local_time : Instant → ℕ × ℕ) where
    alarm_reminder-Gives :
        (e : Event) (a : Alarm) (fire target : Instant)
        → fire_at a e ≡ some fire
        → window_end e fire ≡ some target
        → fire ≤ now
        → now < target
        → contains fired (alarm_key e fire) ≡ false
        → contains fired (legacy_key e fire) ≡ false
        → Gives (alarm_key e fire) (alarm_reminder rfc3339 local_time e now fired a)
    unfolding alarm_reminder alarm_hit
    alarm_reminder-Gives e a fire target f w h k n l =
        rw (f, alarm_reminder)
          (rw w (one-Gives _ (alarm_hit rfc3339 local_time e a fire target) (ground arith)))

    alarm_reminders-Gives :
        (e : Event) (a : Alarm) (key : Text) (alarms : List Alarm)
        → In a alarms
        → Gives key (alarm_reminder rfc3339 local_time e now fired a)
        → Gives key (alarm_reminders rfc3339 local_time e now fired alarms)
    unfolding alarm_reminders
    alarm_reminders-Gives e a key [] m g = absurd m
    alarm_reminders-Gives e a key (x ∷ alarms) (inl same) g =
        both-Gives key _ _
          (inl (subst (λ y. Gives key (alarm_reminder rfc3339 local_time e now fired y)) same g))
    alarm_reminders-Gives e a key (x ∷ alarms) (inr m) g =
        both-Gives key _ _ (inr (alarm_reminders-Gives e a key alarms m g))

    abbrev of_event : Event → EventStatus → Option (List ReminderHit)
    of_event e status = elim status [
      | cancelled ↦ some []
      | _ ↦ alarm_reminders rfc3339 local_time e now fired e.alarms
    ]

    standing-Gives :
        (e : Event) (status : EventStatus) (key : Text)
        → status ≢ cancelled
        → Gives key (alarm_reminders rfc3339 local_time e now fired e.alarms)
        → Gives key (of_event e status)
    standing-Gives e confirmed key n g = g
    standing-Gives e tentative key n g = g
    standing-Gives e cancelled key n g = absurd (n refl)

    pending_events-Gives :
        (e : Event) (key : Text) (es : List Event)
        → In e es
        → Gives key (of_event e e.status)
        → Gives key (pending_events rfc3339 local_time es now fired)
    unfolding pending_events
    pending_events-Gives e key [] m g = absurd m
    pending_events-Gives e key (x ∷ es) (inl same) g =
        both-Gives key (of_event x x.status) _
          (inl (subst (λ y. Gives key (of_event y y.status)) same g))
    pending_events-Gives e key (x ∷ es) (inr m) g =
        both-Gives key _ _ (inr (pending_events-Gives e key es m g))

    module _ (tasks : List Task) (events : List Event) (hits : List ReminderHit) where
      -- A reminder of a task that is due now and was not reported is reported, if nothing panics.
      pub pending-task :
          (t : Task) (due : Instant) (r : ℤ)
          → In t tasks
          → TaskIsDue now fired t due r
          → pending rfc3339 local_time tasks events now fired ≡ some hits
          → In (task_key t.uid due r) (keys hits)
      unfolding pending
      pending-task t due r m (fire, d, i, f, h, k, n) e =
          let key = task_key t.uid due r in
          both-Gives key _ _
            (inl (
              pending_tasks-Gives t key tasks m (
                dated-Gives t due key t.due d (
                  task_reminders-Gives t due key r t.reminders i
                    (task_reminder-Gives t due fire r f h k n)))))
            hits e

      -- An alarm of an event that is not cancelled, whose window is open now and which was not reported, is
      -- reported, if nothing panics.
      pub pending-alarm :
          (e : Event) (a : Alarm) (fire : Instant)
          → In e events
          → AlarmIsDue now fired e a fire
          → pending rfc3339 local_time tasks events now fired ≡ some hits
          → In (alarm_key e fire) (keys hits)
      unfolding pending
      pending-alarm e a fire m (target, s, i, f, w, h, k, n, l) p =
          let key = alarm_key e fire in
          both-Gives key (pending_tasks tasks now fired) _
            (inr (
              pending_events-Gives e key events m (
                standing-Gives e e.status key s (
                  alarm_reminders-Gives e a key e.alarms i
                    (alarm_reminder-Gives e a fire target f w h k n l)))))
            hits p
