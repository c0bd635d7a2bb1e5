-- ===== src/Service/Reminders/Once.antt =====
-- crates/mgmt-service/src/reminders.rs: a reminder that one call reports is not reported by a later one.
use mgmtui.Base.{
  ◌⊎◌, ℕ, Text, text_eq, ==-same, contains, true, some, List, [], ◌∷◌, ◌++◌, ◌≡◌, arith, In, All,
  All-map, inl, inr,
}
use mgmtui.Base.Int.{ℤ}
use mgmtui.Domain.Instant.{Instant}
use mgmtui.Domain.Event.{Event, Alarm, fire_at}
use mgmtui.Domain.Task.{Task}
use mgmtui.Service.Reminders.{ReminderHit, task_key, alarm_key, pending}
use mgmtui.Service.Reminders.Laws.{TaskIsDue, AlarmIsDue, IsDue, pending-IsDue}
use mgmtui.Service.Reminders.Reported.{keys, pending-task, pending-alarm}

contains-In : (k : Text) (xs ys : List Text) → In k xs → contains (xs ++ ys) k ≡ true
contains-In k [] ys m = absurd m
contains-In k (x ∷ xs) ys m = ground (arith, contains-In k xs ys, ==-same k)

module _ (tasks : List Task) (events : List Event) (now : Instant) (fired : List Text) where
  -- The hit is that of a reminder of a task, or of an alarm of an event, that was not due at the instant.
  abbrev pub IsNew : ReminderHit → Type 0
  IsNew h =
      ((t : Task) × (due : Instant) × (r : ℤ) × In t tasks
        × (t.due ≡ some due)
        × In r t.reminders
        × (h.key ≡ task_key t.uid due r)
        × ¬ TaskIsDue now fired t due r)
      ⊎ ((e : Event) × (a : Alarm) × (fire : Instant) × In e events
          × In a e.alarms
          × (fire_at a e ≡ some fire)
          × (h.key ≡ alarm_key e fire)
          × ¬ AlarmIsDue now fired e a fire)

  module _ (rfc3339 : Instant → Text) (local_time : Instant → ℕ × ℕ) (hits : List ReminderHit)
      (first : pending rfc3339 local_time tasks events now fired ≡ some hits) where
    IsDue-IsNew :
        (later : Instant) (h : ReminderHit)
        → IsDue later (keys hits ++ fired) tasks events h
        → IsNew h
    IsDue-IsNew later h (inl (t, m, (due, r, (fire, d, i, f, o, n, k), same, target))) = inl (
      t,
      due,
      r,
      m,
      d,
      i,
      same,
      λ was.
          let before =
            pending-task now fired rfc3339 local_time tasks events hits t due r m was first in
          absurd (ground (arith, contains-In (task_key t.uid due r) (keys hits) fired before)),
    )
    IsDue-IsNew later h (inr (e, m, (a, fire, (target, s, i, f, w, o, n, k, l), same, at))) = inr (
      e,
      a,
      fire,
      m,
      i,
      f,
      same,
      λ was.
          let before =
            pending-alarm now fired rfc3339 local_time tasks events hits e a fire m was first in
          absurd (ground (arith, contains-In (alarm_key e fire) (keys hits) fired before)),
    )

-- If the keys that a call reports are among the reported ones of another call, at any instant, for the
-- same tasks and events, then all that the second call reports was not due at the first.
pub pending-once :
    (rfc3339 : Instant → Text) (local_time : Instant → ℕ × ℕ) (tasks : List Task)
    (events : List Event) (now later : Instant) (fired : List Text) (hits again : List ReminderHit)
    → pending rfc3339 local_time tasks events now fired ≡ some hits
    → pending rfc3339 local_time tasks events later (keys hits ++ fired) ≡ some again
    → All (IsNew tasks events now fired) again
pending-once rfc3339 local_time tasks events now later fired hits again first second =
    All-map _ _ (IsDue-IsNew tasks events now fired rfc3339 local_time hits first later) again
      (pending-IsDue later (keys hits ++ fired) rfc3339 local_time tasks events again second)
