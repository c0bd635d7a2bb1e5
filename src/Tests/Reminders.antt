-- ===== src/Tests/Reminders.antt =====
-- Runs of the reminders for a task that is due in half an hour and an event in ten minutes.
use mgmtui.Base.{
  ℕ, ◌+◌, ◌-◌, ◌*◌, Text, text, text_eq, none, some, List, [], ◌∷◌, ◌++◌, ◌≡◌, ◌≢◌, refl, arith,
  All, In, inl,
}
use mgmtui.Base.Int.{pos}
use mgmtui.Base.Chars.{strip_prefix}
use mgmtui.Base.Decimal.{show_signed, digits}
use mgmtui.Domain.Instant.{
  Instant, minute, second, epoch, sub_minutes, add_minutes, timestamp, minutes_between,
}
use mgmtui.Domain.Event.{cancelled, Event, event, alarm_before, fire_at}
use mgmtui.Domain.Task.{Task, no_priority}
use mgmtui.Domain.Reminder.{label}
use mgmtui.Service.Reminders.{
  ReminderHit, HitAction, task_key, event_key, task_hit, task_reminder, task_reminders,
  pending_tasks, window_end, alarm_key, alarm_hit, alarm_reminder, alarm_reminders, pending_events,
  pending, replace, replace_from,
}
use mgmtui.Service.Reminders.Laws.{IsDue, pending-IsDue}
use mgmtui.Service.Reminders.Once.{IsNew, pending-once}
use mgmtui.Service.Reminders.Reported.{keys, pending-alarm}

abbrev now : Instant
now = (epoch + 1_800_000_000) * second

abbrev stamp : Instant → Text
stamp i = text "then"

abbrev clock : Instant → ℕ × ℕ
clock i = (9, 5)

abbrev dentist : Task
dentist = record {
  uid = text "t1";
  title = text "Dentist";
  body = [];
  status = text "todo";
  priority = no_priority;
  project = none;
  area = none;
  tags = [];
  due = some (now + 30 * minute);
  scheduled = none;
  reminders = pos 60 ∷ pos 10 ∷ [];
  completion = none;
  created = none;
  modified = none;
  sync = record { href = none; etag = none };
}

dentist_due :
    pending_tasks (dentist ∷ []) now []
    ≡ some (
        record {
          key = text "task:t1:1800001800:60";
          title = text "Task due in 1h";
          body = text "Dentist";
          action = HitAction.notify;
          target = now + 30 * minute;
        }
        ∷ [])
unfolding pending_tasks task_reminders task_reminder task_hit task_key sub_minutes timestamp
    show_signed digits label text_eq
dentist_due = refl

replaced : replace (text "at {x}, {x}") (text "{x}") (text "1") ≡ text "at 1, 1"
unfolding replace replace_from strip_prefix
replaced = refl

abbrev standup : Event
standup =
    record (event (text "e1") (text "work") (text "Standup") (now + 10 * minute)
      (now + 25 * minute)) { alarms = alarm_before (pos 15) ∷ [] }

abbrev hits : List ReminderHit
hits =
    task_hit dentist (now + 30 * minute) (pos 60)
    ∷ alarm_hit stamp clock standup (alarm_before (pos 15)) (now - 5 * minute) (now + 10 * minute)
    ∷ []

all_due : pending stamp clock (dentist ∷ []) (standup ∷ []) now [] ≡ some hits
unfolding pending pending_tasks pending_events task_reminders task_reminder task_hit task_key
    alarm_reminders alarm_reminder alarm_hit window_end fire_at alarm_before event event_key
    sub_minutes add_minutes timestamp minutes_between show_signed digits label text_eq
all_due = refl

pending-IsDue_example : All (IsDue now [] (dentist ∷ []) (standup ∷ [])) hits
pending-IsDue_example = pending-IsDue now [] stamp clock (dentist ∷ []) (standup ∷ []) hits all_due

-- Ten minutes before, only the task is due; then only the alarm is left.
abbrev early_hits : List ReminderHit
early_hits = task_hit dentist (now + 30 * minute) (pos 60) ∷ []

abbrev late_hits : List ReminderHit
late_hits =
    alarm_hit stamp clock standup (alarm_before (pos 15)) (now - 5 * minute) (now + 10 * minute)
    ∷ []

early_due :
    pending stamp clock (dentist ∷ []) (standup ∷ []) (now - 10 * minute) [] ≡ some early_hits
unfolding pending pending_tasks pending_events task_reminders task_reminder task_hit task_key
    alarm_reminders alarm_reminder alarm_hit window_end fire_at alarm_before event event_key
    sub_minutes add_minutes timestamp minutes_between show_signed digits label text_eq
early_due = refl

late_due :
    pending stamp clock (dentist ∷ []) (standup ∷ []) now (keys early_hits ++ []) ≡ some late_hits
unfolding pending pending_tasks pending_events task_reminders task_reminder task_hit task_key
    alarm_reminders alarm_reminder alarm_hit window_end fire_at alarm_before event event_key
    sub_minutes add_minutes timestamp minutes_between show_signed digits label text_eq
late_due = refl

pending-once_example : All (IsNew (dentist ∷ []) (standup ∷ []) (now - 10 * minute) []) late_hits
pending-once_example =
    pending-once stamp clock (dentist ∷ []) (standup ∷ []) (now - 10 * minute) now [] early_hits
      late_hits early_due late_due

task_is_due : sub_minutes (now + 30 * minute) (pos 60) ≡ some (now - 30 * minute)
unfolding sub_minutes
task_is_due = refl

alarm_fires : fire_at (alarm_before (pos 15)) standup ≡ some (now - 5 * minute)
unfolding fire_at alarm_before sub_minutes event
alarm_fires = refl

alarm_open : window_end standup (now - 5 * minute) ≡ some (now + 10 * minute)
unfolding window_end add_minutes event
alarm_open = refl

standing : standup.status ≢ cancelled
unfolding event
standing = cc

pending-alarm_example : In (alarm_key standup (now - 5 * minute)) (keys hits)
pending-alarm_example =
    pending-alarm now [] stamp clock (dentist ∷ []) (standup ∷ []) hits standup
      (alarm_before (pos 15)) (now - 5 * minute) (inl refl)
      (
        now + 10 * minute,
        standing,
        inl refl,
        alarm_fires,
        alarm_open,
        omega arith,
        omega arith,
        refl,
        refl,
      )
      all_due
