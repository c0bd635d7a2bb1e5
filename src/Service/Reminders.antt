-- ===== src/Service/Reminders.antt =====
-- crates/mgmt-service/src/reminders.rs: the reminders that are due at an instant. A result out of the
-- range of the date library is a panic, `none`. The local clock time of an instant and its RFC 3339 text
-- are parameters.
pub mod Laws
pub mod Once
pub mod Reported
use mgmtui.Base.{
  ℕ, suc, zero, ◌+◌, ◌-◌, ◌/◌, ◌%◌, ◌*◌, max, Text, text, text_eq, ◌==◌, contains, Bool, true,
  false, ◌&&◌, ◌||◌, not, Option, none, some, List, [], ◌∷◌, ◌++◌, map, length, ltb, leb, eqb,
  if◌then◌else◌,
}
use mgmtui.Base.Int.{ℤ, pos, negsuc}
use mgmtui.Base.Chars.{strip_prefix}
use mgmtui.Base.Decimal.{digits, show_signed}
use mgmtui.Domain.Instant.{Instant, minute, add_minutes, sub_minutes, timestamp, minutes_between}
use mgmtui.Domain.Event.{Event, EventStatus, cancelled, Alarm, AlarmAction, fire_at}
use mgmtui.Domain.Task.{Task}
use mgmtui.Domain.Reminder.{label}

pub data HitAction : Type 0 where
  notify : HitAction
  navigate : Text → HitAction
  run : Text → List Text → HitAction

pub record ReminderHit : Type 0 where
  pub key : Text
  pub title : Text
  pub body : Text
  pub action : HitAction
  pub target : Instant

abbrev pub late_grace : ℤ
late_grace = pos 15

abbrev colon : Text
colon = text ":"

unfoldable pub task_key : Text → Instant → ℤ → Text
task_key uid due minutes =
    text "task:" ++ uid ++ colon ++ show_signed (timestamp due) ++ colon ++ show_signed minutes

unfoldable pub event_key : Text → Instant → ℤ → Text
event_key uid start last =
    text "event:" ++ uid ++ colon ++ show_signed (timestamp start) ++ colon ++ show_signed last

-- The hits of both, unless one panics.
abbrev pub both : Option (List ReminderHit) → Option (List ReminderHit) → Option (List ReminderHit)
both none ys = none
both (some xs) none = none
both (some xs) (some ys) = some (xs ++ ys)

abbrev pub in_window : Instant → Instant → Instant → Bool
in_window fire target now = leb fire now && ltb now target

abbrev pub hit_if : Bool → ReminderHit → List ReminderHit
hit_if true hit = hit ∷ []
hit_if false hit = []

unfoldable pub task_hit : Task → Instant → ℤ → ReminderHit
task_hit t due minutes = record {
  key = task_key t.uid due minutes;
  title = text "Task due in " ++ label minutes;
  body = t.title;
  action = notify;
  target = due;
}

-- Whether a key in the window was not reported before.
abbrev pub is_new : List Text → Text → Bool
is_new fired key = not (contains fired key)

-- One reminder of a task that is due.
unfoldable pub task_reminder : Task → Instant → Instant → List Text → ℤ → Option (List ReminderHit)
task_reminder t due now fired minutes = elim (sub_minutes due minutes) [
  | none ↦ none
  | some fire ↦ some (
      hit_if (in_window fire due now && is_new fired (task_key t.uid due minutes))
        (task_hit t due minutes))
]

unfoldable pub task_reminders :
    Task → Instant → Instant → List Text → List ℤ → Option (List ReminderHit)
task_reminders t due now fired [] = some []
task_reminders t due now fired (r ∷ rs) =
    both (task_reminder t due now fired r) (task_reminders t due now fired rs)

unfoldable pub pending_tasks : List Task → Instant → List Text → Option (List ReminderHit)
pending_tasks [] now fired = some []
pending_tasks (t ∷ ts) now fired =
    both (elim t.due [ none ↦ some [] | some due ↦ task_reminders t due now fired t.reminders ])
      (pending_tasks ts now fired)

-- `str::replace`: what is left of a match is passed over.
unfoldable pub replace_from : ℕ → Text → Text → Text → Text
replace_from skip pat with [] = []
replace_from (suc skip) pat with (c ∷ cs) = replace_from skip pat with cs
replace_from zero pat with (c ∷ cs) = elim (strip_prefix pat (c ∷ cs)) [
  | none ↦ c ∷ replace_from zero pat with cs
  | some rest ↦ with ++ replace_from (length pat - 1) pat with cs
]

unfoldable pub replace : Text → Text → Text → Text
replace s pat with = replace_from 0 pat with s

abbrev pub two_digits : ℕ → Text
two_digits n = if ltb n 10 then b'0' ∷ digits n else digits n

-- The text of a start time, by how many minutes it is away.
unfoldable pub starts_at : Text → ℤ → Text
starts_at time (negsuc m) = text "starts at " ++ time
starts_at time (pos m) =
    if eqb m 0
    then text "starts at " ++ time
    else if ltb m 60
    then text "starts at " ++ time ++ text " (in " ++ digits m ++ text "m)"
    else if eqb (m % 60) 0
    then text "starts at " ++ time ++ text " (in " ++ digits (m / 60) ++ text "h)"
    else text "starts at "
      ++ time
      ++ text " (in "
      ++ digits (m / 60)
      ++ text "h "
      ++ digits (m % 60)
      ++ text "m)"

-- `e.start.max(fire_at + Duration::minutes(LATE_GRACE_MIN))`
unfoldable pub window_end : Event → Instant → Option Instant
window_end e fire = elim (add_minutes fire late_grace) [
  | none ↦ none
  | some late ↦ some (max e.start late)
]

-- The keys of an alarm: its own, and the one before the upgrade.
abbrev pub alarm_key : Event → Instant → Text
alarm_key e fire = event_key e.uid e.start (timestamp fire)

abbrev pub legacy_key : Event → Instant → Text
legacy_key e fire = event_key e.uid e.start (minutes_between e.start fire)

module _ (rfc3339 : Instant → Text) (local_time : Instant → ℕ × ℕ) where
  unfoldable pub expand : Text → Event → ℤ → Text
  expand tpl e minutes =
      let s1 = replace tpl (text "{uid}") e.uid in
      let s2 = replace s1 (text "{summary}") e.summary in
      let s3 = replace s2 (text "{start}") (rfc3339 e.start) in
      let s4 = replace s3 (text "{end}") (rfc3339 e.finish) in
      let s5 = replace s4 (text "{location}") (elim e.location [ none ↦ [] | some l ↦ l ]) in
      let s6 = replace s5 (text "{calendar}") e.calendar in
      replace s6 (text "{minutes}") (show_signed minutes)

  unfoldable pub action_of : Alarm → Event → ℤ → HitAction
  action_of a e away = elim a.action [
    | AlarmAction.notify ↦ notify
    | AlarmAction.navigate ↦ navigate e.uid
    | AlarmAction.run command args ↦ run (expand command e away) (map (λ x. expand x e away) args)
  ]

  unfoldable pub alarm_hit : Event → Alarm → Instant → Instant → ReminderHit
  alarm_hit e a fire target = record {
    key = alarm_key e fire;
    title = e.summary;
    body =
        starts_at
          (two_digits ((local_time e.start).0) ++ colon ++ two_digits ((local_time e.start).1))
          (minutes_between e.start fire);
    action = action_of a e (minutes_between e.start fire);
    target = target;
  }

  unfoldable pub alarm_reminder : Event → Instant → List Text → Alarm → Option (List ReminderHit)
  alarm_reminder e now fired a = elim (fire_at a e) [
    | none ↦ none
    | some fire ↦ elim (window_end e fire) [
      | none ↦ none
      | some target ↦ some (
          hit_if
            (in_window fire target now
              && is_new fired (alarm_key e fire)
              && is_new fired (legacy_key e fire))
            (alarm_hit e a fire target))
    ]
  ]

  unfoldable pub alarm_reminders :
      Event → Instant → List Text → List Alarm → Option (List ReminderHit)
  alarm_reminders e now fired [] = some []
  alarm_reminders e now fired (a ∷ rest) =
      both (alarm_reminder e now fired a) (alarm_reminders e now fired rest)

  unfoldable pub pending_events : List Event → Instant → List Text → Option (List ReminderHit)
  pending_events [] now fired = some []
  pending_events (e ∷ es) now fired =
      both (elim e.status [ cancelled ↦ some [] | _ ↦ alarm_reminders e now fired e.alarms ])
        (pending_events es now fired)

  unfoldable pub pending : List Task → List Event → Instant → List Text → Option (List ReminderHit)
  pending tasks events now fired =
      both (pending_tasks tasks now fired) (pending_events events now fired)
