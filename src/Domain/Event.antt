-- ===== src/Domain/Event.antt =====
-- crates/mgmt-domain/src/event.rs: events and their alarms.
use mgmtui.Base.{
  ◌||◌, ◌-◌, suc, ◌+◌, [], leb, if◌then◌else◌, false, some, none, Text, Bool, Option, List, ltb,
  ◌&&◌,
}
use mgmtui.Base.Chars.{has_substring}
use mgmtui.Base.Int.{negsuc, sub_ℕ, pos, ℤ}
use mgmtui.Domain.Instant.{last_instant, add_minutes, sub_minutes, Instant}
use mgmtui.Domain.Recurrence.{RecurrenceRule}

pub record SyncMeta : Type 0 where
  pub href : Option Text
  pub etag : Option Text

pub data EventStatus : Type 0 where
  confirmed tentative cancelled : EventStatus

pub data Transparency : Type 0 where
  opaque transparent : Transparency

pub data Classification : Type 0 where
  public private confidential : Classification

pub record Attendee : Type 0 where
  pub email : Text
  pub name : Option Text
  pub role : Option Text
  pub partstat : Option Text
  pub rsvp : Bool

-- Minutes are `i64` in the source.
pub data AlarmTrigger : Type 0 where
  minutes_before : ℤ → AlarmTrigger
  minutes_after_start : ℤ → AlarmTrigger
  minutes_before_end : ℤ → AlarmTrigger
  at : Instant → AlarmTrigger

pub data AlarmAction : Type 0 where
  notify navigate : AlarmAction
  run : Text → List Text → AlarmAction

pub record Alarm : Type 0 where
  pub trigger : AlarmTrigger
  pub action : AlarmAction
  pub description : Option Text

-- The field `end` is `finish` here.
pub record Event : Type 0 where
  pub uid : Text
  pub calendar : Text
  pub summary : Text
  pub project : Option Text
  pub description : Option Text
  pub location : Option Text
  pub conference_url : Option Text
  pub all_day : Bool
  pub start : Instant
  pub finish : Instant
  pub rrule : Option RecurrenceRule
  pub exdates : List Instant
  pub recurrence_id : Option Instant
  pub alarms : List Alarm
  pub status : EventStatus
  pub modified : Option Instant
  pub sync : SyncMeta
  pub transp : Transparency
  pub class : Classification
  pub color : Option Text
  pub url : Option Text
  pub categories : List Text
  pub organizer : Option Attendee
  pub attendees : List Attendee

-- Whether the event overlaps the half-open range.
unfoldable pub overlaps : Event → Instant → Instant → Bool
overlaps e from to = ltb e.start to && ltb from e.finish

-- `Alarm::minutes_before` and `Alarm::with_action`
unfoldable pub alarm_before : ℤ → Alarm
alarm_before m = record { trigger = minutes_before m; action = notify; description = none }

unfoldable pub with_action : ℤ → AlarmAction → Alarm
with_action m action = record { trigger = minutes_before m; action = action; description = none }

-- `Alarm::minutes`
unfoldable pub minutes : Alarm → ℤ
minutes a = elim a.trigger [ minutes_before m ↦ m | _ ↦ pos 0 ]

-- A result outside the range of the date library is a panic.
unfoldable pub fire_at : Alarm → Event → Option Instant
fire_at a e = elim a.trigger [
  | minutes_before m ↦ sub_minutes e.start m
  | minutes_after_start m ↦ add_minutes e.start m
  | minutes_before_end m ↦ sub_minutes e.finish m
  | at t ↦ some t
]

-- `Event::new`, at the fresh uid.
unfoldable pub event : Text → Text → Text → Instant → Instant → Event
event uid calendar summary start finish = record {
  uid = uid;
  calendar = calendar;
  summary = summary;
  project = none;
  description = none;
  location = none;
  conference_url = none;
  all_day = false;
  start = start;
  finish = finish;
  rrule = none;
  exdates = [];
  recurrence_id = none;
  alarms = [];
  status = confirmed;
  modified = none;
  sync = record { href = none; etag = none };
  transp = opaque;
  class = public;
  color = none;
  url = none;
  categories = [];
  organizer = none;
  attendees = [];
}

-- `duration` and `shift`, in nanoseconds; a shift out of the range of the date library is a panic.
unfoldable pub duration : Event → ℤ
duration e = sub_ℕ e.finish e.start

abbrev pub moved_by : Instant → ℤ → Option Instant
moved_by t (pos n) = if leb (t + n) last_instant then some (t + n) else none
moved_by t (negsuc n) = if leb (suc n) t then some (t - suc n) else none

unfoldable pub shift : Event → ℤ → Option Event
shift e delta = elim (moved_by e.start delta) [
  | none ↦ none
  | some start ↦ elim (moved_by e.finish delta) [
    | none ↦ none
    | some finish ↦ some (record e { start = start; finish = finish })
  ]
]

module _ (to_lowercase : Text → Text) where
  unfoldable pub matches_text : Event → Text → Bool
  matches_text e query =
      let q = to_lowercase query in
      has_substring q (to_lowercase e.summary)
      || elim e.location [ none ↦ false | some l ↦ has_substring q (to_lowercase l) ]
