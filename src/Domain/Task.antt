-- ===== src/Domain/Task.antt =====
-- crates/mgmt-domain/src/task.rs: tasks.
use mgmtui.Base.{text, [], ℕ, Text, Option, none, some, List}
use mgmtui.Domain.Instant.{Instant}
use mgmtui.Base.Int.{ℤ}
use mgmtui.Domain.Event.{SyncMeta}

pub data Priority : Type 0 where
  no_priority low medium high : Priority

-- A reminder is its offset in minutes.
pub record Task : Type 0 where
  pub uid : Text
  pub title : Text
  pub body : Text
  pub status : Text
  pub priority : Priority
  pub project : Option Text
  pub area : Option Text
  pub tags : List Text
  pub due : Option Instant
  pub scheduled : Option Instant
  pub reminders : List ℤ
  pub completion : Option ℕ
  pub created : Option Instant
  pub modified : Option Instant
  pub sync : SyncMeta

-- `scheduled`, or else `due`.
unfoldable pub calendar_date : Task → Option Instant
calendar_date t = elim t.scheduled [ some s ↦ some s | none ↦ t.due ]

-- `Task::new`, at the fresh uid.
unfoldable pub task : Text → Text → Task
task uid title = record {
  uid = uid;
  title = title;
  body = [];
  status = text "todo";
  priority = no_priority;
  project = none;
  area = none;
  tags = [];
  due = none;
  scheduled = none;
  reminders = [];
  completion = none;
  created = none;
  modified = none;
  sync = record { href = none; etag = none };
}

unfoldable pub with_project : Task → Text → Task
with_project t project = record t { project = some project }

unfoldable pub with_status : Task → Text → Task
with_status t status = record t { status = status }
