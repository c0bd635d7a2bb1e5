-- ===== src/Service/Context.antt =====
-- crates/mgmt-service/src/context.rs: the caches of a vault with their undo history. The calendar store is
-- an interface, whose operations give the store afterwards or an error. A stack is a list from its top.
-- The configuration is left out; the trash is its two directories. What a failed operation has already changed stays changed.
pub mod Undo
pub mod Series
pub mod Mutations
pub mod Restore
pub mod Occurrences
pub mod Projects
pub mod Board
use mgmtui.Base.{
  Text, text, text_eq, ◌==◌, contains, Bool, true, false, not, Option, none, some, List, [], ◌∷◌,
  ◌++◌, any, find?, keep, if◌then◌else◌,
}
use mgmtui.Base.Result.{Result, ok, err, ◌>>=◌}
use mgmtui.Base.Int.{ℤ}
use mgmtui.Core.{Error, invalid, not_found}
use mgmtui.Domain.Instant.{Instant}
use mgmtui.Domain.Project.{Project}
use mgmtui.Domain.Event.{Event}
use mgmtui.Domain.Task.{Task, task, Priority, no_priority, low, medium, high}
use mgmtui.Domain.Workflow.{Workflow, is_done, default_id, first_done, neighbor}
use mgmtui.Markdown.{Yaml, Frontmatter}
use mgmtui.Store.Files.{Dir}
use mgmtui.Base.Sort.{sort_by}
use mgmtui.Sync.Series.{master_first}
use mgmtui.Store.Vault
use mgmtui.Store.Trash.{trash_task, read_task, purge_task}

-- The operations of the calendar store that the context calls.
pub record EventStore (D : Type 0) : Type 0 where
  pub upsert : D → Event → Result Error D
  pub delete : D → Text → Result Error D
  pub put_series : D → Event → List Event → Result Error D

pub data Snapshot : Type 0 where
  of_task : Text → Option Task → Snapshot
  of_event : Text → Option Event → Snapshot
  of_series : Text → List Event → Snapshot

pub record Context (D : Type 0) : Type 0 where
  pub tasks : Dir
  pub events : D
  pub trash : Dir
  pub projects : Dir
  pub trashed_projects : Dir
  pub task_cache : List Task
  pub event_cache : List Event
  pub project_cache : List Project
  pub undo_stack : List Snapshot
  pub redo_stack : List Snapshot
  pub dirty : Bool
  pub read_only_calendars : List Text
  pub workflow : Workflow

abbrev pub task_by_uid : List Task → Text → Option Task
task_by_uid ts uid = find? (λ t. t.uid == uid) ts

abbrev pub event_by_uid : List Event → Text → Option Event
event_by_uid es uid = find? (λ e. e.uid == uid) es

abbrev pub members : List Event → Text → List Event
members es uid = keep (λ e. e.uid == uid) es

-- The components of a uid in the cache, the master first.
unfoldable pub series : List Event → Text → List Event
series es uid = sort_by master_first (members es uid)

-- `upsert_into`: the first element of the id is replaced, or the element is pushed.
unfoldable pub upsert_into : {A : Type 0} → (A → Text) → List A → A → List A
upsert_into id [] item = item ∷ []
upsert_into id (x ∷ xs) item =
    let rest = upsert_into id xs item in if id x == id item then item ∷ xs else x ∷ rest

abbrev stamp_events : Instant → List Event → List Event
stamp_events now [] = []
stamp_events now (e ∷ es) = record e { modified = some now } ∷ stamp_events now es

-- Only what is written is stamped; a deletion carries nothing.
unfoldable pub stamp_modified : Snapshot → Instant → Snapshot
stamp_modified (of_task uid none) now = of_task uid none
stamp_modified (of_task uid (some t)) now = of_task uid (some (record t { modified = some now }))
stamp_modified (of_event uid none) now = of_event uid none
stamp_modified (of_event uid (some e)) now = of_event uid (some (record e { modified = some now }))
stamp_modified (of_series uid comps) now = of_series uid (stamp_events now comps)

module _ {D : Type 0} (yaml : Yaml Frontmatter) (store : EventStore D) where
  abbrev pub trash_prev : Dir → Option Task → Result Error Dir
  trash_prev trash none = ok trash
  trash_prev trash (some t) = trash_task yaml trash t

  -- The three arms of `apply`, at a context that is already dirty.
  unfoldable pub apply_task : Text → Option Task → Context D → Context D × Result Error Snapshot
  apply_task uid (some t) c = elim (Vault.upsert yaml c.tasks t) [
    | err e ↦ (c, err e)
    | ok tasks ↦ (
      record c {
        tasks = tasks;
        trash = (purge_task c.trash uid).0;
        task_cache = upsert_into (λ x. x.uid) c.task_cache t;
      },
      ok (of_task uid (task_by_uid c.task_cache uid)),
    )
  ]
  apply_task uid none c = elim (trash_prev c.trash (task_by_uid c.task_cache uid)) [
    | err e ↦ (c, err e)
    | ok trash ↦ (
      record c {
        tasks = (Vault.delete c.tasks uid).0;
        trash = trash;
        task_cache = keep (λ t. not (t.uid == uid)) c.task_cache;
      },
      ok (of_task uid (task_by_uid c.task_cache uid)),
    )
  ]

  unfoldable pub apply_event : Text → Option Event → Context D → Context D × Result Error Snapshot
  apply_event uid (some e) c = elim (store.upsert c.events e) [
    | err x ↦ (c, err x)
    | ok events ↦ (
      record c { events = events; event_cache = upsert_into (λ x. x.uid) c.event_cache e },
      ok (of_event uid (event_by_uid c.event_cache uid)),
    )
  ]
  apply_event uid none c = elim (store.delete c.events uid) [
    | err x ↦ (c, err x)
    | ok events ↦ (
      record c { events = events; event_cache = keep (λ e. not (e.uid == uid)) c.event_cache },
      ok (of_event uid (event_by_uid c.event_cache uid)),
    )
  ]

  abbrev pub write_comps : D → Text → List Event → Result Error D
  write_comps events uid [] = store.delete events uid
  write_comps events uid (master ∷ overrides) = store.put_series events master overrides

  unfoldable pub apply_series : Text → List Event → Context D → Context D × Result Error Snapshot
  apply_series uid comps c = elim (write_comps c.events uid comps) [
    | err x ↦ (c, err x)
    | ok events ↦ (
      record c {
        events = events;
        event_cache = keep (λ e. not (e.uid == uid)) c.event_cache ++ comps;
      },
      ok (of_series uid (series c.event_cache uid)),
    )
  ]

  unfoldable pub apply : Snapshot → Context D → Context D × Result Error Snapshot
  apply (of_task uid val) c = apply_task uid val (record c { dirty = true })
  apply (of_event uid val) c = apply_event uid val (record c { dirty = true })
  apply (of_series uid comps) c = apply_series uid comps (record c { dirty = true })

  abbrev pub pushed_undo : Context D × Result Error Snapshot → Context D × Option Error
  pushed_undo (c, ok inverse) =
      (record c { undo_stack = inverse ∷ c.undo_stack; redo_stack = [] }, none)
  pushed_undo (c, err e) = (c, some e)

  -- A fresh mutation, which is stamped; the state, and the error if it failed.
  unfoldable pub record_change : Snapshot → Instant → Context D → Context D × Option Error
  record_change snap now c = pushed_undo (apply (stamp_modified snap now) c)

  abbrev pub redoable : Context D × Result Error Snapshot → Context D × Result Error Bool
  redoable (c, ok inverse) = (record c { redo_stack = inverse ∷ c.redo_stack }, ok true)
  redoable (c, err e) = (c, err e)

  abbrev pub undoable : Context D × Result Error Snapshot → Context D × Result Error Bool
  undoable (c, ok inverse) = (record c { undo_stack = inverse ∷ c.undo_stack }, ok true)
  undoable (c, err e) = (c, err e)

  unfoldable pub undo : Context D → Context D × Result Error Bool
  undo c = elim c.undo_stack [
    | [] ↦ (c, ok false)
    | snap ∷ rest ↦ redoable (apply snap (record c { undo_stack = rest }))
  ]

  unfoldable pub redo : Context D → Context D × Result Error Bool
  redo c = elim c.redo_stack [
    | [] ↦ (c, ok false)
    | snap ∷ rest ↦ undoable (apply snap (record c { redo_stack = rest }))
  ]
