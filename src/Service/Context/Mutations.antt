-- ===== src/Service/Context/Mutations.antt =====
-- crates/mgmt-service/src/context.rs: the mutations that a user makes of tasks and events. The time and the
-- uid of a new task are arguments.
use mgmtui.Base.{
  Text, text, text_eq, ◌==◌, contains, Bool, true, false, Option, none, some, List, [], ◌∷◌,
  if◌then◌else◌,
}
use mgmtui.Base.Result.{Result, ok, err}
use mgmtui.Base.Int.{ℤ}
use mgmtui.Core.{Error, invalid, not_found}
use mgmtui.Domain.Instant.{Instant}
use mgmtui.Domain.Event.{Event}
use mgmtui.Domain.Task.{Task, task, Priority, no_priority, low, medium, high}
use mgmtui.Domain.Workflow.{is_done, default_id, first_done, neighbor}
use mgmtui.Markdown.{Yaml, Frontmatter}
use mgmtui.Store.Trash.{read_task}
use mgmtui.Service.Context.{
  EventStore, of_task, of_event, of_series, Context, task_by_uid, record_change,
}

-- `Context::event`: the master of a series.
abbrev pub master_by_uid : List Event → Text → Option Event
master_by_uid [] uid = none
master_by_uid (e ∷ es) uid =
    let rest = master_by_uid es uid in
    if e.uid == uid then elim e.recurrence_id [ none ↦ some e | some r ↦ rest ] else rest

abbrev pub next_priority : Priority → Priority
next_priority no_priority = low
next_priority low = medium
next_priority medium = high
next_priority high = no_priority

abbrev pub or_else : Option Text → Text → Text
or_else none d = d
or_else (some x) d = x

-- The value of an operation that is returned if the change that comes before it went through.
abbrev pub returning : {D A : Type 0} → A → Context D × Option Error → Context D × Result Error A
returning a (c, none) = (c, ok a)
returning a (c, some e) = (c, err e)

-- `None` is the error where the calendar is a read-only subscription.
unfoldable pub ensure_writable : {D : Type 0} → Context D → Text → Option Error
ensure_writable c calendar = if contains c.read_only_calendars calendar then some invalid else none

module _ {D : Type 0} (yaml : Yaml Frontmatter) (store : EventStore D) where
  unfoldable pub put_task : Task → Instant → Context D → Context D × Option Error
  put_task t now c = record_change yaml store (of_task t.uid (some t)) now c

  unfoldable pub delete_task : Text → Instant → Context D → Context D × Option Error
  delete_task uid now c = record_change yaml store (of_task uid none) now c

  -- `quick_add`, at the uid that `Task::new` makes.
  unfoldable pub quick_add :
      Text → Text → Option Text → Instant → Context D → Context D × Result Error Text
  quick_add uid title project now c = returning uid (
      put_task
        (record (task uid title) {
          status = default_id c.workflow;
          project = project;
          created = some now;
        })
        now c)

  unfoldable pub set_task_status : Text → Text → Instant → Context D → Context D × Option Error
  set_task_status uid status now c = elim (task_by_uid c.task_cache uid) [
    | none ↦ (c, some not_found)
    | some t ↦ put_task (record t { status = status }) now c
  ]

  unfoldable pub toggle_task_done : Text → Instant → Context D → Context D × Result Error Text
  toggle_task_done uid now c = elim (task_by_uid c.task_cache uid) [
    | none ↦ (c, err not_found)
    | some t ↦
        let new =
          if is_done c.workflow t.status
          then default_id c.workflow
          else or_else (first_done c.workflow) (text "done") in
        returning new (set_task_status uid new now c)
  ]

  unfoldable pub move_task : Text → ℤ → Instant → Context D → Context D × Result Error Text
  move_task uid dir now c = elim (task_by_uid c.task_cache uid) [
    | none ↦ (c, err not_found)
    | some t ↦
        let new = or_else (neighbor c.workflow t.status dir) t.status in
        returning new (set_task_status uid new now c)
  ]

  unfoldable pub cycle_task_priority : Text → Instant → Context D → Context D × Option Error
  cycle_task_priority uid now c = elim (task_by_uid c.task_cache uid) [
    | none ↦ (c, some not_found)
    | some t ↦ put_task (record t { priority = next_priority t.priority }) now c
  ]

  unfoldable pub restore_task : Text → Instant → Context D → Context D × Result Error Bool
  restore_task uid now c = elim (read_task yaml c.trash uid) [
    | none ↦ (c, ok false)
    | some t ↦ returning true (put_task t now c)
  ]

  unfoldable pub put_event : Event → Instant → Context D → Context D × Option Error
  put_event e now c = elim (ensure_writable c e.calendar) [
    | some x ↦ (c, some x)
    | none ↦ record_change yaml store (of_event e.uid (some e)) now c
  ]

  abbrev pub master_writable : Context D → List Event → Option Error
  master_writable c [] = none
  master_writable c (master ∷ overrides) = ensure_writable c master.calendar

  unfoldable pub put_series : Text → List Event → Instant → Context D → Context D × Option Error
  put_series uid comps now c = elim (master_writable c comps) [
    | some x ↦ (c, some x)
    | none ↦ record_change yaml store (of_series uid comps) now c
  ]

  abbrev pub event_writable : Context D → Option Event → Option Error
  event_writable c none = none
  event_writable c (some e) = ensure_writable c e.calendar

  unfoldable pub delete_event : Text → Instant → Context D → Context D × Option Error
  delete_event uid now c = elim (event_writable c (master_by_uid c.event_cache uid)) [
    | some x ↦ (c, some x)
    | none ↦ record_change yaml store (of_event uid none) now c
  ]
