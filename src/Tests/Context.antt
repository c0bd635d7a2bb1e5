-- ===== src/Tests/Context.antt =====
-- Runs of the context over a calendar store that takes everything, and a YAML library that knows one block.
use mgmtui.Base.{
  Text, text, text_eq, ◌==◌, true, false, none, some, [], ◌∷◌, ◌++◌, ◌≡◌, refl, if◌then◌else◌,
}
use mgmtui.Base.Chars.{has_substring, starts_with, strip_prefix, split_last}
use mgmtui.Base.Result.{ok}
use mgmtui.Domain.Task.{Task, task}
use mgmtui.Domain.Event.{Event, event}
use mgmtui.Domain.Workflow.{builtin}
use mgmtui.Markdown.{
  Yaml, Frontmatter, frontmatter_of, serialize_task, document, body_part, close_body,
}
use mgmtui.Markdown.RoundTrip.{ReadsBack, stored}
use mgmtui.Service.Context.{
  EventStore, Context, of_task, of_series, of_event, task_by_uid, event_by_uid, members, series,
  record_change, undo, redo,
}
use mgmtui.Service.Context.Undo.{undo-record_change}
use mgmtui.Service.Context.Series.{undo-of_series, undo-delete_event}
use mgmtui.Service.Context.Mutations.{delete_task, restore_task}
use mgmtui.Service.Context.Restore.{restore_task-delete_task}
use mgmtui.Service.Context.{
  apply, apply_event, apply_series, apply_task, stamp_modified, upsert_into,
}
use mgmtui.Store.Trash.{trash_task}
use mgmtui.Store.Vault.{upsert}
use mgmtui.Base.Sort.{sort_by}
use mgmtui.Sync.Series.{master_first}
use mgmtui.Store.Trash.{read_task}
use mgmtui.Markdown.{
  parse_task, split_frontmatter, find_fence, fence, fence_body, task_of, normalize_status,
  parse_priority, priority_str, trim_line_feeds,
}
use mgmtui.Markdown.RoundTrip.{stored_body}
use mgmtui.Base.Chars.{split, is_white, to_ascii_lowercase, lower_char, trim, trim_start, trim_end}
use mgmtui.Store.Files.{read, write}
use mgmtui.Store.Paths.{safe_stem, is_stem_char}
use mgmtui.Service.Context.Mutations.{put_task}
use mgmtui.Base.{nat_eq, option_eq}
use mgmtui.Domain.Project.{project}

abbrev pub takes_all : EventStore Unit
takes_all = record {
  upsert = λ d e. ok tt;
  delete = λ d uid. ok tt;
  put_series = λ d master overrides. ok tt;
}

abbrev pub milk : Task
milk = record (task (text "m") (text "Milk")) { body = text "oat" }

abbrev yaml_block : Text
yaml_block = text "t" ++ (10 ∷ [])

abbrev pub yaml : Yaml Frontmatter
yaml = record { to_string = λ fm. some yaml_block; from_str = λ s. some (frontmatter_of milk) }

milk-ReadsBack : ReadsBack yaml (frontmatter_of milk)
milk-ReadsBack = (
  yaml_block,
  refl,
  refl,
  (text "t", refl, unfold has_substring starts_with strip_prefix in refl),
)

abbrev pub standup : Event
standup = event (text "e") (text "work") (text "Standup") 100 200

abbrev pub late_standup : Event
late_standup = record standup { start = 150; recurrence_id = some 100 }

abbrev pub before : Context Unit
before = record {
  tasks = [];
  events = tt;
  trash = [];
  projects = [];
  trashed_projects = [];
  project_cache = project (text "home") ∷ [];
  task_cache = milk ∷ [];
  event_cache = standup ∷ late_standup ∷ [];
  undo_stack = [];
  redo_stack = [];
  dirty = false;
  read_only_calendars = [];
  workflow = builtin;
}

abbrev deleted : Context Unit
deleted = (record_change yaml takes_all (of_task (text "m") none) 7 before).0

abbrev undone : Context Unit
undone = (undo yaml takes_all deleted).0

abbrev redone : Context Unit
redone = (redo yaml takes_all undone).0

deletes : record_change yaml takes_all (of_task (text "m") none) 7 before ≡ (deleted, none)
unfolding record_change apply stamp_modified apply_task text_eq task trash_task serialize_task
deletes = refl

undoes : undo yaml takes_all deleted ≡ (undone, ok true)
unfolding record_change undo apply stamp_modified apply_task text_eq task trash_task serialize_task
    upsert
undoes = refl

redoes : redo yaml takes_all undone ≡ (redone, ok true)
unfolding record_change undo redo apply stamp_modified apply_task text_eq task trash_task
    serialize_task upsert upsert_into
redoes = refl

undo-record_change_example :
    (task_by_uid undone.task_cache (text "m") ≡ task_by_uid before.task_cache (text "m"))
    × (task_by_uid redone.task_cache (text "m") ≡ task_by_uid deleted.task_cache (text "m"))
undo-record_change_example =
    undo-record_change yaml takes_all (text "m") none 7 before deleted undone redone true true
      (text "m") tt deletes undoes redoes

abbrev moved : Context Unit
moved = (record_change yaml takes_all (of_series (text "e") (standup ∷ [])) 7 before).0

abbrev moved_back : Context Unit
moved_back = (undo yaml takes_all moved).0

moves : record_change yaml takes_all (of_series (text "e") (standup ∷ [])) 7 before ≡ (moved, none)
unfolding record_change apply stamp_modified apply_series
moves = refl

moves_back : undo yaml takes_all moved ≡ (moved_back, ok true)
unfolding record_change undo apply stamp_modified apply_series series sort_by text_eq event
    master_first
moves_back = refl

standup-uid : standup.uid ≡ text "e"
unfolding event
standup-uid = refl

undo-of_series_example : members moved_back.event_cache (text "x") ≡ (
    if text "e" == text "x"
    then series before.event_cache (text "e")
    else members before.event_cache (text "x"))
undo-of_series_example =
    undo-of_series yaml takes_all (text "e") (standup ∷ []) 7 before moved moved_back true
      (text "x") (standup-uid, tt) moves moves_back

abbrev cancelled : Context Unit
cancelled = (record_change yaml takes_all (of_event (text "e") none) 7 before).0

abbrev revived : Context Unit
revived = (undo yaml takes_all cancelled).0

cancels : record_change yaml takes_all (of_event (text "e") none) 7 before ≡ (cancelled, none)
unfolding record_change apply stamp_modified apply_event
cancels = refl

revives : undo yaml takes_all cancelled ≡ (revived, ok true)
unfolding record_change undo apply stamp_modified apply_event text_eq event
revives = refl

first : event_by_uid before.event_cache (text "e") ≡ some standup
unfolding event text_eq
first = refl

undo-delete_event_example : members revived.event_cache (text "e") ≡ standup ∷ []
undo-delete_event_example =
    undo-delete_event yaml takes_all (text "e") standup 7 before cancelled revived true first
      cancels revives

abbrev trashed : Context Unit
trashed = (delete_task yaml takes_all (text "m") 7 before).0

abbrev restored : Context Unit
restored = (restore_task yaml takes_all (text "m") 9 trashed).0

trashes : delete_task yaml takes_all (text "m") 7 before ≡ (trashed, none)
unfolding delete_task record_change apply stamp_modified apply_task text_eq task trash_task
    serialize_task
trashes = refl

restores : restore_task yaml takes_all (text "m") 9 trashed ≡ (restored, ok true)
unfolding delete_task restore_task record_change apply stamp_modified apply_task upsert_into
    trash_task read_task upsert serialize_task parse_task split_frontmatter find_fence fence
    fence_body task_of frontmatter_of normalize_status parse_priority priority_str trim_line_feeds
    stored_body close_body body_part document split_last split task trim trim_start trim_end
    is_white to_ascii_lowercase lower_char text_eq strip_prefix read write safe_stem is_stem_char
    put_task
restores = refl

milk_there : task_by_uid before.task_cache (text "m") ≡ some milk
unfolding task text_eq
milk_there = refl

milk-uid : milk.uid ≡ text "m"
unfolding task
milk-uid = refl

restore_task-delete_task_example :
    (true ≡ true)
    × (task_by_uid restored.task_cache (text "m") ≡ (
        if text "m" == text "m"
        then some (record milk {
          body = (stored milk).body;
          status = (stored milk).status;
          modified = some 9;
        })
        else task_by_uid before.task_cache (text "m")))
restore_task-delete_task_example =
    restore_task-delete_task yaml takes_all (text "m") milk 7 9 before trashed restored true
      (text "m") milk_there milk-uid milk-ReadsBack trashes restores
