-- ===== src/Service/Context/Projects.antt =====
-- crates/mgmt-service/src/context.rs: the projects of a vault. What a loop that fails has written stays.
pub mod Gone
pub mod Written
pub mod Names
use mgmtui.Base.{
  Text, text_eq, ◌==◌, option_eq, Bool, true, false, not, any, Option, none, some, List, [], ◌∷◌,
  ◌++◌, find?, keep, if◌then◌else◌,
}
use mgmtui.Base.Chars.{trim}
use mgmtui.Base.Sort.{sort_by, text_le}
use mgmtui.Base.Result.{Result, ok, err}
use mgmtui.Core.{Error, invalid, not_found}
use mgmtui.Domain.Instant.{Instant}
use mgmtui.Domain.Project.{Project, project}
use mgmtui.Domain.Event.{Event}
use mgmtui.Domain.Task.{Task}
use mgmtui.Markdown.{Yaml, Frontmatter, ProjectFrontmatter}
use mgmtui.Store.Files.{Dir}
use mgmtui.Store.Vault
use mgmtui.Store.Projects
use mgmtui.Store.Trash.{trash_project, read_project, purge_project, purge_task}
use mgmtui.Service.Context.{EventStore, Context, task_by_uid}
use mgmtui.Service.Context.Mutations.{put_task}

abbrev pub task_projects : List Task → List Text
task_projects [] = []
task_projects (t ∷ ts) =
    let rest = task_projects ts in elim t.project [ none ↦ rest | some p ↦ p ∷ rest ]

abbrev pub event_projects : List Event → List Text
event_projects [] = []
event_projects (e ∷ es) =
    let rest = event_projects es in elim e.project [ none ↦ rest | some p ↦ p ∷ rest ]

abbrev pub names : List Project → List Text
names [] = []
names (p ∷ ps) = p.name ∷ names ps

-- `dedup`: an element that equals the next one is dropped.
unfoldable pub dedup : List Text → List Text
dedup [] = []
dedup (x ∷ []) = x ∷ []
dedup (x ∷ y ∷ ys) = let rest = dedup (y ∷ ys) in if x == y then rest else x ∷ rest

unfoldable pub project_names : {D : Type 0} → Context D → List Text
project_names c = dedup (
    sort_by text_le
      (names c.project_cache ++ task_projects c.task_cache ++ event_projects c.event_cache))

unfoldable pub put_cached : List Project → Project → List Project
put_cached [] p = p ∷ []
put_cached (q ∷ qs) p = let rest = put_cached qs p in if q.name == p.name then p ∷ qs else q ∷ rest

abbrev pub consed : {A S : Type 0} → A → List A × S × Option Error → List A × S × Option Error
consed x (xs, s, e) = (x ∷ xs, s, e)

abbrev pub is_named : Text → Project → Bool
is_named name p = p.name == name

module _ {D : Type 0} (yaml : Yaml Frontmatter) (project_yaml : Yaml ProjectFrontmatter)
    (store : EventStore D) where
  unfoldable pub add_project : Text → Context D → Context D × Option Error
  add_project name c =
      if trim name == []
      then (c, some invalid)
      else if any (is_named name) c.project_cache
      then (c, none)
      else elim (Projects.upsert project_yaml c.projects (project name)) [
        | err e ↦ (c, some e)
        | ok dir ↦ (
          record c { projects = dir; project_cache = c.project_cache ++ (project name ∷ []) },
          none,
        )
      ]

  unfoldable pub put_project : Project → Context D → Context D × Option Error
  put_project p c =
      if trim p.name == []
      then (c, some invalid)
      else elim (Projects.upsert project_yaml c.projects p) [
        | err e ↦ (c, some e)
        | ok dir ↦ (
          record c { projects = dir; project_cache = put_cached c.project_cache p; dirty = true },
          none,
        )
      ]

  -- The loop over the tasks: the cache and the vault afterwards, and the error that ended it.
  unfoldable pub unassign_tasks : Text → Instant → List Task → Dir → List Task × Dir × Option Error
  unassign_tasks name now [] dir = ([], dir, none)
  unassign_tasks name now (t ∷ ts) dir = elim (t.project == some name) [
    | true ↦ elim (Vault.upsert yaml dir (record t { project = none; modified = some now })) [
      | err e ↦ (record t { project = none; modified = some now } ∷ ts, dir, some e)
      | ok dir' ↦
          consed (record t { project = none; modified = some now })
            (unassign_tasks name now ts dir')
    ]
    | false ↦ consed t (unassign_tasks name now ts dir)
  ]

  unfoldable pub unassign_events : Text → Instant → List Event → D → List Event × D × Option Error
  unassign_events name now [] events = ([], events, none)
  unassign_events name now (x ∷ xs) events = elim (x.project == some name) [
    | true ↦ elim (store.upsert events (record x { project = none; modified = some now })) [
      | err e ↦ (record x { project = none; modified = some now } ∷ xs, events, some e)
      | ok events' ↦
          consed (record x { project = none; modified = some now })
            (unassign_events name now xs events')
    ]
    | false ↦ consed x (unassign_events name now xs events)
  ]

  abbrev pub trash_found : Dir → Option Project → Result Error Dir
  trash_found dir none = ok dir
  trash_found dir (some p) = trash_project project_yaml dir p

  -- What follows the two loops.
  abbrev pub drop_project : Text → Context D → Context D × Option Error
  drop_project name c =
      elim (trash_found c.trashed_projects (find? (is_named name) c.project_cache)) [
        | err e ↦ (c, some e)
        | ok trashed ↦ (
          record c {
            trashed_projects = trashed;
            projects = (Projects.delete c.projects name).0;
            project_cache = keep (λ p. not (p.name == name)) c.project_cache;
            undo_stack = [];
            redo_stack = [];
            dirty = true;
          },
          none,
        )
      ]

  abbrev pub after_events :
      Text → Context D → List Event × D × Option Error → Context D × Option Error
  after_events name c (xs, events, some e) =
      (record c { event_cache = xs; events = events }, some e)
  after_events name c (xs, events, none) =
      drop_project name (record c { event_cache = xs; events = events })

  abbrev pub after_tasks :
      Text → Instant → Context D → List Task × Dir × Option Error → Context D × Option Error
  after_tasks name now c (ts, dir, some e) = (record c { task_cache = ts; tasks = dir }, some e)
  after_tasks name now c (ts, dir, none) =
      after_events name (record c { task_cache = ts; tasks = dir })
        (unassign_events name now c.event_cache c.events)

  unfoldable pub delete_project : Text → Instant → Context D → Context D × Option Error
  delete_project name now c = after_tasks name now c (unassign_tasks name now c.task_cache c.tasks)

  unfoldable pub restore_project : Text → Context D → Context D × Result Error Bool
  restore_project name c = elim (read_project project_yaml c.trashed_projects name) [
    | none ↦ (c, ok false)
    | some p ↦ elim (Projects.upsert project_yaml c.projects p) [
      | err e ↦ (c, err e)
      | ok dir ↦ (
        record c {
          projects = dir;
          trashed_projects = (purge_project c.trashed_projects name).0;
          project_cache = put_cached c.project_cache p;
          dirty = true;
        },
        ok true,
      )
    ]
  ]

  abbrev pub then_put : Task → Instant → Context D × Option Error → Context D × Option Error
  then_put t now (c, some e) = (c, some e)
  then_put t now (c, none) = put_task yaml store t now c

  unfoldable pub set_task_project :
      Text → Option Text → Instant → Context D → Context D × Option Error
  set_task_project uid chosen now c = elim (task_by_uid c.task_cache uid) [
    | none ↦ (c, some not_found)
    | some t ↦ elim chosen [
      | none ↦ put_task yaml store (record t { project = none }) now c
      | some p ↦ then_put (record t { project = some p }) now (add_project p c)
    ]
  ]
