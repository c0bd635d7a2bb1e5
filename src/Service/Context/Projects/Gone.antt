-- ===== src/Service/Context/Projects/Gone.antt =====
-- crates/mgmt-service/src/context.rs: what a deleted project leaves behind.
use mgmtui.Base.{
  refl, false, Option, ◌≢◌, Text, text_eq, ◌==◌, option_eq, Bool-cases, not, none, some, List, [],
  ◌≡◌, arith, All, keep, inl, inr,
}
use mgmtui.Base.Result.{Result-cases}
use mgmtui.Domain.Instant.{Instant}
use mgmtui.Domain.Project.{Project}
use mgmtui.Domain.Event.{Event}
use mgmtui.Domain.Task.{Task}
use mgmtui.Markdown.{Yaml, Frontmatter, ProjectFrontmatter}
use mgmtui.Store.Files.{Dir}
use mgmtui.Service.Context.{Error, EventStore}
use mgmtui.Service.Context.Projects.{unassign_tasks, unassign_events}
use mgmtui.Base.{find?}
use mgmtui.Base.Result.{ok}
use mgmtui.Service.Context.{Context, undo}
use mgmtui.Service.Context.Projects.{
  project_names, is_named, trash_found, after_tasks, after_events, delete_project,
}
use mgmtui.Base.{map, ==-same, sym, ◌∙◌, In, Option-cases, if◌then◌else◌}
use mgmtui.Store.Files.{read, write, read-write, read-remove_file}
use mgmtui.Store.Paths.{task_file}
use mgmtui.Store.Projects
use mgmtui.Store.Trash.{trash_project}
use mgmtui.Markdown.{serialize_project}
use mgmtui.Service.Context.{redo}
use mgmtui.Service.Context.Projects.Written.{
  without_project, event_without_project, IsWritten, unassign_tasks-map, unassign_events-map,
  unassign_tasks-IsWritten,
}
use mgmtui.Service.Context.Projects.Names.{names-gone}

-- A file of a project that was put into the trash.
trash_project-eq-ok :
    (project_yaml : Yaml ProjectFrontmatter) (dir dir' : Dir) (p : Project)
    → trash_project project_yaml dir p ≡ ok dir'
    → (doc : Text) × (serialize_project project_yaml p ≡ ok doc)
      × (read dir' (task_file p.name) ≡ some doc)
unfolding trash_project
trash_project-eq-ok project_yaml dir dir' p e =
    elim (Result-cases (serialize_project project_yaml p)) [
      | inr (x, s) ↦ absurd (ground arith)
      | inl (doc, s) ↦
          let same : dir' ≡ write dir (task_file p.name) doc = ground arith in
          (
            doc,
            s,
            rw same (
                read-write dir (task_file p.name) doc (task_file p.name)
                ∙ ground (arith, ==-same (task_file p.name))),
          )
    ]

read-delete :
    (dir : Dir) (name other : Text)
    → read (Projects.delete dir name).0 other
      ≡ (if task_file name == other then none else read dir other)
unfolding Projects.delete
read-delete dir name other = elim (Option-cases (read dir (task_file name))) [
  | inr (doc, e) ↦ rw (e, Projects.delete) (read-remove_file dir (task_file name) other)
  | inl e ↦
      rw (e, Projects.delete)
        (elim (Bool-cases (task_file name == other)) [
          | inl k ↦ let same : task_file name ≡ other = ground arith in rw k (rw (sym same) e)
          | inr k ↦ rw k refl
        ])
]

module _ {D : Type 0} (yaml : Yaml Frontmatter) (project_yaml : Yaml ProjectFrontmatter)
    (store : EventStore D) where
  -- What the steps after the loops leave.
  abbrev IsDropped : Text → Context D → Context D → Type 0
  IsDropped name c c' =
      (c'.project_cache ≡ keep (λ p. not (p.name == name)) c.project_cache)
      × (c'.projects ≡ (Projects.delete c.projects name).0)
      × (trash_found yaml project_yaml store c.trashed_projects
            (find? (is_named name) c.project_cache)
          ≡ ok c'.trashed_projects)
      × (c'.undo_stack ≡ [])
      × (c'.redo_stack ≡ [])

  after_events-eq-none :
      (name : Text) (c c' : Context D) (o : List Event × D × Option Error)
      → after_events yaml project_yaml store name c o ≡ (c', none)
      → (o.2 ≡ none)
        × (c'.event_cache ≡ o.0)
        × (c'.task_cache ≡ c.task_cache)
        × (c'.tasks ≡ c.tasks)
        × IsDropped name c c'
  after_events-eq-none name c c' (xs, events, some x) e = absurd (ground arith)
  after_events-eq-none name c c' (xs, events, none) e =
      elim (Result-cases (
        trash_found yaml project_yaml store c.trashed_projects
          (find? (is_named name) c.project_cache))) [
            | inl (trashed, v) ↦ (
              refl,
              ground arith,
              ground arith,
              ground arith,
              (ground arith, ground arith, ground arith, ground arith, ground arith),
            )
            | inr (x, v) ↦ absurd (ground arith)
          ]

  after_tasks-eq-none :
      (name : Text) (now : Instant) (c c' : Context D) (o : List Task × Dir × Option Error)
      → after_tasks yaml project_yaml store name now c o ≡ (c', none)
      → (o.2 ≡ none)
        × (c'.task_cache ≡ o.0)
        × (c'.tasks ≡ o.1)
        × ((unassign_events yaml project_yaml store name now c.event_cache c.events).2 ≡ none)
        × (c'.event_cache
            ≡ (unassign_events yaml project_yaml store name now c.event_cache c.events).0)
        × IsDropped name c c'
  after_tasks-eq-none name now c c' (ts, dir, some x) e = absurd (ground arith)
  after_tasks-eq-none name now c c' (ts, dir, none) e =
      let (went, events, tasks, vault, dropped) =
        after_events-eq-none name (record c { task_cache = ts; tasks = dir }) c'
          (unassign_events yaml project_yaml store name now c.event_cache c.events) e in
      (refl, tasks, vault, went, events, dropped)

  -- What a deletion of a project is to leave behind.
  pub record IsGone (name : Text) (now : Instant) (c c' : Context D) : Type 0 where
    -- The tasks and events of the cache are the same ones, but no one has the project.
    pub tasks : c'.task_cache ≡ map (without_project name now) c.task_cache
    pub events : c'.event_cache ≡ map (event_without_project name now) c.event_cache
    pub names : All (λ n. n ≢ name) (project_names c')
    -- The file of a task that had the project holds a task that had it, without it.
    pub vault :
        (t : Task)
        → In t c.task_cache
        → t.project ≡ some name
        → IsWritten yaml project_yaml store name now c.task_cache c'.tasks (task_file t.uid)
    -- The file of the project is gone, and the others read as before.
    pub files :
        (file : Text)
        → read c'.projects file ≡ (if task_file name == file then none else read c.projects file)
    -- A project of the cache is in the trash.
    pub trash :
        (p : Project)
        → find? (is_named name) c.project_cache ≡ some p
        → (doc : Text) × (serialize_project project_yaml p ≡ ok doc)
          × (read c'.trashed_projects (task_file p.name) ≡ some doc)
    pub undone : undo yaml store c' ≡ (c', ok false)
    pub redone : redo yaml store c' ≡ (c', ok false)

  trash_found-some :
      (dir dir' : Dir) (found : Option Project) (p : Project)
      → found ≡ some p
      → trash_found yaml project_yaml store dir found ≡ ok dir'
      → trash_project project_yaml dir p ≡ ok dir'
  trash_found-some dir dir' none p f e = absurd (ground arith)
  trash_found-some dir dir' (some q) p f e = ground arith

  undo-nil : (c : Context D) → c.undo_stack ≡ [] → undo yaml store c ≡ (c, ok false)
  unfolding undo
  undo-nil c e = ground arith

  redo-nil : (c : Context D) → c.redo_stack ≡ [] → redo yaml store c ≡ (c, ok false)
  unfolding redo
  redo-nil c e = ground arith

  -- After the deletion of a project that went through: the tasks and events of the cache are as before,
  -- but those that had the project have none and a new stamp, so the name is not listed any more; the
  -- file of each such task holds a task without the project; the file of the project is gone, and the
  -- files of the others are not; the cached project is in the trash; and there is nothing to undo or
  -- to redo.
  pub delete_project-IsGone :
      (name : Text) (now : Instant) (c c' : Context D)
      → delete_project yaml project_yaml store name now c ≡ (c', none)
      → IsGone name now c c'
  unfolding delete_project
  delete_project-IsGone name now c c' e =
      let (went, tasks, vault, through, events, (projects, files, trashed, undos, redos)) =
        after_tasks-eq-none name now c c'
          (unassign_tasks yaml project_yaml store name now c.task_cache c.tasks) e in
      record {
        tasks =
            tasks ∙ unassign_tasks-map yaml project_yaml store name now c.task_cache c.tasks went;
        events =
            events
            ∙ unassign_events-map yaml project_yaml store name now c.event_cache c.events through;
        names = names-gone yaml project_yaml store name now c c' went tasks through events projects;
        vault = λ t m p. rw vault (
            unassign_tasks-IsWritten yaml project_yaml store name now c.task_cache c.tasks t went m
              p);
        files = λ file. rw files (read-delete c.projects name file);
        trash = λ p f.
            trash_project-eq-ok project_yaml c.trashed_projects c'.trashed_projects p
              (trash_found-some c.trashed_projects c'.trashed_projects _ p f trashed);
        undone = undo-nil c' undos;
        redone = redo-nil c' redos;
      }
