-- ===== src/Service/Context/Projects/Written.antt =====
-- crates/mgmt-service/src/context.rs: what the loop over the tasks of a deleted project leaves in the cache
-- and in the vault.
use mgmtui.Base.{
  ◌⊎◌, Text, text_eq, ◌==◌, ==-same, option_eq, Bool-cases, true, false, Option, none, some, List,
  [], ◌∷◌, ◌≡◌, refl, sym, arith, ◌∙◌, In, map, inl, inr, if◌then◌else◌,
}
use mgmtui.Base.Result.{ok, err, Result-cases}
use mgmtui.Domain.Instant.{Instant}
use mgmtui.Domain.Event.{Event}
use mgmtui.Domain.Task.{Task}
use mgmtui.Markdown.{Yaml, Frontmatter, ProjectFrontmatter, serialize_task}
use mgmtui.Store.Files.{Dir, read, read-write}
use mgmtui.Store.Paths.{task_file}
use mgmtui.Store.Vault
use mgmtui.Store.Vault.Laws.{upsert-eq-ok}
use mgmtui.Service.Context.{Error, EventStore}
use mgmtui.Service.Context.Projects.{unassign_tasks, unassign_events}

-- A task without the project, with a new stamp.
abbrev pub cleared : Instant → Task → Task
cleared now t = record t { project = none; modified = some now }

abbrev pub without_project : Text → Instant → Task → Task
without_project name now t = if t.project == some name then cleared now t else t

abbrev pub event_without_project : Text → Instant → Event → Event
event_without_project name now x =
    if x.project == some name then record x { project = none; modified = some now } else x

module _ {D : Type 0} (yaml : Yaml Frontmatter) (project_yaml : Yaml ProjectFrontmatter)
    (store : EventStore D) (name : Text) (now : Instant) where
  abbrev loop : List Task → Dir → List Task × Dir × Option Error
  loop ts dir = unassign_tasks yaml project_yaml store name now ts dir

  pub unassign_tasks-map :
      (ts : List Task) (dir : Dir)
      → (unassign_tasks yaml project_yaml store name now ts dir).2 ≡ none
      → (unassign_tasks yaml project_yaml store name now ts dir).0
        ≡ map (without_project name now) ts
  unfolding unassign_tasks
  unassign_tasks-map [] dir h = refl
  unassign_tasks-map (t ∷ ts) dir h = elim (Bool-cases (t.project == some name)) [
    | inl e ↦ elim (Result-cases (Vault.upsert yaml dir (cleared now t))) [
      | inl (dir', v) ↦ ground (arith, unassign_tasks-map ts dir')
      | inr (x, v) ↦ absurd (ground arith)
    ]
    | inr e ↦ ground (arith, unassign_tasks-map ts dir)
  ]

  pub unassign_events-map :
      (xs : List Event) (events : D)
      → (unassign_events yaml project_yaml store name now xs events).2 ≡ none
      → (unassign_events yaml project_yaml store name now xs events).0
        ≡ map (event_without_project name now) xs
  unfolding unassign_events
  unassign_events-map [] events h = refl
  unassign_events-map (x ∷ xs) events h = elim (Bool-cases (x.project == some name)) [
    | inl e ↦
        elim (Result-cases
          (store.upsert events (record x { project = none; modified = some now }))) [
            | inl (events', v) ↦ ground (arith, unassign_events-map xs events')
            | inr (y, v) ↦ absurd (ground arith)
          ]
    | inr e ↦ ground (arith, unassign_events-map xs events)
  ]

  -- The file holds a task of the list that had the project, without it.
  abbrev pub IsWritten : List Task → Dir → Text → Type 0
  IsWritten ts dir file =
      (t : Task) × (doc : Text) × In t ts
      × (t.project ≡ some name)
      × (task_file t.uid ≡ file)
      × (serialize_task yaml (cleared now t) ≡ ok doc)
      × (read dir file ≡ some doc)

  weaken :
      (x : Task) (ts : List Task) (dir : Dir) (file : Text)
      → IsWritten ts dir file
      → IsWritten (x ∷ ts) dir file
  weaken x ts dir file (t, doc, m, rest, k, s, r) = (t, doc, inr m, rest, k, s, r)

  -- The loop past its head.
  loop-tail :
      (t : Task) (ts : List Task) (dir dir' : Dir)
      → (t.project == some name) ≡ true
      → Vault.upsert yaml dir (cleared now t) ≡ ok dir'
      → ((loop (t ∷ ts) dir).1 ≡ (loop ts dir').1) × ((loop (t ∷ ts) dir).2 ≡ (loop ts dir').2)
  unfolding unassign_tasks
  loop-tail t ts dir dir' e v = (ground arith, ground arith)

  loop-failed :
      (t : Task) (ts : List Task) (dir : Dir) (x : Error)
      → (t.project == some name) ≡ true
      → Vault.upsert yaml dir (cleared now t) ≡ err x
      → (loop (t ∷ ts) dir).2 ≡ some x
  unfolding unassign_tasks
  loop-failed t ts dir x e v = ground arith

  loop-skip :
      (t : Task) (ts : List Task) (dir : Dir)
      → (t.project == some name) ≡ false
      → ((loop (t ∷ ts) dir).1 ≡ (loop ts dir).1) × ((loop (t ∷ ts) dir).2 ≡ (loop ts dir).2)
  unfolding unassign_tasks
  loop-skip t ts dir e = (ground arith, ground arith)

  -- The file of a cleared task right after its write.
  upsert-read :
      (t : Task) (dir dir' : Dir) (file : Text)
      → Vault.upsert yaml dir (cleared now t) ≡ ok dir'
      → (doc : Text) × (serialize_task yaml (cleared now t) ≡ ok doc)
        × (read dir' file ≡ (if task_file t.uid == file then some doc else read dir file))
  upsert-read t dir dir' file v =
      let (doc, s, w) = upsert-eq-ok yaml dir dir' (cleared now t) v in
      (doc, s, rw w (read-write dir (task_file t.uid) doc file))

  -- The loop writes to a file, or leaves it.
  file-cases :
      (ts : List Task) (dir : Dir) (file : Text)
      → (loop ts dir).2 ≡ none
      → IsWritten ts (loop ts dir).1 file ⊎ (read (loop ts dir).1 file ≡ read dir file)
  file-cases [] dir file h = inr (unfold unassign_tasks in refl)
  file-cases (t ∷ ts) dir file h = elim (Bool-cases (t.project == some name)) [
    | inl e ↦ elim (Result-cases (Vault.upsert yaml dir (cleared now t))) [
      | inl (dir', v) ↦
          let (to, went) = loop-tail t ts dir dir' e v in
          let (doc, s, r) = upsert-read t dir dir' file v in
          rw to (elim (file-cases ts dir' file (sym went ∙ h)) [
            | inl w ↦ inl (weaken t ts _ file w)
            | inr same ↦ elim (Bool-cases (task_file t.uid == file)) [
              | inl k ↦ inl (t, doc, inl refl, ground arith, ground arith, s, ground arith)
              | inr k ↦ inr (ground arith)
            ]
          ])
      | inr (x, v) ↦ let failed = loop-failed t ts dir x e v in absurd (ground arith)
    ]
    | inr e ↦
        let (to, went) = loop-skip t ts dir e in
        rw to (elim (file-cases ts dir file (sym went ∙ h)) [
          | inl w ↦ inl (weaken t ts _ file w)
          | inr same ↦ inr same
        ])
  ]

  pub unassign_tasks-IsWritten :
      (ts : List Task) (dir : Dir) (t : Task)
      → (unassign_tasks yaml project_yaml store name now ts dir).2 ≡ none
      → In t ts
      → t.project ≡ some name
      → IsWritten ts (unassign_tasks yaml project_yaml store name now ts dir).1 (task_file t.uid)
  unassign_tasks-IsWritten [] dir t h m p = absurd m
  unassign_tasks-IsWritten (x ∷ ts) dir t h m p = elim (Bool-cases (x.project == some name)) [
    | inl e ↦ elim (Result-cases (Vault.upsert yaml dir (cleared now x))) [
      | inl (dir', v) ↦
          let (to, went) = loop-tail x ts dir dir' e v in
          rw to (elim m [
            | inr k ↦ weaken x ts _ _ (unassign_tasks-IsWritten ts dir' t (sym went ∙ h) k p)
            | inl k ↦
                let (doc, s, r) = upsert-read x dir dir' (task_file t.uid) v in
                elim (file-cases ts dir' (task_file t.uid) (sym went ∙ h)) [
                  | inl w ↦ weaken x ts _ _ w
                  | inr same ↦ (
                    x,
                    doc,
                    inl refl,
                    ground arith,
                    ground arith,
                    s,
                    same ∙ (r ∙ ground (arith, ==-same (task_file t.uid))),
                  )
                ]
          ])
      | inr (y, v) ↦ let failed = loop-failed x ts dir y e v in absurd (ground arith)
    ]
    | inr e ↦
        let (to, went) = loop-skip x ts dir e in
        rw to (elim m [
          | inr k ↦ weaken x ts _ _ (unassign_tasks-IsWritten ts dir t (sym went ∙ h) k p)
          | inl k ↦ absurd (ground arith)
        ])
  ]
