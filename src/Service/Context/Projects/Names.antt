-- ===== src/Service/Context/Projects/Names.antt =====
-- crates/mgmt-service/src/context.rs: a deleted project is not listed.
use mgmtui.Base.{◌++◌}
use mgmtui.Base.{
  ◌≢◌, Text, text_eq, ◌==◌, option_eq, Bool-cases, not, none, some, List, [], ◌∷◌, ◌≡◌, arith, All,
  keep, inl, inr,
}
use mgmtui.Base.Result.{Result-cases}
use mgmtui.Domain.Instant.{Instant}
use mgmtui.Domain.Project.{Project}
use mgmtui.Domain.Event.{Event}
use mgmtui.Domain.Task.{Task}
use mgmtui.Markdown.{Yaml, Frontmatter, ProjectFrontmatter}
use mgmtui.Store.Files.{Dir}
use mgmtui.Store.Vault
use mgmtui.Service.Context.{EventStore}
use mgmtui.Service.Context.Projects.{
  task_projects, event_projects, names, dedup, unassign_tasks, unassign_events,
}
use mgmtui.Base.{All-append}
use mgmtui.Base.Sort.{sort_by-All, text_le}
use mgmtui.Service.Context.{Context}
use mgmtui.Service.Context.Projects.{project_names}

dedup-All : (P : Text → Type 0) (xs : List Text) → All P xs → All P (dedup xs)
unfolding dedup
dedup-All P [] h = tt
dedup-All P (x ∷ []) h = h
dedup-All P (x ∷ y ∷ ys) h = elim (Bool-cases (x == y)) [
  | inl e ↦ rw e (dedup-All P (y ∷ ys) h.1)
  | inr e ↦ rw e (h.0, dedup-All P (y ∷ ys) h.1)
]

names-keep :
    (name : Text) (ps : List Project)
    → All (λ n. n ≢ name) (names (keep (λ p. not (p.name == name)) ps))
names-keep name [] = tt
names-keep name (p ∷ ps) = elim (Bool-cases (p.name == name)) [
  | inl e ↦ rw e (names-keep name ps)
  | inr e ↦ rw e (ground arith, names-keep name ps)
]

module _ {D : Type 0} (yaml : Yaml Frontmatter) (project_yaml : Yaml ProjectFrontmatter)
    (store : EventStore D) where
  unassign_tasks-All :
      (name : Text) (now : Instant) (ts : List Task) (dir : Dir)
      → (unassign_tasks yaml project_yaml store name now ts dir).2 ≡ none
      → All
          (λ n. n ≢ name)
          (task_projects (unassign_tasks yaml project_yaml store name now ts dir).0)
  unfolding unassign_tasks
  unassign_tasks-All name now [] dir h = tt
  unassign_tasks-All name now (t ∷ ts) dir h = elim (Bool-cases (t.project == some name)) [
    | inl e ↦
        elim (Result-cases
          (Vault.upsert yaml dir (record t { project = none; modified = some now }))) [
            | inl (dir', v) ↦ ground (arith, unassign_tasks-All name now ts dir')
            | inr (x, v) ↦ absurd (ground arith)
          ]
    | inr e ↦ ground (arith, unassign_tasks-All name now ts dir)
  ]

  unassign_events-All :
      (name : Text) (now : Instant) (xs : List Event) (events : D)
      → (unassign_events yaml project_yaml store name now xs events).2 ≡ none
      → All
          (λ n. n ≢ name)
          (event_projects (unassign_events yaml project_yaml store name now xs events).0)
  unfolding unassign_events
  unassign_events-All name now [] events h = tt
  unassign_events-All name now (x ∷ xs) events h = elim (Bool-cases (x.project == some name)) [
    | inl e ↦
        elim (Result-cases
          (store.upsert events (record x { project = none; modified = some now }))) [
            | inl (events', v) ↦ ground (arith, unassign_events-All name now xs events')
            | inr (y, v) ↦ absurd (ground arith)
          ]
    | inr e ↦ ground (arith, unassign_events-All name now xs events)
  ]

  pub names-gone :
      (name : Text) (now : Instant) (c c' : Context D)
      → (unassign_tasks yaml project_yaml store name now c.task_cache c.tasks).2 ≡ none
      → c'.task_cache ≡ (unassign_tasks yaml project_yaml store name now c.task_cache c.tasks).0
      → (unassign_events yaml project_yaml store name now c.event_cache c.events).2 ≡ none
      → c'.event_cache ≡ (unassign_events yaml project_yaml store name now c.event_cache c.events).0
      → c'.project_cache ≡ keep (λ p. not (p.name == name)) c.project_cache
      → All (λ n. n ≢ name) (project_names c')
  unfolding project_names
  names-gone name now c c' went tasks through events projects =
      let P : Text → Type 0 = λ n. n ≢ name in
      let named : All P (names c'.project_cache) = rw projects (names-keep name c.project_cache) in
      let assigned : All P (task_projects c'.task_cache) =
        rw tasks (unassign_tasks-All name now c.task_cache c.tasks went) in
      let marked : All P (event_projects c'.event_cache) =
        rw events (unassign_events-All name now c.event_cache c.events through) in
      dedup-All P _ (
        sort_by-All text_le P _ (
          All-append P (names c'.project_cache ++ task_projects c'.task_cache) _
            (All-append P (names c'.project_cache) _ named assigned) marked))
