-- ===== src/Service/Context/Undo.antt =====
-- crates/mgmt-service/src/context.rs: undo and redo of a change of a task.
use mgmtui.Base.{
  ◌⊎◌, Bool, Bool-cases, Text, text_eq, ◌==◌, true, not, Option, none, some, List, [], ◌∷◌, ◌≡◌,
  refl, arith, keep, if◌then◌else◌, inl, inr,
}
use mgmtui.Base.Result.{err, Result, ok, Result-cases}
use mgmtui.Domain.Instant.{Instant}
use mgmtui.Domain.Task.{Task}
use mgmtui.Markdown.{Yaml, Frontmatter}
use mgmtui.Store.Vault
use mgmtui.Service.Context.{
  undoable, redoable, redo, Error, pushed_undo, record_change, undo, stamp_modified, EventStore,
  Snapshot, of_task, Context, task_by_uid, upsert_into, trash_prev, apply_task, apply,
}

task_by_uid-upsert_into :
    (ts : List Task) (t : Task) (other : Text)
    → task_by_uid (upsert_into (λ x. x.uid) ts t) other
      ≡ (if t.uid == other then some t else task_by_uid ts other)
unfolding upsert_into
task_by_uid-upsert_into [] t other = ground arith
task_by_uid-upsert_into (x ∷ ts) t other = ground (arith, task_by_uid-upsert_into ts t other)

task_by_uid-keep :
    (ts : List Task) (uid other : Text)
    → task_by_uid (keep (λ t. not (t.uid == uid)) ts) other
      ≡ (if uid == other then none else task_by_uid ts other)
task_by_uid-keep [] uid other = ground arith
task_by_uid-keep (x ∷ ts) uid other = ground (arith, task_by_uid-keep ts uid other)

-- The content is of the uid.
abbrev pub IsOf : Text → Option Task → Type 0
IsOf uid none = Unit
IsOf uid (some t) = t.uid ≡ uid

task_by_uid-IsOf : (ts : List Task) (uid : Text) → IsOf uid (task_by_uid ts uid)
task_by_uid-IsOf [] uid = tt
task_by_uid-IsOf (x ∷ ts) uid = elim (Bool-cases (x.uid == uid)) [
  | inl e ↦ rw e (ground arith)
  | inr e ↦ rw e (task_by_uid-IsOf ts uid)
]

pub Outcome-cases :
    {D : Type 0} (o : Context D × Result Error Snapshot)
    → ((c : Context D) × (inverse : Snapshot) × (o ≡ (c, ok inverse)))
      ⊎ ((c : Context D) × (e : Error) × (o ≡ (c, err e)))
Outcome-cases (c, ok inverse) = inl (c, inverse, refl)
Outcome-cases (c, err e) = inr (c, e, refl)

module _ {D : Type 0} (yaml : Yaml Frontmatter) (store : EventStore D) where
  -- A change of a task that goes through: every uid finds what it found, but the changed one finds the
  -- new content, and the inverse has what that one found.
  apply_task-eq-ok :
      (uid : Text) (val : Option Task) (c c' : Context D) (inverse : Snapshot) (other : Text)
      → IsOf uid val
      → apply_task yaml store uid val c ≡ (c', ok inverse)
      → (task_by_uid c'.task_cache other
          ≡ (if uid == other then val else task_by_uid c.task_cache other))
        × (inverse ≡ of_task uid (task_by_uid c.task_cache uid))
        × (c'.undo_stack ≡ c.undo_stack)
        × (c'.redo_stack ≡ c.redo_stack)
  unfolding apply_task
  apply_task-eq-ok uid (some t) c c' inverse other h e =
      elim (Result-cases (Vault.upsert yaml c.tasks t)) [
        | inr (x, v) ↦ absurd (ground arith)
        | inl (tasks, v) ↦
            let found = task_by_uid-upsert_into c.task_cache t other in
            (ground arith, ground arith, ground arith, ground arith)
      ]
  apply_task-eq-ok uid none c c' inverse other h e =
      elim (Result-cases (trash_prev yaml store c.trash (task_by_uid c.task_cache uid))) [
        | inr (x, v) ↦ absurd (ground arith)
        | inl (trash, v) ↦
            let found = task_by_uid-keep c.task_cache uid other in
            (ground arith, ground arith, ground arith, ground arith)
      ]

  pub apply-task :
      (uid : Text) (val : Option Task) (c : Context D)
      → apply yaml store (of_task uid val) c
        ≡ apply_task yaml store uid val (record c { dirty = true })
  unfolding apply
  apply-task uid val c = refl

  abbrev pub stamped : Option Task → Instant → Option Task
  stamped none now = none
  stamped (some t) now = some (record t { modified = some now })

  pub stamp-task :
      (uid : Text) (val : Option Task) (now : Instant)
      → stamp_modified (of_task uid val) now ≡ of_task uid (stamped val now)
  unfolding stamp_modified
  stamp-task uid none now = refl
  stamp-task uid (some t) now = refl

  stamped-IsOf :
      (uid : Text) (val : Option Task) (now : Instant) → IsOf uid val → IsOf uid (stamped val now)
  stamped-IsOf uid none now h = tt
  stamped-IsOf uid (some t) now h = h

  abbrev pub changed : Text → Option Task → Context D → Text → Option Task
  changed uid val c other = if uid == other then val else task_by_uid c.task_cache other

  pub record_change-eq-none :
      (uid : Text) (val : Option Task) (now : Instant) (c c' : Context D) (other : Text)
      → IsOf uid val
      → record_change yaml store (of_task uid val) now c ≡ (c', none)
      → (task_by_uid c'.task_cache other ≡ changed uid (stamped val now) c other)
        × (c'.undo_stack ≡ of_task uid (task_by_uid c.task_cache uid) ∷ c.undo_stack)
  unfolding record_change
  record_change-eq-none uid val now c c' other h e =
      elim (Outcome-cases
        (apply_task yaml store uid (stamped val now) (record c { dirty = true }))) [
          | inr (c1, x, k) ↦
              absurd (ground (arith, stamp-task uid val now, apply-task uid (stamped val now) c))
          | inl (c1, inverse, k) ↦
              let (found, inv, u, r) =
                apply_task-eq-ok uid (stamped val now) (record c { dirty = true }) c1 inverse other
                  (stamped-IsOf uid val now h) k in
              let whole : record_change yaml store (of_task uid val) now c
                  ≡ pushed_undo yaml store (c1, ok inverse) =
                rw (stamp-task uid val now, record_change)
                  (rw (apply-task uid (stamped val now) c) (rw k refl)) in
              (ground arith, ground arith)
        ]

  undo-step :
      (uid : Text) (val : Option Task) (rest : List Snapshot) (c : Context D)
      → c.undo_stack ≡ of_task uid val ∷ rest
      → undo yaml store c
        ≡ redoable yaml store
            (apply_task yaml store uid val (record c { undo_stack = rest; dirty = true }))
  unfolding undo apply
  undo-step uid val rest c s = rw (s, undo) refl

  undo-task :
      (uid : Text) (val : Option Task) (rest : List Snapshot) (c c' : Context D) (b : Bool)
      (other : Text)
      → c.undo_stack ≡ of_task uid val ∷ rest
      → IsOf uid val
      → undo yaml store c ≡ (c', ok b)
      → (task_by_uid c'.task_cache other ≡ changed uid val c other)
        × (c'.redo_stack ≡ of_task uid (task_by_uid c.task_cache uid) ∷ c.redo_stack)
  undo-task uid val rest c c' b other s h e =
      let before : Context D = record c { undo_stack = rest; dirty = true } in
      let whole = undo-step uid val rest c s in
      elim (Outcome-cases (apply_task yaml store uid val before)) [
        | inr (c1, x, k) ↦ absurd (ground arith)
        | inl (c1, inverse, k) ↦
            let (found, inv, u, r) = apply_task-eq-ok uid val before c1 inverse other h k in
            (ground arith, ground arith)
      ]

  redo-step :
      (uid : Text) (val : Option Task) (rest : List Snapshot) (c : Context D)
      → c.redo_stack ≡ of_task uid val ∷ rest
      → redo yaml store c
        ≡ undoable yaml store
            (apply_task yaml store uid val (record c { redo_stack = rest; dirty = true }))
  unfolding redo apply
  redo-step uid val rest c s = rw (s, redo) refl

  redo-task :
      (uid : Text) (val : Option Task) (rest : List Snapshot) (c c' : Context D) (b : Bool)
      (other : Text)
      → c.redo_stack ≡ of_task uid val ∷ rest
      → IsOf uid val
      → redo yaml store c ≡ (c', ok b)
      → (task_by_uid c'.task_cache other ≡ changed uid val c other)
        × (c'.undo_stack ≡ of_task uid (task_by_uid c.task_cache uid) ∷ c.undo_stack)
  redo-task uid val rest c c' b other s h e =
      let before : Context D = record c { redo_stack = rest; dirty = true } in
      let whole = redo-step uid val rest c s in
      elim (Outcome-cases (apply_task yaml store uid val before)) [
        | inr (c1, x, k) ↦ absurd (ground arith)
        | inl (c1, inverse, k) ↦
            let (found, inv, u, r) = apply_task-eq-ok uid val before c1 inverse other h k in
            (ground arith, ground arith)
      ]

  -- Undoing a change of a task that went through: every uid finds what it found before the change. Redoing
  -- it then: every uid finds what it found after the change. The undo and the redo are to go through.
  pub undo-record_change :
      (uid : Text) (val : Option Task) (now : Instant) (c c1 c2 c3 : Context D) (b b' : Bool)
      (other : Text)
      → IsOf uid val
      → record_change yaml store (of_task uid val) now c ≡ (c1, none)
      → undo yaml store c1 ≡ (c2, ok b)
      → redo yaml store c2 ≡ (c3, ok b')
      → (task_by_uid c2.task_cache other ≡ task_by_uid c.task_cache other)
        × (task_by_uid c3.task_cache other ≡ task_by_uid c1.task_cache other)
  undo-record_change uid val now c c1 c2 c3 b b' other h e u r =
      let (found, stack) = record_change-eq-none uid val now c c1 other h e in
      let (undone, redos) =
        undo-task uid (task_by_uid c.task_cache uid) c.undo_stack c1 c2 b other stack
          (task_by_uid-IsOf c.task_cache uid) u in
      let (redone, _) =
        redo-task uid (task_by_uid c1.task_cache uid) c1.redo_stack c2 c3 b' other redos
          (task_by_uid-IsOf c1.task_cache uid) r in
      (ground arith, ground arith)
