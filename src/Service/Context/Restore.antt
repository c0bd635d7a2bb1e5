-- ===== src/Service/Context/Restore.antt =====
-- crates/mgmt-service/src/context.rs: a deleted task brought back from the trash.
use mgmtui.Base.{
  Text, text_eq, ◌==◌, ==-same, Bool, true, Option, none, some, ◌≡◌, ◌∙◌, sym, refl, arith,
  if◌then◌else◌, inl, inr,
}
use mgmtui.Base.Result.{ok, Result-cases}
use mgmtui.Domain.Instant.{Instant}
use mgmtui.Domain.Task.{Task}
use mgmtui.Markdown.{Yaml, Frontmatter, frontmatter_of}
use mgmtui.Markdown.RoundTrip.{ReadsBack, stored, parse_task-stored}
use mgmtui.Store.Files.{read, write, read-write, Dir}
use mgmtui.Store.Paths.{task_file}
use mgmtui.Store.Trash.{trash_task, read_task}
use mgmtui.Service.Context.{
  Error, EventStore, Snapshot, of_task, Context, task_by_uid, apply_task, record_change, trash_prev,
  stamp_modified, apply,
}
use mgmtui.Service.Context.Undo.{Outcome-cases, record_change-eq-none}
use mgmtui.Service.Context.Mutations.{put_task, delete_task, restore_task, returning}

module _ (yaml : Yaml Frontmatter) where
  -- A task that was put into a trash is read from it.
  read_task-trash_task :
      (dir dir' : Dir) (t : Task)
      → ReadsBack yaml (frontmatter_of t)
      → trash_task yaml dir t ≡ ok dir'
      → read_task yaml dir' t.uid ≡ some (stored t)
  unfolding trash_task read_task
  read_task-trash_task dir dir' t y e =
      let (doc, s, p) = parse_task-stored yaml t y in
      let same : dir' ≡ write dir (task_file t.uid) doc = ground arith in
      let found : read dir' (task_file t.uid) ≡ some doc = rw same (
        read-write dir (task_file t.uid) doc (task_file t.uid)
        ∙ ground (arith, ==-same (task_file t.uid))) in
      rw (found, read_task, p) refl

module _ {D : Type 0} (yaml : Yaml Frontmatter) (store : EventStore D) where
  apply_task-trash :
      (uid : Text) (t : Task) (c c' : Context D) (inverse : Snapshot)
      → task_by_uid c.task_cache uid ≡ some t
      → apply_task yaml store uid none c ≡ (c', ok inverse)
      → trash_task yaml c.trash t ≡ ok c'.trash
  unfolding apply_task
  apply_task-trash uid t c c' inverse f e =
      elim (Result-cases (trash_prev yaml store c.trash (task_by_uid c.task_cache uid))) [
        | inr (x, v) ↦ absurd (ground arith)
        | inl (trash, v) ↦ ground arith
      ]

  delete_task-trash :
      (uid : Text) (t : Task) (now : Instant) (c c' : Context D)
      → task_by_uid c.task_cache uid ≡ some t
      → delete_task yaml store uid now c ≡ (c', none)
      → trash_task yaml c.trash t ≡ ok c'.trash
  unfolding delete_task record_change stamp_modified apply
  delete_task-trash uid t now c c' f e =
      let before : Context D = record c { dirty = true } in
      elim (Outcome-cases (apply_task yaml store uid none before)) [
        | inr (c1, x, k) ↦ absurd (ground arith)
        | inl (c1, inverse, k) ↦
            let kept = apply_task-trash uid t before c1 inverse f k in ground arith
      ]

  returning-eq-ok :
      (o : Context D × Option Error) (c : Context D) (b : Bool)
      → returning true o ≡ (c, ok b)
      → (o ≡ (c, none)) × (b ≡ true)
  returning-eq-ok (c1, none) c b e = (ground arith, ground arith)
  returning-eq-ok (c1, some x) c b e = absurd (ground arith)

  restore-step :
      (uid : Text) (t : Task) (now : Instant) (c : Context D)
      → read_task yaml c.trash uid ≡ some t
      → restore_task yaml store uid now c
        ≡ returning true (record_change yaml store (of_task t.uid (some t)) now c)
  unfolding restore_task put_task
  restore-step uid t now c f = rw (f, restore_task) refl

  -- A task that is deleted and then restored, if the YAML library reads its frontmatter back and both
  -- operations go through: the restore says that there was one, and every uid finds what it found before
  -- the deletion, but the task has the status and body as they are read back and a new stamp.
  pub restore_task-delete_task :
      (uid : Text) (t : Task) (now later : Instant) (c c1 c2 : Context D) (b : Bool) (other : Text)
      → task_by_uid c.task_cache uid ≡ some t
      → t.uid ≡ uid
      → ReadsBack yaml (frontmatter_of t)
      → delete_task yaml store uid now c ≡ (c1, none)
      → restore_task yaml store uid later c1 ≡ (c2, ok b)
      → (b ≡ true)
        × (task_by_uid c2.task_cache other ≡ (
            if uid == other
            then some (record t {
              body = (stored t).body;
              status = (stored t).status;
              modified = some later;
            })
            else task_by_uid c.task_cache other))
  unfolding delete_task restore_task put_task
  restore_task-delete_task uid t now later c c1 c2 b other f same y d r =
      let kept = delete_task-trash uid t now c c1 f d in
      let found : read_task yaml c1.trash uid ≡ some (stored t) =
        ground (arith, read_task-trash_task yaml c.trash c1.trash t y kept) in
      let (gone, _) = record_change-eq-none yaml store uid none now c c1 other tt d in
      let (went, b_true) =
        returning-eq-ok (record_change yaml store (of_task t.uid (some (stored t))) later c1) c2 b
          (sym (restore-step uid (stored t) later c1 found) ∙ r) in
      let (back, _) =
        record_change-eq-none yaml store t.uid (some (stored t)) later c1 c2 other refl went in
      (b_true, ground arith)
