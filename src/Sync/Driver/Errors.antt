-- ===== src/Sync/Driver/Errors.antt =====
-- crates/mgmt-sync/src/http.rs: a step against a file that has changed, and a pass that fails.
use mgmtui.Base.{
  Option, ap, ◌∙◌, sym, ◌⊎◌, Text, text, false, none, some, List, [], ◌∷◌, ◌++◌, ◌≡◌, refl, arith,
  inl, inr,
}
use mgmtui.Base.Result.{ok, err}
use mgmtui.Core.{Error}
use mgmtui.Domain.Task.{Task}
use mgmtui.Markdown.{Yaml, Frontmatter}
use mgmtui.Store.Files.{Dir, read}
use mgmtui.Sync.Reconcile.{RemoteRef, SyncOp3, push_update, delete_remote}
use mgmtui.Sync.Remote
use mgmtui.Sync.Driver.{
  load_all, local_bodies, load, BaseRef, body_by_uid, State, Outcome, Local, task_by_uid,
  remote_etag, push,
}
use mgmtui.Sync.Driver.Pass.{
  prepared, start, planned, reported, World, save, sync_tasks_http, step, run,
}
use mgmtui.Web.Sync.{
  item_path, etag, etags_equal, put_item, write_item, delete_item, remove_item, matches_current,
  wants_new,
}

Outcome-cases :
    (o : Outcome)
    → ((st : State) × (o ≡ (st, none))) ⊎ ((st : State) × (e : Error) × (o ≡ (st, some e)))
Outcome-cases (st, none) = inl (st, refl)
Outcome-cases (st, some e) = inr (st, e, refl)

module _ (sha256 : Text → Text) (server : Dir) (href tag body : Text) where
  put-stale :
      (new : Text)
      → item_path (text ".md") href ≡ ok href
      → read server href ≡ some body
      → etags_equal (etag sha256 body) tag ≡ false
      → Remote.put sha256 (text ".md") server href new (some tag) false ≡ err Error.conflict
  unfolding Remote.put Remote.put_headers Remote.check put_item write_item matches_current wants_new
  put-stale new l r h = ground arith

  delete-stale :
      item_path (text ".md") href ≡ ok href
      → read server href ≡ some body
      → etags_equal (etag sha256 body) tag ≡ false
      → Remote.delete sha256 (text ".md") server href (some tag) ≡ err Error.conflict
  unfolding Remote.delete Remote.put_headers Remote.check delete_item remove_item matches_current
  delete-stale l r h = ground arith

module _ (yaml : Yaml Frontmatter) (sha256 : Text → Text) (locals : List Local)
    (remotes : List RemoteRef) where
  -- If the file of an href was changed on the server after the listing, so that its tag is no longer the
  -- listed one, then a planned upload to it and a planned deletion of it fail with a conflict and
  -- change nothing.
  pub step-stale :
      (uid href tag body : Text) (t : Task) (st : State)
      → item_path (text ".md") href ≡ ok href
      → task_by_uid locals uid ≡ some t
      → remote_etag remotes href ≡ some tag
      → read st.server href ≡ some body
      → etags_equal (etag sha256 body) tag ≡ false
      → (step yaml sha256 locals remotes (push_update uid href) st ≡ (st, some Error.conflict))
        × (step yaml sha256 locals remotes (delete_remote href) st ≡ (st, some Error.conflict))
  unfolding step push
  step-stale uid href tag body t st l f g r h =
      let refused = put-stale sha256 st.server href tag body (body_by_uid locals uid []) l r h in
      let kept = delete-stale sha256 st.server href tag body l r h in (ground arith, ground arith)

  run-step :
      (op : SyncOp3) (ops : List SyncOp3) (st st1 : State)
      → step yaml sha256 locals remotes op st ≡ (st1, none)
      → run yaml sha256 locals remotes (op ∷ ops) st ≡ run yaml sha256 locals remotes ops st1
  unfolding run
  run-step op ops st st1 e = rw (e, run)

  run-stop :
      (op : SyncOp3) (ops : List SyncOp3) (st st1 : State) (e : Error)
      → step yaml sha256 locals remotes op st ≡ (st1, some e)
      → run yaml sha256 locals remotes (op ∷ ops) st ≡ (st1, some e)
  unfolding run
  run-stop op ops st st1 e h = rw (h, run)

  -- A loop that fails has run the operations before some operation, and that one failed.
  pub run-eq-failed :
      (ops : List SyncOp3) (st st' : State) (e : Error)
      → run yaml sha256 locals remotes ops st ≡ (st', some e)
      → (before : List SyncOp3) × (op : SyncOp3) × (rest : List SyncOp3) × (st1 : State) × (ops
          ≡ before ++ (op ∷ rest))
        × (run yaml sha256 locals remotes before st ≡ (st1, none))
        × (step yaml sha256 locals remotes op st1 ≡ (st', some e))
  run-eq-failed [] st st' e h = absurd (unfold run in ground arith)
  run-eq-failed (op ∷ ops) st st' e h =
      elim (Outcome-cases (step yaml sha256 locals remotes op st)) [
        | inl (next, n) ↦
            let (before, op', rest, st1, split, ran, hit) =
              run-eq-failed ops next st' e (sym (run-step op ops st next n) ∙ h) in
            (
              op ∷ before,
              op',
              rest,
              st1,
              ap (λ l. op ∷ l) split,
              run-step op before st next n ∙ ran,
              hit,
            )
        | inr (next, x, n) ↦
            ([], op, ops, st, refl, unfold run in refl, n ∙ (sym (run-stop op ops st next x n) ∙ h))
      ]

module _ (yaml : Yaml Frontmatter) (sha256 : Text → Text) where
  module _ (from_str : Text → Option (List BaseRef)) (to_string : List BaseRef → Option Text) where
    save-eq-ok :
        (st : State) (failed : Option Error) (file : Option Text) (text : Text)
        → to_string st.base ≡ some text
        → save yaml sha256 from_str to_string (st, failed) file
          ≡ ((st.vault, st.server, some text), reported (st, failed))
    unfolding save
    save-eq-ok st failed file text e = rw (e, save)

    -- A pass that fails in its loop: the operations of the plan before the failing one are done, and the
    -- vault, the server and the base are left as they are at the failure, with the base in its file.
    pub sync_tasks_http-eq-err :
        (vault server : Dir) (file : Option Text) (refs : List BaseRef) (locals : List Local)
        (world : World) (e : Error)
        → load from_str file ≡ ok refs
        → local_bodies yaml sha256 (load_all yaml vault) ≡ ok locals
        → ((base : List BaseRef) → (text : Text) × (to_string base ≡ some text))
        → sync_tasks_http yaml sha256 from_str to_string (vault, server, file) ≡ (world, err e)
        → (before : List SyncOp3) × (op : SyncOp3) × (rest : List SyncOp3) × (st1 : State)
          × (st2 : State) × (planned yaml sha256 locals server refs ≡ before ++ (op ∷ rest))
          × (run yaml sha256 locals
                (Remote.list sha256 (text "md") server)
                before
                (start vault server (prepared yaml sha256 locals server refs))
              ≡ (st1, none))
          × (step yaml sha256 locals (Remote.list sha256 (text "md") server) op st1 ≡ (st2, some e))
          × (world ≡ (st2.vault, st2.server, to_string st2.base))
    unfolding sync_tasks_http
    sync_tasks_http-eq-err vault server file refs locals world e l b total h =
        let remotes = Remote.list sha256 (text "md") server in
        let st0 = start vault server (prepared yaml sha256 locals server refs) in
        let plan = planned yaml sha256 locals server refs in
        elim (Outcome-cases (run yaml sha256 locals remotes plan st0)) [
          | inl (st, n) ↦
              let (text, t) = total st.base in
              let saved = save-eq-ok st none file text t in absurd (ground arith)
          | inr (st2, x, n) ↦
              let (text, t) = total st2.base in
              let saved = save-eq-ok st2 (some x) file text t in
              let same : x ≡ e = ground arith in
              let (before, op, rest, st1, split, ran, hit) =
                run-eq-failed yaml sha256 locals remotes plan st0 st2 e (n ∙ rw same refl) in
              (before, op, rest, st1, st2, split, ran, hit, ground arith)
        ]
