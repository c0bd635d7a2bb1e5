-- ===== src/Sync/Driver/Pass.antt =====
-- crates/mgmt-sync/src/http.rs: the loop of `sync_tasks_http` and the pass around it.
use mgmtui.Base.{
  ◌+◌, Text, text, text_eq, true, false, Option, none, some, List, [], ◌∷◌, if◌then◌else◌,
}
use mgmtui.Base.Result.{Result, ok, err}
use mgmtui.Core.{Error, other}
use mgmtui.Domain.Task.{Task}
use mgmtui.Markdown.{Yaml, Frontmatter, parse_task}
use mgmtui.Store.Files.{Dir}
use mgmtui.Store.Paths.{task_file}
use mgmtui.Store.Vault
use mgmtui.Store.Vault.{load_all}
use mgmtui.Sync.Reconcile.{BaseRef, RemoteRef, SyncOp3, plan_sync3}
use mgmtui.Sync.Snapshot.{remove, prepare_base, local_wins}
use mgmtui.Sync.Remote
use mgmtui.Sync.Driver.{
  SyncReport, no_report, State, Outcome, Local, task_by_uid, body_by_uid, remote_etag, load,
  local_bodies, local_items, push, take_remote, modified_of,
}

abbrev pub count_deletion : SyncReport → SyncReport
count_deletion r = record r { deleted = r.deleted + 1 }

-- The base without the entry of the href that a task has.
abbrev pub forget : Option Task → List BaseRef → List BaseRef
forget none base = base
forget (some t) base = elim t.sync.href [ none ↦ base | some href ↦ remove href base ]

-- Going on from a step that did not fail.
abbrev pub and_then : Outcome → (State → Outcome) → Outcome
and_then (st, none) next = next st
and_then (st, some e) next = (st, some e)

-- The href that a task has, or else the name of its file.
abbrev pub new_href : Task → Text → Text
new_href t uid = elim t.sync.href [ none ↦ task_file uid | some href ↦ href ]

-- The vault, the server and the file of the base.
abbrev pub World : Type 0
World = Dir × Dir × Option Text

abbrev pub start : Dir → Dir → List BaseRef → State
start vault server base = record { vault = vault; server = server; base = base; report = no_report }

abbrev pub reported : Outcome → Result Error SyncReport
reported (st, none) = ok st.report
reported (st, some e) = err e

module _ (yaml : Yaml Frontmatter) (sha256 : Text → Text) where
  module _ (locals : List Local) (remotes : List RemoteRef) where
    -- One round of the loop.
    unfoldable pub step : SyncOp3 → State → Outcome
    step (SyncOp3.push_create uid) st = elim (task_by_uid locals uid) [
      | none ↦ (st, none)
      | some t ↦ push yaml sha256 t uid (new_href t uid) (body_by_uid locals uid []) none true st
    ]
    step (SyncOp3.push_update uid href) st = elim (task_by_uid locals uid) [
      | none ↦ (st, none)
      | some t ↦
          push yaml sha256 t uid href (body_by_uid locals uid []) (remote_etag remotes href) false
            st
    ]
    step (SyncOp3.pull href) st = elim (Remote.get sha256 (text ".md") st.server href) [
      | err e ↦ (st, some e)
      | ok (body, etag) ↦ take_remote yaml sha256 none href body etag st
    ]
    step (SyncOp3.delete_local uid) st = (
      record st {
        vault = (Vault.delete st.vault uid).0;
        base = forget (task_by_uid locals uid) st.base;
        report = count_deletion st.report;
      },
      none,
    )
    step (SyncOp3.delete_remote href) st =
        elim (Remote.delete sha256 (text ".md") st.server href (remote_etag remotes href)) [
          | err e ↦ (st, some e)
          | ok server' ↦ (
            record st {
              server = server';
              base = remove href st.base;
              report = count_deletion st.report;
            },
            none,
          )
        ]
    step (SyncOp3.conflict uid href) st = elim (task_by_uid locals uid) [
      | none ↦ (st, none)
      | some t ↦ elim (Remote.get sha256 (text ".md") st.server href) [
        | err e ↦ (st, some e)
        | ok (body, etag) ↦
            if local_wins t.modified (modified_of (parse_task yaml body))
            then push yaml sha256 t uid href (body_by_uid locals uid []) etag false st
            else take_remote yaml sha256 (some uid) href body etag st
      ]
    ]

    -- The loop over the plan, which stops at the first error.
    unfoldable pub run : List SyncOp3 → State → Outcome
    run [] st = (st, none)
    run (op ∷ ops) st = and_then (step op st) (λ st'. run ops st')

  -- The base that the planner is given, and its plan.
  abbrev pub prepared : List Local → Dir → List BaseRef → List BaseRef
  prepared locals server refs =
      prepare_base (local_items yaml sha256 locals) (Remote.list sha256 (text "md") server) refs

  abbrev pub planned : List Local → Dir → List BaseRef → List SyncOp3
  planned locals server refs =
      plan_sync3 (prepared locals server refs) (local_items yaml sha256 locals)
        (Remote.list sha256 (text "md") server)

  module _ (from_str : Text → Option (List BaseRef)) (to_string : List BaseRef → Option Text) where
    -- The base is saved after the loop, whether or not a step failed.
    unfoldable pub save : Outcome → Option Text → World × Result Error SyncReport
    save (st, e) file = elim (to_string st.base) [
      | none ↦ ((st.vault, st.server, file), err other)
      | some text ↦ ((st.vault, st.server, some text), reported (st, e))
    ]

    unfoldable pub sync_tasks_http : World → World × Result Error SyncReport
    sync_tasks_http (vault, server, file) = elim (load from_str file) [
      | err e ↦ ((vault, server, file), err e)
      | ok refs ↦ elim (local_bodies yaml sha256 (load_all yaml vault)) [
        | err e ↦ ((vault, server, file), err e)
        | ok locals ↦
            save
              (run locals (Remote.list sha256 (text "md") server) (planned locals server refs)
                (start vault server (prepared locals server refs)))
              file
      ]
    ]
