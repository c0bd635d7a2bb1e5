-- ===== src/Sync/Driver.antt =====
-- crates/mgmt-sync/src/http.rs: `sync_tasks_http`. A pass changes a world: the vault, the server's
-- directory and the file of the merge base. A step that fails keeps what it has already changed. The
-- server may be changed by others between the listing and a step. The hash of a body and the server's
-- tags are made by one digest.
pub mod Pass
pub mod Settled
pub mod Errors
use mgmtui.Base.{
  ℕ, ◌+◌, Text, text, text_eq, ◌==◌, Bool, true, false, Option, none, some, List, [], ◌∷◌, ◌++◌,
  find?, if◌then◌else◌,
}
use mgmtui.Base.Result.{Result, ok, err, ◌>>=◌, ok_or}
use mgmtui.Core.{Error, parse_error, other}
use mgmtui.Domain.Event.{SyncMeta}
use mgmtui.Domain.Instant.{Instant}
use mgmtui.Domain.Task.{Task}
use mgmtui.Markdown.{Yaml, Frontmatter, parse_task, serialize_task}
use mgmtui.Store.Files.{Dir}
use mgmtui.Store.Paths.{task_file}
use mgmtui.Store.Vault
use mgmtui.Store.Vault.{load_all}
use mgmtui.Sync.Reconcile.{
  BaseRef, LocalItem, RemoteRef, SyncOp3, push_create, push_update, delete_remote, conflict,
  remote_by_href, plan_sync3,
}
use mgmtui.Sync.Snapshot.{upsert, remove, prepare_base, local_wins}
use mgmtui.Sync.Remote.{list, get, put}
use mgmtui.Sync.Remote

pub record SyncReport : Type 0 where
  pub pushed : ℕ
  pub pulled : ℕ
  pub deleted : ℕ

abbrev pub no_report : SyncReport
no_report = record { pushed = 0; pulled = 0; deleted = 0 }

-- What the loop over the plan changes.
pub record State : Type 0 where
  pub vault : Dir
  pub server : Dir
  pub base : List BaseRef
  pub report : SyncReport

-- The state after a step, and the error if it failed.
abbrev pub Outcome : Type 0
Outcome = State × Option Error

abbrev pub no_sync : SyncMeta
no_sync = record { href = none; etag = none }

abbrev pub with_sync : Task → Text → Option Text → Task
with_sync t href etag = record t { sync = record { href = some href; etag = etag } }

-- A task with the body that would be uploaded.
abbrev pub Local : Type 0
Local = Task × Text

abbrev pub task_by_uid : List Local → Text → Option Task
task_by_uid locals uid = elim (find? (λ l. l.0.uid == uid) locals) [
  | none ↦ none
  | some l ↦ some (l.0)
]

-- `bodies[&uid]`: the last body that was put in for the uid.
unfoldable pub body_by_uid : List Local → Text → Text → Text
body_by_uid [] uid found = found
body_by_uid ((t, body) ∷ locals) uid found =
    body_by_uid locals uid (if t.uid == uid then body else found)

abbrev pub remote_etag : List RemoteRef → Text → Option Text
remote_etag remotes href = elim (remote_by_href remotes href) [ none ↦ none | some r ↦ r.etag ]

-- `BaseSnapshot::load`, at the text of the file if there is one, and the JSON reader.
unfoldable pub load : (Text → Option (List BaseRef)) → Option Text → Result Error (List BaseRef)
load from_str none = ok []
load from_str (some text) = ok_or (from_str text) parse_error

abbrev pub modified_of : Result Error Task → Option Instant
modified_of (ok t) = t.modified
modified_of (err e) = none

module _ (yaml : Yaml Frontmatter) (sha256 : Text → Text) where
  unfoldable pub clean_body : Task → Result Error Text
  clean_body t = serialize_task yaml (record t { sync = no_sync })

  unfoldable pub stamp_task : Dir → Task → Text → Option Text → Result Error Dir
  stamp_task vault t href etag = Vault.upsert yaml vault (with_sync t href etag)

  unfoldable pub local_item : Task → Text → LocalItem
  local_item t body = record {
    uid = t.uid;
    href = t.sync.href;
    etag = t.sync.etag;
    hash = sha256 body;
  }

  -- The loop that fills `locals` and `bodies`.
  unfoldable pub local_bodies : List Task → Result Error (List Local)
  local_bodies [] = ok []
  local_bodies (t ∷ ts) = do body ← clean_body t; rest ← local_bodies ts; ok ((t, body) ∷ rest)

  unfoldable pub local_items : List Local → List LocalItem
  local_items [] = []
  local_items ((t, body) ∷ locals) = local_item t body ∷ local_items locals

  -- An upload of a body: the server, then the vault's copy, then the base entry.
  unfoldable pub push : Task → Text → Text → Text → Option Text → Bool → State → Outcome
  push t uid href body if_match create st =
      elim (put sha256 (text ".md") st.server href body if_match create) [
        | err e ↦ (st, some e)
        | ok (server', etag) ↦ elim (stamp_task st.vault t href etag) [
          | err e ↦ (record st { server = server' }, some e)
          | ok vault' ↦ (
            record {
              vault = vault';
              server = server';
              base =
                  upsert
                    (record {
                      uid = uid;
                      href = href;
                      remote_etag = etag;
                      local_hash = sha256 body;
                    })
                    st.base;
              report = record st.report { pushed = st.report.pushed + 1 };
            },
            none,
          )
        ]
      ]

  -- A downloaded body is parsed and stored: the task, its clean body and the vault.
  unfoldable pub store_task : Dir → Text → Option Text → Text → Result Error (Task × Text × Dir)
  store_task vault href etag body = do
    task ← parse_task yaml body
    clean ← clean_body task
    vault' ← Vault.upsert yaml vault (with_sync task href etag)
    ok (task, clean, vault')

  -- The base entry is at the given uid, or at the task's own.
  unfoldable pub take_remote : Option Text → Text → Text → Option Text → State → Outcome
  take_remote known href body etag st = elim (store_task st.vault href etag body) [
    | err e ↦ (st, some e)
    | ok (task, clean, vault') ↦ (
      record {
        vault = vault';
        server = st.server;
        base =
            upsert
              (record {
                uid = elim known [ none ↦ task.uid | some uid ↦ uid ];
                href = href;
                remote_etag = etag;
                local_hash = sha256 clean;
              })
              st.base;
        report = record st.report { pulled = st.report.pulled + 1 };
      },
      none,
    )
  ]
