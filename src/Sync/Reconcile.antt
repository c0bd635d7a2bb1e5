-- ===== src/Sync/Reconcile.antt =====
-- crates/mgmt-sync/src/reconcile.rs: the two-way and the three-way planner. An etag, a hash, an
-- href and a uid are texts, which the planners only compare. A `for` loop that pushes operations
-- is a recursion over the list, and what one round pushes is a function of its own.
pub mod FirstPass
pub mod Settled
pub mod Edits
use mgmtui.Base.{
  Text, text_eq, option_eq, ◌==◌, contains, Bool, true, false, not, Option, none, some, List, [],
  ◌∷◌, ◌++◌, find?, if◌then◌else◌,
}

abbrev pub Uid : Type 0
Uid = Text

pub record LocalRef : Type 0 where
  pub uid : Uid
  pub href : Option Text
  pub etag : Option Text

pub record RemoteRef : Type 0 where
  pub href : Text
  pub etag : Option Text

pub data SyncOp : Type 0 where
  push : Uid → SyncOp
  pull : Text → SyncOp
  delete_local : Uid → SyncOp

abbrev pub remote_by_href : List RemoteRef → Text → Option RemoteRef
remote_by_href remote h = find? (λ r. r.href == h) remote

-- One round of the first loop of `plan_sync`.
pub plan_local_ref : List RemoteRef → LocalRef → List SyncOp
plan_local_ref remote l = elim l.href [
  | none ↦ push l.uid ∷ []
  | some href ↦ elim (remote_by_href remote href) [
    | none ↦ delete_local l.uid ∷ []
    | some r ↦ if not (r.etag == l.etag) then pull href ∷ [] else []
  ]
]

pub plan_local_refs : List RemoteRef → List LocalRef → List SyncOp
plan_local_refs remote [] = []
plan_local_refs remote (l ∷ ls) = plan_local_ref remote l ++ plan_local_refs remote ls

abbrev pub push_href : Option Text → List Text → List Text
push_href none hs = hs
push_href (some h) hs = h ∷ hs

abbrev pub ref_hrefs : List LocalRef → List Text
ref_hrefs [] = []
ref_hrefs (l ∷ ls) = push_href l.href (ref_hrefs ls)

pub plan_remote_refs : List Text → List RemoteRef → List SyncOp
plan_remote_refs hrefs [] = []
plan_remote_refs hrefs (r ∷ rs) =
    let rest = plan_remote_refs hrefs rs in
    if not (contains hrefs r.href) then pull r.href ∷ rest else rest

unfoldable pub plan_sync : List LocalRef → List RemoteRef → List SyncOp
unfolding plan_local_ref plan_local_refs plan_remote_refs
plan_sync local remote = plan_local_refs remote local ++ plan_remote_refs (ref_hrefs local) remote

-- The merge base of one item.
pub record BaseRef : Type 0 where
  pub uid : Uid
  pub href : Text
  pub remote_etag : Option Text
  pub local_hash : Text

pub record LocalItem : Type 0 where
  pub uid : Uid
  pub href : Option Text
  pub etag : Option Text
  pub hash : Text

pub data SyncOp3 : Type 0 where
  push_create : Uid → SyncOp3
  push_update : Uid → Text → SyncOp3
  pull : Text → SyncOp3
  delete_local : Uid → SyncOp3
  delete_remote : Text → SyncOp3
  conflict : Uid → Text → SyncOp3

abbrev pub base_by_href : List BaseRef → Text → Option BaseRef
base_by_href base h = find? (λ b. b.href == h) base

-- `based.map(|b| b.local_hash != l.hash).unwrap_or(false)`
pub local_changed : Option BaseRef → LocalItem → Bool
local_changed none l = false
local_changed (some b) l = not (b.local_hash == l.hash)

-- The etag that the remote's is compared with: the base's, or else the one carried by the item.
pub base_etag : Option BaseRef → LocalItem → Option Text
base_etag none l = l.etag
base_etag (some b) l = b.remote_etag

-- The four-way match on what changed.
pub plan_both : Bool → Bool → Uid → Text → List SyncOp3
plan_both false false uid href = []
plan_both true false uid href = push_update uid href ∷ []
plan_both false true uid href = SyncOp3.pull href ∷ []
plan_both true true uid href = conflict uid href ∷ []

-- One round of the first loop of `plan_sync3`.
pub plan_local_item : List BaseRef → List RemoteRef → LocalItem → List SyncOp3
plan_local_item base remote l = elim l.href [
  | none ↦ push_create l.uid ∷ []
  | some href ↦
      let based = base_by_href base href in
      elim (remote_by_href remote href) [
        | none ↦
            if local_changed based l
            then push_create l.uid ∷ []
            else SyncOp3.delete_local l.uid ∷ []
        | some r ↦ plan_both (local_changed based l) (not (base_etag based l == r.etag)) l.uid href
      ]
]

pub plan_local_items : List BaseRef → List RemoteRef → List LocalItem → List SyncOp3
plan_local_items base remote [] = []
plan_local_items base remote (l ∷ ls) =
    plan_local_item base remote l ++ plan_local_items base remote ls

abbrev pub item_hrefs : List LocalItem → List Text
item_hrefs [] = []
item_hrefs (l ∷ ls) = push_href l.href (item_hrefs ls)

-- One round of the second loop, for a resource that no local item names.
pub plan_unseen : Option BaseRef → RemoteRef → SyncOp3
plan_unseen none r = SyncOp3.pull r.href
plan_unseen (some b) r =
    if not (b.remote_etag == r.etag) then SyncOp3.pull r.href else delete_remote r.href

pub plan_remote_items : List BaseRef → List Text → List RemoteRef → List SyncOp3
plan_remote_items base hrefs [] = []
plan_remote_items base hrefs (r ∷ rs) =
    let rest = plan_remote_items base hrefs rs in
    if contains hrefs r.href then rest else plan_unseen (base_by_href base r.href) r ∷ rest

unfoldable pub plan_sync3 : List BaseRef → List LocalItem → List RemoteRef → List SyncOp3
unfolding local_changed base_etag plan_both plan_local_item plan_local_items plan_unseen
    plan_remote_items
plan_sync3 base local remote =
    plan_local_items base remote local ++ plan_remote_items base (item_hrefs local) remote
