-- ===== src/Sync/Snapshot.antt =====
-- crates/mgmt-sync/src/http.rs: the merge base that a pass loads, prepares and saves, and how a
-- conflict is decided. An instant is a number that grows with time.
pub mod Prepare
use mgmtui.Base.{
  ℕ, Text, text_eq, option_eq, ◌==◌, contains, Bool, true, false, not, Option, none, some, List, [],
  ◌∷◌, ◌++◌, find?, any, keep, ltb, if◌then◌else◌,
}
use mgmtui.Sync.Reconcile.{BaseRef, LocalItem, RemoteRef, remote_by_href, item_hrefs}

-- `BaseSnapshot::upsert`: the first entry of the href is replaced, or the entry is pushed.
pub replace_first : BaseRef → List BaseRef → List BaseRef
replace_first r [] = []
replace_first r (b ∷ bs) = if b.href == r.href then r ∷ bs else b ∷ replace_first r bs

pub upsert : BaseRef → List BaseRef → List BaseRef
upsert r refs = if any (λ b. b.href == r.href) refs then replace_first r refs else refs ++ (r ∷ [])

-- `BaseSnapshot::remove`
pub remove : Text → List BaseRef → List BaseRef
remove h refs = keep (λ b. not (b.href == h)) refs

abbrev pub remote_hrefs : List RemoteRef → List Text
remote_hrefs [] = []
remote_hrefs (r ∷ rs) = r.href ∷ remote_hrefs rs

abbrev pub live : List LocalItem → List RemoteRef → List Text
live locals remotes = item_hrefs locals ++ remote_hrefs remotes

-- One round of the loop that seeds entries for items in sync.
pub seed_item : List RemoteRef → LocalItem → List BaseRef → List BaseRef
seed_item remotes l refs = elim l.href [
  | none ↦ refs
  | some href ↦
      if any (λ b. b.href == href) refs then refs else elim (remote_by_href remotes href) [
        | none ↦ refs
        | some r ↦
            if l.etag == r.etag
            then upsert
                (record { uid = l.uid; href = href; remote_etag = r.etag; local_hash = l.hash })
                refs
            else refs
      ]
]

pub seed : List RemoteRef → List LocalItem → List BaseRef → List BaseRef
seed remotes [] refs = refs
seed remotes (l ∷ ls) refs = seed remotes ls (seed_item remotes l refs)

pub prune : List Text → List BaseRef → List BaseRef
prune hrefs refs = keep (λ b. contains hrefs b.href) refs

unfoldable pub prepare_base : List LocalItem → List RemoteRef → List BaseRef → List BaseRef
unfolding prune seed seed_item upsert replace_first
prepare_base locals remotes refs = seed remotes locals (prune (live locals remotes) refs)

-- A local copy wins a conflict only if both stamps are there and it is strictly newer.
unfoldable pub local_wins : Option ℕ → Option ℕ → Bool
local_wins (some l) (some r) = ltb r l
local_wins none r = false
local_wins (some l) none = false

-- The side that a warning names.
pub data Side : Type 0 where
  both_sides local_side remote_side : Side

unfoldable pub missing_modified : Option ℕ → Option ℕ → Option Side
missing_modified none none = some both_sides
missing_modified (some l) none = some remote_side
missing_modified none (some r) = some local_side
missing_modified (some l) (some r) = none
