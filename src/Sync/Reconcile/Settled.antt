-- ===== src/Sync/Reconcile/Settled.antt =====
-- crates/mgmt-sync/src/reconcile.rs: when there is nothing left to do.
use mgmtui.Base.{
  Text, text_eq, option_eq, contains, ◌≡◌, refl, ◌↔◌, true, arith, Option, none, some, List, [],
  ◌∷◌, ◌++◌, All,
}
use mgmtui.Sync.Reconcile.{
  RemoteRef, remote_by_href, base_by_href, BaseRef, LocalItem, plan_local_item, plan_local_items,
  item_hrefs, plan_remote_items, plan_sync3,
}

-- The item and the resource are as the base has them; without a base entry the etags agree.
abbrev pub Agree : Option BaseRef → LocalItem → RemoteRef → Type 0
Agree none l r = l.etag ≡ r.etag
Agree (some b) l r = (b.local_hash ≡ l.hash) × (b.remote_etag ≡ r.etag)

-- The item is bound to a resource that the server lists, and neither has changed.
abbrev pub IsSettled : List BaseRef → List RemoteRef → LocalItem → Type 0
IsSettled base remote l =
    (h : Text) × (r : RemoteRef) × (l.href ≡ some h)
    × (remote_by_href remote h ≡ some r)
    × Agree (base_by_href base h) l r

pub plan_local_item-eq-nil :
    (base : List BaseRef) (remote : List RemoteRef) (l : LocalItem)
    → (plan_local_item base remote l ≡ []) ↔ IsSettled base remote l
unfolding plan_sync3
plan_local_item-eq-nil base remote l = ground arith

append-eq-nil : {A : Type 0} (xs ys : List A) → (xs ++ ys ≡ []) ↔ ((xs ≡ []) × (ys ≡ []))
append-eq-nil [] ys = (λ e. (refl, e), λ e. e.1)
append-eq-nil (x ∷ xs) ys = (λ e. cc, λ e. cc e.0)

plan_local_items-eq-nil :
    (base : List BaseRef) (remote : List RemoteRef) (ls : List LocalItem)
    → (plan_local_items base remote ls ≡ []) ↔ All (IsSettled base remote) ls
unfolding plan_local_items
plan_local_items-eq-nil base remote [] = (λ e. tt, λ s. refl)
plan_local_items-eq-nil base remote (l ∷ ls) =
    let split = append-eq-nil (plan_local_item base remote l) (plan_local_items base remote ls) in
    let this = plan_local_item-eq-nil base remote l in
    let rest = plan_local_items-eq-nil base remote ls in
    (λ e. (this.0 (split.0 e).0, rest.0 (split.0 e).1), λ s. split.1 (this.1 s.0, rest.1 s.1))

plan_remote_items-eq-nil :
    (base : List BaseRef) (hrefs : List Text) (rs : List RemoteRef)
    → (plan_remote_items base hrefs rs ≡ []) ↔ All (λ r. contains hrefs r.href ≡ true) rs
unfolding plan_remote_items
plan_remote_items-eq-nil base hrefs [] = (λ e. tt, λ s. refl)
plan_remote_items-eq-nil base hrefs (r ∷ rs) =
    ground (arith, plan_remote_items-eq-nil base hrefs rs)

-- The plan is empty exactly when every local item is bound to a listed resource, neither of the two
-- has changed since the base, and every listed resource is bound to a local item.
pub plan_sync3-eq-nil :
    (base : List BaseRef) (local : List LocalItem) (remote : List RemoteRef)
    → (plan_sync3 base local remote ≡ []) ↔ (
        All (IsSettled base remote) local
        × All (λ r. contains (item_hrefs local) r.href ≡ true) remote)
unfolding plan_sync3
plan_sync3-eq-nil base local remote =
    let split = append-eq-nil (plan_local_items base remote local) _ in
    let ours = plan_local_items-eq-nil base remote local in
    let theirs = plan_remote_items-eq-nil base (item_hrefs local) remote in
    (λ e. (ours.0 (split.0 e).0, theirs.0 (split.0 e).1), λ s. split.1 (ours.1 s.0, theirs.1 s.1))
