-- ===== src/Sync/Reconcile/Edits.antt =====
-- crates/mgmt-sync/src/reconcile.rs: edits on either side survive the plan.
use mgmtui.Base.{
  ◌∙◌, sym, ap, true, Text, text_eq, option_eq, contains, ◌≡◌, ◌≢◌, ◌⊎◌, inl, inr, arith, some,
  List, [], ◌∷◌, All, All-append, In,
}
use mgmtui.Sync.Reconcile.{
  Uid, RemoteRef, remote_by_href, base_by_href, BaseRef, LocalItem, plan_local_item,
  plan_local_items, item_hrefs, plan_remote_items, plan_sync3, SyncOp3, push_create, push_update,
  delete_remote, conflict,
}

-- The operation neither removes the local item `u` nor writes the remote copy at `h` over it.
abbrev pub KeepsLocal : Uid → Text → SyncOp3 → Type 0
KeepsLocal u h (SyncOp3.pull h') = h' ≢ h
KeepsLocal u h (SyncOp3.delete_local u') = u' ≢ u
KeepsLocal u h (push_create u') = Unit
KeepsLocal u h (push_update u' h') = Unit
KeepsLocal u h (delete_remote h') = Unit
KeepsLocal u h (conflict u' h') = Unit

-- The operation neither removes the resource at `h` nor overwrites it unasked.
abbrev pub KeepsRemote : Text → SyncOp3 → Type 0
KeepsRemote h (push_update u' h') = h' ≢ h
KeepsRemote h (delete_remote h') = h' ≢ h
KeepsRemote h (SyncOp3.pull h') = Unit
KeepsRemote h (SyncOp3.delete_local u') = Unit
KeepsRemote h (push_create u') = Unit
KeepsRemote h (conflict u' h') = Unit

module _ (base : List BaseRef) (remote : List RemoteRef) (l : LocalItem) (h : Text) (b : BaseRef)
    (bound : l.href ≡ some h) (based : base_by_href base h ≡ some b)
    (edited : b.local_hash ≢ l.hash) where
  own_round : All (KeepsLocal l.uid h) (plan_local_item base remote l)
  unfolding plan_sync3
  own_round = ground arith

  other_round :
      (m : LocalItem)
      → m.uid ≢ l.uid
      → m.href ≢ l.href
      → All (KeepsLocal l.uid h) (plan_local_item base remote m)
  unfolding plan_sync3
  other_round m u e = ground arith

contains-item_hrefs :
    (l : LocalItem) (h : Text) (ls : List LocalItem)
    → In l ls
    → l.href ≡ some h
    → contains (item_hrefs ls) h ≡ true
contains-item_hrefs l h [] m e = absurd m
contains-item_hrefs l h (k ∷ ls) (inl same) e = rw (ap LocalItem.href (sym same) ∙ e) (ground arith)
contains-item_hrefs l h (k ∷ ls) (inr m) e = ground (arith, contains-item_hrefs l h ls m e)

skip_bound :
    (base : List BaseRef) (hrefs : List Text) (u : Uid) (h : Text) (rs : List RemoteRef)
    → contains hrefs h ≡ true
    → All (KeepsLocal u h) (plan_remote_items base hrefs rs)
unfolding plan_sync3
skip_bound base hrefs u h [] c = tt
skip_bound base hrefs u h (r ∷ rs) c = ground (arith, skip_bound base hrefs u h rs c)

-- Every other item has a uid and an href of its own.
abbrev pub IsApart : LocalItem → List LocalItem → Type 0
IsApart l = All (λ m. (m ≡ l) ⊎ ((m.uid ≢ l.uid) × (m.href ≢ l.href)))

module _ (base : List BaseRef) (remote : List RemoteRef) (l : LocalItem) (h : Text) (b : BaseRef)
    (bound : l.href ≡ some h) (based : base_by_href base h ≡ some b)
    (edited : b.local_hash ≢ l.hash) where
  KeepsLocal-plan_local_items :
      (ls : List LocalItem)
      → IsApart l ls
      → All (KeepsLocal l.uid h) (plan_local_items base remote ls)
  unfolding plan_local_items
  KeepsLocal-plan_local_items [] a = tt
  KeepsLocal-plan_local_items (m ∷ ls) (inl same, a) =
      All-append (KeepsLocal l.uid h) (plan_local_item base remote m) _
        (rw same (own_round base remote l h b bound based edited))
        (KeepsLocal-plan_local_items ls a)
  KeepsLocal-plan_local_items (m ∷ ls) (inr (u, e), a) =
      All-append (KeepsLocal l.uid h) (plan_local_item base remote m) _
        (other_round base remote l h b bound based edited m u e) (KeepsLocal-plan_local_items ls a)

  -- For an item that is bound to an href with a base entry, and whose body has changed since that
  -- entry, no planned operation deletes the item or pulls its href (it may be pushed, or be a
  -- conflict), if no other item has its uid or href.
  pub plan_sync3-KeepsLocal :
      (local : List LocalItem)
      → In l local
      → IsApart l local
      → All (KeepsLocal l.uid h) (plan_sync3 base local remote)
  unfolding plan_sync3
  plan_sync3-KeepsLocal local m a =
      All-append (KeepsLocal l.uid h) (plan_local_items base remote local) _
        (KeepsLocal-plan_local_items local a)
        (skip_bound base _ l.uid h remote (contains-item_hrefs l h local m bound))

module _ (base : List BaseRef) (remote : List RemoteRef) (r : RemoteRef) (b : BaseRef)
    (listed : remote_by_href remote r.href ≡ some r) (based : base_by_href base r.href ≡ some b)
    (edited : b.remote_etag ≢ r.etag) where
  remote_round : (l : LocalItem) → All (KeepsRemote r.href) (plan_local_item base remote l)
  unfolding plan_sync3
  remote_round l = ground arith

  remote_rounds : (ls : List LocalItem) → All (KeepsRemote r.href) (plan_local_items base remote ls)
  unfolding plan_local_items
  remote_rounds [] = tt
  remote_rounds (l ∷ ls) =
      All-append (KeepsRemote r.href) (plan_local_item base remote l) _ (remote_round l)
        (remote_rounds ls)

  unseen_rounds :
      (hrefs : List Text) (qs : List RemoteRef)
      → All (λ q. (q ≡ r) ⊎ (q.href ≢ r.href)) qs
      → All (KeepsRemote r.href) (plan_remote_items base hrefs qs)
  unfolding plan_sync3
  unseen_rounds hrefs [] a = tt
  unseen_rounds hrefs (q ∷ qs) (inl same, a) = rw same (ground (arith, unseen_rounds hrefs qs a))
  unseen_rounds hrefs (q ∷ qs) (inr other, a) = ground (arith, unseen_rounds hrefs qs a)

  -- For a listed resource whose href has a base entry, and whose etag has changed since that entry, no
  -- planned operation deletes it or pushes over it (it may be pulled, or be a conflict), if no other
  -- listed resource has its href.
  pub plan_sync3-KeepsRemote :
      (local : List LocalItem)
      → All (λ q. (q ≡ r) ⊎ (q.href ≢ r.href)) remote
      → All (KeepsRemote r.href) (plan_sync3 base local remote)
  unfolding plan_sync3
  plan_sync3-KeepsRemote local a =
      All-append (KeepsRemote r.href) (plan_local_items base remote local) _ (remote_rounds local)
        (unseen_rounds (item_hrefs local) remote a)
