-- ===== src/Sync/Reconcile/FirstPass.antt =====
-- crates/mgmt-sync/src/reconcile.rs: the three-way planner without a base against the two-way one.
use mathlib.Core.List.{map-append}
use mgmtui.Base.{Text, text_eq, option_eq, ◌≡◌, refl, arith, List, [], ◌∷◌, map}
use mgmtui.Sync.Reconcile.{
  LocalRef, RemoteRef, SyncOp, push, pull, delete_local, plan_local_ref, plan_local_refs, ref_hrefs,
  plan_remote_refs, plan_sync, LocalItem, SyncOp3, push_create, plan_local_item, plan_local_items,
  item_hrefs, plan_remote_items, plan_sync3,
}

-- What the two-way planner sees of an item.
abbrev pub two_way_ref : LocalItem → LocalRef
two_way_ref l = record { uid = l.uid; href = l.href; etag = l.etag }

abbrev pub as_three_way : SyncOp → SyncOp3
as_three_way (push u) = push_create u
as_three_way (pull h) = SyncOp3.pull h
as_three_way (delete_local u) = SyncOp3.delete_local u

plan_local_item-nil :
    (remote : List RemoteRef) (l : LocalItem)
    → plan_local_item [] remote l ≡ map as_three_way (plan_local_ref remote (two_way_ref l))
unfolding plan_sync plan_sync3
plan_local_item-nil remote l = ground arith

plan_local_items-nil :
    (remote : List RemoteRef) (ls : List LocalItem)
    → plan_local_items [] remote ls ≡ map as_three_way (plan_local_refs remote (map two_way_ref ls))
unfolding plan_local_items plan_local_refs
plan_local_items-nil remote [] = refl
plan_local_items-nil remote (l ∷ ls) =
    rw (plan_local_item-nil remote l, plan_local_items-nil remote ls, map-append)

item_hrefs-eq : (ls : List LocalItem) → ref_hrefs (map two_way_ref ls) ≡ item_hrefs ls
item_hrefs-eq [] = refl
item_hrefs-eq (l ∷ ls) = rw (item_hrefs-eq ls)

plan_remote_items-nil :
    (hrefs : List Text) (rs : List RemoteRef)
    → plan_remote_items [] hrefs rs ≡ map as_three_way (plan_remote_refs hrefs rs)
unfolding plan_sync plan_sync3
plan_remote_items-nil hrefs [] = refl
plan_remote_items-nil hrefs (r ∷ rs) = ground (arith, plan_remote_items-nil hrefs rs)

-- Without a base the three-way planner plans what the two-way, remote-wins planner plans, operation
-- by operation and in the same order.
pub plan_sync3-first_pass :
    (local : List LocalItem) (remote : List RemoteRef)
    → plan_sync3 [] local remote ≡ map as_three_way (plan_sync (map two_way_ref local) remote)
unfolding plan_sync3 plan_sync
plan_sync3-first_pass local remote =
    simp (plan_local_items-nil, item_hrefs-eq, plan_remote_items-nil, map-append)
