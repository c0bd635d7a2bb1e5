-- ===== src/Tests/Sync.antt =====
-- Runs of the planners and of the merge base.
use mgmtui.Base.{
  arith, Text, text, text_eq, option_eq, refl, ◌≡◌, some, none, List, [], ◌∷◌, map, All, true, inl,
  inr, contains, ◌↔◌,
}
use mgmtui.Sync.Reconcile.{
  RemoteRef, LocalItem, BaseRef, SyncOp3, push_create, push_update, delete_remote, conflict,
  plan_sync, plan_sync3, item_hrefs,
}
use mgmtui.Sync.Reconcile.FirstPass.{plan_sync3-first_pass, as_three_way, two_way_ref}
use mgmtui.Sync.Reconcile.Settled.{plan_sync3-eq-nil, IsSettled}
use mgmtui.Sync.Reconcile.Edits.{
  KeepsLocal, KeepsRemote, plan_sync3-KeepsLocal, plan_sync3-KeepsRemote,
}
use mgmtui.Sync.Snapshot.{prepare_base}

abbrev item : Text → Text → Text → LocalItem
item uid etag hash = record { uid = uid; href = some uid; etag = some etag; hash = hash }

abbrev based_on : Text → Text → Text → BaseRef
based_on uid etag hash = record {
  uid = uid;
  href = uid;
  remote_etag = some etag;
  local_hash = hash;
}

abbrev listed : Text → Text → RemoteRef
listed href etag = record { href = href; etag = some etag }

abbrev unsynced : LocalItem
unsynced = record { uid = text "n"; href = none; etag = none; hash = text "h" }

-- `a` is edited here, `b` there, `c` on both sides, `d` is gone there, `e` gone here.
abbrev locals : List LocalItem
locals =
    item (text "a") (text "1") (text "x")
    ∷ item (text "b") (text "1") (text "h")
    ∷ item (text "c") (text "1") (text "x")
    ∷ item (text "d") (text "1") (text "h")
    ∷ unsynced
    ∷ []

abbrev base : List BaseRef
base =
    based_on (text "a") (text "1") (text "h")
    ∷ based_on (text "b") (text "1") (text "h")
    ∷ based_on (text "c") (text "1") (text "h")
    ∷ based_on (text "d") (text "1") (text "h")
    ∷ based_on (text "e") (text "1") (text "h")
    ∷ []

abbrev remotes : List RemoteRef
remotes =
    listed (text "a") (text "1")
    ∷ listed (text "b") (text "2")
    ∷ listed (text "c") (text "2")
    ∷ listed (text "e") (text "1")
    ∷ listed (text "f") (text "1")
    ∷ []

mixed_pass :
    plan_sync3 base locals remotes
    ≡ push_update (text "a") (text "a")
      ∷ SyncOp3.pull (text "b")
      ∷ conflict (text "c") (text "c")
      ∷ SyncOp3.delete_local (text "d")
      ∷ push_create (text "n")
      ∷ delete_remote (text "e")
      ∷ SyncOp3.pull (text "f")
      ∷ []
unfolding plan_sync3 text_eq option_eq
mixed_pass = refl

prepared : prepare_base locals remotes [] ≡ based_on (text "a") (text "1") (text "x") ∷ []
unfolding prepare_base text_eq option_eq
prepared = refl

plan_sync3-first_pass_example :
    plan_sync3 [] locals remotes ≡ map as_three_way (plan_sync (map two_way_ref locals) remotes)
plan_sync3-first_pass_example = plan_sync3-first_pass locals remotes

plan_sync3-eq-nil_example : (plan_sync3 base locals remotes ≡ []) ↔ (
    All (IsSettled base remotes) locals
    × All (λ r. contains (item_hrefs locals) r.href ≡ true) remotes)
plan_sync3-eq-nil_example = plan_sync3-eq-nil base locals remotes

plan_sync3-KeepsLocal_example :
    All (KeepsLocal (text "a") (text "a")) (plan_sync3 base locals remotes)
unfolding text_eq
plan_sync3-KeepsLocal_example =
    plan_sync3-KeepsLocal base remotes (item (text "a") (text "1") (text "x")) (text "a")
      (based_on (text "a") (text "1") (text "h")) refl refl (ground arith) locals (inl refl)
      (
        inl refl,
        (
          inr (ground arith, ground arith),
          (
            inr (ground arith, ground arith),
            (inr (ground arith, ground arith), (inr (ground arith, ground arith), tt)),
          ),
        ),
      )

plan_sync3-KeepsRemote_example : All (KeepsRemote (text "b")) (plan_sync3 base locals remotes)
unfolding text_eq
plan_sync3-KeepsRemote_example =
    plan_sync3-KeepsRemote base remotes (listed (text "b") (text "2"))
      (based_on (text "b") (text "1") (text "h")) refl refl (ground arith) locals
      (
        inr (ground arith),
        (inl refl, (inr (ground arith), (inr (ground arith), (inr (ground arith), tt)))),
      )
