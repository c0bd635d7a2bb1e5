-- ===== src/Sync/Snapshot/Prepare.antt =====
-- crates/mgmt-sync/src/http.rs: what the base holds after an update and after the pre-pass.
use mgmtui.Base.{
  inr, inl, Option-cases, false, true, Text, text_eq, option_eq, ◌==◌, contains, ◌≡◌, refl, arith,
  Option, none, some, List, [], ◌∷◌, ◌++◌, any, if◌then◌else◌,
}
use mgmtui.Sync.Reconcile.{BaseRef, LocalItem, RemoteRef, base_by_href, remote_by_href}
use mgmtui.Sync.Snapshot.{upsert, replace_first, remove, prune, seed_item, seed, live, prepare_base}

base_by_href-append :
    (bs cs : List BaseRef) (h : Text)
    → base_by_href (bs ++ cs) h
      ≡ elim (base_by_href bs h) [ none ↦ base_by_href cs h | some b ↦ some b ]
base_by_href-append [] cs h = refl
base_by_href-append (b ∷ bs) cs h = ground (arith, base_by_href-append bs cs h)

base_by_href-replace_first :
    (r : BaseRef) (refs : List BaseRef) (h : Text)
    → any (λ b. b.href == r.href) refs ≡ true
    → base_by_href (replace_first r refs) h ≡ (if r.href == h then some r else base_by_href refs h)
unfolding replace_first
base_by_href-replace_first r [] h e = cc
base_by_href-replace_first r (b ∷ bs) h e = ground (arith, base_by_href-replace_first r bs h)

base_by_href-eq-none :
    (refs : List BaseRef) (h : Text)
    → any (λ b. b.href == h) refs ≡ false
    → base_by_href refs h ≡ none
base_by_href-eq-none [] h e = refl
base_by_href-eq-none (b ∷ bs) h e = ground (arith, base_by_href-eq-none bs h)

-- After an upsert the href of the entry finds that entry, and every other href what it found before.
pub base_by_href-upsert :
    (r : BaseRef) (refs : List BaseRef) (h : Text)
    → base_by_href (upsert r refs) h ≡ (if r.href == h then some r else base_by_href refs h)
unfolding upsert
base_by_href-upsert r refs h = ground (
  arith,
  base_by_href-replace_first r refs h,
  base_by_href-append refs (r ∷ []) h,
  base_by_href-eq-none refs h,
)

-- After a removal the href finds nothing, and every other href what it found before.
pub base_by_href-remove :
    (g : Text) (refs : List BaseRef) (h : Text)
    → base_by_href (remove g refs) h ≡ (if g == h then none else base_by_href refs h)
unfolding remove
base_by_href-remove g [] h = ground arith
base_by_href-remove g (b ∷ bs) h = ground (arith, base_by_href-remove g bs h)

base_by_href-prune :
    (hrefs : List Text) (refs : List BaseRef) (h : Text)
    → base_by_href (prune hrefs refs) h ≡ (if contains hrefs h then base_by_href refs h else none)
unfolding prune
base_by_href-prune hrefs [] h = ground arith
base_by_href-prune hrefs (b ∷ bs) h = ground (arith, base_by_href-prune hrefs bs h)

-- The entry that the first in-sync item bound to the href gives.
abbrev pub seed_entry : List RemoteRef → List LocalItem → Text → Option BaseRef
seed_entry remotes [] h = none
seed_entry remotes (l ∷ ls) h =
    let later = seed_entry remotes ls h in
    if l.href == some h
    then elim (remote_by_href remotes h) [
      | none ↦ later
      | some r ↦
          if l.etag == r.etag
          then some (record { uid = l.uid; href = h; remote_etag = r.etag; local_hash = l.hash })
          else later
    ]
    else later

abbrev pub or_entry : Option BaseRef → Option BaseRef → Option BaseRef
or_entry none o = o
or_entry (some b) o = some b

any-eq :
    (refs : List BaseRef) (h : Text)
    → any (λ b. b.href == h) refs ≡ elim (base_by_href refs h) [ none ↦ false | some b ↦ true ]
any-eq [] h = refl
any-eq (b ∷ bs) h = ground (arith, any-eq bs h)

module _ (remotes : List RemoteRef) where
  seed_item-bound :
      (l : LocalItem) (g : Text) (refs : List BaseRef) (h : Text)
      → l.href ≡ some g
      → base_by_href (seed_item remotes l refs) h
        ≡ or_entry (base_by_href refs h) (seed_entry remotes (l ∷ []) h)
  unfolding seed_item
  seed_item-bound l g refs h e =
      (elim (remote_by_href remotes g)
          as (λ o.
            remote_by_href remotes g ≡ o
            → base_by_href (seed_item remotes l refs) h
              ≡ or_entry (base_by_href refs h) (seed_entry remotes (l ∷ []) h)) [
                | none ↦ λ q. ground (arith, any-eq refs g)
                | some r ↦ λ q. ground (
                  arith,
                  any-eq refs g,
                  base_by_href-upsert
                      (record { uid = l.uid; href = g; remote_etag = r.etag; local_hash = l.hash })
                      refs h,
                )
              ])
        refl

  base_by_href-seed_item :
      (l : LocalItem) (refs : List BaseRef) (h : Text)
      → base_by_href (seed_item remotes l refs) h
        ≡ or_entry (base_by_href refs h) (seed_entry remotes (l ∷ []) h)
  base_by_href-seed_item l refs h = elim (Option-cases l.href) [
    | inl unbound ↦ unfold seed_item in ground arith
    | inr (g, bound) ↦ seed_item-bound l g refs h bound
  ]

  base_by_href-seed :
      (ls : List LocalItem) (refs : List BaseRef) (h : Text)
      → base_by_href (seed remotes ls refs) h
        ≡ or_entry (base_by_href refs h) (seed_entry remotes ls h)
  unfolding seed
  base_by_href-seed [] refs h = ground arith
  base_by_href-seed (l ∷ ls) refs h =
      rw (base_by_href-seed ls (seed_item remotes l refs) h, base_by_href-seed_item l refs h)
        (ground arith)

  -- What the prepared base holds for an href: nothing of the old base if neither side has the href
  -- any more, the old entry if there is one, and else an entry for the first local item that is
  -- bound to the href and carries the etag that the remote lists.
  pub base_by_href-prepare_base :
      (locals : List LocalItem) (refs : List BaseRef) (h : Text)
      → base_by_href (prepare_base locals remotes refs) h
        ≡ or_entry
            (if contains (live locals remotes) h then base_by_href refs h else none)
            (seed_entry remotes locals h)
  unfolding prepare_base
  base_by_href-prepare_base locals refs h =
      rw (base_by_href-seed locals (prune (live locals remotes) refs) h) (rw base_by_href-prune)
