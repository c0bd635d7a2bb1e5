-- ===== src/Sync/Series/Groups.antt =====
-- crates/mgmt-sync/src/http.rs: what the groups are.
use mgmtui.Base.{
  ◌≡◌, refl, arith, inl, inr, Text, text_eq, ◌==◌, false, List, [], ◌∷◌, All, All-append,
  Bool-cases, contains,
}
use mgmtui.Base.Sort.{sort_by-All, IsSorted, sort_by-IsSorted}
use mgmtui.Domain.Event.{Event}
use mgmtui.Sync.Series.{place, place_all, master_first, sort_groups, group_series}

-- Every event of the group has its uid.
abbrev OfOneUid : Text × List Event → Type 0
OfOneUid (u, es) = All (λ e. e.uid ≡ u) es

place-OfOneUid :
    (e : Event) (groups : List (Text × List Event))
    → All OfOneUid groups
    → All OfOneUid (place e groups)
unfolding place
place-OfOneUid e [] h = ((refl, tt), tt)
place-OfOneUid e ((u, es) ∷ groups) h = elim (Bool-cases (u == e.uid)) [
  | inl s ↦ rw s (All-append (λ x. x.uid ≡ u) es (e ∷ []) h.0 (ground arith, tt), h.1)
  | inr d ↦ rw d (h.0, place-OfOneUid e groups h.1)
]

place_all-OfOneUid :
    (es : List Event) (groups : List (Text × List Event))
    → All OfOneUid groups
    → All OfOneUid (place_all es groups)
unfolding place_all
place_all-OfOneUid [] groups h = h
place_all-OfOneUid (e ∷ es) groups h =
    place_all-OfOneUid es (place e groups) (place-OfOneUid e groups h)

abbrev keys : List (Text × List Event) → List Text
keys [] = []
keys ((u, es) ∷ groups) = u ∷ keys groups

abbrev KeysDiffer : List (Text × List Event) → Type 0
KeysDiffer [] = Unit
KeysDiffer ((u, es) ∷ groups) = (contains (keys groups) u ≡ false) × KeysDiffer groups

contains-keys-place :
    (u : Text) (e : Event) (groups : List (Text × List Event))
    → contains (keys groups) u ≡ false
    → (u == e.uid) ≡ false
    → contains (keys (place e groups)) u ≡ false
unfolding place
contains-keys-place u e [] h d = ground arith
contains-keys-place u e ((k, es) ∷ groups) h d = ground (arith, contains-keys-place u e groups)

place-KeysDiffer :
    (e : Event) (groups : List (Text × List Event))
    → KeysDiffer groups
    → KeysDiffer (place e groups)
unfolding place
place-KeysDiffer e [] h = (refl, tt)
place-KeysDiffer e ((u, es) ∷ groups) h = elim (Bool-cases (u == e.uid)) [
  | inl s ↦ rw s h
  | inr d ↦ rw d (contains-keys-place u e groups h.0 d, place-KeysDiffer e groups h.1)
]

place_all-KeysDiffer :
    (es : List Event) (groups : List (Text × List Event))
    → KeysDiffer groups
    → KeysDiffer (place_all es groups)
unfolding place_all
place_all-KeysDiffer [] groups h = h
place_all-KeysDiffer (e ∷ es) groups h =
    place_all-KeysDiffer es (place e groups) (place-KeysDiffer e groups h)

-- The groups are sorted series of one uid each, and no two of them have the same uid.
abbrev pub AreSeries : List Text → List (List Event) → Type 0
AreSeries [] [] = Unit
AreSeries [] (g ∷ gs) = ⊥
AreSeries (u ∷ us) [] = ⊥
AreSeries (u ∷ us) (g ∷ gs) =
    All (λ e. e.uid ≡ u) g × IsSorted master_first g × (contains us u ≡ false) × AreSeries us gs

sort_groups-AreSeries :
    (groups : List (Text × List Event))
    → All OfOneUid groups
    → KeysDiffer groups
    → AreSeries (keys groups) (sort_groups groups)
unfolding master_first
sort_groups-AreSeries [] h d = tt
sort_groups-AreSeries ((u, es) ∷ groups) h d = (
  sort_by-All master_first (λ e. e.uid ≡ u) es h.0,
  sort_by-IsSorted master_first (λ a b. ground arith) (λ a b c p q. ground arith) es,
  d.0,
  sort_groups-AreSeries groups h.1 d.1,
)

-- There is a list of distinct uids, one for each group: every group holds events of its uid alone, the
-- master before the overrides and those in the order of the slots that they replace.
pub group_series-AreSeries :
    (events : List Event) → (us : List Text) × AreSeries us (group_series events)
unfolding group_series
group_series-AreSeries events =
    let groups = place_all events [] in
    (
      keys groups,
      sort_groups-AreSeries groups (place_all-OfOneUid events [] tt)
          (place_all-KeysDiffer events [] tt),
    )
