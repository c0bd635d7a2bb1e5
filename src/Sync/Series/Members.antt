-- ===== src/Sync/Series/Members.antt =====
-- crates/mgmt-sync/src/http.rs: grouping loses no event.
use mgmtui.Base.{◌≡◌, arith, ◌⊎◌, inl, inr, Text, text_eq, List, [], ◌∷◌, ◌++◌, In}
use mgmtui.Base.Sort.{In-sort_by}
use mgmtui.Domain.Event.{Event}
use mgmtui.Sync.Series.{place, place_all, master_first, sort_groups, group_series}

-- Some group holds the event.
abbrev Held : Event → List (Text × List Event) → Type 0
Held e [] = ⊥
Held e ((u, es) ∷ groups) = In e es ⊎ Held e groups

abbrev pub IsGrouped : Event → List (List Event) → Type 0
IsGrouped e [] = ⊥
IsGrouped e (g ∷ gs) = In e g ⊎ IsGrouped e gs

In-snoc : (e a : Event) (xs : List Event) → In e xs ⊎ (e ≡ a) → In e (xs ++ (a ∷ []))
In-snoc e a [] (inl h) = absurd h
In-snoc e a [] (inr h) = inl h
In-snoc e a (x ∷ xs) (inl (inl h)) = inl h
In-snoc e a (x ∷ xs) (inl (inr h)) = inr (In-snoc e a xs (inl h))
In-snoc e a (x ∷ xs) (inr h) = inr (In-snoc e a xs (inr h))

Held-place :
    (e a : Event) (groups : List (Text × List Event))
    → Held e groups ⊎ (e ≡ a)
    → Held e (place a groups)
unfolding place
Held-place e a [] (inl h) = absurd h
Held-place e a [] (inr h) = inl (inl h)
Held-place e a ((u, es) ∷ groups) h = ground (arith, In-snoc e a es, Held-place e a groups)

Held-place_all :
    (e : Event) (es : List Event) (groups : List (Text × List Event))
    → Held e groups ⊎ In e es
    → Held e (place_all es groups)
unfolding place_all
Held-place_all e [] groups (inl h) = h
Held-place_all e [] groups (inr h) = absurd h
Held-place_all e (a ∷ es) groups (inl h) =
    Held-place_all e es (place a groups) (inl (Held-place e a groups (inl h)))
Held-place_all e (a ∷ es) groups (inr (inl h)) =
    Held-place_all e es (place a groups) (inl (Held-place e a groups (inr h)))
Held-place_all e (a ∷ es) groups (inr (inr h)) = Held-place_all e es (place a groups) (inr h)

IsGrouped-sort_groups :
    (e : Event) (groups : List (Text × List Event))
    → Held e groups
    → IsGrouped e (sort_groups groups)
IsGrouped-sort_groups e [] h = h
IsGrouped-sort_groups e ((u, es) ∷ groups) (inl h) = inl (In-sort_by master_first e es h)
IsGrouped-sort_groups e ((u, es) ∷ groups) (inr h) = inr (IsGrouped-sort_groups e groups h)

-- Every loaded event is in a group.
pub group_series-IsGrouped :
    (events : List Event) (e : Event) → In e events → IsGrouped e (group_series events)
unfolding group_series
group_series-IsGrouped events e m =
    IsGrouped-sort_groups e (place_all events []) (Held-place_all e events [] (inr m))
