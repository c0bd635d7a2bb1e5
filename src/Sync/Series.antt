-- ===== src/Sync/Series.antt =====
-- crates/mgmt-sync/src/http.rs: loaded components grouped into series by their uid. The map from a uid
-- to the position of its group is the key that stands beside the group.
pub mod Groups
pub mod Members
use mgmtui.Base.{
  Text, text_eq, ◌==◌, Bool, true, false, Option, none, some, List, [], ◌∷◌, ◌++◌, leb,
  if◌then◌else◌,
}
use mgmtui.Base.Sort.{sort_by}
use mgmtui.Domain.Event.{Event}

-- One round of the loop.
unfoldable pub place : Event → List (Text × List Event) → List (Text × List Event)
place e [] = (e.uid, e ∷ []) ∷ []
place e ((u, es) ∷ groups) =
    let rest = place e groups in if u == e.uid then (u, es ++ (e ∷ [])) ∷ groups else (u, es) ∷ rest

unfoldable pub place_all : List Event → List (Text × List Event) → List (Text × List Event)
place_all [] groups = groups
place_all (e ∷ es) groups = place_all es (place e groups)

-- By `recurrence_id`, which the master does not have.
unfoldable pub master_first : Event → Event → Bool
master_first a b = elim a.recurrence_id [
  | none ↦ true
  | some s ↦ elim b.recurrence_id [ none ↦ false | some t ↦ leb s t ]
]

abbrev pub sort_groups : List (Text × List Event) → List (List Event)
sort_groups [] = []
sort_groups ((u, es) ∷ groups) = sort_by master_first es ∷ sort_groups groups

unfoldable pub group_series : List Event → List (List Event)
group_series events = sort_groups (place_all events [])
