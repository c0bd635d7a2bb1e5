-- ===== src/Domain/Workflow/Laws.antt =====
-- crates/mgmt-domain/src/workflow.rs: construction, the classes of a status, and the moves between
-- columns.
use mgmtui.Base.{
  ◌⊎◌, ap, ◌∙◌, Option-cases, ℕ, zero, suc, ◌-◌, ◌≤◌, ◌<◌, Text, text_eq, ◌==◌, contains, ◌≡◌, ◌≢◌,
  ◌↔◌, refl, arith, true, false, some, List, [], ◌∷◌, map, length, get_elem?, All, Bool-cases, inl,
  inr,
}
use mgmtui.Base.Int.{ℤ, pos, negsuc, ◌+ℤ◌}
use mgmtui.Domain.Workflow.{
  id_at, position, StatusDef, Workflow, builtin, workflow, is_done, is_cancelled, is_open, index_of,
  clamp_index, neighbor, open_ids_of, open_ids, ids, fill_label,
}

-- Every label is filled, unless its id is blank too.
abbrev pub IsLabelled : Workflow → Type 0
IsLabelled = All (λ d. (d.label ≢ []) ⊎ (d.id ≡ []))

list_cases : (t : Text) → (t ≢ []) ⊎ (t ≡ [])
list_cases [] = inr refl
list_cases (c ∷ cs) = inl cc

fill_label-IsLabelled : (defs : List StatusDef) → IsLabelled (map fill_label defs)
unfolding fill_label
fill_label-IsLabelled [] = tt
fill_label-IsLabelled (d ∷ defs) = (ground (arith, list_cases d.id), fill_label-IsLabelled defs)

ids-fill_label : (defs : List StatusDef) → ids (map fill_label defs) ≡ ids defs
unfolding fill_label
ids-fill_label [] = refl
ids-fill_label (d ∷ defs) = ground (arith, ids-fill_label defs)

-- Construction never gives an empty board, fills every blank label by the id, and keeps the ids and
-- their order.
pub workflow_lem :
    (defs : List StatusDef)
    → (workflow defs ≢ [])
      × IsLabelled (workflow defs)
      × (ids (workflow defs) ≡ elim defs [ [] ↦ ids builtin | d ∷ ds ↦ ids (d ∷ ds) ])
unfolding workflow
workflow_lem [] = (cc, (inl cc, (inl cc, (inl cc, (inl cc, tt)))), refl)
workflow_lem (d ∷ defs) = (cc, fill_label-IsLabelled (d ∷ defs), ids-fill_label (d ∷ defs))

-- An id is open exactly when it is neither done nor cancelled, whether the workflow knows it or not.
pub status_classes :
    (w : Workflow) (id : Text)
    → (is_open w id ≡ true) ↔ ((is_done w id ≡ false) × (is_cancelled w id ≡ false))
unfolding is_open is_done is_cancelled
status_classes w id = ground arith

open_ids_of-contains :
    (w : Workflow) (defs : List StatusDef) (id : Text)
    → (contains (open_ids_of w defs) id ≡ true)
      ↔ ((contains (ids defs) id ≡ true) × (is_open w id ≡ true))
unfolding open_ids_of
open_ids_of-contains w [] id = ground arith
open_ids_of-contains w (d ∷ defs) id = ground (arith, open_ids_of-contains w defs id)

-- The open ids are the ids of columns that are neither done nor cancelled.
pub open_ids-contains :
    (w : Workflow) (id : Text)
    → (contains (open_ids w) id ≡ true)
      ↔ ((contains (ids w) id ≡ true) × (is_done w id ≡ false) × (is_cancelled w id ≡ false))
unfolding open_ids
open_ids-contains w id = ground (arith, open_ids_of-contains w w id, status_classes w id)

index_of-get_elem? :
    (w : Workflow) (id : Text) (i : ℕ)
    → index_of w id ≡ some i
    → (d : StatusDef) × (get_elem? w i ≡ some d) × (d.id ≡ id)
unfolding index_of
index_of-get_elem? [] id i e = cc
index_of-get_elem? (d ∷ w) id i e = elim (Bool-cases (d.id == id)) [
  | inl here ↦ (d, ground arith, ground arith)
  | inr later ↦ elim (Option-cases (index_of w id)) [
    | inl absent ↦ ground arith
    | inr (j, found) ↦
        let (c, at, same) = index_of-get_elem? w id j found in (c, ground arith, same)
  ]
]

get_elem?-some :
    {A : Type 0} (xs : List A) (i : ℕ) → i < length xs → (a : A) × (get_elem? xs i ≡ some a)
get_elem?-some [] i h = elim h [ ]
get_elem?-some (x ∷ xs) zero h = (x, refl)
get_elem?-some (x ∷ xs) (suc i) h = get_elem?-some xs i (omega arith)

get_elem?-contains :
    (w : Workflow) (i : ℕ) (d : StatusDef) → get_elem? w i ≡ some d → contains (ids w) d.id ≡ true
get_elem?-contains [] i d e = cc
get_elem?-contains (c ∷ w) zero d e = ground arith
get_elem?-contains (c ∷ w) (suc i) d e = ground (arith, get_elem?-contains w i d e)

clamp_index-le : (i : ℤ) (last : ℕ) → clamp_index i last ≤ last
unfolding clamp_index
clamp_index-le i last = ground arith

id_at-some : (w : Workflow) (i : ℕ) (d : StatusDef) → get_elem? w i ≡ some d → id_at w i ≡ some d.id
id_at-some w i d e = rw (e, id_at)

-- In a workflow that is not empty a move from any id, by any distance, ends in one of its columns.
pub neighbor-some :
    (w : Workflow) (id : Text) (dir : ℤ)
    → w ≢ []
    → (t : Text) × (neighbor w id dir ≡ some t) × (contains (ids w) t ≡ true)
unfolding neighbor
neighbor-some [] id dir h = absurd (h refl)
neighbor-some (d ∷ w) id dir h =
    let i = clamp_index (pos (position (d ∷ w) id) +ℤ dir) (length w) in
    let (e, at) = get_elem?-some (d ∷ w) i (omega (arith, clamp_index-le _ (length w))) in
    (e.id, id_at-some (d ∷ w) i e at, get_elem?-contains (d ∷ w) i e at)

-- No two columns have one id.
abbrev pub IsDistinct : Workflow → Type 0
IsDistinct [] = Unit
IsDistinct (d ∷ w) = (contains (ids w) d.id ≡ false) × IsDistinct w

get_elem?-index_of :
    (w : Workflow) (i : ℕ) (d : StatusDef)
    → IsDistinct w
    → get_elem? w i ≡ some d
    → index_of w d.id ≡ some i
unfolding index_of
get_elem?-index_of [] i d n e = cc
get_elem?-index_of (c ∷ w) zero d n e = ground arith
get_elem?-index_of (c ∷ w) (suc i) d n e =
    ground (arith, get_elem?-index_of w i d n.1, get_elem?-contains w i d)

neighbor-at :
    (w : Workflow) (id : Text) (i : ℕ) (dir : ℤ) (d : StatusDef)
    → index_of w id ≡ some i
    → get_elem? w (clamp_index (pos i +ℤ dir) (length w - 1)) ≡ some d
    → neighbor w id dir ≡ some d.id
unfolding neighbor
neighbor-at [] id i dir d e at = cc
neighbor-at (c ∷ w) id i dir d e found =
    let last : suc (length w) - 1 ≡ length w = omega arith in
    id_at-some (c ∷ w) _ d (rw (e, position) (rw last at found))

clamp_right : (i last : ℕ) → suc i ≤ last → clamp_index (pos i +ℤ pos 1) last ≡ suc i
unfolding clamp_index ◌+ℤ◌
clamp_right i last h = ground arith

clamp_left : (i last : ℕ) → i ≤ last → clamp_index (pos (suc i) +ℤ negsuc 0) last ≡ i
unfolding clamp_index ◌+ℤ◌
clamp_left i last h = ground arith

-- In a workflow with distinct ids a card that is not in the last column, moved right and then left, is
-- back in its column.
pub neighbor-neighbor :
    (w : Workflow) (id : Text) (i : ℕ)
    → IsDistinct w
    → index_of w id ≡ some i
    → suc i < length w
    → (t : Text) × (neighbor w id (pos 1) ≡ some t) × (neighbor w t (negsuc 0) ≡ some id)
neighbor-neighbor w id i n e h =
    let (c, here, same) = index_of-get_elem? w id i e in
    let (d, at) = get_elem?-some w (suc i) h in
    let last : ℕ = length w - 1 in
    (
      d.id,
      neighbor-at w id i (pos 1) d e (rw (clamp_right i last (omega arith)) at),
      neighbor-at w d.id (suc i) (negsuc 0) c (get_elem?-index_of w (suc i) d n at)
            (rw (clamp_left i last (omega arith)) here)
          ∙ ap some same,
    )
