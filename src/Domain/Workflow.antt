-- ===== src/Domain/Workflow.antt =====
-- crates/mgmt-domain/src/workflow.rs: the ordered statuses of a task, which are the board's columns.
pub mod Laws
use mgmtui.Base.{
  ℕ, zero, suc, ◌+◌, ◌-◌, Text, text, text_eq, ◌==◌, Bool, true, false, Option, none, some, List,
  [], ◌∷◌, map, length, get_elem?, find?, if◌then◌else◌,
}
use mgmtui.Base.Int.{ℤ, pos, negsuc, pos_part, ◌+ℤ◌, ltb_ℤ}

pub data StatusKind : Type 0 where
  open_work active done cancelled : StatusKind

pub record StatusDef : Type 0 where
  pub id : Text
  pub label : Text
  pub color : Option Text
  pub kind : StatusKind

-- `StatusDef::new`
abbrev pub status_def : Text → Text → StatusKind → StatusDef
status_def id label kind = record { id = id; label = label; color = none; kind = kind }

-- A workflow is its definitions.
abbrev pub Workflow : Type 0
Workflow = List StatusDef

abbrev pub builtin : Workflow
builtin =
    status_def (text "todo") (text "Todo") open_work
    ∷ status_def (text "doing") (text "Doing") active
    ∷ status_def (text "done") (text "Done") done
    ∷ status_def (text "cancelled") (text "Cancelled") cancelled
    ∷ []

pub fill_label : StatusDef → StatusDef
fill_label d = elim d.label [ [] ↦ record d { label = d.id } | c ∷ cs ↦ d ]

unfoldable pub workflow : List StatusDef → Workflow
unfolding fill_label
workflow [] = builtin
workflow (d ∷ defs) = map fill_label (d ∷ defs)

unfoldable pub get : Workflow → Text → Option StatusDef
get w id = find? (λ d. d.id == id) w

-- An unknown id is open work.
unfoldable pub kind : Workflow → Text → StatusKind
unfolding get
kind w id = elim (get w id) [ none ↦ open_work | some d ↦ d.kind ]

unfoldable pub is_done : Workflow → Text → Bool
unfolding kind
is_done w id = elim (kind w id) [ done ↦ true | _ ↦ false ]

unfoldable pub is_cancelled : Workflow → Text → Bool
unfolding kind
is_cancelled w id = elim (kind w id) [ cancelled ↦ true | _ ↦ false ]

unfoldable pub is_open : Workflow → Text → Bool
unfolding kind
is_open w id = elim (kind w id) [ open_work ↦ true | active ↦ true | _ ↦ false ]

unfoldable pub label : Workflow → Text → Text
unfolding get
label w id = elim (get w id) [ none ↦ id | some d ↦ d.label ]

unfoldable pub color : Workflow → Text → Option Text
unfolding get
color w id = elim (get w id) [ none ↦ none | some d ↦ d.color ]

unfoldable pub default_id : Workflow → Text
default_id [] = text "todo"
default_id (d ∷ w) = d.id

abbrev pub has_kind_done : StatusDef → Bool
has_kind_done d = elim d.kind [ done ↦ true | _ ↦ false ]

unfoldable pub first_done : Workflow → Option Text
first_done w = elim (find? has_kind_done w) [ none ↦ none | some d ↦ some d.id ]

unfoldable pub index_of : Workflow → Text → Option ℕ
index_of [] id = none
index_of (d ∷ w) id =
    let rest : Option ℕ = elim (index_of w id) [ none ↦ none | some i ↦ some (suc i) ] in
    if d.id == id then some zero else rest

-- `(cur + dir).clamp(0, len - 1) as usize`, for a workflow that is not empty.
unfoldable pub clamp_index : ℤ → ℕ → ℕ
clamp_index i last = if ltb_ℤ i (pos 0) then 0 else if ltb_ℤ (pos last) i then last else pos_part i

-- `index_of(id).unwrap_or(0)`
abbrev pub position : Workflow → Text → ℕ
position w id = elim (index_of w id) [ none ↦ 0 | some i ↦ i ]

abbrev pub id_at : Workflow → ℕ → Option Text
id_at w i = elim (get_elem? w i) [ none ↦ none | some d ↦ some d.id ]

-- The index is in bounds (`neighbor-some`), so the read of `defs[idx]` never panics.
unfoldable pub neighbor : Workflow → Text → ℤ → Option Text
neighbor [] id dir = none
neighbor (d ∷ w) id dir = id_at (d ∷ w) (clamp_index (pos (position (d ∷ w) id) +ℤ dir) (length w))

-- The ids of the definitions of `defs` that are open in the workflow.
pub open_ids_of : Workflow → List StatusDef → List Text
open_ids_of w [] = []
open_ids_of w (d ∷ defs) =
    let rest = open_ids_of w defs in if is_open w d.id then d.id ∷ rest else rest

unfoldable pub open_ids : Workflow → List Text
unfolding open_ids_of is_open
open_ids w = open_ids_of w w

abbrev pub ids : Workflow → List Text
ids w = map (λ d. d.id) w
