-- ===== src/Ical/Parser.antt =====
-- crates/mgmt-ical/src/parser.rs: properties and the component tree. A text is its UTF-8 bytes.
pub mod Props
pub mod Tree
use mgmtui.Base.Utf8.{trim_utf8}
use mgmtui.Base.{
  ℕ, Text, text, text_eq, ◌==◌, Bool, true, false, not, ◌&&◌, Option, none, some, List, [], ◌∷◌,
  ◌++◌, find?, eqb, if◌then◌else◌,
}
use mgmtui.Base.Result.{Result, ok, err, ◌>>=◌, ok_or}
use mgmtui.Base.Chars.{strip_prefix, split_once, eq_ignore_ascii_case, onto_first, onto_key}
use mgmtui.Ical.Value.{unfold_lines}

pub record Prop : Type 0 where
  pub name : Text
  pub params : List (Text × Text)
  pub value : Text

-- `Error::Parse`, with what its message shows.
pub data ParseError : Type 0 where
  no_colon : Text → ParseError
  end_without_begin : Text → ParseError
  mismatched_end : Text → Text → ParseError
  unterminated no_components : ParseError

unfoldable pub param : Prop → Text → Option Text
param p key = elim (find? (λ (k, v). eq_ignore_ascii_case k key) p.params) [
  | none ↦ none
  | some (k, v) ↦ some v
]

abbrev pub quote : ℕ
quote = 34

-- `'"' => in_quote = !in_quote`
abbrev pub toggle : Bool → ℕ → Bool
toggle q c = if eqb c quote then not q else q

-- The name and parameters, and the value, split at the first unquoted colon.
unfoldable pub split_colon : Bool → Text → Option (Text × Text)
split_colon q [] = none
split_colon q (c ∷ cs) =
    let rest = split_colon (toggle q c) cs in
    if eqb c b':' && not q then some ([], cs) else onto_key c rest

unfoldable pub split_unquoted : ℕ → Bool → Text → List Text
split_unquoted sep q [] = [] ∷ []
split_unquoted sep q (c ∷ cs) =
    let rest = split_unquoted sep (toggle q c) cs in
    if not (eqb c quote) && (eqb c sep && not q) then [] ∷ rest else onto_first c rest

unfoldable pub trim_quotes_start : Text → Text
trim_quotes_start [] = []
trim_quotes_start (c ∷ cs) = let rest = trim_quotes_start cs in if eqb c quote then rest else c ∷ cs

unfoldable pub trim_quotes_end : Text → Text
trim_quotes_end [] = []
trim_quotes_end (c ∷ cs) = elim (trim_quotes_end cs) [
  | [] ↦ if eqb c quote then [] else c ∷ []
  | d ∷ ds ↦ c ∷ d ∷ ds
]

-- `v.trim_matches('"')`
unfoldable pub trim_quotes : Text → Text
trim_quotes s = trim_quotes_end (trim_quotes_start s)

-- The loop over the parameters: a part with no equals sign is dropped.
unfoldable pub parse_params : List Text → List (Text × Text)
parse_params [] = []
parse_params (p ∷ ps) = elim (split_once b'=' p) [
  | none ↦ parse_params ps
  | some (k, v) ↦ (k, trim_quotes v) ∷ parse_params ps
]

-- `split_unquoted` always gives a first part, so there is no error for an empty name.
unfoldable pub prop_of : List Text → Text → Prop
prop_of [] value = record { name = []; params = []; value = value }
prop_of (name ∷ parts) value = record { name = name; params = parse_params parts; value = value }

unfoldable pub parse_prop : Text → Result ParseError Prop
parse_prop line = elim (split_colon false line) [
  | none ↦ err (no_colon line)
  | some (head, value) ↦ ok (prop_of (split_unquoted b';' false head) value)
]

mutual
  pub data Component : Type 0 where
    component : Text → List Prop → Components → Component

  pub data Components : Type 0 where
    end : Components
    child : Component → Components → Components

unfoldable pub prop : Component → Text → Option Prop
prop (component name props children) key = find? (λ p. eq_ignore_ascii_case p.name key) props

unfoldable pub value : Component → Text → Option Text
value c key = elim (prop c key) [ none ↦ none | some p ↦ some p.value ]

abbrev pub name_of : Component → Text
name_of (component name props children) = name

unfoldable pub child_named : Components → Text → Option Component
child_named end key = none
child_named (child c cs) key =
    let rest = child_named cs key in if eq_ignore_ascii_case (name_of c) key then some c else rest

-- Depth first, the component itself before its children.
unfoldable mutual
  pub find : Text → Component → Option Component
  find key (component name props children) =
      let below = find_all key children in
      if eq_ignore_ascii_case name key then some (component name props children) else below

  pub find_all : Text → Components → Option Component
  find_all key end = none
  find_all key (child c cs) = elim (find key c) [ some d ↦ some d | none ↦ find_all key cs ]

-- A component whose END has not been read. The stack's top comes first.
pub record Open : Type 0 where
  pub name : Text
  pub props : List Prop
  pub children : Components

unfoldable pub push_child : Components → Component → Components
push_child end c = child c end
push_child (child d ds) c = child d (push_child ds c)

abbrev pub close : Open → Component
close o = component o.name o.props o.children

pub record State : Type 0 where
  pub stack : List Open
  pub roots : Components

-- The finished component goes to its parent, or to the roots.
unfoldable pub attach : Component → List Open → Components → State
attach c [] roots = record { stack = []; roots = push_child roots c }
attach c (o ∷ stack) roots = record {
  stack = record o { children = push_child o.children c } ∷ stack;
  roots = roots;
}

unfoldable pub end_component : Text → List Open → Components → Result ParseError State
end_component name [] roots = err (end_without_begin name)
end_component name (o ∷ stack) roots =
    if o.name == trim_utf8 name
    then ok (attach (close o) stack roots)
    else err (mismatched_end o.name (trim_utf8 name))

-- A property outside every component is ignored.
unfoldable pub add_prop : Prop → State → State
add_prop p s = elim s.stack [
  | [] ↦ s
  | o ∷ stack ↦ record s { stack = record o { props = o.props ++ (p ∷ []) } ∷ stack }
]

-- One round of the loop over the lines.
unfoldable pub parse_line : Text → State → Result ParseError State
parse_line line s = elim (strip_prefix (text "BEGIN:") line) [
  | some name ↦
      ok (record s {
        stack = record { name = trim_utf8 name; props = []; children = end } ∷ s.stack;
      })
  | none ↦ elim (strip_prefix (text "END:") line) [
    | some name ↦ end_component name s.stack s.roots
    | none ↦ do p ← parse_prop line; ok (add_prop p s)
  ]
]

unfoldable pub parse_lines : List Text → State → Result ParseError State
parse_lines [] s = ok s
parse_lines (line ∷ lines) s = do s' ← parse_line line s; parse_lines lines s'

abbrev pub start : State
start = record { stack = []; roots = end }

unfoldable pub root_of : Components → Result ParseError Component
root_of end = err no_components
root_of (child c end) = ok c
root_of (child c (child d ds)) = ok (component (text "ROOT") [] (child c (child d ds)))

unfoldable pub finish : State → Result ParseError Component
finish s = elim s.stack [ [] ↦ root_of s.roots | o ∷ stack ↦ err unterminated ]

unfoldable pub parse : Text → Result ParseError Component
parse input = do s ← parse_lines (unfold_lines input) start; finish s
