-- ===== src/Ical/Parser/Tree.antt =====
-- crates/mgmt-ical/src/parser.rs: a component tree that is written line by line reads back.
use mathlib.Core.List.{append-nil, append_assoc}
use mgmtui.Base.Utf8.{trim_utf8}
use mgmtui.Base.{
  ==-same, ap, map, All, List, ◌∙◌, ◌≡◌, refl, sym, Text, text, text_eq, [], ◌∷◌, ◌++◌, some, none,
}
use mgmtui.Base.Result.{ok}
use mgmtui.Base.Chars.{strip_prefix}
use mgmtui.Ical.Value.Fold.Lines.{write_all, IsLine, unfold_lines-write_all}
use mgmtui.Ical.Parser.{
  Prop, Component, component, Components, end, child, Open, State, push_child, attach,
  end_component, add_prop, parse_line, parse_lines, start, root_of, finish, parse,
}
use mgmtui.Ical.Parser.Props.{show_prop, IsWritable, parse_prop-show_prop}

concat : Components → Components → Components
concat end ds = ds
concat (child c cs) ds = child c (concat cs ds)

concat-push_child :
    (cs : Components) (d : Component) (ds : Components)
    → concat (push_child cs d) ds ≡ concat cs (child d ds)
unfolding push_child concat
concat-push_child end d ds = refl
concat-push_child (child c cs) d ds = ap (child c) (concat-push_child cs d ds)

concat-end : (cs : Components) → concat cs end ≡ cs
unfolding concat
concat-end end = refl
concat-end (child c cs) = ap (child c) (concat-end cs)

-- The lines of a component: its properties, then its children.
unfoldable mutual
  pub show_component : Component → List Text
  show_component (component name props children) =
      (text "BEGIN:" ++ name)
      ∷ (map show_prop props ++ (show_components children ++ ((text "END:" ++ name) ∷ [])))

  pub show_components : Components → List Text
  show_components end = []
  show_components (child c cs) = show_component c ++ show_components cs

-- The property reads back, and is not taken for the start or the end of a component.
abbrev pub IsPlain : Prop → Type 0
IsPlain p =
    IsWritable p
    × (strip_prefix (text "BEGIN:") (show_prop p) ≡ none)
    × (strip_prefix (text "END:") (show_prop p) ≡ none)

-- Every name is trimmed and every property plain.
unfoldable mutual
  pub IsTree : Component → Type 0
  IsTree (component name props children) =
      (trim_utf8 name ≡ name) × All IsPlain props × AreTrees children

  pub AreTrees : Components → Type 0
  AreTrees end = Unit
  AreTrees (child c cs) = IsTree c × AreTrees cs

abbrev opened : Text → List Prop → Components → List Open → Components → State
opened name props cs stack roots = record {
  stack = record { name = name; props = props; children = cs } ∷ stack;
  roots = roots;
}

parse_lines-cons :
    (line : Text) (lines : List Text) (s s' : State)
    → parse_line line s ≡ ok s'
    → parse_lines (line ∷ lines) s ≡ parse_lines lines s'
unfolding parse_lines
parse_lines-cons line lines s s' e = rw e

parse_line-begin :
    (name : Text) (stack : List Open) (roots : Components)
    → trim_utf8 name ≡ name
    → parse_line (text "BEGIN:" ++ name) (record { stack = stack; roots = roots })
      ≡ ok (opened name [] end stack roots)
unfolding parse_line strip_prefix
parse_line-begin name stack roots e = ap (λ t. ok (opened t [] end stack roots)) e

parse_line-end :
    (name : Text) (props : List Prop) (cs : Components) (stack : List Open) (roots : Components)
    → trim_utf8 name ≡ name
    → parse_line (text "END:" ++ name) (opened name props cs stack roots)
      ≡ ok (attach (component name props cs) stack roots)
unfolding parse_line strip_prefix end_component
parse_line-end name props cs stack roots e = rw (e, ==-same name)

parse_line-prop :
    (p : Prop) (name : Text) (props : List Prop) (cs : Components) (stack : List Open)
    (roots : Components)
    → IsPlain p
    → parse_line (show_prop p) (opened name props cs stack roots)
      ≡ ok (opened name (props ++ (p ∷ [])) cs stack roots)
unfolding parse_line add_prop
parse_line-prop p name props cs stack roots h =
    rw (h.1, h.2, parse_prop-show_prop p h.0, parse_line)

parse_lines-props :
    (ps : List Prop) (name : Text) (props : List Prop) (cs : Components) (stack : List Open)
    (roots : Components) (rest : List Text)
    → All IsPlain ps
    → parse_lines (map show_prop ps ++ rest) (opened name props cs stack roots)
      ≡ parse_lines rest (opened name (props ++ ps) cs stack roots)
parse_lines-props [] name props cs stack roots rest h = rw append-nil
parse_lines-props (p ∷ ps) name props cs stack roots rest h =
    parse_lines-cons _ _ _ _ (parse_line-prop p name props cs stack roots h.0)
    ∙ parse_lines-props ps name (props ++ (p ∷ [])) cs stack roots rest h.1
    ∙ ap (λ l. parse_lines rest (opened name l cs stack roots)) (append_assoc props (p ∷ []) ps)

-- What a rendered tree or list of trees does to the state, whatever the lines behind it.
mutual
  unfolding show_component show_components IsTree AreTrees concat attach

  parse_lines-component :
      (c : Component) (rest : List Text) (stack : List Open) (roots : Components)
      → IsTree c
      → parse_lines (show_component c ++ rest) (record { stack = stack; roots = roots })
        ≡ parse_lines rest (attach c stack roots)
  parse_lines-component (component name props cs) rest stack roots h =
      let last = (text "END:" ++ name) ∷ [] in
      parse_lines-cons _ _ _ _ (parse_line-begin name stack roots h.0)
      ∙ ap (λ t. parse_lines t (opened name [] end stack roots))
          (append_assoc (map show_prop props) (show_components cs ++ last) rest
            ∙ ap (λ t. map show_prop props ++ t) (append_assoc (show_components cs) last rest))
      ∙ parse_lines-props props name [] end stack roots _ h.1
      ∙ parse_lines-components cs (last ++ rest) name props end stack roots h.2
      ∙ parse_lines-cons _ _ _ _ (parse_line-end name props (concat end cs) stack roots h.0)

  parse_lines-components :
      (ds : Components) (rest : List Text) (name : Text) (props : List Prop) (cs : Components)
      (stack : List Open) (roots : Components)
      → AreTrees ds
      → parse_lines (show_components ds ++ rest) (opened name props cs stack roots)
        ≡ parse_lines rest (opened name props (concat cs ds) stack roots)
  parse_lines-components end rest name props cs stack roots h =
      ap (λ t. parse_lines rest (opened name props t stack roots)) (sym (concat-end cs))
  parse_lines-components (child d ds) rest name props cs stack roots h =
      ap (λ t. parse_lines t (opened name props cs stack roots))
        (append_assoc (show_component d) (show_components ds) rest)
      ∙ parse_lines-component d (show_components ds ++ rest) _ roots h.0
      ∙ parse_lines-components ds rest name props (push_child cs d) stack roots h.1
      ∙ ap (λ t. parse_lines rest (opened name props t stack roots)) (concat-push_child cs d ds)

parse_lines-show_component :
    (c : Component)
    → IsTree c
    → parse_lines (show_component c) start ≡ ok (record { stack = []; roots = child c end })
parse_lines-show_component c h =
    ap (λ t. parse_lines t start) (sym (append-nil (show_component c)))
    ∙ parse_lines-component c [] [] end h
    ∙ unfold parse_lines attach push_child in refl

-- A component tree with trimmed names and plain properties, whose lines may be written, is written
-- folded, and what is written parses to the component, its properties and children in order.
pub parse-write_all :
    (c : Component)
    → IsTree c
    → All IsLine (show_component c)
    → (out : Text) × (write_all (show_component c) ≡ some out) × (parse out ≡ ok c)
unfolding parse finish root_of
parse-write_all c h lines =
    let (out, e, same) = unfold_lines-write_all (show_component c) lines in
    (out, e, rw (same, parse_lines-show_component c h))
