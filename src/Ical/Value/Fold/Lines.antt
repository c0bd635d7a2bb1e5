-- ===== src/Ical/Value/Fold/Lines.antt =====
-- crates/mgmt-ical/src/value.rs and parser.rs: lines that are written folded are read back.
use mathlib.Core.List.{append_assoc, append-nil}
use mgmtui.Base.{
  ℕ, zero, suc, ◌<◌, ◌≡◌, ◌≢◌, refl, sym, ap, ◌∙◌, arith, Text, Bool, true, false, Option, none,
  some, List, [], ◌∷◌, ◌++◌, length, take, drop, leb, eqb, if◌then◌else◌, All, All-append, All-take,
  All-drop, take-append-drop, Bool-cases, inl, inr,
}
use mgmtui.Base.Chars.{Lacks, split}
use mgmtui.Ical.Value.{
  block, taken, lf, cr, tab, fold_rest, write_folded, strip_cr, push_last, unfold_line, unfold_raw,
  unfold_lines,
}
use mgmtui.Ical.Value.Fold.{
  HasBoundaries, taken_pos, write_folded-some, strip_cr-snoc, split-physical, write_folded-short,
  write_folded-long, fold_rest-eq-some,
}

push_last-snoc :
    (ls : List Text) (l cont : Text) → push_last (ls ++ (l ∷ [])) cont ≡ ls ++ ((l ++ cont) ∷ [])
unfolding push_last
push_last-snoc [] l cont = refl
push_last-snoc (k ∷ []) l cont = refl
push_last-snoc (k ∷ j ∷ ls) l cont = ap (λ t. k ∷ t) (push_last-snoc (j ∷ ls) l cont)

unfold_line-continued :
    (ls : List Text) (l cs : Text)
    → unfold_line (ls ++ (l ∷ [])) (b' ' ∷ cs) ≡ ls ++ ((l ++ cs) ∷ [])
unfolding unfold_line
unfold_line-continued [] l cs = refl
unfold_line-continued (k ∷ ls) l cs = push_last-snoc (k ∷ ls) l cs

-- The line starts with neither a space nor a tab, and is not empty.
abbrev pub IsContent : Text → Type 0
IsContent [] = ⊥
IsContent (c ∷ cs) = (c ≢ b' ') × (c ≢ tab)

unfold_line-new :
    (ls : List Text) (line : Text) → IsContent line → unfold_line ls line ≡ ls ++ (line ∷ [])
unfolding unfold_line
unfold_line-new ls [] h = absurd h
unfold_line-new [] (c ∷ cs) h = refl
unfold_line-new (l ∷ ls) (c ∷ cs) h = ground arith

fold_rest-nil : (fuel : ℕ) (out : Text) → fold_rest fuel false [] ≡ some out → out ≡ []
unfolding fold_rest
fold_rest-nil fuel out e = cc

unfold_raw-cons :
    (ls : List Text) (raw : Text) (raws : List Text)
    → unfold_raw ls (raw ∷ raws) ≡ unfold_raw (unfold_line ls (strip_cr raw)) raws
unfolding unfold_raw
unfold_raw-cons ls raw raws = refl

-- One physical line is read.
unfold_raw-physical :
    (ls : List Text) (line rest : Text)
    → Lacks lf line
    → unfold_raw ls (split lf (line ++ (cr ∷ lf ∷ rest)))
      ≡ unfold_raw (unfold_line ls line) (split lf rest)
unfold_raw-physical ls line rest h =
    ap (unfold_raw ls) (split-physical line rest h)
    ∙ unfold_raw-cons ls (line ++ (cr ∷ [])) (split lf rest)
    ∙ ap (λ t. unfold_raw (unfold_line ls t) (split lf rest)) (strip_cr-snoc line)

block-append :
    (first : Bool) (end : ℕ) (rest more tail : Text)
    → block first end rest more ++ tail
      ≡ ((if first then [] else b' ' ∷ []) ++ take end rest) ++ (cr ∷ lf ∷ (more ++ tail))
block-append true end rest more tail = append_assoc (take end rest) (cr ∷ lf ∷ more) tail
block-append false end rest more tail =
    ap (λ t. b' ' ∷ t) (append_assoc (take end rest) (cr ∷ lf ∷ more) tail)

regroup_line : (end : ℕ) (l rest : Text) → (l ++ take end rest) ++ drop end rest ≡ l ++ rest
regroup_line end l rest =
    append_assoc l (take end rest) (drop end rest) ∙ ap (λ t. l ++ t) (take-append-drop end rest)

module _ (tail : Text) where
  -- Reading a block: its physical line, and then the rest.
  unfold_raw-block :
      (first : Bool) (end : ℕ) (rest more out : Text) (ls : List Text)
      → Lacks lf rest
      → out ≡ block first end rest more
      → unfold_raw ls (split lf (out ++ tail))
        ≡ unfold_raw
            (unfold_line ls ((if first then [] else b' ' ∷ []) ++ take end rest))
            (split lf (more ++ tail))
  unfold_raw-block first end rest more out ls h same =
      ap (λ t. unfold_raw ls (split lf t))
        (ap (λ t. t ++ tail) same ∙ block-append first end rest more tail)
      ∙ unfold_raw-physical ls _ (more ++ tail) (
          All-append (λ x. eqb x lf ≡ false) (if first then [] else b' ' ∷ []) (take end rest)
            (lead first) (All-take _ end rest h))
    where
      lead : (first : Bool) → Lacks lf (if first then [] else b' ' ∷ [])
      lead true = tt
      lead false = (refl, tt)

  -- The lines read from what the later rounds push are appended to the last line.
  unfold_raw-fold_rest :
      (fuel : ℕ) (rest out : Text) (ls : List Text) (l : Text)
      → Lacks lf rest
      → fold_rest fuel false rest ≡ some out
      → unfold_raw (ls ++ (l ∷ [])) (split lf (out ++ tail))
        ≡ unfold_raw (ls ++ ((l ++ rest) ∷ [])) (split lf tail)
  unfold_raw-fold_rest fuel [] out ls l h e = rw (fold_rest-nil fuel out e, append-nil)
  unfold_raw-fold_rest zero (b ∷ bs) out ls l h e = unfold fold_rest in cc
  unfold_raw-fold_rest (suc fuel) (b ∷ bs) out ls l h e =
      let end = taken false (b ∷ bs) in
      let part = take end (b ∷ bs) in
      let (more, q, same) = fold_rest-eq-some fuel false b bs out e in
      unfold_raw-block false end (b ∷ bs) more out (ls ++ (l ∷ [])) h same
      ∙ ap (λ k. unfold_raw k (split lf (more ++ tail))) (unfold_line-continued ls l part)
      ∙ unfold_raw-fold_rest fuel (drop end (b ∷ bs)) more ls (l ++ part)
          (All-drop _ end (b ∷ bs) h) q
      ∙ ap (λ t. unfold_raw (ls ++ (t ∷ [])) (split lf tail)) (regroup_line end l (b ∷ bs))

  -- The first part of a content line is one too, if it is not empty.
  IsContent-take : (end : ℕ) (line : Text) → 0 < end → IsContent line → IsContent (take end line)
  IsContent-take zero line h c = absurd (omega arith)
  IsContent-take (suc e) [] h c = c
  IsContent-take (suc e) (b ∷ bs) h c = c

  unfold_raw-write_folded :
      (line out : Text) (ls : List Text)
      → HasBoundaries line
      → IsContent line
      → Lacks lf line
      → write_folded line ≡ some out
      → unfold_raw ls (split lf (out ++ tail)) ≡ unfold_raw (ls ++ (line ∷ [])) (split lf tail)
  unfold_raw-write_folded [] out ls u c h e = absurd c
  unfold_raw-write_folded (b ∷ bs) out ls u c h e = elim (Bool-cases (leb (length (b ∷ bs)) 75)) [
    | inl short ↦
        let same : out ≡ (b ∷ bs) ++ (cr ∷ lf ∷ []) = cc (write_folded-short (b ∷ bs) short) in
        ap (λ t. unfold_raw ls (split lf t))
          (ap (λ t. t ++ tail) same ∙ append_assoc (b ∷ bs) (cr ∷ lf ∷ []) tail)
        ∙ unfold_raw-physical ls (b ∷ bs) tail h
        ∙ ap (λ k. unfold_raw k (split lf tail)) (unfold_line-new ls (b ∷ bs) c)
    | inr long ↦
        let end = taken true (b ∷ bs) in
        let part = take end (b ∷ bs) in
        let (more, q, same) =
          fold_rest-eq-some (length bs) true b bs out (sym (write_folded-long (b ∷ bs) long) ∙ e) in
        unfold_raw-block true end (b ∷ bs) more out ls h same
        ∙ ap (λ k. unfold_raw k (split lf (more ++ tail)))
            (unfold_line-new ls part (IsContent-take end (b ∷ bs) (taken_pos true b bs u) c))
        ∙ unfold_raw-fold_rest (length bs) (drop end (b ∷ bs)) more ls part
            (All-drop _ end (b ∷ bs) h) q
        ∙ ap (λ t. unfold_raw (ls ++ (t ∷ [])) (split lf tail)) (take-append-drop end (b ∷ bs))
  ]

-- Writing one content line after another.
abbrev pub write_all : List Text → Option Text
write_all [] = some []
write_all (l ∷ ls) = elim (write_folded l) [
  | none ↦ none
  | some out ↦ elim (write_all ls) [ none ↦ none | some more ↦ some (out ++ more) ]
]

-- A line that may be written: UTF-8, not empty, with no line feed, and not starting with white space.
abbrev pub IsLine : Text → Type 0
IsLine l = HasBoundaries l × IsContent l × Lacks lf l

unfold_raw-write_all :
    (lines : List Text) (acc : List Text)
    → All IsLine lines
    → (out : Text) × (write_all lines ≡ some out) × (unfold_raw acc (split lf out) ≡ acc ++ lines)
unfold_raw-write_all [] acc h =
    ([], refl, unfold unfold_raw unfold_line strip_cr split in sym (append-nil acc))
unfold_raw-write_all (l ∷ ls) acc h =
    let (out, e) = write_folded-some l h.0.0 in
    let (more, f, g) = unfold_raw-write_all ls (acc ++ (l ∷ [])) h.1 in
    (
      out ++ more,
      rw (e, f, write_all),
      unfold_raw-write_folded more l out acc h.0.0 h.0.1 h.0.2 e ∙ g ∙ append_assoc acc (l ∷ []) ls,
    )

-- Lines that may be written are written folded, one after another, and read back as they were: folding
-- ends on each, and unfolding joins the pieces of each line and nothing else.
pub unfold_lines-write_all :
    (lines : List Text)
    → All IsLine lines
    → (out : Text) × (write_all lines ≡ some out) × (unfold_lines out ≡ lines)
unfolding unfold_lines
unfold_lines-write_all lines h = unfold_raw-write_all lines [] h
