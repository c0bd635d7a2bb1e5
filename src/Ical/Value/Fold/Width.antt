-- ===== src/Ical/Value/Fold/Width.antt =====
-- crates/mgmt-ical/src/value.rs: the length of the physical lines.
use mgmtui.Base.{
  ℕ, zero, suc, ◌≤◌, min, ◌≡◌, refl, sym, ◌∙◌, arith, Text, Bool, true, false, some, [], ◌∷◌, ◌++◌,
  length, take, drop, leb, if◌then◌else◌, All, All-take, All-drop, length-take-le, Bool-cases, inl,
  inr,
}
use mgmtui.Base.Chars.{Lacks, split}
use mgmtui.Ical.Value.{block, taken, lf, cr, fold_rest, write_folded, strip_cr}
use mgmtui.Ical.Value.Fold.{
  back_up-le, strip_cr-snoc, split-physical, write_folded-short, write_folded-long,
  fold_rest-eq-some,
}

abbrev pub IsNarrow : Text → Type 0
IsNarrow out = All (λ p. length (strip_cr p) ≤ 75) (split lf out)

IsNarrow-physical :
    (line rest : Text)
    → Lacks lf line
    → length line ≤ 75
    → IsNarrow rest
    → IsNarrow (line ++ (cr ∷ lf ∷ rest))
IsNarrow-physical line rest h w n = rw (split-physical line rest h) (rw (strip_cr-snoc line) w, n)

taken-le : (first : Bool) (rest : Text) → taken first rest ≤ (if first then 75 else 74)
unfolding taken
taken-le first rest = grind (arith, back_up-le rest (min (if first then 75 else 74) (length rest)))

IsNarrow-block :
    (first : Bool) (end : ℕ) (rest more : Text)
    → Lacks lf rest
    → end ≤ (if first then 75 else 74)
    → IsNarrow more
    → IsNarrow (block first end rest more)
IsNarrow-block true end rest more h w n =
    IsNarrow-physical (take end rest) more (All-take _ end rest h)
      (omega (arith, length-take-le end rest)) n
IsNarrow-block false end rest more h w n =
    IsNarrow-physical (b' ' ∷ take end rest) more (refl, All-take _ end rest h)
      (omega (arith, length-take-le end rest)) n

IsNarrow-nil : IsNarrow []
unfolding split strip_cr
IsNarrow-nil = (omega arith, tt)

IsNarrow-fold_rest :
    (fuel : ℕ) (first : Bool) (rest out : Text)
    → Lacks lf rest
    → fold_rest fuel first rest ≡ some out
    → IsNarrow out
IsNarrow-fold_rest fuel first [] out h e =
    let empty : out ≡ [] = unfold fold_rest in cc in rw empty IsNarrow-nil
IsNarrow-fold_rest zero first (b ∷ bs) out h e = unfold fold_rest in cc
IsNarrow-fold_rest (suc fuel) first (b ∷ bs) out h e =
    let end = taken first (b ∷ bs) in
    let (more, q, same) = fold_rest-eq-some fuel first b bs out e in
    rw same (
      IsNarrow-block first end (b ∷ bs) more h (taken-le first (b ∷ bs))
        (IsNarrow-fold_rest fuel false (drop end (b ∷ bs)) more (All-drop _ end (b ∷ bs) h) q))

-- If a line with no line feed is folded, no physical line of the result is longer than 75 octets, its
-- line break not counted.
pub write_folded-IsNarrow :
    (line out : Text) → Lacks lf line → write_folded line ≡ some out → IsNarrow out
write_folded-IsNarrow line out h e = elim (Bool-cases (leb (length line) 75)) [
  | inl short ↦
      let same : out ≡ line ++ (cr ∷ lf ∷ []) = cc (write_folded-short line short) in
      rw same (IsNarrow-physical line [] h (ground arith) IsNarrow-nil)
  | inr long ↦
      IsNarrow-fold_rest (length line) true line out h (sym (write_folded-long line long) ∙ e)
]
