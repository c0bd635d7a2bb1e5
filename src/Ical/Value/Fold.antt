-- ===== src/Ical/Value/Fold.antt =====
-- crates/mgmt-ical/src/value.rs: `write_folded` ends on UTF-8 texts, and what a round pushes.
pub mod Lines
pub mod Width
use mathlib.Core.List.{append_assoc, append-nil}
use mgmtui.Base.{
  Option-cases, ℕ, zero, suc, ◌+◌, ◌-◌, ◌≤◌, ◌<◌, min, ◌≡◌, ◌≢◌, refl, sym, ap, ◌∙◌, arith, Text,
  Bool, true, false, Option, none, some, List, [], ◌∷◌, ◌++◌, length, take, drop, ltb, leb, eqb,
  if◌then◌else◌, All, All-append, All-take, All-drop, take-append-drop, length-take-le, length-drop,
  get_elem?-drop, get_elem?-none, Bool-cases, inl, inr,
}
use mgmtui.Base.Chars.{Lacks, split, split-append}
use mgmtui.Ical.Value.{
  block, taken, lf, cr, tab, is_boundary, back_up, fold_rest, write_folded, strip_cr, push_last,
  unfold_line, unfold_raw, unfold_lines,
}

-- Of any four neighbouring positions one is a character boundary, as in every UTF-8 text.
abbrev pub HasBoundaries : Text → Type 0
HasBoundaries line = (i : ℕ) → (j : ℕ) × (i ≤ j) × (j ≤ i + 3) × (is_boundary line j ≡ true)

-- Texts of single-byte characters are such.
pub ascii-HasBoundaries : (line : Text) → All (λ b. ltb b 128 ≡ true) line → HasBoundaries line
unfolding is_boundary
ascii-HasBoundaries [] h i = (i, omega arith, omega arith, refl)
ascii-HasBoundaries (b ∷ bs) h zero = (0, omega arith, omega arith, ground arith)
ascii-HasBoundaries (b ∷ bs) h (suc i) =
    let (j, lo, hi, e) = ascii-HasBoundaries bs h.1 i in (suc j, omega arith, omega arith, e)

is_boundary-drop : (k j : ℕ) (line : Text) → is_boundary (drop k line) j ≡ is_boundary line (k + j)
unfolding is_boundary
is_boundary-drop k j line = rw (get_elem?-drop k j line, is_boundary)

is_boundary-end : (line : Text) → is_boundary line (length line) ≡ true
unfolding is_boundary
is_boundary-end line = rw (get_elem?-none (length line) line (omega arith), is_boundary)

drop-HasBoundaries : (k : ℕ) (line : Text) → HasBoundaries line → HasBoundaries (drop k line)
drop-HasBoundaries k line h i =
    let (j, lo, hi, e) = h (k + i) in
    let there : k + (j - k) ≡ j = omega arith in
    (
      j - k,
      omega arith,
      omega arith,
      is_boundary-drop k (j - k) line ∙ ap (is_boundary line) there ∙ e,
    )

back_up-le : (rest : Text) (e : ℕ) → back_up rest e ≤ e
unfolding back_up
back_up-le rest zero = omega arith
back_up-le rest (suc e) = ground (arith, back_up-le rest e)

le-back_up : (rest : Text) (e j : ℕ) → j ≤ e → is_boundary rest j ≡ true → j ≤ back_up rest e
unfolding back_up
le-back_up rest zero j h b = h
le-back_up rest (suc e) j h b = elim (Bool-cases (is_boundary rest (suc e))) [
  | inl here ↦ rw here h
  | inr lower ↦ rw lower (le-back_up rest e j (grind arith) b)
]

-- Backing up from a budget of four bytes or more leaves at least one.
back_up_pos :
    (b : ℕ) (bs : Text) (budget : ℕ)
    → HasBoundaries (b ∷ bs)
    → 4 ≤ budget
    → 0 < back_up (b ∷ bs) (min budget (length (b ∷ bs)))
back_up_pos b bs budget h four = elim (Bool-cases (leb (length (b ∷ bs)) budget)) [
  | inl short ↦
      let whole : min budget (suc (length bs)) ≡ suc (length bs) = ground arith in
      rw whole (
        omega (
          arith,
          le-back_up (b ∷ bs) (suc (length bs)) (suc (length bs)) (omega arith)
              (is_boundary-end (b ∷ bs)),
        ))
  | inr long ↦
      let cut : min budget (suc (length bs)) ≡ budget = ground arith in
      let (j, lo, hi, e) = h (budget - 3) in
      rw cut (omega (arith, le-back_up (b ∷ bs) budget j (omega arith) e))
]

taken_pos : (first : Bool) (b : ℕ) (bs : Text) → HasBoundaries (b ∷ bs) → 0 < taken first (b ∷ bs)
unfolding taken
taken_pos true b bs h = back_up_pos b bs 75 h (omega arith)
taken_pos false b bs h = back_up_pos b bs 74 h (omega arith)

fold_rest-step :
    (fuel : ℕ) (first : Bool) (b : ℕ) (bs more : Text)
    → fold_rest fuel false (drop (taken first (b ∷ bs)) (b ∷ bs)) ≡ some more
    → fold_rest (suc fuel) first (b ∷ bs) ≡ some (block first (taken first (b ∷ bs)) (b ∷ bs) more)
unfolding fold_rest
fold_rest-step fuel first b bs more e = rw (e, fold_rest)

fold_rest-stuck :
    (fuel : ℕ) (first : Bool) (b : ℕ) (bs : Text)
    → fold_rest fuel false (drop (taken first (b ∷ bs)) (b ∷ bs)) ≡ none
    → fold_rest (suc fuel) first (b ∷ bs) ≡ none
unfolding fold_rest
fold_rest-stuck fuel first b bs e = rw (e, fold_rest)

fold_rest-some :
    (fuel : ℕ) (first : Bool) (rest : Text)
    → HasBoundaries rest
    → length rest ≤ fuel
    → (out : Text) × (fold_rest fuel first rest ≡ some out)
fold_rest-some fuel first [] h enough = ([], unfold fold_rest in refl)
fold_rest-some zero first (b ∷ bs) h enough = absurd (omega arith)
fold_rest-some (suc fuel) first (b ∷ bs) h enough =
    let end = taken first (b ∷ bs) in
    let (more, e) =
      fold_rest-some fuel false (drop end (b ∷ bs)) (drop-HasBoundaries end (b ∷ bs) h)
        (omega (arith, taken_pos first b bs h, length-drop end (b ∷ bs))) in
    (block first end (b ∷ bs) more, fold_rest-step fuel first b bs more e)

-- Folding ends on every UTF-8 text: a round takes at least one byte.
pub write_folded-some :
    (line : Text) → HasBoundaries line → (out : Text) × (write_folded line ≡ some out)
unfolding write_folded
write_folded-some line h = elim (Bool-cases (leb (length line) 75)) [
  | inl short ↦ (line ++ (cr ∷ lf ∷ []), rw (short, write_folded))
  | inr long ↦
      let (out, e) = fold_rest-some (length line) true line h (omega arith) in
      (out, rw (long, write_folded) e)
]

strip_cr-snoc : (xs : Text) → strip_cr (xs ++ (cr ∷ [])) ≡ xs
unfolding strip_cr
strip_cr-snoc [] = refl
strip_cr-snoc (x ∷ []) = refl
strip_cr-snoc (x ∷ y ∷ xs) = ap (λ l. x ∷ l) (strip_cr-snoc (y ∷ xs))

Lacks-snoc_cr : (xs : Text) → Lacks lf xs → Lacks lf (xs ++ (cr ∷ []))
Lacks-snoc_cr xs h = All-append _ xs (cr ∷ []) h (refl, tt)

-- A physical line in front, ended by CR LF, is the first part of the split.
split-physical :
    (xs rest : Text)
    → Lacks lf xs
    → split lf (xs ++ (cr ∷ lf ∷ rest)) ≡ (xs ++ (cr ∷ [])) ∷ split lf rest
split-physical xs rest h =
    ap (split lf) (sym (append_assoc xs (cr ∷ []) (lf ∷ rest)))
    ∙ split-append lf (xs ++ (cr ∷ [])) rest (Lacks-snoc_cr xs h)

write_folded-short :
    (line : Text) → leb (length line) 75 ≡ true → write_folded line ≡ some (line ++ (cr ∷ lf ∷ []))
unfolding write_folded
write_folded-short line e = rw (e, write_folded)

write_folded-long :
    (line : Text)
    → leb (length line) 75 ≡ false
    → write_folded line ≡ fold_rest (length line) true line
unfolding write_folded
write_folded-long line e = rw (e, write_folded)

-- What a successful run pushes: the block of this round and what the later rounds push.
fold_rest-eq-some :
    (fuel : ℕ) (first : Bool) (b : ℕ) (bs out : Text)
    → fold_rest (suc fuel) first (b ∷ bs) ≡ some out
    → (more : Text) × (fold_rest fuel false (drop (taken first (b ∷ bs)) (b ∷ bs)) ≡ some more)
      × (out ≡ block first (taken first (b ∷ bs)) (b ∷ bs) more)
fold_rest-eq-some fuel first b bs out e =
    elim (Option-cases (fold_rest fuel false (drop (taken first (b ∷ bs)) (b ∷ bs)))) [
      | inl q ↦ absurd (cc (fold_rest-stuck fuel first b bs q))
      | inr (more, q) ↦ (more, q, cc (fold_rest-step fuel first b bs more q))
    ]
