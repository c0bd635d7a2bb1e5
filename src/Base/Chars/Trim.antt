-- ===== src/Base/Chars/Trim.antt =====
-- Trimming and lower-casing a text again changes nothing.
use mgmtui.Base.{ℕ, Text, Bool, Bool-cases, true, false, [], ◌∷◌, ◌≡◌, refl, arith, inl, inr, ◌∙◌}
use mgmtui.Base.Chars.{
  is_white, cons_unless_end, trim_start, trim_end, trim, lower_char, to_ascii_lowercase,
}

-- The text does not begin with white space.
abbrev Starts : Text → Type 0
Starts [] = Unit
Starts (c ∷ cs) = is_white c ≡ false

trim_start-Starts : (s : Text) → Starts (trim_start s)
unfolding trim_start
trim_start-Starts [] = tt
trim_start-Starts (c ∷ cs) = elim (Bool-cases (is_white c)) [
  | inl e ↦ rw e (trim_start-Starts cs)
  | inr e ↦ rw e e
]

trim_end-Starts : (s : Text) → Starts s → Starts (trim_end s)
unfolding trim_end
trim_end-Starts [] h = tt
trim_end-Starts (c ∷ cs) h = rw h h

trim_start-same : (s : Text) → Starts s → trim_start s ≡ s
unfolding trim_start
trim_start-same [] h = refl
trim_start-same (c ∷ cs) h = rw h

trim_end-cons :
    (c : ℕ) (cs : Text) → trim_end (c ∷ cs) ≡ cons_unless_end (is_white c) c (trim_end cs)
unfolding trim_end
trim_end-cons c cs = refl

trim_end-cons_unless_end :
    (b : Bool) (c : ℕ) (cs : Text)
    → is_white c ≡ b
    → trim_end cs ≡ cs
    → trim_end (cons_unless_end b c cs) ≡ cons_unless_end b c cs
trim_end-cons_unless_end true c [] e f = unfold trim_end in refl
trim_end-cons_unless_end true c (d ∷ ds) e f = trim_end-cons c (d ∷ ds) ∙ rw (e, f)
trim_end-cons_unless_end false c cs e f = trim_end-cons c cs ∙ rw (e, f)

trim_end-trim_end : (s : Text) → trim_end (trim_end s) ≡ trim_end s
trim_end-trim_end [] = unfold trim_end in refl
trim_end-trim_end (c ∷ cs) =
    rw (trim_end-cons c cs)
      (trim_end-cons_unless_end (is_white c) c (trim_end cs) refl (trim_end-trim_end cs))

pub trim-trim : (s : Text) → trim (trim s) ≡ trim s
unfolding trim
trim-trim s =
    rw
      (trim_start-same (trim_end (trim_start s))
        (trim_end-Starts (trim_start s) (trim_start-Starts s)))
      (trim_end-trim_end (trim_start s))

is_white-lower_char : (c : ℕ) → is_white (lower_char c) ≡ is_white c
unfolding is_white lower_char
is_white-lower_char c = ground arith

trim_start-to_ascii_lowercase :
    (s : Text) → trim_start (to_ascii_lowercase s) ≡ to_ascii_lowercase (trim_start s)
unfolding trim_start to_ascii_lowercase
trim_start-to_ascii_lowercase [] = refl
trim_start-to_ascii_lowercase (c ∷ cs) = elim (Bool-cases (is_white c)) [
  | inl e ↦ rw (is_white-lower_char c, e) (trim_start-to_ascii_lowercase cs)
  | inr e ↦ rw (is_white-lower_char c, e)
]

cons_unless_end-to_ascii_lowercase :
    (b : Bool) (c : ℕ) (cs : Text)
    → cons_unless_end b (lower_char c) (to_ascii_lowercase cs)
      ≡ to_ascii_lowercase (cons_unless_end b c cs)
unfolding to_ascii_lowercase
cons_unless_end-to_ascii_lowercase true c [] = refl
cons_unless_end-to_ascii_lowercase true c (d ∷ ds) = refl
cons_unless_end-to_ascii_lowercase false c cs = refl

to_ascii_lowercase-cons :
    (c : ℕ) (cs : Text) → to_ascii_lowercase (c ∷ cs) ≡ lower_char c ∷ to_ascii_lowercase cs
unfolding to_ascii_lowercase
to_ascii_lowercase-cons c cs = refl

trim_end-to_ascii_lowercase :
    (s : Text) → trim_end (to_ascii_lowercase s) ≡ to_ascii_lowercase (trim_end s)
trim_end-to_ascii_lowercase [] = unfold trim_end to_ascii_lowercase in refl
trim_end-to_ascii_lowercase (c ∷ cs) =
    rw
      (
        to_ascii_lowercase-cons c cs,
        trim_end-cons c cs,
        trim_end-cons (lower_char c) (to_ascii_lowercase cs),
        is_white-lower_char c,
        trim_end-to_ascii_lowercase cs,
      )
      (cons_unless_end-to_ascii_lowercase (is_white c) c (trim_end cs))

pub trim-to_ascii_lowercase : (s : Text) → trim (to_ascii_lowercase s) ≡ to_ascii_lowercase (trim s)
unfolding trim
trim-to_ascii_lowercase s =
    rw (trim_start-to_ascii_lowercase s) (trim_end-to_ascii_lowercase (trim_start s))

lower_char-lower_char : (c : ℕ) → lower_char (lower_char c) ≡ lower_char c
unfolding lower_char
lower_char-lower_char c = ground arith

pub to_ascii_lowercase-to_ascii_lowercase :
    (s : Text) → to_ascii_lowercase (to_ascii_lowercase s) ≡ to_ascii_lowercase s
unfolding to_ascii_lowercase
to_ascii_lowercase-to_ascii_lowercase [] = refl
to_ascii_lowercase-to_ascii_lowercase (c ∷ cs) =
    rw (lower_char-lower_char c, to_ascii_lowercase-to_ascii_lowercase cs)
