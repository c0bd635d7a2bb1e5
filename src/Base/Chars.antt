-- ===== src/Base/Chars.antt =====
-- The operations of `str` that the program uses, over code points.
pub mod Trim
use mgmtui.Base.{
  any, All-append, ℕ, ◌+◌, ◌-◌, Text, text_eq, ◌==◌, ◌≡◌, refl, ◌∙◌, ap, Bool, true, false, ◌&&◌,
  ◌||◌, Option, none, some, List, [], ◌∷◌, ◌++◌, All, arith, leb, eqb, if◌then◌else◌,
}

-- `char::is_whitespace`
unfoldable pub is_white : ℕ → Bool
is_white c =
    (leb 9 c && leb c 13)
    || eqb c 32
    || eqb c 0x85
    || eqb c 0xa0
    || eqb c 0x1680
    || (leb 0x2000 c && leb c 0x200a)
    || eqb c 0x2028
    || eqb c 0x2029
    || eqb c 0x202f
    || eqb c 0x205f
    || eqb c 0x3000

abbrev pub cons_unless_end : Bool → ℕ → Text → Text
cons_unless_end true c [] = []
cons_unless_end true c (x ∷ xs) = c ∷ x ∷ xs
cons_unless_end false c xs = c ∷ xs

unfoldable pub trim_start : Text → Text
trim_start [] = []
trim_start (c ∷ cs) = let rest = trim_start cs in if is_white c then rest else c ∷ cs

unfoldable pub trim_end : Text → Text
trim_end [] = []
trim_end (c ∷ cs) = cons_unless_end (is_white c) c (trim_end cs)

unfoldable pub trim : Text → Text
trim s = trim_end (trim_start s)

abbrev add_first : ℕ → Option (Text × ℕ) → Option (Text × ℕ)
add_first c none = some ([], c)
add_first c (some (xs, l)) = some (c ∷ xs, l)

-- All but the last character, and the last one.
unfoldable pub split_last : Text → Option (Text × ℕ)
split_last [] = none
split_last (c ∷ cs) = add_first c (split_last cs)

unfoldable pub strip_prefix : Text → Text → Option Text
strip_prefix [] s = some s
strip_prefix (p ∷ ps) [] = none
strip_prefix (p ∷ ps) (c ∷ cs) = let rest = strip_prefix ps cs in if eqb p c then rest else none

unfoldable pub starts_with : Text → Text → Bool
unfolding strip_prefix
starts_with p s = elim (strip_prefix p s) [ none ↦ false | some rest ↦ true ]

-- `str::contains` at a text.
unfoldable pub has_substring : Text → Text → Bool
unfolding starts_with
has_substring p [] = starts_with p []
has_substring p (c ∷ cs) = starts_with p (c ∷ cs) || has_substring p cs

unfoldable pub upper_char : ℕ → ℕ
upper_char c = if leb b'a' c && leb c b'z' then c - 32 else c

unfoldable pub lower_char : ℕ → ℕ
lower_char c = if leb b'A' c && leb c b'Z' then c + 32 else c

-- `str::to_ascii_uppercase`
unfoldable pub to_ascii_uppercase : Text → Text
unfolding upper_char
to_ascii_uppercase [] = []
to_ascii_uppercase (c ∷ cs) = upper_char c ∷ to_ascii_uppercase cs

unfoldable pub to_ascii_lowercase : Text → Text
unfolding lower_char
to_ascii_lowercase [] = []
to_ascii_lowercase (c ∷ cs) = lower_char c ∷ to_ascii_lowercase cs

unfoldable pub eq_ignore_ascii_case : Text → Text → Bool
unfolding to_ascii_lowercase
eq_ignore_ascii_case a b = to_ascii_lowercase a == to_ascii_lowercase b

abbrev pub onto_first : ℕ → List Text → List Text
onto_first c [] = (c ∷ []) ∷ []
onto_first c (p ∷ ps) = (c ∷ p) ∷ ps

-- `str::split` at a character: always at least one part.
unfoldable pub split : ℕ → Text → List Text
split sep [] = [] ∷ []
split sep (c ∷ cs) = let rest = split sep cs in if eqb c sep then [] ∷ rest else onto_first c rest

-- `[String]::join` at a character.
unfoldable pub join : ℕ → List Text → Text
join sep [] = []
join sep (p ∷ []) = p
join sep (p ∷ q ∷ ps) = p ++ (sep ∷ join sep (q ∷ ps))

abbrev pub onto_key : ℕ → Option (Text × Text) → Option (Text × Text)
onto_key c none = none
onto_key c (some (k, v)) = some (c ∷ k, v)

-- `str::split_once` at a character.
unfoldable pub split_once : ℕ → Text → Option (Text × Text)
split_once sep [] = none
split_once sep (c ∷ cs) =
    let rest = split_once sep cs in if eqb c sep then some ([], cs) else onto_key c rest

-- The character does not occur.
abbrev pub Lacks : ℕ → Text → Type 0
Lacks c = All (λ x. eqb x c ≡ false)

abbrev pub NotWhite : Text → Type 0
NotWhite = All (λ c. is_white c ≡ false)

cons_unless_end-snoc :
    (b : Bool) (x : ℕ) (xs : Text) (c : ℕ)
    → cons_unless_end b x (xs ++ (c ∷ [])) ≡ x ∷ (xs ++ (c ∷ []))
cons_unless_end-snoc true x [] c = refl
cons_unless_end-snoc true x (y ∷ xs) c = refl
cons_unless_end-snoc false x xs c = refl

pub trim_end-snoc :
    (xs : Text) (c : ℕ) → is_white c ≡ false → trim_end (xs ++ (c ∷ [])) ≡ xs ++ (c ∷ [])
unfolding trim_end
trim_end-snoc [] c e = rw e
trim_end-snoc (x ∷ xs) c e = rw (trim_end-snoc xs c e) (cons_unless_end-snoc (is_white x) x xs c)

pub split_last-snoc : (xs : Text) (c : ℕ) → split_last (xs ++ (c ∷ [])) ≡ some (xs, c)
unfolding split_last
split_last-snoc [] c = refl
split_last-snoc (x ∷ xs) c = rw (split_last-snoc xs c)

trim_start-cons : (c : ℕ) (cs : Text) → is_white c ≡ false → trim_start (c ∷ cs) ≡ c ∷ cs
unfolding trim_start
trim_start-cons c cs e = rw e

-- A text that starts and ends with other characters than white space is trimmed already.
pub trim-snoc :
    (x : ℕ) (xs : Text) (c : ℕ)
    → is_white x ≡ false
    → is_white c ≡ false
    → trim ((x ∷ xs) ++ (c ∷ [])) ≡ (x ∷ xs) ++ (c ∷ [])
unfolding trim
trim-snoc x xs c e f = rw (trim_start-cons x (xs ++ (c ∷ [])) e) (trim_end-snoc (x ∷ xs) c f)

trim_end-NotWhite : (xs : Text) → NotWhite xs → trim_end xs ≡ xs
unfolding trim_end
trim_end-NotWhite [] h = refl
trim_end-NotWhite (x ∷ xs) h = rw (h.0, trim_end-NotWhite xs h.1)

pub trim-NotWhite : (xs : Text) → NotWhite xs → trim xs ≡ xs
unfolding trim
trim-NotWhite [] h = unfold trim_start trim_end in refl
trim-NotWhite (x ∷ xs) h = rw (trim_start-cons x xs h.0) (trim_end-NotWhite (x ∷ xs) h)

pub split-append :
    (sep : ℕ) (p q : Text) → Lacks sep p → split sep (p ++ (sep ∷ q)) ≡ p ∷ split sep q
unfolding split
split-append sep [] q h = ground arith
split-append sep (c ∷ p) q h = ground (arith, split-append sep p q h.1)

pub split-Lacks : (sep : ℕ) (p : Text) → Lacks sep p → split sep p ≡ p ∷ []
unfolding split
split-Lacks sep [] h = refl
split-Lacks sep (c ∷ p) h = ground (arith, split-Lacks sep p h.1)

-- Splitting undoes joining, for parts that do not hold the separator.
pub split-join :
    (sep : ℕ) (p : Text) (ps : List Text)
    → All (Lacks sep) (p ∷ ps)
    → split sep (join sep (p ∷ ps)) ≡ p ∷ ps
unfolding join
split-join sep p [] h = split-Lacks sep p h.0
split-join sep p (q ∷ ps) h =
    split-append sep p (join sep (q ∷ ps)) h.0 ∙ ap (λ l. p ∷ l) (split-join sep q ps h.1)

pub split_once-append :
    (sep : ℕ) (k v : Text) → Lacks sep k → split_once sep (k ++ (sep ∷ v)) ≡ some (k, v)
unfolding split_once
split_once-append sep [] v h = ground arith
split_once-append sep (c ∷ k) v h = ground (arith, split_once-append sep k v h.1)

-- A test for that.
pub any-Lacks : (c : ℕ) (xs : Text) → any (λ x. eqb x c) xs ≡ false → Lacks c xs
any-Lacks c [] h = tt
any-Lacks c (x ∷ xs) h = ground (arith, any-Lacks c xs)

pub Lacks-append : (c : ℕ) (xs ys : Text) → Lacks c xs → Lacks c ys → Lacks c (xs ++ ys)
Lacks-append c xs ys h k = All-append (λ x. eqb x c ≡ false) xs ys h k

pub Lacks-join :
    (c sep : ℕ) (ps : List Text) → eqb sep c ≡ false → All (Lacks c) ps → Lacks c (join sep ps)
unfolding join
Lacks-join c sep [] e h = tt
Lacks-join c sep (p ∷ []) e h = h.0
Lacks-join c sep (p ∷ q ∷ ps) e h =
    Lacks-append c p (sep ∷ join sep (q ∷ ps)) h.0 (e, Lacks-join c sep (q ∷ ps) e h.1)
