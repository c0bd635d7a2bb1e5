-- ===== src/Base/Decimal.antt =====
-- Decimal numerals: `Display` and `FromStr` of Rust's integers, over code points.
use mgmtui.Base.{
  inr, inl, Bool-cases, ℕ, zero, suc, ◌+◌, ◌-◌, ◌*◌, ◌/◌, ◌%◌, ◌≤◌, ◌<◌, Text, ◌≡◌, ◌≢◌, refl, Bool,
  true, ◌&&◌, Option, none, some, [], ◌∷◌, ◌++◌, All, All-append, arith, leb, ltb, eqb,
  if◌then◌else◌,
}
use mgmtui.Base.Int.{ℤ, pos, negsuc}

abbrev pub is_digit : ℕ → Bool
is_digit c = leb b'0' c && leb c b'9'

digits_fuel : ℕ → ℕ → Text
digits_fuel zero n = []
digits_fuel (suc f) n =
    let more = digits_fuel f (n / 10) ++ ((b'0' + n % 10) ∷ []) in
    if ltb n 10 then (b'0' + n) ∷ [] else more

unfoldable pub digits : ℕ → Text
unfolding digits_fuel
digits n = digits_fuel (suc n) n

unfoldable pub parse_digits : ℕ → Text → Option ℕ
parse_digits acc [] = some acc
parse_digits acc (c ∷ cs) =
    let rest = parse_digits (acc * 10 + (c - b'0')) cs in if is_digit c then rest else none

unfoldable pub parse_nat : Text → Option ℕ
unfolding parse_digits
parse_nat [] = none
parse_nat (c ∷ cs) = parse_digits 0 (c ∷ cs)

-- `str::parse` at an unsigned type whose greatest value is `top`: a leading plus is accepted.
unfoldable pub parse_unsigned : ℕ → Text → Option ℕ
unfolding parse_nat
parse_unsigned top [] = none
parse_unsigned top (c ∷ cs) = elim (if eqb c b'+' then parse_nat cs else parse_nat (c ∷ cs)) [
  | none ↦ none
  | some n ↦ if leb n top then some n else none
]

abbrev negate : ℕ → ℤ
negate zero = pos 0
negate (suc n) = negsuc n

-- `str::parse` at a signed type with values from `-(top + 1)` to `top`.
unfoldable pub parse_signed : ℕ → Text → Option ℤ
unfolding parse_unsigned
parse_signed top [] = none
parse_signed top (c ∷ cs) =
    if eqb c b'-'
    then elim (parse_nat cs) [
      | none ↦ none
      | some n ↦ if leb n (top + 1) then some (negate n) else none
    ]
    else elim (parse_unsigned top (c ∷ cs)) [ none ↦ none | some n ↦ some (pos n) ]

unfoldable pub show_signed : ℤ → Text
show_signed (pos n) = digits n
show_signed (negsuc n) = b'-' ∷ digits (suc n)

parse_digits-append :
    (acc : ℕ) (xs ys : Text)
    → parse_digits acc (xs ++ ys)
      ≡ elim (parse_digits acc xs) [ none ↦ none | some a ↦ parse_digits a ys ]
unfolding parse_digits
parse_digits-append acc [] ys = refl
parse_digits-append acc (x ∷ xs) ys =
    ground (arith, parse_digits-append (acc * 10 + (x - b'0')) xs ys)

parse_digits-digit : (a d : ℕ) → d < 10 → parse_digits a ((b'0' + d) ∷ []) ≡ some (a * 10 + d)
unfolding parse_digits
parse_digits-digit a d h = ground arith

parse_digits-digits_fuel : (f n : ℕ) → n < f → parse_digits 0 (digits_fuel f n) ≡ some n
unfolding digits_fuel
parse_digits-digits_fuel zero n h = elim h [ ]
parse_digits-digits_fuel (suc f) n h = ground (
  arith,
  parse_digits-digits_fuel f (n / 10),
  parse_digits-append 0 (digits_fuel f (n / 10)) ((b'0' + n % 10) ∷ []),
  parse_digits-digit (n / 10) (n % 10),
  parse_digits-digit 0 n,
)

digits_fuel-All : (f n : ℕ) → All (λ c. is_digit c ≡ true) (digits_fuel f n)
unfolding digits_fuel
digits_fuel-All zero n = tt
digits_fuel-All (suc f) n = elim (Bool-cases (ltb n 10)) [
  | inl one ↦ rw one (ground arith, tt)
  | inr more ↦ rw more (
      All-append (λ c. is_digit c ≡ true) (digits_fuel f (n / 10)) ((b'0' + n % 10) ∷ [])
        (digits_fuel-All f (n / 10)) (ground arith, tt))
]

-- Every character of a printed number is a digit.
pub digits-All : (n : ℕ) → All (λ c. is_digit c ≡ true) (digits n)
unfolding digits
digits-All n = digits_fuel-All (suc n) n

parse_digits-digits : (n : ℕ) → parse_digits 0 (digits n) ≡ some n
unfolding digits
parse_digits-digits n = parse_digits-digits_fuel (suc n) n (omega arith)

append-ne-nil : (xs : Text) (c : ℕ) → xs ++ (c ∷ []) ≢ []
append-ne-nil [] c e = cc
append-ne-nil (x ∷ xs) c e = cc

digits-ne-nil : (n : ℕ) → digits n ≢ []
unfolding digits
digits-ne-nil n e = ground (arith, append-ne-nil (digits_fuel n (n / 10)) (b'0' + n % 10))

-- A printed number starts with a digit.
pub digits_cons : (n : ℕ) → (c : ℕ) × (cs : Text) × (digits n ≡ c ∷ cs) × (is_digit c ≡ true)
digits_cons n =
    (elim (digits n)
        as (λ s.
          digits n ≡ s
          → All (λ c. is_digit c ≡ true) s
          → (c : ℕ) × (cs : Text) × (digits n ≡ c ∷ cs) × (is_digit c ≡ true)) [
            | [] ↦ λ e a. absurd (digits-ne-nil n e)
            | c ∷ cs ↦ λ e a. (c, cs, e, a.0)
          ])
      refl (digits-All n)

pub parse_nat-digits : (n : ℕ) → parse_nat (digits n) ≡ some n
unfolding parse_nat
parse_nat-digits n = let (c, cs, e, d) = digits_cons n in rw e (rw e at (parse_digits-digits n))

-- A printed number parses back at every unsigned type that holds it.
pub parse_unsigned-digits : (top n : ℕ) → n ≤ top → parse_unsigned top (digits n) ≡ some n
unfolding parse_unsigned
parse_unsigned-digits top n h =
    let (c, cs, e, d) = digits_cons n in
    rw e (let back = rw e at (parse_nat-digits n) in ground arith)

-- The value is one of the type's.
abbrev pub Fits : ℕ → ℤ → Type 0
Fits top (pos n) = n ≤ top
Fits top (negsuc n) = n ≤ top

-- A printed integer parses back at every signed type that holds it.
pub parse_signed-show_signed :
    (top : ℕ) (z : ℤ) → Fits top z → parse_signed top (show_signed z) ≡ some z
unfolding parse_signed show_signed
parse_signed-show_signed top (pos n) h =
    let (c, cs, e, d) = digits_cons n in
    rw e (let back = rw e at (parse_unsigned-digits top n h) in ground arith)
parse_signed-show_signed top (negsuc n) h = ground (arith, parse_nat-digits (suc n))

pub parse_signed-digits : (top n : ℕ) → n ≤ top → parse_signed top (digits n) ≡ some (pos n)
unfolding show_signed
parse_signed-digits top n h = parse_signed-show_signed top (pos n) h
