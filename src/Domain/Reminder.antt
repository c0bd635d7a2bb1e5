-- ===== src/Domain/Reminder.antt =====
-- crates/mgmt-domain/src/reminder.rs: reminder offsets, `1d`, `2h`, `30m` or bare minutes. Minutes are
-- an `i64`, whose product wraps around in a release build.
pub mod Laws
use mgmtui.Base.{
  ℕ, zero, suc, ◌+◌, ◌-◌, ◌*◌, ◌/◌, ◌%◌, ◌^◌, Text, Bool, true, false, ◌&&◌, not, Option, none,
  some, List, [], ◌∷◌, ◌++◌, ltb, eqb, if◌then◌else◌,
}
use mgmtui.Base.Int.{ℤ, pos, negsuc}
use mgmtui.Base.Decimal.{is_digit, parse_signed, show_signed}
use mgmtui.Base.Chars.{trim, split_last, is_white}

abbrev pub i64_top : ℕ
i64_top = 9223372036854775807

-- The `i64` with the bits of a number.
unfoldable pub wrap_i64 : ℕ → ℤ
wrap_i64 n = let m = n % 2 ^ 64 in if ltb m (2 ^ 63) then pos m else negsuc (2 ^ 64 - m - 1)

-- `num.trim().parse()`, the sign test and the product.
unfoldable pub scaled : Text → ℕ → Option ℤ
unfolding wrap_i64
scaled num mult = elim (parse_signed i64_top (trim num)) [
  | none ↦ none
  | some (pos n) ↦ some (wrap_i64 (n * mult))
  | some (negsuc n) ↦ none
]

-- The match on the last character; `whole` is the trimmed text.
unfoldable pub parse_unit : Text → Text → ℕ → Option ℤ
parse_unit whole num c =
    if eqb c b'd'
    then scaled num 1440
    else if eqb c b'D'
    then scaled num 1440
    else if eqb c b'h'
    then scaled num 60
    else if eqb c b'H'
    then scaled num 60
    else if eqb c b'm'
    then scaled num 1
    else if eqb c b'M'
    then scaled num 1
    else if is_digit c
    then scaled whole 1
    else none

unfoldable pub parse : Text → Option ℤ
parse s = let t = trim s in elim (split_last t) [ none ↦ none | some (num, c) ↦ parse_unit t num c ]

-- `m % k == 0` at a signed `m`.
unfoldable pub divides : ℕ → ℤ → Bool
divides k (pos n) = eqb (n % k) 0
divides k (negsuc n) = eqb ((n + 1) % k) 0

-- `m / k`, towards zero.
unfoldable pub quotient : ℤ → ℕ → ℤ
quotient (pos n) k = pos (n / k)
quotient (negsuc n) k = elim ((n + 1) / k) [ zero ↦ pos 0 | suc q ↦ negsuc q ]

abbrev is_zero : ℤ → Bool
is_zero (pos n) = eqb n 0
is_zero (negsuc n) = false

unfoldable pub label : ℤ → Text
unfolding divides quotient
label m =
    if not (is_zero m) && divides 1440 m
    then show_signed (quotient m 1440) ++ (b'd' ∷ [])
    else if not (is_zero m) && divides 60 m
    then show_signed (quotient m 60) ++ (b'h' ∷ [])
    else show_signed m ++ (b'm' ∷ [])
