-- ===== src/Ical/Rrule/Tokens.antt =====
-- crates/mgmt-ical/src/rrule.rs: the tokens of a rule are read back.
use mgmtui.Base.{
  inr, inl, Option-cases, ap, ◌∙◌, ℕ, suc, ◌-◌, ◌≡◌, refl, arith, Text, text_eq, Bool, true, false,
  ◌&&◌, ◌||◌, Option, none, some, [], ◌∷◌, ◌++◌, length, take, drop, get_elem?, leb, ltb, eqb, All,
  All-map, All-append,
}
use mgmtui.Base.Int.{ℤ, pos, negsuc}
use mgmtui.Base.Result.{ok}
use mgmtui.Base.Decimal.{
  digits, digits-All, digits_cons, is_digit, show_signed, Fits, parse_signed-show_signed,
}
use mgmtui.Base.Chars.{upper_char, to_ascii_uppercase, is_white, Lacks}
use mgmtui.Base.Utf8.{IsPlainText, trim_utf8-IsPlainText}
use mgmtui.Domain.Recurrence.{
  Frequency, daily, weekly, monthly, yearly, Weekday, mon, tue, wed, thu, fri, sat, sun, ical_token,
  from_ical_token, ByDay,
}
use mgmtui.Ical.Value.{is_boundary, is_continuation}
use mgmtui.Ical.Rrule.{
  freq_token, byday_token, parse_freq, parse_byday, parse_byday_upper, parse_ordinal, trim_plus,
}

-- Digits, the minus sign and capital letters.
abbrev is_token_char : ℕ → Bool
is_token_char c = is_digit c || eqb c b'-' || (leb b'A' c && leb c b'Z')

abbrev pub IsToken : Text → Type 0
IsToken = All (λ c. is_token_char c ≡ true)

pub IsToken-Lacks : (sep : ℕ) (t : Text) → is_token_char sep ≡ false → IsToken t → Lacks sep t
IsToken-Lacks sep t e h = All-map _ _ (λ c k. ground arith) t h

IsToken-IsPlainText : (t : Text) → IsToken t → IsPlainText t
unfolding is_white
IsToken-IsPlainText t h = All-map _ _ (λ c k. ground arith) t h

pub to_ascii_uppercase-IsToken : (t : Text) → IsToken t → to_ascii_uppercase t ≡ t
unfolding to_ascii_uppercase upper_char
to_ascii_uppercase-IsToken [] h = refl
to_ascii_uppercase-IsToken (c ∷ t) h = ground (arith, to_ascii_uppercase-IsToken t h.1)

pub digits-IsToken : (n : ℕ) → IsToken (digits n)
digits-IsToken n = All-map _ _ (λ c k. ground arith) (digits n) (digits-All n)

pub show_signed-IsToken : (z : ℤ) → IsToken (show_signed z)
unfolding show_signed
show_signed-IsToken (pos n) = digits-IsToken n
show_signed-IsToken (negsuc n) = (refl, digits-IsToken (suc n))

pub ical_token-IsToken : (w : Weekday) → IsToken (ical_token w)
unfolding ical_token
ical_token-IsToken mon = (refl, (refl, tt))
ical_token-IsToken tue = (refl, (refl, tt))
ical_token-IsToken wed = (refl, (refl, tt))
ical_token-IsToken thu = (refl, (refl, tt))
ical_token-IsToken fri = (refl, (refl, tt))
ical_token-IsToken sat = (refl, (refl, tt))
ical_token-IsToken sun = (refl, (refl, tt))

pub byday_token-IsToken : (bd : ByDay) → IsToken (byday_token bd)
unfolding byday_token
byday_token-IsToken bd = elim (Option-cases bd.ordinal) [
  | inl e ↦ rw e (ical_token-IsToken bd.weekday)
  | inr (n, e) ↦ rw e (
      All-append _ (show_signed n) (ical_token bd.weekday) (show_signed-IsToken n)
        (ical_token-IsToken bd.weekday))
]

pub parse_freq-freq_token : (f : Frequency) → parse_freq (freq_token f) ≡ ok f
unfolding parse_freq freq_token to_ascii_uppercase text_eq upper_char
parse_freq-freq_token daily = refl
parse_freq-freq_token weekly = refl
parse_freq-freq_token monthly = refl
parse_freq-freq_token yearly = refl

pub from_ical_token-ical_token : (w : Weekday) → from_ical_token (ical_token w) ≡ some w
unfolding from_ical_token ical_token text_eq
from_ical_token-ical_token mon = refl
from_ical_token-ical_token tue = refl
from_ical_token-ical_token wed = refl
from_ical_token-ical_token thu = refl
from_ical_token-ical_token fri = refl
from_ical_token-ical_token sat = refl
from_ical_token-ical_token sun = refl

length-snoc_two : (xs : Text) (a b : ℕ) → length (xs ++ (a ∷ b ∷ [])) ≡ suc (suc (length xs))
length-snoc_two [] a b = refl
length-snoc_two (x ∷ xs) a b = ap suc (length-snoc_two xs a b)

take-length-append : (xs ys : Text) → take (length xs) (xs ++ ys) ≡ xs
take-length-append [] ys = refl
take-length-append (x ∷ xs) ys = ap (λ t. x ∷ t) (take-length-append xs ys)

drop-length-append : (xs ys : Text) → drop (length xs) (xs ++ ys) ≡ ys
drop-length-append [] ys = refl
drop-length-append (x ∷ xs) ys = drop-length-append xs ys

get_elem?-length-append :
    (xs : Text) (y : ℕ) (ys : Text) → get_elem? (xs ++ (y ∷ ys)) (length xs) ≡ some y
get_elem?-length-append [] y ys = refl
get_elem?-length-append (x ∷ xs) y ys = get_elem?-length-append xs y ys

-- The two parts of a token: the ordinal and the day, of two single-byte characters.
parse_byday_upper-append :
    (tok ord : Text) (a b : ℕ) (w : Weekday)
    → ltb a 128 ≡ true
    → from_ical_token (a ∷ b ∷ []) ≡ some w
    → parse_byday_upper tok (ord ++ (a ∷ b ∷ [])) ≡ parse_ordinal tok ord w
unfolding is_boundary is_continuation parse_byday_upper
parse_byday_upper-append tok ord a b w h e =
    let t = ord ++ (a ∷ b ∷ []) in
    let size : length t ≡ suc (suc (length ord)) = length-snoc_two ord a b in
    let cut : length t - 2 ≡ length ord = omega (arith, size) in
    let enough : ltb (length t) 2 ≡ false = ground (arith, size) in
    let sound : is_boundary t (length ord) ≡ true =
      rw (get_elem?-length-append ord a (b ∷ []), is_boundary) (ground arith) in
    rw
      (
        enough,
        cut,
        sound,
        drop-length-append ord (a ∷ b ∷ []),
        take-length-append ord (a ∷ b ∷ []),
        e,
        parse_byday_upper,
      )
      refl

parse_byday_upper-ical_token :
    (tok ord : Text) (w : Weekday)
    → parse_byday_upper tok (ord ++ ical_token w) ≡ parse_ordinal tok ord w
unfolding ical_token
parse_byday_upper-ical_token tok ord mon =
    parse_byday_upper-append tok ord _ _ mon refl (from_ical_token-ical_token mon)
parse_byday_upper-ical_token tok ord tue =
    parse_byday_upper-append tok ord _ _ tue refl (from_ical_token-ical_token tue)
parse_byday_upper-ical_token tok ord wed =
    parse_byday_upper-append tok ord _ _ wed refl (from_ical_token-ical_token wed)
parse_byday_upper-ical_token tok ord thu =
    parse_byday_upper-append tok ord _ _ thu refl (from_ical_token-ical_token thu)
parse_byday_upper-ical_token tok ord fri =
    parse_byday_upper-append tok ord _ _ fri refl (from_ical_token-ical_token fri)
parse_byday_upper-ical_token tok ord sat =
    parse_byday_upper-append tok ord _ _ sat refl (from_ical_token-ical_token sat)
parse_byday_upper-ical_token tok ord sun =
    parse_byday_upper-append tok ord _ _ sun refl (from_ical_token-ical_token sun)

trim_plus-Lacks : (t : Text) → Lacks b'+' t → trim_plus t ≡ t
unfolding trim_plus
trim_plus-Lacks [] h = refl
trim_plus-Lacks (c ∷ t) h = rw h.0

show_signed_cons : (z : ℤ) → (c : ℕ) × (cs : Text) × (show_signed z ≡ c ∷ cs)
unfolding show_signed
show_signed_cons (pos n) = let (c, cs, e, _) = digits_cons n in (c, cs, e)
show_signed_cons (negsuc n) = (b'-', digits (suc n), refl)

parse_ordinal-show_signed :
    (tok : Text) (z : ℤ) (w : Weekday)
    → Fits 127 z
    → parse_ordinal tok (show_signed z) w ≡ ok (record { weekday = w; ordinal = some z })
unfolding parse_ordinal
parse_ordinal-show_signed tok z w h =
    let (c, cs, e) = show_signed_cons z in
    let plain =
      trim_plus-Lacks (show_signed z)
        (IsToken-Lacks b'+' (show_signed z) refl (show_signed-IsToken z)) in
    let back = parse_signed-show_signed 127 z h in rw e (rw (rw e at plain, rw e at back))

-- The ordinal fits an `i8`.
abbrev pub FitsByDay : ByDay → Type 0
FitsByDay bd = elim bd.ordinal [ none ↦ Unit | some n ↦ Fits 127 n ]

parse_byday_upper-byday_token :
    (tok : Text) (w : Weekday) (o : Option ℤ)
    → FitsByDay (record { weekday = w; ordinal = o })
    → parse_byday_upper tok (byday_token (record { weekday = w; ordinal = o }))
      ≡ ok (record { weekday = w; ordinal = o })
unfolding byday_token
parse_byday_upper-byday_token tok w none h =
    parse_byday_upper-ical_token tok [] w ∙ unfold parse_ordinal in refl
parse_byday_upper-byday_token tok w (some n) h =
    parse_byday_upper-ical_token tok (show_signed n) w ∙ parse_ordinal-show_signed tok n w h

pub parse_byday-byday_token : (bd : ByDay) → FitsByDay bd → parse_byday (byday_token bd) ≡ ok bd
unfolding parse_byday
parse_byday-byday_token bd h =
    let safe = byday_token-IsToken bd in
    rw
      (
        trim_utf8-IsPlainText (byday_token bd) (IsToken-IsPlainText _ safe),
        to_ascii_uppercase-IsToken (byday_token bd) safe,
      )
      (parse_byday_upper-byday_token (byday_token bd) bd.weekday bd.ordinal h)
