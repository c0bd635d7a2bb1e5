-- ===== src/Domain/Reminder/Laws.antt =====
-- crates/mgmt-domain/src/reminder.rs: a printed offset reads back.
use mgmtui.Base.{
  inr, inl, refl, ◌%◌, ◌&&◌, eqb, not, Bool-cases, ap, ℕ, ◌*◌, ◌/◌, ◌≤◌, ◌≡◌, ◌∙◌, arith, true,
  false, some, [], ◌∷◌, ◌++◌, All-map,
}
use mgmtui.Base.Int.{pos}
use mgmtui.Base.Decimal.{
  parse_signed-digits, is_digit, digits, digits_cons, digits-All, show_signed,
}
use mgmtui.Base.Chars.{trim, trim-snoc, trim-NotWhite, NotWhite, split_last-snoc, is_white}
use mgmtui.Domain.Reminder.{i64_top, wrap_i64, scaled, parse_unit, parse, label}

digit-white : (c : ℕ) → is_digit c ≡ true → is_white c ≡ false
unfolding is_white
digit-white c h = ground arith

digits-NotWhite : (n : ℕ) → NotWhite (digits n)
digits-NotWhite n = All-map _ _ digit-white (digits n) (digits-All n)

wrap_i64-le : (n : ℕ) → n ≤ i64_top → wrap_i64 n ≡ pos n
unfolding wrap_i64
wrap_i64-le n h = ground arith

scaled-digits :
    (n mult : ℕ) → n ≤ i64_top → n * mult ≤ i64_top → scaled (digits n) mult ≡ some (pos (n * mult))
unfolding scaled
scaled-digits n mult h k =
    rw (trim-NotWhite (digits n) (digits-NotWhite n), scaled)
      (rw (parse_signed-digits i64_top n h) (ap some (wrap_i64-le (n * mult) k)))

trim-number :
    (n unit : ℕ) → is_white unit ≡ false → trim (digits n ++ (unit ∷ [])) ≡ digits n ++ (unit ∷ [])
trim-number n unit h =
    let (c, cs, e, d) = digits_cons n in rw e (trim-snoc c cs unit (digit-white c d) h)

parse-digits :
    (n unit : ℕ)
    → is_white unit ≡ false
    → parse (digits n ++ (unit ∷ [])) ≡ parse_unit (digits n ++ (unit ∷ [])) (digits n) unit
unfolding parse
parse-digits n unit h =
    rw (trim-number n unit h, parse) (rw split_last-snoc (rw (trim-number n unit h)))

-- The offset with the unit that `label` prints.
parse_back :
    (n unit mult : ℕ)
    → is_white unit ≡ false
    → parse_unit (digits n ++ (unit ∷ [])) (digits n) unit ≡ scaled (digits n) mult
    → n * mult ≤ i64_top
    → n ≤ i64_top
    → parse (digits n ++ (unit ∷ [])) ≡ some (pos (n * mult))
parse_back n unit mult w u h k = parse-digits n unit w ∙ u ∙ scaled-digits n mult k h

plain : (is_white b'd' ≡ false) × (is_white b'h' ≡ false) × (is_white b'm' ≡ false)
unfolding is_white
plain = (refl, refl, refl)

by_unit :
    (m n unit mult : ℕ)
    → is_white unit ≡ false
    → parse_unit (digits n ++ (unit ∷ [])) (digits n) unit ≡ scaled (digits n) mult
    → n * mult ≡ m
    → m ≤ i64_top
    → n ≤ i64_top
    → parse (digits n ++ (unit ∷ [])) ≡ some (pos m)
by_unit m n unit mult w u e h k =
    parse_back n unit mult w u (omega arith) k ∙ ap (λ t. some (pos t)) e

-- Every offset that is not negative and fits `i64` reads back from what `label` prints.
pub parse-label : (m : ℕ) → m ≤ i64_top → parse (label (pos m)) ≡ some (pos m)
unfolding label show_signed parse_unit
parse-label m h = elim (Bool-cases (not (eqb m 0) && eqb (m % 1440) 0)) [
  | inl days ↦ rw days (by_unit m (m / 1440) b'd' 1440 plain.0 refl (ground arith) h (omega arith))
  | inr odd ↦ rw odd (elim (Bool-cases (not (eqb m 0) && eqb (m % 60) 0)) [
    | inl hours ↦ rw hours (by_unit m (m / 60) b'h' 60 plain.1 refl (ground arith) h (omega arith))
    | inr minutes ↦ rw minutes (by_unit m m b'm' 1 plain.2 refl (omega arith) h h)
  ])
]
