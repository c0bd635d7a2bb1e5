-- ===== src/Ical/Rrule/Lists.antt =====
-- crates/mgmt-ical/src/rrule.rs: the parts of a rule with lists of values are read back.
use mgmtui.Base.{
  ap, ◌∙◌, ℕ, ◌≤◌, ◌≡◌, refl, Text, text, text_eq, List, [], ◌∷◌, ◌++◌, map, All, All-map,
}
use mgmtui.Base.Int.{ℤ}
use mgmtui.Base.Result.{Result, ok}
use mgmtui.Base.Decimal.{digits, show_signed, Fits, parse_unsigned-digits, parse_signed-show_signed}
use mgmtui.Base.Chars.{split-join, join, to_ascii_uppercase, upper_char, Lacks}
use mgmtui.Domain.Recurrence.{Frequency, ByDay, RecurrenceRule}
use mgmtui.Ical.Dates.{Dates}
use mgmtui.Ical.Rrule.Tokens.{
  IsToken-Lacks, digits-IsToken, show_signed-IsToken, byday_token-IsToken, FitsByDay,
  parse_byday-byday_token,
}
use mgmtui.Ical.Rrule.Parts.{named, reading}
use mgmtui.Ical.Rrule.{
  byday_token, list_part, RruleError, parse_byday, parse_each, parse_list, parse_monthday,
  parse_month, parse_setpos, read_part, parse_parts,
}

module _ {A : Type 0} (f : Text → Result RruleError A) (show : A → Text) where
  parse_each-map :
      (xs : List A) → All (λ x. f (show x) ≡ ok x) xs → parse_each f (map show xs) ≡ ok xs
  unfolding parse_each
  parse_each-map [] h = refl
  parse_each-map (x ∷ xs) h = rw (h.0, parse_each-map xs h.1)

  parse_list-join :
      (x : A) (xs : List A)
      → All (λ x. (f (show x) ≡ ok x) × Lacks b',' (show x)) (x ∷ xs)
      → parse_list f (join b',' (map show (x ∷ xs))) ≡ ok (x ∷ xs)
  parse_list-join x xs h =
      ap (parse_each f) (split-join b',' (show x) (map show xs) (All_map-lacks (x ∷ xs) h))
      ∙ parse_each-map (x ∷ xs) (All-map _ _ (λ y p. p.0) (x ∷ xs) h)
    where
      All_map-lacks :
          (ys : List A)
          → All (λ x. (f (show x) ≡ ok x) × Lacks b',' (show x)) ys
          → All (Lacks b',') (map show ys)
      All_map-lacks [] h = tt
      All_map-lacks (y ∷ ys) h = (h.0.1, All_map-lacks ys h.1)

module _ (dates : Dates) where
  module _ (f : Frequency) (rest : List Text) (r : RecurrenceRule) where
    pub read_weekdays :
        (xs : List ByDay)
        → All FitsByDay xs
        → parse_parts dates
            (list_part (text "BYDAY=") byday_token xs ++ rest)
            (reading f (record r { by_weekday = [] }))
          ≡ parse_parts dates rest (reading f (record r { by_weekday = xs }))
    read_weekdays [] h = refl
    read_weekdays (x ∷ xs) h =
        named dates f rest r (text "BYDAY") _ _ _ refl
          (unfold to_ascii_uppercase upper_char in refl)
          (unfold read_part text_eq in
            rw (
              parse_list-join parse_byday byday_token x xs (
                All-map _ _
                  (λ y k. (
                    parse_byday-byday_token y k,
                    IsToken-Lacks b',' _ refl (byday_token-IsToken y),
                  ))
                  (x ∷ xs) h)))

    pub read_monthdays :
        (xs : List ℤ)
        → All (Fits 127) xs
        → parse_parts dates
            (list_part (text "BYMONTHDAY=") show_signed xs ++ rest)
            (reading f (record r { by_monthday = [] }))
          ≡ parse_parts dates rest (reading f (record r { by_monthday = xs }))
    read_monthdays [] h = refl
    read_monthdays (x ∷ xs) h =
        named dates f rest r (text "BYMONTHDAY") _ _ _ refl
          (unfold to_ascii_uppercase upper_char in refl)
          (unfold read_part text_eq in
            rw (
              parse_list-join parse_monthday show_signed x xs (
                All-map _ _
                  (λ y k. (
                    rw (parse_signed-show_signed 127 y k),
                    IsToken-Lacks b',' _ refl (show_signed-IsToken y),
                  ))
                  (x ∷ xs) h)))

    pub read_months :
        (xs : List ℕ)
        → All (λ n. n ≤ 255) xs
        → parse_parts dates
            (list_part (text "BYMONTH=") digits xs ++ rest)
            (reading f (record r { by_month = [] }))
          ≡ parse_parts dates rest (reading f (record r { by_month = xs }))
    read_months [] h = refl
    read_months (x ∷ xs) h =
        named dates f rest r (text "BYMONTH") _ _ _ refl
          (unfold to_ascii_uppercase upper_char in refl)
          (unfold read_part text_eq in
            rw (
              parse_list-join parse_month digits x xs (
                All-map _ _
                  (λ y k. (
                    rw (parse_unsigned-digits 255 y k),
                    IsToken-Lacks b',' _ refl (digits-IsToken y),
                  ))
                  (x ∷ xs) h)))

    pub read_setpos :
        (xs : List ℤ)
        → All (Fits 32767) xs
        → parse_parts dates
            (list_part (text "BYSETPOS=") show_signed xs ++ rest)
            (reading f (record r { by_setpos = [] }))
          ≡ parse_parts dates rest (reading f (record r { by_setpos = xs }))
    read_setpos [] h = refl
    read_setpos (x ∷ xs) h =
        named dates f rest r (text "BYSETPOS") _ _ _ refl
          (unfold to_ascii_uppercase upper_char in refl)
          (unfold read_part text_eq in
            rw (
              parse_list-join parse_setpos show_signed x xs (
                All-map _ _
                  (λ y k. (
                    rw (parse_signed-show_signed 32767 y k),
                    IsToken-Lacks b',' _ refl (show_signed-IsToken y),
                  ))
                  (x ∷ xs) h)))
