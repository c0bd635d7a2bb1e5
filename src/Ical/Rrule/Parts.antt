-- ===== src/Ical/Rrule/Parts.antt =====
-- crates/mgmt-ical/src/rrule.rs: the parts of a rule with a single value are read back.
use mgmtui.Base.{
  ap, ◌∙◌, Bool-cases, inl, inr, any, ℕ, ◌≤◌, ◌≡◌, refl, arith, Text, text, text_eq, false, Option,
  none, some, List, ◌∷◌, ◌++◌, ltb, eqb,
}
use mgmtui.Base.Result.{ok}
use mgmtui.Base.Decimal.{digits, parse_unsigned-digits}
use mgmtui.Base.Chars.{split_once-append, to_ascii_uppercase, upper_char, Lacks, any-Lacks}
use mgmtui.Domain.Instant.{Instant}
use mgmtui.Domain.Recurrence.{
  Frequency, Weekday, mon, tue, wed, thu, fri, sat, sun, ical_token, RecurrenceRule,
}
use mgmtui.Ical.Dates.{Dates, format_datetime}
use mgmtui.Ical.Dates.Laws.{Survives, parse_datetime-format_datetime}
use mgmtui.Ical.Rrule.Tokens.{
  to_ascii_uppercase-IsToken, ical_token-IsToken, from_ical_token-ical_token,
}
use mgmtui.Ical.Rrule.{
  option_part, interval_part, wkst_part, u32_top, Reading, read_part, parse_part, parse_parts,
  parse_until,
}

abbrev pub reading : Frequency → RecurrenceRule → Reading
reading f r = record { freq = some f; rule = r }

abbrev pub AllOption : {A : Type 0} → (A → Type 0) → Option A → Type 0
AllOption P none = Unit
AllOption P (some a) = P a

module _ (dates : Dates) where
  pub parse_part-key :
      (key val : Text) (s : Reading)
      → Lacks b'=' key
      → to_ascii_uppercase key ≡ key
      → parse_part dates (key ++ (b'=' ∷ val)) s ≡ read_part dates key val s
  unfolding parse_part
  parse_part-key key val s h e =
      rw (split_once-append b'=' key val h, parse_part) (ap (λ k. read_part dates k val s) e)

  pub parse_parts-cons :
      (part : Text) (rest : List Text) (s s' : Reading)
      → parse_part dates part s ≡ ok s'
      → parse_parts dates (part ∷ rest) s ≡ parse_parts dates rest s'
  unfolding parse_parts
  parse_parts-cons part rest s s' e = rw e

  parse_until-format_datetime :
      (t : Instant) → Survives dates t → parse_until dates (format_datetime dates t) ≡ ok t
  unfolding parse_until
  parse_until-format_datetime t h = rw (parse_datetime-format_datetime dates t h, parse_until) refl

  module _ (f : Frequency) (rest : List Text) (r : RecurrenceRule) where
    -- A part whose key stands in capital letters.
    pub named :
        (key val : Text) (s s' : Reading)
        → any (λ x. eqb x b'=') key ≡ false
        → to_ascii_uppercase key ≡ key
        → read_part dates key val s ≡ ok s'
        → parse_parts dates ((key ++ (b'=' ∷ val)) ∷ rest) s ≡ parse_parts dates rest s'
    named key val s s' h e read =
        parse_parts-cons _ rest s s' (parse_part-key key val s (any-Lacks b'=' key h) e ∙ read)

    read_wkst_token :
        (w : Weekday)
        → parse_parts dates
            ((text "WKST=" ++ ical_token w) ∷ rest)
            (reading f (record r { wkst = mon }))
          ≡ parse_parts dates rest (reading f (record r { wkst = w }))
    read_wkst_token w =
        named (text "WKST") (ical_token w) _ _ refl (unfold to_ascii_uppercase upper_char in refl) (
          unfold read_part text_eq in
          rw (
            to_ascii_uppercase-IsToken (ical_token w) (ical_token-IsToken w),
            from_ical_token-ical_token w,
          ))

    pub read_interval :
        1 ≤ r.interval
        → r.interval ≤ u32_top
        → parse_parts dates
            (interval_part r.interval ++ rest)
            (reading f (record r { interval = 1 }))
          ≡ parse_parts dates rest (reading f r)
    read_interval lo hi = elim (Bool-cases (ltb 1 r.interval)) [
      | inl e ↦ rw e (
          named (text "INTERVAL") (digits r.interval) _ _ refl
            (unfold to_ascii_uppercase upper_char in refl)
            (unfold read_part text_eq in rw (parse_unsigned-digits u32_top r.interval hi)))
      | inr e ↦
          rw e (
            ap (λ n. parse_parts dates rest (reading f (record r { interval = n }))) (ground arith))
    ]

    pub read_count :
        (c : Option ℕ)
        → AllOption (λ n. n ≤ u32_top) c
        → parse_parts dates
            (option_part (text "COUNT=") digits c ++ rest)
            (reading f (record r { count = none }))
          ≡ parse_parts dates rest (reading f (record r { count = c }))
    read_count none h = refl
    read_count (some n) h =
        named (text "COUNT") (digits n) _ _ refl (unfold to_ascii_uppercase upper_char in refl)
          (unfold read_part text_eq in rw (parse_unsigned-digits u32_top n h))

    pub read_until :
        (u : Option Instant)
        → AllOption (Survives dates) u
        → parse_parts dates
            (option_part (text "UNTIL=") (format_datetime dates) u ++ rest)
            (reading f (record r { until = none }))
          ≡ parse_parts dates rest (reading f (record r { until = u }))
    read_until none h = refl
    read_until (some t) h =
        named (text "UNTIL") (format_datetime dates t) _ _ refl
          (unfold to_ascii_uppercase upper_char in refl)
          (unfold read_part text_eq in rw (parse_until-format_datetime t h))

    pub read_wkst :
        (w : Weekday)
        → parse_parts dates (wkst_part w ++ rest) (reading f (record r { wkst = mon }))
          ≡ parse_parts dates rest (reading f (record r { wkst = w }))
    read_wkst mon = refl
    read_wkst tue = read_wkst_token tue
    read_wkst wed = read_wkst_token wed
    read_wkst thu = read_wkst_token thu
    read_wkst fri = read_wkst_token fri
    read_wkst sat = read_wkst_token sat
    read_wkst sun = read_wkst_token sun
