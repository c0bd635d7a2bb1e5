-- ===== src/Ical/Rrule/Separators.antt =====
-- crates/mgmt-ical/src/rrule.rs: the rules that can be written, and that no part of them holds a semicolon.
use mgmtui.Base.{
  any, ℕ, ◌≤◌, ◌≡◌, refl, Text, text, text_eq, contains, false, Option, none, some, List, [], ◌∷◌,
  map, eqb, All, All-append, Bool-cases, inl, inr, ltb,
}
use mgmtui.Base.Decimal.{digits, show_signed, Fits}
use mgmtui.Base.Int.{ℤ}
use mgmtui.Base.Chars.{to_ascii_uppercase, Lacks, any-Lacks, Lacks-append, Lacks-join}
use mgmtui.Domain.Instant.{Instant}
use mgmtui.Domain.Recurrence.{
  Frequency, daily, weekly, monthly, yearly, Weekday, mon, tue, wed, thu, fri, sat, sun, ical_token,
  RecurrenceRule,
}
use mgmtui.Ical.Dates.{Dates, format_datetime}
use mgmtui.Ical.Dates.Laws.{Survives}
use mgmtui.Ical.Rrule.{
  freq_token, byday_token, list_part, option_part, interval_part, wkst_part, extra_part,
  rrule_parts, u32_top,
}
use mgmtui.Ical.Rrule.Tokens.{
  FitsByDay, IsToken-Lacks, digits-IsToken, show_signed-IsToken, byday_token-IsToken,
}
use mgmtui.Ical.Rrule.Parts.{AllOption}

abbrev pub part_keys : List Text
part_keys =
    text "FREQ"
    ∷ text "INTERVAL"
    ∷ text "COUNT"
    ∷ text "UNTIL"
    ∷ text "BYDAY"
    ∷ text "BYMONTHDAY"
    ∷ text "BYMONTH"
    ∷ text "BYSETPOS"
    ∷ text "WKST"
    ∷ []

-- A part that the program does not model: its key is in capital letters and none of the known ones,
-- and neither side holds a separator.
abbrev pub IsForeign : Text × Text → Type 0
IsForeign (k, v) =
    (contains part_keys k ≡ false)
    × (to_ascii_uppercase k ≡ k)
    × Lacks b'=' k
    × Lacks b';' k
    × Lacks b';' v

module _ (dates : Dates) where
  -- The number fields are values of their types, the interval is not 0, an instant can be read back,
  -- and the other parts are foreign.
  abbrev pub IsRule : RecurrenceRule → Type 0
  IsRule r =
      (1 ≤ r.interval)
      × (r.interval ≤ u32_top)
      × AllOption (λ n. n ≤ u32_top) r.count
      × AllOption (λ t. Survives dates t × Lacks b';' (format_datetime dates t)) r.until
      × All FitsByDay r.by_weekday
      × All (Fits 127) r.by_monthday
      × All (λ n. n ≤ 255) r.by_month
      × All (Fits 32767) r.by_setpos
      × All IsForeign r.extra

  Lacks-list_part :
      {A : Type 0} (key : Text) (show : A → Text) (xs : List A)
      → Lacks b';' key
      → ((x : A) → Lacks b';' (show x))
      → All (Lacks b';') (list_part key show xs)
  Lacks-list_part key show [] k h = tt
  Lacks-list_part {A} key show (x ∷ xs) k h =
      (Lacks-append b';' key _ k (Lacks-join b';' b',' _ refl (each (x ∷ xs))), tt)
    where
      each : (ys : List A) → All (Lacks b';') (map show ys)
      each [] = tt
      each (y ∷ ys) = (h y, each ys)

  Lacks-freq_token : (f : Frequency) → Lacks b';' (freq_token f)
  unfolding freq_token
  Lacks-freq_token daily = any-Lacks b';' (text "DAILY") refl
  Lacks-freq_token weekly = any-Lacks b';' (text "WEEKLY") refl
  Lacks-freq_token monthly = any-Lacks b';' (text "MONTHLY") refl
  Lacks-freq_token yearly = any-Lacks b';' (text "YEARLY") refl

  Lacks-digits : (n : ℕ) → Lacks b';' (digits n)
  Lacks-digits n = IsToken-Lacks b';' (digits n) refl (digits-IsToken n)

  Lacks-show_signed : (z : ℤ) → Lacks b';' (show_signed z)
  Lacks-show_signed z = IsToken-Lacks b';' (show_signed z) refl (show_signed-IsToken z)

  Lacks-interval_part : (n : ℕ) → All (Lacks b';') (interval_part n)
  Lacks-interval_part n = elim (Bool-cases (ltb 1 n)) [
    | inl e ↦ rw e (
      Lacks-append b';' (text "INTERVAL=") (digits n) (any-Lacks b';' (text "INTERVAL=") refl)
          (Lacks-digits n),
      tt,
    )
    | inr e ↦ rw e tt
  ]

  Lacks-option_part :
      {A : Type 0} (key : Text) (show : A → Text) (o : Option A)
      → Lacks b';' key
      → AllOption (λ x. Lacks b';' (show x)) o
      → All (Lacks b';') (option_part key show o)
  Lacks-option_part key show none k h = tt
  Lacks-option_part key show (some x) k h = (Lacks-append b';' key (show x) k h, tt)

  Lacks-wkst_part : (w : Weekday) → All (Lacks b';') (wkst_part w)
  unfolding ical_token
  Lacks-wkst_part mon = tt
  Lacks-wkst_part tue = (any-Lacks b';' (text "WKST=TU") refl, tt)
  Lacks-wkst_part wed = (any-Lacks b';' (text "WKST=WE") refl, tt)
  Lacks-wkst_part thu = (any-Lacks b';' (text "WKST=TH") refl, tt)
  Lacks-wkst_part fri = (any-Lacks b';' (text "WKST=FR") refl, tt)
  Lacks-wkst_part sat = (any-Lacks b';' (text "WKST=SA") refl, tt)
  Lacks-wkst_part sun = (any-Lacks b';' (text "WKST=SU") refl, tt)

  Lacks-extra : (xs : List (Text × Text)) → All IsForeign xs → All (Lacks b';') (map extra_part xs)
  Lacks-extra [] h = tt
  Lacks-extra ((k, v) ∷ xs) h =
      (Lacks-append b';' k (b'=' ∷ v) h.0.3 (refl, h.0.4), Lacks-extra xs h.1)

  lacking : (c : Option ℕ) → AllOption (λ n. Lacks b';' (digits n)) c
  lacking none = tt
  lacking (some n) = Lacks-digits n

  lacking_until :
      (u : Option Instant)
      → AllOption (λ t. Survives dates t × Lacks b';' (format_datetime dates t)) u
      → AllOption (λ t. Lacks b';' (format_datetime dates t)) u
  lacking_until none h = tt
  lacking_until (some t) h = h.1

  pub Lacks-rrule_parts : (r : RecurrenceRule) → IsRule r → All (Lacks b';') (rrule_parts dates r)
  unfolding rrule_parts
  Lacks-rrule_parts r h =
      let key : (k : Text) → any (λ x. eqb x b';') k ≡ false → Lacks b';' k = any-Lacks b';' in
      (
        Lacks-append b';' (text "FREQ=") (freq_token r.freq) (key (text "FREQ=") refl)
            (Lacks-freq_token r.freq),
        All-append (Lacks b';') _ _ (Lacks-interval_part r.interval) (
            All-append (Lacks b';') _ _
              (Lacks-option_part (text "COUNT=") digits r.count (key (text "COUNT=") refl)
                (lacking r.count))
              (All-append (Lacks b';') _ _
                (Lacks-option_part (text "UNTIL=") (format_datetime dates) r.until
                  (key (text "UNTIL=") refl) (lacking_until r.until h.3))
                (All-append (Lacks b';') _ _
                  (Lacks-list_part (text "BYDAY=") byday_token r.by_weekday
                    (key (text "BYDAY=") refl)
                    (λ x. IsToken-Lacks b';' _ refl (byday_token-IsToken x)))
                  (All-append (Lacks b';') _ _
                    (Lacks-list_part (text "BYMONTHDAY=") show_signed r.by_monthday
                      (key (text "BYMONTHDAY=") refl) Lacks-show_signed)
                    (All-append (Lacks b';') _ _
                      (Lacks-list_part (text "BYMONTH=") digits r.by_month
                        (key (text "BYMONTH=") refl) Lacks-digits)
                      (All-append (Lacks b';') _ _
                        (Lacks-list_part (text "BYSETPOS=") show_signed r.by_setpos
                          (key (text "BYSETPOS=") refl) Lacks-show_signed)
                        (All-append (Lacks b';') _ _ (Lacks-wkst_part r.wkst)
                          (Lacks-extra r.extra h.8)))))))),
      )
