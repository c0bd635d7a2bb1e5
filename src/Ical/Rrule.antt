-- ===== src/Ical/Rrule.antt =====
-- crates/mgmt-ical/src/rrule.rs: recurrence rules as text. Texts are UTF-8 bytes.
pub mod Parts
pub mod Lists
pub mod RoundTrip
pub mod Separators
pub mod Panics
pub mod Tokens
use mgmtui.Base.{
  ℕ, ◌-◌, ◌*◌, ◌+◌, Text, text, text_eq, ◌==◌, Bool, true, false, not, Option, none, some, List, [],
  ◌∷◌, ◌++◌, map, length, take, drop, ltb, eqb, if◌then◌else◌,
}
use mgmtui.Base.Int.{ℤ}
use mgmtui.Base.Result.{Result, ok, err, ◌>>=◌, ok_or}
use mgmtui.Base.Decimal.{digits, show_signed, parse_unsigned, parse_signed}
use mgmtui.Base.Chars.{split, split_once, join, to_ascii_uppercase}
use mgmtui.Base.Utf8.{trim_utf8}
use mgmtui.Domain.Instant.{Instant, day, second}
use mgmtui.Domain.Recurrence.{
  Frequency, daily, weekly, monthly, yearly, Weekday, mon, ical_token, from_ical_token, ByDay,
  RecurrenceRule, every,
}
use mgmtui.Ical.Value.{is_boundary}
use mgmtui.Ical.Dates.{Dates, format_datetime, parse_datetime, parse_date}

unfoldable pub freq_token : Frequency → Text
freq_token daily = text "DAILY"
freq_token weekly = text "WEEKLY"
freq_token monthly = text "MONTHLY"
freq_token yearly = text "YEARLY"

unfoldable pub byday_token : ByDay → Text
byday_token bd = elim bd.ordinal [
  | some n ↦ show_signed n ++ ical_token bd.weekday
  | none ↦ ical_token bd.weekday
]

-- A part with a list of values, left out if there are none.
abbrev pub list_part : {A : Type 0} → Text → (A → Text) → List A → List Text
list_part key show [] = []
list_part key show (x ∷ xs) = (key ++ join b',' (map show (x ∷ xs))) ∷ []

abbrev pub option_part : {A : Type 0} → Text → (A → Text) → Option A → List Text
option_part key show none = []
option_part key show (some x) = (key ++ show x) ∷ []

abbrev pub interval_part : ℕ → List Text
interval_part n = if ltb 1 n then (text "INTERVAL=" ++ digits n) ∷ [] else []

-- `rule.wkst != Weekday::Mon`
abbrev pub wkst_part : Weekday → List Text
wkst_part mon = []
wkst_part w = (text "WKST=" ++ ical_token w) ∷ []

abbrev pub extra_part : Text × Text → Text
extra_part (k, v) = k ++ (b'=' ∷ v)

module _ (dates : Dates) where
  -- The parts that `to_rrule` joins.
  unfoldable pub rrule_parts : RecurrenceRule → List Text
  rrule_parts r =
      (text "FREQ=" ++ freq_token r.freq)
      ∷ (interval_part r.interval
          ++ (option_part (text "COUNT=") digits r.count
              ++ (option_part (text "UNTIL=") (format_datetime dates) r.until
                  ++ (list_part (text "BYDAY=") byday_token r.by_weekday
                      ++ (list_part (text "BYMONTHDAY=") show_signed r.by_monthday
                          ++ (list_part (text "BYMONTH=") digits r.by_month
                              ++ (list_part (text "BYSETPOS=") show_signed r.by_setpos
                                  ++ (wkst_part r.wkst ++ map extra_part r.extra))))))))

  unfoldable pub to_rrule : RecurrenceRule → Text
  to_rrule r = join b';' (rrule_parts r)

-- The parse errors, and `panic` for a slice that would cut a character.
pub data RruleError : Type 0 where
  bad_part bad_interval bad_count bad_until bad_byday bad_monthday bad_month : Text → RruleError
  bad_setpos bad_wkst unsupported_freq : Text → RruleError
  missing_freq panic : RruleError

unfoldable pub parse_freq : Text → Result RruleError Frequency
parse_freq s =
    let upper = to_ascii_uppercase s in
    if upper == text "DAILY"
    then ok daily
    else if upper == text "WEEKLY"
    then ok weekly
    else if upper == text "MONTHLY"
    then ok monthly
    else if upper == text "YEARLY"
    then ok yearly
    else err (unsupported_freq upper)

-- `p.trim_start_matches('+')`
unfoldable pub trim_plus : Text → Text
trim_plus [] = []
trim_plus (c ∷ cs) = let rest = trim_plus cs in if eqb c b'+' then rest else c ∷ cs

-- The ordinal is an `i8`.
unfoldable pub parse_ordinal : Text → Text → Weekday → Result RruleError ByDay
parse_ordinal tok [] w = ok (record { weekday = w; ordinal = none })
parse_ordinal tok (c ∷ cs) w = do
  n ← ok_or (parse_signed 127 (trim_plus (c ∷ cs))) (bad_byday tok)
  ok (record { weekday = w; ordinal = some n })

-- `t` is the trimmed token in upper case. Its last two bytes are the day.
unfoldable pub parse_byday_upper : Text → Text → Result RruleError ByDay
parse_byday_upper tok t =
    let split = length t - 2 in
    if ltb (length t) 2
    then err (bad_byday tok)
    else if not (is_boundary t split)
    then err panic
    else do
      w ← ok_or (from_ical_token (drop split t)) (bad_byday tok)
      parse_ordinal tok (take split t) w

unfoldable pub parse_byday : Text → Result RruleError ByDay
parse_byday tok = parse_byday_upper tok (to_ascii_uppercase (trim_utf8 tok))

-- The loop over the values of a list.
unfoldable pub parse_each :
    {A : Type 0} → (Text → Result RruleError A) → List Text → Result RruleError (List A)
parse_each f [] = ok []
parse_each f (t ∷ ts) = do x ← f t; xs ← parse_each f ts; ok (x ∷ xs)

abbrev pub parse_list :
    {A : Type 0} → (Text → Result RruleError A) → Text → Result RruleError (List A)
parse_list f val = parse_each f (split b',' val)

-- `i8`, `u8` and `i16`.
abbrev pub parse_monthday : Text → Result RruleError ℤ
parse_monthday t = ok_or (parse_signed 127 t) (bad_monthday t)

abbrev pub parse_month : Text → Result RruleError ℕ
parse_month t = ok_or (parse_unsigned 255 t) (bad_month t)

abbrev pub parse_setpos : Text → Result RruleError ℤ
parse_setpos t = ok_or (parse_signed 32767 t) (bad_setpos t)

abbrev pub u32_top : ℕ
u32_top = 4294967295

-- The two variables of the loop of `from_rrule`.
pub record Reading : Type 0 where
  pub freq : Option Frequency
  pub rule : RecurrenceRule

abbrev pub initial : Reading
initial = record { freq = none; rule = every daily 1 }

unfoldable pub rule_of : Reading → Result RruleError RecurrenceRule
rule_of s = do f ← ok_or s.freq missing_freq; ok (record s.rule { freq = f })

-- `end_of_day` at the midnight of a date.
abbrev pub end_of_day : Instant → Instant
end_of_day midnight = midnight + 86_399 * second

module _ (dates : Dates) where
  unfoldable pub parse_until : Text → Result RruleError Instant
  parse_until val = elim (parse_datetime dates val) [
    | some t ↦ ok t
    | none ↦ elim (parse_date dates val) [ some d ↦ ok (end_of_day d) | none ↦ err (bad_until val) ]
  ]

  -- The match on the key of a part, in upper case.
  unfoldable pub read_part : Text → Text → Reading → Result RruleError Reading
  read_part key val s =
      let r = s.rule in
      if key == text "FREQ"
      then (do f ← parse_freq val; ok (record s { freq = some f }))
      else if key == text "INTERVAL"
      then (do
        n ← ok_or (parse_unsigned u32_top val) (bad_interval val)
        ok (record s { rule = record r { interval = n } }))
      else if key == text "COUNT"
      then (do
        n ← ok_or (parse_unsigned u32_top val) (bad_count val)
        ok (record s { rule = record r { count = some n } }))
      else if key == text "UNTIL"
      then (do t ← parse_until val; ok (record s { rule = record r { until = some t } }))
      else if key == text "BYDAY"
      then (do
        xs ← parse_list parse_byday val
        ok (record s { rule = record r { by_weekday = r.by_weekday ++ xs } }))
      else if key == text "BYMONTHDAY"
      then (do
        xs ← parse_list parse_monthday val
        ok (record s { rule = record r { by_monthday = r.by_monthday ++ xs } }))
      else if key == text "BYMONTH"
      then (do
        xs ← parse_list parse_month val
        ok (record s { rule = record r { by_month = r.by_month ++ xs } }))
      else if key == text "BYSETPOS"
      then (do
        xs ← parse_list parse_setpos val
        ok (record s { rule = record r { by_setpos = r.by_setpos ++ xs } }))
      else if key == text "WKST"
      then (do
        w ← ok_or (from_ical_token (to_ascii_uppercase val)) (bad_wkst val)
        ok (record s { rule = record r { wkst = w } }))
      else ok (record s { rule = record r { extra = r.extra ++ ((key, val) ∷ []) } })

  unfoldable pub parse_part : Text → Reading → Result RruleError Reading
  parse_part part s = elim (split_once b'=' part) [
    | none ↦ err (bad_part part)
    | some (key, val) ↦ read_part (to_ascii_uppercase key) val s
  ]

  unfoldable pub parse_parts : List Text → Reading → Result RruleError Reading
  parse_parts [] s = ok s
  parse_parts (part ∷ parts) s = do s' ← parse_part part s; parse_parts parts s'

  unfoldable pub from_rrule : Text → Result RruleError RecurrenceRule
  from_rrule s = do end ← parse_parts (split b';' s) initial; rule_of end
