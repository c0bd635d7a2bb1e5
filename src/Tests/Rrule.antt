-- ===== src/Tests/Rrule.antt =====
-- Runs of the recurrence rules as text, with a date library that prints an instant as a number.
use mgmtui.Base.{
  ◌-◌, ◌≤◌, ◌≡◌, ◌↔◌, refl, arith, Text, text, text_eq, false, none, some, [], ◌∷◌, ◌++◌, length,
}
use mgmtui.Base.Int.{negsuc}
use mgmtui.Base.Decimal.{digits, parse_nat, parse_nat-digits, parse_unsigned}
use mgmtui.Base.Result.{ok, err}
use mgmtui.Base.Chars.{to_ascii_uppercase, upper_char, any-Lacks, split, split_once, is_white}
use mgmtui.Base.Utf8.{trim_utf8, skip_white, cut_white, white_width}
use mgmtui.Domain.Recurrence.{monthly, mon, fri, sun, RecurrenceRule, every}
use mgmtui.Ical.Value.{is_boundary}
use mgmtui.Ical.Dates.{Dates}
use mgmtui.Ical.Dates.Laws.{Survives}
use mgmtui.Ical.Rrule.{
  from_rrule, to_rrule, parse_byday, parse_byday_upper, panic, missing_freq, parse_parts,
  parse_part, read_part, rule_of,
}
use mgmtui.Ical.Rrule.RoundTrip.{from_rrule-to_rrule}
use mgmtui.Ical.Rrule.Panics.{parse_byday-eq-panic}

abbrev numbers : Dates
numbers = record {
  format_utc = λ t. digits t ++ (b'Z' ∷ []);
  format_day = λ t. digits t;
  read_time = λ s. parse_nat s;
  read_day = λ s. none;
  zone = λ name. none;
}

abbrev rule : RecurrenceRule
rule = record (every monthly 2) {
  until = some 7;
  by_weekday =
      record { weekday = fri; ordinal = some (negsuc 0) }
      ∷ record { weekday = mon; ordinal = none }
      ∷ [];
  by_setpos = negsuc 1 ∷ [];
  wkst = sun;
  extra = (text "BYHOUR", text "9") ∷ [];
}

-- The bytes of a character of two bytes and a letter.
abbrev accented : Text
accented = 0xc3 ∷ 0xa9 ∷ b'M' ∷ []

Survives-seven : Survives numbers 7
unfolding digits is_white
Survives-seven = (digits 7, refl, parse_nat-digits 7, ((refl, refl), tt))

no_frequency : from_rrule numbers (text "INTERVAL=2") ≡ err missing_freq
unfolding from_rrule split parse_parts parse_part split_once read_part text_eq to_ascii_uppercase
    parse_unsigned rule_of
no_frequency = refl

accented_panics : parse_byday accented ≡ err panic
unfolding parse_byday parse_byday_upper to_ascii_uppercase trim_utf8 cut_white skip_white
    white_width is_white is_boundary
accented_panics = refl

parse_byday-eq-panic_example : (parse_byday accented ≡ err panic) ↔ (
    (2 ≤ length (to_ascii_uppercase (trim_utf8 accented)))
    × (is_boundary
          (to_ascii_uppercase (trim_utf8 accented))
          (length (to_ascii_uppercase (trim_utf8 accented)) - 2)
        ≡ false))
parse_byday-eq-panic_example = parse_byday-eq-panic accented

from_rrule-to_rrule_example : from_rrule numbers (to_rrule numbers rule) ≡ ok rule
unfolding digits every text_eq to_ascii_uppercase upper_char
from_rrule-to_rrule_example = from_rrule-to_rrule numbers rule (
  omega arith,
  omega arith,
  tt,
  (Survives-seven, any-Lacks b';' (text "7Z") refl),
  (omega arith, (tt, tt)),
  tt,
  tt,
  (omega arith, tt),
  (
    (
      refl,
      refl,
      any-Lacks b'=' (text "BYHOUR") refl,
      any-Lacks b';' (text "BYHOUR") refl,
      any-Lacks b';' (text "9") refl,
    ),
    tt,
  ),
)
