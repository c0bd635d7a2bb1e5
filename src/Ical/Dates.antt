-- ===== src/Ical/Dates.antt =====
-- crates/mgmt-ical/src/value.rs: date-times. What the date and the zone library do is a parameter.
pub mod Laws
use mgmtui.Base.{ℕ, ◌*◌, ◌+◌, Text, Option, none, some, ◌∷◌, [], if◌then◌else◌, eqb}
use mgmtui.Base.Chars.{split_last}
use mgmtui.Base.Utf8.{trim_utf8}
use mgmtui.Domain.Instant.{Instant, day}
use mgmtui.Ical.Parser.{trim_quotes}

-- `format_utc` prints `%Y%m%dT%H%M%SZ` and `format_day` `%Y%m%d`. `read_time` reads
-- `%Y%m%dT%H%M%S` as UTC, and `read_day` reads `%Y%m%d` as the number of a day. `zone` finds a zone
-- by its name, as the map from a local time to its earliest instant; a local time in a gap has none.
pub record Dates : Type 0 where
  pub format_utc : Instant → Text
  pub format_day : Instant → Text
  pub read_time : Text → Option Instant
  pub read_day : Text → Option ℕ
  pub zone : Text → Option (Instant → Option Instant)

module _ (dates : Dates) where
  abbrev pub format_datetime : Instant → Text
  format_datetime t = dates.format_utc t

  abbrev pub format_date : Instant → Text
  format_date t = dates.format_day t

  -- `s.strip_suffix('Z')`
  unfoldable pub strip_z : Text → Option Text
  strip_z s = elim (split_last s) [
    | none ↦ none
    | some (init, c) ↦ if eqb c b'Z' then some init else none
  ]

  -- A naive time in the named zone. A time in a gap is read as UTC.
  unfoldable pub localize : Option Text → Instant → Instant
  localize none naive = naive
  localize (some tzid) naive = elim (dates.zone (trim_quotes tzid)) [
    | none ↦ naive
    | some earliest ↦ elim (earliest naive) [ none ↦ naive | some t ↦ t ]
  ]

  unfoldable pub parse_datetime_tz : Text → Option Text → Option Instant
  parse_datetime_tz s tzid =
      let t = trim_utf8 s in
      elim (strip_z t) [
        | some stripped ↦ dates.read_time stripped
        | none ↦ elim (dates.read_time t) [ none ↦ none | some naive ↦ some (localize tzid naive) ]
      ]

  unfoldable pub parse_datetime : Text → Option Instant
  parse_datetime s = parse_datetime_tz s none

  unfoldable pub parse_date : Text → Option Instant
  parse_date s = elim (dates.read_day (trim_utf8 s)) [ none ↦ none | some d ↦ some (d * day) ]
