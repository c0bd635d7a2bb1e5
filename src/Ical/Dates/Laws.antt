-- ===== src/Ical/Dates/Laws.antt =====
-- crates/mgmt-ical/src/value.rs: date-times are read back.
use mgmtui.Base.{◌≡◌, refl, Text, Option, none, some, [], ◌∷◌, ◌++◌, All-append}
use mgmtui.Base.Chars.{is_white, split_last-snoc}
use mgmtui.Base.Utf8.{IsPlainText, trim_utf8-IsPlainText}
use mgmtui.Domain.Instant.{Instant}
use mgmtui.Ical.Dates.{Dates, format_datetime, strip_z, parse_datetime_tz, parse_datetime}

-- The date library prints the instant as a time of single-byte characters with a `Z`, and reads that
-- time back: so it is for instants in whole seconds and years of four digits.
abbrev pub Survives : Dates → Instant → Type 0
Survives dates t =
    (b : Text) × (dates.format_utc t ≡ b ++ (b'Z' ∷ []))
    × (dates.read_time b ≡ some t)
    × IsPlainText b

-- A UTC date-time that the date library can read back is read back in any zone.
pub parse_datetime_tz-format_datetime :
    (dates : Dates) (t : Instant) (tzid : Option Text)
    → Survives dates t
    → parse_datetime_tz dates (format_datetime dates t) tzid ≡ some t
unfolding parse_datetime_tz strip_z is_white
parse_datetime_tz-format_datetime dates t tzid (b, e, back, plain) =
    let same =
      trim_utf8-IsPlainText (b ++ (b'Z' ∷ []))
        (All-append _ b (b'Z' ∷ []) plain ((refl, refl), tt)) in
    rw e (rw (same, parse_datetime_tz) (rw (split_last-snoc b b'Z', strip_z) back))

pub parse_datetime-format_datetime :
    (dates : Dates) (t : Instant)
    → Survives dates t
    → parse_datetime dates (format_datetime dates t) ≡ some t
unfolding parse_datetime
parse_datetime-format_datetime dates t h = parse_datetime_tz-format_datetime dates t none h
