-- ===== src/Ical/Rrule/Panics.antt =====
-- crates/mgmt-ical/src/rrule.rs: where `parse_byday` cuts a character.
use mgmtui.Base.{
  Option-cases, inl, inr, take, drop, ◌-◌, ◌≤◌, ◌≡◌, ◌≢◌, ◌↔◌, arith, Text, false, [], ◌∷◌, length,
}
use mgmtui.Base.Result.{err}
use mgmtui.Base.Chars.{to_ascii_uppercase}
use mgmtui.Base.Utf8.{trim_utf8}
use mgmtui.Domain.Recurrence.{Weekday, from_ical_token}
use mgmtui.Ical.Value.{is_boundary}
use mgmtui.Ical.Rrule.{panic, parse_ordinal, parse_byday_upper, parse_byday}

parse_ordinal-ne-panic : (tok ord : Text) (w : Weekday) → parse_ordinal tok ord w ≢ err panic
unfolding parse_ordinal
parse_ordinal-ne-panic tok [] w e = cc
parse_ordinal-ne-panic tok (c ∷ cs) w e = ground arith

parse_byday_upper-eq-panic :
    (tok t : Text)
    → (parse_byday_upper tok t ≡ err panic)
      ↔ ((2 ≤ length t) × (is_boundary t (length t - 2) ≡ false))
unfolding parse_byday_upper
parse_byday_upper-eq-panic tok t = elim (Option-cases (from_ical_token (drop (length t - 2) t))) [
  | inl e ↦ ground arith
  | inr (w, e) ↦ ground (arith, parse_ordinal-ne-panic tok (take (length t - 2) t) w)
]

-- Reading a `BYDAY` value panics exactly when the trimmed value has two bytes or more, and the second
-- byte from its end continues a character.
pub parse_byday-eq-panic :
    (tok : Text)
    → (parse_byday tok ≡ err panic) ↔ (
        (2 ≤ length (to_ascii_uppercase (trim_utf8 tok)))
        × (is_boundary
              (to_ascii_uppercase (trim_utf8 tok))
              (length (to_ascii_uppercase (trim_utf8 tok)) - 2)
            ≡ false))
unfolding parse_byday
parse_byday-eq-panic tok = parse_byday_upper-eq-panic tok (to_ascii_uppercase (trim_utf8 tok))
