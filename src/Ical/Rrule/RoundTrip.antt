-- ===== src/Ical/Rrule/RoundTrip.antt =====
-- crates/mgmt-ical/src/rrule.rs: what `to_rrule` writes is read back by `from_rrule`.
use mathlib.Core.List.{append-nil, append_assoc}
use mgmtui.Base.{
  ap, ◌∙◌, ◌≡◌, refl, arith, Text, text, text_eq, contains, false, Option, none, some, List, [],
  ◌∷◌, ◌++◌, map, All,
}
use mgmtui.Base.Result.{ok}
use mgmtui.Base.Chars.{split, split-join, join, to_ascii_uppercase, upper_char, Lacks, any-Lacks}
use mgmtui.Domain.Instant.{Instant}
use mgmtui.Domain.Recurrence.{Frequency, daily, mon, RecurrenceRule, every}
use mgmtui.Ical.Dates.{Dates, format_datetime}
use mgmtui.Ical.Dates.Laws.{Survives}
use mgmtui.Ical.Rrule.{
  freq_token, extra_part, rrule_parts, to_rrule, read_part, parse_parts, rule_of, from_rrule,
  initial,
}
use mgmtui.Ical.Rrule.Separators.{part_keys, IsForeign, IsRule, Lacks-rrule_parts}
use mgmtui.Ical.Rrule.Tokens.{parse_freq-freq_token}
use mgmtui.Ical.Rrule.Parts.{
  AllOption, parse_part-key, parse_parts-cons, reading, read_interval, read_count, read_until,
  read_wkst,
}
use mgmtui.Ical.Rrule.Lists.{read_weekdays, read_monthdays, read_months, read_setpos}

module _ (dates : Dates) where
  read_part-foreign :
      (k v : Text) (f : Frequency) (r : RecurrenceRule)
      → contains part_keys k ≡ false
      → read_part dates k v (reading f r)
        ≡ ok (reading f (record r { extra = r.extra ++ ((k, v) ∷ []) }))
  unfolding read_part
  read_part-foreign k v f r h = ground arith

  read_extra :
      (xs ys : List (Text × Text)) (f : Frequency) (r : RecurrenceRule)
      → All IsForeign xs
      → parse_parts dates (map extra_part xs) (reading f (record r { extra = ys }))
        ≡ ok (reading f (record r { extra = ys ++ xs }))
  read_extra [] ys f r h = rw append-nil (unfold parse_parts in refl)
  read_extra ((k, v) ∷ xs) ys f r h =
      parse_parts-cons dates _ _ _ _ (
        parse_part-key dates k v _ h.0.2 h.0.1
        ∙ read_part-foreign k v f (record r { extra = ys }) h.0.0)
      ∙ read_extra xs (ys ++ ((k, v) ∷ [])) f r h.1
      ∙ ap (λ zs. ok (reading f (record r { extra = zs }))) (append_assoc ys ((k, v) ∷ []) xs)

  survives :
      (u : Option Instant)
      → AllOption (λ t. Survives dates t × Lacks b';' (format_datetime dates t)) u
      → AllOption (Survives dates) u
  survives none h = tt
  survives (some t) h = h.0

  parse_parts-rrule_parts :
      (r : RecurrenceRule)
      → IsRule dates r
      → parse_parts dates (rrule_parts dates r) initial
        ≡ ok (reading r.freq (record r { freq = daily }))
  unfolding rrule_parts
  parse_parts-rrule_parts r h =
      let f = r.freq in
      let r8 = record r { freq = daily; extra = [] } in
      let r7 = record r8 { wkst = mon } in
      let r6 = record r7 { by_setpos = [] } in
      let r5 = record r6 { by_month = [] } in
      let r4 = record r5 { by_monthday = [] } in
      let r3 = record r4 { by_weekday = [] } in
      let r2 = record r3 { until = none } in
      let r1 = record r2 { count = none } in
      parse_parts-cons dates _ _ _ (reading f (record r1 { interval = 1 })) (
        parse_part-key dates (text "FREQ") (freq_token f) initial
          (any-Lacks b'=' (text "FREQ") refl) (unfold to_ascii_uppercase upper_char in refl)
        ∙ unfold read_part text_eq every in rw (parse_freq-freq_token f))
      ∙ read_interval dates f _ r1 h.0 h.1
      ∙ read_count dates f _ r2 r.count h.2
      ∙ read_until dates f _ r3 r.until (survives r.until h.3)
      ∙ read_weekdays dates f _ r4 r.by_weekday h.4
      ∙ read_monthdays dates f _ r5 r.by_monthday h.5
      ∙ read_months dates f _ r6 r.by_month h.6
      ∙ read_setpos dates f _ r7 r.by_setpos h.7
      ∙ read_wkst dates f _ r8 r.wkst
      ∙ read_extra r.extra [] f (record r { freq = daily }) h.8

split-rrule_parts :
    (dates : Dates) (r : RecurrenceRule)
    → IsRule dates r
    → split b';' (join b';' (rrule_parts dates r)) ≡ rrule_parts dates r
unfolding rrule_parts
split-rrule_parts dates r h = split-join b';' _ _ (Lacks-rrule_parts dates r h)

-- A recurrence rule whose numbers are values of their types, whose interval is not 0, whose end (if it
-- has one) the date library can print and read back, and whose other parts are foreign, is read back
-- from what `to_rrule` writes.
pub from_rrule-to_rrule :
    (dates : Dates) (r : RecurrenceRule)
    → IsRule dates r
    → from_rrule dates (to_rrule dates r) ≡ ok r
unfolding from_rrule to_rrule rule_of
from_rrule-to_rrule dates r h =
    rw (split-rrule_parts dates r h, parse_parts-rrule_parts dates r h) refl
