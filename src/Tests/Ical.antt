-- ===== src/Tests/Ical.antt =====
-- Runs of the iCalendar values and of the parser.
use mgmtui.Base.Utf8.{trim_utf8, skip_white, cut_white, white_width}
use mgmtui.Base.{
  arith, leb, ◌||◌, ℕ, ◌<◌, text, Text, text_eq, refl, ◌≡◌, ◌≢◌, Bool, true, false, some, List, [],
  ◌∷◌, ◌++◌, All, ltb, eqb, any, not,
}
use mgmtui.Base.Result.{ok, err}
use mgmtui.Base.Chars.{any-Lacks, split, strip_prefix, is_white, split_once}
use mgmtui.Ical.Value.{
  lf, escape_text, write_folded, unfold_lines, unfold_raw, unfold_line, strip_cr,
}
use mgmtui.Ical.Value.Fold.{ascii-HasBoundaries, write_folded-some}
use mgmtui.Ical.Value.Fold.Lines.{IsLine, write_all}
use mgmtui.Ical.Value.Fold.Width.{IsNarrow, write_folded-IsNarrow}
use mgmtui.Ical.Parser.{
  Prop, Component, component, end, child, parse, parse_prop, unterminated, parse_lines, parse_line,
  finish, split_colon, prop_of, split_unquoted, parse_params, trim_quotes, trim_quotes_end,
  trim_quotes_start, quote,
}
use mgmtui.Ical.Parser.Props.{IsName, IsWritable}
use mgmtui.Ical.Parser.Tree.{show_component, IsTree, parse-write_all}

abbrev crlf : Text
crlf = 13 ∷ 10 ∷ []

abbrev summary : Prop
summary = record { name = text "SUMMARY"; params = []; value = text "Lunch: noon" }

abbrev organizer : Prop
organizer = record {
  name = text "ORGANIZER";
  params = (text "CN", text "Doe; John") ∷ [];
  value = text "mailto:j@x.org";
}

abbrev event : Component
event = component (text "VEVENT") (organizer ∷ summary ∷ []) end

abbrev calendar : Component
calendar = component (text "VCALENDAR") [] (child event end)

abbrev lines : List Text
lines = text "BEGIN:VEVENT" ∷ text "SUMMARY:x" ∷ []

escaped : escape_text (text "a;b") ≡ text "a" ++ (92 ∷ text ";b")
unfolding escape_text
escaped = refl

folded_pair : unfold_lines (text "AB:" ++ crlf ++ text " cd" ++ crlf) ≡ text "AB:cd" ∷ []
unfolding unfold_lines split unfold_raw unfold_line strip_cr
folded_pair = refl

open_block : parse (text "BEGIN:VEVENT" ++ crlf) ≡ err unterminated
unfolding parse unfold_lines split strip_prefix trim_utf8 skip_white cut_white white_width
    parse_lines unfold_raw unfold_line strip_cr parse_line finish
open_block = refl

quoted_parameter :
    parse_prop (text "ORGANIZER;CN=" ++ (34 ∷ text "Doe; John") ++ (34 ∷ text ":mailto:j@x.org"))
    ≡ ok organizer
unfolding parse_prop split_once split_colon prop_of split_unquoted parse_params trim_quotes
    trim_quotes_end trim_quotes_start
quoted_parameter = refl

any-All : (xs : Text) → any (λ x. not (ltb x 128)) xs ≡ false → All (λ x. ltb x 128 ≡ true) xs
any-All [] h = tt
any-All (x ∷ xs) h = ground (arith, any-All xs)

-- A line of ASCII characters with no line feed may be written.
IsLine-printable :
    (c : ℕ) (cs : Text)
    → any (λ x. not (ltb x 128)) (c ∷ cs) ≡ false
    → any (λ x. eqb x lf) (c ∷ cs) ≡ false
    → (c ≢ 32) × (c ≢ 9)
    → IsLine (c ∷ cs)
IsLine-printable c cs a b h =
    (ascii-HasBoundaries (c ∷ cs) (any-All (c ∷ cs) a), h, any-Lacks lf (c ∷ cs) b)

letter_ok : (c : ℕ) → 32 < c → (c ≢ 32) × (c ≢ 9)
letter_ok c h = (λ e. omega arith, λ e. omega arith)

abbrev is_odd : Text → Bool
is_odd [] = true
is_odd (c ∷ cs) = leb c 32 || any (λ x. not (ltb x 128)) (c ∷ cs) || any (λ x. eqb x lf) (c ∷ cs)

lines_ok : (ls : List Text) → any is_odd ls ≡ false → All IsLine ls
lines_ok [] h = tt
lines_ok ([] ∷ ls) h = absurd (cc)
lines_ok ((c ∷ cs) ∷ ls) h = (
  IsLine-printable c cs (ground arith) (ground arith) (letter_ok c (ground arith)),
  lines_ok ls (ground arith),
)

abbrev long : Text
long = text "DESCRIPTION:0123456789012345678901234567890123456789012345678901234567890123456789"

write_folded-some_example : (out : Text) × (write_folded long ≡ some out)
write_folded-some_example = write_folded-some long (ascii-HasBoundaries long (any-All long refl))

write_folded-IsNarrow_example : IsNarrow (text "SUMMARY:x" ++ crlf)
unfolding write_folded
write_folded-IsNarrow_example =
    write_folded-IsNarrow (text "SUMMARY:x") (text "SUMMARY:x" ++ crlf)
      (any-Lacks lf (text "SUMMARY:x") refl) refl

IsName-quiet :
    (k : Text)
    → any (λ x. eqb x quote) k ≡ false
    → any (λ x. eqb x b':') k ≡ false
    → any (λ x. eqb x b';') k ≡ false
    → IsName k
IsName-quiet k a b c = (any-Lacks quote k a, any-Lacks b':' k b, any-Lacks b';' k c)

organizer_ok : IsWritable organizer
organizer_ok = (
  IsName-quiet (text "ORGANIZER") refl refl refl,
  (
    (
      IsName-quiet (text "CN") refl refl refl,
      any-Lacks b'=' (text "CN") refl,
      any-Lacks quote (text "Doe; John") refl,
    ),
    tt,
  ),
)

summary_ok : IsWritable summary
summary_ok = (IsName-quiet (text "SUMMARY") refl refl refl, tt)

calendar_ok : IsTree calendar
unfolding IsTree strip_prefix trim_utf8 skip_white cut_white white_width is_white
calendar_ok =
    (refl, tt, ((refl, ((organizer_ok, refl, refl), ((summary_ok, refl, refl), tt)), tt), tt))

calendar_lines : All IsLine (show_component calendar)
unfolding show_component
calendar_lines = lines_ok (show_component calendar) refl

parse-write_all_example :
    (out : Text) × (write_all (show_component calendar) ≡ some out) × (parse out ≡ ok calendar)
parse-write_all_example = parse-write_all calendar calendar_ok calendar_lines
