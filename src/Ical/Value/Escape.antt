-- ===== src/Ical/Value/Escape.antt =====
-- crates/mgmt-ical/src/value.rs: unescaping undoes escaping.
use mgmtui.Base.{ℕ, ◌≡◌, refl, arith, Text, false, [], ◌∷◌, ◌++◌, eqb, All-append}
use mgmtui.Ical.Value.{escape_char, escape_text, unescape_char, unescape_text, backslash, lf}
use mgmtui.Base.Chars.{Lacks}

unescape_text-plain :
    (c : ℕ) (cs : Text) → eqb c backslash ≡ false → unescape_text (c ∷ cs) ≡ c ∷ unescape_text cs
unfolding unescape_text
unescape_text-plain c [] h = refl
unescape_text-plain c (d ∷ ds) h = rw h

unescape_text-escaped :
    (d : ℕ) (ds : Text) → unescape_text (backslash ∷ d ∷ ds) ≡ unescape_char d ∷ unescape_text ds
unfolding unescape_text
unescape_text-escaped d ds = refl

unescape_text-escape_char :
    (c : ℕ) (rest : Text) → unescape_text (escape_char c ++ rest) ≡ c ∷ unescape_text rest
unfolding escape_char unescape_char
unescape_text-escape_char c rest = ground (
  arith,
  unescape_text-plain c rest,
  unescape_text-escaped backslash rest,
  unescape_text-escaped b';' rest,
  unescape_text-escaped b',' rest,
  unescape_text-escaped b'n' rest,
)

-- Every text comes back from its escaped form.
pub unescape_text-escape_text : (s : Text) → unescape_text (escape_text s) ≡ s
unfolding escape_text
unescape_text-escape_text [] = unfold unescape_text in refl
unescape_text-escape_text (c ∷ cs) =
    rw (unescape_text-escape_char c (escape_text cs), unescape_text-escape_text cs)

-- An escaped text holds no line feed, so it stays on one content line.
pub escape_text-Lacks : (s : Text) → Lacks lf (escape_text s)
unfolding escape_text
escape_text-Lacks [] = tt
escape_text-Lacks (c ∷ cs) =
    All-append _ (escape_char c) (escape_text cs) (ground arith) (escape_text-Lacks cs)
