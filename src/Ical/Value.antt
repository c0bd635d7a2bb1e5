-- ===== src/Ical/Value.antt =====
-- crates/mgmt-ical/src/value.rs: escaping and line folding, and the unfolding of
-- crates/mgmt-ical/src/parser.rs. A text is its UTF-8 bytes here: every character that the code
-- treats specially is one byte, and folding counts bytes.
pub mod Escape
pub mod Fold
use mgmtui.Base.{
  ℕ, zero, suc, ◌+◌, ◌-◌, min, Text, text, text_eq, ◌==◌, Bool, true, false, not, ◌&&◌, ◌||◌,
  Option, none, some, List, [], ◌∷◌, ◌++◌, length, get_elem?, take, drop, ltb, leb, eqb,
  if◌then◌else◌,
}
use mgmtui.Base.Chars.{split}

abbrev pub lf : ℕ
lf = 10

abbrev pub cr : ℕ
cr = 13

abbrev pub tab : ℕ
tab = 9

abbrev pub backslash : ℕ
backslash = 92

-- What one character is escaped to.
unfoldable pub escape_char : ℕ → Text
escape_char c =
    if eqb c backslash
    then backslash ∷ backslash ∷ []
    else if eqb c b';'
    then backslash ∷ b';' ∷ []
    else if eqb c b','
    then backslash ∷ b',' ∷ []
    else if eqb c lf
    then backslash ∷ b'n' ∷ []
    else c ∷ []

unfoldable pub escape_text : Text → Text
unfolding escape_char
escape_text [] = []
escape_text (c ∷ cs) = escape_char c ++ escape_text cs

-- The character that stands behind a backslash, read.
unfoldable pub unescape_char : ℕ → ℕ
unescape_char d = if eqb d b'n' || eqb d b'N' then lf else d

unfoldable pub unescape_text : Text → Text
unfolding unescape_char
unescape_text [] = []
unescape_text (c ∷ []) = c ∷ []
unescape_text (c ∷ d ∷ ds) =
    let escaped = unescape_char d ∷ unescape_text ds in
    let plain = c ∷ unescape_text (d ∷ ds) in if eqb c backslash then escaped else plain

-- A UTF-8 continuation byte.
unfoldable pub is_continuation : ℕ → Bool
is_continuation b = leb 128 b && ltb b 192

-- `is_char_boundary(i)` for an index within the line.
unfoldable pub is_boundary : Text → ℕ → Bool
unfolding is_continuation
is_boundary line i = elim (get_elem? line i) [ none ↦ true | some b ↦ not (is_continuation b) ]

-- `while end > start && !is_char_boundary(end) { end -= 1 }`, from the start of the rest.
unfoldable pub back_up : Text → ℕ → ℕ
unfolding is_boundary
back_up rest zero = zero
back_up rest (suc e) =
    let lower = back_up rest e in if is_boundary rest (suc e) then suc e else lower

-- The number of bytes that a round takes: 75, or 74 behind the leading space, or fewer so as not to
-- cut a character.
unfoldable pub taken : Bool → Text → ℕ
unfolding back_up
taken first rest = back_up rest (min (if first then 75 else 74) (length rest))

-- What a round pushes, before what the later rounds push.
abbrev pub block : Bool → ℕ → Text → Text → Text
block first end rest more = (if first then [] else b' ' ∷ []) ++ (take end rest ++ (cr ∷ lf ∷ more))

-- The loop over the rest of a long line; `none` is a loop that is still running without fuel.
unfoldable pub fold_rest : ℕ → Bool → Text → Option Text
fold_rest fuel first [] = some []
fold_rest zero first (b ∷ bs) = none
fold_rest (suc fuel) first (b ∷ bs) =
    let end = taken first (b ∷ bs) in
    elim (fold_rest fuel false (drop end (b ∷ bs))) [
      | none ↦ none
      | some more ↦ some (block first end (b ∷ bs) more)
    ]

-- What `write_folded` appends for a line. As many rounds as the line has bytes are enough
-- (`Fold.write_folded-some`).
unfoldable pub write_folded : Text → Option Text
write_folded line =
    if leb (length line) 75
    then some (line ++ (cr ∷ lf ∷ []))
    else fold_rest (length line) true line

-- `raw.strip_suffix('\r').unwrap_or(raw)`
unfoldable pub strip_cr : Text → Text
strip_cr [] = []
strip_cr (c ∷ []) = if eqb c cr then [] else c ∷ []
strip_cr (c ∷ d ∷ ds) = c ∷ strip_cr (d ∷ ds)

-- `lines.last_mut().push_str(cont)`, for lines that are not empty.
unfoldable pub push_last : List Text → Text → List Text
push_last [] cont = []
push_last (l ∷ []) cont = (l ++ cont) ∷ []
push_last (l ∷ k ∷ ls) cont = l ∷ push_last (k ∷ ls) cont

-- One round of the loop of `unfold`, with the carriage return stripped.
unfoldable pub unfold_line : List Text → Text → List Text
unfolding push_last
unfold_line lines [] = lines
unfold_line [] (c ∷ cs) = (c ∷ cs) ∷ []
unfold_line (l ∷ ls) (c ∷ cs) =
    if eqb c b' ' || eqb c tab then push_last (l ∷ ls) cs else (l ∷ ls) ++ ((c ∷ cs) ∷ [])

unfoldable pub unfold_raw : List Text → List Text → List Text
unfold_raw lines [] = lines
unfold_raw lines (raw ∷ raws) = unfold_raw (unfold_line lines (strip_cr raw)) raws

unfoldable pub unfold_lines : Text → List Text
unfold_lines input = unfold_raw [] (split lf input)
