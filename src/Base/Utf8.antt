-- ===== src/Base/Utf8.antt =====
-- `str::trim` over UTF-8 bytes.
use mgmtui.Base.{
  ℕ, zero, suc, ◌+◌, ◌-◌, ◌*◌, Text, ◌≡◌, refl, Bool, true, false, ◌&&◌, [], ◌∷◌, All, leb, ltb,
  if◌then◌else◌,
}
use mgmtui.Base.Chars.{is_white}

-- The number of bytes of the white space character that a text starts with, or 0. White space
-- characters have at most three bytes.
abbrev width_three : ℕ → ℕ → Text → ℕ
width_three c d [] = 0
width_three c d (e ∷ es) =
    if leb 0xe0 c && ltb c 0xf0 && is_white ((c - 0xe0) * 4096 + (d - 0x80) * 64 + (e - 0x80))
    then 3
    else 0

abbrev width_two : ℕ → Text → ℕ
width_two c [] = 0
width_two c (d ∷ ds) =
    if leb 0xc0 c && ltb c 0xe0 && is_white ((c - 0xc0) * 64 + (d - 0x80))
    then 2
    else width_three c d ds

unfoldable pub white_width : Text → ℕ
white_width [] = 0
white_width (c ∷ cs) = if ltb c 0x80 then (if is_white c then 1 else 0) else width_two c cs

-- The text behind the white space at its start; the number is what is left to skip.
unfoldable pub skip_white : ℕ → Text → Text
skip_white k [] = []
skip_white (suc k) (c ∷ cs) = skip_white k cs
skip_white zero (c ∷ cs) = elim (white_width (c ∷ cs)) [ zero ↦ c ∷ cs | suc k ↦ skip_white k cs ]

abbrev is_empty : Text → Bool
is_empty [] = true
is_empty (c ∷ cs) = false

-- The text up to where only white space follows.
unfoldable pub cut_white : Text → Text
cut_white [] = []
cut_white (c ∷ cs) =
    let rest = cut_white cs in if is_empty (skip_white 0 (c ∷ cs)) then [] else c ∷ rest

unfoldable pub trim_utf8 : Text → Text
trim_utf8 s = cut_white (skip_white 0 s)

-- Single-byte characters that are no white space.
abbrev pub IsPlainText : Text → Type 0
IsPlainText = All (λ c. (ltb c 0x80 ≡ true) × (is_white c ≡ false))

skip_white-IsPlainText : (s : Text) → IsPlainText s → skip_white 0 s ≡ s
unfolding skip_white white_width
skip_white-IsPlainText [] h = refl
skip_white-IsPlainText (c ∷ cs) h = rw (h.0.0, h.0.1, white_width, skip_white) refl

cut_white-IsPlainText : (s : Text) → IsPlainText s → cut_white s ≡ s
unfolding cut_white
cut_white-IsPlainText [] h = refl
cut_white-IsPlainText (c ∷ cs) h =
    rw (skip_white-IsPlainText (c ∷ cs) h, cut_white-IsPlainText cs h.1)

pub trim_utf8-IsPlainText : (s : Text) → IsPlainText s → trim_utf8 s ≡ s
unfolding trim_utf8
trim_utf8-IsPlainText s h = rw (skip_white-IsPlainText s h) (cut_white-IsPlainText s h)
