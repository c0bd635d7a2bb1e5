-- ===== src/Store/Paths.antt =====
-- crates/mgmt-store/src/paths.rs: file names from uids, over code points.
use mgmtui.Base.Chars.{Lacks}
use mgmtui.Base.{
  All, All-append, All-map, ◌≡◌, refl, arith, true, false, ℕ, Text, text, Bool, ◌||◌, ◌&&◌, [], ◌∷◌,
  ◌++◌, leb, eqb, map, if◌then◌else◌,
}

-- `c.is_ascii_alphanumeric() || matches!(c, '-' | '_' | '.')`
unfoldable pub is_stem_char : ℕ → Bool
is_stem_char c =
    (leb b'0' c && leb c b'9')
    || (leb b'A' c && leb c b'Z')
    || (leb b'a' c && leb c b'z')
    || eqb c b'-'
    || eqb c b'_'
    || eqb c b'.'

abbrev pub stem_char : ℕ → ℕ
stem_char c = if is_stem_char c then c else b'_'

unfoldable pub safe_stem : Text → Text
safe_stem [] = b'_' ∷ []
safe_stem (c ∷ cs) = map stem_char (c ∷ cs)

-- The file of a task, which is also the name under which it is pushed.
abbrev pub task_file : Text → Text
task_file uid = safe_stem uid ++ text ".md"

is_stem_char-stem_char : (c : ℕ) → is_stem_char (stem_char c) ≡ true
unfolding is_stem_char
is_stem_char-stem_char c = ground arith

pub safe_stem-All : (uid : Text) → All (λ c. is_stem_char c ≡ true) (safe_stem uid)
unfolding safe_stem
safe_stem-All [] = (unfold is_stem_char in refl, tt)
safe_stem-All (c ∷ cs) = mapped (c ∷ cs)
  where
    mapped : (xs : Text) → All (λ c. is_stem_char c ≡ true) (map stem_char xs)
    mapped [] = tt
    mapped (x ∷ xs) = (is_stem_char-stem_char x, mapped xs)

pub task_file-Lacks : (c : ℕ) (uid : Text) → is_stem_char c ≡ false → Lacks c (task_file uid)
task_file-Lacks c uid e =
    All-map _ _ (λ x h. stem_apart x h) (task_file uid)
      (All-append _ (safe_stem uid) (text ".md") (safe_stem-All uid)
        (unfold is_stem_char in (refl, (refl, (refl, tt)))))
  where
    stem_apart : (x : ℕ) → is_stem_char x ≡ true → eqb x c ≡ false
    stem_apart x h = ground arith
