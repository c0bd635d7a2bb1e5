-- ===== src/Markdown/Split.antt =====
-- crates/mgmt-markdown/src/lib.rs: the frontmatter is found where the writer closed it.
use mathlib.Core.List.{append_assoc}
use mgmtui.Base.{ℕ, Text, false, none, some, [], ◌∷◌, ◌++◌, ◌≡◌, refl, arith}
use mgmtui.Base.Chars.{strip_prefix, starts_with, has_substring, Lacks}
use mgmtui.Markdown.{lf, dashes, fence_body, fence, find_fence, split_frontmatter}

-- A text that a match cannot begin in and end behind: a prefix without line feeds is not found across
-- a line feed.
strip_prefix-append :
    (p z rest : Text)
    → Lacks lf p
    → strip_prefix p z ≡ none
    → strip_prefix p (z ++ (lf ∷ rest)) ≡ none
unfolding strip_prefix
strip_prefix-append [] z rest h e = cc
strip_prefix-append (p ∷ ps) [] rest h e = ground arith
strip_prefix-append (p ∷ ps) (c ∷ z) rest h e = ground (arith, strip_prefix-append ps z rest (h.1))

dashes-Lacks : Lacks lf dashes
dashes-Lacks = (refl, (refl, (refl, tt)))

fence-append :
    (c : ℕ) (z rest : Text)
    → starts_with (lf ∷ dashes) (c ∷ z) ≡ false
    → fence (c ∷ (z ++ (lf ∷ rest))) ≡ none
unfolding fence starts_with strip_prefix
fence-append c z rest e = ground (arith, strip_prefix-append dashes z rest dashes-Lacks)

fence-closed : (after : Text) → fence (lf ∷ (dashes ++ after)) ≡ fence_body after
unfolding fence strip_prefix
fence-closed after = refl

pub find_fence-append :
    (z after body : Text)
    → has_substring (lf ∷ dashes) z ≡ false
    → fence_body after ≡ some body
    → find_fence (z ++ (lf ∷ (dashes ++ after))) ≡ some (z ++ (lf ∷ []), body)
unfolding find_fence has_substring
find_fence-append [] after body h e = unfold fence strip_prefix in rw (e, find_fence)
find_fence-append (c ∷ z) after body h e = ground (
  arith,
  fence-append c z (dashes ++ after) (ground arith),
  find_fence-append z after body (ground arith) e,
)

-- The YAML of a document, which ends with a line feed, and what stands behind the closing fence.
pub split_frontmatter-fences :
    (front after body : Text)
    → has_substring (lf ∷ dashes) front ≡ false
    → fence_body after ≡ some body
    → split_frontmatter (dashes ++ (lf ∷ ((front ++ (lf ∷ [])) ++ (dashes ++ after))))
      ≡ some (front ++ (lf ∷ []), body)
unfolding split_frontmatter strip_prefix
split_frontmatter-fences front after body h e =
    rw (append_assoc front (lf ∷ []) (dashes ++ after)) (find_fence-append front after body h e)
