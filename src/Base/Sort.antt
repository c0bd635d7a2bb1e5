-- ===== src/Base/Sort.antt =====
-- `slice::sort_by`: a stable sort by a comparison. `le x y` says that `x` may stand before `y`.
use Prim.Native.Nat.{suc, compare, Ordering}
use mathlib.Core.Path.{◌≡◌, refl, ◌∙◌}
use mathlib.Core.Logic.{◌⊎◌, inl, inr}
use mathlib.Core.Bool.{Bool, true, false}
use mathlib.Core.List.{◌++◌, List, [], ◌∷◌, Perm}
use mathlib.Core.List.Perm
use native.Mathlib.Omega.{arith}
use mgmtui.Base.Tests.{if◌then◌else◌, Bool-cases}
use mgmtui.Base.Lists.{In, All, length}
use mgmtui.Base.Equality.{Text}

-- The order of `str`: code point by code point, a prefix first.
abbrev pub text_le : Text → Text → Bool
text_le [] ys = true
text_le (x ∷ xs) [] = false
text_le (x ∷ xs) (y ∷ ys) =
    let rest = text_le xs ys in
    elim (compare x y) [ Ordering.lt ↦ true | Ordering.eq ↦ rest | Ordering.gt ↦ false ]

pub text_le_total : (xs ys : Text) → (text_le xs ys ≡ true) ⊎ (text_le ys xs ≡ true)
text_le_total [] ys = inl refl
text_le_total (x ∷ xs) [] = inr refl
text_le_total (x ∷ xs) (y ∷ ys) = ground (arith, text_le_total xs ys)

pub text_le_trans :
    (xs ys zs : Text) → text_le xs ys ≡ true → text_le ys zs ≡ true → text_le xs zs ≡ true
text_le_trans [] ys zs h k = refl
text_le_trans (x ∷ xs) [] zs h k = cc
text_le_trans (x ∷ xs) (y ∷ ys) [] h k = cc
text_le_trans (x ∷ xs) (y ∷ ys) (z ∷ zs) h k = ground (arith, text_le_trans xs ys zs)

module _ {A : Type 0} (le : A → A → Bool) where
  unfoldable pub insert : A → List A → List A
  insert x [] = x ∷ []
  insert x (y ∷ ys) = if le x y then x ∷ y ∷ ys else y ∷ insert x ys

  unfoldable pub sort_by : List A → List A
  unfolding insert
  sort_by [] = []
  sort_by (x ∷ xs) = insert x (sort_by xs)

  insert-perm : (x : A) (ys : List A) → Perm (insert x ys) (x ∷ ys)
  unfolding insert
  insert-perm x [] = Perm.refl _
  insert-perm x (y ∷ ys) = elim (Bool-cases (le x y)) [
    | inl e ↦ rw e (Perm.refl _)
    | inr e ↦ rw e (Perm.trans (Perm.cons y (insert-perm x ys)) (Perm.swap _ _ ys))
  ]

  -- The result holds the same elements, as often.
  pub sort_by-perm : (xs : List A) → Perm (sort_by xs) xs
  unfolding sort_by
  sort_by-perm [] = Perm.refl _
  sort_by-perm (x ∷ xs) = Perm.trans (insert-perm x (sort_by xs)) (Perm.cons x (sort_by-perm xs))

  insert-All : (P : A → Type 0) (x : A) (ys : List A) → P x → All P ys → All P (insert x ys)
  unfolding insert
  insert-All P x [] p h = (p, tt)
  insert-All P x (y ∷ ys) p h = ground (arith, insert-All P x ys p h.1)

  pub sort_by-All : (P : A → Type 0) (xs : List A) → All P xs → All P (sort_by xs)
  unfolding sort_by
  sort_by-All P [] h = tt
  sort_by-All P (x ∷ xs) h = insert-All P x (sort_by xs) h.0 (sort_by-All P xs h.1)

  length-insert : (x : A) (ys : List A) → length (insert x ys) ≡ suc (length ys)
  unfolding insert
  length-insert x [] = refl
  length-insert x (y ∷ ys) = ground (arith, length-insert x ys)

  pub length-sort_by : (xs : List A) → length (sort_by xs) ≡ length xs
  unfolding sort_by
  length-sort_by [] = refl
  length-sort_by (x ∷ xs) = length-insert x (sort_by xs) ∙ ground (arith, length-sort_by xs)

  -- Each element may stand before all that follow it.
  abbrev pub IsSorted : List A → Type 0
  IsSorted [] = Unit
  IsSorted (x ∷ xs) = All (λ y. le x y ≡ true) xs × IsSorted xs

module _ {A : Type 0} (le : A → A → Bool) (total : (x y : A) → (le x y ≡ true) ⊎ (le y x ≡ true))
    (trans : (x y z : A) → le x y ≡ true → le y z ≡ true → le x z ≡ true) where
  All-trans :
      (x y : A) (ys : List A)
      → le x y ≡ true
      → All (λ z. le y z ≡ true) ys
      → All (λ z. le x z ≡ true) ys
  All-trans x y [] h a = tt
  All-trans x y (z ∷ ys) h a = (trans x y z h a.0, All-trans x y ys h a.1)

  insert-IsSorted : (x : A) (ys : List A) → IsSorted le ys → IsSorted le (insert le x ys)
  unfolding insert
  insert-IsSorted x [] s = (tt, tt)
  insert-IsSorted x (y ∷ ys) s = elim (Bool-cases (le x y)) [
    | inl e ↦ rw e ((e, All-trans x y ys e s.0), s)
    | inr e ↦ rw e (
      insert-All le (λ z. le y z ≡ true) x ys (ground (arith, total x y)) s.0,
      insert-IsSorted x ys s.1,
    )
  ]

  pub sort_by-IsSorted : (xs : List A) → IsSorted le (sort_by le xs)
  unfolding sort_by
  sort_by-IsSorted [] = tt
  sort_by-IsSorted (x ∷ xs) = insert-IsSorted x (sort_by le xs) (sort_by-IsSorted xs)

module _ {A : Type 0} (le : A → A → Bool) where
  In-insert : (a x : A) (ys : List A) → (a ≡ x) ⊎ In a ys → In a (insert le x ys)
  unfolding insert
  In-insert a x [] m = m
  In-insert a x (y ∷ ys) m = ground (arith, In-insert a x ys)

  pub In-sort_by : (a : A) (xs : List A) → In a xs → In a (sort_by le xs)
  unfolding sort_by
  In-sort_by a [] m = m
  In-sort_by a (x ∷ xs) m = In-insert a x (sort_by le xs) (ground (arith, In-sort_by a xs))

  -- An element that stands strictly before all others comes first.
  module _ (s : A) where
    abbrev pub Leads : List A → Type 0
    Leads = All (λ m. (le s m ≡ true) × (le m s ≡ false))

    insert-first : (zs : List A) → Leads zs → insert le s zs ≡ s ∷ zs
    unfolding insert
    insert-first [] h = refl
    insert-first (z ∷ zs) h = ground arith

    pub sort_by-first :
        (xs ys : List A)
        → Leads (xs ++ ys)
        → sort_by le (xs ++ (s ∷ ys)) ≡ s ∷ sort_by le (xs ++ ys)
    unfolding sort_by
    sort_by-first [] ys h = insert-first (sort_by le ys) (sort_by-All le _ ys h)
    sort_by-first (x ∷ xs) ys h = rw (sort_by-first xs ys h.1) (ground arith)
