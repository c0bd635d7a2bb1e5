-- ===== src/Domain/Occurrence/Overrides.antt =====
-- crates/mgmt-domain/src/occurrence.rs: an override in the window is shown.
use mgmtui.Base.{
  ◌==◌, nat_eq, option_eq, contains, ◌≡◌, arith, inl, inr, true, false, ◌&&◌, ◌||◌, some, List, [],
  ◌∷◌, ◌++◌, In, Bool-cases, Option-cases,
}
use mgmtui.Base.Sort.{In-sort_by}
use mgmtui.Domain.Instant.{Instant}
use mgmtui.Domain.Event.{Event, overlaps}
use mgmtui.Domain.Occurrence.{
  override_of, starts_first, is_nil, Pass, substitute, substitute_all, moved_in,
  occurrences_with_overrides,
}

contains-snoc :
    (xs : List Instant) (x t : Instant) → contains (xs ++ (x ∷ [])) t ≡ (contains xs t || t == x)
contains-snoc [] x t = ground arith
contains-snoc (y ∷ xs) x t = ground (arith, contains-snoc xs x t)

In-append_right : (e : Event) (xs ys : List Event) → In e ys → In e (xs ++ ys)
In-append_right e [] ys h = h
In-append_right e (x ∷ xs) ys h = inr (In-append_right e xs ys h)

In-append_left : (e : Event) (xs ys : List Event) → In e xs → In e (xs ++ ys)
In-append_left e [] ys h = absurd h
In-append_left e (x ∷ xs) ys (inl h) = inl h
In-append_left e (x ∷ xs) ys (inr h) = inr (In-append_left e xs ys h)

module _ (exdates : List Instant) (overrides : List Event) (from to : Instant) (o : Event)
    (rid : Instant) (slot : contains exdates rid ≡ false) (seen : overlaps o from to ≡ true) where
  substitute-taken :
      (occ : Event) (rest : Pass)
      → override_of overrides rid ≡ some o
      → (contains rest.taken rid ≡ true → In o rest.out)
      → contains (substitute exdates overrides from to occ rest).taken rid ≡ true
      → In o (substitute exdates overrides from to occ rest).out
  unfolding substitute
  substitute-taken occ rest first before h = ground arith

  -- If the first loop has taken the slot, it has pushed the override.
  substitute_all-taken :
      (occs : List Event)
      → override_of overrides rid ≡ some o
      → contains (substitute_all exdates overrides from to occs).taken rid ≡ true
      → In o (substitute_all exdates overrides from to occs).out
  unfolding substitute_all
  substitute_all-taken [] first h = cc
  substitute_all-taken (occ ∷ occs) first h =
      substitute-taken occ _ first (substitute_all-taken occs first) h

  -- Otherwise the second loop pushes it.
  moved_in-free :
      (os : List Event) (taken : List Instant)
      → override_of os rid ≡ some o
      → contains taken rid ≡ false
      → In o (moved_in exdates overrides from to os taken)
  unfolding moved_in
  moved_in-free [] taken first h = cc
  moved_in-free (x ∷ os) taken first h = elim (Option-cases x.recurrence_id) [
    | inl n ↦ ground (arith, n, moved_in-free os taken)
    | inr (r, s) ↦ ground (
      arith,
      s,
      moved_in-free os taken,
      moved_in-free os (taken ++ (r ∷ [])),
      contains-snoc taken r rid,
    )
  ]

  -- The first override of a slot that is not excluded is shown, if it overlaps the window, wherever it
  -- has been moved from.
  pub occurrences_with_overrides-override :
      (occs : List Event)
      → override_of overrides rid ≡ some o
      → In o (occurrences_with_overrides exdates overrides from to occs)
  unfolding occurrences_with_overrides
  occurrences_with_overrides-override occs first =
      elim (Bool-cases (is_nil exdates && is_nil overrides)) [
        | inl e ↦ absurd (empty overrides first e)
        | inr e ↦ rw e (
            In-sort_by starts_first o _
              (elim (Bool-cases
                (contains (substitute_all exdates overrides from to occs).taken rid)) [
                  | inl t ↦ In-append_left o _ _ (substitute_all-taken occs first t)
                  | inr f ↦ In-append_right o _ _ (moved_in-free overrides _ first f)
                ]))
      ]
    where
      empty :
          (os : List Event) → override_of os rid ≡ some o → (is_nil exdates && is_nil os) ≡ true → ⊥
      empty [] p q = cc
      empty (x ∷ os) p q = ground arith
