-- ===== src/Domain/Occurrence/Exceptions.antt =====
-- crates/mgmt-domain/src/occurrence.rs: which events a window shows.
use mgmtui.Base.{
  ◌==◌, nat_eq, option_eq, contains, ◌≡◌, refl, sym, ap, ◌∙◌, arith, ◌⊎◌, inl, inr, true, false,
  not, ◌&&◌, none, some, List, [], ◌∷◌, ◌++◌, find?-In, All, All-append, All-map, In, Bool-cases,
  Option-cases,
}
use mgmtui.Base.Sort.{sort_by-All, In-sort_by, IsSorted, sort_by-IsSorted}
use mgmtui.Domain.Instant.{Instant}
use mgmtui.Domain.Event.{Event, overlaps}
use mgmtui.Domain.Occurrence.{
  override_of, starts_first, is_nil, Pass, substitute, substitute_all, moved_in,
  occurrences_with_overrides,
}

In-append : (e : Event) (xs ys : List Event) → In e xs → In e (xs ++ ys)
In-append e [] ys h = absurd h
In-append e (x ∷ xs) ys (inl h) = inl h
In-append e (x ∷ xs) ys (inr h) = inr (In-append e xs ys h)

In-All : (os : List Event) → All (λ o. In o os) os
In-All [] = tt
In-All (o ∷ os) = (inl refl, All-map _ _ (λ x m. inr m) os (In-All os))

no_exceptions :
    (exdates : List Instant) (overrides : List Event) (t : Instant)
    → (is_nil exdates && is_nil overrides) ≡ true
    → (contains exdates t ≡ false) × (override_of overrides t ≡ none)
no_exceptions [] [] t h = (refl, refl)
no_exceptions [] (o ∷ os) t h = cc
no_exceptions (x ∷ xs) os t h = cc

module _ (exdates : List Instant) (overrides : List Event) (from to : Instant) where
  -- A generated occurrence that is neither excluded nor overridden.
  abbrev pub IsPlainOccurrence : List Event → Event → Type 0
  IsPlainOccurrence occs e =
      In e occs × (contains exdates e.start ≡ false) × (override_of overrides e.start ≡ none)

  -- An override in the window, whose slot is not excluded.
  abbrev pub IsOverride : Event → Type 0
  IsOverride e =
      In e overrides
      × (overlaps e from to ≡ true)
      × (rid : Instant) × (e.recurrence_id ≡ some rid)
      × (contains exdates rid ≡ false)

  abbrev pub IsShown : List Event → Event → Type 0
  IsShown occs e = IsPlainOccurrence occs e ⊎ IsOverride e

  weaken : (occ : Event) (occs : List Event) (e : Event) → IsShown occs e → IsShown (occ ∷ occs) e
  weaken occ occs e (inl p) = inl (inr p.0, p.1, p.2)
  weaken occ occs e (inr p) = inr p

  same_slot :
      (o : Event) (t : Instant) → (o.recurrence_id == some t) ≡ true → o.recurrence_id ≡ some t
  same_slot o t h = ground arith

  substitute-All :
      (occ : Event) (occs : List Event) (rest : Pass)
      → All (IsShown (occ ∷ occs)) rest.out
      → All (IsShown (occ ∷ occs)) (substitute exdates overrides from to occ rest).out
  unfolding substitute
  substitute-All occ occs rest h = elim (Bool-cases (contains exdates occ.start)) [
    | inl e ↦ rw (e, substitute) h
    | inr e ↦ elim (Option-cases (override_of overrides occ.start)) [
      | inl n ↦ rw (e, n, substitute) (inl (inl refl, e, n), h)
      | inr (o, s) ↦
          let (member, slot) = find?-In _ overrides o s in
          elim (Bool-cases (overlaps o from to)) [
            | inl v ↦
                rw (e, s, v, substitute)
                  (inr (member, v, occ.start, same_slot o occ.start slot, e), h)
            | inr v ↦ rw (e, s, v, substitute) h
          ]
    ]
  ]

  substitute_all-All :
      (occs : List Event) → All (IsShown occs) (substitute_all exdates overrides from to occs).out
  unfolding substitute_all
  substitute_all-All [] = tt
  substitute_all-All (occ ∷ occs) =
      substitute-All occ occs (substitute_all exdates overrides from to occs)
        (All-map _ _ (weaken occ occs) _ (substitute_all-All occs))

  moved_in-All :
      (os : List Event) (taken : List Instant)
      → All (λ o. In o overrides) os
      → All IsOverride (moved_in exdates overrides from to os taken)
  unfolding moved_in
  moved_in-All [] taken h = tt
  moved_in-All (o ∷ os) taken h = elim (Option-cases o.recurrence_id) [
    | inl n ↦ rw (n, moved_in) (moved_in-All os taken h.1)
    | inr (rid, s) ↦
        elim (Bool-cases
          (not (contains exdates rid) && not (contains taken rid) && overlaps o from to)) [
            | inl e ↦
                rw (s, moved_in)
                  (rw e (
                    (h.0, ground arith, rid, s, ground arith),
                    moved_in-All os (taken ++ (rid ∷ [])) h.1,
                  ))
            | inr e ↦ rw (s, moved_in) (rw e (moved_in-All os taken h.1))
          ]
  ]

  -- Everything that the window shows is a generated occurrence that is neither excluded nor overridden,
  -- or an override that overlaps the window and whose slot is not excluded.
  pub occurrences_with_overrides-IsShown :
      (occs : List Event)
      → All (IsShown occs) (occurrences_with_overrides exdates overrides from to occs)
  unfolding occurrences_with_overrides
  occurrences_with_overrides-IsShown occs = elim (Bool-cases (is_nil exdates && is_nil overrides)) [
    | inl e ↦ rw e (
        All-map _ _
          (λ occ m. inl (
            m,
            (no_exceptions exdates overrides occ.start e).0,
            (no_exceptions exdates overrides occ.start e).1,
          ))
          occs (In-All occs))
    | inr e ↦ rw e (
        sort_by-All starts_first (IsShown occs) _ (
          All-append (IsShown occs) _ _ (substitute_all-All occs) (
            All-map _ _ (λ o k. inr k) _
              (moved_in-All overrides (substitute_all exdates overrides from to occs).taken
                (In-All overrides)))))
  ]

  In-substitute :
      (occ first : Event) (rest : Pass)
      → In occ rest.out
      → In occ (substitute exdates overrides from to first rest).out
  unfolding substitute
  In-substitute occ first rest m = elim (Bool-cases (contains exdates first.start)) [
    | inl e ↦ rw (e, substitute) m
    | inr e ↦ elim (Option-cases (override_of overrides first.start)) [
      | inl n ↦ rw (e, n, substitute) (inr m)
      | inr (o, s) ↦ elim (Bool-cases (overlaps o from to)) [
        | inl v ↦ rw (e, s, v, substitute) (inr m)
        | inr v ↦ rw (e, s, v, substitute) m
      ]
    ]
  ]

  substitute_all-plain :
      (occ : Event) (occs : List Event)
      → In occ occs
      → contains exdates occ.start ≡ false
      → override_of overrides occ.start ≡ none
      → In occ (substitute_all exdates overrides from to occs).out
  unfolding substitute_all substitute
  substitute_all-plain occ [] m e n = m
  substitute_all-plain occ (first ∷ occs) (inl same) e n =
      rw
        (
          sym (ap (λ o. contains exdates o.start) same) ∙ e,
          sym (ap (λ o. override_of overrides o.start) same) ∙ n,
          substitute,
        )
        (inl same)
  substitute_all-plain occ (first ∷ occs) (inr m) e n =
      In-substitute occ first _ (substitute_all-plain occ occs m e n)

  -- A generated occurrence that is neither excluded nor overridden is shown.
  pub occurrences_with_overrides-plain :
      (occ : Event) (occs : List Event)
      → IsPlainOccurrence occs occ
      → In occ (occurrences_with_overrides exdates overrides from to occs)
  unfolding occurrences_with_overrides
  occurrences_with_overrides-plain occ occs h =
      elim (Bool-cases (is_nil exdates && is_nil overrides)) [
        | inl e ↦ rw e h.0
        | inr e ↦ rw e (
            In-sort_by starts_first occ _
              (In-append occ _ _ (substitute_all-plain occ occs h.0 h.1 h.2)))
      ]

  -- Unless there are no exceptions at all, the window is shown in order of the starts.
  pub occurrences_with_overrides-IsSorted :
      (occs : List Event)
      → (is_nil exdates && is_nil overrides) ≡ false
      → IsSorted starts_first (occurrences_with_overrides exdates overrides from to occs)
  unfolding occurrences_with_overrides
  occurrences_with_overrides-IsSorted occs h =
      rw h (sort_by-IsSorted starts_first (λ a b. ground arith) (λ a b c p q. ground arith) _)
