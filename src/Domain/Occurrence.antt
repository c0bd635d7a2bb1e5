-- ===== src/Domain/Occurrence.antt =====
-- crates/mgmt-domain/src/occurrence.rs: excluded and overridden occurrences of a series, on top of the
-- occurrences that plain expansion gives for the window, which are an argument here.
pub mod Exceptions
pub mod Overrides
use mgmtui.Base.{
  ◌==◌, nat_eq, option_eq, contains, Bool, true, false, not, ◌&&◌, Option, none, some, List, [],
  ◌∷◌, ◌++◌, find?, leb, if◌then◌else◌,
}
use mgmtui.Base.Sort.{sort_by}
use mgmtui.Domain.Instant.{Instant}
use mgmtui.Domain.Event.{Event, overlaps}

-- The override of the occurrence that starts at an instant.
abbrev pub override_of : List Event → Instant → Option Event
override_of overrides t = find? (λ o. o.recurrence_id == some t) overrides

abbrev pub starts_first : Event → Event → Bool
starts_first a b = leb a.start b.start

abbrev pub is_nil : {A : Type 0} → List A → Bool
is_nil [] = true
is_nil (x ∷ xs) = false

-- What the first loop has pushed, and the slots that it has taken.
pub record Pass : Type 0 where
  pub out : List Event
  pub taken : List Instant

module _ (exdates : List Instant) (overrides : List Event) (from to : Instant) where
  -- One round of the first loop, before what the later rounds push.
  unfoldable pub substitute : Event → Pass → Pass
  substitute occ rest =
      if contains exdates occ.start then rest else elim (override_of overrides occ.start) [
        | some o ↦ record {
          out = if overlaps o from to then o ∷ rest.out else rest.out;
          taken = occ.start ∷ rest.taken;
        }
        | none ↦ record rest { out = occ ∷ rest.out }
      ]

  unfoldable pub substitute_all : List Event → Pass
  substitute_all [] = record { out = []; taken = [] }
  substitute_all (occ ∷ occs) = substitute occ (substitute_all occs)

  -- The second loop: an override may have been moved into the window from a slot outside it.
  unfoldable pub moved_in : List Event → List Instant → List Event
  moved_in [] taken = []
  moved_in (o ∷ os) taken = elim o.recurrence_id [
    | none ↦ moved_in os taken
    | some rid ↦
        let skipped = moved_in os taken in
        let shown = o ∷ moved_in os (taken ++ (rid ∷ [])) in
        if not (contains exdates rid) && not (contains taken rid) && overlaps o from to
        then shown
        else skipped
  ]

  unfoldable pub occurrences_with_overrides : List Event → List Event
  occurrences_with_overrides occs =
      if is_nil exdates && is_nil overrides
      then occs
      else let pass = substitute_all occs in
        sort_by starts_first (pass.out ++ moved_in overrides pass.taken)
