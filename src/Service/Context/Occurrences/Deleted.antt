-- ===== src/Service/Context/Occurrences/Deleted.antt =====
-- crates/mgmt-service/src/context.rs: what is shown of a series after one occurrence was deleted.
use mathlib.Core.Path.{subst}
use mgmtui.Base.{
  not, ◌≢◌, Text, text_eq, ◌==◌, ==-same, nat_eq, option_eq, not, contains, Bool, Bool-cases, true,
  false, none, some, List, [], ◌∷◌, ◌++◌, ◌≡◌, arith, sym, ◌∙◌, ap, All, All-map, All-In,
  Option-cases, inl, inr, keep,
}
use mgmtui.Domain.Instant.{Instant}
use mgmtui.Domain.Recurrence.{RecurrenceRule}
use mgmtui.Domain.Event.{Event}
use mgmtui.Domain.Occurrence.Exceptions.{IsShown, occurrences_with_overrides-IsShown}
use mgmtui.Markdown.{Yaml, Frontmatter}
use mgmtui.Service.Context.{
  EventStore, Context, of_series, members, series, stamp_events, record_change,
}
use mgmtui.Service.Context.Series.{AreOf, series_of, record_series}
use mgmtui.Service.Context.Mutations.{master_by_uid, ensure_writable}
use mgmtui.Service.Context.Occurrences.{this, occurrences, excluded, without, delete_occurrence}

-- The slot of an occurrence: its original start.
abbrev pub slot : Event → Instant
slot e = elim e.recurrence_id [ none ↦ e.start | some r ↦ r ]

contains-append : (xs : List Instant) (t : Instant) → contains (xs ++ (t ∷ [])) t ≡ true
contains-append [] t = ground (arith, ==-same t)
contains-append (x ∷ xs) t = ground (arith, contains-append xs t)

excluded-contains : (at : Instant) (e : Event) → contains (excluded at e).exdates at ≡ true
excluded-contains at e = elim (Bool-cases (contains e.exdates at)) [
  | inl k ↦ ground arith
  | inr k ↦ ground (arith, contains-append e.exdates at)
]

shown-slot :
    (exdates : List Instant) (overrides occs : List Event) (at from to : Instant) (e : Event)
    → contains exdates at ≡ true
    → All (λ o. o.recurrence_id ≡ none) occs
    → IsShown exdates overrides from to occs e
    → slot e ≢ at
shown-slot exdates overrides occs at from to e x h (inl (m, k, n)) =
    λ s. let plain = All-In _ e occs h m in absurd (ground (arith, ap (contains exdates) (sym s)))
shown-slot exdates overrides occs at from to e x h (inr (m, v, rid, r, k)) =
    λ s. absurd (ground (arith, ap (contains exdates) (sym s)))

pub master_by_uid-members :
    (es : List Event) (uid : Text) (m : Event) (comps : List Event)
    → members es uid ≡ m ∷ comps
    → m.recurrence_id ≡ none
    → master_by_uid es uid ≡ some m
master_by_uid-members [] uid m comps h k = absurd (ground arith)
master_by_uid-members (e ∷ es) uid m comps h k = elim (Bool-cases (e.uid == uid)) [
  | inl q ↦ ground arith
  | inr q ↦ ground (arith, master_by_uid-members es uid m comps (ground arith) k)
]

pub AreOf-keep :
    (p : Event → Bool) (uid : Text) (es : List Event) → AreOf uid es → AreOf uid (keep p es)
AreOf-keep p uid [] h = tt
AreOf-keep p uid (e ∷ es) h = elim (Bool-cases (p e)) [
  | inl q ↦ rw q (h.0, AreOf-keep p uid es h.1)
  | inr q ↦ rw q (AreOf-keep p uid es h.1)
]

excluded-uid : (at : Instant) (e : Event) → (excluded at e).uid ≡ e.uid
excluded-uid at e = ground arith

excluded-slot : (at : Instant) (e : Event) → (excluded at e).recurrence_id ≡ e.recurrence_id
excluded-slot at e = ground arith

abbrev kept : Instant → List Event → List Event
kept at comps = keep (λ o. not (o.recurrence_id == some at)) comps

module _ {D : Type 0} (yaml : Yaml Frontmatter) (store : EventStore D) where
  delete_occurrence-record :
      (uid : Text) (at now : Instant) (c c' : Context D) (master : Event) (comps : List Event)
      (r : RecurrenceRule)
      → series c.event_cache uid ≡ master ∷ comps
      → master.rrule ≡ some r
      → delete_occurrence yaml store uid at this now c ≡ some (c', none)
      → record_change yaml store (of_series uid (excluded at master ∷ kept at comps)) now c
        ≡ (c', none)
  unfolding delete_occurrence without
  delete_occurrence-record uid at now c c' master comps r s k e =
      elim (Option-cases (ensure_writable c master.calendar)) [
        | inl n ↦ ground arith
        | inr (x, n) ↦ absurd (ground arith)
      ]

  -- After the deletion of one occurrence of a recurring series that went through: the series has a master,
  -- and no window shows an occurrence with that slot, if plain expansion makes occurrences without a
  -- `recurrence_id`. The components of every other uid are as they were.
  pub delete_occurrence-this :
      (uid : Text) (at now : Instant) (c c' : Context D) (master : Event) (comps occs : List Event)
      (r : RecurrenceRule) (from to : Instant) (other : Text)
      → series c.event_cache uid ≡ master ∷ comps
      → master.recurrence_id ≡ none
      → master.rrule ≡ some r
      → All (λ o. o.recurrence_id ≡ none) occs
      → delete_occurrence yaml store uid at this now c ≡ some (c', none)
      → (m : Event) × (master_by_uid c'.event_cache uid ≡ some m)
        × All (λ e. slot e ≢ at) (occurrences c'.event_cache m from to occs)
        × ((uid == other) ≡ false → members c'.event_cache other ≡ members c.event_cache other)
  unfolding occurrences
  delete_occurrence-this uid at now c c' master comps occs r from to other s k q h e =
      let done = delete_occurrence-record uid at now c c' master comps r s q e in
      let whole : AreOf uid (master ∷ comps) = subst (AreOf uid) s (series_of c.event_cache uid) in
      let left : AreOf uid (excluded at master ∷ kept at comps) =
        (excluded-uid at master ∙ whole.0, AreOf-keep _ uid comps whole.1) in
      let m : Event = record (excluded at master) { modified = some now } in
      let (found, _) =
        record_series yaml store uid (excluded at master ∷ kept at comps) now c c' uid left done in
      let (rest, _) =
        record_series yaml store uid (excluded at master ∷ kept at comps) now c c' other left
          done in
      let own : members c'.event_cache uid ≡ m ∷ stamp_events now (kept at comps) =
        ground (arith, ==-same uid) in
      (
        m,
        master_by_uid-members c'.event_cache uid m (stamp_events now (kept at comps)) own
            (excluded-slot at master ∙ k),
        All-map _ _
            (λ x p. shown-slot m.exdates _ occs at from to x (excluded-contains at master) h p) _
            (occurrences_with_overrides-IsShown m.exdates _ from to occs),
        λ d. ground arith,
      )
