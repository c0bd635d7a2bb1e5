-- ===== src/Service/Context/Occurrences/Updated.antt =====
-- crates/mgmt-service/src/context.rs: what is shown of a series after one occurrence was edited.
use mathlib.Core.Path.{subst}
use mgmtui.Base.{
  Text, text_eq, ◌==◌, ==-same, nat_eq, option_eq, contains, true, false, none, some, List, [], ◌∷◌,
  ◌++◌, ◌≡◌, refl, arith, In, Option-cases, inl, inr, keep, if◌then◌else◌,
}
use mgmtui.Domain.Instant.{Instant}
use mgmtui.Domain.Recurrence.{RecurrenceRule}
use mgmtui.Domain.Event.{Event, overlaps}
use mgmtui.Domain.Occurrence.{override_of}
use mgmtui.Domain.Occurrence.Overrides.{occurrences_with_overrides-override}
use mgmtui.Markdown.{Yaml, Frontmatter}
use mgmtui.Service.Context.{
  EventStore, Context, of_series, members, series, stamp_events, record_change,
}
use mgmtui.Service.Context.Series.{AreOf, series_of, record_series}
use mgmtui.Service.Context.Mutations.{master_by_uid, ensure_writable}
use mgmtui.Service.Context.Occurrences.{this, has_slot, occurrences}
use mgmtui.Service.Context.Occurrences.Update.{other_slots, as_override, update_occurrence}
use mgmtui.Service.Context.Occurrences.Deleted.{master_by_uid-members, AreOf-keep}

keep-members :
    (es : List Event) (uid : Text)
    → keep (λ o. if o.uid == uid then has_slot o else false) es ≡ keep has_slot (members es uid)
keep-members [] uid = refl
keep-members (e ∷ es) uid = ground (arith, keep-members es uid)

-- The override that was put last is the only one of its slot.
override_of-last :
    (at now : Instant) (comps : List Event) (o : Event)
    → o.recurrence_id ≡ some at
    → override_of (keep has_slot (stamp_events now (other_slots at comps ++ (o ∷ [])))) at
      ≡ some (record o { modified = some now })
override_of-last at now [] o h = ground (arith, ==-same at)
override_of-last at now (x ∷ comps) o h = elim (Option-cases x.recurrence_id) [
  | inl n ↦ ground (arith, override_of-last at now comps o h)
  | inr (r, n) ↦ ground (arith, override_of-last at now comps o h)
]

AreOf-snoc :
    (uid : Text) (es : List Event) (e : Event)
    → AreOf uid es
    → e.uid ≡ uid
    → AreOf uid (es ++ (e ∷ []))
AreOf-snoc uid [] e h k = (k, tt)
AreOf-snoc uid (x ∷ es) e h k = (h.0, AreOf-snoc uid es e h.1 k)

module _ (occurrences_in : Event → Instant → Instant → List Event) {D : Type 0}
    (yaml : Yaml Frontmatter) (store : EventStore D) where
  update_occurrence-record :
      (uid new_uid : Text) (at now later : Instant) (event : Event) (c c' : Context D)
      (master : Event) (comps : List Event) (r : RecurrenceRule)
      → series c.event_cache uid ≡ master ∷ comps
      → master.rrule ≡ some r
      → update_occurrence occurrences_in yaml store uid new_uid at event this now later c
        ≡ some (c', none)
      → record_change yaml store
          (of_series uid (master ∷ (other_slots at comps ++ (as_override uid at event ∷ []))))
          now
          c
        ≡ (c', none)
  unfolding update_occurrence
  update_occurrence-record uid new_uid at now later event c c' master comps r s k e =
      elim (Option-cases (ensure_writable c master.calendar)) [
        | inl n ↦ ground arith
        | inr (x, n) ↦ absurd (ground arith)
      ]

  -- After the edit of one occurrence of a recurring series that went through: the series has a master, and
  -- every window that the edited event overlaps shows it, as the override of the slot with a new stamp,
  -- if the slot is not excluded.
  pub update_occurrence-this :
      (uid new_uid : Text) (at now later : Instant) (event : Event) (c c' : Context D)
      (master : Event) (comps occs : List Event) (r : RecurrenceRule) (from to : Instant)
      → series c.event_cache uid ≡ master ∷ comps
      → master.recurrence_id ≡ none
      → master.rrule ≡ some r
      → contains master.exdates at ≡ false
      → overlaps event from to ≡ true
      → update_occurrence occurrences_in yaml store uid new_uid at event this now later c
        ≡ some (c', none)
      → (m : Event) × (master_by_uid c'.event_cache uid ≡ some m)
        × In
            (record event {
              uid = uid;
              recurrence_id = some at;
              rrule = none;
              exdates = [];
              modified = some now;
            })
            (occurrences c'.event_cache m from to occs)
  unfolding occurrences overlaps
  update_occurrence-this uid new_uid at now later event c c' master comps occs r from to s k q x v
        e =
      let done =
        update_occurrence-record uid new_uid at now later event c c' master comps r s q e in
      let whole : AreOf uid (master ∷ comps) = subst (AreOf uid) s (series_of c.event_cache uid) in
      let put : List Event = other_slots at comps ++ (as_override uid at event ∷ []) in
      let left : AreOf uid (master ∷ put) =
        (whole.0, AreOf-snoc uid _ _ (AreOf-keep _ uid comps whole.1) refl) in
      let m : Event = record master { modified = some now } in
      let (found, _) = record_series yaml store uid (master ∷ put) now c c' uid left done in
      let own : members c'.event_cache uid ≡ m ∷ stamp_events now put =
        ground (arith, ==-same uid) in
      let same : m.uid ≡ uid = whole.0 in
      let slots : keep (λ o. if o.uid == m.uid then has_slot o else false) c'.event_cache
          ≡ keep has_slot (stamp_events now put) =
        rw (same, keep-members c'.event_cache uid, own) (rw k refl) in
      (
        m,
        master_by_uid-members c'.event_cache uid m (stamp_events now put) own k,
        occurrences_with_overrides-override m.exdates _ from to _ at x v occs
            (rw slots (override_of-last at now comps (as_override uid at event) refl)),
      )
