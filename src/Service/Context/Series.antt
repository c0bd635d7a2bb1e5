-- ===== src/Service/Context/Series.antt =====
-- crates/mgmt-service/src/context.rs: undo of a change of a series, and of the deletion of an event.
use mathlib.Core.List.{append-nil}
use mgmtui.Base.Sort.{sort_by-All}
use mgmtui.Sync.Series.{master_first}
use mgmtui.Service.Context.Undo.{Outcome-cases}
use mgmtui.Service.Context.{members}
use mgmtui.Base.{
  Text, text_eq, ◌==◌, ==-same, Bool, Bool-cases, true, false, not, none, some, List, [], ◌∷◌, ◌++◌,
  ◌≡◌, refl, arith, keep, All, if◌then◌else◌, inl, inr, ◌∙◌, ap,
}
use mgmtui.Base.Result.{ok, Result-cases}
use mgmtui.Domain.Instant.{Instant}
use mgmtui.Domain.Event.{Event}
use mgmtui.Markdown.{Yaml, Frontmatter}
use mgmtui.Service.Context.{
  EventStore, Snapshot, of_series, of_event, Context, event_by_uid, series, upsert_into,
  stamp_events, stamp_modified, write_comps, apply_series, apply_event, apply, record_change, undo,
  redoable,
}

members-append :
    (xs ys : List Event) (uid : Text) → members (xs ++ ys) uid ≡ members xs uid ++ members ys uid
members-append [] ys uid = refl
members-append (x ∷ xs) ys uid = ground (arith, members-append xs ys uid)

members-keep :
    (es : List Event) (uid other : Text)
    → members (keep (λ e. not (e.uid == uid)) es) other
      ≡ (if uid == other then [] else members es other)
members-keep [] uid other = ground arith
members-keep (e ∷ es) uid other = ground (arith, members-keep es uid other)

-- The components are those of one uid.
abbrev pub AreOf : Text → List Event → Type 0
AreOf uid comps = All (λ e. e.uid ≡ uid) comps

members-AreOf :
    (comps : List Event) (uid other : Text)
    → AreOf uid comps
    → members comps other ≡ (if uid == other then comps else [])
members-AreOf [] uid other h = ground arith
members-AreOf (e ∷ es) uid other h = ground (arith, members-AreOf es uid other h.1)

stamp_events-AreOf :
    (now : Instant) (comps : List Event) (uid : Text)
    → AreOf uid comps
    → AreOf uid (stamp_events now comps)
stamp_events-AreOf now [] uid h = tt
stamp_events-AreOf now (e ∷ es) uid h = (h.0, stamp_events-AreOf now es uid h.1)

chosen-append :
    (b : Bool) (xs comps : List Event)
    → (if b then [] else xs) ++ (if b then comps else []) ≡ (if b then comps else xs)
chosen-append true xs comps = refl
chosen-append false xs comps = append-nil xs

members_of : (es : List Event) (uid : Text) → AreOf uid (members es uid)
members_of [] uid = tt
members_of (e ∷ es) uid = elim (Bool-cases (e.uid == uid)) [
  | inl h ↦ rw h (ground arith, members_of es uid)
  | inr h ↦ rw h (members_of es uid)
]

pub series_of : (es : List Event) (uid : Text) → AreOf uid (series es uid)
unfolding series
series_of es uid = sort_by-All master_first (λ e. e.uid ≡ uid) (members es uid) (members_of es uid)

event_by_uid-some :
    (es : List Event) (uid : Text) (e : Event) → event_by_uid es uid ≡ some e → e.uid ≡ uid
event_by_uid-some [] uid e h = absurd (ground arith)
event_by_uid-some (x ∷ es) uid e h = elim (Bool-cases (x.uid == uid)) [
  | inl k ↦ ground arith
  | inr k ↦ event_by_uid-some es uid e (ground arith)
]

-- An event put back where its uid has no component is the only component.
members-restored :
    (es : List Event) (e : Event) (uid : Text)
    → members es uid ≡ []
    → e.uid ≡ uid
    → members (upsert_into (λ x. x.uid) es e) uid ≡ e ∷ []
unfolding upsert_into
members-restored [] e uid h k = ground (arith, ==-same uid)
members-restored (x ∷ es) e uid h k = elim (Bool-cases (x.uid == uid)) [
  | inl m ↦ absurd (ground arith)
  | inr m ↦ ground (arith, members-restored es e uid (ground arith) k)
]

module _ {D : Type 0} (yaml : Yaml Frontmatter) (store : EventStore D) where
  -- A change of a series that goes through.
  apply_series-eq-ok :
      (uid : Text) (comps : List Event) (c c' : Context D) (inverse : Snapshot) (other : Text)
      → AreOf uid comps
      → apply_series yaml store uid comps c ≡ (c', ok inverse)
      → (members c'.event_cache other
          ≡ (if uid == other then comps else members c.event_cache other))
        × (inverse ≡ of_series uid (series c.event_cache uid))
        × (c'.undo_stack ≡ c.undo_stack)
  unfolding apply_series
  apply_series-eq-ok uid comps c c' inverse other h e =
      elim (Result-cases (write_comps yaml store c.events uid comps)) [
        | inr (x, v) ↦ absurd (ground arith)
        | inl (events, v) ↦
            let cache : c'.event_cache ≡ keep (λ e. not (e.uid == uid)) c.event_cache ++ comps =
              ground arith in
            (
              rw cache (
                  members-append (keep (λ e. not (e.uid == uid)) c.event_cache) comps other
                  ∙ rw (members-keep c.event_cache uid other, members-AreOf comps uid other h)
                      (chosen-append (uid == other) (members c.event_cache other) comps)),
              ground arith,
              ground arith,
            )
      ]

  pub record_series :
      (uid : Text) (comps : List Event) (now : Instant) (c c' : Context D) (other : Text)
      → AreOf uid comps
      → record_change yaml store (of_series uid comps) now c ≡ (c', none)
      → (members c'.event_cache other
          ≡ (if uid == other then stamp_events now comps else members c.event_cache other))
        × (c'.undo_stack ≡ of_series uid (series c.event_cache uid) ∷ c.undo_stack)
  unfolding record_change apply stamp_modified
  record_series uid comps now c c' other h e =
      let before : Context D = record c { dirty = true } in
      elim (Outcome-cases (apply_series yaml store uid (stamp_events now comps) before)) [
        | inr (c1, x, k) ↦ absurd (ground arith)
        | inl (c1, inverse, k) ↦
            let (found, inv, u) =
              apply_series-eq-ok uid (stamp_events now comps) before c1 inverse other
                (stamp_events-AreOf now comps uid h) k in
            (ground arith, ground arith)
      ]

  undo_series :
      (uid : Text) (comps : List Event) (rest : List Snapshot) (c c' : Context D) (b : Bool)
      (other : Text)
      → c.undo_stack ≡ of_series uid comps ∷ rest
      → AreOf uid comps
      → undo yaml store c ≡ (c', ok b)
      → members c'.event_cache other ≡ (if uid == other then comps else members c.event_cache other)
  unfolding undo apply
  undo_series uid comps rest c c' b other s h e =
      let before : Context D = record c { undo_stack = rest; dirty = true } in
      let whole : undo yaml store c
          ≡ redoable yaml store (apply_series yaml store uid comps before) =
        rw (s, undo) refl in
      elim (Outcome-cases (apply_series yaml store uid comps before)) [
        | inr (c1, x, k) ↦ absurd (ground arith)
        | inl (c1, inverse, k) ↦
            let (found, inv, u) = apply_series-eq-ok uid comps before c1 inverse other h k in
            ground arith
      ]

  -- Undoing a change of a whole series that went through: the components of the uid
  -- are those from before the change, the master first, and those of every other uid are as they were,
  -- if the undo goes through.
  pub undo-of_series :
      (uid : Text) (comps : List Event) (now : Instant) (c c1 c2 : Context D) (b : Bool)
      (other : Text)
      → AreOf uid comps
      → record_change yaml store (of_series uid comps) now c ≡ (c1, none)
      → undo yaml store c1 ≡ (c2, ok b)
      → members c2.event_cache other
        ≡ (if uid == other then series c.event_cache uid else members c.event_cache other)
  undo-of_series uid comps now c c1 c2 b other h e u =
      let (found, stack) = record_series uid comps now c c1 other h e in
      let undone =
        undo_series uid (series c.event_cache uid) c.undo_stack c1 c2 b other stack
          (series_of c.event_cache uid) u in
      ground arith

  apply_event-eq-ok :
      (uid : Text) (c c' : Context D) (inverse : Snapshot)
      → apply_event yaml store uid none c ≡ (c', ok inverse)
      → (c'.event_cache ≡ keep (λ e. not (e.uid == uid)) c.event_cache)
        × (inverse ≡ of_event uid (event_by_uid c.event_cache uid))
        × (c'.undo_stack ≡ c.undo_stack)
  unfolding apply_event
  apply_event-eq-ok uid c c' inverse e = elim (Result-cases (store.delete c.events uid)) [
    | inr (x, v) ↦ absurd (ground arith)
    | inl (events, v) ↦ (ground arith, ground arith, ground arith)
  ]

  record_delete :
      (uid : Text) (now : Instant) (c c' : Context D)
      → record_change yaml store (of_event uid none) now c ≡ (c', none)
      → (c'.event_cache ≡ keep (λ e. not (e.uid == uid)) c.event_cache)
        × (c'.undo_stack ≡ of_event uid (event_by_uid c.event_cache uid) ∷ c.undo_stack)
  unfolding record_change apply stamp_modified
  record_delete uid now c c' e =
      let before : Context D = record c { dirty = true } in
      elim (Outcome-cases (apply_event yaml store uid none before)) [
        | inr (c1, x, k) ↦ absurd (ground arith)
        | inl (c1, inverse, k) ↦
            let (found, inv, u) = apply_event-eq-ok uid before c1 inverse k in
            (ground arith, ground arith)
      ]

  undo_event :
      (uid : Text) (e : Event) (rest : List Snapshot) (c c' : Context D) (b : Bool)
      → c.undo_stack ≡ of_event uid (some e) ∷ rest
      → undo yaml store c ≡ (c', ok b)
      → c'.event_cache ≡ upsert_into (λ x. x.uid) c.event_cache e
  unfolding undo apply apply_event
  undo_event uid e rest c c' b s u =
      let whole : undo yaml store c
          ≡ redoable yaml store
              (apply_event yaml store uid (some e) (record c { undo_stack = rest; dirty = true })) =
        rw (s, undo) refl in
      elim (Result-cases (store.upsert c.events e)) [
        | inr (x, v) ↦ absurd (ground arith)
        | inl (events, v) ↦ ground arith
      ]

  -- Undoing the deletion of an event, when both go through, brings back the first component that the cache
  -- had for its uid and no other: the overrides of a series are lost.
  pub undo-delete_event :
      (uid : Text) (e : Event) (now : Instant) (c c1 c2 : Context D) (b : Bool)
      → event_by_uid c.event_cache uid ≡ some e
      → record_change yaml store (of_event uid none) now c ≡ (c1, none)
      → undo yaml store c1 ≡ (c2, ok b)
      → members c2.event_cache uid ≡ e ∷ []
  undo-delete_event uid e now c c1 c2 b found h u =
      let (cache, stack) = record_delete uid now c c1 h in
      let back =
        undo_event uid e c.undo_stack c1 c2 b
          (stack ∙ ap (λ o. of_event uid o ∷ c.undo_stack) found) u in
      rw (back, cache)
        (members-restored (keep (λ e. not (e.uid == uid)) c.event_cache) e uid
          (members-keep c.event_cache uid uid ∙ ground (arith, ==-same uid))
          (event_by_uid-some c.event_cache uid e found))
