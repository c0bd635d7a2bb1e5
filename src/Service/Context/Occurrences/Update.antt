-- ===== src/Service/Context/Occurrences/Update.antt =====
-- crates/mgmt-service/src/context.rs: one occurrence of a series edited. The expansion of a rule is an argument,
-- and so are the uid that a new series gets and the times of the two writes. The outer `none` is a panic.
use mgmtui.Base.{
  true, false, ℕ, ◌+◌, ◌-◌, max, Text, text_eq, ◌==◌, nat_eq, option_eq, Bool, false, not, Option,
  none, some, List, [], ◌∷◌, ◌++◌, any, keep, leb, if◌then◌else◌,
}
use mgmtui.Core.{Error, not_found}
use mgmtui.Domain.Instant.{Instant, second, last_instant}
use mgmtui.Domain.Recurrence.{RecurrenceRule, rule_eq}
use mgmtui.Domain.Event.{Event}
use mgmtui.Markdown.{Yaml, Frontmatter}
use mgmtui.Service.Context.{EventStore, Context, of_series, series, record_change}
use mgmtui.Service.Context.Mutations.{ensure_writable, put_event}
use mgmtui.Service.Context.Occurrences.{
  OccurrenceScope, this, following, all, truncate_before, is_whole,
}

abbrev pub length : List Event → ℕ
length [] = 0
length (e ∷ es) = length es + 1

-- The whole series edited: the exceptions and the sync state are the master's.
abbrev pub as_master : Text → Event → Event → Event
as_master uid master event = record event {
  uid = uid;
  recurrence_id = none;
  exdates = master.exdates;
  sync = master.sync;
}

abbrev pub as_override : Text → Instant → Event → Event
as_override uid at event = record event {
  uid = uid;
  recurrence_id = some at;
  rrule = none;
  exdates = [];
}

abbrev pub other_slots : Instant → List Event → List Event
other_slots at comps = keep (λ o. not (o.recurrence_id == some at)) comps

abbrev pub is_later : Instant → Event → Bool
is_later at o = elim o.recurrence_id [ none ↦ false | some r ↦ leb at r ]

module _ (occurrences_in : Event → Instant → Instant → List Event) where
  -- `as u32` and the saturating subtraction: the window holds fewer than 2^32 occurrences.
  unfoldable pub subtract_head_count :
      Option RecurrenceRule → Event → Instant → Option RecurrenceRule
  subtract_head_count none master at = none
  subtract_head_count (some r) master at = elim r.count [
    | none ↦ some r
    | some count ↦
        some (record r {
          count = some (max (count - length (occurrences_in master master.start at)) 1);
        })
  ]

  unfoldable pub tail_rule : Event → Event → Instant → Option RecurrenceRule
  tail_rule master event at = elim event.rrule [
    | none ↦ subtract_head_count master.rrule master at
    | some r ↦ if some r == master.rrule then subtract_head_count (some r) master at else some r
  ]

  -- The new series from `at` on.
  abbrev pub tail_of : Text → Event → Event → Instant → Event
  tail_of new_uid master event at = record event {
    uid = new_uid;
    recurrence_id = none;
    exdates = keep (leb at) master.exdates;
    rrule = tail_rule master event at;
    sync = record { href = none; etag = none };
  }

  -- Whether the tail has an occurrence at the slot. The end of the window is to be a valid instant.
  abbrev pub generates : Event → Instant → Option Bool
  generates event r =
      if leb (r + second) last_instant
      then some (any (λ x. x.start == r) (occurrences_in event r (r + second)))
      else none

  abbrev pub onto : Bool → Event → Option (List Event) → Option (List Event)
  onto keeps o none = none
  onto true o (some os) = some (o ∷ os)
  onto false o (some os) = some os

  -- The overrides whose slot the tail still generates.
  unfoldable pub carried : Text → Event → List Event → Option (List Event)
  carried new_uid event [] = some []
  carried new_uid event (o ∷ os) =
      let rest = carried new_uid event os in
      elim o.recurrence_id [
        | none ↦ rest
        | some r ↦ elim (generates event r) [
          | none ↦ none
          | some keeps ↦
              onto keeps (record o { uid = new_uid; sync = record { href = none; etag = none } })
                rest
        ]
      ]

  module _ {D : Type 0} (yaml : Yaml Frontmatter) (store : EventStore D) where
    -- The second write of a split, once the first went through.
    abbrev pub continued :
        Text
        → Event
        → Option (List Event)
        → Instant
        → Context D × Option Error
        → Option (Context D × Option Error)
    continued new_uid tail comps later (c, some x) = some (c, some x)
    continued new_uid tail none later (c, none) = none
    continued new_uid tail (some comps) later (c, none) =
        some (record_change yaml store (of_series new_uid (tail ∷ comps)) later c)

    unfoldable pub split_series :
        Text
        → Text
        → Instant
        → Event
        → List Event
        → Event
        → Instant
        → Instant
        → Context D
        → Option (Context D × Option Error)
    split_series uid new_uid at master comps event now later c = elim (truncate_before master at) [
      | none ↦ none
      | some old ↦
          let tail = tail_of new_uid master event at in
          continued new_uid tail (carried new_uid tail (keep (is_later at) comps)) later (
            record_change yaml store (of_series uid (old ∷ keep (λ o. not (is_later at o)) comps))
              now c)
    ]

    abbrev pub update_in :
        Text
        → Text
        → Instant
        → Event
        → List Event
        → Event
        → OccurrenceScope
        → Instant
        → Instant
        → Context D
        → Option (Context D × Option Error)
    update_in uid new_uid at master comps event this now later c = some (
        record_change yaml store
          (of_series uid (master ∷ (other_slots at comps ++ (as_override uid at event ∷ [])))) now
          c)
    update_in uid new_uid at master comps event following now later c =
        split_series uid new_uid at master comps event now later c
    update_in uid new_uid at master comps event all now later c =
        split_series uid new_uid at master comps event now later c

    unfoldable pub update_occurrence :
        Text
        → Text
        → Instant
        → Event
        → OccurrenceScope
        → Instant
        → Instant
        → Context D
        → Option (Context D × Option Error)
    update_occurrence uid new_uid at event scope now later c = elim (series c.event_cache uid) [
      | [] ↦ some (c, some not_found)
      | master ∷ comps ↦ elim (ensure_writable c master.calendar) [
        | some x ↦ some (c, some x)
        | none ↦
            if is_whole scope master
            then some (put_event yaml store (as_master uid master event) now c)
            else update_in uid new_uid at master comps event scope now later c
      ]
    ]
