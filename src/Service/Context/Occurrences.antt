-- ===== src/Service/Context/Occurrences.antt =====
-- crates/mgmt-service/src/context.rs: one occurrence of a series deleted, and an event moved. An instant out
-- of the range of the date library is a panic, the outer `none`.
pub mod Deleted
pub mod Update
pub mod Updated
use mgmtui.Base.{
  ◌-◌, Text, text, text_eq, ◌==◌, nat_eq, option_eq, contains, Bool, true, false, ◌||◌, not, Option,
  none, some, List, [], ◌∷◌, ◌++◌, keep, leb, ltb, if◌then◌else◌,
}
use mgmtui.Base.Int.{ℤ}
use mgmtui.Base.Result.{Result, ok, err}
use mgmtui.Core.{Error, invalid, not_found}
use mgmtui.Domain.Instant.{Instant, second}
use mgmtui.Domain.Event.{Event, shift, moved_by}
use mgmtui.Domain.Occurrence.{occurrences_with_overrides}
use mgmtui.Markdown.{Yaml, Frontmatter}
use mgmtui.Service.Context.{EventStore, Context, of_series, series, record_change}
use mgmtui.Service.Context.Mutations.{master_by_uid, ensure_writable, put_event, delete_event}

pub data OccurrenceScope : Type 0 where
  this : OccurrenceScope
  following : OccurrenceScope
  all : OccurrenceScope

unfoldable pub scope_from_str : Text → Result Error OccurrenceScope
scope_from_str s =
    if s == text "this"
    then ok this
    else if s == text "following"
    then ok following
    else if s == text "all"
    then ok all
    else err invalid

abbrev pub has_slot : Event → Bool
has_slot o = elim o.recurrence_id [ none ↦ false | some r ↦ true ]

-- `MgmtContext::occurrences`, over the occurrences that plain expansion gives for the window.
unfoldable pub occurrences : List Event → Event → Instant → Instant → List Event → List Event
occurrences cache master from to occs =
    occurrences_with_overrides master.exdates
      (keep (λ o. if o.uid == master.uid then has_slot o else false) cache) from to occs

abbrev pub excluded : Instant → Event → Event
excluded at master =
    if contains master.exdates at
    then master
    else record master { exdates = master.exdates ++ (at ∷ []) }

unfoldable pub truncate_before : Event → Instant → Option Event
truncate_before master at = elim master.rrule [
  | none ↦ some master
  | some r ↦
      if leb second at
      then some
          (record master { rrule = some (record r { count = none; until = some (at - second) }) })
      else none
]

abbrev pub is_before : Instant → Event → Bool
is_before at o = elim o.recurrence_id [ none ↦ false | some r ↦ ltb r at ]

-- The series that is left; the scope is not `all`.
unfoldable pub without : OccurrenceScope → Instant → Event → List Event → Option (List Event)
without this at master comps =
    some (excluded at master ∷ keep (λ o. not (o.recurrence_id == some at)) comps)
without following at master comps = elim (truncate_before master at) [
  | none ↦ none
  | some m ↦ some (m ∷ keep (is_before at) comps)
]
without all at master comps = elim (truncate_before master at) [
  | none ↦ none
  | some m ↦ some (m ∷ keep (is_before at) comps)
]

abbrev pub is_whole : OccurrenceScope → Event → Bool
is_whole scope master =
    elim scope [ all ↦ true | _ ↦ false ] || elim master.rrule [ none ↦ true | some r ↦ false ]

module _ {D : Type 0} (yaml : Yaml Frontmatter) (store : EventStore D) where
  abbrev pub recorded :
      Text → Instant → Context D → Option (List Event) → Option (Context D × Option Error)
  recorded uid now c none = none
  recorded uid now c (some comps) = some (record_change yaml store (of_series uid comps) now c)

  unfoldable pub delete_occurrence :
      Text → Instant → OccurrenceScope → Instant → Context D → Option (Context D × Option Error)
  delete_occurrence uid at scope now c = elim (series c.event_cache uid) [
    | [] ↦ some (c, some not_found)
    | master ∷ comps ↦ elim (ensure_writable c master.calendar) [
      | some x ↦ some (c, some x)
      | none ↦
          if is_whole scope master
          then some (delete_event yaml store uid now c)
          else recorded uid now c (without scope at master comps)
    ]
  ]

  unfoldable pub reschedule_event :
      Text → ℤ → Instant → Context D → Option (Context D × Option Error)
  reschedule_event uid delta now c = elim (master_by_uid c.event_cache uid) [
    | none ↦ some (c, some not_found)
    | some e ↦ elim (shift e delta) [ none ↦ none | some e' ↦ some (put_event yaml store e' now c) ]
  ]

  unfoldable pub adjust_event_start :
      Text → ℤ → Instant → Context D → Option (Context D × Option Error)
  adjust_event_start uid delta now c = elim (master_by_uid c.event_cache uid) [
    | none ↦ some (c, some not_found)
    | some e ↦ elim (moved_by e.start delta) [
      | none ↦ none
      | some new_start ↦
          if ltb new_start e.finish
          then some (put_event yaml store (record e { start = new_start }) now c)
          else some (c, none)
    ]
  ]

  unfoldable pub adjust_event_end :
      Text → ℤ → Instant → Context D → Option (Context D × Option Error)
  adjust_event_end uid delta now c = elim (master_by_uid c.event_cache uid) [
    | none ↦ some (c, some not_found)
    | some e ↦ elim (moved_by e.finish delta) [
      | none ↦ none
      | some new_end ↦
          if ltb e.start new_end
          then some (put_event yaml store (record e { finish = new_end }) now c)
          else some (c, none)
    ]
  ]
