-- ===== src/Tests/Occurrence.antt =====
-- Runs of the exceptions and of the grouping of a series.
use mgmtui.Base.{
  text_eq, Text, ◌+◌, text, nat_eq, option_eq, ◌≡◌, refl, inl, inr, false, none, some, List, [],
  ◌∷◌, All, In,
}
use mgmtui.Base.Sort.{sort_by}
use mgmtui.Domain.Instant.{Instant}
use mgmtui.Domain.Event.{Event, confirmed, opaque, public, overlaps}
use mgmtui.Domain.Occurrence.{occurrences_with_overrides, substitute, substitute_all, moved_in}
use mgmtui.Sync.Series.{group_series, place, place_all, master_first}
use mgmtui.Sync.Series.Groups.{AreSeries, group_series-AreSeries}
use mgmtui.Sync.Series.Members.{IsGrouped, group_series-IsGrouped}
use mgmtui.Domain.Occurrence.Overrides.{occurrences_with_overrides-override}
use mgmtui.Domain.Occurrence.Exceptions.{IsShown, occurrences_with_overrides-IsShown}

-- A daily series of three occurrences, the first excluded and the second moved.
abbrev standup : Instant → Event
standup t = record {
  uid = text "s";
  calendar = text "work";
  summary = text "Standup";
  project = none;
  description = none;
  location = none;
  conference_url = none;
  all_day = false;
  start = t;
  finish = t + 1;
  rrule = none;
  exdates = [];
  recurrence_id = none;
  alarms = [];
  status = confirmed;
  modified = none;
  sync = record { href = none; etag = none };
  transp = opaque;
  class = public;
  color = none;
  url = none;
  categories = [];
  organizer = none;
  attendees = [];
}

abbrev moved : Event
moved = record (standup 39) { recurrence_id = some 33 }

abbrev occs : List Event
occs = standup 9 ∷ standup 33 ∷ standup 57 ∷ []

shown : occurrences_with_overrides (9 ∷ []) (moved ∷ []) 0 100 occs ≡ moved ∷ standup 57 ∷ []
unfolding occurrences_with_overrides sort_by substitute substitute_all moved_in overlaps nat_eq
    option_eq
shown = refl

occurrences_with_overrides-IsShown_example :
    All
      (IsShown (9 ∷ []) (moved ∷ []) 0 100 occs)
      (occurrences_with_overrides (9 ∷ []) (moved ∷ []) 0 100 occs)
occurrences_with_overrides-IsShown_example =
    occurrences_with_overrides-IsShown (9 ∷ []) (moved ∷ []) 0 100 occs

occurrences_with_overrides-override_example :
    In moved (occurrences_with_overrides (9 ∷ []) (moved ∷ []) 0 100 occs)
unfolding nat_eq option_eq overlaps
occurrences_with_overrides-override_example =
    occurrences_with_overrides-override (9 ∷ []) (moved ∷ []) 0 100 moved 33 refl refl occs refl

-- The override comes before its master in the directory, and another series stands between.
abbrev loaded : List Event
loaded = moved ∷ record (standup 5) { uid = text "t" } ∷ standup 9 ∷ []

grouped :
    group_series loaded
    ≡ (standup 9 ∷ moved ∷ []) ∷ (record (standup 5) { uid = text "t" } ∷ []) ∷ []
unfolding group_series place_all place master_first sort_by text_eq
grouped = refl

group_series-AreSeries_example : (us : List Text) × AreSeries us (group_series loaded)
group_series-AreSeries_example = group_series-AreSeries loaded

group_series-IsGrouped_example : IsGrouped (standup 9) (group_series loaded)
group_series-IsGrouped_example = group_series-IsGrouped loaded (standup 9) (inr (inr (inl refl)))
