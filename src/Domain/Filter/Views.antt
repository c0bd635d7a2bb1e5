-- ===== src/Domain/Filter/Views.antt =====
-- crates/mgmt-domain/src/filter.rs: which tasks a smart view shows.
use mgmtui.Base.{
  ◌⊎◌, inl, inr, leb, Bool-cases, ℕ, ◌+◌, ◌*◌, ◌≤◌, ◌<◌, Text, text_eq, option_eq, contains, ◌≡◌,
  ◌↔◌, refl, arith, true, none, some, List,
}
use mgmtui.Domain.Instant.{Instant, day, last_instant}
use mgmtui.Domain.Task.{Task, calendar_date}
use mgmtui.Domain.Filter.{
  Filter, empty_filter, matches, SmartView, inbox, today, next7, all, to_filter, view_id,
  view_from_id, SortMode, due_date, by_priority, title, created, mode_id, mode_from_id,
}

-- The tasks that a view is meant to show on day `d`, given the open statuses.
abbrev pub Shows : SmartView → ℕ → List Text → Task → Type 0
Shows inbox d opened t = (contains opened t.status ≡ true) × (t.project ≡ none)
Shows today d opened t =
    (contains opened t.status ≡ true)
    × (i : Instant) × (calendar_date t ≡ some i)
    × (i < d * day + day)
Shows next7 d opened t =
    (contains opened t.status ≡ true)
    × (i : Instant) × (calendar_date t ≡ some i)
    × (d * day ≤ i)
    × (i < d * day + 7 * day)
Shows all d opened t = Unit

-- The inbox shows the open tasks with no project; `today` the open tasks dated before the end of the
-- day, overdue ones included and dateless ones not; `next7` the open tasks dated in the seven days
-- from today; `all` every task. A view panics at most where those seven days go past the last instant.
pub matches-to_filter :
    (to_lowercase : Text → Text) (v : SmartView) (d : ℕ) (opened : List Text) (t : Task)
    → ((f : Filter) × (to_filter v d opened ≡ some f)
        × ((matches to_lowercase f t ≡ true) ↔ Shows v d opened t))
      ⊎ ((to_filter v d opened ≡ none) × (last_instant < d * day + 7 * day))
unfolding matches to_filter
matches-to_filter to_lowercase inbox d opened t =
    elim (Bool-cases (leb (d * day + day) last_instant)) [
      | inr e ↦ inr (ground arith, ground arith)
      | inl e ↦ inl (
        record empty_filter { open_statuses = some opened; no_project = true },
        ground arith,
        ground arith,
      )
    ]
matches-to_filter to_lowercase today d opened t =
    elim (Bool-cases (leb (d * day + day) last_instant)) [
      | inr e ↦ inr (ground arith, ground arith)
      | inl e ↦ inl (
        record empty_filter { open_statuses = some opened; date_to = some (d * day + day) },
        ground arith,
        ground arith,
      )
    ]
matches-to_filter to_lowercase next7 d opened t =
    elim (Bool-cases (leb (d * day + day) last_instant)) [
      | inr e ↦ inr (ground arith, ground arith)
      | inl e ↦ elim (Bool-cases (leb (d * day + 7 * day) last_instant)) [
        | inr k ↦ inr (ground arith, ground arith)
        | inl k ↦ inl (
          record empty_filter {
            open_statuses = some opened;
            date_from = some (d * day);
            date_to = some (d * day + 7 * day);
          },
          ground arith,
          ground arith,
        )
      ]
    ]
matches-to_filter to_lowercase all d opened t =
    elim (Bool-cases (leb (d * day + day) last_instant)) [
      | inr e ↦ inr (ground arith, ground arith)
      | inl e ↦ inl (record empty_filter { open_statuses = none }, ground arith, ground arith)
    ]

-- A view and a sort mode are found again by their ids.
pub from_id-id :
    (v : SmartView) (m : SortMode)
    → (view_from_id (view_id v) ≡ some v) × (mode_from_id (mode_id m) ≡ some m)
unfolding view_from_id mode_from_id mode_id text_eq
from_id-id v m = (view v, mode m)
  where
    view : (v : SmartView) → view_from_id (view_id v) ≡ some v
    view inbox = refl
    view today = refl
    view next7 = refl
    view all = refl

    mode : (m : SortMode) → mode_from_id (mode_id m) ≡ some m
    mode due_date = refl
    mode by_priority = refl
    mode title = refl
    mode created = refl
