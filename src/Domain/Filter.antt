-- ===== src/Domain/Filter.antt =====
-- crates/mgmt-domain/src/filter.rs: task filters, smart views and sort orders. Unicode lower case
-- (`str::to_lowercase`) is a parameter.
pub mod Views
pub mod Sorting
use mgmtui.Base.{
  ℕ, ◌+◌, ◌*◌, Text, text, text_eq, option_eq, ◌==◌, contains, Bool, true, false, not, ◌&&◌, ◌||◌,
  Option, none, some, List, [], ◌∷◌, find?, ltb, leb, if◌then◌else◌,
}
use mgmtui.Base.Chars.{has_substring}
use mgmtui.Base.Sort.{sort_by, text_le}
use mgmtui.Domain.Instant.{last_instant, Instant, day}
use mgmtui.Domain.Task.{Task, Priority, no_priority, low, medium, high, calendar_date}

-- The field `text` is `text_` here.
pub record Filter : Type 0 where
  pub project : Option Text
  pub projects : Option (List Text)
  pub area : Option Text
  pub tag : Option Text
  pub status : Option Text
  pub text_ : Option Text
  pub open_statuses : Option (List Text)
  pub no_project : Bool
  pub date_from : Option Instant
  pub date_to : Option Instant

-- `Filter::default()`
abbrev pub empty_filter : Filter
empty_filter = record {
  project = none;
  projects = none;
  area = none;
  tag = none;
  status = none;
  text_ = none;
  open_statuses = none;
  no_project = false;
  date_from = none;
  date_to = none;
}

abbrev pub is_some : {A : Type 0} → Option A → Bool
is_some none = false
is_some (some a) = true

abbrev pub project_or_empty : Task → Text
project_or_empty t = elim t.project [ none ↦ [] | some p ↦ p ]

-- Each early `return false` of `matches` is a test of its own; `true` means that the code goes on.
pub passes_exact : Option Text → Option Text → Bool
passes_exact none value = true
passes_exact (some x) value = value == some x

pub passes_set : Option (List Text) → Text → Bool
passes_set none value = true
passes_set (some xs) value = contains xs value

pub passes_tag : Option Text → List Text → Bool
passes_tag none tags = true
passes_tag (some x) tags = contains tags x

pub passes_status : Option Text → Text → Bool
passes_status none value = true
passes_status (some x) value = value == x

pub passes_bounds : Option Instant → Option Instant → Instant → Bool
passes_bounds none none d = true
passes_bounds (some lo) none d = leb lo d
passes_bounds none (some hi) d = ltb d hi
passes_bounds (some lo) (some hi) d = leb lo d && ltb d hi

pub passes_dates : Option Instant → Option Instant → Option Instant → Bool
passes_dates lo hi date =
    if is_some lo || is_some hi
    then elim date [ none ↦ false | some d ↦ passes_bounds lo hi d ]
    else true

module _ (to_lowercase : Text → Text) where
  pub passes_text : Option Text → Text → Bool
  passes_text none title = true
  passes_text (some x) title = has_substring (to_lowercase x) (to_lowercase title)

  unfoldable pub matches : Filter → Task → Bool
  unfolding passes_exact passes_set passes_tag passes_status passes_text passes_dates passes_bounds
  matches f t =
      if not (passes_exact f.project t.project)
      then false
      else if not (passes_set f.projects (project_or_empty t))
      then false
      else if f.no_project && is_some t.project
      then false
      else if not (passes_exact f.area t.area)
      then false
      else if not (passes_tag f.tag t.tags)
      then false
      else if not (passes_status f.status t.status)
      then false
      else if not (passes_set f.open_statuses t.status)
      then false
      else if not (passes_text f.text_ t.title)
      then false
      else passes_dates f.date_from f.date_to (calendar_date t)

pub data SmartView : Type 0 where
  inbox today next7 all : SmartView

unfoldable pub view_id : SmartView → Text
view_id inbox = text "inbox"
view_id today = text "today"
view_id next7 = text "next7"
view_id all = text "all"

abbrev all_views : List SmartView
all_views = inbox ∷ today ∷ next7 ∷ all ∷ []

unfoldable pub view_from_id : Text → Option SmartView
unfolding view_id
view_from_id id = find? (λ v. view_id v == id) all_views

-- `today` is a day number; its first instant is `midnight`. An instant past the last one is a panic,
-- `none`; the end of today is computed for every view.
unfoldable pub to_filter : SmartView → ℕ → List Text → Option Filter
to_filter v now_day opened =
    let midnight = now_day * day in
    let f : Filter = record empty_filter { open_statuses = some opened } in
    if leb (midnight + day) last_instant
    then elim v [
      | inbox ↦ some (record f { no_project = true })
      | today ↦ some (record f { date_to = some (midnight + day) })
      | next7 ↦
          if leb (midnight + 7 * day) last_instant
          then some (record f { date_from = some midnight; date_to = some (midnight + 7 * day) })
          else none
      | all ↦ some (record f { open_statuses = none })
    ]
    else none

pub data SortMode : Type 0 where
  due_date by_priority title created : SortMode

unfoldable pub mode_id : SortMode → Text
mode_id due_date = text "due"
mode_id by_priority = text "priority"
mode_id title = text "title"
mode_id created = text "created"

unfoldable pub mode_from_id : Text → Option SortMode
mode_from_id id =
    if id == text "due" || id == text "duedate" || id == text "due_date"
    then some due_date
    else if id == text "priority"
    then some by_priority
    else if id == text "title"
    then some title
    else if id == text "created"
    then some created
    else none

unfoldable pub next : SortMode → SortMode
next due_date = by_priority
next by_priority = title
next title = created
next created = due_date

unfoldable pub rank : Priority → ℕ
rank no_priority = 0
rank low = 1
rank medium = 2
rank high = 3

-- `opt_min_first(a, b)` is not `Greater`.
unfoldable pub opt_min_first : Option Instant → Option Instant → Bool
opt_min_first (some x) (some y) = leb x y
opt_min_first (some x) none = true
opt_min_first none (some y) = false
opt_min_first none none = true

module _ (to_lowercase : Text → Text) where
  -- The order of a mode: `x` may stand before `y`.
  unfoldable pub order : SortMode → Task → Task → Bool
  unfolding opt_min_first rank
  order due_date a b = opt_min_first a.due b.due
  order by_priority a b = leb (rank b.priority) (rank a.priority)
  order title a b = text_le (to_lowercase a.title) (to_lowercase b.title)
  order created a b = opt_min_first a.created b.created

  unfoldable pub apply : SortMode → List Task → List Task
  apply mode tasks = sort_by (order mode) tasks
