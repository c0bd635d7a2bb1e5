-- ===== src/Tests/Domain.antt =====
-- Runs of the workflow, the reminders, the filters and the sort modes.
use mgmtui.Base.{
  arith, ℕ, ◌*◌, text, Text, text_eq, refl, ◌≡◌, ◌↔◌, true, some, none, List, [], ◌∷◌,
}
use mgmtui.Base.Int.{pos, negsuc, ◌+ℤ◌}
use mgmtui.Base.Sort.{sort_by}
use mgmtui.Domain.Instant.{day}
use mgmtui.Domain.Task.{Task, Priority, high, low}
use mgmtui.Domain.Workflow.{
  StatusDef, active, done, status_def, builtin, workflow, neighbor, index_of, clamp_index,
}
use mgmtui.Domain.Reminder.{parse, label, parse_unit, scaled}
use mgmtui.Base.Chars.{split_last, trim, trim_end, trim_start, is_white}
use mgmtui.Base.Decimal.{parse_signed}
use mgmtui.Domain.Reminder.Laws.{parse-label}
use mgmtui.Base.{◌⊎◌, ◌<◌, ◌+◌, none}
use mgmtui.Domain.Instant.{last_instant}
use mgmtui.Domain.Filter.{Filter, matches, next7, to_filter, by_priority, apply, order}
use mgmtui.Domain.Filter.Views.{Shows, matches-to_filter}

abbrev task : Text → Priority → ℕ → Task
task title priority due = record {
  uid = title;
  title = title;
  body = [];
  status = text "todo";
  priority = priority;
  project = none;
  area = none;
  tags = [];
  due = some due;
  scheduled = none;
  reminders = [];
  completion = none;
  created = none;
  modified = none;
  sync = record { href = none; etag = none };
}

abbrev tasks : List Task
tasks = task (text "a") low (20 * day) ∷ task (text "b") high (12 * day) ∷ []

abbrev unlabelled : List StatusDef
unlabelled = status_def (text "x") [] active ∷ status_def (text "y") (text "Why") done ∷ []

labelled :
    workflow unlabelled
    ≡ status_def (text "x") (text "x") active ∷ status_def (text "y") (text "Why") done ∷ []
unfolding workflow
labelled = refl

-- The ends of the board hold a card back.
moved_left : neighbor builtin (text "todo") (negsuc 0) ≡ some (text "todo")
unfolding neighbor index_of text_eq clamp_index ◌+ℤ◌
moved_left = refl

two_hours : parse (text " 2h ") ≡ some (pos 120)
unfolding parse split_last trim trim_end trim_start is_white parse_unit scaled parse_signed
two_hours = refl

by_priority_first :
    apply (λ t. t) by_priority tasks
    ≡ task (text "b") high (12 * day) ∷ task (text "a") low (20 * day) ∷ []
unfolding apply sort_by order
by_priority_first = refl

parse-label_example : parse (label (pos 2880)) ≡ some (pos 2880)
parse-label_example = parse-label 2880 (omega arith)

matches-to_filter_example :
    ((f : Filter) × (to_filter next7 10 (text "todo" ∷ []) ≡ some f)
      × ((matches (λ t. t) f (task (text "b") high (12 * day)) ≡ true)
          ↔ Shows next7 10 (text "todo" ∷ []) (task (text "b") high (12 * day))))
    ⊎ ((to_filter next7 10 (text "todo" ∷ []) ≡ none) × (last_instant < 10 * day + 7 * day))
matches-to_filter_example =
    matches-to_filter (λ t. t) next7 10 (text "todo" ∷ []) (task (text "b") high (12 * day))
