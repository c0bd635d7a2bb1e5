-- ===== src/Domain/Filter/Sorting.antt =====
-- crates/mgmt-domain/src/filter.rs: what sorting does to a list of tasks.
use mgmtui.Base.{Text, ◌≡◌, ◌⊎◌, arith, true, List}
use mathlib.Core.List.{Perm}
use mgmtui.Base.Sort.{IsSorted, sort_by-perm, sort_by-IsSorted, text_le_total, text_le_trans}
use mgmtui.Domain.Task.{Task}
use mgmtui.Domain.Filter.{SortMode, due_date, by_priority, title, created, order, apply}

module _ (to_lowercase : Text → Text) where
  order_total :
      (m : SortMode) (a b : Task)
      → (order to_lowercase m a b ≡ true) ⊎ (order to_lowercase m b a ≡ true)
  unfolding order
  order_total due_date a b = ground arith
  order_total by_priority a b = ground arith
  order_total title a b = text_le_total (to_lowercase a.title) (to_lowercase b.title)
  order_total created a b = ground arith

  order_trans :
      (m : SortMode) (a b c : Task)
      → order to_lowercase m a b ≡ true
      → order to_lowercase m b c ≡ true
      → order to_lowercase m a c ≡ true
  unfolding order
  order_trans due_date a b c h k = ground arith
  order_trans by_priority a b c h k = ground arith
  order_trans title a b c h k =
      text_le_trans (to_lowercase a.title) (to_lowercase b.title) (to_lowercase c.title) h k
  order_trans created a b c h k = ground arith

  -- Sorting keeps the tasks, each as often as before, and puts them in the order of the mode.
  pub apply-IsSorted :
      (m : SortMode) (tasks : List Task)
      → Perm (apply to_lowercase m tasks) tasks
        × IsSorted (order to_lowercase m) (apply to_lowercase m tasks)
  unfolding apply
  apply-IsSorted m tasks = (
    sort_by-perm (order to_lowercase m) tasks,
    sort_by-IsSorted (order to_lowercase m) (order_total m) (order_trans m) tasks,
  )
