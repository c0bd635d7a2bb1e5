-- ===== src/Service/Context/Board.antt =====
-- crates/mgmt-service/src/context.rs: the sorted tasks of a filter, and the board with the tasks of each
-- column.
use mgmtui.Base.{
  Text, text_eq, ◌==◌, ==-same, contains, Bool-cases, true, ◌&&◌, List, [], ◌∷◌, ◌++◌, ◌≡◌, arith,
  In, All, inl, inr, keep, if◌then◌else◌,
}
use mgmtui.Domain.Task.{Task}
use mgmtui.Domain.Filter.{Filter, matches}
use mgmtui.Domain.Workflow.{ids}
use mgmtui.Domain.Filter.{SortMode, apply}
use mgmtui.Service.Context.{Context}

-- The columns of the workflow, and those that only tasks name, in the order of the tasks.
unfoldable pub add_columns : List Text → List Task → List Text
add_columns columns [] = columns
add_columns columns (t ∷ ts) =
    add_columns (if contains columns t.status then columns else columns ++ (t.status ∷ [])) ts

module _ (to_lowercase : Text → Text) where
  abbrev pub column : Filter → List Task → Text → List Task
  column filter ts status = keep (λ t. t.status == status && matches to_lowercase filter t) ts

  abbrev pub with_tasks : Filter → List Task → List Text → List (Text × List Task)
  with_tasks filter ts [] = []
  with_tasks filter ts (s ∷ ss) = (s, column filter ts s) ∷ with_tasks filter ts ss

  unfoldable pub filtered_tasks : {D : Type 0} → Context D → Filter → SortMode → List Task
  filtered_tasks c filter sort =
      apply to_lowercase sort (keep (λ t. matches to_lowercase filter t) c.task_cache)

  unfoldable pub board : {D : Type 0} → Context D → Filter → List (Text × List Task)
  board c filter = with_tasks filter c.task_cache (add_columns (ids c.workflow) c.task_cache)

contains-grow :
    (columns : List Text) (s x : Text)
    → contains columns x ≡ true
    → contains (if contains columns s then columns else columns ++ (s ∷ [])) x ≡ true
contains-grow columns s x h = elim (Bool-cases (contains columns s)) [
  | inl e ↦ rw e h
  | inr e ↦ rw e (contains-left columns s x h)
]
  where
    contains-left :
        (xs : List Text) (s x : Text) → contains xs x ≡ true → contains (xs ++ (s ∷ [])) x ≡ true
    contains-left [] s x h = ground arith
    contains-left (y ∷ ys) s x h = ground (arith, contains-left ys s x)

contains-last : (xs : List Text) (s : Text) → contains (xs ++ (s ∷ [])) s ≡ true
contains-last [] s = ground (arith, ==-same s)
contains-last (y ∷ ys) s = ground (arith, contains-last ys s)

contains_self :
    (columns : List Text) (s : Text)
    → contains (if contains columns s then columns else columns ++ (s ∷ [])) s ≡ true
contains_self columns s = elim (Bool-cases (contains columns s)) [
  | inl e ↦ rw e e
  | inr e ↦ rw e (contains-last columns s)
]

add_columns-contains :
    (ts : List Task) (columns : List Text) (x : Text)
    → contains columns x ≡ true
    → contains (add_columns columns ts) x ≡ true
unfolding add_columns
add_columns-contains [] columns x h = h
add_columns-contains (t ∷ ts) columns x h =
    add_columns-contains ts _ x (contains-grow columns t.status x h)

add_columns-In :
    (ts : List Task) (columns : List Text) (t : Task)
    → In t ts
    → contains (add_columns columns ts) t.status ≡ true
unfolding add_columns
add_columns-In [] columns t m = absurd m
add_columns-In (x ∷ ts) columns t (inl e) =
    rw e (add_columns-contains ts _ x.status (contains_self columns x.status))
add_columns-In (x ∷ ts) columns t (inr m) = add_columns-In ts _ t m

module _ (to_lowercase : Text → Text) where
  column-In :
      (filter : Filter) (ts : List Task) (t : Task)
      → In t ts
      → matches to_lowercase filter t ≡ true
      → In t (column to_lowercase filter ts t.status)
  column-In filter [] t m h = absurd m
  column-In filter (x ∷ ts) t m h = ground (arith, column-In filter ts t, ==-same t.status)

  column-All :
      (filter : Filter) (ts : List Task) (s : Text)
      → All
          (λ t. (t.status ≡ s) × (matches to_lowercase filter t ≡ true))
          (column to_lowercase filter ts s)
  column-All filter [] s = tt
  column-All filter (t ∷ ts) s = ground (arith, column-All filter ts s)

  with_tasks-In :
      (filter : Filter) (ts : List Task) (ss : List Text) (s : Text)
      → contains ss s ≡ true
      → In (s, column to_lowercase filter ts s) (with_tasks to_lowercase filter ts ss)
  with_tasks-In filter ts [] s h = absurd (ground arith)
  with_tasks-In filter ts (x ∷ ss) s h = elim (Bool-cases (s == x)) [
    | inl e ↦ inl (ground arith)
    | inr e ↦ inr (with_tasks-In filter ts ss s (ground arith))
  ]

  with_tasks-All :
      (filter : Filter) (ts : List Task) (ss : List Text)
      → All
          (λ p. All (λ t. (t.status ≡ p.0) × (matches to_lowercase filter t ≡ true)) (p.1))
          (with_tasks to_lowercase filter ts ss)
  with_tasks-All filter ts [] = tt
  with_tasks-All filter ts (s ∷ ss) = (column-All filter ts s, with_tasks-All filter ts ss)

  -- Every task of the cache that matches the filter stands in a column of its own status, a status that the
  -- workflow does not know included, and every column holds only tasks of its status that match.
  pub board-In :
      {D : Type 0} (c : Context D) (filter : Filter) (t : Task)
      → In t c.task_cache
      → matches to_lowercase filter t ≡ true
      → ((tasks : List Task) × In (t.status, tasks) (board to_lowercase c filter) × In t tasks)
        × All
            (λ p. All (λ x. (x.status ≡ p.0) × (matches to_lowercase filter x ≡ true)) (p.1))
            (board to_lowercase c filter)
  unfolding board
  board-In c filter t m h = (
    (
      column to_lowercase filter c.task_cache t.status,
      with_tasks-In filter c.task_cache _ t.status
          (add_columns-In c.task_cache (ids c.workflow) t m),
      column-In filter c.task_cache t m h,
    ),
    with_tasks-All filter c.task_cache _,
  )
