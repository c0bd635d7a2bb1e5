-- ===== src/Tests/Board.antt =====
-- The board at one task.
use mgmtui.Base.{text, text_eq, true, some, List, [], ◌∷◌, ◌≡◌, refl, In, All, inl}
use mgmtui.Domain.Task.{Task, task}
use mgmtui.Domain.Filter.{Filter, matches, empty_filter}
use mgmtui.Service.Context.Board.{board, board-In}
use mgmtui.Tests.Context.{milk, before}

abbrev open_tasks : Filter
open_tasks = record empty_filter { open_statuses = some (text "todo" ∷ []) }

matches-milk : matches (λ s. s) open_tasks milk ≡ true
unfolding matches task text_eq
matches-milk = refl

board-In_example :
    ((tasks : List Task) × In (milk.status, tasks) (board (λ s. s) before open_tasks)
      × In milk tasks)
    × All
        (λ p. All (λ x. (x.status ≡ p.0) × (matches (λ s. s) open_tasks x ≡ true)) (p.1))
        (board (λ s. s) before open_tasks)
board-In_example = board-In (λ s. s) before open_tasks milk (inl refl) matches-milk
