-- ===== src/Storage/Tree.antt =====
-- internal/shared/storage/repository/task.go, `GetTaskTree`: the recursive query. Each round joins
-- the tasks with the rows of the round before; a cycle of parents gives no last round, so that the
-- rounds run on fuel.
pub mod Descent
pub mod Forest
use agents_admin.Prelude.{
  ℕ, zero, suc, leb, String, str_eq, Option, none, some, List, [], ◌∷◌, ◌++◌, map?, filter,
}
use agents_admin.Model.Task.{Task}
use agents_admin.Storage.World.{Db}
use agents_admin.Storage.Order.{sort_by}
use agents_admin.Storage.Listing.{is_child}

-- `tasks t INNER JOIN task_tree tt ON t.parent_id = tt.id`
unfoldable pub children : List Task → List Task → List Task
children tasks [] = []
children tasks (p ∷ level) = filter (is_child p.id) tasks ++ children tasks level

-- The rows of a round and of all later rounds, `ORDER BY depth, created_at ASC`; `none` when the
-- fuel is used up.
unfoldable pub rounds : ℕ → List Task → List Task → Option (List Task)
unfolding children
rounds zero tasks level = none
rounds (suc n) tasks [] = some []
rounds (suc n) tasks (t ∷ level) =
    map? (λ rest. sort_by (λ a b. leb a.created_at b.created_at) (t ∷ level) ++ rest)
      (rounds n tasks (children tasks (t ∷ level)))

-- `GetTaskTree`
unfoldable pub get_task_tree : ℕ → String → Db → Option (List Task)
unfolding rounds
get_task_tree fuel root db = rounds fuel db.tasks (filter (λ t. str_eq t.id root) db.tasks)
