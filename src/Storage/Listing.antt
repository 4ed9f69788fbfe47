-- ===== src/Storage/Listing.antt =====
-- internal/shared/storage/repository/task.go: the listings of tasks. The database is a parameter:
-- how it compares a name with a pattern, what it skips for an OFFSET, and in what order it reads rows.
use agents_admin.Prelude.{
  ℕ, ℤ, leb, ◌==◌, Bool, false, ◌&&◌, ◌||◌, String, str_eq, concat, Option, none, some, List,
  length, take, drop, filter,
}
use agents_admin.Model.Task.{Task, to_string}
use agents_admin.Storage.World.{Db, M, pure, ◌>>=◌, call, query}
use agents_admin.Storage.Order.{sort_by}

-- `storagetypes.TaskFilter`; the time 0 is the zero time.
pub record TaskFilter : Type 0 where
  pub status : String
  pub search : String
  pub since : ℕ
  pub until : ℕ
  pub limit : ℕ
  pub offset : ℤ

-- `name ILIKE pattern`; the rows that an OFFSET skips, `none` where the database refuses it; and the
-- order in which a statement reads the rows, which decides between rows that ORDER BY does not.
pub record Dialect : Type 0 where
  pub ilike : String → String → Bool
  pub offset : ℤ → Option ℕ
  pub scan : TaskFilter → List Task → List Task

-- The conditions of the WHERE clause.
unfoldable pub matches : Dialect → TaskFilter → Task → Bool
matches d f t =
    (str_eq f.status "" || str_eq (to_string t.status) f.status)
    && (str_eq f.search "" || d.ilike t.name (concat "%" (concat f.search "%")))
    && (f.since == 0 || leb f.since t.created_at)
    && (f.until == 0 || leb t.created_at f.until)

-- The rows of the WHERE clause.
unfoldable pub matching : Dialect → TaskFilter → Db → List Task
unfolding matches
matching d f db = filter (λ t. matches d f t) db.tasks

-- `ORDER BY created_at DESC`
abbrev pub newest : List Task → List Task
newest = sort_by (λ a b. leb b.created_at a.created_at)

abbrev pub page_of : Dialect → TaskFilter → ℕ → Db → Option (List Task) × Db
page_of d f now db = elim (d.offset f.offset) [
  | none ↦ (none, db)
  | some n ↦ (some (take f.limit (drop n (newest (d.scan f (matching d f db))))), db)
]

abbrev pub counted : Dialect → TaskFilter → Option ℕ → M (Option (List Task × ℕ))
counted d f none = pure none
counted d f (some total) = do
  page ← call (page_of d f)
  pure (elim page [ none ↦ none | some tasks ↦ some (tasks, total) ])

-- `ListTasksWithFilter`: one statement counts the rows, the next one reads a page of them.
unfoldable pub list_tasks_with_filter : Dialect → TaskFilter → M (Option (List Task × ℕ))
unfolding matching
list_tasks_with_filter d f = query (λ now db. length (matching d f db)) >>= counted d f

-- `parent_id = …`
abbrev pub is_child : String → Task → Bool
is_child id t = elim t.parent_id [ none ↦ false | some p ↦ str_eq p id ]

-- `ListSubTasks`
unfoldable pub list_sub_tasks : String → Db → List Task
list_sub_tasks id db =
    sort_by (λ a b. leb a.created_at b.created_at) (filter (is_child id) db.tasks)
