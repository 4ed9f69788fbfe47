-- ===== src/Storage/Tasks.antt =====
-- internal/shared/storage/repository/task.go: the statements on the table of tasks that scheduling
-- and the handlers of runs and tasks use.
use agents_admin.Prelude.{
  ℕ, Bool, not, ◌&&◌, String, str_eq, Option, none, some, ◌∷◌, if◌then◌else◌, find?, filter, update,
  any, is_some,
}
use agents_admin.Model.Task.{TaskStatus, TaskContext, Task}
use agents_admin.Storage.World.{Db, stamp}

-- `GetTask`
unfoldable pub find_task : String → Db → Option Task
find_task id db = find? (λ t. str_eq t.id id) db.tasks

-- `CreateTask`: the primary key refuses an id that is there, and no column takes the description.
unfoldable pub create_task : Task → ℕ → Db → Option (Unit {0}) × Db
unfolding find_task
create_task task now db =
    if is_some (find_task task.id db)
    then (none, db)
    else (some tt, record db { tasks = record task { description = "" } ∷ db.tasks })

-- `UpdateTaskStatus`
unfoldable pub update_task_status : String → TaskStatus → ℕ → Db → Db
update_task_status id status now db = record db {
  tasks =
      update (λ t. str_eq t.id id)
        (λ t. record t { status = status; updated_at = stamp db now t.updated_at }) db.tasks;
}

-- `UpdateTaskContext`
unfoldable pub update_task_context : String → TaskContext → ℕ → Db → Db
update_task_context id context now db = record db {
  tasks =
      update (λ t. str_eq t.id id) (λ t. record t { context = some context; updated_at = now })
        db.tasks;
}

-- `run_id IN (SELECT id FROM runs WHERE task_id = …)`
abbrev pub of_task : String → Db → String → Bool
of_task task db run_id = any (λ r. str_eq r.id run_id && str_eq r.task_id task) db.runs

-- The deletes of `DeleteTask`, which one transaction makes together.
unfoldable pub delete_task : String → ℕ → Db → Db
delete_task id now db = record db {
  events = filter (λ e. not (of_task id db e.run_id)) db.events;
  runs = filter (λ r. not (str_eq r.task_id id)) db.runs;
  tasks = filter (λ t. not (str_eq t.id id)) db.tasks;
}
