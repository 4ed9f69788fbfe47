-- ===== src/Storage/Runs.antt =====
-- internal/shared/storage/repository/run.go: the statements on the table of runs. A statement is a
-- function on the tables; `update_run_status`, which issues several, is an action.
use agents_admin.Prelude.{
  ℕ, ◌+◌, ltb, leb, ◌==◌, Bool, true, false, ◌&&◌, ◌||◌, not, String, str_eq, Option, none, some,
  List, ◌∷◌, if◌then◌else◌, find?, filter, update, take, is_some,
}
use agents_admin.Model.Run.{
  RunStatus, queued, assigned, running, paused, done, failed, cancelled, timeout, other, Run,
  is_queued, status_is_terminal, is_running,
}
use agents_admin.Model.Task.{TaskStatus}
use agents_admin.Storage.World.{Db, stamp, M, pure, ◌>>=◌, ◌>>◌, query, exec}
use agents_admin.Storage.Order.{sort_by}

-- `GetRun`
unfoldable pub find_run : String → Db → Option Run
find_run id db = find? (λ r. str_eq r.id id) db.runs

-- `CreateRun`: the primary key refuses an id that is there.
unfoldable pub create_run : Run → ℕ → Db → Option (Unit {0}) × Db
unfolding find_run
create_run run now db =
    if is_some (find_run run.id db)
    then (none, db)
    else (some tt, record db { runs = run ∷ db.runs })

-- `status IN ('assigned', 'running')`
abbrev pub is_active : RunStatus → Bool
is_active assigned = true
is_active running = true
is_active _ = false

abbrev pub on_node : String → Run → Bool
on_node node run = elim run.node_id [ none ↦ false | some n ↦ str_eq n node ]

-- `ListRunsByTask`
unfoldable pub list_runs_by_task : String → Db → List Run
list_runs_by_task task db =
    sort_by (λ a b. leb b.created_at a.created_at) (filter (λ r. str_eq r.task_id task) db.runs)

-- `ListRunsByNode`
unfoldable pub list_runs_by_node : String → Db → List Run
list_runs_by_node node db =
    sort_by (λ a b. leb a.created_at b.created_at)
      (filter (λ r. on_node node r && is_active r.status) db.runs)

-- `ORDER BY started_at ASC NULLS LAST, created_at ASC`
abbrev pub started_before : Run → Run → Bool
started_before a b = elim a.started_at [
  | none ↦ elim b.started_at [ none ↦ leb a.created_at b.created_at | some t ↦ false ]
  | some s ↦ elim b.started_at [
    | none ↦ true
    | some t ↦ ltb s t || (s == t && leb a.created_at b.created_at)
  ]
]

-- `ListRunningRuns`
unfoldable pub list_running_runs : ℕ → Db → List Run
list_running_runs limit db =
    take (if limit == 0 then 100 else limit)
      (sort_by started_before (filter (λ r. is_active r.status) db.runs))

-- `ListQueuedRuns`
unfoldable pub list_queued_runs : ℕ → Db → List Run
list_queued_runs limit db =
    take limit
      (sort_by (λ a b. leb a.created_at b.created_at) (filter (λ r. is_queued r.status) db.runs))

-- `ListStaleQueuedRuns`: queued, and created before `now - threshold`.
unfoldable pub list_stale_queued_runs : ℕ → ℕ → Db → List Run
list_stale_queued_runs threshold now db = take 100 (
    sort_by (λ a b. leb a.created_at b.created_at)
      (filter (λ r. is_queued r.status && ltb (r.created_at + threshold) now) db.runs))

-- `ResetRunToQueued`
unfoldable pub reset_run_to_queued : String → ℕ → Db → Db
reset_run_to_queued id now db = record db {
  runs =
      update (λ r. str_eq r.id id && is_active r.status)
        (λ r. record r {
          status = queued;
          node_id = none;
          started_at = none;
          error = none;
          updated_at = now;
        })
        db.runs;
}

-- The row that the first statement of `UpdateRunStatus` writes.
abbrev pub with_status : RunStatus → Option String → ℕ → Run → Run
with_status assigned node_id now r = record r {
  status = assigned;
  node_id = node_id;
  updated_at = now;
}
with_status running _ now r = record r { status = running; started_at = some now; updated_at = now }
with_status done _ now r = record r { status = done; finished_at = some now; updated_at = now }
with_status failed _ now r = record r { status = failed; finished_at = some now; updated_at = now }
with_status cancelled _ now r = record r {
  status = cancelled;
  finished_at = some now;
  updated_at = now;
}
with_status timeout _ now r = record r {
  status = timeout;
  finished_at = some now;
  updated_at = now;
}
with_status queued _ now r = record r { status = queued; updated_at = now }
with_status paused _ now r = record r { status = paused; updated_at = now }
with_status (other s) _ now r = record r { status = other s; updated_at = now }

unfoldable pub set_run_status : String → RunStatus → Option String → ℕ → Db → Db
set_run_status id status node now db = record db {
  runs = update (λ r. str_eq r.id id) (with_status status node now) db.runs;
}

abbrev pub is_pending : TaskStatus → Bool
is_pending TaskStatus.pending = true
is_pending _ = false

-- `UPDATE tasks SET status = 'in_progress' WHERE id = … AND status = 'pending'`
unfoldable pub start_task : String → ℕ → Db → Db
start_task task now db = record db {
  tasks =
      update (λ t. str_eq t.id task && is_pending t.status)
        (λ t. record t { status = TaskStatus.in_progress; updated_at = now }) db.tasks;
}

-- The status that a task takes over from a run that ends.
abbrev pub task_status_of : RunStatus → Option TaskStatus
task_status_of done = some TaskStatus.completed
task_status_of failed = some TaskStatus.failed
task_status_of cancelled = some TaskStatus.cancelled
task_status_of timeout = some TaskStatus.failed
task_status_of _ = none

-- `UPDATE tasks SET status = …, updated_at = … WHERE id = …`
unfoldable pub finish_task : String → TaskStatus → ℕ → Db → Db
finish_task task status now db = record db {
  tasks =
      update (λ t. str_eq t.id task) (λ t. record t { status = status; updated_at = now }) db.tasks;
}

-- `SELECT task_id FROM runs WHERE id = …`
abbrev pub run_task_id : String → Db → Option String
run_task_id id db = elim (find_run id db) [ none ↦ none | some r ↦ some r.task_id ]

-- What follows the first statement: its errors are dropped.
abbrev pub sync_found : RunStatus → Option (Option String) → M (Option (Unit {0}))
sync_found status (some (some task)) = elim (task_status_of status) [
  | some ended ↦ exec (finish_task task ended) >> pure (some tt)
  | none ↦ exec (start_task task) >> pure (some tt)
]
sync_found status _ = pure (some tt)

unfoldable pub sync_task : String → RunStatus → M (Option (Unit {0}))
sync_task id status =
    if is_running status || status_is_terminal status
    then query (λ now db. run_task_id id db) >>= sync_found status
    else pure (some tt)

-- `UpdateRunStatus`
unfoldable pub update_run_status : String → RunStatus → Option String → M (Option (Unit {0}))
unfolding sync_task
update_run_status id status node = do
  written ← exec (set_run_status id status node)
  elim written [ none ↦ pure none | some _ ↦ sync_task id status ]

-- `UpdateRunError`
unfoldable pub update_run_error : String → String → ℕ → Db → Db
update_run_error id message now db = record db {
  runs =
      update (λ r. str_eq r.id id)
        (λ r. record r {
          error = some message;
          status = failed;
          finished_at = some now;
          updated_at = stamp db now r.updated_at;
        })
        db.runs;
}

-- `DeleteRun`
unfoldable pub delete_run : String → ℕ → Db → Db
delete_run id now db = record db { runs = filter (λ r. not (str_eq r.id id)) db.runs }
