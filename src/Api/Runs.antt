-- ===== src/Api/Runs.antt =====
-- internal/apiserver/run/handler.go: creating, reading, cancelling and updating runs.
use agents_admin.Prelude.{
  ℕ, Bool, true, false, String, Option, none, some, List, [], ◌∷◌, if◌then◌else◌,
}
use agents_admin.Json.{Json, str, obj, Fields, end, field, doc}
use agents_admin.Model.Run.{RunStatus, queued, running, done, failed, cancelled, Run, of_string}
use agents_admin.Model.Task.{TaskStatus, Task, get_prompt_content}
use agents_admin.Storage.World.{M, pure, ◌>>=◌, ◌>>◌, call, query, exec}
use agents_admin.Storage.Runs.{find_run, create_run, list_runs_by_task, update_run_status}
use agents_admin.Storage.Tasks.{find_task, update_task_status}
use agents_admin.Api.Reply.{Reply, error, ok}

abbrev pub optional_field : String → Option Json → Fields → Fields
optional_field k none rest = rest
optional_field k (some v) rest = field k v rest

-- A `map[string]string` as a document.
unfoldable pub labels_document : List (String × String) → Fields
labels_document [] = end
labels_document ((k, v) ∷ l) = field k (str v) (labels_document l)

-- The snapshot that `Create` stores with a run.
unfoldable pub exec_snapshot : Task → Fields
unfolding labels_document
exec_snapshot task = field "task_id" (str task.id) (
    field "name" (str task.name) (
      field "agent"
        (obj (
          field "type" (str task.type) (
            optional_field "instance_id"
              (elim task.agent_id [ none ↦ none | some a ↦ some (str a) ]) end)))
        (field "prompt" (str (get_prompt_content task)) (
          optional_field "workspace" task.workspace (
            optional_field "labels"
              (elim task.labels [ none ↦ none | some l ↦ some (obj (labels_document l)) ]) end)))))

-- The run that `Create` stores, under the id that `generateID` drew.
abbrev pub new_run : String → Task → ℕ → Run
new_run id task now = record {
  id = id;
  task_id = task.id;
  status = queued;
  node_id = none;
  started_at = none;
  finished_at = none;
  snapshot = doc (obj (exec_snapshot task));
  error = none;
  created_at = now;
  updated_at = now;
}

abbrev pub create_for : String → Option (Option Task) → M (Reply Unit)
create_for id none = pure (error 500 "failed to get task")
create_for id (some none) = pure (error 404 "task not found")
create_for id (some (some task)) = do
  stored ← call (λ now db. create_run (new_run id task now) now db)
  pure (elim stored [ none ↦ error 500 "failed to create run" | some _ ↦ ok 201 tt ])

-- `Handler.Create`; the message to the scheduling queue that follows may fail without effect.
unfoldable pub create : String → String → M (Reply Unit)
create id task_id = query (λ now db. find_task task_id db) >>= create_for id

-- `Handler.Get`
unfoldable pub get : String → M (Reply Run)
get id = do
  found ← query (λ now db. find_run id db)
  pure (elim found [
    | none ↦ error 500 "failed to get run"
    | some r ↦ elim r [ none ↦ error 404 "run not found" | some run ↦ ok 200 run ]
  ])

-- `Handler.ListByTask`
unfoldable pub list_by_task : String → M (Reply (List Run))
list_by_task task_id = do
  found ← query (λ now db. list_runs_by_task task_id db)
  pure (elim found [ none ↦ error 500 "failed to list runs" | some runs ↦ ok 200 runs ])

-- The `switch` of `maybeUpdateTaskStatus`; a timeout is not in it.
abbrev pub linked_task_status : RunStatus → Option TaskStatus
linked_task_status done = some TaskStatus.completed
linked_task_status failed = some TaskStatus.failed
linked_task_status cancelled = some TaskStatus.cancelled
linked_task_status _ = none

abbrev pub update_task_of : TaskStatus → Option (Option Run) → M Unit
update_task_of status (some (some run)) = exec (update_task_status run.task_id status) >> pure tt
update_task_of status _ = pure tt

-- `maybeUpdateTaskStatus`
unfoldable pub maybe_update_task_status : String → RunStatus → M Unit
maybe_update_task_status id status = elim (linked_task_status status) [
  | none ↦ pure tt
  | some t ↦ query (λ now db. find_run id db) >>= update_task_of t
]

-- `run.Status != queued && run.Status != running` is its negation.
abbrev pub is_cancellable : RunStatus → Bool
is_cancellable queued = true
is_cancellable running = true
is_cancellable _ = false

abbrev pub cancel_found : String → Option (Option Run) → M (Reply Unit)
cancel_found id (some (some run)) =
    if is_cancellable run.status
    then (do
      update_run_status id cancelled none
      maybe_update_task_status id cancelled
      pure (ok 200 tt))
    else pure (error 400 "run cannot be cancelled")
cancel_found id _ = pure (error 404 "run not found")

-- `Handler.Cancel`
unfoldable pub cancel : String → M (Reply Unit)
unfolding maybe_update_task_status
cancel id = query (λ now db. find_run id db) >>= cancel_found id

-- `Handler.Update`, of a body whose status may be missing.
unfoldable pub update_status : String → Option (Option String) → M (Reply String)
unfolding maybe_update_task_status
update_status id none = pure (error 400 "invalid request body")
update_status id (some none) = pure (error 400 "status is required")
update_status id (some (some s)) = do
  written ← update_run_status id (of_string s) none
  elim written [
    | none ↦ pure (error 500 "failed to update run")
    | some _ ↦ maybe_update_task_status id (of_string s) >> pure (ok 200 s)
  ]
