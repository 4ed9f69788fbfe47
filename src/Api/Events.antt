-- ===== src/Api/Events.antt =====
-- internal/apiserver/server/events.go: the reporting of events, which starts a run.
use agents_admin.Prelude.{
  ℕ, ℤ, pos, negsuc, ◌==◌, Bool, true, false, ◌||◌, String, str_eq, Option, none, some, List, [],
  ◌∷◌, map, if◌then◌else◌, any, length,
}
use agents_admin.Json.{RawMessage}
use agents_admin.Model.Run.{RunStatus, assigned, running, Run, Event}
use agents_admin.Model.Task.{TaskStatus, Task}
use agents_admin.Storage.World.{M, pure, ◌>>=◌, ◌>>◌, query, exec}
use agents_admin.Storage.Runs.{find_run, update_run_status, is_pending}
use agents_admin.Storage.Tasks.{find_task, update_task_status}
use agents_admin.Storage.Events.{create_events}
use agents_admin.Api.Reply.{Reply, error, ok}

-- `EventInput`
pub record EventInput : Type 0 where
  pub seq : ℤ
  pub type : String
  pub timestamp : ℕ
  pub payload : RawMessage
  pub raw : Option String

abbrev pub to_event : String → EventInput → Event
to_event run_id e = record {
  run_id = run_id;
  seq = e.seq;
  type = e.type;
  timestamp = e.timestamp;
  payload = e.payload;
  raw = e.raw;
}

abbrev pub is_one : ℤ → Bool
is_one (pos n) = n == 1
is_one (negsuc n) = false

-- `e.Seq == 1 || e.Type == "run_started"`
abbrev pub starts : EventInput → Bool
starts e = is_one e.seq || str_eq e.type "run_started"

abbrev pub is_assigned : RunStatus → Bool
is_assigned assigned = true
is_assigned _ = false

abbrev pub start_pending : String → Option (Option Task) → M (Unit {0})
start_pending task_id (some (some task)) =
    if is_pending task.status
    then exec (update_task_status task_id TaskStatus.in_progress) >> pure tt
    else pure tt
start_pending task_id _ = pure tt

abbrev pub start_found : String → Option (Option Run) → M (Unit {0})
start_found run_id (some (some run)) =
    (if is_assigned run.status then update_run_status run_id running none >> pure tt else pure tt)
    >> query (λ now db. find_task run.task_id db)
    >>= start_pending run.task_id
start_found run_id _ = pure tt

-- `maybeUpdateTaskToRunning`
unfoldable pub maybe_update_to_running : String → List EventInput → M (Unit {0})
maybe_update_to_running run_id events =
    if any starts events
    then query (λ now db. find_run run_id db) >>= start_found run_id
    else pure tt

-- `Handler.PostEvents`, without the broadcast to the watching clients. `CreateEvents` makes no
-- statement for an empty batch.
unfoldable pub post_events : String → Option (List EventInput) → M (Reply ℕ)
unfolding maybe_update_to_running
post_events run_id none = pure (error 400 "invalid request body")
post_events run_id (some []) = pure (ok 201 0)
post_events run_id (some (e ∷ es)) = do
  stored ← exec (create_events (map (to_event run_id) (e ∷ es)))
  elim stored [
    | none ↦ pure (error 500 "failed to create events")
    | some _ ↦ maybe_update_to_running run_id (e ∷ es) >> pure (ok 201 (length (e ∷ es)))
  ]
