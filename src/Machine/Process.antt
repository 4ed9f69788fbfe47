-- ===== src/Machine/Process.antt =====
-- internal/nodemanager/manager.go: the runs that the process executes, its heartbeat, and the
-- directives that it obeys. The map `running` stands as the list of its keys, each once: to enter a
-- key replaces it.
use agents_admin.Prelude.{
  pos, ◌-ℤ◌, Bool, not, String, str_eq, Option, none, some, List, [], ◌∷◌, ◌++◌, if◌then◌else◌, any,
  filter, length,
}
use agents_admin.Json.{RawMessage, num, obj, end, field, doc}
use agents_admin.Model.Node.{NodeStatus}
use agents_admin.Nodes.Heartbeat.{HeartbeatRequest}
use agents_admin.Machine.Execution.{Fetched}

-- The runs that are being executed, and those whose execution was cancelled.
pub record Manager : Type 0 where
  pub running : List String
  pub cancelled : List String

-- `_, exists := nm.running[runID]`
abbrev pub is_running : String → Manager → Bool
is_running id m = any (λ k. str_eq k id) m.running

-- A run is put into the map with a context of its own.
abbrev pub enter : String → Manager → Manager
enter id m = record {
  running = id ∷ filter (λ k. not (str_eq k id)) m.running;
  cancelled = filter (λ k. not (str_eq k id)) m.cancelled;
}

-- The loop over the runs that were fetched: the state, and the runs that are started.
unfoldable pub start_new : List Fetched → Manager → Manager × List Fetched
start_new [] m = (m, [])
start_new (run ∷ runs) m =
    if is_running run.id m
    then start_new runs m
    else (let (after, started) = start_new runs (enter run.id m) in (after, run ∷ started))

-- `checkAndExecuteRuns`, of the answer of the API server if there is one.
unfoldable pub check_and_execute_runs : Option (List Fetched) → Manager → Manager × List Fetched
unfolding start_new
check_and_execute_runs none m = (m, [])
check_and_execute_runs (some runs) m = start_new runs m

-- What `executeRun` does when it returns.
unfoldable pub finish : String → Manager → Manager
finish id m = record m { running = filter (λ k. not (str_eq k id)) m.running }

-- `CancelRun`: the context of a run that is executed is cancelled.
unfoldable pub cancel_run : String → Manager → Manager
cancel_run id m = if is_running id m then record m { cancelled = id ∷ m.cancelled } else m

-- The directives of the answer to a heartbeat.
unfoldable pub obey : List String → Manager → Manager
unfolding cancel_run
obey [] m = m
obey (id ∷ ids) m = obey ids (cancel_run id m)

-- The payload of `sendHeartbeat`: there is room for two runs.
unfoldable pub heartbeat_payload :
    String → String → String → RawMessage → Manager → HeartbeatRequest
heartbeat_payload node_id hostname ips labels m = record {
  node_id = node_id;
  status = some NodeStatus.online;
  labels = some labels;
  capacity = some (
      doc (
        obj (
          field "max_concurrent" (num (pos 2))
            (field "available" (num (pos 2 -ℤ pos (length m.running))) end))));
  running_runs = m.running;
  hostname = hostname;
  ips = ips;
}

-- What happens to the process, in order.
pub data Happening : Type 0 where
  poll : Option (List Fetched) → Happening
  return_of : String → Happening
  directives : List String → Happening

unfoldable pub happen : Happening → Manager → Manager
unfolding check_and_execute_runs finish obey
happen (poll answer) m = (check_and_execute_runs answer m).0
happen (return_of id) m = finish id m
happen (directives ids) m = obey ids m

-- The executions that a happening starts.
abbrev pub started_by : Happening → Manager → List Fetched
started_by (poll answer) m = (check_and_execute_runs answer m).1
started_by _ m = []

-- The executions that a sequence starts, in order.
unfoldable pub all_started : List Happening → Manager → List Fetched
unfolding happen
all_started [] m = []
all_started (h ∷ hs) m = started_by h m ++ all_started hs (happen h m)
