-- ===== src/Nodes/Manager.antt =====
-- internal/apiserver/node/manager.go: the node manager of the scheduler. Its one field is the map
-- of running counts, which the actions take and return.
use agents_admin.Prelude.{
  ℕ, suc, ◌+◌, ltb, leb, Bool, false, not, ◌||◌, String, str_eq, Option, none, some, List, [], ◌∷◌,
  if◌then◌else◌, filter, any, length,
}
use agents_admin.Json.{RawMessage}
use agents_admin.Model.Run.{Run}
use agents_admin.Model.Task.{Task}
use agents_admin.Model.Node.{Node, Instance, is_admin_status}
use agents_admin.Storage.World.{M, pure, ◌>>=◌, ◌>>◌, query, exec, for_each}
use agents_admin.Storage.Runs.{list_runs_by_node, list_running_runs, reset_run_to_queued}
use agents_admin.Storage.Tasks.{find_task}
use agents_admin.Storage.Events.{count_events_by_run}
use agents_admin.Storage.Nodes.{list_all_nodes, find_instance}
use agents_admin.Nodes.Status.{
  filter_nodes_by_fresh_heartbeat, heartbeat_fresh_window, extract_agent_ids,
}

-- The nodes that `ListOnlineNodes` keeps of a list.
unfoldable pub online_of : List Node → ℕ → List Node
online_of nodes now =
    filter (λ n. not (is_admin_status n.status))
      (filter_nodes_by_fresh_heartbeat nodes heartbeat_fresh_window now)

-- `Manager.ListOnlineNodes`
unfoldable pub list_online_nodes : M (Option (List Node))
unfolding online_of
list_online_nodes = query (λ now db. online_of (list_all_nodes db) now)

-- The map `nodeRunning`; a node without an entry counts 0.
abbrev pub Counts : Type 0
Counts = List (String × ℕ)

unfoldable pub running_of : Counts → String → ℕ
running_of [] id = 0
running_of ((j, n) ∷ m) id = if str_eq j id then n else running_of m id

-- `Manager.RefreshRunningCount`: a node whose runs cannot be listed gets no entry.
unfoldable pub refresh_running_count : List Node → M Counts
refresh_running_count [] = pure []
refresh_running_count (node ∷ rest) = do
  runs ← query (λ now db. list_runs_by_node node.id db)
  counts ← refresh_running_count rest
  pure (elim runs [ none ↦ counts | some l ↦ (node.id, length l) ∷ counts ])

-- `Manager.IncrementRunning`
unfoldable pub increment_running : Counts → String → Counts
unfolding running_of
increment_running counts id = (id, suc (running_of counts id)) ∷ counts

abbrev pub agent_of : Option (Option Task) → String
agent_of (some (some task)) = elim task.agent_id [ none ↦ "" | some a ↦ a ]
agent_of _ = ""

abbrev pub node_of : Option (Option Instance) → String
node_of (some (some inst)) = elim inst.node_id [ none ↦ "" | some n ↦ n ]
node_of _ = ""

-- The instance of a run: from its snapshot, or else from its task.
unfoldable pub resolve_instance : String → RawMessage → M String
resolve_instance task_id snapshot =
    let instance_id = (extract_agent_ids snapshot).0 in
    if not (str_eq instance_id "") || str_eq task_id ""
    then pure instance_id
    else query (λ now db. find_task task_id db) >>= λ task. pure (agent_of task)

-- `Manager.ResolvePreferredNodeID`
unfoldable pub resolve_preferred_node_id : String → RawMessage → M String
unfolding resolve_instance
resolve_preferred_node_id task_id snapshot = do
  instance_id ← resolve_instance task_id snapshot
  if str_eq instance_id ""
      then pure ""
      else query (λ now db. find_instance instance_id db) >>= λ inst. pure (node_of inst)

-- The tests of the requeueing loop that read the run alone: a node that is not online, and a start
-- at least `threshold` ago.
abbrev pub is_lost : List String → ℕ → ℕ → Run → Bool
is_lost online threshold now run = elim run.node_id [
  | none ↦ false
  | some n ↦
      if str_eq n "" || any (str_eq n) online
      then false
      else elim run.started_at [ none ↦ false | some t ↦ leb (t + threshold) now ]
]

-- A run that has reported events is left alone.
unfoldable pub requeue_uncounted : Run → Option ℕ → M (Unit {0})
requeue_uncounted run none = pure tt
requeue_uncounted run (some n) =
    if ltb 0 n then pure tt else exec (reset_run_to_queued run.id) >> pure tt

-- The body of the loop.
unfoldable pub requeue_one : List String → ℕ → Run → M (Unit {0})
unfolding requeue_uncounted
requeue_one online threshold run w =
    if is_lost online threshold w.now run
    then (query (λ now db. count_events_by_run run.id db) >>= requeue_uncounted run) w
    else (tt, w)

abbrev pub requeue_all : List String → ℕ → Option (List Run) → M (Unit {0})
requeue_all online threshold none = pure tt
requeue_all online threshold (some runs) = for_each (requeue_one online threshold) runs

-- `Manager.RequeueRunsAssignedToOfflineNodes`
unfoldable pub requeue_offline : List String → ℕ → M (Unit {0})
unfolding requeue_one
requeue_offline online threshold =
    query (λ now db. list_running_runs 200 db) >>= requeue_all online threshold
