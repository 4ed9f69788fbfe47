-- ===== src/Nodes/Heartbeat.antt =====
-- internal/apiserver/node/handler.go: the heartbeat of a node and the runs that its answer tells the
-- node to cancel, and the deletion of a node.
use agents_admin.Prelude.{
  ℕ, not, String, str_eq, Option, none, some, List, [], ◌∷◌, if◌then◌else◌, filter, any,
}
use agents_admin.Json.{RawMessage, doc, obj, end}
use agents_admin.Model.Run.{Run}
use agents_admin.Model.Node.{NodeStatus, Node}
use agents_admin.Storage.World.{M, pure, ◌>>=◌, ◌>>◌, query, exec}
use agents_admin.Storage.Runs.{list_runs_by_node}
use agents_admin.Storage.Nodes.{
  find_node, upsert_node_heartbeat, deactivate_stale_nodes, delete_node,
}
use agents_admin.Api.Reply.{Reply, error, ok}

-- `heartbeatRequestExt`
pub record HeartbeatRequest : Type 0 where
  pub node_id : String
  pub status : Option NodeStatus
  pub labels : Option RawMessage
  pub capacity : Option RawMessage
  pub running_runs : List String
  pub hostname : String
  pub ips : String

abbrev or_empty_object : Option RawMessage → RawMessage
or_empty_object none = doc (obj end)
or_empty_object (some raw) = raw

abbrev pub heartbeat_node : HeartbeatRequest → ℕ → Node
heartbeat_node req now = record {
  id = req.node_id;
  display_name = "";
  status = elim req.status [ none ↦ NodeStatus.online | some s ↦ s ];
  hostname = req.hostname;
  ips = req.ips;
  labels = or_empty_object req.labels;
  capacity = or_empty_object req.capacity;
  last_heartbeat = some now;
  created_at = now;
  updated_at = now;
}

-- The set difference of `computeCancelDirectives`.
unfoldable pub missing_from : List Run → List String → List String
missing_from active reported = filter (λ id. not (any (λ r. str_eq r.id id) active)) reported

-- `computeCancelDirectives`
unfoldable pub compute_cancel_directives : String → List String → M (List String)
unfolding missing_from
compute_cancel_directives node_id reported = do
  active ← query (λ now db. list_runs_by_node node_id db)
  pure (elim active [ none ↦ [] | some runs ↦ missing_from runs reported ])

abbrev pub directives_for : String → List String → M (List String)
directives_for node_id [] = pure []
directives_for node_id (r ∷ rs) = compute_cancel_directives node_id (r ∷ rs)

unfoldable pub deactivate_others : HeartbeatRequest → M (Unit {0})
deactivate_others req =
    if str_eq req.hostname ""
    then pure tt
    else exec (deactivate_stale_nodes req.node_id req.hostname) >> pure tt

-- `Handler.Heartbeat`: the answer carries the runs to cancel.
unfoldable pub heartbeat : Option HeartbeatRequest → M (Reply (List String))
unfolding deactivate_others
heartbeat none = pure (error 400 "invalid request body")
heartbeat (some req) = if str_eq req.node_id "" then pure (error 400 "node_id is required") else (do
  written ← exec (λ now. upsert_node_heartbeat (heartbeat_node req now) now)
  elim written [
    | none ↦ pure (error 500 "failed to update node")
    | some _ ↦ deactivate_others req >> directives_for req.node_id req.running_runs >>= λ cancel.
        pure (ok 200 cancel)
  ])

abbrev pub delete_if_idle : String → Option (List Run) → M (Reply (Unit {0}))
delete_if_idle id none = pure (error 500 "failed to check node runs")
delete_if_idle id (some []) = exec (delete_node id) >>= λ gone.
    pure (elim gone [ none ↦ error 500 "failed to delete node" | some _ ↦ ok 204 tt ])
delete_if_idle id (some (r ∷ rs)) = pure (error 400 "node has running tasks, please drain first")

abbrev pub delete_found : String → Option (Option Node) → M (Reply (Unit {0}))
delete_found id none = pure (error 500 "failed to get node")
delete_found id (some none) = pure (error 404 "node not found")
delete_found id (some (some n)) = query (λ now db. list_runs_by_node id db) >>= delete_if_idle id

-- `Handler.Delete`
unfoldable pub delete : String → M (Reply (Unit {0}))
delete id = query (λ now db. find_node id db) >>= delete_found id
