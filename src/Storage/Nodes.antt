-- ===== src/Storage/Nodes.antt =====
-- internal/shared/storage/repository/node.go and instance.go: nodes and agent instances.
use agents_admin.Prelude.{
  ℕ, leb, Bool, true, false, String, str_eq, ◌&&◌, not, Option, List, ◌∷◌, if◌then◌else◌, find?,
  filter, update, is_some,
}
use agents_admin.Model.Node.{NodeStatus, Node, Instance}
use agents_admin.Storage.World.{Db, stamp}
use agents_admin.Storage.Order.{sort_by}

-- `GetNode`
unfoldable pub find_node : String → Db → Option Node
find_node id db = find? (λ n. str_eq n.id id) db.nodes

-- `ListAllNodes`
unfoldable pub list_all_nodes : Db → List Node
list_all_nodes db = sort_by (λ a b. leb b.created_at a.created_at) db.nodes

-- `UpsertNode`: of a node that is there, the columns of the conflict clause are written.
unfoldable pub upsert_node : Node → ℕ → Db → Db
unfolding find_node
upsert_node node now db = record db {
  nodes =
      if is_some (find_node node.id db)
      then update (λ n. str_eq n.id node.id)
          (λ n. record n {
            display_name = node.display_name;
            status = node.status;
            hostname = node.hostname;
            ips = node.ips;
            labels = node.labels;
            capacity = node.capacity;
            last_heartbeat = node.last_heartbeat;
            updated_at = stamp db now n.updated_at;
          })
          db.nodes
      else node ∷ db.nodes;
}

-- `UpsertNodeHeartbeat`: the status and the display name of a known node stay.
unfoldable pub upsert_node_heartbeat : Node → ℕ → Db → Db
unfolding find_node
upsert_node_heartbeat node now db = record db {
  nodes =
      if is_some (find_node node.id db)
      then update (λ n. str_eq n.id node.id)
          (λ n. record n {
            hostname = node.hostname;
            ips = node.ips;
            labels = node.labels;
            capacity = node.capacity;
            last_heartbeat = node.last_heartbeat;
            updated_at = now;
          })
          db.nodes
      else node ∷ db.nodes;
}

-- `status NOT IN ('offline', 'terminated')`
abbrev pub is_deactivatable : NodeStatus → Bool
is_deactivatable NodeStatus.offline = false
is_deactivatable NodeStatus.terminated = false
is_deactivatable _ = true

-- `DeactivateStaleNodes`; its caller passes no empty hostname.
unfoldable pub deactivate_stale_nodes : String → String → ℕ → Db → Db
deactivate_stale_nodes active_id hostname now db = if str_eq hostname "" then db else record db {
  nodes =
      update
        (λ n.
          not (str_eq n.id active_id) && str_eq n.hostname hostname && is_deactivatable n.status)
        (λ n. record n { status = NodeStatus.offline; updated_at = now }) db.nodes;
}

-- `DeleteNode`
unfoldable pub delete_node : String → ℕ → Db → Db
delete_node id now db = record db { nodes = filter (λ n. not (str_eq n.id id)) db.nodes }

-- `GetAgentInstance`
unfoldable pub find_instance : String → Db → Option Instance
find_instance id db = find? (λ a. str_eq a.id id) db.agents
