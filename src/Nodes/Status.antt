-- ===== src/Nodes/Status.antt =====
-- internal/apiserver/node/utils.go: the freshness of a heartbeat, the capacity of a node, and the
-- ids that a snapshot carries. Times are counted in seconds.
use agents_admin.Prelude.{
  ℕ, ◌+◌, ltb, leb, ℤ, pos, String, Bool, true, false, not, Option, none, some, List, if◌then◌else◌,
  filter,
}
use agents_admin.Json.{
  Json, RawMessage, Fields, num, obj, is_empty, unmarshal_map, field_value, as_string,
}
use agents_admin.Model.Node.{Node, NodeStatus, is_admin_status}

abbrev pub heartbeat_fresh_window : ℕ
heartbeat_fresh_window = 45

-- `IsHeartbeatFresh`: `now - heartbeat <= window`
unfoldable pub is_heartbeat_fresh : Option ℕ → ℕ → ℕ → Bool
is_heartbeat_fresh heartbeat window now = elim heartbeat [
  | none ↦ false
  | some t ↦ leb now (t + window)
]

-- The test of the loop in `FilterNodesByFreshHeartbeat`, which skips the nodes that fail it.
abbrev pub is_stale : Option ℕ → ℕ → ℕ → Bool
is_stale heartbeat window now = elim heartbeat [ none ↦ true | some t ↦ ltb (t + window) now ]

-- `FilterNodesByFreshHeartbeat`
unfoldable pub filter_nodes_by_fresh_heartbeat : List Node → ℕ → ℕ → List Node
filter_nodes_by_fresh_heartbeat nodes window now =
    filter (λ n. not (is_stale n.last_heartbeat window now)) nodes

pub record NodeRealtimeStatus : Type 0 where
  pub online : Bool
  pub status : NodeStatus
  pub last_heartbeat : Option ℕ

-- `ResolveNodeStatus`, without the capacity that it passes on for display.
unfoldable pub resolve_node_status : Node → ℕ → NodeRealtimeStatus
unfolding is_heartbeat_fresh
resolve_node_status node now =
    if is_admin_status node.status
    then record { online = false; status = node.status; last_heartbeat = node.last_heartbeat }
    else let online = is_heartbeat_fresh node.last_heartbeat heartbeat_fresh_window now in
      record {
        online = online;
        status = if online then NodeStatus.online else NodeStatus.offline;
        last_heartbeat = node.last_heartbeat;
      }

-- `capacity["max_concurrent"]`, a number or nothing that counts.
abbrev pub number_or_one : Option Json → ℤ
number_or_one (some (num n)) = n
number_or_one _ = pos 1

-- `GetNodeMaxConcurrent`
unfoldable pub get_node_max_concurrent : Node → ℤ
unfolding unmarshal_map field_value
get_node_max_concurrent node =
    if is_empty node.capacity then pos 1 else elim (unmarshal_map node.capacity) [
      | none ↦ pos 1
      | some capacity ↦ number_or_one (field_value "max_concurrent" capacity)
    ]

-- `spec["agent"].(map[string]interface{})`
abbrev pub as_object : Option Json → Option Fields
as_object (some (obj f)) = some f
as_object _ = none

-- `ExtractAgentIDs`: the ids of the instance and of the account.
unfoldable pub extract_agent_ids : RawMessage → String × String
unfolding unmarshal_map field_value
extract_agent_ids snapshot = elim (unmarshal_map snapshot) [
  | none ↦ ("", "")
  | some spec ↦ elim (as_object (field_value "agent" spec)) [
    | none ↦ ("", "")
    | some agent ↦
        (as_string (field_value "instance_id" agent), as_string (field_value "account_id" agent))
  ]
]
