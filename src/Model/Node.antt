-- ===== src/Model/Node.antt =====
-- internal/shared/model/node.go: a compute node; and the part of an agent instance that scheduling
-- reads (`GetAgentInstance`).
use agents_admin.Prelude.{ℕ, String, Bool, true, false, Option}
use agents_admin.Json.{RawMessage}

pub data NodeStatus : Type 0 where
  starting online unhealthy draining maintenance offline terminated unknown : NodeStatus
  other : String → NodeStatus

pub record Node : Type 0 where
  pub id : String
  pub display_name : String
  pub status : NodeStatus
  pub hostname : String
  pub ips : String
  pub labels : RawMessage
  pub capacity : RawMessage
  pub last_heartbeat : Option ℕ
  pub created_at : ℕ
  pub updated_at : ℕ

-- `Node.IsAdminStatus`: the states that a heartbeat does not override.
abbrev pub is_admin_status : NodeStatus → Bool
is_admin_status draining = true
is_admin_status maintenance = true
is_admin_status terminated = true
is_admin_status starting = true
is_admin_status unknown = true
is_admin_status unhealthy = true
is_admin_status _ = false

pub record Instance : Type 0 where
  pub id : String
  pub node_id : Option String
