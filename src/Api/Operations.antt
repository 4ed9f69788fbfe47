-- ===== src/Api/Operations.antt =====
-- internal/apiserver/operation/create.go and auth/create.go: operations that log an agent in. Ids that
-- `generateID` draws are arguments.
use agents_admin.Prelude.{
  ℕ, pos, Bool, ◌||◌, String, str_eq, concat, Option, none, some, if◌then◌else◌, not,
}
use agents_admin.Json.{RawMessage, absent, doc, str, obj, end, field}
use agents_admin.Model.Account.{AccountStatus, Account, find_agent_type, supports_method}
use agents_admin.Model.Operation.{
  OperationType, oauth, device_code, api_key, OperationStatus, Operation, ActionStatus, Action,
}
use agents_admin.Model.Node.{Node}
use agents_admin.Storage.World.{M, pure, clock, ◌>>=◌, call, query}
use agents_admin.Storage.Nodes.{find_node}
use agents_admin.Storage.Accounts.{create_account, create_operation, create_action}
use agents_admin.Api.Reply.{Reply, error, ok}
use agents_admin.Api.Accounts.{
  unmarshal_login, oauth_keys, api_key_keys, LoginConfig, new_account, volume_name_of,
}

-- The ids of a new operation and of its action.
pub record Ids : Type 0 where
  pub op_id : String
  pub act_id : String

-- What a handler answers: the ids, the type, the status and, of an API key, the account.
pub record Created : Type 0 where
  pub ids : Ids
  pub type : OperationType
  pub status : String
  pub account_id : String

abbrev pub new_operation :
    Ids → OperationType → RawMessage → String → OperationStatus → Option ℕ → ℕ → Operation
new_operation ids type config node_id status finished_at now = record {
  id = ids.op_id;
  type = type;
  config = config;
  status = status;
  node_id = node_id;
  created_at = now;
  updated_at = now;
  finished_at = finished_at;
}

abbrev pub auth_action : Ids → ℕ → Action
auth_action ids now = record {
  id = ids.act_id;
  operation_id = ids.op_id;
  status = ActionStatus.assigned;
  phase = "";
  message = "";
  progress = pos 0;
  result = absent;
  error = "";
  created_at = now;
  started_at = none;
  finished_at = none;
}

abbrev pub api_key_action : Ids → String → ℕ → Action
api_key_action ids volume now = record (auth_action ids now) {
  status = ActionStatus.success;
  progress = pos 100;
  result = doc (obj (field "volume_name" (str volume) end));
  started_at = some now;
  finished_at = some now;
}

abbrev pub checked_node : M (Reply Created) → Option (Option Node) → M (Reply Created)
checked_node go none = pure (error 500 "failed to check node")
checked_node go (some none) = pure (error 400 "invalid node_id: node not found")
checked_node go (some (some node)) = go

-- The checks that both kinds share: the type of agent, its method and the node.
unfoldable pub checked : String → String → String → M (Reply Created) → M (Reply Created)
checked agent_type method node_id go = elim (find_agent_type agent_type) [
  | none ↦ pure (error 400 (concat "unknown agent type: " agent_type))
  | some at ↦
      if not (supports_method at method)
      then pure (error 400 (concat method (concat " not supported for agent type " agent_type)))
      else query (λ _ db. find_node node_id db) >>= checked_node go
]

-- The two inserts, and what follows them.
unfoldable pub insert_both : Operation → Action → M (Reply Created) → M (Reply Created)
insert_both op action go = call (create_operation op) >>= λ stored. elim stored [
  | none ↦ pure (error 500 "failed to create operation")
  | some _ ↦ call (create_action action) >>= λ begun. elim begun [
    | none ↦ pure (error 500 "failed to create action")
    | some _ ↦ go
  ]
]

abbrev pub method_of : OperationType → String
method_of oauth = "oauth"
method_of api_key = "api_key"
method_of device_code = "device_code"
method_of OperationType.runtime_create = "runtime_create"
method_of OperationType.runtime_start = "runtime_start"
method_of OperationType.runtime_stop = "runtime_stop"
method_of OperationType.runtime_destroy = "runtime_destroy"
method_of (OperationType.other s) = s

-- The inserts of a login that a node will carry out.
unfoldable pub store_auth : Ids → OperationType → RawMessage → String → M (Reply Created)
unfolding insert_both
store_auth ids type config node_id = clock >>= λ now.
    insert_both (new_operation ids type config node_id OperationStatus.pending none now)
      (auth_action ids now)
      (pure (ok 201 (record { ids = ids; type = type; status = "assigned"; account_id = "" })))

-- A required field that is missing.
abbrev pub auth_lacks : LoginConfig → String → Bool
auth_lacks f node_id = str_eq f.name "" || (str_eq f.agent_type "" || str_eq node_id "")

abbrev pub api_key_lacks : LoginConfig → String → Bool
api_key_lacks f node_id =
    str_eq f.name "" || (str_eq f.agent_type "" || (str_eq f.api_key "" || str_eq node_id ""))

-- `CreateAuthOperation`
unfoldable pub create_auth : Ids → OperationType → RawMessage → String → M (Reply Created)
unfolding checked store_auth unmarshal_login
create_auth ids type config node_id = elim (unmarshal_login oauth_keys config) [
  | none ↦ pure (error 400 "invalid config")
  | some f ↦
      if auth_lacks f node_id
      then pure (error 400 "config.name, config.agent_type, and node_id are required")
      else checked f.agent_type (method_of type) node_id (store_auth ids type config node_id)
]

abbrev pub api_key_account : LoginConfig → ℕ → Account
api_key_account f now =
    new_account f.agent_type f.name (some (volume_name_of f.agent_type f.name))
      AccountStatus.authenticated now

-- The insert of the account of an API key.
unfoldable pub store_account : Ids → Account → M (Reply Created)
store_account ids account = call (create_account account) >>= λ stored. elim stored [
  | none ↦ pure (error 500 "failed to create account")
  | some _ ↦
      pure
        (ok 201 (record { ids = ids; type = api_key; status = "success"; account_id = account.id }))
]

-- The three inserts of an API key.
unfoldable pub store_api_key : Ids → RawMessage → String → LoginConfig → M (Reply Created)
unfolding insert_both store_account
store_api_key ids config node_id f = clock >>= λ now.
    insert_both (new_operation ids api_key config node_id OperationStatus.completed (some now) now)
      (api_key_action ids (volume_name_of f.agent_type f.name) now)
      (store_account ids (api_key_account f now))

-- `CreateAPIKeyOperation`
unfoldable pub create_api_key : Ids → RawMessage → String → M (Reply Created)
unfolding checked store_api_key unmarshal_login
create_api_key ids config node_id = elim (unmarshal_login api_key_keys config) [
  | none ↦ pure (error 400 "invalid config")
  | some f ↦
      if api_key_lacks f node_id
      then pure
          (error 400 "config.name, config.agent_type, config.api_key, and node_id are required")
      else checked f.agent_type "api_key" node_id (store_api_key ids config node_id f)
]

-- The body of a request, with its type read.
pub record OperationRequest : Type 0 where
  pub type : OperationType
  pub config : RawMessage
  pub node_id : String

-- `Handler.CreateOperation`
unfoldable pub create : Ids → Option OperationRequest → M (Reply Created)
unfolding create_auth create_api_key
create ids none = pure (error 400 "invalid request body")
create ids (some req) = elim req.type [
  | oauth ↦ create_auth ids oauth req.config req.node_id
  | device_code ↦ create_auth ids device_code req.config req.node_id
  | api_key ↦ create_api_key ids req.config req.node_id
  | _ ↦ pure (error 400 (concat "unsupported operation type: " (method_of req.type)))
]
