-- ===== src/Model/Operation.antt =====
-- internal/shared/model/operation.go and action.go: system operations and their attempts.
use agents_admin.Prelude.{ℕ, ℤ, String, Bool, true, false, Option}
use agents_admin.Json.{RawMessage}

pub data OperationType : Type 0 where
  oauth api_key device_code : OperationType
  runtime_create runtime_start runtime_stop runtime_destroy : OperationType
  other : String → OperationType

pub data OperationStatus : Type 0 where
  pending in_progress completed failed cancelled : OperationStatus

pub record Operation : Type 0 where
  pub id : String
  pub type : OperationType
  pub config : RawMessage
  pub status : OperationStatus
  pub node_id : String
  pub created_at : ℕ
  pub updated_at : ℕ
  pub finished_at : Option ℕ

pub data ActionStatus : Type 0 where
  assigned running waiting success failed timeout cancelled : ActionStatus
  other : String → ActionStatus

-- `ActionStatus.IsTerminal`
abbrev pub is_terminal : ActionStatus → Bool
is_terminal ActionStatus.success = true
is_terminal ActionStatus.failed = true
is_terminal ActionStatus.timeout = true
is_terminal ActionStatus.cancelled = true
is_terminal _ = false

-- A phase is a free text here; which phases are valid for which type is not modelled.
pub record Action : Type 0 where
  pub id : String
  pub operation_id : String
  pub status : ActionStatus
  pub phase : String
  pub message : String
  pub progress : ℤ
  pub result : RawMessage
  pub error : String
  pub created_at : ℕ
  pub started_at : Option ℕ
  pub finished_at : Option ℕ
