-- ===== src/Model/Hitl.antt =====
-- internal/shared/model/hitl.go: approvals, feedback, interventions and confirmations.
use agents_admin.Prelude.{ℕ, ltb, String, Bool, true, false, Option, none, some, List}
use agents_admin.Json.{RawMessage}

pub data ApprovalStatus : Type 0 where
  pending approved rejected expired : ApprovalStatus

abbrev pub is_pending : ApprovalStatus → Bool
is_pending pending = true
is_pending _ = false

pub record ApprovalRequest : Type 0 where
  pub id : String
  pub run_id : String
  pub type : String
  pub status : ApprovalStatus
  pub operation : String
  pub reason : String
  pub context : RawMessage
  pub expires_at : Option ℕ
  pub created_at : ℕ
  pub resolved_at : Option ℕ

-- `ApprovalRequest.IsExpired` at the time `now`
abbrev pub is_expired : ApprovalRequest → ℕ → Bool
is_expired r now = elim r.expires_at [ none ↦ false | some t ↦ ltb t now ]

pub record ApprovalDecision : Type 0 where
  pub id : String
  pub request_id : String
  pub decision : String
  pub decided_by : String
  pub comment : String
  pub instructions : String
  pub created_at : ℕ

pub record HumanFeedback : Type 0 where
  pub id : String
  pub run_id : String
  pub type : String
  pub content : String
  pub created_by : String
  pub created_at : ℕ
  pub processed_at : Option ℕ

pub data InterventionAction : Type 0 where
  pause resume cancel modify : InterventionAction

pub record Intervention : Type 0 where
  pub id : String
  pub run_id : String
  pub action : InterventionAction
  pub reason : String
  pub parameters : RawMessage
  pub created_by : String
  pub created_at : ℕ
  pub executed_at : Option ℕ

pub data ConfirmStatus : Type 0 where
  pending confirmed cancelled : ConfirmStatus

pub record Confirmation : Type 0 where
  pub id : String
  pub run_id : String
  pub type : String
  pub message : String
  pub status : ConfirmStatus
  pub options : List String
  pub selected_option : Option String
  pub created_at : ℕ
  pub resolved_at : Option ℕ
