-- ===== src/Api/Approvals.antt =====
-- internal/apiserver/hitl/handler.go: decisions on approval requests, feedback, and the resolution of
-- confirmations. Ids that `generateID` draws are arguments.
use agents_admin.Prelude.{
  ℕ, Bool, true, false, ◌||◌, String, str_eq, Option, none, some, if◌then◌else◌,
}
use agents_admin.Model.Run.{Run}
use agents_admin.Model.Hitl.{
  ApprovalStatus, approved, rejected, is_pending, is_expired, ApprovalRequest, ApprovalDecision,
  HumanFeedback, ConfirmStatus, Confirmation,
}
use agents_admin.Storage.World.{M, pure, ◌>>=◌, query, exec}
use agents_admin.Storage.Runs.{find_run}
use agents_admin.Storage.Hitl.{
  find_approval, create_decision, update_approval_status, create_feedback, find_confirmation,
  update_confirmation_status,
}
use agents_admin.Api.Reply.{Reply, error, ok}

-- `createApprovalDecisionRequest`
pub record DecisionRequest : Type 0 where
  pub decision : String
  pub comment : String
  pub instructions : String

-- `req.Decision != "approve" && req.Decision != "reject"` is its negation.
abbrev pub is_decision : String → Bool
is_decision s = str_eq s "approve" || str_eq s "reject"

abbrev pub decided_status : String → ApprovalStatus
decided_status s = if str_eq s "approve" then approved else rejected

abbrev pub new_decision : String → String → DecisionRequest → ℕ → ApprovalDecision
new_decision id request_id req now = record {
  id = id;
  request_id = request_id;
  decision = req.decision;
  decided_by = "user";
  comment = req.comment;
  instructions = req.instructions;
  created_at = now;
}

unfoldable pub decide_pending : String → String → DecisionRequest → M (Reply (Unit {0}))
decide_pending id request_id req = do
  stored ← exec (λ now. create_decision (new_decision id request_id req now) now)
  elim stored [
    | none ↦ pure (error 500 "failed to create decision")
    | some _ ↦ exec (update_approval_status request_id (decided_status req.decision)) >>= λ written.
        pure
          (elim written [ none ↦ error 500 "failed to update request status" | some _ ↦ ok 200 tt ])
  ]

abbrev pub decide_found :
    String → String → DecisionRequest → Option (Option ApprovalRequest) → M (Reply (Unit {0}))
decide_found id request_id req none w = (error 500 "failed to get approval request", w)
decide_found id request_id req (some none) w = (error 404 "approval request not found", w)
decide_found id request_id req (some (some approval)) w =
    if is_pending approval.status
    then (if is_expired approval w.now
        then (error 409 "approval request has expired", w)
        else decide_pending id request_id req w)
    else (error 409 "approval request already processed", w)

-- `Handler.CreateApprovalDecision`
unfoldable pub create_approval_decision :
    String → String → Option DecisionRequest → M (Reply (Unit {0}))
unfolding decide_pending
create_approval_decision id request_id none = pure (error 400 "invalid request body")
create_approval_decision id request_id (some req) =
    if is_decision req.decision
    then query (λ now db. find_approval request_id db) >>= decide_found id request_id req
    else pure (error 400 "decision must be 'approve' or 'reject'")

-- `createFeedbackRequest`
pub record FeedbackRequest : Type 0 where
  pub type : String
  pub content : String

abbrev pub is_feedback_type : String → Bool
is_feedback_type s = str_eq s "guidance" || str_eq s "correction" || str_eq s "clarification"

abbrev pub new_feedback : String → String → FeedbackRequest → ℕ → HumanFeedback
new_feedback id run_id req now = record {
  id = id;
  run_id = run_id;
  type = req.type;
  content = req.content;
  created_by = "user";
  created_at = now;
  processed_at = none;
}

abbrev pub feedback_found :
    String → String → Option FeedbackRequest → Option (Option Run) → M (Reply (Unit {0}))
feedback_found id run_id body none = pure (error 500 "failed to get run")
feedback_found id run_id body (some none) = pure (error 404 "run not found")
feedback_found id run_id none (some (some run)) = pure (error 400 "invalid request body")
feedback_found id run_id (some req) (some (some run)) =
    if is_feedback_type req.type
    then (if str_eq req.content ""
        then pure (error 400 "content is required")
        else exec (λ now. create_feedback (new_feedback id run_id req now) now) >>= λ stored.
            pure
              (elim stored [ none ↦ error 500 "failed to create feedback" | some _ ↦ ok 201 tt ]))
    else pure (error 400 "invalid feedback type")

-- `Handler.CreateFeedback`
unfoldable pub create_feedback_for : String → String → Option FeedbackRequest → M (Reply (Unit {0}))
create_feedback_for id run_id body =
    query (λ now db. find_run run_id db) >>= feedback_found id run_id body

-- `resolveConfirmationRequest`
pub record ResolveRequest : Type 0 where
  pub confirmed : Bool
  pub selected_option : String

abbrev pub is_open : ConfirmStatus → Bool
is_open ConfirmStatus.pending = true
is_open _ = false

abbrev pub resolved_status : Bool → ConfirmStatus
resolved_status b = if b then ConfirmStatus.confirmed else ConfirmStatus.cancelled

abbrev pub resolve_found :
    String → ResolveRequest → Option (Option Confirmation) → M (Reply (Unit {0}))
resolve_found id req none = pure (error 500 "failed to get confirmation")
resolve_found id req (some none) = pure (error 404 "confirmation not found")
resolve_found id req (some (some c)) =
    if is_open c.status
    then (exec
          (update_confirmation_status id (resolved_status req.confirmed) (some req.selected_option))
        >>= λ written. pure (elim written [
          | none ↦ error 500 "failed to update confirmation"
          | some _ ↦ ok 200 tt
        ]))
    else pure (error 409 "confirmation already processed")

-- `Handler.ResolveConfirmation`
unfoldable pub resolve_confirmation : String → Option ResolveRequest → M (Reply (Unit {0}))
resolve_confirmation id none = pure (error 400 "invalid request body")
resolve_confirmation id (some req) =
    query (λ now db. find_confirmation id db) >>= resolve_found id req
