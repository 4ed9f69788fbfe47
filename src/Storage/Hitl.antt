-- ===== src/Storage/Hitl.antt =====
-- internal/shared/storage/repository/hitl.go: the tables of the human in the loop.
use agents_admin.Prelude.{ℕ, String, str_eq, Option, some, ◌∷◌, find?, update}
use agents_admin.Model.Hitl.{
  ApprovalStatus, ApprovalRequest, ApprovalDecision, HumanFeedback, Intervention, ConfirmStatus,
  Confirmation,
}
use agents_admin.Storage.World.{Db}

-- `GetApprovalRequest`
unfoldable pub find_approval : String → Db → Option ApprovalRequest
find_approval id db = find? (λ a. str_eq a.id id) db.approvals

-- `CreateApprovalDecision`
unfoldable pub create_decision : ApprovalDecision → ℕ → Db → Db
create_decision d now db = record db { decisions = d ∷ db.decisions }

-- `UpdateApprovalRequestStatus`
unfoldable pub update_approval_status : String → ApprovalStatus → ℕ → Db → Db
update_approval_status id status now db = record db {
  approvals =
      update (λ a. str_eq a.id id) (λ a. record a { status = status; resolved_at = some now })
        db.approvals;
}

-- `CreateFeedback`
unfoldable pub create_feedback : HumanFeedback → ℕ → Db → Db
create_feedback f now db = record db { feedbacks = f ∷ db.feedbacks }

-- `CreateIntervention`
unfoldable pub create_intervention : Intervention → ℕ → Db → Db
create_intervention i now db = record db { interventions = i ∷ db.interventions }

-- `UpdateInterventionExecuted`
unfoldable pub update_intervention_executed : String → ℕ → Db → Db
update_intervention_executed id now db = record db {
  interventions =
      update (λ i. str_eq i.id id) (λ i. record i { executed_at = some now }) db.interventions;
}

-- `GetConfirmation`
unfoldable pub find_confirmation : String → Db → Option Confirmation
find_confirmation id db = find? (λ c. str_eq c.id id) db.confirmations

-- `UpdateConfirmationStatus`
unfoldable pub update_confirmation_status : String → ConfirmStatus → Option String → ℕ → Db → Db
update_confirmation_status id status selected now db = record db {
  confirmations =
      update (λ c. str_eq c.id id)
        (λ c. record c { status = status; selected_option = selected; resolved_at = some now })
        db.confirmations;
}
