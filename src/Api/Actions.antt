-- ===== src/Api/Actions.antt =====
-- internal/apiserver/operation/action.go: the progress that a node reports of an action.
use agents_admin.Prelude.{Bool, true, false, ◌&&◌, String, Option, none, some, if◌then◌else◌}
use agents_admin.Json.{RawMessage}
use agents_admin.Model.Operation.{OperationStatus, Operation, ActionStatus, Action, is_terminal}
use agents_admin.Storage.World.{M, pure, ◌>>=◌, ◌>>◌, query, exec}
use agents_admin.Storage.Actions.{
  Progress, find_action_with_operation, update_action_status, update_operation_status, is_running,
}
use agents_admin.Api.Accounts.{handle_action_success}
use agents_admin.Api.Reply.{Reply, error, ok}

-- The status of the operation once its action has ended.
abbrev pub operation_status_of : ActionStatus → OperationStatus
operation_status_of ActionStatus.success = OperationStatus.completed
operation_status_of _ = OperationStatus.failed

abbrev pub is_pending : OperationStatus → Bool
is_pending OperationStatus.pending = true
is_pending _ = false

-- What a success leaves.
unfoldable pub conclude : Operation → ActionStatus → RawMessage → M (Unit {0})
unfolding handle_action_success
conclude op ActionStatus.success result = handle_action_success op result
conclude op _ result = pure tt

-- What follows for the operation, whose errors are dropped.
unfoldable pub follow : Action → Operation → ActionStatus → RawMessage → M (Unit {0})
unfolding conclude
follow action op status result =
    if is_terminal status
    then exec (update_operation_status action.operation_id (operation_status_of status))
      >> conclude op status result
    else if is_running status && is_pending op.status
    then exec (update_operation_status action.operation_id OperationStatus.in_progress) >> pure tt
    else pure tt

abbrev pub update_found :
    String → Progress → Option (Option (Action × Operation)) → M (Reply (Unit {0}))
update_found id p none = pure (error 500 "failed to get action")
update_found id p (some none) = pure (error 404 "action not found")
update_found id p (some (some (action, op))) =
    if is_terminal action.status
    then pure (error 409 "action is already in terminal state")
    else exec (update_action_status id p) >>= λ written. elim written [
      | none ↦ pure (error 500 "failed to update action")
      | some _ ↦ follow action op p.status p.result >> pure (ok 200 tt)
    ]

-- `Handler.UpdateAction`
unfoldable pub update_action : String → Option Progress → M (Reply (Unit {0}))
unfolding follow
update_action id none = pure (error 400 "invalid request body")
update_action id (some p) = query (λ now db. find_action_with_operation id db) >>= update_found id p
