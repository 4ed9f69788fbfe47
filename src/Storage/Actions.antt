-- ===== src/Storage/Actions.antt =====
-- internal/shared/storage/repository/operation.go: operations and their actions.
use agents_admin.Prelude.{
  ℕ, ℤ, Bool, true, false, String, str_eq, Option, none, some, find?, update, if◌then◌else◌,
}
use agents_admin.Json.{RawMessage}
use agents_admin.Model.Operation.{OperationStatus, Operation, ActionStatus, Action, is_terminal}
use agents_admin.Storage.World.{Db, stamp}

-- `GetOperation`
unfoldable pub find_operation : String → Db → Option Operation
find_operation id db = find? (λ o. str_eq o.id id) db.operations

-- `SELECT … FROM actions WHERE id = …`
unfoldable pub find_action : String → Db → Option Action
find_action id db = find? (λ a. str_eq a.id id) db.actions

-- `GetActionWithOperation`: the join leaves out an action whose operation is gone.
unfoldable pub find_action_with_operation : String → Db → Option (Action × Operation)
unfolding find_action find_operation
find_action_with_operation id db = elim (find_action id db) [
  | none ↦ none
  | some a ↦ elim (find_operation a.operation_id db) [ none ↦ none | some o ↦ some (a, o) ]
]

abbrev pub ends_operation : OperationStatus → Bool
ends_operation OperationStatus.completed = true
ends_operation OperationStatus.failed = true
ends_operation OperationStatus.cancelled = true
ends_operation _ = false

-- `UpdateOperationStatus`
unfoldable pub update_operation_status : String → OperationStatus → ℕ → Db → Db
update_operation_status id status now db = record db {
  operations =
      update (λ o. str_eq o.id id)
        (λ o. record o {
          status = status;
          finished_at = if ends_operation status then some now else o.finished_at;
          updated_at = stamp db now o.updated_at;
        })
        db.operations;
}

abbrev pub is_running : ActionStatus → Bool
is_running ActionStatus.running = true
is_running _ = false

-- What `UpdateActionStatus` writes into a row.
pub record Progress : Type 0 where
  pub status : ActionStatus
  pub phase : String
  pub message : String
  pub progress : ℤ
  pub result : RawMessage
  pub error : String

-- `UpdateActionStatus`
unfoldable pub update_action_status : String → Progress → ℕ → Db → Db
update_action_status id p now db = record db {
  actions =
      update (λ a. str_eq a.id id)
        (λ a. record a {
          status = p.status;
          phase = p.phase;
          message = p.message;
          progress = p.progress;
          result = p.result;
          error = p.error;
          started_at = if is_running p.status then some now else a.started_at;
          finished_at =
              if is_running p.status
              then a.finished_at
              else if is_terminal p.status
              then some now
              else a.finished_at;
        })
        db.actions;
}
