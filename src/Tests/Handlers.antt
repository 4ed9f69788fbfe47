-- ===== src/Tests/Handlers.antt =====
-- The theorems of the handlers, at one pending approval, one action and a few runs.
use agents_admin.Prelude.{
  ℕ, zero, suc, ◌<◌, pos, true, false, String, none, some, [], ◌∷◌, ◌≡◌, ◌⊎◌, ◌↔◌, refl, arith, Has,
  inl, inr,
}
use agents_admin.Json.{absent}
use agents_admin.Model.Run.{running, paused, Run}
use agents_admin.Model.Hitl.{ApprovalStatus, ApprovalRequest}
use agents_admin.Model.Operation.{OperationType, OperationStatus, Operation, ActionStatus, Action}
use agents_admin.Storage.World.{World}
use agents_admin.Storage.Runs.{find_run}
use agents_admin.Nodes.Heartbeat.{compute_cancel_directives}
use agents_admin.Api.Runs.{new_run}
use agents_admin.Model.Hitl.{ApprovalStatus, ApprovalRequest}
use agents_admin.Storage.Hitl.{find_approval}
use agents_admin.Storage.Actions.{Progress, find_action, find_operation}
use agents_admin.Api.Reply.{ok}
use agents_admin.Api.Runs
use agents_admin.Api.Approvals.{DecisionRequest, create_approval_decision, is_decision}
use agents_admin.Api.Actions.{update_action}
use agents_admin.Api.Decisions.{Decidable, Decided, decide-guard, decide-Decided, decide-once}
use agents_admin.Api.Controls.{cancel-unwritten}
use agents_admin.Api.Reporting.{Outcome, ended_action, ended_operation, update_action-ends}
use agents_admin.Nodes.Directives.{IsWork, directives-Has, paused-directive}
use agents_admin.Tests.{run_in, db_of, world_of}

abbrev approval : ApprovalRequest
approval = record {
  id = "a1";
  run_id = "r1";
  type = "dangerous_operation";
  status = ApprovalStatus.pending;
  operation = "rm";
  reason = "";
  context = absent;
  expires_at = some 150;
  created_at = 80;
  resolved_at = none;
}

abbrev asked : World
asked = world_of (record (db_of []) { approvals = approval ∷ [] })

abbrev approve : DecisionRequest
approve = record { decision = "approve"; comment = ""; instructions = "" }

asked-Decidable : Decidable "a1" asked.now asked.db
unfolding find_approval
asked-Decidable = record { approval = approval; found = refl; open_still = refl; in_time = refl }

decide-guard_example :
    ((create_approval_decision "d1" "a1" (some approve) asked).1.db ≡ asked.db)
    ⊎ (Decidable "a1" 100 asked.db
        × ((req : DecisionRequest) × (some approve ≡ some req) × (is_decision req.decision ≡ true)))
decide-guard_example = decide-guard "d1" "a1" (some approve) asked

decide-Decided_example : Decided "d1" "a1" approve asked
decide-Decided_example = decide-Decided "d1" "a1" approve asked (λ n. refl) refl asked-Decidable

abbrev answered : World
answered = world_of (create_approval_decision "d1" "a1" (some approve) asked).1.db

decide-once_example :
    (create_approval_decision "d2" "a1" (some approve) answered).1.db ≡ answered.db
decide-once_example =
    decide-once "d1" "a1" approve asked (λ n. refl) refl asked-Decidable "d2" (some approve)
      answered refl

abbrev paused_run : Run
paused_run = run_in "r2" paused

abbrev busy_run : Run
busy_run = run_in "r3" running

abbrev working : World
working = world_of (db_of (busy_run ∷ paused_run ∷ []))

directives-Has_example :
    Has {A = String} "r3" (compute_cancel_directives "n1" ("r2" ∷ "r3" ∷ []) working).0
    ↔ (Has {A = String} "r3" ("r2" ∷ "r3" ∷ []) × ¬ ((r : Run) × IsWork "n1" "r3" working.db r))
directives-Has_example = directives-Has "n1" "r3" ("r2" ∷ "r3" ∷ []) working refl

paused_key : (x : Run) → Has x (paused_run ∷ []) → x.id ≡ "r2" → x ≡ paused_run
paused_key x (inl e) h = e
paused_key x (inr m) h = elim m [ ]

paused-directive_example :
    Has {A = String} "r2"
      (compute_cancel_directives "n1" ("r2" ∷ []) (world_of (db_of (paused_run ∷ [])))).0
paused-directive_example =
    paused-directive "n1" ("r2" ∷ []) (world_of (db_of (paused_run ∷ []))) paused_run refl
      paused_key refl (inl refl)

-- Every statement but the first one fails.
abbrev losing : World
losing = record {
  db = db_of (busy_run ∷ []);
  now = 100;
  calls = 0;
  fails = λ n. elim n [ zero ↦ false | suc k ↦ true ];
}

all_lost : (n : ℕ) → 0 < n → losing.fails n ≡ true
all_lost zero h = absurd (omega arith)
all_lost (suc k) h = refl

cancel-unwritten_example :
    ((Runs.cancel "r3" losing).0 ≡ ok 200 tt) × ((Runs.cancel "r3" losing).1.db ≡ losing.db)
unfolding find_run
cancel-unwritten_example = cancel-unwritten "r3" losing busy_run refl refl refl all_lost

abbrev action_in : ActionStatus → Action
action_in status = record {
  id = "x1";
  operation_id = "o1";
  status = status;
  phase = "";
  message = "";
  progress = pos 0;
  result = absent;
  error = "";
  created_at = 1;
  started_at = none;
  finished_at = none;
}

abbrev operation : Operation
operation = record {
  id = "o1";
  type = OperationType.oauth;
  config = absent;
  status = OperationStatus.in_progress;
  node_id = "n1";
  created_at = 1;
  updated_at = 1;
  finished_at = none;
}

abbrev acting : ActionStatus → World
acting status =
    world_of (record (db_of []) { operations = operation ∷ []; actions = action_in status ∷ [] })

abbrev succeeded : Progress
succeeded = record {
  status = ActionStatus.success;
  phase = "";
  message = "";
  progress = pos 100;
  result = absent;
  error = "";
}

update_action-ends_example :
    (s : OperationStatus) × Outcome ActionStatus.success s
    × (find_action "x1" (update_action "x1" (some succeeded) (acting ActionStatus.running)).1.db
        ≡ some (ended_action succeeded 100 (action_in ActionStatus.running)))
    × (find_operation "o1" (update_action "x1" (some succeeded) (acting ActionStatus.running)).1.db
        ≡ some (ended_operation s (acting ActionStatus.running).db 100 operation))
unfolding find_action find_operation
update_action-ends_example =
    update_action-ends "x1" succeeded (acting ActionStatus.running) (action_in ActionStatus.running)
      operation refl refl refl refl refl refl refl
