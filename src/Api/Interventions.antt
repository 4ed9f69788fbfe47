-- ===== src/Api/Interventions.antt =====
-- internal/apiserver/hitl/handler.go, `CreateIntervention`: pausing, resuming, cancelling and
-- modifying a run.
use agents_admin.Prelude.{ℕ, String, str_eq, Option, none, some, if◌then◌else◌}
use agents_admin.Json.{RawMessage}
use agents_admin.Model.Run.{RunStatus, queued, running, paused, cancelled, Run}
use agents_admin.Model.Hitl.{InterventionAction, pause, resume, cancel, modify, Intervention}
use agents_admin.Storage.World.{M, pure, ◌>>=◌, ◌>>◌, query, exec}
use agents_admin.Storage.Runs.{find_run, update_run_status}
use agents_admin.Storage.Hitl.{create_intervention, update_intervention_executed}
use agents_admin.Api.Reply.{Reply, error, ok}

-- `createInterventionRequest`
pub record InterventionRequest : Type 0 where
  pub action : String
  pub reason : String
  pub parameters : RawMessage

-- The conversion and the test `validActions[action]`.
unfoldable pub action_of_string : String → Option InterventionAction
action_of_string s =
    if str_eq s "pause"
    then some pause
    else if str_eq s "resume"
    then some resume
    else if str_eq s "cancel"
    then some cancel
    else if str_eq s "modify"
    then some modify
    else none

-- The `switch` of refusals: the message, if the status of the run forbids the action.
abbrev pub refusal : InterventionAction → RunStatus → Option String
refusal pause running = none
refusal pause _ = some "can only pause running runs"
refusal resume paused = none
refusal resume _ = some "can only resume paused runs"
refusal cancel running = none
refusal cancel queued = none
refusal cancel paused = none
refusal cancel _ = some "cannot cancel this run"
refusal modify _ = none

-- The status that an action puts the run into.
abbrev pub target_status : InterventionAction → Option RunStatus
target_status pause = some paused
target_status resume = some running
target_status cancel = some cancelled
target_status modify = none

abbrev pub new_intervention :
    String → String → InterventionAction → InterventionRequest → ℕ → Intervention
new_intervention id run_id action req now = record {
  id = id;
  run_id = run_id;
  action = action;
  reason = req.reason;
  parameters = req.parameters;
  created_by = "user";
  created_at = now;
  executed_at = none;
}

-- The mark that the intervention is executed, whose error is dropped.
unfoldable pub mark_executed : String → M (Reply (Unit {0}))
mark_executed id = exec (update_intervention_executed id) >> pure (ok 201 tt)

unfoldable pub apply_action : String → String → InterventionAction → M (Reply (Unit {0}))
unfolding mark_executed
apply_action id run_id action = elim (target_status action) [
  | none ↦ mark_executed id
  | some status ↦ update_run_status run_id status none >>= λ written. elim written [
    | none ↦ pure (error 500 "failed to update run status")
    | some _ ↦ mark_executed id
  ]
]

-- The stored intervention, then its effect.
unfoldable pub intervene :
    String → String → InterventionAction → InterventionRequest → M (Reply (Unit {0}))
unfolding apply_action
intervene id run_id action req = do
  stored ← exec (λ now. create_intervention (new_intervention id run_id action req now) now)
  elim stored [
    | none ↦ pure (error 500 "failed to create intervention")
    | some _ ↦ apply_action id run_id action
  ]

abbrev pub intervene_on :
    String → String → InterventionRequest → Run → Option InterventionAction → M (Reply (Unit {0}))
intervene_on id run_id req run none = pure (error 400 "invalid action")
intervene_on id run_id req run (some action) = elim (refusal action run.status) [
  | some message ↦ pure (error 409 message)
  | none ↦ intervene id run_id action req
]

abbrev pub intervention_found :
    String → String → Option InterventionRequest → Option (Option Run) → M (Reply (Unit {0}))
intervention_found id run_id body none = pure (error 500 "failed to get run")
intervention_found id run_id body (some none) = pure (error 404 "run not found")
intervention_found id run_id none (some (some run)) = pure (error 400 "invalid request body")
intervention_found id run_id (some req) (some (some run)) =
    intervene_on id run_id req run (action_of_string req.action)

-- `Handler.CreateIntervention`
unfoldable pub create_intervention_for :
    String → String → Option InterventionRequest → M (Reply (Unit {0}))
unfolding intervene
create_intervention_for id run_id body =
    query (λ now db. find_run run_id db) >>= intervention_found id run_id body
