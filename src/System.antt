-- ===== src/System.antt =====
-- The control plane as a whole: the requests that change the tables, each served by its handler, and
-- sequences of them. A request comes with its time and with the outcome of its statements.
pub mod Lifecycle
pub mod Refine
pub mod Handlers
pub mod Reports
pub mod Interventions
pub mod Others
pub mod Planting
pub mod Machines
pub mod Keeping
pub mod Scheduling
pub mod Serving
pub mod Settled
pub mod Keyed
pub mod Begun
pub mod Idle
use agents_admin.Prelude.{ℕ, Bool, String, Option, List, [], ◌∷◌}
use agents_admin.Storage.World.{Db, M, pure, ◌>>◌}
use agents_admin.Storage.Actions.{Progress}
use agents_admin.Nodes.Heartbeat.{HeartbeatRequest, heartbeat, delete}
use agents_admin.Scheduler.Loop.{Scheduler, Message, process_fallback_runs, consume}
use agents_admin.Api.Runs.{create, cancel, update_status}
use agents_admin.Api.Events.{EventInput, post_events}
use agents_admin.Api.Approvals.{
  DecisionRequest, FeedbackRequest, ResolveRequest, create_approval_decision, create_feedback_for,
  resolve_confirmation,
}
use agents_admin.Api.Interventions.{InterventionRequest, create_intervention_for}
use agents_admin.Model.Task.{TaskContext}
use agents_admin.Api.TaskRequest.{CreateRequest}
use agents_admin.Api.Tasks
use agents_admin.Api.Tasks.{Bridge, update_context}
use agents_admin.Api.Actions.{update_action}

-- Ids that a handler draws are part of the request, and so are the scheduler's own state and its
-- random source.
pub data Request : Type 0 where
  create_run : String → String → Request
  cancel_run : String → Request
  patch_run : String → Option (Option String) → Request
  report_events : String → Option (List EventInput) → Request
  intervene : String → String → Option InterventionRequest → Request
  decide : String → String → Option DecisionRequest → Request
  feed_back : String → String → Option FeedbackRequest → Request
  resolve : String → Option ResolveRequest → Request
  report_action : String → Option Progress → Request
  beat : Option HeartbeatRequest → Request
  delete_node : String → Request
  create_task : Bridge → String → Option CreateRequest → Request
  write_context : String → Option TaskContext → Request
  delete_task : String → Request
  consume_messages : (ℕ → ℕ) → Scheduler → List Message → Request
  poll : (ℕ → ℕ) → Scheduler → Request

-- The handler of a request, without its answer.
unfoldable pub serve : Request → M (Unit {0})
serve (create_run id task) = create id task >> pure tt
serve (cancel_run id) = cancel id >> pure tt
serve (patch_run id body) = update_status id body >> pure tt
serve (report_events id body) = post_events id body >> pure tt
serve (intervene new id body) = create_intervention_for new id body >> pure tt
serve (decide new id body) = create_approval_decision new id body >> pure tt
serve (feed_back new id body) = create_feedback_for new id body >> pure tt
serve (resolve id body) = resolve_confirmation id body >> pure tt
serve (report_action id body) = update_action id body >> pure tt
serve (beat body) = heartbeat body >> pure tt
serve (delete_node id) = delete id >> pure tt
serve (create_task bridge new body) = Tasks.create bridge new body >> pure tt
serve (write_context id body) = update_context id body >> pure tt
serve (delete_task id) = Tasks.delete id >> pure tt
serve (consume_messages intn s ms) = consume intn s ms >> pure tt
serve (poll intn s) = process_fallback_runs intn s >> pure tt

-- A request as it happens: its time, and which of its statements fail.
pub record Arrival : Type 0 where
  pub request : Request
  pub now : ℕ
  pub fails : ℕ → Bool

-- The tables after one arrival.
unfoldable pub step : Db → Arrival → Db
step db a = (serve a.request (record { db = db; now = a.now; calls = 0; fails = a.fails })).1.db

-- The tables after a sequence of arrivals.
unfoldable pub run : Db → List Arrival → Db
run db [] = db
run db (a ∷ as') = run (step db a) as'
