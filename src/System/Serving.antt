-- ===== src/System/Serving.antt =====
-- The headline: whatever arrives, and whichever statements fail, the tables move by the life of a run.
use agents_admin.Prelude.{String, Option, some, List, [], ◌∷◌, ◌≡◌, subst}
use agents_admin.Model.Run.{of_string}
use agents_admin.Storage.World.{Db, M, pure, ◌>>◌}
use agents_admin.Storage.Leads.{Leads-bind}
use agents_admin.Api.Runs.{create, cancel, update_status}
use agents_admin.Api.Events.{post_events}
use agents_admin.Api.Approvals.{create_approval_decision, create_feedback_for, resolve_confirmation}
use agents_admin.Api.Interventions.{create_intervention_for}
use agents_admin.Api.Actions.{update_action}
use agents_admin.Api.Tasks
use agents_admin.Api.Tasks.{update_context}
use agents_admin.Nodes.Heartbeat.{heartbeat, delete}
use agents_admin.Scheduler.Loop.{process_fallback_runs, consume}
use agents_admin.System.{
  Request, create_run, cancel_run, patch_run, report_events, intervene, decide, feed_back, resolve,
  report_action, beat, delete_node, create_task, write_context, delete_task, consume_messages, poll,
  serve, Arrival, step, run,
}
use agents_admin.System.Lifecycle.{Permits, Reach, here, Reach-trans}
use agents_admin.System.Handlers.{Stays, done-Stays, create-Stays, cancel-Stays, patch-Stays}
use agents_admin.System.Reports.{post_events-Stays}
use agents_admin.System.Interventions.{intervene-Stays}
use agents_admin.System.Others.{decide-Stays, feedback-Stays, resolve-Stays}
use agents_admin.System.Machines.{action-Stays, heartbeat-Stays, delete-Stays}
use agents_admin.System.Planting.{create_task-Stays, write_context-Stays, delete_task-Stays}
use agents_admin.System.Scheduling.{consume-Stays, poll-Stays}

-- A PATCH writes a status that is allowed for its run, and a task that is deleted may be; other
-- requests are free.
abbrev pub Respects : Permits → Request → Type 0
Respects allow (patch_run id (some (some s))) = allow.patches id (of_string s)
Respects allow (delete_task id) = allow.deletes id
Respects allow _ = Unit

abbrev pub AllRespect : Permits → List Arrival → Type 0
AllRespect allow [] = Unit
AllRespect allow (x ∷ xs) = Respects allow x.request × AllRespect allow xs

module _ (allow : Permits) where
  module _ (a : Db) where
    dropped-Stays : {A : Type 0} (m : M A) → Stays allow a m → Stays allow a (m >> pure tt)
    dropped-Stays m k = Leads-bind m (λ _. pure tt) k (λ _. done-Stays allow a tt)

    allowed :
        (id : String) (body : Option (Option String))
        → Respects allow (patch_run id body)
        → (s : String) → body ≡ some (some s)
        → allow.patches id (of_string s)
    allowed id body h s e = subst (λ o. Respects allow (patch_run id o)) e h

    serve-Stays : (r : Request) → Respects allow r → Stays allow a (serve r)
    unfolding serve
    serve-Stays (create_run id task) h =
        dropped-Stays (create id task) (create-Stays allow a id task)
    serve-Stays (cancel_run id) h = dropped-Stays (cancel id) (cancel-Stays allow a id)
    serve-Stays (patch_run id body) h =
        dropped-Stays (update_status id body) (patch-Stays allow a id body (allowed id body h))
    serve-Stays (report_events id body) h =
        dropped-Stays (post_events id body) (post_events-Stays allow a id body)
    serve-Stays (intervene new id body) h =
        dropped-Stays (create_intervention_for new id body) (intervene-Stays allow a new id body)
    serve-Stays (decide new id body) h =
        dropped-Stays (create_approval_decision new id body) (decide-Stays allow a new id body)
    serve-Stays (feed_back new id body) h =
        dropped-Stays (create_feedback_for new id body) (feedback-Stays allow a new id body)
    serve-Stays (resolve id body) h =
        dropped-Stays (resolve_confirmation id body) (resolve-Stays allow a id body)
    serve-Stays (report_action id body) h =
        dropped-Stays (update_action id body) (action-Stays allow a id body)
    serve-Stays (beat body) h = dropped-Stays (heartbeat body) (heartbeat-Stays allow a body)
    serve-Stays (delete_node id) h = dropped-Stays (delete id) (delete-Stays allow a id)
    serve-Stays (create_task bridge new body) h =
        dropped-Stays (Tasks.create bridge new body) (create_task-Stays allow a bridge new body)
    serve-Stays (write_context id body) h =
        dropped-Stays (update_context id body) (write_context-Stays allow a id body)
    serve-Stays (delete_task id) h =
        dropped-Stays (Tasks.delete id) (delete_task-Stays allow a id h)
    serve-Stays (consume_messages intn s ms) h =
        dropped-Stays (consume intn s ms) (consume-Stays allow a intn s ms)
    serve-Stays (poll intn s) h =
        dropped-Stays (process_fallback_runs intn s) (poll-Stays allow a intn s)

  -- One arrival, if it is a PATCH of an allowed status or no PATCH, takes the tables through a
  -- sequence of steps in the life of runs, whichever of its statements fail.
  pub step-Reach : (a : Db) (x : Arrival) → Respects allow x.request → Reach allow a (step a x)
  unfolding step
  step-Reach a x h =
      (serve-Stays a x.request h).at (record { db = a; now = x.now; calls = 0; fails = x.fails })
        here

  -- Any sequence of arrivals in which each PATCH with a status writes one that is allowed for its
  -- run takes the tables through a sequence of steps in the life of runs, whichever statements fail.
  pub run-Reach : (a : Db) (xs : List Arrival) → AllRespect allow xs → Reach allow a (run a xs)
  unfolding run
  run-Reach a [] h = here
  run-Reach a (x ∷ xs) h = Reach-trans (step-Reach a x h.0) (run-Reach (step a x) xs h.1)
