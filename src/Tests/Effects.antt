-- ===== src/Tests/Effects.antt =====
-- The theorems on what handlers write: a running, an ended and an assigned run, and a node that is
-- being drained.
use agents_admin.Prelude.{pos, none, some, [], ◌∷◌, ◌≡◌, refl}
use agents_admin.Json.{absent}
use agents_admin.Model.Run.{assigned, running, cancelled}
use agents_admin.Model.Hitl.{pause}
use agents_admin.Storage.World.{World}
use agents_admin.Storage.Runs.{find_run, set_run_status}
use agents_admin.Api.Reply.{error}
use agents_admin.Api.Runs
use agents_admin.Api.Events.{EventInput, post_events}
use agents_admin.Api.Interventions.{InterventionRequest, action_of_string, create_intervention_for}
use agents_admin.Api.Effects.{cancel-runs, intervention-runs, post_events-runs}
use agents_admin.Model.Node.{NodeStatus, Node}
use agents_admin.Storage.Nodes.{find_node}
use agents_admin.Nodes.Heartbeat.{HeartbeatRequest, heartbeat}
use agents_admin.Nodes.Standing.{Standing, heartbeat-Standing}
use agents_admin.Tests.{small_node, run_in, db_of, world_of, ended_run}

abbrev going : World
going = world_of (db_of (run_in "r3" running ∷ []))

cancel-runs_example :
    (Runs.cancel "r3" going).1.db.runs ≡ (set_run_status "r3" cancelled none 100 going.db).runs
unfolding find_run
cancel-runs_example = cancel-runs "r3" going (run_in "r3" running) refl refl refl

abbrev pausing : InterventionRequest
pausing = record { action = "pause"; reason = ""; parameters = absent }

abbrev over : World
over = world_of (db_of (ended_run ∷ []))

intervention-runs_example :
    ((create_intervention_for "i1" "r0" (some pausing) over).0
      ≡ error 409 "can only pause running runs")
    × ((create_intervention_for "i1" "r0" (some pausing) over).1.db.runs ≡ over.db.runs)
unfolding find_run action_of_string
intervention-runs_example =
    intervention-runs "i1" "r0" pausing over ended_run pause refl refl refl refl refl

abbrev first_event : EventInput
first_event = record { seq = pos 1; type = "message"; timestamp = 99; payload = absent; raw = none }

abbrev waiting : World
waiting = world_of (db_of (run_in "r4" assigned ∷ []))

post_events-runs_example :
    (post_events "r4" (some (first_event ∷ [])) waiting).1.db.runs
    ≡ (set_run_status "r4" running none 100 waiting.db).runs
unfolding find_run
post_events-runs_example =
    post_events-runs "r4" first_event [] waiting (run_in "r4" assigned) refl refl refl refl refl

abbrev draining_node : Node
draining_node = record small_node { status = NodeStatus.draining }

abbrev drained : World
drained = world_of (record (db_of []) { nodes = draining_node ∷ [] })

abbrev beating : HeartbeatRequest
beating = record {
  node_id = "n1";
  status = some NodeStatus.online;
  labels = none;
  capacity = none;
  running_runs = [];
  hostname = "n1";
  ips = "";
}

heartbeat-Standing_example :
    Standing "n1" NodeStatus.draining (heartbeat (some beating) drained).1.db
unfolding find_node
heartbeat-Standing_example =
    heartbeat-Standing NodeStatus.draining beating drained
      (record { row = draining_node; found = refl; in_status = refl })
