-- ===== src/Tests.antt =====
-- The data of the tests: one task, two nodes, a few runs, and the life of a run. The children apply
-- each theorem of the results to it.
mod Lives
mod Choices
mod Handlers
mod Effects
mod Tasking
mod Executing
mod Accounts
use agents_admin.Prelude.{ℕ, pos, Bool, true, false, String, none, some, List, [], ◌∷◌}
use agents_admin.Json.{absent, doc, obj, field, end, num, str}
use agents_admin.Model.Run.{RunStatus, done, Run}
use agents_admin.Model.Task.{TaskStatus, Task}
use agents_admin.Model.Node.{NodeStatus, Node}
use agents_admin.Storage.World.{Db, World}
use agents_admin.Scheduler.Strategy.{ScheduleRequest}
use agents_admin.Scheduler.Chain.{default_config, build_strategy_chain}
use agents_admin.Scheduler.Loop.{Scheduler}
use agents_admin.Api.Runs.{new_run}
use agents_admin.System.{
  Request, Arrival, create_run, report_events, patch_run, delete_task, consume_messages,
}

abbrev pub task_a : Task
task_a = record {
  id = "t1";
  name = "build";
  description = "";
  status = TaskStatus.pending;
  type = "qwen-code";
  prompt = some (record { content = "build it"; template_id = none; description = "" });
  context = none;
  workspace = none;
  security = none;
  labels = some (("gpu", "yes") ∷ []);
  template_id = none;
  agent_id = none;
  parent_id = none;
  created_at = 1;
  updated_at = 1;
}

-- A node with room for `n` runs.
abbrev pub node_of_size : String → ℕ → Node
node_of_size id n = record {
  id = id;
  display_name = id;
  status = NodeStatus.online;
  hostname = id;
  ips = "";
  labels = doc (obj (field "gpu" (str "yes") end));
  capacity = doc (obj (field "max_concurrent" (num (pos n)) end));
  last_heartbeat = some 90;
  created_at = 1;
  updated_at = 1;
}

abbrev pub small_node : Node
small_node = node_of_size "n1" 1

abbrev pub large_node : Node
large_node = node_of_size "n2" 3

-- A run in a status, on the first node.
abbrev pub run_in : String → RunStatus → Run
run_in id status = record (new_run id task_a 5) { status = status; node_id = some "n1" }

abbrev pub db_of : List Run → Db
db_of runs = record {
  tasks = task_a ∷ [];
  runs = runs;
  events = [];
  nodes = small_node ∷ large_node ∷ [];
  agents = [];
  approvals = [];
  decisions = [];
  feedbacks = [];
  interventions = [];
  confirmations = [];
  operations = [];
  actions = [];
  accounts = [];
  stamps = true;
}

abbrev pub never : ℕ → Bool
never n = false

abbrev pub world_of : Db → World
world_of db = record { db = db; now = 100; calls = 0; fails = never }

abbrev pub scheduler : Scheduler
scheduler = record {
  config = default_config;
  chain = build_strategy_chain default_config;
  stale_threshold = 300;
  counts = [];
  node_queue = true;
  sent = [];
}

abbrev pub intn_zero : ℕ → ℕ
intn_zero n = 0

abbrev pub at_time : ℕ → Request → Arrival
at_time t r = record { request = r; now = t; fails = never }

-- A run is created, assigned, reported as started, and done; then a task of no run is deleted.
abbrev pub life : List Arrival
life =
    at_time 91 (create_run "r1" "t1")
    ∷ at_time 92 (consume_messages intn_zero scheduler (record { id = "m1"; run_id = "r1" } ∷ []))
    ∷ at_time 93 (
        report_events "r1" (
          some (
            record {
              seq = pos 1;
              type = "run_started";
              timestamp = 93;
              payload = absent;
              raw = none;
            }
            ∷ [])))
    ∷ at_time 94 (patch_run "r1" (some (some "done")))
    ∷ at_time 95 (delete_task "t9")
    ∷ []

abbrev pub request : ScheduleRequest
request = record {
  run = some (new_run "r1" task_a 5);
  task = some task_a;
  candidate_nodes = small_node ∷ large_node ∷ [];
  node_running = ("n1", 1) ∷ [];
  preferred_node = "";
}

-- A run that has ended, beside the life of another.
abbrev pub ended_run : Run
ended_run = run_in "r0" done
