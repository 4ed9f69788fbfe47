-- ===== src/Tests/Executing.antt =====
-- The theorems on the process of a node, at one run in one container.
use agents_admin.Prelude.{
  ℕ, ◌+◌, ◌≤◌, List, Bool, true, false, str_eq, Option, none, some, [], ◌∷◌, ◌++◌, ◌≡◌, refl, inl,
  inr, if◌then◌else◌, any, map, Has,
}
use agents_admin.Json.{Fields, end, field, str, arr, obj}
use agents_admin.Model.Run.{RunStatus, Run, status_is_terminal}
use agents_admin.Model.Task.{Task}
use agents_admin.Storage.Runs.{find_run}
use agents_admin.Nodes.Manager.{requeue_offline}
use agents_admin.Api.Runs.{new_run}
use agents_admin.Api.Tasks.{new_task}
use agents_admin.System.{patch_run, run}
use agents_admin.Machine.Adapters.{Codec, Result, gives, refuses, Parsed, qwencode}
use agents_admin.Machine.Parsing.{registered}
use agents_admin.Machine.Workspaces.{Disk}
use agents_admin.Machine.Containers.{InstanceView, answered}
use agents_admin.Machine.Execution.{
  Surroundings, Fetched, Plan, plan, status, execute, before_cancel, delivered, fetched,
  report_error,
}
use agents_admin.Machine.Process.{
  Manager, Happening, poll, return_of, directives, check_and_execute_runs, all_started, is_running,
}
use agents_admin.Machine.Rounds.{
  starts_of, returns_of, going_on, all_started-returns, check_and_execute_runs-starts,
}
use agents_admin.Machine.Reporting.{seqs, raws, up_from, execute-seqs}
use agents_admin.Machine.Cancelling.{execute-uncancelled}
use agents_admin.Machine.Lines.{event_types, parse_event-known}
use agents_admin.Machine.Ends.{arrival, delivered-ends}
use agents_admin.Machine.Created.{no_general, execute-general}
use agents_admin.Machine.Nodes.{nodes-idle}
use agents_admin.Tests.{task_a, db_of, never, at_time}
use agents_admin.Tests.Tasking.{bridge, third}

abbrev answer_line : Fields
answer_line = field "type" (str "assistant") end

-- The line "answer" is a document, any other line is not.
abbrev codec : Codec
codec = record {
  trim = λ l. l;
  decode = λ l. if str_eq l "answer" then some answer_line else none;
  itoa = λ n. "";
}

abbrev disk : Disk
disk = record {
  clone = λ id git. refuses "no git";
  stat = λ path. refuses "no disk";
  volume = λ name. none;
  join = λ a b. b;
}

abbrev box : InstanceView
box = record { id = "a1"; container_name = "box"; container = ""; status = "running" }

-- A command that prints two lines and exits well, cancelled after some requests or never.
abbrev around : Option ℕ → Bool → Surroundings
around cancelled well = record {
  node_id = "n1";
  codec = codec;
  adapters = registered codec;
  disk = disk;
  instance = λ id. answered 200 (gives box);
  instances = λ id. answered 200 (gives (box ∷ []));
  ps = gives [];
  copy = λ from to. none;
  start = λ args. none;
  output = λ args. "noise" ∷ "answer" ∷ [];
  exits = λ args. some well;
  cancelled = cancelled;
  lost = λ n. false;
  clock = λ n. n;
}

abbrev task_b : Task
task_b = record task_a { agent_id = some "a1" }

abbrev assigned_run : Run
assigned_run = record (new_run "r1" task_b 5) { status = RunStatus.assigned; node_id = some "n1" }

abbrev job : Fetched
job = fetched assigned_run

-- What is known of the job before its command starts.
abbrev job_plan : Plan
job_plan = record {
  adapter = qwencode codec;
  config = record {
    image = "runners/qwencode:latest";
    command = "qwen" ∷ [];
    args = "-p" ∷ "build it" ∷ "--output-format" ∷ "stream-json" ∷ [];
    env = [];
    working_dir = "/workspace";
  };
  workspace = none;
  container = "box";
}

execute-seqs_example :
    (seqs (execute (around none true) job) ≡ up_from 1 3)
    × (raws (execute (around none true) job) ≡ ("" ∷ "answer" ∷ []) ++ ("" ∷ []))
unfolding plan agents_admin.Json.field_value agents_admin.Api.Runs.exec_snapshot
    agents_admin.Machine.Adapters.registry_get registered agents_admin.Machine.Parsing.claude
    agents_admin.Machine.Parsing.gemini qwencode
    agents_admin.Machine.Workspaces.parse_workspace_config
    agents_admin.Machine.Containers.container_for_instance agents_admin.Machine.Execution.scanned
execute-seqs_example = execute-seqs (around none true) job job_plan refl true refl refl

nodes-idle_example :
    (requeue_offline [] 30 (record {
      db = run (db_of []) (at_time 94 (patch_run "r1" (some (some "done"))) ∷ []);
      now = 500;
      calls = 0;
      fails = never;
    })).1.db
    ≡ run (db_of []) (at_time 94 (patch_run "r1" (some (some "done"))) ∷ [])
unfolding delivered agents_admin.Json.field_value agents_admin.Api.Runs.exec_snapshot
    agents_admin.Machine.Adapters.registry_get registered agents_admin.Machine.Parsing.claude
    agents_admin.Machine.Parsing.gemini qwencode
    agents_admin.Machine.Workspaces.parse_workspace_config
    agents_admin.Machine.Containers.container_for_instance
nodes-idle_example =
    nodes-idle (db_of []) (at_time 94 (patch_run "r1" (some (some "done"))) ∷ []) [] 30 500 never
      (λ r h. elim h [ ]) (λ r h w. elim h [ ])
      ((around none true, job, inr (inr (inr (inl refl)))), tt)

delivered-ends_example :
    (x : Run) × (find_run "r1" (
        run
          (db_of (assigned_run ∷ []))
          (map (arrival 6 (λ q n. false)) (delivered (around none true) job)))
      ≡ some x)
    × (status_is_terminal x.status ≡ true)
unfolding find_run
delivered-ends_example =
    delivered-ends (around none true) job 6 (λ q n. false) (db_of (assigned_run ∷ [])) assigned_run
      refl (λ args. refl) (λ n last. refl) (λ id body. refl) refl

execute-uncancelled_example :
    ¬ Has (status "cancelled") (before_cancel (some 2) (execute (around (some 2) false) job))
execute-uncancelled_example = execute-uncancelled (around (some 2) false) job

parse_event-known_example :
    (any (λ k. str_eq k "message") event_types ≡ true) × (str_eq "message" "run_started" ≡ false)
unfolding registered qwencode agents_admin.Machine.Adapters.qwen_event_type
    agents_admin.Machine.Adapters.qwen_payload agents_admin.Json.field_value
parse_event-known_example =
    parse_event-known codec (qwencode codec) "answer"
      (record { type = "message"; payload = field "type" (str "message") end })
      (inr (inr (inl refl))) refl

execute-general_example :
    execute (around none true) (fetched (new_run "r3" (new_task bridge "t3" third 5) 6))
    ≡ report_error no_general
execute-general_example =
    execute-general (around none true) bridge "t3" "r3" third 5 6 refl refl refl

abbrev idle : Manager
idle = record { running = []; cancelled = [] }

-- Two polls that fetch one run, the first of them twice, with a return between them.
abbrev busy_day : List Happening
busy_day =
    poll (some (job ∷ job ∷ []))
    ∷ directives ("r1" ∷ [])
    ∷ return_of "r1"
    ∷ poll (some (job ∷ []))
    ∷ []

all_started-returns_example :
    starts_of "r1" (all_started busy_day idle) + going_on "r1" idle ≤ returns_of "r1" busy_day + 1
all_started-returns_example = all_started-returns "r1" busy_day idle

check_and_execute_runs-starts_example :
    (Has job (check_and_execute_runs (some (job ∷ [])) idle).1
      → Has job (job ∷ []) × (is_running "r1" idle ≡ false))
    × (Has job (job ∷ [])
        → is_running "r1" (check_and_execute_runs (some (job ∷ [])) idle).0 ≡ true)
check_and_execute_runs-starts_example = check_and_execute_runs-starts (job ∷ []) idle job
