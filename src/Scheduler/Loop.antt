-- ===== src/Scheduler/Loop.antt =====
-- internal/apiserver/scheduler/scheduler.go: the assignment of one run, the fallback polling, and the
-- consumption of queued messages. The queues are outside the model but for what is sent to them.
use agents_admin.Prelude.{
  ℕ, Bool, true, false, String, str_eq, Option, none, some, List, [], ◌∷◌, ◌++◌, map, if◌then◌else◌,
}
use agents_admin.Model.Run.{Run, assigned, is_queued}
use agents_admin.Model.Task.{Task}
use agents_admin.Model.Node.{Node}
use agents_admin.Storage.World.{M, pure, ◌>>=◌, ◌>>◌, query}
use agents_admin.Storage.Runs.{find_run, list_stale_queued_runs, update_run_status}
use agents_admin.Storage.Tasks.{find_task}
use agents_admin.Nodes.Manager.{
  Counts, list_online_nodes, refresh_running_count, increment_running, resolve_preferred_node_id,
  requeue_offline,
}
use agents_admin.Scheduler.Strategy.{ScheduleRequest}
use agents_admin.Scheduler.Chain.{Chain, Config, select_node}

-- A message to a node: the node, the run, the task.
pub record Notice : Type 0 where
  pub node_id : String
  pub run_id : String
  pub task_id : String

-- The scheduler, with its node manager's counts and all it has sent. `node_queue` says whether there
-- is a queue to the nodes.
pub record Scheduler : Type 0 where
  pub config : Config
  pub chain : Chain
  pub stale_threshold : ℕ
  pub counts : Counts
  pub node_queue : Bool
  pub sent : List Notice

-- The scheduler after a call, and whether the call returned no error.
abbrev pub Outcome : Type 0
Outcome = Scheduler × Bool

-- `publishTaskToNode`: an error of the queue is only logged.
abbrev pub publish_task_to_node : Scheduler → Notice → Scheduler
publish_task_to_node s notice =
    if s.node_queue then record s { sent = s.sent ++ notice ∷ [] } else s

-- The task of a run, whose errors are dropped.
unfoldable pub task_of_run : Run → M (Option Task)
task_of_run run =
    if str_eq run.task_id ""
    then pure none
    else query (λ now db. find_task run.task_id db) >>= λ found.
        pure (elim found [ none ↦ none | some task ↦ task ])

-- The scheduler that has told a node of its run.
abbrev pub told : Scheduler → Run → Node → Scheduler
told s run node =
    publish_task_to_node s (record { node_id = node.id; run_id = run.id; task_id = run.task_id })

-- The end of `scheduleRun`: the choice is written to the run, and the node is told.
unfoldable pub assign : Scheduler → Run → Node → M Outcome
assign s run node = do
  written ← update_run_status run.id assigned (some node.id)
  elim written [
    | none ↦ pure (s, false)
    | some _ ↦
        let after = told s run node in
        pure (record after { counts = increment_running after.counts node.id }, true)
  ]

-- The choice of the chain for a request.
unfoldable pub choose : (ℕ → ℕ) → Scheduler → Run → ScheduleRequest → M Outcome
unfolding assign
choose intn s run req =
    let (choice, chain) = select_node intn s.chain req in
    elim choice.0 [
      | none ↦ pure (record s { chain = chain }, true)
      | some node ↦ assign (record s { chain = chain }) run node
    ]

-- The part of `scheduleRun` after the online nodes are known.
unfoldable pub schedule_among : (ℕ → ℕ) → Scheduler → Run → List Node → M Outcome
unfolding choose task_of_run
schedule_among intn s run nodes = do
  requeue_offline (map (λ n. n.id) nodes) s.config.offline_threshold
  counts ← refresh_running_count nodes
  task ← task_of_run run
  preferred ← resolve_preferred_node_id run.task_id run.snapshot
  choose intn (record s { counts = counts }) run
      (record {
        run = some run;
        task = task;
        candidate_nodes = nodes;
        node_running = counts;
        preferred_node = preferred;
      })

abbrev pub schedule_online : (ℕ → ℕ) → Scheduler → Run → Option (List Node) → M Outcome
schedule_online intn s run none = pure (s, false)
schedule_online intn s run (some []) = pure (s, true)
schedule_online intn s run (some (n ∷ ns)) = schedule_among intn s run (n ∷ ns)

-- `scheduleRun`
unfoldable pub schedule_run : (ℕ → ℕ) → Scheduler → Run → M Outcome
schedule_run intn s run = list_online_nodes >>= schedule_online intn s run

abbrev pub schedule_found : (ℕ → ℕ) → Scheduler → Option (Option Run) → M Outcome
schedule_found intn s none = pure (s, false)
schedule_found intn s (some none) = pure (s, true)
schedule_found intn s (some (some run)) =
    if is_queued run.status then schedule_run intn s run else pure (s, true)

-- `scheduleRunByID`
unfoldable pub schedule_run_by_id : (ℕ → ℕ) → Scheduler → String → M Outcome
schedule_run_by_id intn s id = query (λ now db. find_run id db) >>= schedule_found intn s

-- The loop of the fallback polling: an error is logged, and the next run is taken.
unfoldable pub schedule_all : (ℕ → ℕ) → Scheduler → List Run → M Scheduler
schedule_all intn s [] = pure s
schedule_all intn s (run ∷ runs) = do
  r ← schedule_run_by_id intn s run.id
  schedule_all intn r.0 runs

-- `processFallbackRuns`
unfoldable pub process_fallback_runs : (ℕ → ℕ) → Scheduler → M Scheduler
unfolding schedule_all
process_fallback_runs intn s = do
  stale ← query (λ now db. list_stale_queued_runs s.stale_threshold now db)
  elim stale [ none ↦ pure s | some runs ↦ schedule_all intn s runs ]

-- A message of the scheduling queue: its id and its run.
pub record Message : Type 0 where
  pub id : String
  pub run_id : String

-- The loop over the messages of one read in `consumeRedisStream`; a message whose run could not be
-- scheduled is not acknowledged. The acknowledged ids come back.
unfoldable pub consume : (ℕ → ℕ) → Scheduler → List Message → M (Scheduler × List String)
consume intn s [] = pure (s, [])
consume intn s (m ∷ ms) = do
  r ← schedule_run_by_id intn s m.run_id
  rest ← consume intn r.0 ms
  pure (rest.0, if r.1 then m.id ∷ rest.1 else rest.1)
