-- ===== src/System/Scheduling.antt =====
-- The scheduler refines the life of a run: it assigns queued runs, and it requeues active runs that
-- have no event.
use agents_admin.Prelude.{
  ℕ, true, false, String, str_eq, Option, none, some, List, [], ◌∷◌, map, ◌≡◌, refl, if◌then◌else◌,
  subst, sym, Bool-cases, inl, inr,
}
use agents_admin.Model.Run.{RunStatus, queued, assigned, Run, is_queued}
use agents_admin.Model.Node.{Node}
use agents_admin.Storage.World.{Db, pure, query}
use agents_admin.Storage.Leads.{
  Leads, Leads-pure, Leads-if, Leads-option, Leads-strengthen, Leads-query, Leads-bind,
}
use agents_admin.Storage.Runs.{
  find_run, reset_run_to_queued, update_run_status, list_stale_queued_runs,
}
use agents_admin.Storage.Events.{count_events_by_run}
use agents_admin.Storage.View.{find_run-reset, id-find_run}
use agents_admin.Nodes.Manager.{
  list_online_nodes, refresh_running_count, resolve_preferred_node_id, requeue_offline,
  increment_running,
}
use agents_admin.Scheduler.Strategy.{ScheduleRequest}
use agents_admin.Scheduler.Chain.{select_node}
use agents_admin.Scheduler.Loop.{
  Scheduler, Message, told, task_of_run, assign, choose, schedule_among, schedule_online,
  schedule_run, schedule_found, schedule_run_by_id, schedule_all, process_fallback_runs, consume,
}
use agents_admin.System.Lifecycle.{Permits, requeue, move, Legal, Reach, next}
use agents_admin.System.Refine.{Found, find_run-Leads, update_run_status-Leads}
use agents_admin.System.Handlers.{Stays, done-Stays}
use agents_admin.System.Keeping.{
  requeue_offline-Leads, refresh_running_count-Leads, task_of_run-Leads,
  resolve_preferred_node_id-Leads,
}

is_queued_lem : (s : RunStatus) → is_queued s ≡ true → s ≡ queued
is_queued_lem queued e = refl
is_queued_lem _ e = cc

-- A reset leaves the row of a queued run.
find_run-reset-queued :
    (id : String) (now : ℕ) (db : Db) (k : String) (run : Run)
    → find_run k db ≡ some run
    → run.status ≡ queued
    → find_run k (reset_run_to_queued id now db) ≡ some run
find_run-reset-queued id now db k run h q =
    rw (find_run-reset id now db k, h, q)
      (elim (Bool-cases (str_eq run.id id)) [ inl e ↦ rw e refl | inr e ↦ rw e refl ])

module _ (allow : Permits) (a : Db) where
  -- Tables that the run steps reach from `a`, in which a run is queued.
  record Queued (run : Run) (db : Db) : Type 0 where
    found : Found allow a run.id run db
    status : run.status ≡ queued

  reset-Queued :
      (run : Run) (id : String) (now : ℕ) (db : Db)
      → Queued run db
      → count_events_by_run id db ≡ 0
      → Queued run (reset_run_to_queued id now db)
  reset-Queued run id now db h z = record {
    found = record {
      reached = next h.found.reached (requeue id now z);
      row = find_run-reset-queued id now db run.id run h.found.row h.status;
    };
    status = h.status;
  }

  queued-Legal : (s : RunStatus) → s ≡ queued → Legal s assigned
  queued-Legal s e = subst (λ t. Legal t assigned) (sym e) Legal.schedule

  assign-Leads :
      (s : Scheduler) (run : Run) (n : Node) → Leads (Queued run) (Reach allow a) (assign s run n)
  unfolding assign
  assign-Leads s run n =
      Leads-bind (update_run_status run.id assigned (some n.id)) _
        (update_run_status-Leads allow a run.id assigned (some n.id)
          (λ now db h. next h.found.reached (
            move run.id run assigned (some n.id) now h.found.row
              (queued-Legal run.status h.status)))
          (λ db h. h.found.reached))
        (λ written. Leads-option written (pure (s, false)) _ (done-Stays allow a (s, false)) (λ _ _.
          done-Stays allow a (
            record (told s run n) { counts = increment_running (told s run n).counts n.id },
            true,
          )))

  choose-Leads :
      (intn : ℕ → ℕ) (s : Scheduler) (run : Run) (req : ScheduleRequest)
      → Leads (Queued run) (Reach allow a) (choose intn s run req)
  unfolding choose
  choose-Leads intn s run req =
      let chosen = select_node intn s.chain req in
      Leads-option chosen.0.0 (pure (record s { chain = chosen.1 }, true))
        (assign (record s { chain = chosen.1 }) run)
        (Leads-pure (record s { chain = chosen.1 }, true) (λ db h. h.found.reached))
        (λ n _. assign-Leads (record s { chain = chosen.1 }) run n)

  schedule_among-Leads :
      (intn : ℕ → ℕ) (s : Scheduler) (run : Run) (nodes : List Node)
      → Leads (Queued run) (Reach allow a) (schedule_among intn s run nodes)
  unfolding schedule_among
  schedule_among-Leads intn s run nodes =
      Leads-bind (requeue_offline (map (λ n. n.id) nodes) s.config.offline_threshold) _
        (requeue_offline-Leads (Queued run) (reset-Queued run) (map (λ n. n.id) nodes)
          s.config.offline_threshold)
        (λ _.
          Leads-bind (refresh_running_count nodes) _
            (refresh_running_count-Leads (Queued run) nodes)
            (λ counts. Leads-bind (task_of_run run) _ (task_of_run-Leads (Queued run) run) (λ task.
              Leads-bind (resolve_preferred_node_id run.task_id run.snapshot) _
                (resolve_preferred_node_id-Leads (Queued run) run.task_id run.snapshot)
                (λ preferred.
                  choose-Leads intn (record s { counts = counts }) run
                    (record {
                      run = some run;
                      task = task;
                      candidate_nodes = nodes;
                      node_running = counts;
                      preferred_node = preferred;
                    })))))

  schedule_online-Leads :
      (intn : ℕ → ℕ) (s : Scheduler) (run : Run) (v : Option (List Node))
      → Leads (Queued run) (Reach allow a) (schedule_online intn s run v)
  schedule_online-Leads intn s run none = Leads-pure (s, false) (λ db h. h.found.reached)
  schedule_online-Leads intn s run (some []) = Leads-pure (s, true) (λ db h. h.found.reached)
  schedule_online-Leads intn s run (some (n ∷ ns)) = schedule_among-Leads intn s run (n ∷ ns)

  schedule_run-Leads :
      (intn : ℕ → ℕ) (s : Scheduler) (run : Run)
      → Leads (Queued run) (Reach allow a) (schedule_run intn s run)
  unfolding schedule_run list_online_nodes
  schedule_run-Leads intn s run =
      Leads-bind _ (schedule_online intn s run) (Leads-query _) (schedule_online-Leads intn s run)

  schedule_found-Leads :
      (intn : ℕ → ℕ) (s : Scheduler) (id : String) (run : Run)
      → Leads (Found allow a id run) (Reach allow a) (schedule_found intn s (some (some run)))
  schedule_found-Leads intn s id run =
      Leads-if (is_queued run.status) (schedule_run intn s run) (pure (s, true))
        (λ e.
          Leads-strengthen (schedule_run intn s run)
            (λ db h. record { found = own db h; status = is_queued_lem run.status e })
            (schedule_run-Leads intn s run))
        (λ _. Leads-pure (s, true) (λ db h. h.reached))
    where
      own : (db : Db) → Found allow a id run db → Found allow a run.id run db
      own db h = record {
        reached = h.reached;
        row = subst (λ k. find_run k db ≡ some run) (sym (id-find_run id db run h.row)) h.row;
      }

  schedule_run_by_id-Stays :
      (intn : ℕ → ℕ) (s : Scheduler) (id : String) → Stays allow a (schedule_run_by_id intn s id)
  unfolding schedule_run_by_id
  schedule_run_by_id-Stays intn s id =
      find_run-Leads allow a id (schedule_found intn s) (done-Stays allow a (s, false))
        (done-Stays allow a (s, true)) (schedule_found-Leads intn s id)

  schedule_all-Stays :
      (intn : ℕ → ℕ) (s : Scheduler) (runs : List Run) → Stays allow a (schedule_all intn s runs)
  unfolding schedule_all
  schedule_all-Stays intn s [] = done-Stays allow a s
  schedule_all-Stays intn s (run ∷ runs) =
      Leads-bind (schedule_run_by_id intn s run.id) (λ r. schedule_all intn r.0 runs)
        (schedule_run_by_id-Stays intn s run.id) (λ r. schedule_all-Stays intn r.0 runs)

  pub poll-Stays : (intn : ℕ → ℕ) (s : Scheduler) → Stays allow a (process_fallback_runs intn s)
  unfolding process_fallback_runs
  poll-Stays intn s =
      Leads-bind (query (λ now db. list_stale_queued_runs s.stale_threshold now db)) _
        (Leads-query _)
        (λ stale.
          Leads-option stale (pure s) (schedule_all intn s) (done-Stays allow a s)
            (λ runs _. schedule_all-Stays intn s runs))

  pub consume-Stays :
      (intn : ℕ → ℕ) (s : Scheduler) (ms : List Message) → Stays allow a (consume intn s ms)
  unfolding consume
  consume-Stays intn s [] = done-Stays allow a (s, [])
  consume-Stays intn s (m ∷ ms) =
      Leads-bind (schedule_run_by_id intn s m.run_id) _ (schedule_run_by_id-Stays intn s m.run_id)
        (λ r.
          Leads-bind (consume intn r.0 ms) _ (consume-Stays intn r.0 ms)
            (λ rest. done-Stays allow a (rest.0, if r.1 then m.id ∷ rest.1 else rest.1)))
