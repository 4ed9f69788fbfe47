-- ===== src/System/Keeping.antt =====
-- What the scheduler's own reads keep, and what its requeueing keeps.
use agents_admin.Prelude.{
  ℕ, ltb, false, String, str_eq, Option, none, some, List, [], ◌∷◌, ◌≡◌, refl, arith, length,
  Bool-cases, inl, inr,
}
use agents_admin.Model.Run.{Run}
use agents_admin.Model.Node.{Node}
use agents_admin.Storage.World.{Db, pure, ◌>>=◌, ◌>>◌, query, exec}
use agents_admin.Storage.Leads.{
  Leads, Leads-pure, Leads-if, Leads-query, Leads-for_each, Leads-bind, Leads-read, Leads-write,
}
use agents_admin.Storage.Runs.{reset_run_to_queued, list_running_runs, list_runs_by_node}
use agents_admin.Storage.Events.{count_events_by_run}
use agents_admin.Json.{RawMessage}
use agents_admin.Storage.Tasks.{find_task}
use agents_admin.Storage.Nodes.{find_instance}
use agents_admin.Nodes.Status.{extract_agent_ids}
use agents_admin.Nodes.Manager.{
  refresh_running_count, resolve_preferred_node_id, resolve_instance, is_lost, requeue_uncounted,
  requeue_one, requeue_all, requeue_offline, node_of, agent_of,
}
use agents_admin.Scheduler.Loop.{task_of_run}

-- The requeueing keeps whatever a reset of a run without events keeps.
module _ (P : Db → Type 0)
    (kept : (id : String) (now : ℕ) (db : Db)
      → P db
      → count_events_by_run id db ≡ 0
      → P (reset_run_to_queued id now db)) where
  requeue_uncounted-Leads :
      (run : Run) (v : Option ℕ)
      → Leads (λ db. P db × (some (count_events_by_run run.id db) ≡ v)) P (requeue_uncounted run v)
  unfolding requeue_uncounted
  requeue_uncounted-Leads run none = Leads-pure tt (λ db p. p.0)
  requeue_uncounted-Leads run (some n) =
      Leads-if (ltb 0 n) (pure tt) (exec (reset_run_to_queued run.id) >> pure tt)
        (λ _. Leads-pure tt (λ db p. p.0))
        (λ e.
          Leads-write {R = P} (reset_run_to_queued run.id) (λ _. pure tt)
            (Leads-pure tt (λ db p. p.0))
            (λ now db p. kept run.id now db p.0 (count_zero' db n e p.1))
            (Leads-pure tt (λ db p. p)))
    where
      count_zero' :
          (db : Db) (n : ℕ)
          → ltb 0 n ≡ false
          → some (count_events_by_run run.id db) ≡ some n
          → count_events_by_run run.id db ≡ 0
      count_zero' db n e h = grind arith

  requeue_one-Leads :
      (online : List String) (threshold : ℕ) (run : Run)
      → Leads P P (requeue_one online threshold run)
  unfolding requeue_one
  requeue_one-Leads online threshold run = record {
    at = λ w p. elim (Bool-cases (is_lost online threshold w.now run)) [
      | inl e ↦ rw e (counted.at w p)
      | inr e ↦ rw e p
    ];
  }
    where
      counted :
          Leads P P (query (λ now db. count_events_by_run run.id db) >>= requeue_uncounted run)
      counted =
          Leads-read (λ n db. P db × (some (count_events_by_run run.id db) ≡ some n))
            (λ now db. count_events_by_run run.id db) (requeue_uncounted run)
            (Leads-pure tt (λ db p. p)) (λ now db p. (p, refl))
            (λ n. requeue_uncounted-Leads run (some n))

  requeue_all-Leads :
      (online : List String) (threshold : ℕ) (v : Option (List Run))
      → Leads P P (requeue_all online threshold v)
  requeue_all-Leads online threshold none = Leads-pure tt (λ db p. p)
  requeue_all-Leads online threshold (some runs) =
      Leads-for_each (requeue_one online threshold) runs (requeue_one-Leads online threshold)

  pub requeue_offline-Leads :
      (online : List String) (threshold : ℕ) → Leads P P (requeue_offline online threshold)
  unfolding requeue_offline
  requeue_offline-Leads online threshold =
      Leads-bind (query (λ now db. list_running_runs 200 db)) (requeue_all online threshold)
        (Leads-query _) (requeue_all-Leads online threshold)

-- What only reads keeps everything.
module _ (P : Db → Type 0) where
  pub refresh_running_count-Leads : (nodes : List Node) → Leads P P (refresh_running_count nodes)
  unfolding refresh_running_count
  refresh_running_count-Leads [] = Leads-pure [] (λ db p. p)
  refresh_running_count-Leads (n ∷ ns) =
      Leads-bind (query (λ now db. list_runs_by_node n.id db)) _ (Leads-query _) (λ runs.
        Leads-bind (refresh_running_count ns)
          (λ counts. pure (elim runs [ none ↦ counts | some l ↦ (n.id, length l) ∷ counts ]))
          (refresh_running_count-Leads ns) (λ counts. Leads-pure _ (λ db p. p)))

  pub task_of_run-Leads : (run : Run) → Leads P P (task_of_run run)
  unfolding task_of_run
  task_of_run-Leads run =
      Leads-if (str_eq run.task_id "") (pure none) _ (λ _. Leads-pure none (λ db p. p))
        (λ _.
          Leads-bind (query (λ now db. find_task run.task_id db))
            (λ found. pure (elim found [ none ↦ none | some task ↦ task ])) (Leads-query _)
            (λ found. Leads-pure _ (λ db p. p)))

  resolve_instance-Leads :
      (task_id : String) (snapshot : RawMessage) → Leads P P (resolve_instance task_id snapshot)
  unfolding resolve_instance
  resolve_instance-Leads task_id snapshot =
      Leads-if _ (pure (extract_agent_ids snapshot).0) _ (λ _. Leads-pure _ (λ db p. p))
        (λ _.
          Leads-bind (query (λ now db. find_task task_id db)) (λ task. pure (agent_of task))
            (Leads-query _) (λ task. Leads-pure (agent_of task) (λ db p. p)))

  pub resolve_preferred_node_id-Leads :
      (task_id : String) (snapshot : RawMessage)
      → Leads P P (resolve_preferred_node_id task_id snapshot)
  unfolding resolve_preferred_node_id
  resolve_preferred_node_id-Leads task_id snapshot =
      Leads-bind (resolve_instance task_id snapshot) _ (resolve_instance-Leads task_id snapshot)
        (λ i.
          Leads-if (str_eq i "") (pure "") _ (λ _. Leads-pure "" (λ db p. p))
            (λ _.
              Leads-bind (query (λ now db. find_instance i db)) (λ inst. pure (node_of inst))
                (Leads-query _) (λ inst. Leads-pure (node_of inst) (λ db p. p))))
