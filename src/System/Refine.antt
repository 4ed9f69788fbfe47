-- ===== src/System/Refine.antt =====
-- Every handler refines the life of a run: what it does to the tables, whichever of its statements
-- fail, is a sequence of steps of `RunStep`.
use agents_admin.Prelude.{ℕ, String, Option, none, some, ◌≡◌, refl, ◌||◌}
use agents_admin.Model.Run.{RunStatus, Run, is_running, status_is_terminal}
use agents_admin.Model.Task.{TaskStatus}
use agents_admin.Storage.World.{Db, M, pure, ◌>>=◌, ◌>>◌, query, exec}
use agents_admin.Storage.Leads.{
  Leads, Leads-pure, Leads-if, Leads-strengthen, Leads-query, Leads-exec, Leads-bind, Leads-read,
  Leads-write,
}
use agents_admin.Storage.Runs.{
  find_run, set_run_status, update_run_status, start_task, finish_task, sync_found, sync_task,
  task_status_of, run_task_id,
}
use agents_admin.System.Lifecycle.{Permits, elsewhere, Reach, next}

-- A statement that touches neither runs nor events.
pub record IsElsewhere (f : ℕ → Db → Db) : Type 0 where
  pub same_runs : (now : ℕ) (db : Db) → (f now db).runs ≡ db.runs
  pub same_events : (now : ℕ) (db : Db) → (f now db).events ≡ db.events

module _ (allow : Permits) (a : Db) where
  -- Tables that the run steps reach from `a`, in which the id shows the given run.
  pub record Found (id : String) (run : Run) (db : Db) : Type 0 where
    pub reached : Reach allow a db
    pub row : find_run id db ≡ some run

  pub elsewhere-Leads :
      (f : ℕ → Db → Db) → IsElsewhere f → Leads (Reach allow a) (Reach allow a) (exec f)
  elsewhere-Leads f e =
      Leads-exec f (λ now db r. next r (elsewhere (e.same_runs now db) (e.same_events now db)))

  pub elsewhere-Found :
      (f : ℕ → Db → Db) (id : String) (run : Run) (now : ℕ) (db : Db)
      → IsElsewhere f
      → Found id run db
      → Found id run (f now db)
  unfolding find_run
  elsewhere-Found f id run now db e h = record {
    reached = next h.reached (elsewhere (e.same_runs now db) (e.same_events now db));
    row = rw (e.same_runs now db) h.row;
  }

  start_task-IsElsewhere : (task : String) → IsElsewhere (start_task task)
  unfolding start_task
  start_task-IsElsewhere task = record { same_runs = λ now db. refl; same_events = λ now db. refl }

  finish_task-IsElsewhere : (task : String) (s : TaskStatus) → IsElsewhere (finish_task task s)
  unfolding finish_task
  finish_task-IsElsewhere task s = record {
    same_runs = λ now db. refl;
    same_events = λ now db. refl;
  }

  task_write-Leads :
      (task : String) (ended : Option TaskStatus)
      → Leads (Reach allow a) (Reach allow a) (elim ended [
        | some s ↦ exec (finish_task task s) >> pure (some tt)
        | none ↦ exec (start_task task) >> pure (some tt)
      ])
  task_write-Leads task none =
      Leads-bind _ _ (elsewhere-Leads (start_task task) (start_task-IsElsewhere task))
        (λ _. Leads-pure (some tt) (λ db r. r))
  task_write-Leads task (some s) =
      Leads-bind _ _ (elsewhere-Leads (finish_task task s) (finish_task-IsElsewhere task s))
        (λ _. Leads-pure (some tt) (λ db r. r))

  sync_found-Leads :
      (status : RunStatus) (v : Option (Option String))
      → Leads (Reach allow a) (Reach allow a) (sync_found status v)
  sync_found-Leads status none = Leads-pure (some tt) (λ db r. r)
  sync_found-Leads status (some none) = Leads-pure (some tt) (λ db r. r)
  sync_found-Leads status (some (some task)) = task_write-Leads task (task_status_of status)

  sync_task-Leads :
      (id : String) (status : RunStatus)
      → Leads (Reach allow a) (Reach allow a) (sync_task id status)
  unfolding sync_task
  sync_task-Leads id status =
      let read : M (Option (Option String)) = query (λ now db. run_task_id id db) in
      Leads-if (is_running status || status_is_terminal status) (read >>= sync_found status)
        (pure (some tt))
        (λ _. Leads-bind read (sync_found status) (Leads-query _) (sync_found-Leads status))
        (λ _. Leads-pure (some tt) (λ db r. r))

  -- `UpdateRunStatus` makes the one step that its first statement is.
  pub update_run_status-Leads :
      {P : Db → Type 0} (id : String) (status : RunStatus) (n : Option String)
      → ((now : ℕ) (db : Db) → P db → Reach allow a (set_run_status id status n now db))
      → ((db : Db) → P db → Reach allow a db)
      → Leads P (Reach allow a) (update_run_status id status n)
  unfolding update_run_status
  update_run_status-Leads id status n made kept =
      Leads-write (set_run_status id status n)
        (λ written. elim written [ none ↦ pure none | some _ ↦ sync_task id status ])
        (Leads-pure none kept) made (sync_task-Leads id status)

  -- To read a run by its id: the three answers, the last with the row that was found.
  pub find_run-Leads :
      {Q : Db → Type 0} {B : Type 0} (id : String) (g : Option (Option Run) → M B)
      → Leads (Reach allow a) Q (g none)
      → Leads (Reach allow a) Q (g (some none))
      → ((run : Run) → Leads (Found id run) Q (g (some (some run))))
      → Leads (Reach allow a) Q (query (λ now db. find_run id db) >>= g)
  find_run-Leads {Q = Q} id g failed missing found =
      Leads-read (λ v db. Reach allow a db × (find_run id db ≡ v)) (λ now db. find_run id db) g
        failed (λ now db r. (r, refl)) go
    where
      go : (v : Option Run) → Leads (λ db. Reach allow a db × (find_run id db ≡ v)) Q (g (some v))
      go none = Leads-strengthen _ (λ db h. h.0) missing
      go (some run) = Leads-strengthen _ (λ db h. record { reached = h.0; row = h.1 }) (found run)
