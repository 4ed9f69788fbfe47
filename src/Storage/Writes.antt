-- ===== src/Storage/Writes.antt =====
-- What `UpdateRunStatus` answers and leaves in the table of runs.
use agents_admin.Prelude.{
  ℕ, ◌+◌, ◌||◌, false, String, Option, none, some, ◌≡◌, refl, inl, inr, Bool-cases,
}
use agents_admin.Model.Run.{RunStatus, is_running, status_is_terminal}
use agents_admin.Model.Task.{TaskStatus}
use agents_admin.Storage.World.{Db, World, M, pure, ◌>>=◌, ◌>>◌, query, exec}
use agents_admin.Storage.Runs.{
  set_run_status, update_run_status, start_task, finish_task, sync_found, sync_task, task_status_of,
  run_task_id,
}

-- An answer of success that leaves the runs.
pub record Keeps {A : Type 0} (answer : A) (w : World) (after : A × World) : Type 0 where
  pub answers : after.0 ≡ answer
  pub same_runs : after.1.db.runs ≡ w.db.runs

-- A statement on other tables, whose error is dropped.
pub exec-Keeps :
    {A : Type 0} (a : A) (f : ℕ → Db → Db) (w : World)
    → ((now : ℕ) (db : Db) → (f now db).runs ≡ db.runs)
    → Keeps a w ((exec f >> pure a) w)
unfolding exec
exec-Keeps a f w same = elim (Bool-cases (w.fails w.calls)) [
  | inl e ↦ rw (◌>>=◌, e) (record { answers = refl; same_runs = refl })
  | inr e ↦ rw (◌>>=◌, e) (record { answers = refl; same_runs = same w.now w.db })
]

write-Keeps :
    (task : String) (o : Option TaskStatus) (w : World)
    → let m : M (Option (Unit {0})) = elim o [
      | some ended ↦ exec (finish_task task ended) >> pure (some tt)
      | none ↦ exec (start_task task) >> pure (some tt)
    ] in
      Keeps (some tt) w (m w)
unfolding start_task finish_task
write-Keeps task none w = exec-Keeps (some tt) (start_task task) w (λ now db. refl)
write-Keeps task (some s) w = exec-Keeps (some tt) (finish_task task s) w (λ now db. refl)

sync_found-Keeps :
    (status : RunStatus) (v : Option (Option String)) (w : World)
    → Keeps (some tt) w (sync_found status v w)
sync_found-Keeps status none w = record { answers = refl; same_runs = refl }
sync_found-Keeps status (some none) w = record { answers = refl; same_runs = refl }
sync_found-Keeps status (some (some task)) w = write-Keeps task (task_status_of status) w

read-Keeps :
    (id : String) (status : RunStatus) (w : World)
    → Keeps (some tt) w ((query (λ now db. run_task_id id db) >>= sync_found status) w)
unfolding query
read-Keeps id status w = elim (Bool-cases (w.fails w.calls)) [
  | inl e ↦ rw (◌>>=◌, e) (record { answers = refl; same_runs = refl })
  | inr e ↦ rw (◌>>=◌, e) (again (run_task_id id w.db))
]
  where
    again :
        (v : Option String)
        → Keeps (some tt) w (sync_found status (some v) (record w { calls = w.calls + 1 }))
    again v =
        let k = sync_found-Keeps status (some v) (record w { calls = w.calls + 1 }) in
        record { answers = k.answers; same_runs = k.same_runs }

sync_task-Keeps :
    (id : String) (status : RunStatus) (w : World) → Keeps (some tt) w (sync_task id status w)
unfolding sync_task
sync_task-Keeps id status w = elim (Bool-cases (is_running status || status_is_terminal status)) [
  | inl e ↦ rw e (read-Keeps id status w)
  | inr e ↦ rw e (record { answers = refl; same_runs = refl })
]

-- `UpdateRunStatus` whose first statement does not fail succeeds and leaves the runs as that
-- statement wrote them, whatever becomes of the rest.
pub update_run_status-Keeps :
    (id : String) (status : RunStatus) (n : Option String) (w : World)
    → w.fails w.calls ≡ false
    → ((update_run_status id status n w).0 ≡ some tt)
      × ((update_run_status id status n w).1.db.runs ≡ (set_run_status id status n w.now w.db).runs)
unfolding update_run_status exec
update_run_status-Keeps id status n w e =
    let k =
      sync_task-Keeps id status
        (record w { db = set_run_status id status n w.now w.db; calls = w.calls + 1 }) in
    rw (◌>>=◌, e) (k.answers, k.same_runs)
