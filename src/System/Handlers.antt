-- ===== src/System/Handlers.antt =====
-- The handlers of runs, events and interventions refine the life of a run.
use agents_admin.Prelude.{true, String, Option, none, some, ◌≡◌, refl}
use agents_admin.Model.Run.{RunStatus, running, cancelled, queued, Run, of_string}
use agents_admin.Model.Task.{TaskStatus, Task}
use agents_admin.Storage.World.{Db, M, pure, ◌>>=◌, ◌>>◌, query, exec}
use agents_admin.Storage.Leads.{
  Leads, Leads-pure, Leads-if, Leads-option, Leads-query, Leads-call, Leads-bind,
}
use agents_admin.Storage.Runs.{find_run, update_run_status}
use agents_admin.Storage.Tasks.{update_task_status}
use agents_admin.Api.Reply.{error, ok}
use agents_admin.Api.Runs
use agents_admin.Api.Runs.{
  create_for, new_run, cancel_found, is_cancellable, update_task_of, linked_task_status,
  maybe_update_task_status, update_status,
}
use agents_admin.System.Lifecycle.{Permits, insert, move, patch, Legal, Reach, next}
use agents_admin.System.Refine.{
  IsElsewhere, Found, elsewhere-Leads, update_run_status-Leads, find_run-Leads,
}

update_task_status-IsElsewhere :
    (id : String) (s : TaskStatus) → IsElsewhere (update_task_status id s)
unfolding update_task_status
update_task_status-IsElsewhere id s = record {
  same_runs = λ now db. refl;
  same_events = λ now db. refl;
}

module _ (allow : Permits) (a : Db) where
  abbrev pub Stays : {A : Type 0} → M A → Type 0
  Stays m = Leads (Reach allow a) (Reach allow a) m

  pub done-Stays : {A : Type 0} (x : A) → Stays (pure x)
  done-Stays x = Leads-pure x (λ db r. r)

  -- A task row that is written, and nothing after it.
  pub task_status-Stays :
      (id : String) (s : TaskStatus) → Stays (exec (update_task_status id s) >> pure tt)
  task_status-Stays id s =
      Leads-bind _ _
        (elsewhere-Leads allow a (update_task_status id s) (update_task_status-IsElsewhere id s))
        (λ _. done-Stays tt)

  update_task_of-Stays : (s : TaskStatus) (v : Option (Option Run)) → Stays (update_task_of s v)
  update_task_of-Stays s none = done-Stays tt
  update_task_of-Stays s (some none) = done-Stays tt
  update_task_of-Stays s (some (some run)) = task_status-Stays run.task_id s

  maybe_update_task_status-Stays :
      (id : String) (s : RunStatus) → Stays (maybe_update_task_status id s)
  unfolding maybe_update_task_status
  maybe_update_task_status-Stays id s =
      Leads-option (linked_task_status s) (pure tt)
        (λ t. query (λ now db. find_run id db) >>= update_task_of t) (done-Stays tt)
        (λ t e. Leads-bind _ (update_task_of t) (Leads-query _) (update_task_of-Stays t))

  create_for-Stays : (id : String) (v : Option (Option Task)) → Stays (create_for id v)
  create_for-Stays id none = done-Stays (error 500 "failed to get task")
  create_for-Stays id (some none) = done-Stays (error 404 "task not found")
  create_for-Stays id (some (some t)) =
      Leads-bind _ _ (Leads-call _ (λ now db r. next r (insert id t now))) (λ stored.
        done-Stays (elim stored [ none ↦ error 500 "failed to create run" | some _ ↦ ok 201 tt ]))

  pub create-Stays : (id task : String) → Stays (Runs.create id task)
  unfolding Runs.create
  create-Stays id task = Leads-bind _ (create_for id) (Leads-query _) (create_for-Stays id)

  cancel-Legal : (s : RunStatus) → is_cancellable s ≡ true → Legal s cancelled
  cancel-Legal queued e = Legal.cancel_queued
  cancel-Legal running e = Legal.cancel_running
  cancel-Legal _ e = cc

  -- A legal move of the run that was found.
  pub move-Leads :
      (id : String) (run : Run) (status : RunStatus) (n : Option String)
      → Legal run.status status
      → Leads (Found allow a id run) (Reach allow a) (update_run_status id status n)
  move-Leads id run status n legal =
      update_run_status-Leads allow a id status n
        (λ now db h. next h.reached (move id run status n now h.row legal)) (λ db h. h.reached)

  pub cancel-Stays : (id : String) → Stays (Runs.cancel id)
  unfolding Runs.cancel
  cancel-Stays id =
      find_run-Leads allow a id (cancel_found id) (done-Stays (error 404 "run not found"))
        (done-Stays (error 404 "run not found"))
        λ run.
          Leads-if (is_cancellable run.status) _ _
            (λ c.
              Leads-bind _ _ (move-Leads id run cancelled none (cancel-Legal run.status c)) (λ _.
                Leads-bind _ _ (maybe_update_task_status-Stays id cancelled)
                  (λ _. done-Stays (ok 200 tt))))
            (λ _. Leads-pure (error 400 "run cannot be cancelled") (λ db h. h.reached))

  pub patch-Stays :
      (id : String) (body : Option (Option String))
      → ((s : String) → body ≡ some (some s) → allow.patches id (of_string s))
      → Stays (update_status id body)
  unfolding update_status
  patch-Stays id none allowed = done-Stays (error 400 "invalid request body")
  patch-Stays id (some none) allowed = done-Stays (error 400 "status is required")
  patch-Stays id (some (some s)) allowed =
      Leads-bind (update_run_status id (of_string s) none) _
        (update_run_status-Leads allow a id (of_string s) none
          (λ now db r. next r (patch id (of_string s) now (allowed s refl))) (λ db r. r))
        (λ written. Leads-option written _ _ (done-Stays (error 500 "failed to update run")) (λ _ _.
          Leads-bind _ _ (maybe_update_task_status-Stays id (of_string s))
            (λ _. done-Stays (ok 200 s))))
