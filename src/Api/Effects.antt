-- ===== src/Api/Effects.antt =====
-- What the handlers of runs, interventions and events make of the table of runs, on every branch.
use agents_admin.Prelude.{
  ℕ, ◌+◌, true, false, String, Option, none, some, List, ◌∷◌, map, any, ◌≡◌, refl, ◌∙◌, inl, inr,
  Bool-cases, Option-cases, if◌then◌else◌,
}
use agents_admin.Model.Run.{running, cancelled, Run}
use agents_admin.Model.Task.{TaskStatus, Task}
use agents_admin.Model.Hitl.{InterventionAction}
use agents_admin.Storage.World.{Db, World, pure, ◌>>=◌, ◌>>◌, query, exec}
use agents_admin.Storage.Runs.{find_run, set_run_status, update_run_status, is_pending}
use agents_admin.Storage.Tasks.{find_task, update_task_status}
use agents_admin.Storage.Events.{create_events}
use agents_admin.Storage.Hitl.{create_intervention, update_intervention_executed}
use agents_admin.Storage.Writes.{Keeps, exec-Keeps, update_run_status-Keeps}
use agents_admin.Api.Reply.{Reply, error, ok}
use agents_admin.Api.Runs
use agents_admin.Api.Runs.{
  is_cancellable, cancel_found, maybe_update_task_status, linked_task_status, update_task_of,
}
use agents_admin.Api.Events.{
  EventInput, to_event, post_events, maybe_update_to_running, start_found, start_pending,
  is_assigned, starts,
}
use agents_admin.Api.Interventions.{
  InterventionRequest, action_of_string, refusal, target_status, new_intervention, mark_executed,
  apply_action, intervene, intervene_on, create_intervention_for,
}

task_status-Keeps :
    (task : String) (s : TaskStatus) (w : World)
    → Keeps tt w ((exec (update_task_status task s) >> pure tt) w)
unfolding update_task_status
task_status-Keeps task s w = exec-Keeps tt (update_task_status task s) w (λ now db. refl)

pub update_task_of-Keeps :
    (s : TaskStatus) (v : Option (Option Run)) (w : World)
    → (update_task_of s v w).1.db.runs ≡ w.db.runs
update_task_of-Keeps s none w = refl
update_task_of-Keeps s (some none) w = refl
update_task_of-Keeps s (some (some run)) w = (task_status-Keeps run.task_id s w).same_runs

pub query-runs : {A : Type 0} (f : ℕ → Db → A) (w : World) → (query f w).1.db.runs ≡ w.db.runs
unfolding query
query-runs f w = elim (Bool-cases (w.fails w.calls)) [ inl e ↦ rw e refl | inr e ↦ rw e refl ]

cancelled_task-runs :
    (k : String) (w : World) → (maybe_update_task_status k cancelled w).1.db.runs ≡ w.db.runs
unfolding maybe_update_task_status
cancelled_task-runs k w =
    update_task_of-Keeps TaskStatus.cancelled (query (λ now db. find_run k db) w).0
      (query (λ now db. find_run k db) w).1
    ∙ query-runs (λ now db. find_run k db) w

-- Cancelling a run that is found, when neither that SELECT nor the first UPDATE fails, writes its
-- status if it is queued or running, and leaves the table of runs otherwise.
pub cancel-runs :
    (k : String) (w : World) (run : Run)
    → w.fails w.calls ≡ false
    → w.fails (w.calls + 1) ≡ false
    → find_run k w.db ≡ some run
    → (Runs.cancel k w).1.db.runs ≡ (
        if is_cancellable run.status
        then (set_run_status k cancelled none w.now w.db).runs
        else w.db.runs)
unfolding Runs.cancel query
cancel-runs k w run read write h = elim (Bool-cases (is_cancellable run.status)) [
  | inr c ↦ rw (read, ◌>>=◌, h, c) refl
  | inl c ↦
      rw (read, ◌>>=◌, h, c)
        (cancelled_task-runs k
            (update_run_status k cancelled none (record w { calls = w.calls + 1 })).1
          ∙ (update_run_status-Keeps k cancelled none (record w { calls = w.calls + 1 }) write).1)
]

mark_executed-Keeps : (id : String) (w : World) → Keeps (ok 201 tt) w (mark_executed id w)
unfolding mark_executed update_intervention_executed
mark_executed-Keeps id w =
    exec-Keeps (ok 201 tt) (update_intervention_executed id) w (λ now db. refl)

-- The runs after an action that is allowed.
abbrev pub moved : String → InterventionAction → ℕ → Db → List Run
moved k action now db = elim (target_status action) [
  | none ↦ db.runs
  | some status ↦ (set_run_status k status none now db).runs
]

apply_action-runs :
    (id k : String) (action : InterventionAction) (w : World)
    → w.fails w.calls ≡ false
    → ((apply_action id k action w).0 ≡ ok 201 tt)
      × ((apply_action id k action w).1.db.runs ≡ moved k action w.now w.db)
unfolding apply_action
apply_action-runs id k action w write = elim (Option-cases (target_status action)) [
  | inl e ↦
      rw (apply_action, moved, e)
        ((mark_executed-Keeps id w).answers, (mark_executed-Keeps id w).same_runs)
  | inr (s, e) ↦
      let (answer, runs) = update_run_status-Keeps k s none w write in
      let mark = mark_executed-Keeps id (update_run_status k s none w).1 in
      rw (apply_action, moved, e, ◌>>=◌, answer) (mark.answers, mark.same_runs ∙ runs)
]

-- The answer to an intervention of a known action, when nothing fails that may refuse it.
abbrev pub answer_to : Option String → Reply (Unit {0})
answer_to none = ok 201 tt
answer_to (some message) = error 409 message

abbrev pub runs_after : Option String → String → InterventionAction → ℕ → Db → List Run
runs_after none k action now db = moved k action now db
runs_after (some message) k action now db = db.runs

intervene-runs :
    (id k : String) (action : InterventionAction) (req : InterventionRequest) (w : World)
    → w.fails w.calls ≡ false
    → w.fails (w.calls + 1) ≡ false
    → ((intervene id k action req w).0 ≡ ok 201 tt)
      × ((intervene id k action req w).1.db.runs ≡ moved k action w.now w.db)
unfolding intervene exec create_intervention set_run_status
intervene-runs id k action req w insert write =
    rw (◌>>=◌, insert)
      (apply_action-runs id k action
        (record w {
          db = create_intervention (new_intervention id k action req w.now) w.now w.db;
          calls = w.calls + 1;
        })
        write)

intervene_on-runs :
    (id k : String) (req : InterventionRequest) (run : Run) (action : InterventionAction)
    (w : World)
    → w.fails w.calls ≡ false
    → w.fails (w.calls + 1) ≡ false
    → ((intervene_on id k req run (some action) w).0 ≡ answer_to (refusal action run.status))
      × ((intervene_on id k req run (some action) w).1.db.runs
          ≡ runs_after (refusal action run.status) k action w.now w.db)
intervene_on-runs id k req run action w insert write =
    elim (Option-cases (refusal action run.status)) [
      | inl e ↦ rw (intervene_on, e) (intervene-runs id k action req w insert write)
      | inr (m, e) ↦ rw (intervene_on, e) (refl, refl)
    ]

-- An intervention of a known action on a run that is found, when neither that SELECT nor the INSERT
-- nor the first UPDATE fails: if the status of the run forbids the action, the answer is 409 with the
-- reason and the runs stay as they are; otherwise it is 201 and the run takes the status of the
-- action, if it has one.
pub intervention-runs :
    (id k : String) (req : InterventionRequest) (w : World) (run : Run)
    (action : InterventionAction)
    → w.fails w.calls ≡ false
    → w.fails (w.calls + 1) ≡ false
    → w.fails (w.calls + 1 + 1) ≡ false
    → find_run k w.db ≡ some run
    → action_of_string req.action ≡ some action
    → ((create_intervention_for id k (some req) w).0 ≡ answer_to (refusal action run.status))
      × ((create_intervention_for id k (some req) w).1.db.runs
          ≡ runs_after (refusal action run.status) k action w.now w.db)
unfolding create_intervention_for query
intervention-runs id k req w run action read insert write h known =
    rw (read, ◌>>=◌, h, known)
      (intervene_on-runs id k req run action (record w { calls = w.calls + 1 }) insert write)

start_pending-runs :
    (task : String) (v : Option (Option Task)) (w : World)
    → (start_pending task v w).1.db.runs ≡ w.db.runs
start_pending-runs task none w = refl
start_pending-runs task (some none) w = refl
start_pending-runs task (some (some t)) w = elim (Bool-cases (is_pending t.status)) [
  | inl e ↦ rw e ((task_status-Keeps task TaskStatus.in_progress w).same_runs)
  | inr e ↦ rw e refl
]

start_task-runs :
    (task : String) (w : World)
    → ((query (λ now db. find_task task db) >>= start_pending task) w).1.db.runs ≡ w.db.runs
start_task-runs task w =
    start_pending-runs task (query (λ now db. find_task task db) w).0
      (query (λ now db. find_task task db) w).1
    ∙ query-runs (λ now db. find_task task db) w

start_found-runs :
    (k : String) (run : Run) (w : World)
    → w.fails w.calls ≡ false
    → (start_found k (some (some run)) w).1.db.runs ≡ (
        if is_assigned run.status
        then (set_run_status k running none w.now w.db).runs
        else w.db.runs)
start_found-runs k run w write = elim (Bool-cases (is_assigned run.status)) [
  | inl e ↦
      rw (start_found, ◌>>=◌, ◌>>◌, e)
        (start_task-runs run.task_id (update_run_status k running none w).1
          ∙ (update_run_status-Keeps k running none w write).1)
  | inr e ↦ rw (start_found, ◌>>=◌, ◌>>◌, e) (start_task-runs run.task_id w)
]

-- A batch with a first event or a `run_started` event, for a run that is found, when neither the
-- INSERT nor that SELECT nor the first UPDATE fails, starts the run if it is assigned, and leaves the
-- table of runs otherwise.
pub post_events-runs :
    (k : String) (e : EventInput) (es : List EventInput) (w : World) (run : Run)
    → w.fails w.calls ≡ false
    → w.fails (w.calls + 1) ≡ false
    → w.fails (w.calls + 1 + 1) ≡ false
    → any starts (e ∷ es) ≡ true
    → find_run k w.db ≡ some run
    → (post_events k (some (e ∷ es)) w).1.db.runs ≡ (
        if is_assigned run.status
        then (set_run_status k running none w.now w.db).runs
        else w.db.runs)
unfolding post_events exec query maybe_update_to_running find_run create_events set_run_status
post_events-runs k e es w run insert read write started h =
    rw (◌>>=◌, insert, started, read, h)
      (start_found-runs k run
        (record w {
          db = create_events (map (to_event k) (e ∷ es)) w.now w.db;
          calls = w.calls + 1 + 1;
        })
        write)
