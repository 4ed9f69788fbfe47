-- ===== src/System/Reports.antt =====
-- The handlers of events and of interventions refine the life of a run.
use agents_admin.Prelude.{
  ℕ, ◌+◌, ◌<◌, Bool, true, String, str_eq, Option, none, some, List, [], ◌∷◌, ◌++◌, map, ◌≡◌, refl,
  arith, eq_refl, if◌then◌else◌, length, count, any,
}
use agents_admin.Model.Run.{RunStatus, assigned, running, Run}
use agents_admin.Model.Task.{TaskStatus, Task}
use agents_admin.Storage.World.{Db, pure, ◌>>=◌, ◌>>◌, query}
use agents_admin.Storage.Leads.{
  Leads, Leads-pure, Leads-if, Leads-query, Leads-bind, Leads-read, Leads-write,
}
use agents_admin.Storage.Runs.{find_run, update_run_status, is_pending}
use agents_admin.Storage.Tasks.{find_task}
use agents_admin.Storage.Events.{create_events, count_events_by_run}
use agents_admin.Api.Reply.{error, ok}
use agents_admin.Api.Events.{
  EventInput, to_event, post_events, maybe_update_to_running, start_found, start_pending,
  is_assigned, starts,
}
use agents_admin.System.Lifecycle.{Permits, record_events, start, Reach, next}
use agents_admin.System.Refine.{update_run_status-Leads}
use agents_admin.System.Handlers.{Stays, done-Stays, task_status-Stays}

pub count-++ :
    {A : Type 0} (p : A → Bool) (xs ys : List A) → count p (xs ++ ys) ≡ count p xs + count p ys
count-++ p [] ys = omega arith
count-++ p (x ∷ xs) ys = ground (arith, count-++ p xs ys)

-- A batch that is not empty leaves its run with an event.
count-create_events :
    (id : String) (e : EventInput) (es : List EventInput) (now : ℕ) (db : Db)
    → 0 < count_events_by_run id (create_events (map (to_event id) (e ∷ es)) now db)
unfolding count_events_by_run create_events
count-create_events id e es now db =
    rw (count-++ (λ x. str_eq x.run_id id) db.events (map (to_event id) (e ∷ es)), eq_refl id)
      (omega arith)

is_assigned_lem : (s : RunStatus) → is_assigned s ≡ true → s ≡ assigned
is_assigned_lem assigned e = refl
is_assigned_lem _ e = cc

module _ (allow : Permits) (a : Db) where
  -- Tables that the run steps reach from `a`, in which a run has an event.
  record Logged (id : String) (db : Db) : Type 0 where
    reached : Reach allow a db
    events : 0 < count_events_by_run id db

  start_pending-Stays :
      (task : String) (v : Option (Option Task)) → Stays allow a (start_pending task v)
  start_pending-Stays task none = done-Stays allow a tt
  start_pending-Stays task (some none) = done-Stays allow a tt
  start_pending-Stays task (some (some t)) =
      Leads-if (is_pending t.status) _ (pure tt)
        (λ _. task_status-Stays allow a task TaskStatus.in_progress) (λ _. done-Stays allow a tt)

  -- The start of an assigned run that has events.
  start_run-Leads :
      (id : String) (run : Run)
      → Leads
          (λ db. Logged id db × (find_run id db ≡ some run))
          (Reach allow a)
          (if is_assigned run.status then update_run_status id running none >> pure tt else pure tt)
  start_run-Leads id run =
      Leads-if (is_assigned run.status) _ (pure tt)
        (λ e.
          Leads-bind _ _
            (update_run_status-Leads allow a id running none
              (λ now db h.
                next h.0.reached (start id run now h.1 (is_assigned_lem run.status e) h.0.events))
              (λ db h. h.0.reached))
            (λ _. done-Stays allow a tt))
        (λ _. Leads-pure tt (λ db h. h.0.reached))

  start_found-Leads :
      (id : String) (run : Run)
      → Leads
          (λ db. Logged id db × (find_run id db ≡ some run))
          (Reach allow a)
          (start_found id (some (some run)))
  start_found-Leads id run =
      Leads-bind _ (start_pending run.task_id)
        (Leads-bind _ _ (start_run-Leads id run)
          (λ _. Leads-query (λ now db. find_task run.task_id db)))
        (start_pending-Stays run.task_id)

  maybe_update_to_running-Leads :
      (id : String) (es : List EventInput)
      → Leads (Logged id) (Reach allow a) (maybe_update_to_running id es)
  unfolding maybe_update_to_running
  maybe_update_to_running-Leads id es =
      Leads-if (any starts es) (query (λ now db. find_run id db) >>= start_found id) (pure tt)
        (λ _.
          Leads-read (λ v db. Logged id db × (find_run id db ≡ v)) (λ now db. find_run id db)
            (start_found id) (Leads-pure tt (λ db h. h.reached)) (λ now db h. (h, refl)) go)
        (λ _. Leads-pure tt (λ db h. h.reached))
    where
      go :
          (v : Option Run)
          → Leads
              (λ db. Logged id db × (find_run id db ≡ v))
              (Reach allow a)
              (start_found id (some v))
      go none = Leads-pure tt (λ db h. h.0.reached)
      go (some run) = start_found-Leads id run

  pub post_events-Stays :
      (id : String) (body : Option (List EventInput)) → Stays allow a (post_events id body)
  unfolding post_events
  post_events-Stays id none = done-Stays allow a (error 400 "invalid request body")
  post_events-Stays id (some []) = done-Stays allow a (ok 201 0)
  post_events-Stays id (some (e ∷ es)) =
      Leads-write {R = Logged id} (create_events (map (to_event id) (e ∷ es)))
        (λ stored. elim stored [
          | none ↦ pure (error 500 "failed to create events")
          | some _ ↦ maybe_update_to_running id (e ∷ es) >> pure (ok 201 (length (e ∷ es)))
        ])
        (done-Stays allow a (error 500 "failed to create events"))
        (λ now db r. record {
          reached = next r (record_events (map (to_event id) (e ∷ es)) now);
          events = count-create_events id e es now db;
        })
        (Leads-bind _ _ (maybe_update_to_running-Leads id (e ∷ es))
          (λ _. done-Stays allow a (ok 201 (length (e ∷ es)))))
