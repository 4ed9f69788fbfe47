-- ===== src/System/Lifecycle.antt =====
-- The life of a run as a step relation on the tables. `allow` says which statuses a PATCH may write
-- to which run, and which tasks may be deleted with their runs; every other step obeys the guards of
-- its handler.
use agents_admin.Prelude.{ℕ, ◌<◌, String, Option, none, some, List, ◌≡◌}
use agents_admin.Model.Run.{RunStatus, queued, assigned, running, paused, cancelled, Run, Event}
use agents_admin.Model.Task.{Task}
use agents_admin.Storage.World.{Db}
use agents_admin.Storage.Runs.{find_run, create_run, set_run_status, reset_run_to_queued}
use agents_admin.Storage.Tasks.{delete_task}
use agents_admin.Storage.Events.{create_events, count_events_by_run}
use agents_admin.Api.Runs.{new_run}

pub record Permits : Type 1 where
  pub patches : String → RunStatus → Type 0
  pub deletes : String → Type 0

-- The moves that handlers make, other than a PATCH and the requeueing.
pub data Legal : RunStatus → RunStatus → Type 0 where
  schedule : Legal queued assigned
  pause : Legal running paused
  resume : Legal paused running
  cancel_queued : Legal queued cancelled
  cancel_running : Legal running cancelled
  cancel_paused : Legal paused cancelled

pub data RunStep (allow : Permits) (a : Db) : Db → Type 0 where
  -- A statement on other tables.
  elsewhere : {b : Db} → b.runs ≡ a.runs → b.events ≡ a.events → RunStep allow a b
  -- A new queued run.
  insert :
      (id : String) (task : Task) (now : ℕ)
      → RunStep allow a (create_run (new_run id task now) now a).1
  -- Events are logged.
  record_events : (es : List Event) (now : ℕ) → RunStep allow a (create_events es now a)
  -- A move of a run that is found in the state it leaves.
  move :
      (id : String) (run : Run) (status : RunStatus) (node : Option String) (now : ℕ)
      → find_run id a ≡ some run
      → Legal run.status status
      → RunStep allow a (set_run_status id status node now a)
  -- An assigned run with events starts.
  start :
      (id : String) (run : Run) (now : ℕ)
      → find_run id a ≡ some run
      → run.status ≡ assigned
      → 0 < count_events_by_run id a
      → RunStep allow a (set_run_status id running none now a)
  -- An active run without events goes back to the queue.
  requeue :
      (id : String) (now : ℕ)
      → count_events_by_run id a ≡ 0
      → RunStep allow a (reset_run_to_queued id now a)
  -- A PATCH.
  patch :
      (id : String) (status : RunStatus) (now : ℕ)
      → allow.patches id status
      → RunStep allow a (set_run_status id status none now a)
  -- A task is deleted with its runs and their events.
  remove : (task : String) (now : ℕ) → allow.deletes task → RunStep allow a (delete_task task now a)

pub data Reach (allow : Permits) (a : Db) : Db → Type 0 where
  here : Reach allow a a
  next : {b c : Db} → Reach allow a b → RunStep allow b c → Reach allow a c

pub Reach-trans :
    {allow : Permits} {a b c : Db} → Reach allow a b → Reach allow b c → Reach allow a c
Reach-trans r here = r
Reach-trans r (next s t) = next (Reach-trans r s) t
