-- ===== src/Api/Controls.antt =====
-- What creating a run shows, and what cancelling hides.
use agents_admin.Prelude.{
  ℕ, ◌+◌, ◌<◌, true, false, String, str_eq, none, some, ◌≡◌, refl, ◌∙◌, arith, if◌then◌else◌,
}
use agents_admin.Model.Run.{Run}
use agents_admin.Model.Task.{Task}
use agents_admin.Storage.World.{World, ◌>>=◌, query, exec, call}
use agents_admin.Storage.Runs.{find_run, update_run_status}
use agents_admin.Storage.Tasks.{find_task}
use agents_admin.Storage.View.{find_run-create}
use agents_admin.Api.Reply.{ok}
use agents_admin.Api.Runs
use agents_admin.Api.Runs.{
  new_run, create_for, maybe_update_task_status, is_cancellable, cancel_found,
}

-- A run that is created for a known task, when no statement fails and its id is new, is found under
-- its id as queued, and every other id shows what it showed.
pub create-found :
    (id task_id : String) (w : World) (task : Task)
    → ((n : ℕ) → w.fails n ≡ false)
    → find_task task_id w.db ≡ some task
    → find_run id w.db ≡ none
    → (k : String)
    → find_run k (Runs.create id task_id w).1.db
      ≡ (if str_eq id k then some (new_run id task w.now) else find_run k w.db)
unfolding Runs.create query call
create-found id task_id w task sound h fresh k =
    rw (sound w.calls, ◌>>=◌, h, sound (w.calls + 1))
      (find_run-create (new_run id task w.now) w.now w.db k ∙ rw fresh refl)

-- Cancelling a queued or running run answers 200, and nothing is written, when only the SELECT of the
-- run succeeds.
pub cancel-unwritten :
    (k : String) (w : World) (run : Run)
    → find_run k w.db ≡ some run
    → is_cancellable run.status ≡ true
    → w.fails w.calls ≡ false
    → ((n : ℕ) → w.calls < n → w.fails n ≡ true)
    → ((Runs.cancel k w).0 ≡ ok 200 tt) × ((Runs.cancel k w).1.db ≡ w.db)
unfolding Runs.cancel query update_run_status exec maybe_update_task_status
cancel-unwritten k w run h c read lost =
    rw (read, ◌>>=◌, h, c, lost (w.calls + 1) (omega arith), lost (w.calls + 1 + 1) (omega arith))
      (refl, refl)
