-- ===== src/Storage/View.antt =====
-- What each statement does to the run of one id, which is all that `GetRun` shows of the table.
use agents_admin.Prelude.{
  ℕ, ◌&&◌, String, str_eq, eq_iff, Option, none, some, ◌≡◌, refl, arith, if◌then◌else◌, map?,
  change, find?-update, find?-Has, is_some,
}
use agents_admin.Model.Run.{RunStatus, other, queued, Run}
use agents_admin.Storage.World.{Db}
use agents_admin.Storage.Runs.{
  find_run, create_run, set_run_status, reset_run_to_queued, with_status, is_active,
}

-- Writing a status leaves the id and the task of a run.
pub id-with_status :
    (status : RunStatus) (node : Option String) (now : ℕ) (r : Run)
    → (with_status status node now r).id ≡ r.id
id-with_status (other s) n now r = refl
id-with_status _ n now r = refl

module _ (id : String) (status : RunStatus) (n : Option String) (now : ℕ) (db : Db) where
  pub find_run-set_run_status :
      (k : String)
      → find_run k (set_run_status id status n now db)
        ≡ map? (change (λ r. str_eq r.id id) (with_status status n now)) (find_run k db)
  unfolding find_run set_run_status
  find_run-set_run_status k =
      find?-update (λ r. str_eq r.id k) (λ r. str_eq r.id id) (with_status status n now) db.runs
        (λ r. rw (id-with_status status n now r))

-- The row that a reset writes.
abbrev pub reset_row : ℕ → Run → Run
reset_row now r = record r {
  status = queued;
  node_id = none;
  started_at = none;
  error = none;
  updated_at = now;
}

pub find_run-reset :
    (id : String) (now : ℕ) (db : Db) (k : String)
    → find_run k (reset_run_to_queued id now db)
      ≡ map? (change (λ r. str_eq r.id id && is_active r.status) (reset_row now)) (find_run k db)
unfolding find_run reset_run_to_queued
find_run-reset id now db k =
    find?-update (λ r. str_eq r.id k) (λ r. str_eq r.id id && is_active r.status) (reset_row now)
      db.runs (λ r. refl)

-- A run that is created is found; no run that was there is hidden.
pub find_run-create :
    (run : Run) (now : ℕ) (db : Db) (k : String)
    → find_run k (create_run run now db).1 ≡ (
        if is_some (find_run run.id db)
        then find_run k db
        else if str_eq run.id k
        then some run
        else find_run k db)
unfolding find_run create_run
find_run-create run now db k = ground arith

-- The run that `find_run` returns has the id that was asked for.
pub id-find_run : (k : String) (db : Db) (r : Run) → find_run k db ≡ some r → r.id ≡ k
unfolding find_run
id-find_run k db r h = (eq_iff r.id k).0 (find?-Has (λ x. str_eq x.id k) r db.runs h).1
