-- ===== src/Api/Reporting.antt =====
-- What the handler of actions does, and what becomes of the operation.
use agents_admin.Prelude.{
  ℕ, ◌+◌, true, false, String, str_eq, some, List, ◌≡◌, refl, sym, ◌∙◌, subst, find?-update,
  find?-Has,
}
use agents_admin.Model.Account.{Account}
use agents_admin.Model.Operation
use agents_admin.Model.Operation.{OperationStatus, Operation, ActionStatus, Action}
use agents_admin.Storage.World.{Db, World, stamp, ◌>>=◌, query, exec}
use agents_admin.Storage.Actions.{
  Progress, find_operation, find_action, find_action_with_operation, update_action_status,
  update_operation_status, is_running, ends_operation,
}
use agents_admin.Api.Actions.{operation_status_of, conclude, follow, update_action}
use agents_admin.Api.Successes.{conclude-Leads}

join-some :
    (id : String) (db : Db) (a : Action) (o : Operation)
    → find_action id db ≡ some a
    → find_operation a.operation_id db ≡ some o
    → find_action_with_operation id db ≡ some (a, o)
unfolding find_action_with_operation
join-some id db a o h f = rw (find_action_with_operation, h, f) refl

-- What the end of an action means for its operation.
pub data Outcome : ActionStatus → OperationStatus → Type 0 where
  succeeds : Outcome ActionStatus.success OperationStatus.completed
  fails : Outcome ActionStatus.failed OperationStatus.failed
  runs_out : Outcome ActionStatus.timeout OperationStatus.failed
  is_given_up : Outcome ActionStatus.cancelled OperationStatus.failed

-- The row of an action that ended with a report at some time.
abbrev pub ended_action : Progress → ℕ → Action → Action
ended_action p now a = record a {
  status = p.status;
  phase = p.phase;
  message = p.message;
  progress = p.progress;
  result = p.result;
  error = p.error;
  finished_at = some now;
}

-- The row of an operation that ended with a status at some time.
abbrev pub ended_operation : OperationStatus → Db → ℕ → Operation → Operation
ended_operation s db now o = record o {
  status = s;
  finished_at = some now;
  updated_at = stamp db now o.updated_at;
}

outcome_of : (s : ActionStatus) → Operation.is_terminal s ≡ true → Outcome s (operation_status_of s)
outcome_of ActionStatus.success h = succeeds
outcome_of ActionStatus.failed h = fails
outcome_of ActionStatus.timeout h = runs_out
outcome_of ActionStatus.cancelled h = is_given_up
outcome_of ActionStatus.assigned h = cc
outcome_of ActionStatus.running h = cc
outcome_of ActionStatus.waiting h = cc
outcome_of (ActionStatus.other t) h = cc

ending_operation : {s : ActionStatus} {t : OperationStatus} → Outcome s t → ends_operation t ≡ true
ending_operation succeeds = refl
ending_operation fails = refl
ending_operation runs_out = refl
ending_operation is_given_up = refl

ending_action : {s : ActionStatus} {t : OperationStatus} → Outcome s t → is_running s ≡ false
ending_action succeeds = refl
ending_action fails = refl
ending_action runs_out = refl
ending_action is_given_up = refl

module _ (id : String) (p : Progress) (now : ℕ) (db : Db) where
  find_action-update_action_status :
      (a : Action)
      → find_action id db ≡ some a
      → is_running p.status ≡ false
      → Operation.is_terminal p.status ≡ true
      → find_action id (update_action_status id p now db) ≡ some (ended_action p now a)
  unfolding find_action update_action_status
  find_action-update_action_status a h still ends =
      find?-update (λ x. str_eq x.id id) (λ x. str_eq x.id id) _ db.actions (λ x. refl)
      ∙ rw (h, (find?-Has (λ x. str_eq x.id id) a db.actions h).1, still, ends) refl

find_operation-update_operation_status :
    (id : String) (s : OperationStatus) (now : ℕ) (db : Db) (o : Operation)
    → find_operation id db ≡ some o
    → ends_operation s ≡ true
    → find_operation id (update_operation_status id s now db) ≡ some (ended_operation s db now o)
unfolding find_operation update_operation_status
find_operation-update_operation_status id s now db o h ends =
    find?-update (λ x. str_eq x.id id) (λ x. str_eq x.id id) _ db.operations (λ x. refl)
    ∙ rw (h, (find?-Has (λ x. str_eq x.id id) o db.operations h).1, ends) refl

module _ (id : String) (p : Progress) (w : World) (a : Action) (o : Operation) where
  -- The world once the action and its operation are written.
  abbrev both_written : World
  both_written = record w {
    db =
        update_operation_status a.operation_id (operation_status_of p.status) w.now
          (update_action_status id p w.now w.db);
    calls = w.calls + 1 + 1 + 1;
  }

  -- The two rows as they are at the end.
  abbrev Ended : Db → Type 0
  Ended db =
      (find_action id db ≡ some (ended_action p w.now a))
      × (find_operation a.operation_id db
          ≡ some (ended_operation (operation_status_of p.status) w.db w.now o))

  Ended-kept :
      (db : Db) (accounts : List Account) → Ended db → Ended (record db { accounts = accounts })
  unfolding find_action find_operation
  Ended-kept db accounts h = h

  module _ (read : w.fails w.calls ≡ false) (first : w.fails (w.calls + 1) ≡ false)
      (second : w.fails (w.calls + 1 + 1) ≡ false) (h : find_action id w.db ≡ some a)
      (f : find_operation a.operation_id w.db ≡ some o)
      (open_still : Operation.is_terminal a.status ≡ false)
      (ends : Operation.is_terminal p.status ≡ true) where
    update_action-conclude :
        (update_action id (some p) w).1.db ≡ (conclude o p.status p.result both_written).1.db
    unfolding update_action query exec follow
    update_action-conclude =
        rw (read, ◌>>=◌, join-some id w.db a o h f, open_still, first, ends, second) refl

    both_written-Ended : Ended both_written.db
    unfolding find_operation find_action update_action_status update_operation_status
    both_written-Ended =
        let out = outcome_of p.status ends in
        (
          find_action-update_action_status id p w.now w.db a h (ending_action out) ends,
          find_operation-update_operation_status a.operation_id (operation_status_of p.status) w.now
              w.db o f (ending_operation out),
        )

  -- A report that ends an action which had not ended and whose operation is there, when its first
  -- three statements do not fail: the action takes what is reported with the time, and its operation
  -- ends at that time, as completed if the action succeeded and as failed in the three other cases,
  -- whatever else the success leaves and whichever of those statements fail.
  pub update_action-ends :
      w.fails w.calls ≡ false
      → w.fails (w.calls + 1) ≡ false
      → w.fails (w.calls + 1 + 1) ≡ false
      → find_action id w.db ≡ some a
      → find_operation a.operation_id w.db ≡ some o
      → Operation.is_terminal a.status ≡ false
      → Operation.is_terminal p.status ≡ true
      → (s : OperationStatus) × Outcome p.status s
        × (find_action id (update_action id (some p) w).1.db ≡ some (ended_action p w.now a))
        × (find_operation a.operation_id (update_action id (some p) w).1.db
            ≡ some (ended_operation s w.db w.now o))
  update_action-ends read first second h f open_still ends =
      let (acted, operated) =
        subst Ended (sym (update_action-conclude read first second h f open_still ends)) (
          (conclude-Leads Ended Ended-kept o p.status p.result).at both_written
            (both_written-Ended read first second h f open_still ends)) in
      (operation_status_of p.status, outcome_of p.status ends, acted, operated)
