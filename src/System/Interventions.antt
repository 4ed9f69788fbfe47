-- ===== src/System/Interventions.antt =====
-- The handler of interventions refines the life of a run.
use agents_admin.Prelude.{String, Option, none, some, ◌≡◌, refl}
use agents_admin.Model.Run.{RunStatus, queued, running, paused, cancelled, Run}
use agents_admin.Model.Hitl.{InterventionAction, pause, resume, cancel}
use agents_admin.Storage.World.{Db, pure}
use agents_admin.Storage.Leads.{
  Leads, Leads-pure, Leads-option, Leads-strengthen, Leads-bind, Leads-write,
}
use agents_admin.Storage.Runs.{update_run_status}
use agents_admin.Storage.Hitl.{create_intervention, update_intervention_executed}
use agents_admin.Api.Reply.{error, ok}
use agents_admin.Api.Interventions.{
  InterventionRequest, action_of_string, refusal, target_status, new_intervention, mark_executed,
  apply_action, intervene, intervene_on, intervention_found, create_intervention_for,
}
use agents_admin.System.Lifecycle.{Permits, Legal, Reach}
use agents_admin.System.Refine.{
  IsElsewhere, Found, elsewhere-Leads, elsewhere-Found, find_run-Leads,
}
use agents_admin.System.Handlers.{Stays, done-Stays, move-Leads}

-- What the refusals leave is what the life of a run allows.
refusal-Legal :
    (action : InterventionAction) (s t : RunStatus)
    → refusal action s ≡ none
    → target_status action ≡ some t
    → Legal s t
refusal-Legal pause running paused r e = Legal.pause
refusal-Legal resume paused running r e = Legal.resume
refusal-Legal cancel running cancelled r e = Legal.cancel_running
refusal-Legal cancel queued cancelled r e = Legal.cancel_queued
refusal-Legal cancel paused cancelled r e = Legal.cancel_paused
refusal-Legal _ _ _ r e = cc

update_intervention_executed-IsElsewhere :
    (id : String) → IsElsewhere (update_intervention_executed id)
unfolding update_intervention_executed
update_intervention_executed-IsElsewhere id = record {
  same_runs = λ now db. refl;
  same_events = λ now db. refl;
}

create_intervention-IsElsewhere :
    (id run_id : String) (action : InterventionAction) (req : InterventionRequest)
    → IsElsewhere (λ now. create_intervention (new_intervention id run_id action req now) now)
unfolding create_intervention
create_intervention-IsElsewhere id run_id action req = record {
  same_runs = λ now db. refl;
  same_events = λ now db. refl;
}

module _ (allow : Permits) (a : Db) where
  mark_executed-Stays : (id : String) → Stays allow a (mark_executed id)
  unfolding mark_executed
  mark_executed-Stays id =
      Leads-bind _ _
        (elsewhere-Leads allow a (update_intervention_executed id)
          (update_intervention_executed-IsElsewhere id))
        (λ _. done-Stays allow a (ok 201 tt))

  apply_action-Leads :
      (id k : String) (run : Run) (action : InterventionAction)
      → refusal action run.status ≡ none
      → Leads (Found allow a k run) (Reach allow a) (apply_action id k action)
  unfolding apply_action
  apply_action-Leads id k run action r =
      Leads-option (target_status action) (mark_executed id) _
        (Leads-strengthen (mark_executed id) (λ db h. h.reached) (mark_executed-Stays id))
        (λ status e.
          Leads-bind (update_run_status k status none) _
            (move-Leads allow a k run status none (refusal-Legal action run.status status r e))
            (λ written.
              Leads-option written _ _
                (done-Stays allow a (error 500 "failed to update run status"))
                (λ _ _. mark_executed-Stays id)))

  intervene-Leads :
      (id k : String) (run : Run) (action : InterventionAction) (req : InterventionRequest)
      → refusal action run.status ≡ none
      → Leads (Found allow a k run) (Reach allow a) (intervene id k action req)
  unfolding intervene
  intervene-Leads id k run action req r =
      Leads-write {R = Found allow a k run}
        (λ now. create_intervention (new_intervention id k action req now) now)
        (λ stored. elim stored [
          | none ↦ pure (error 500 "failed to create intervention")
          | some _ ↦ apply_action id k action
        ])
        (Leads-pure (error 500 "failed to create intervention") (λ db h. h.reached))
        (λ now db h.
          elsewhere-Found allow a
            (λ now. create_intervention (new_intervention id k action req now) now) k run now db
            (create_intervention-IsElsewhere id k action req) h)
        (apply_action-Leads id k run action r)

  intervene_on-Leads :
      (id k : String) (req : InterventionRequest) (run : Run) (action : Option InterventionAction)
      → Leads (Found allow a k run) (Reach allow a) (intervene_on id k req run action)
  intervene_on-Leads id k req run none = Leads-pure (error 400 "invalid action") (λ db h. h.reached)
  intervene_on-Leads id k req run (some action) = go (refusal action run.status) refl
    where
      go :
          (o : Option String)
          → refusal action run.status ≡ o
          → Leads (Found allow a k run) (Reach allow a) (elim o [
            | some message ↦ pure (error 409 message)
            | none ↦ intervene id k action req
          ])
      go none e = intervene-Leads id k run action req e
      go (some message) e = Leads-pure (error 409 message) (λ db h. h.reached)

  intervention_found-Leads :
      (id k : String) (body : Option InterventionRequest) (run : Run)
      → Leads (Found allow a k run) (Reach allow a) (intervention_found id k body (some (some run)))
  intervention_found-Leads id k none run =
      Leads-pure (error 400 "invalid request body") (λ db h. h.reached)
  intervention_found-Leads id k (some req) run =
      intervene_on-Leads id k req run (action_of_string req.action)

  pub intervene-Stays :
      (id k : String) (body : Option InterventionRequest)
      → Stays allow a (create_intervention_for id k body)
  unfolding create_intervention_for
  intervene-Stays id k body =
      find_run-Leads allow a k (intervention_found id k body)
        (done-Stays allow a (error 500 "failed to get run"))
        (done-Stays allow a (error 404 "run not found")) (intervention_found-Leads id k body)
