-- ===== src/System/Others.antt =====
-- The handlers that write neither runs nor events: approvals, feedback, confirmations, actions, nodes.
use agents_admin.Prelude.{ℕ, String, str_eq, Option, none, some, refl, Bool-cases, inl, inr}
use agents_admin.Model.Run.{Run}
use agents_admin.Model.Node.{Node}
use agents_admin.Model.Hitl.{ApprovalRequest, Confirmation, is_pending, is_expired}
use agents_admin.Storage.World.{Db, pure, ◌>>=◌, query, exec}
use agents_admin.Storage.Leads.{Leads-if, Leads-option, Leads-query, Leads-bind}
use agents_admin.Storage.Nodes.{upsert_node_heartbeat, deactivate_stale_nodes}
use agents_admin.Storage.Hitl.{
  find_approval, create_decision, update_approval_status, create_feedback,
  update_confirmation_status,
}
use agents_admin.Api.Reply.{error, ok}
use agents_admin.Api.Approvals.{
  DecisionRequest, FeedbackRequest, ResolveRequest, is_decision, new_decision, decided_status,
  decide_pending, decide_found, create_approval_decision, is_feedback_type, new_feedback,
  feedback_found, create_feedback_for, is_open, resolved_status, resolve_found,
  resolve_confirmation,
}
use agents_admin.System.Refine.{IsElsewhere, elsewhere-Leads}
use agents_admin.System.Lifecycle.{Permits}
use agents_admin.System.Handlers.{Stays, done-Stays}

pub upsert_node_heartbeat-IsElsewhere :
    (n : ℕ → Node) → IsElsewhere (λ now. upsert_node_heartbeat (n now) now)
unfolding upsert_node_heartbeat
upsert_node_heartbeat-IsElsewhere n = record {
  same_runs = λ now db. refl;
  same_events = λ now db. refl;
}

pub deactivate_stale_nodes-IsElsewhere :
    (id host : String) → IsElsewhere (deactivate_stale_nodes id host)
unfolding deactivate_stale_nodes
deactivate_stale_nodes-IsElsewhere id host = record {
  same_runs =
      λ now db. elim (Bool-cases (str_eq host "")) [ inl e ↦ rw e refl | inr e ↦ rw e refl ];
  same_events =
      λ now db. elim (Bool-cases (str_eq host "")) [ inl e ↦ rw e refl | inr e ↦ rw e refl ];
}

module _ (allow : Permits) (a : Db) where
  -- One statement on other tables, and an answer that depends on whether it failed.
  pub write-Stays :
      {A : Type 0} (f : ℕ → Db → Db) (g : Option (Unit {0}) → A)
      → IsElsewhere f
      → Stays allow a (exec f >>= λ written. pure (g written))
  write-Stays f g e =
      Leads-bind (exec f) (λ written. pure (g written)) (elsewhere-Leads allow a f e)
        (λ written. done-Stays allow a (g written))

  decide_pending-Stays :
      (id k : String) (req : DecisionRequest) → Stays allow a (decide_pending id k req)
  unfolding decide_pending create_decision update_approval_status
  decide_pending-Stays id k req =
      Leads-bind (exec (λ now. create_decision (new_decision id k req now) now)) _
        (elsewhere-Leads allow a _
          (record { same_runs = λ now db. refl; same_events = λ now db. refl }))
        (λ stored.
          Leads-option stored (pure (error 500 "failed to create decision"))
            (λ _. exec (update_approval_status k (decided_status req.decision)) >>= λ written.
              pure (elim written [
                | none ↦ error 500 "failed to update request status"
                | some _ ↦ ok 200 tt
              ]))
            (done-Stays allow a (error 500 "failed to create decision"))
            (λ _ _.
              write-Stays (update_approval_status k (decided_status req.decision))
                (λ written. elim written [
                  | none ↦ error 500 "failed to update request status"
                  | some _ ↦ ok 200 tt
                ])
                (record { same_runs = λ now db. refl; same_events = λ now db. refl })))

  decide_found-Stays :
      (id k : String) (req : DecisionRequest) (v : Option (Option ApprovalRequest))
      → Stays allow a (decide_found id k req v)
  decide_found-Stays id k req none = record { at = λ w r. r }
  decide_found-Stays id k req (some none) = record { at = λ w r. r }
  decide_found-Stays id k req (some (some x)) = record {
    at = λ w r. elim (Bool-cases (is_pending x.status)) [
      | inr e ↦ rw e r
      | inl e ↦ elim (Bool-cases (is_expired x w.now)) [
        | inl f ↦ rw (e, f) r
        | inr f ↦ rw (e, f) ((decide_pending-Stays id k req).at w r)
      ]
    ];
  }

  pub decide-Stays :
      (id k : String) (body : Option DecisionRequest)
      → Stays allow a (create_approval_decision id k body)
  unfolding create_approval_decision
  decide-Stays id k none = done-Stays allow a (error 400 "invalid request body")
  decide-Stays id k (some req) =
      Leads-if (is_decision req.decision)
        (query (λ now db. find_approval k db) >>= decide_found id k req)
        (pure (error 400 "decision must be 'approve' or 'reject'"))
        (λ _. Leads-bind _ (decide_found id k req) (Leads-query _) (decide_found-Stays id k req))
        (λ _. done-Stays allow a (error 400 "decision must be 'approve' or 'reject'"))

  feedback_found-Stays :
      (id k : String) (body : Option FeedbackRequest) (v : Option (Option Run))
      → Stays allow a (feedback_found id k body v)
  unfolding create_feedback
  feedback_found-Stays id k body none = done-Stays allow a (error 500 "failed to get run")
  feedback_found-Stays id k body (some none) = done-Stays allow a (error 404 "run not found")
  feedback_found-Stays id k none (some (some run)) =
      done-Stays allow a (error 400 "invalid request body")
  feedback_found-Stays id k (some req) (some (some run)) =
      Leads-if (is_feedback_type req.type) _ (pure (error 400 "invalid feedback type"))
        (λ _.
          Leads-if (str_eq req.content "") (pure (error 400 "content is required")) _
            (λ _. done-Stays allow a (error 400 "content is required"))
            (λ _.
              write-Stays (λ now. create_feedback (new_feedback id k req now) now)
                (λ stored. elim stored [
                  | none ↦ error 500 "failed to create feedback"
                  | some _ ↦ ok 201 tt
                ])
                (record { same_runs = λ now db. refl; same_events = λ now db. refl })))
        (λ _. done-Stays allow a (error 400 "invalid feedback type"))

  pub feedback-Stays :
      (id k : String) (body : Option FeedbackRequest)
      → Stays allow a (create_feedback_for id k body)
  unfolding create_feedback_for
  feedback-Stays id k body =
      Leads-bind _ (feedback_found id k body) (Leads-query _) (feedback_found-Stays id k body)

  resolve_found-Stays :
      (id : String) (req : ResolveRequest) (v : Option (Option Confirmation))
      → Stays allow a (resolve_found id req v)
  unfolding update_confirmation_status
  resolve_found-Stays id req none = done-Stays allow a (error 500 "failed to get confirmation")
  resolve_found-Stays id req (some none) = done-Stays allow a (error 404 "confirmation not found")
  resolve_found-Stays id req (some (some c)) =
      Leads-if (is_open c.status) _ (pure (error 409 "confirmation already processed"))
        (λ _.
          write-Stays
            (update_confirmation_status id (resolved_status req.confirmed)
              (some req.selected_option))
            (λ written. elim written [
              | none ↦ error 500 "failed to update confirmation"
              | some _ ↦ ok 200 tt
            ])
            (record { same_runs = λ now db. refl; same_events = λ now db. refl }))
        (λ _. done-Stays allow a (error 409 "confirmation already processed"))

  pub resolve-Stays :
      (id : String) (body : Option ResolveRequest) → Stays allow a (resolve_confirmation id body)
  unfolding resolve_confirmation
  resolve-Stays id none = done-Stays allow a (error 400 "invalid request body")
  resolve-Stays id (some req) =
      Leads-bind _ (resolve_found id req) (Leads-query _) (resolve_found-Stays id req)
