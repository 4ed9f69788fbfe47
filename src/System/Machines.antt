-- ===== src/System/Machines.antt =====
-- The handlers of actions and of nodes write neither runs nor events.
use agents_admin.Prelude.{◌&&◌, String, str_eq, Option, none, some, List, [], ◌∷◌, refl}
use agents_admin.Model.Run.{Run}
use agents_admin.Model.Node.{Node}
use agents_admin.Model.Operation.{OperationStatus, Operation, ActionStatus, Action, is_terminal}
use agents_admin.Storage.World.{Db, pure, ◌>>=◌, ◌>>◌, query, exec}
use agents_admin.Storage.Leads.{Leads-if, Leads-option, Leads-query, Leads-bind}
use agents_admin.Storage.Runs.{list_runs_by_node}
use agents_admin.Storage.Nodes.{upsert_node_heartbeat, deactivate_stale_nodes, delete_node}
use agents_admin.Storage.Actions.{
  Progress, update_action_status, update_operation_status, is_running,
}
use agents_admin.Api.Reply.{error, ok}
use agents_admin.Api.Actions
use agents_admin.Api.Actions.{operation_status_of, follow, update_found, update_action}
use agents_admin.Nodes.Heartbeat.{
  HeartbeatRequest, heartbeat_node, compute_cancel_directives, missing_from, directives_for,
  deactivate_others, heartbeat, delete_if_idle, delete_found, delete,
}
use agents_admin.Api.Successes.{conclude-Leads}
use agents_admin.Json.{RawMessage}
use agents_admin.System.Refine.{elsewhere-Leads}
use agents_admin.System.Handlers.{Stays, done-Stays}
use agents_admin.System.Lifecycle.{Permits, Reach, next, elsewhere}
use agents_admin.System.Others.{
  write-Stays, upsert_node_heartbeat-IsElsewhere, deactivate_stale_nodes-IsElsewhere,
}

module _ (allow : Permits) (a : Db) where
  operation_status-Leads :
      (id : String) (s : OperationStatus) → Stays allow a (exec (update_operation_status id s))
  unfolding update_operation_status
  operation_status-Leads id s =
      elsewhere-Leads allow a (update_operation_status id s)
        (record { same_runs = λ now db. refl; same_events = λ now db. refl })

  operation_status-Stays :
      (id : String) (s : OperationStatus)
      → Stays allow a (exec (update_operation_status id s) >> pure tt)
  operation_status-Stays id s =
      Leads-bind _ _ (operation_status-Leads id s) (λ _. done-Stays allow a tt)

  follow-Stays :
      (x : Action) (op : Operation) (s : ActionStatus) (result : RawMessage)
      → Stays allow a (follow x op s result)
  unfolding follow
  follow-Stays x op s result =
      Leads-if (is_terminal s) _ _
        (λ _.
          Leads-bind (exec (update_operation_status x.operation_id (operation_status_of s))) _
            (operation_status-Leads x.operation_id (operation_status_of s))
            (λ _.
              conclude-Leads (Reach allow a) (λ db accounts r. next r (elsewhere refl refl)) op s
                result))
        (λ _.
          Leads-if (is_running s && Actions.is_pending op.status) _ (pure tt)
            (λ _. operation_status-Stays x.operation_id OperationStatus.in_progress)
            (λ _. done-Stays allow a tt))

  update_found-Stays :
      (id : String) (p : Progress) (v : Option (Option (Action × Operation)))
      → Stays allow a (update_found id p v)
  unfolding update_action_status
  update_found-Stays id p none = done-Stays allow a (error 500 "failed to get action")
  update_found-Stays id p (some none) = done-Stays allow a (error 404 "action not found")
  update_found-Stays id p (some (some (x, op))) =
      Leads-if (is_terminal x.status) (pure (error 409 "action is already in terminal state")) _
        (λ _. done-Stays allow a (error 409 "action is already in terminal state"))
        (λ _.
          Leads-bind (exec (update_action_status id p)) _
            (elsewhere-Leads allow a _
              (record { same_runs = λ now db. refl; same_events = λ now db. refl }))
            (λ written.
              Leads-option written (pure (error 500 "failed to update action")) _
                (done-Stays allow a (error 500 "failed to update action"))
                (λ _ _.
                  Leads-bind _ _ (follow-Stays x op p.status p.result)
                    (λ _. done-Stays allow a (ok 200 tt)))))

  pub action-Stays : (id : String) (body : Option Progress) → Stays allow a (update_action id body)
  unfolding update_action
  action-Stays id none = done-Stays allow a (error 400 "invalid request body")
  action-Stays id (some p) =
      Leads-bind _ (update_found id p) (Leads-query _) (update_found-Stays id p)

  directives_for-Stays :
      (id : String) (reported : List String) → Stays allow a (directives_for id reported)
  unfolding compute_cancel_directives
  directives_for-Stays id [] = done-Stays allow a []
  directives_for-Stays id (r ∷ rs) =
      Leads-bind (query (λ now db. list_runs_by_node id db)) _ (Leads-query _) (λ active.
        done-Stays allow a (elim active [ none ↦ [] | some runs ↦ missing_from runs (r ∷ rs) ]))

  deactivate_others-Stays : (req : HeartbeatRequest) → Stays allow a (deactivate_others req)
  unfolding deactivate_others
  deactivate_others-Stays req =
      Leads-if (str_eq req.hostname "") (pure tt) _ (λ _. done-Stays allow a tt)
        (λ _.
          write-Stays allow a (deactivate_stale_nodes req.node_id req.hostname) (λ _. tt)
            (deactivate_stale_nodes-IsElsewhere req.node_id req.hostname))

  pub heartbeat-Stays : (body : Option HeartbeatRequest) → Stays allow a (heartbeat body)
  unfolding heartbeat
  heartbeat-Stays none = done-Stays allow a (error 400 "invalid request body")
  heartbeat-Stays (some req) =
      Leads-if (str_eq req.node_id "") (pure (error 400 "node_id is required")) _
        (λ _. done-Stays allow a (error 400 "node_id is required"))
        (λ _.
          Leads-bind (exec (λ now. upsert_node_heartbeat (heartbeat_node req now) now)) _
            (elsewhere-Leads allow a _ (upsert_node_heartbeat-IsElsewhere (heartbeat_node req)))
            (λ written.
              Leads-option written (pure (error 500 "failed to update node"))
                (λ _.
                  deactivate_others req >> directives_for req.node_id req.running_runs >>= λ cancel.
                  pure (ok 200 cancel))
                (done-Stays allow a (error 500 "failed to update node"))
                (λ _ _.
                  Leads-bind (deactivate_others req >> directives_for req.node_id req.running_runs)
                    (λ cancel. pure (ok 200 cancel))
                    (Leads-bind _ _ (deactivate_others-Stays req)
                      (λ _. directives_for-Stays req.node_id req.running_runs))
                    (λ cancel. done-Stays allow a (ok 200 cancel)))))

  delete_if_idle-Stays : (id : String) (v : Option (List Run)) → Stays allow a (delete_if_idle id v)
  unfolding delete_node
  delete_if_idle-Stays id none = done-Stays allow a (error 500 "failed to check node runs")
  delete_if_idle-Stays id (some []) =
      write-Stays allow a (delete_node id)
        (λ gone. elim gone [ none ↦ error 500 "failed to delete node" | some _ ↦ ok 204 tt ])
        (record { same_runs = λ now db. refl; same_events = λ now db. refl })
  delete_if_idle-Stays id (some (r ∷ rs)) =
      done-Stays allow a (error 400 "node has running tasks, please drain first")

  delete_found-Stays : (id : String) (v : Option (Option Node)) → Stays allow a (delete_found id v)
  delete_found-Stays id none = done-Stays allow a (error 500 "failed to get node")
  delete_found-Stays id (some none) = done-Stays allow a (error 404 "node not found")
  delete_found-Stays id (some (some n)) =
      Leads-bind _ (delete_if_idle id) (Leads-query _) (delete_if_idle-Stays id)

  pub delete-Stays : (id : String) → Stays allow a (delete id)
  unfolding delete
  delete-Stays id = Leads-bind _ (delete_found id) (Leads-query _) (delete_found-Stays id)
