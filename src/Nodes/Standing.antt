-- ===== src/Nodes/Standing.antt =====
-- A heartbeat does not touch the status of the node that it comes from.
use agents_admin.Prelude.{
  ℕ, true, ◌&&◌, not, String, str_eq, none, some, List, [], ◌∷◌, ◌≡◌, refl, ◌∙◌, inl, inr,
  Bool-cases, find?-update, find?-Has,
}
use agents_admin.Model.Node.{NodeStatus, Node}
use agents_admin.Storage.World.{Db, World, M, pure, ◌>>=◌, ◌>>◌, query, exec}
use agents_admin.Storage.Leads.{
  Leads, Leads-pure, Leads-if, Leads-option, Leads-query, Leads-exec, Leads-bind,
}
use agents_admin.Storage.Runs.{list_runs_by_node}
use agents_admin.Storage.Nodes.{
  find_node, upsert_node_heartbeat, deactivate_stale_nodes, is_deactivatable,
}
use agents_admin.Nodes.Heartbeat.{
  HeartbeatRequest, heartbeat_node, compute_cancel_directives, missing_from, directives_for,
  deactivate_others, heartbeat,
}
use agents_admin.Api.Reply.{error, ok}

-- The tables show a node in a status.
pub record Standing (id : String) (status : NodeStatus) (db : Db) : Type 0 where
  pub row : Node
  pub found : find_node id db ≡ some row
  pub in_status : row.status ≡ status

id-find_node : (id : String) (db : Db) (n : Node) → find_node id db ≡ some n → str_eq n.id id ≡ true
unfolding find_node
id-find_node id db n h = (find?-Has (λ x. str_eq x.id id) n db.nodes h).1

module _ (id : String) (status : NodeStatus) where
  upsert-Standing :
      (n : Node) (now : ℕ) (db : Db)
      → n.id ≡ id
      → Standing id status db
      → Standing id status (upsert_node_heartbeat n now db)
  unfolding upsert_node_heartbeat find_node
  upsert-Standing n now db same s = record {
    row = beaten n now s.row;
    found =
        rw (same, s.found)
          (find?-update (λ x. str_eq x.id id) (λ x. str_eq x.id id) (beaten n now) db.nodes
              (λ x. refl)
            ∙ rw (s.found, id-find_node id db s.row s.found) refl);
    in_status = s.in_status;
  }
    where
      beaten : Node → ℕ → Node → Node
      beaten m t x = record x {
        hostname = m.hostname;
        ips = m.ips;
        labels = m.labels;
        capacity = m.capacity;
        last_heartbeat = m.last_heartbeat;
        updated_at = t;
      }

  deactivate-Standing :
      (host : String) (now : ℕ) (db : Db)
      → Standing id status db
      → Standing id status (deactivate_stale_nodes id host now db)
  unfolding deactivate_stale_nodes find_node
  deactivate-Standing host now db s = elim (Bool-cases (str_eq host "")) [
    | inl e ↦ rw e s
    | inr e ↦ rw e (record {
      row = s.row;
      found =
          find?-update (λ x. str_eq x.id id)
            (λ x. not (str_eq x.id id) && str_eq x.hostname host && is_deactivatable x.status)
            (λ x. record x { status = NodeStatus.offline; updated_at = now }) db.nodes (λ x. refl)
          ∙ rw (s.found, id-find_node id db s.row s.found) refl;
      in_status = s.in_status;
    })
  ]

module _ (status : NodeStatus) (req : HeartbeatRequest) where
  abbrev Stands : {A : Type 0} → M A → Type 0
  Stands m = Leads (Standing req.node_id status) (Standing req.node_id status) m

  still : {A : Type 0} (x : A) → Stands (pure x)
  still x = Leads-pure x (λ db s. s)

  directives_for-Stands : (reported : List String) → Stands (directives_for req.node_id reported)
  unfolding compute_cancel_directives
  directives_for-Stands [] = still []
  directives_for-Stands (r ∷ rs) =
      Leads-bind (query (λ now db. list_runs_by_node req.node_id db)) _ (Leads-query _)
        (λ active. still (elim active [ none ↦ [] | some runs ↦ missing_from runs (r ∷ rs) ]))

  deactivate_others-Stands : Stands (deactivate_others req)
  unfolding deactivate_others
  deactivate_others-Stands =
      Leads-if (str_eq req.hostname "") (pure tt) _ (λ _. still tt)
        (λ _.
          Leads-bind (exec (deactivate_stale_nodes req.node_id req.hostname)) (λ _. pure tt)
            (Leads-exec (deactivate_stale_nodes req.node_id req.hostname)
              (deactivate-Standing req.node_id status req.hostname))
            (λ _. still tt))

  heartbeat-Stands : Stands (heartbeat (some req))
  unfolding heartbeat
  heartbeat-Stands =
      Leads-if (str_eq req.node_id "") (pure (error 400 "node_id is required")) _
        (λ _. still (error 400 "node_id is required"))
        (λ _.
          Leads-bind (exec (λ now. upsert_node_heartbeat (heartbeat_node req now) now)) _
            (Leads-exec (λ now. upsert_node_heartbeat (heartbeat_node req now) now)
              (λ now db. upsert-Standing req.node_id status (heartbeat_node req now) now db refl))
            (λ written.
              Leads-option written (pure (error 500 "failed to update node"))
                (λ _.
                  deactivate_others req >> directives_for req.node_id req.running_runs >>= λ cancel.
                  pure (ok 200 cancel))
                (still (error 500 "failed to update node"))
                (λ _ _.
                  Leads-bind (deactivate_others req >> directives_for req.node_id req.running_runs)
                    (λ cancel. pure (ok 200 cancel))
                    (Leads-bind _ _ deactivate_others-Stands
                      (λ _. directives_for-Stands req.running_runs))
                    (λ cancel. still (ok 200 cancel)))))

-- A node that the tables show in a status, an administrative one or another, is shown in the same
-- status after its own heartbeat, whatever status the heartbeat carries and whichever statements fail.
pub heartbeat-Standing :
    (status : NodeStatus) (req : HeartbeatRequest) (w : World)
    → Standing req.node_id status w.db
    → Standing req.node_id status (heartbeat (some req) w).1.db
heartbeat-Standing status req w s = (heartbeat-Stands status req).at w s
