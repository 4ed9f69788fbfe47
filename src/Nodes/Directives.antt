-- ===== src/Nodes/Directives.antt =====
-- Which runs a heartbeat tells a node to cancel, which nodes count as online, and which nodes may be
-- deleted.
use agents_admin.Prelude.{
  ℕ, ◌+◌, Bool, true, false, ◌&&◌, not, any, filter, String, str_eq, eq_iff, Option, none, some,
  List, [], ◌∷◌, ◌≡◌, refl, ap, ◌∙◌, subst, arith, Has, Has-filter, filter-Has, inl, inr, ◌↔◌,
  Bool-cases, Option-cases,
}
use agents_admin.Model.Run.{RunStatus, Run}
use agents_admin.Model.Node.{Node, is_admin_status}
use agents_admin.Storage.World.{Db, World, ◌>>=◌, query}
use agents_admin.Storage.Order.{Has-sort_by, sort_by-Has}
use agents_admin.Storage.Runs.{list_runs_by_node, on_node, is_active}
use agents_admin.Storage.Nodes.{find_node}
use agents_admin.Nodes.Status.{
  is_stale, filter_nodes_by_fresh_heartbeat, heartbeat_fresh_window, is_heartbeat_fresh,
  resolve_node_status,
}
use agents_admin.Nodes.Manager.{online_of}
use agents_admin.Nodes.Heartbeat.{missing_from, compute_cancel_directives, delete_if_idle, delete}

-- A run that the node is to work on: its own, assigned or running.
pub record IsWork (node_id id : String) (db : Db) (r : Run) : Type 0 where
  pub row : Has r db.runs
  pub same_id : r.id ≡ id
  pub here : on_node node_id r ≡ true
  pub active : is_active r.status ≡ true

any-Has :
    {A : Type 0} (p : A → Bool) (a : A) (xs : List A) → Has a xs → p a ≡ true → any p xs ≡ true
any-Has p a [] h t = elim h [ ]
any-Has p a (x ∷ xs) (inl e) t = ground arith
any-Has p a (x ∷ xs) (inr m) t = ground (arith, any-Has p a xs m t)

any-true :
    {A : Type 0} (p : A → Bool) (xs : List A) → any p xs ≡ true → (a : A) × Has a xs × (p a ≡ true)
any-true p [] h = cc
any-true p (x ∷ xs) h = elim (Bool-cases (p x)) [
  | inl e ↦ (x, inl refl, e)
  | inr e ↦ let (a, m, t) = any-true p xs (ground arith) in (a, inr m, t)
]

list_runs_by_node-Has :
    (node_id : String) (db : Db) (r : Run)
    → Has r (list_runs_by_node node_id db)
      ↔ (Has r db.runs × (on_node node_id r ≡ true) × (is_active r.status ≡ true))
unfolding list_runs_by_node
list_runs_by_node-Has node_id db r = (
  λ h. ground (arith, Has-filter p r db.runs (Has-sort_by _ r _ h)),
  λ h. sort_by-Has _ r _ (filter-Has p r db.runs h.0 (ground arith)),
)
  where
    p : Run → Bool
    p x = on_node node_id x && is_active x.status

-- The answer to a heartbeat whose SELECT does not fail orders the node to cancel exactly those of
-- the runs it reports that are not assigned to it or running on it.
pub directives-Has :
    (node_id id : String) (reported : List String) (w : World)
    → w.fails w.calls ≡ false
    → Has id (compute_cancel_directives node_id reported w).0
      ↔ (Has id reported × ¬ ((r : Run) × IsWork node_id id w.db r))
unfolding compute_cancel_directives query missing_from
directives-Has node_id id reported w sound = rw (sound, ◌>>=◌) (to, from)
  where
    p : String → Bool
    p i = not (any (λ r. str_eq r.id i) (list_runs_by_node node_id w.db))

    to : Has id (filter p reported) → Has id reported × ¬ ((r : Run) × IsWork node_id id w.db r)
    to h =
        let (m, missing) = Has-filter p id reported h in
        (
          m,
          λ (r, work).
              let listed =
                (list_runs_by_node-Has node_id w.db r).1 (work.row, work.here, work.active) in
              let found =
                any-Has (λ x. str_eq x.id id) r (list_runs_by_node node_id w.db) listed
                  ((eq_iff r.id id).1 work.same_id) in
              ground arith,
        )

    from : Has id reported × ¬ ((r : Run) × IsWork node_id id w.db r) → Has id (filter p reported)
    from h = elim (Bool-cases (any (λ r. str_eq r.id id) (list_runs_by_node node_id w.db))) [
      | inr e ↦ filter-Has p id reported h.0 (ground arith)
      | inl e ↦
          let (r, m, t) = any-true (λ x. str_eq x.id id) (list_runs_by_node node_id w.db) e in
          let (row, here, active) = (list_runs_by_node-Has node_id w.db r).0 m in
          elim (h.1 (
            r,
            record { row = row; same_id = (eq_iff r.id id).0 t; here = here; active = active },
          )) [ ]
    ]

-- The two tests of the heartbeat say the same.
fresh-stale :
    (t : Option ℕ) (window now : ℕ) → is_heartbeat_fresh t window now ≡ not (is_stale t window now)
unfolding is_heartbeat_fresh
fresh-stale none window now = refl
fresh-stale (some t) window now = ground arith

online-tests :
    (n : Node) (now : ℕ)
    → (resolve_node_status n now).online ≡ (
        not (is_admin_status n.status)
        && not (is_stale n.last_heartbeat heartbeat_fresh_window now))
unfolding resolve_node_status
online-tests n now = elim (Bool-cases (is_admin_status n.status)) [
  | inl e ↦ rw e refl
  | inr e ↦ rw e (fresh-stale n.last_heartbeat heartbeat_fresh_window now)
]

-- The nodes that count as online are the listed ones whose resolved status is online.
pub online_of-Has :
    (n : Node) (nodes : List Node) (now : ℕ)
    → Has n (online_of nodes now) ↔ (Has n nodes × ((resolve_node_status n now).online ≡ true))
unfolding online_of filter_nodes_by_fresh_heartbeat
online_of-Has n nodes now = rw (online-tests n now) (to, from)
  where
    fresh : Node → Bool
    fresh x = not (is_stale x.last_heartbeat heartbeat_fresh_window now)

    free : Node → Bool
    free x = not (is_admin_status x.status)

    to : Has n (filter free (filter fresh nodes)) → Has n nodes × ((free n && fresh n) ≡ true)
    to h =
        let (m, a) = Has-filter free n (filter fresh nodes) h in
        let (m', b) = Has-filter fresh n nodes m in (m', ground arith)

    from : Has n nodes × ((free n && fresh n) ≡ true) → Has n (filter free (filter fresh nodes))
    from h =
        filter-Has free n (filter fresh nodes) (filter-Has fresh n nodes h.0 (ground arith))
          (ground arith)

delete_if_idle-busy :
    (node_id : String) (v : List Run) (r : Run) (w : World)
    → Has r v
    → (delete_if_idle node_id (some v) w).1.db ≡ w.db
delete_if_idle-busy node_id [] r w h = elim h [ ]
delete_if_idle-busy node_id (x ∷ xs) r w h = refl

-- A node that has an assigned or a running run is not deleted by a request to delete it, nor is
-- anything else in the tables changed, whichever statements fail.
pub delete-busy :
    (node_id : String) (r : Run) (w : World)
    → IsWork node_id r.id w.db r
    → (delete node_id w).1.db ≡ w.db
unfolding delete query
delete-busy node_id r w work = elim (Bool-cases (w.fails w.calls)) [
  | inl e ↦ rw (e, ◌>>=◌) refl
  | inr e ↦ elim (Option-cases (find_node node_id w.db)) [
    | inl f ↦ rw (e, ◌>>=◌, f) refl
    | inr (n, f) ↦ elim (Bool-cases (w.fails (w.calls + 1))) [
      | inl g ↦ rw (e, ◌>>=◌, f, g) refl
      | inr g ↦
          rw (e, ◌>>=◌, f, g)
            (delete_if_idle-busy node_id (list_runs_by_node node_id w.db) r
              (record w { calls = w.calls + 1 + 1 })
              ((list_runs_by_node-Has node_id w.db r).1 (work.row, work.here, work.active)))
    ]
  ]
]

-- A paused run that a node reports is among the runs that the node is told to cancel, if its id is a
-- key and the SELECT does not fail.
pub paused-directive :
    (node_id : String) (reported : List String) (w : World) (r : Run)
    → w.fails w.calls ≡ false
    → ((x : Run) → Has x w.db.runs → x.id ≡ r.id → x ≡ r)
    → r.status ≡ RunStatus.paused
    → Has r.id reported
    → Has r.id (compute_cancel_directives node_id reported w).0
paused-directive node_id reported w r sound key p m =
    (directives-Has node_id r.id reported w sound).1
      (m, λ (x, work). idle x (key x work.row work.same_id) work.active)
  where
    idle : (x : Run) → x ≡ r → is_active x.status ≡ true → ⊥
    idle x e active = clash (subst (λ s. is_active s ≡ true) (ap (λ y. y.status) e ∙ p) active)
      where
        clash : false ≡ true → ⊥
        clash q = cc
