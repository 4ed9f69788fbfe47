-- ===== src/System/Idle.antt =====
-- The requeueing of runs on offline nodes never has a run to requeue.
use agents_admin.Prelude.{
  ℕ, ltb, ◌<◌, Bool, true, false, String, Option, none, some, List, [], ◌∷◌, ◌≡◌, refl, arith, Has,
  Has-filter, Bool-cases, Option-cases, inl, inr, subst,
}
use agents_admin.Model.Run.{Run}
use agents_admin.Storage.World.{Db, pure, ◌>>=◌, ◌>>◌, query, exec, for_each}
use agents_admin.Storage.Leads.{Leads, Leads-pure, Leads-if, Leads-bind, Leads-read}
use agents_admin.Storage.Order.{Has-sort_by, Has-take}
use agents_admin.Storage.Runs.{list_running_runs, reset_run_to_queued, is_active, started_before}
use agents_admin.Storage.Events.{count_events_by_run}
use agents_admin.Nodes.Manager.{
  is_lost, requeue_uncounted, requeue_one, requeue_all, requeue_offline,
}
use agents_admin.System.{Arrival, run}
use agents_admin.System.Serving.{AllRespect}
use agents_admin.System.Keyed.{Keyed}
use agents_admin.System.Begun.{Begun, Ending, was_started, run-Begun}

-- The loop requeues only a run that has a start.
lost-was_started :
    (online : List String) (threshold now : ℕ) (r : Run)
    → is_lost online threshold now r ≡ true
    → was_started r ≡ true
lost-was_started online threshold now r h = elim (Option-cases r.started_at) [
  | inr (t, e) ↦ rw e refl
  | inl e ↦ elim (Option-cases r.node_id) [
    | inl f ↦ elim (no_node f) [ ]
    | inr (n, f) ↦ elim (no_start n e f) [ ]
  ]
]
  where
    no_node : r.node_id ≡ none → ⊥
    no_node f = ground arith

    no_start : (n : String) → r.started_at ≡ none → r.node_id ≡ some n → ⊥
    no_start n e f = ground arith

Has-list_running_runs :
    (limit : ℕ) (db : Db) (r : Run) → Has r (list_running_runs limit db) → Has r db.runs
unfolding list_running_runs
Has-list_running_runs limit db r h =
    (Has-filter (λ x. is_active x.status) r db.runs
      (Has-sort_by started_before r _ (Has-take _ r _ h))).0

module _ (d : Db) (begun : Begun d) (online : List String) (threshold : ℕ) where
  requeue_uncounted-Same :
      (r : Run) (v : Option ℕ)
      → 0 < count_events_by_run r.id d
      → Leads
          (λ db. (db ≡ d) × (some (count_events_by_run r.id db) ≡ v))
          (λ db. db ≡ d)
          (requeue_uncounted r v)
  unfolding requeue_uncounted
  requeue_uncounted-Same r none pos = Leads-pure tt (λ db p. p.0)
  requeue_uncounted-Same r (some n) pos =
      Leads-if (ltb 0 n) (pure tt) (exec (reset_run_to_queued r.id) >> pure tt)
        (λ _. Leads-pure tt (λ db p. p.0))
        (λ e. record { at = λ w p. elim (counted w.db e p.0 p.1) [ ] })
    where
      counted :
          (db : Db) → ltb 0 n ≡ false → db ≡ d → some (count_events_by_run r.id db) ≡ some n → ⊥
      counted db e same c = grind arith

  requeue_one-Same :
      (r : Run)
      → Has r d.runs
      → Leads (λ db. db ≡ d) (λ db. db ≡ d) (requeue_one online threshold r)
  unfolding requeue_one
  requeue_one-Same r m = record {
    at = λ w p. elim (Bool-cases (is_lost online threshold w.now r)) [
      | inl e ↦ rw e ((counted (begun r m (lost-was_started online threshold w.now r e))).at w p)
      | inr e ↦ rw e p
    ];
  }
    where
      counted :
          0 < count_events_by_run r.id d
          → Leads
              (λ db. db ≡ d)
              (λ db. db ≡ d)
              (query (λ now db. count_events_by_run r.id db) >>= requeue_uncounted r)
      counted pos =
          Leads-read (λ n db. (db ≡ d) × (some (count_events_by_run r.id db) ≡ some n))
            (λ now db. count_events_by_run r.id db) (requeue_uncounted r)
            (Leads-pure tt (λ db p. p)) (λ now db p. (p, refl))
            (λ n. requeue_uncounted-Same r (some n) pos)

  requeue_each-Same :
      (rs : List Run)
      → ((r : Run) → Has r rs → Has r d.runs)
      → Leads (λ db. db ≡ d) (λ db. db ≡ d) (for_each (requeue_one online threshold) rs)
  unfolding for_each
  requeue_each-Same [] sub = Leads-pure tt (λ db p. p)
  requeue_each-Same (r ∷ rs) sub =
      Leads-bind (requeue_one online threshold r) (λ _. for_each (requeue_one online threshold) rs)
        (requeue_one-Same r (sub r (inl refl))) (λ _. requeue_each-Same rs (λ x m. sub x (inr m)))

  requeue_all-Same :
      (v : Option (List Run))
      → Leads
          (λ db. (db ≡ d) × (v ≡ some (list_running_runs 200 db)))
          (λ db. db ≡ d)
          (requeue_all online threshold v)
  requeue_all-Same none = Leads-pure tt (λ db p. p.0)
  requeue_all-Same (some rs) = record {
    at = λ w p. (requeue_each-Same rs (listed w.db p.0 p.1)).at w p.0;
  }
    where
      listed :
          (db : Db)
          → db ≡ d
          → some rs ≡ some (list_running_runs 200 db)
          → (r : Run) → Has r rs
          → Has r d.runs
      listed db same e r m = Has-list_running_runs 200 d r (subst (Has r) (injected e same) m)
        where
          injected :
              some rs ≡ some (list_running_runs 200 db) → db ≡ d → rs ≡ list_running_runs 200 d
          injected e' s' = cc

  requeue_offline-Same : Leads (λ db. db ≡ d) (λ db. db ≡ d) (requeue_offline online threshold)
  unfolding requeue_offline
  requeue_offline-Same =
      Leads-read (λ v db. (db ≡ d) × (some v ≡ some (list_running_runs 200 db)))
        (λ now db. list_running_runs 200 db) (requeue_all online threshold)
        (Leads-pure tt (λ db p. p)) (λ now db p. (p, refl)) (λ v. requeue_all-Same (some v))

-- If ids are keys, every started run has an event, and each PATCH with a status writes one that ends
-- a run, then after the arrivals the requeueing of runs on offline nodes changes nothing, whichever
-- nodes are online, for every threshold and time, and whichever statements fail.
pub requeue_offline-idle :
    (db : Db) (xs : List Arrival) (online : List String) (threshold now : ℕ) (fails : ℕ → Bool)
    → Keyed db
    → Begun db
    → AllRespect Ending xs
    → (requeue_offline online threshold
        (record { db = run db xs; now = now; calls = 0; fails = fails })).1.db
      ≡ run db xs
requeue_offline-idle db xs online threshold now fails k h respects =
    (requeue_offline-Same (run db xs) (run-Begun db xs k h respects) online threshold).at
      (record { db = run db xs; now = now; calls = 0; fails = fails }) refl
