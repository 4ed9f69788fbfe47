-- ===== src/Scheduler/Assigning.antt =====
-- What the scheduler writes and sends for one run.
use agents_admin.Prelude.{
  ℕ, ◌+◌, true, false, String, some, [], ◌∷◌, ◌++◌, ◌≡◌, refl, ◌⊎◌, inl, inr, Bool-cases,
  Option-cases, if◌then◌else◌,
}
use agents_admin.Model.Run.{Run, assigned, is_queued}
use agents_admin.Model.Node.{Node}
use agents_admin.Storage.World.{World, ◌>>=◌, query, exec}
use agents_admin.Storage.Runs.{find_run, set_run_status, update_run_status, sync_task}
use agents_admin.Nodes.Manager.{increment_running}
use agents_admin.Scheduler.Strategy.{ScheduleRequest}
use agents_admin.Scheduler.Chain.{Chain, select_node}
use agents_admin.Scheduler.Selection.{IsEligible, select_node-IsEligible}
use agents_admin.Scheduler.Loop.{Scheduler, Outcome, told, assign, choose, schedule_run_by_id}

-- A message for a run that is not queued any more changes nothing, sends nothing, and is
-- acknowledged, if the run can be read.
pub schedule_run_by_id-idle :
    (intn : ℕ → ℕ) (s : Scheduler) (id : String) (w : World) (run : Run)
    → w.fails w.calls ≡ false
    → find_run id w.db ≡ some run
    → is_queued run.status ≡ false
    → (schedule_run_by_id intn s id w).1.db ≡ w.db
      × ((schedule_run_by_id intn s id w).0 ≡ (s, true))
unfolding schedule_run_by_id query
schedule_run_by_id-idle intn s id w run sound h q = rw (sound, ◌>>=◌, h, q) (refl, refl)

-- A run is given to a node: the node was a candidate with room, the row is written, and the notice
-- is sent after that, if there is a queue to the nodes.
pub record Given (s : Scheduler) (run : Run) (req : ScheduleRequest) (w : World)
    (after : Outcome × World) : Type 0 where
  pub to : Node
  pub eligible : IsEligible req to
  pub written : after.1.db ≡ set_run_status run.id assigned (some to.id) w.now w.db
  pub sent : after.0.0.sent ≡ (
      if s.node_queue
      then s.sent ++ record { node_id = to.id; run_id = run.id; task_id = run.task_id } ∷ []
      else s.sent)
  pub counted : after.0.0.counts ≡ increment_running s.counts to.id
  pub acknowledged : after.0.1 ≡ true

-- Nothing happened to the tables, the messages or the counts.
pub record Untouched (s : Scheduler) (w : World) (after : Outcome × World) : Type 0 where
  pub same_db : after.1.db ≡ w.db
  pub same_sent : after.0.0.sent ≡ s.sent
  pub same_counts : after.0.0.counts ≡ s.counts

module _ (s : Scheduler) (run : Run) (w : World) (n : Node) where
  assign-fails :
      w.fails w.calls ≡ true → assign s run n w ≡ ((s, false), record w { calls = w.calls + 1 })
  unfolding assign update_run_status exec
  assign-fails e = rw (assign, update_run_status, ◌>>=◌, e) refl

  assign-writes :
      w.fails w.calls ≡ false
      → assign s run n w ≡ (
        (record (told s run n) { counts = increment_running (told s run n).counts n.id }, true),
        record w {
          db = set_run_status run.id assigned (some n.id) w.now w.db;
          calls = w.calls + 1;
        },
      )
  unfolding assign update_run_status exec sync_task
  assign-writes e = rw (assign, update_run_status, ◌>>=◌, e) refl

module _ (s : Scheduler) (run : Run) (req : ScheduleRequest) (w : World) where
  assign-Given :
      (n : Node)
      → IsEligible req n
      → Untouched s w (assign s run n w) ⊎ Given s run req w (assign s run n w)
  assign-Given n eligible = elim (Bool-cases (w.fails w.calls)) [
    | inl e ↦ inl (
        rw (assign-fails s run w n e)
          (record { same_db = refl; same_sent = refl; same_counts = refl }))
    | inr e ↦ inr (
        rw (assign-writes s run w n e) (record {
          to = n;
          eligible = eligible;
          written = refl;
          sent = elim (Bool-cases s.node_queue) [ inl q ↦ rw q refl | inr q ↦ rw q refl ];
          counted = elim (Bool-cases s.node_queue) [ inl q ↦ rw q refl | inr q ↦ rw q refl ];
          acknowledged = refl;
        }))
  ]

-- The choice for a run ends in one of two ways, whichever statements fail: nothing is written, sent
-- or counted; or the run is written as assigned to a candidate with room, its notice is sent if
-- there is a queue to the nodes, and the node counts one run more.
pub choose-Given :
    (intn : ℕ → ℕ) (s : Scheduler) (run : Run) (req : ScheduleRequest) (w : World)
    → Untouched s w (choose intn s run req w) ⊎ Given s run req w (choose intn s run req w)
unfolding choose
choose-Given intn s run req w =
    let chosen = select_node intn s.chain req in
    elim (Option-cases chosen.0.0) [
      | inl e ↦ inl (record {
        same_db = rw (choose, e) refl;
        same_sent = rw (choose, e) refl;
        same_counts = rw (choose, e) refl;
      })
      | inr (n, e) ↦
          rw (choose, e)
            (rechain (
              assign-Given (record s { chain = chosen.1 }) run req w n
                (select_node-IsEligible intn req s.chain n e)))
    ]
  where
    rechain :
        {c : Chain} {r : Outcome × World}
        → Untouched (record s { chain = c }) w r ⊎ Given (record s { chain = c }) run req w r
        → Untouched s w r ⊎ Given s run req w r
    rechain (inl u) =
        inl (record { same_db = u.same_db; same_sent = u.same_sent; same_counts = u.same_counts })
    rechain (inr g) = inr (record {
      to = g.to;
      eligible = g.eligible;
      written = g.written;
      sent = g.sent;
      counted = g.counted;
      acknowledged = g.acknowledged;
    })
