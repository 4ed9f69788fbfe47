-- ===== src/Machine/Ends.antt =====
-- An execution that is not cancelled ends its run.
use agents_admin.Prelude.{
  ℕ, suc, ◌+◌, sym, length, Bool, true, false, String, concat, str_eq, eq_refl, Option, none, some,
  is_some, arith, find?, List, [], ◌∷◌, ◌++◌, map, ◌≡◌, refl, ap, ◌∙◌, inl, inr, change, map?,
  Bool-cases, Option-cases,
}
use agents_admin.Model.Run.{RunStatus, running, Run, of_string, status_is_terminal}
use agents_admin.Storage.World.{Db, World, ◌>>=◌, query}
use agents_admin.Storage.Runs.{find_run, create_run, set_run_status, update_run_status, with_status}
use agents_admin.Storage.Events.{create_events}
use agents_admin.Storage.View.{
  find_run-set_run_status, find_run-reset, find_run-create, id-find_run,
}
use agents_admin.Storage.Writes.{update_run_status-Keeps}
use agents_admin.Api.Runs.{new_run, update_status, maybe_update_task_status, linked_task_status}
use agents_admin.Api.Effects.{update_task_of-Keeps, query-runs}
use agents_admin.System.{Request, patch_run, Arrival, serve, step, run}
use agents_admin.System.Lifecycle.{
  Permits, RunStep, elsewhere, insert, record_events, move, start, requeue, patch, remove, Reach,
  here, next,
}
use agents_admin.System.Serving.{AllRespect, run-Reach}
use agents_admin.Machine.Adapters.{Result, gives, refuses}
use agents_admin.Machine.Execution.{
  Surroundings, Fetched, Plan, plan, Report, event, status, report_error, stream_output, attend,
  start_payload, closing, docker_args, started, execute, before_cancel, request_of, delivered,
  arriving,
}
use agents_admin.Machine.Statuses.{final_status-ends}

-- Every status may be written, and no task is deleted.
abbrev Kept : Permits
Kept = record { patches = λ id s. Unit; deletes = λ task. ⊥ }

is_some-map? : {A : Type 0} (f : A → A) (o : Option A) → is_some (map? f o) ≡ is_some o
is_some-map? f none = refl
is_some-map? f (some a) = refl

insert-present :
    (k : String) (x : Run) (now : ℕ) (b : Db)
    → is_some (find_run k b) ≡ true
    → is_some (find_run k (create_run x now b).1) ≡ true
insert-present k x now b h =
    rw (find_run-create x now b k) (elim (Bool-cases (is_some (find_run x.id b))) [
      | inl e ↦ rw e h
      | inr e ↦ elim (Bool-cases (str_eq x.id k)) [ inl g ↦ rw (e, g) refl | inr g ↦ rw (e, g) h ]
    ])

-- A run stays in the table where no task is deleted.
step-present :
    (k : String) {b c : Db}
    → RunStep Kept b c
    → is_some (find_run k b) ≡ true
    → is_some (find_run k c) ≡ true
unfolding find_run create_events
step-present k (elsewhere runs _) h = rw runs h
step-present k {b = b} (insert id task now) h = insert-present k (new_run id task now) now b h
step-present k (record_events es now) h = h
step-present k {b = b} (move id x s n now _ _) h =
    ap is_some (find_run-set_run_status id s n now b k) ∙ is_some-map? _ (find_run k b) ∙ h
step-present k {b = b} (start id x now _ _ _) h =
    ap is_some (find_run-set_run_status id running none now b k) ∙ is_some-map? _ (find_run k b) ∙ h
step-present k {b = b} (requeue id now _) h =
    ap is_some (find_run-reset id now b k) ∙ is_some-map? _ (find_run k b) ∙ h
step-present k {b = b} (patch id s now _) h =
    ap is_some (find_run-set_run_status id s none now b k) ∙ is_some-map? _ (find_run k b) ∙ h
step-present k (remove task now never) h = elim never [ ]

Reach-present :
    (k : String) {b c : Db}
    → Reach Kept b c
    → is_some (find_run k b) ≡ true
    → is_some (find_run k c) ≡ true
Reach-present k here h = h
Reach-present k (next p s) h = step-present k s (Reach-present k p h)

linked-runs :
    (id : String) (s : RunStatus) (w : World)
    → (maybe_update_task_status id s w).1.db.runs ≡ w.db.runs
unfolding maybe_update_task_status
linked-runs id s w = elim (Option-cases (linked_task_status s)) [
  | inl e ↦ rw (maybe_update_task_status, e) refl
  | inr (t, e) ↦
      rw (maybe_update_task_status, e)
        (update_task_of-Keeps t (query (λ now db. find_run id db) w).0
            (query (λ now db. find_run id db) w).1
          ∙ query-runs (λ now db. find_run id db) w)
]

-- A PATCH whose first statement does not fail writes the status.
patch-runs :
    (id t : String) (w : World)
    → w.fails w.calls ≡ false
    → (update_status id (some (some t)) w).1.db.runs
      ≡ (set_run_status id (of_string t) none w.now w.db).runs
unfolding update_status
patch-runs id t w write =
    let (answer, runs) = update_run_status-Keeps id (of_string t) none w write in
    rw (◌>>=◌, answer)
      (linked-runs id (of_string t) (update_run_status id (of_string t) none w).1 ∙ runs)

module _ (now : ℕ) (fails : Request → ℕ → Bool) where
  -- A request with its failures.
  abbrev pub arrival : Request → Arrival
  arrival q = record { request = q; now = now; fails = fails q }

  run-++ :
      (db : Db) (qs rs : List Request)
      → run db (map arrival (qs ++ rs)) ≡ run (run db (map arrival qs)) (map arrival rs)
  unfolding run
  run-++ db [] rs = refl
  run-++ db (q ∷ qs) rs = run-++ (step db (arrival q)) qs rs

-- The last report of an execution is a status that ends a run.
abbrev Closes : List Report → Type 0
Closes rs =
    (init : List Report) × (t : String) × (rs ≡ init ++ (status t ∷ []))
    × (status_is_terminal (of_string t) ≡ true)

Closes-++ : (xs ys : List Report) → Closes ys → Closes (xs ++ ys)
Closes-++ [] ys h = h
Closes-++ (x ∷ xs) ys h =
    let (init, t, e, ends) = Closes-++ xs ys h in (x ∷ init, t, ap (λ l. x ∷ l) e, ends)

report_error-Closes : (message : String) → Closes (report_error message)
unfolding report_error of_string
report_error-Closes message = (_ ∷ [], "failed", refl, refl)

closing-Closes :
    (s : Surroundings) (n : ℕ) (o : Option Bool) → is_some o ≡ true → Closes (closing s n o)
closing-Closes s n none h = cc
closing-Closes s n (some well) h = (_ ∷ [], _, refl, final_status-ends s well _)

attend-Closes :
    (s : Surroundings) (p : Plan) → is_some (s.exits (docker_args p)) ≡ true → Closes (attend s p)
unfolding attend
attend-Closes s p exited =
    Closes-++ (stream_output p.adapter 2 (s.output (docker_args p))) _
      (closing-Closes s _ (s.exits (docker_args p)) exited)

execute-Closes :
    (s : Surroundings) (f : Fetched)
    → ((args : List String) → is_some (s.exits args) ≡ true)
    → Closes (execute s f)
unfolding execute
execute-Closes s f exited = whole (plan s f)
  where
    after :
        (p : Plan) (o : Option String)
        → Closes (elim o [ some e ↦ report_error (concat "启动失败: " e) | none ↦ attend s p ])
    after p (some e) = report_error-Closes (concat "启动失败: " e)
    after p none = attend-Closes s p (exited (docker_args p))

    whole :
        (r : Result Plan)
        → Closes (elim r [
          | refuses e ↦ report_error e
          | gives p ↦ event 1 "run_started" (start_payload s p) "" ∷ started s p
        ])
    whole (refuses e) = report_error-Closes e
    whole (gives p) =
        Closes-++ (event 1 "run_started" (start_payload s p) "" ∷ []) (started s p)
          (after p (s.start (docker_args p)))

-- What arrives of some reports and one more that is not lost.
arriving-++ :
    (lost : ℕ → Bool) (n : ℕ) (xs : List Report) (r : Report)
    → lost (n + length xs) ≡ false
    → arriving lost n (xs ++ (r ∷ [])) ≡ arriving lost n xs ++ (r ∷ [])
unfolding arriving
arriving-++ lost n [] r h = let kept : lost n ≡ false = ap lost (omega arith) ∙ h in rw (kept) refl
arriving-++ lost n (x ∷ xs) r h =
    let rest = arriving-++ lost (suc n) xs r (ap lost (omega arith) ∙ h) in
    elim (Bool-cases (lost n)) [ inl e ↦ rw e rest | inr e ↦ rw e (ap (λ l. x ∷ l) rest) ]

zero_plus : (n : ℕ) → 0 + n ≡ n
zero_plus n = omega arith

length-snoc : (xs : List Report) (r : Report) → length (xs ++ (r ∷ [])) ≡ suc (length xs)
length-snoc [] r = refl
length-snoc (x ∷ xs) r = ap suc (length-snoc xs r)

map-++ : {A B : Type 0} (g : A → B) (xs ys : List A) → map g (xs ++ ys) ≡ map g xs ++ map g ys
map-++ g [] ys = refl
map-++ g (x ∷ xs) ys = ap (λ l. g x ∷ l) (map-++ g xs ys)

status-with_status : (t : RunStatus) (now : ℕ) (r : Run) → (with_status t none now r).status ≡ t
status-with_status t now r = ground arith

module _ (s : Surroundings) (f : Fetched) (now : ℕ) (fails : Request → ℕ → Bool) where
  abbrev sent : List Report → List Arrival
  sent rs = map (arrival now fails) (map (request_of s f.id) rs)

  sent-Kept : (rs : List Report) → AllRespect Kept (sent rs)
  unfolding request_of
  sent-Kept [] = tt
  sent-Kept (event k t payload raw ∷ rs) = (tt, sent-Kept rs)
  sent-Kept (status t ∷ rs) = (tt, sent-Kept rs)

  sent-++ :
      (db : Db) (xs ys : List Report) → run db (sent (xs ++ ys)) ≡ run (run db (sent xs)) (sent ys)
  sent-++ db xs ys =
      ap (λ qs. run db (map (arrival now fails) qs)) (map-++ (request_of s f.id) xs ys)
      ∙ run-++ now fails db (map (request_of s f.id) xs) (map (request_of s f.id) ys)

  -- The status that comes last is the one that the run shows.
  last-status :
      (t : String) (db : Db) (r : Run)
      → fails (patch_run f.id (some (some t))) 0 ≡ false
      → find_run f.id db ≡ some r
      → (x : Run) × (find_run f.id (run db (sent (status t ∷ []))) ≡ some x)
        × (x.status ≡ of_string t)
  unfolding request_of run step serve find_run set_run_status
  last-status t db r write found = (
    with_status (of_string t) none now r,
    ap (λ rs. find? (λ x. str_eq x.id f.id) rs)
          (patch-runs f.id t
            (record {
              db = db;
              now = now;
              calls = 0;
              fails = fails (patch_run f.id (some (some t)));
            })
            write)
        ∙ find_run-set_run_status f.id (of_string t) none now db f.id
        ∙ ap (map? (change (λ x. str_eq x.id f.id) (with_status (of_string t) none now))) found
        ∙ ap some own,
    status-with_status (of_string t) now r,
  )
    where
      own :
          change (λ x. str_eq x.id f.id) (with_status (of_string t) none now) r
          ≡ with_status (of_string t) none now r
      own = rw (id-find_run f.id db r found, eq_refl f.id) refl

  -- An execution that is not cancelled, of a run that is in the table, ends that run unless its last
  -- request is lost, given that the command exits: after the requests that arrive, whichever of their statements fail but for the first one of a PATCH, the run shows a
  -- status that ends it.
  pub delivered-ends :
      (db : Db) (r : Run)
      → s.cancelled ≡ none
      → ((args : List String) → is_some (s.exits args) ≡ true)
      → ((n : ℕ) → suc n ≡ length (execute s f) → s.lost n ≡ false)
      → ((id : String) (body : Option (Option String)) → fails (patch_run id body) 0 ≡ false)
      → find_run f.id db ≡ some r
      → (x : Run) × (find_run f.id (run db (map (arrival now fails) (delivered s f))) ≡ some x)
        × (status_is_terminal x.status ≡ true)
  unfolding delivered
  delivered-ends db r whole exited last write found =
      let (init, t, e, ends) = execute-Closes s f exited in
      let come = arriving s.lost 0 init in
      let (x, present) = is_some-value (find_run f.id (run db (sent come))) (stays come) in
      let (y, shown, same) =
        last-status t (run db (sent come)) x (write f.id (some (some t))) present in
      let kept = last (0 + length init) (
        ap suc (zero_plus (length init)) ∙ sym (length-snoc init (status t)) ∙ ap length (sym e)) in
      (
        y,
        ap (λ d. find_run f.id d)
              (ap (λ c. run db (sent (arriving s.lost 0 (before_cancel c (execute s f))))) whole
                ∙ ap (λ rs. run db (sent (arriving s.lost 0 rs))) e
                ∙ ap (λ rs. run db (sent rs)) (arriving-++ s.lost 0 init (status t) kept)
                ∙ sent-++ db come (status t ∷ []))
            ∙ shown,
        ap status_is_terminal same ∙ ends,
      )
    where
      stays : (init : List Report) → is_some (find_run f.id (run db (sent init))) ≡ true
      stays init =
          Reach-present f.id (run-Reach Kept db (sent init) (sent-Kept init)) (ap is_some found)

      is_some-value : (o : Option Run) → is_some o ≡ true → (x : Run) × (o ≡ some x)
      is_some-value none h = cc
      is_some-value (some x) h = (x, refl)
