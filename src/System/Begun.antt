-- ===== src/System/Begun.antt =====
-- A run that was started has events.
use agents_admin.Prelude.{
  ℕ, ◌<◌, Bool, true, false, ◌&&◌, ◌||◌, String, str_eq, eq_iff, Option, none, some, is_some, List,
  ◌≡◌, ◌⊎◌, refl, sym, subst, ap, ◌∙◌, arith, not, [], ◌∷◌, any, filter, change, count, Has,
  Has-filter, Bool-cases, inl, inr,
}
use agents_admin.Model.Run.{
  RunStatus, running, paused, done, failed, cancelled, timeout, Run, Event, is_running,
  status_is_terminal,
}
use agents_admin.Model.Task.{Task}
use agents_admin.Storage.World.{Db}
use agents_admin.Storage.Runs.{
  find_run, create_run, set_run_status, reset_run_to_queued, with_status, is_active,
}
use agents_admin.Storage.Tasks.{of_task, delete_task}
use agents_admin.Storage.Events.{create_events, count_events_by_run}
use agents_admin.Storage.View.{id-with_status, reset_row}
use agents_admin.Api.Runs.{new_run}
use agents_admin.System.{Arrival, run}
use agents_admin.System.Lifecycle.{
  Permits, RunStep, elsewhere, insert, record_events, move, start, requeue, patch, remove, Legal,
  Reach, here, next,
}
use agents_admin.System.Serving.{AllRespect, run-Reach}
use agents_admin.System.Reports.{count-++}
use agents_admin.System.Keyed.{Keyed, Has-update, Reach-Keyed}

abbrev pub is_paused : RunStatus → Bool
is_paused paused = true
is_paused _ = false

-- What shows that a run was started.
abbrev pub was_started : Run → Bool
was_started r = is_some r.started_at || is_running r.status || is_paused r.status

-- Every run that was started has an event.
abbrev pub Begun : Db → Type 0
Begun db = (r : Run) → Has r db.runs → was_started r ≡ true → 0 < count_events_by_run r.id db

-- The statuses that node managers send: those that end a run. Every task may be deleted.
abbrev pub Ending : Permits
Ending = record { patches = λ id s. status_is_terminal s ≡ true; deletes = λ task. Unit }

module _ (n : Option String) (now : ℕ) (r : Run) where
  Legal-was_started :
      (s t : RunStatus)
      → Legal s t
      → r.status ≡ s
      → was_started (with_status t n now r) ≡ true
      → was_started r ≡ true
  Legal-was_started _ _ Legal.schedule e w = ground arith
  Legal-was_started _ _ Legal.pause e w = rw e (ground arith)
  Legal-was_started _ _ Legal.resume e w = rw e (ground arith)
  Legal-was_started _ _ Legal.cancel_queued e w = ground arith
  Legal-was_started _ _ Legal.cancel_running e w = ground arith
  Legal-was_started _ _ Legal.cancel_paused e w = ground arith

  ending-was_started :
      (t : RunStatus)
      → status_is_terminal t ≡ true
      → was_started (with_status t n now r) ≡ true
      → was_started r ≡ true
  ending-was_started done e w = ground arith
  ending-was_started failed e w = ground arith
  ending-was_started cancelled e w = ground arith
  ending-was_started timeout e w = ground arith
  ending-was_started _ e w = cc

-- A status that is written keeps the property if it does for the rows with that id.
set_run_status-Begun :
    (id : String) (t : RunStatus) (n : Option String) (now : ℕ) (db : Db)
    → ((r : Run)
        → Has r db.runs
        → r.id ≡ id
        → was_started (with_status t n now r) ≡ true
        → 0 < count_events_by_run id db)
    → Begun db
    → Begun (set_run_status id t n now db)
unfolding set_run_status count_events_by_run
set_run_status-Begun id t n now db own begun y h w =
    let (r, m, e) = Has-update (λ x. str_eq x.id id) (with_status t n now) y db.runs h in
    elim (Bool-cases (str_eq r.id id)) [
      | inr f ↦ same r m (e ∙ unchanged r f)
      | inl f ↦ written r m ((eq_iff r.id id).0 f) (e ∙ changed r f)
    ]
  where
    unchanged :
        (r : Run)
        → str_eq r.id id ≡ false
        → change (λ x. str_eq x.id id) (with_status t n now) r ≡ r
    unchanged r f = rw f refl

    changed :
        (r : Run)
        → str_eq r.id id ≡ true
        → change (λ x. str_eq x.id id) (with_status t n now) r ≡ with_status t n now r
    changed r f = rw f refl

    same : (r : Run) → Has r db.runs → y ≡ r → 0 < count (λ x. str_eq x.run_id y.id) db.events
    same r m e =
        subst (λ z. was_started z ≡ true → 0 < count (λ x. str_eq x.run_id z.id) db.events) (sym e)
          (begun r m) w

    written :
        (r : Run)
        → Has r db.runs
        → r.id ≡ id
        → y ≡ with_status t n now r
        → 0 < count (λ x. str_eq x.run_id y.id) db.events
    written r m f e =
        subst (λ i. 0 < count (λ x. str_eq x.run_id i) db.events)
          (sym (ap (λ z. z.id) e ∙ id-with_status t n now r ∙ f))
          (own r m f (subst (λ z. was_started z ≡ true) e w))

insert-Begun :
    (id : String) (task : Task) (now : ℕ) (db : Db)
    → Begun db
    → Begun (create_run (new_run id task now) now db).1
unfolding create_run find_run count_events_by_run
insert-Begun id task now db begun = elim (Bool-cases (is_some (find_run id db))) [
  | inl e ↦ rw e begun
  | inr e ↦ rw e new
]
  where
    new :
        (r : Run)
        → (r ≡ new_run id task now) ⊎ Has r db.runs
        → was_started r ≡ true
        → 0 < count (λ x. str_eq x.run_id r.id) db.events
    new r (inl e) w = elim (fresh (subst (λ z. was_started z ≡ true) e w)) [ ]
      where
        fresh : false ≡ true → ⊥
        fresh f = cc
    new r (inr m) w = begun r m w

reset-Begun : (id : String) (now : ℕ) (db : Db) → Begun db → Begun (reset_run_to_queued id now db)
unfolding reset_run_to_queued count_events_by_run
reset-Begun id now db begun y h w =
    let (r, m, e) =
      Has-update (λ x. str_eq x.id id && is_active x.status) (reset_row now) y db.runs h in
    elim (Bool-cases (str_eq r.id id && is_active r.status)) [
      | inr f ↦ same r m (e ∙ unchanged r f)
      | inl f ↦ elim (fresh (subst (λ z. was_started z ≡ true) (e ∙ changed r f) w)) [ ]
    ]
  where
    changed :
        (r : Run)
        → (str_eq r.id id && is_active r.status) ≡ true
        → change (λ x. str_eq x.id id && is_active x.status) (reset_row now) r ≡ reset_row now r
    changed r f = rw f refl

    unchanged :
        (r : Run)
        → (str_eq r.id id && is_active r.status) ≡ false
        → change (λ x. str_eq x.id id && is_active x.status) (reset_row now) r ≡ r
    unchanged r f = rw f refl

    fresh : false ≡ true → ⊥
    fresh f = cc

    same : (r : Run) → Has r db.runs → y ≡ r → 0 < count (λ x. str_eq x.run_id y.id) db.events
    same r m e =
        subst (λ z. was_started z ≡ true → 0 < count (λ x. str_eq x.run_id z.id) db.events) (sym e)
          (begun r m) w

record-Begun : (es : List Event) (now : ℕ) (db : Db) → Begun db → Begun (create_events es now db)
unfolding create_events count_events_by_run
record-Begun es now db begun r h w =
    let old = begun r h w in rw (count-++ (λ x. str_eq x.run_id r.id) db.events es) (omega arith)

-- The row that was found is the only one with its id.
own_row :
    (id : String) (x r : Run) (db : Db)
    → Keyed db
    → find_run id db ≡ some x
    → Has r db.runs
    → r.id ≡ id
    → r ≡ x
unfolding find_run
own_row id x r db keyed found m e =
    some_injective (sym (keyed r m) ∙ ap (λ i. find_run i db) e ∙ found)
  where
    some_injective : some r ≡ some x → r ≡ x
    some_injective p = cc

-- A count is not changed by a filter that keeps all that is counted.
count-filter :
    {A : Type 0} (q p : A → Bool) (xs : List A)
    → ((x : A) → q x ≡ true → p x ≡ true)
    → count q (filter p xs) ≡ count q xs
count-filter q p [] keep = refl
count-filter q p (x ∷ xs) keep = elim (Bool-cases (p x)) [
  | inl e ↦ rw (e, count-filter q p xs keep) refl
  | inr e ↦ elim (Bool-cases (q x)) [
    | inl f ↦ elim (dropped (keep x f) e) [ ]
    | inr f ↦ rw (e, f, count-filter q p xs keep) refl
  ]
]
  where
    dropped : p x ≡ true → p x ≡ false → ⊥
    dropped f g = cc

any-none :
    {A : Type 0} (p : A → Bool) (xs : List A)
    → ((x : A) → Has x xs → p x ≡ false)
    → any p xs ≡ false
any-none p [] h = refl
any-none p (x ∷ xs) h = rw (h x (inl refl)) (any-none p xs (λ y m. h y (inr m)))

-- A run of another task, whose id is its own, is no run of the task that is deleted.
not_of_task :
    (task : String) (r : Run) (db : Db)
    → Keyed db
    → Has r db.runs
    → str_eq r.task_id task ≡ false
    → of_task task db r.id ≡ false
unfolding find_run
not_of_task task r db keyed m other = any-none _ db.runs each
  where
    injective : {x : Run} → some x ≡ some r → x ≡ r
    injective p = cc

    each : (x : Run) → Has x db.runs → (str_eq x.id r.id && str_eq x.task_id task) ≡ false
    each x n = elim (Bool-cases (str_eq x.id r.id)) [
      | inr e ↦ rw e refl
      | inl e ↦
          let same =
            injective
              (sym (keyed x n) ∙ ap (λ i. find_run i db) ((eq_iff x.id r.id).0 e) ∙ keyed r m) in
          rw e (ap (λ z. str_eq z.task_id task) same ∙ other)
    ]

remove-Begun :
    (task : String) (now : ℕ) (db : Db) → Keyed db → Begun db → Begun (delete_task task now db)
unfolding delete_task count_events_by_run
remove-Begun task now db keyed begun r m w =
    let (old, kept) = Has-filter (λ x. not (str_eq x.task_id task)) r db.runs m in
    rw
      (count-filter (λ e. str_eq e.run_id r.id) (λ e. not (of_task task db e.run_id)) db.events
        (λ e f.
          ap (λ i. not (of_task task db i)) ((eq_iff e.run_id r.id).0 f)
          ∙ ap not (not_of_task task r db keyed old (not_true kept))))
      (begun r old w)
  where
    not_true : {b : Bool} → not b ≡ true → b ≡ false
    not_true {b = true} h = sym h
    not_true {b = false} h = refl

step-Begun : {b c : Db} → RunStep Ending b c → Keyed b → Begun b → Begun c
unfolding count_events_by_run
step-Begun (elsewhere runs events) k h = rw (runs, events) h
step-Begun {b = b} (insert id task now) k h = insert-Begun id task now b h
step-Begun {b = b} (record_events es now) k h = record-Begun es now b h
step-Begun {b = b} (move id x t n now found legal) k h =
    set_run_status-Begun id t n now b
      (λ r m e w.
        subst (λ i. 0 < count_events_by_run i b) e
          (h r m (
            Legal-was_started n now r x.status t legal
              (ap (λ z. z.status) (own_row id x r b k found m e)) w)))
      h
step-Begun {b = b} (start id x now found status events) k h =
    set_run_status-Begun id running none now b (λ r m e w. events) h
step-Begun {b = b} (requeue id now z) k h = reset-Begun id now b h
step-Begun {b = b} (patch id t now ends) k h =
    set_run_status-Begun id t none now b
      (λ r m e w.
        subst (λ i. 0 < count_events_by_run i b) e (h r m (ending-was_started none now r t ends w)))
      h
step-Begun {b = b} (remove task now _) k h = remove-Begun task now b k h

Reach-Begun : {b c : Db} → Reach Ending b c → Keyed b → Begun b → Begun c
Reach-Begun here k h = h
Reach-Begun (next p s) k h = step-Begun s (Reach-Keyed p k) (Reach-Begun p k h)

-- If ids are keys, every started run has an event, and each PATCH with a status writes one that ends
-- a run, then after the arrivals, whichever of their statements fail, every started run has an
-- event.
pub run-Begun :
    (db : Db) (xs : List Arrival) → Keyed db → Begun db → AllRespect Ending xs → Begun (run db xs)
run-Begun db xs k h respects = Reach-Begun (run-Reach Ending db xs respects) k h
