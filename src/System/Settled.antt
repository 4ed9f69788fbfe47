-- ===== src/System/Settled.antt =====
-- A run that has ended stays as it is, but for a PATCH of that run.
use agents_admin.Prelude.{
  ℕ, true, false, String, str_eq, eq_iff, Option, none, some, is_some, List, ◌≡◌, refl, sym, subst,
  ap, ◌∙◌, Bool, not, [], ◌∷◌, find?, filter, arith, Bool-cases, inl, inr,
}
use agents_admin.Model.Run.{RunStatus, assigned, running, Run, status_is_terminal, is_terminal}
use agents_admin.Model.Task.{Task}
use agents_admin.Storage.World.{Db}
use agents_admin.Storage.Runs.{find_run, create_run, set_run_status, is_active}
use agents_admin.Storage.Tasks.{delete_task}
use agents_admin.Storage.Events.{create_events}
use agents_admin.Storage.View.{
  find_run-set_run_status, find_run-reset, find_run-create, id-find_run,
}
use agents_admin.Api.Runs.{new_run}
use agents_admin.System.{Arrival, run}
use agents_admin.System.Lifecycle.{
  Permits, RunStep, elsewhere, insert, record_events, move, start, requeue, patch, remove, Legal,
  Reach, here, next,
}
use agents_admin.System.Serving.{AllRespect, run-Reach}

-- No legal move leaves a terminal status.
Legal-not-terminal : (s t : RunStatus) → Legal s t → status_is_terminal s ≡ true → ⊥
Legal-not-terminal _ _ Legal.schedule e = cc
Legal-not-terminal _ _ Legal.pause e = cc
Legal-not-terminal _ _ Legal.resume e = cc
Legal-not-terminal _ _ Legal.cancel_queued e = cc
Legal-not-terminal _ _ Legal.cancel_running e = cc
Legal-not-terminal _ _ Legal.cancel_paused e = cc

terminal-not-active : (s : RunStatus) → status_is_terminal s ≡ true → is_active s ≡ false
terminal-not-active assigned e = cc
terminal-not-active running e = cc
terminal-not-active _ e = refl

-- A run that is written under another id stays as it is.
other-set_run_status :
    (id : String) (status : RunStatus) (n : Option String) (now : ℕ) (db : Db) (k : String)
    (r : Run)
    → find_run k db ≡ some r
    → ¬ (id ≡ k)
    → find_run k (set_run_status id status n now db) ≡ some r
other-set_run_status id status n now db k r h d =
    rw (find_run-set_run_status id status n now db k, h)
      (elim (Bool-cases (str_eq r.id id)) [
        | inr e ↦ rw e refl
        | inl e ↦ elim (d (sym ((eq_iff r.id id).0 e) ∙ id-find_run k db r h)) [ ]
      ])

-- Every status for the runs other than one, and every task but that of the run.
abbrev pub OtherRun : String → Run → Permits
OtherRun k r = record {
  patches = λ id s. ¬ (id ≡ k);
  deletes = λ task. str_eq r.task_id task ≡ false;
}

-- A row that the filter keeps is found as before.
pub find?-filter :
    {A : Type 0} (q p : A → Bool) (a : A) (xs : List A)
    → find? q xs ≡ some a
    → p a ≡ true
    → find? q (filter p xs) ≡ some a
find?-filter q p a [] h t = h
find?-filter q p a (x ∷ xs) h t = elim (Bool-cases (q x)) [
  | inl e ↦ kept e (first e h)
  | inr e ↦ elim (Bool-cases (p x)) [
    | inl f ↦ rw (f, e) (find?-filter q p a xs (later e h) t)
    | inr f ↦ rw f (find?-filter q p a xs (later e h) t)
  ]
]
  where
    first : q x ≡ true → find? q (x ∷ xs) ≡ some a → x ≡ a
    first e f = ground arith

    later : q x ≡ false → find? q (x ∷ xs) ≡ some a → find? q xs ≡ some a
    later e f = ground arith

    kept : q x ≡ true → x ≡ a → find? q (filter p (x ∷ xs)) ≡ some a
    kept e same = rw (ap p same ∙ t, e) (ap some same)

module _ (k : String) (r : Run) (ended : is_terminal r ≡ true) where
  -- A step that needs a run that has not ended is a step of another run.
  not-settled :
      (id : String) (x : Run) (b : Db)
      → find_run id b ≡ some x
      → (status_is_terminal x.status ≡ true → ⊥)
      → find_run k b ≡ some r
      → ¬ (id ≡ k)
  not-settled id x b found unended h e = unended (same x (sym found ∙ ap (λ i. find_run i b) e ∙ h))
    where
      same : (y : Run) → some y ≡ some r → status_is_terminal y.status ≡ true
      same y p = cc

  assigned-open : (s : RunStatus) → s ≡ assigned → status_is_terminal s ≡ true → ⊥
  assigned-open s e t = cc

  insert-settled :
      (id : String) (task : Task) (now : ℕ) (b : Db)
      → find_run k b ≡ some r
      → find_run k (create_run (new_run id task now) now b).1 ≡ some r
  insert-settled id task now b h =
      rw (find_run-create (new_run id task now) now b k)
        (elim (Bool-cases (is_some (find_run id b))) [
          | inl e ↦ rw e h
          | inr e ↦ rw e (elim (Bool-cases (str_eq id k)) [
            | inr f ↦ rw f h
            | inl f ↦
                elim (hidden e (subst (λ i. find_run i b ≡ some r) (sym ((eq_iff id k).0 f)) h)) [ ]
          ])
        ])
    where
      hidden : is_some (find_run id b) ≡ false → find_run id b ≡ some r → ⊥
      hidden e g = cc

  step-settled :
      {b c : Db} → RunStep (OtherRun k r) b c → find_run k b ≡ some r → find_run k c ≡ some r
  unfolding find_run create_events delete_task
  step-settled (elsewhere runs _) h = rw runs h
  step-settled {b = b} (insert id task now) h = insert-settled id task now b h
  step-settled (record_events es now) h = h
  step-settled {b = b} (move id x status n now found legal) h =
      other-set_run_status id status n now b k r h
        (not-settled id x b found (Legal-not-terminal x.status status legal) h)
  step-settled {b = b} (start id x now found st ev) h =
      other-set_run_status id running none now b k r h
        (not-settled id x b found (assigned-open x.status st) h)
  step-settled {b = b} (requeue id now z) h =
      rw (find_run-reset id now b k, h, terminal-not-active r.status ended)
        (elim (Bool-cases (str_eq r.id id)) [ inl e ↦ rw e refl | inr e ↦ rw e refl ])
  step-settled {b = b} (patch id status now allowed) h =
      other-set_run_status id status none now b k r h allowed
  step-settled {b = b} (remove task now other) h =
      find?-filter (λ x. str_eq x.id k) (λ x. not (str_eq x.task_id task)) r b.runs h (ap not other)

  Reach-settled :
      {b c : Db} → Reach (OtherRun k r) b c → find_run k b ≡ some r → find_run k c ≡ some r
  Reach-settled here h = h
  Reach-settled (next p s) h = step-settled s (Reach-settled p h)

  -- The row that an id shows of a run that has ended is unchanged, every column of it, by any
  -- sequence of arrivals in which no PATCH with a status names that id and the task of the run is not
  -- deleted, whichever of their statements fail.
  pub run-settled :
      (db : Db) (xs : List Arrival)
      → find_run k db ≡ some r
      → AllRespect (OtherRun k r) xs
      → find_run k (run db xs) ≡ some r
  run-settled db xs h respects = Reach-settled (run-Reach (OtherRun k r) db xs respects) h
