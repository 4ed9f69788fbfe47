-- ===== src/System/Keyed.antt =====
-- The id is a key of the table of runs: no two rows share one.
use agents_admin.Prelude.{
  ℕ, Bool, false, ◌&&◌, str_eq, eq_iff, eq_refl, none, some, is_some, List, [], ◌∷◌, ◌≡◌, refl,
  change, update, find?, find?-update, Has, Has-filter, not, Bool-cases, inl, inr,
}
use agents_admin.Model.Run.{RunStatus, Run}
use agents_admin.Storage.World.{Db}
use agents_admin.Storage.Runs.{
  find_run, create_run, set_run_status, reset_run_to_queued, with_status, is_active,
}
use agents_admin.Storage.Tasks
use agents_admin.Storage.Events.{create_events}
use agents_admin.Storage.View.{id-with_status, reset_row}
use agents_admin.Api.Runs.{new_run}
use agents_admin.System.Lifecycle.{
  Permits, RunStep, elsewhere, insert, record_events, move, start, requeue, patch, remove, Reach,
  here, next,
}
use agents_admin.System.Settled.{find?-filter}

-- Every row of a list is the first one with its id.
abbrev pub KeyedRows : List Run → Type 0
KeyedRows rs = (r : Run) → Has r rs → find? (λ x. str_eq x.id r.id) rs ≡ some r

abbrev pub Keyed : Db → Type 0
Keyed db = KeyedRows db.runs

-- A row after an update is the change of a row before it.
pub Has-update :
    {A : Type 0} (p : A → Bool) (f : A → A) (y : A) (xs : List A)
    → Has y (update p f xs)
    → (x : A) × Has x xs × (y ≡ change p f x)
Has-update p f y [] h = elim h [ ]
Has-update p f y (x ∷ xs) (inl e) = (x, inl refl, e)
Has-update p f y (x ∷ xs) (inr h) = let (z, m, e) = Has-update p f y xs h in (z, inr m, e)

id-change :
    (p : Run → Bool) (f : Run → Run)
    → ((x : Run) → (f x).id ≡ x.id)
    → (r : Run) → (change p f r).id ≡ r.id
id-change p f same r = elim (Bool-cases (p r)) [ inl e ↦ rw e (same r) | inr e ↦ rw e refl ]

-- An update that leaves the ids keeps the key.
update-KeyedRows :
    (p : Run → Bool) (f : Run → Run) (rs : List Run)
    → ((x : Run) → (f x).id ≡ x.id)
    → KeyedRows rs
    → KeyedRows (update p f rs)
update-KeyedRows p f rs same keyed y h =
    let (r, m, e) = Has-update p f y rs h in
    rw
      (
        e,
        id-change p f same r,
        find?-update (λ x. str_eq x.id r.id) p f rs (λ x. rw (same x) refl),
        keyed r m,
      )
      refl

insert-Keyed : (x : Run) (now : ℕ) (db : Db) → Keyed db → Keyed (create_run x now db).1
unfolding create_run find_run
insert-Keyed x now db keyed = elim (Bool-cases (is_some (find_run x.id db))) [
  | inl e ↦ rw e keyed
  | inr e ↦ rw e (go e)
]
  where
    go : is_some (find_run x.id db) ≡ false → KeyedRows (x ∷ db.runs)
    go e r (inl same) = rw (same, eq_refl x.id) refl
    go e r (inr m) = elim (Bool-cases (str_eq x.id r.id)) [
      | inr f ↦ rw f (keyed r m)
      | inl f ↦ elim (hidden e (rw ((eq_iff x.id r.id).0 f) (keyed r m))) [ ]
    ]
      where
        hidden : is_some (find_run x.id db) ≡ false → find_run x.id db ≡ some r → ⊥
        hidden e' g = cc

module _ {allow : Permits} where
  pub step-Keyed : {b c : Db} → RunStep allow b c → Keyed b → Keyed c
  unfolding set_run_status reset_run_to_queued create_events Tasks.delete_task
  step-Keyed (elsewhere runs _) h = rw runs h
  step-Keyed {b = b} (insert id task now) h = insert-Keyed (new_run id task now) now b h
  step-Keyed (record_events es now) h = h
  step-Keyed {b = b} (move id x status n now _ _) h =
      update-KeyedRows (λ r. str_eq r.id id) (with_status status n now) b.runs
        (id-with_status status n now) h
  step-Keyed {b = b} (start id x now _ _ _) h =
      update-KeyedRows (λ r. str_eq r.id id) (with_status RunStatus.running none now) b.runs
        (id-with_status RunStatus.running none now) h
  step-Keyed {b = b} (requeue id now _) h =
      update-KeyedRows (λ r. str_eq r.id id && is_active r.status) (reset_row now) b.runs
        (λ x. refl) h
  step-Keyed {b = b} (patch id status now _) h =
      update-KeyedRows (λ r. str_eq r.id id) (with_status status none now) b.runs
        (id-with_status status none now) h
  step-Keyed {b = b} (remove task now _) h = λ y m.
      let (old, kept) = Has-filter (λ r. not (str_eq r.task_id task)) y b.runs m in
      find?-filter (λ r. str_eq r.id y.id) (λ r. not (str_eq r.task_id task)) y b.runs (h y old)
        kept

  pub Reach-Keyed : {b c : Db} → Reach allow b c → Keyed b → Keyed c
  Reach-Keyed here h = h
  Reach-Keyed (next p s) h = step-Keyed s (Reach-Keyed p h)
