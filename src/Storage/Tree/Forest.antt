-- ===== src/Storage/Tree/Forest.antt =====
-- Tasks without a cycle of parents: the recursive query of `GetTaskTree` ends, and the statements on
-- the table keep it so.
use agents_admin.Prelude.{
  ℕ, zero, suc, ◌+◌, ◌≤◌, ◌<◌, Bool, true, false, not, String, str_eq, eq_refl, Option, none, some,
  is_some, List, [], ◌∷◌, ◌≡◌, ◌⊎◌, inl, inr, refl, sym, subst, ap, ◌∙◌, filter, update, change,
  map?, Has, Has-filter, Bool-cases, if◌then◌else◌, arith,
}
use agents_admin.Model.Task.{TaskStatus, TaskContext, Task}
use agents_admin.Storage.World.{Db, stamp}
use agents_admin.Storage.Tasks.{update_task_status, update_task_context, delete_task}
use agents_admin.Storage.Tree.{children, rounds, get_task_tree}
use agents_admin.Storage.Tree.Descent.{Has-children}

-- A rank under a bound that each task has above its parent.
pub record Forest (tasks : List Task) : Type 0 where
  pub rank : String → ℕ
  pub bound : ℕ
  pub ranked : (t : Task) → Has t tasks → rank t.id ≤ bound
  pub above :
      (t p : Task) → Has t tasks → Has p tasks → t.parent_id ≡ some p.id → rank p.id < rank t.id

is_some-map? :
    {A : Type 0} (f : A → A) (o : Option A) → is_some o ≡ true → is_some (map? f o) ≡ true
is_some-map? f none h = h
is_some-map? f (some a) h = refl

module _ {tasks : List Task} (forest : Forest tasks) where
  rounds-end :
      (n k : ℕ) (level : List Task)
      → ((t : Task) → Has t level → Has t tasks × (k ≤ forest.rank t.id))
      → k ≤ forest.bound + 1
      → forest.bound + 2 ≤ k + n
      → is_some (rounds n tasks level) ≡ true
  unfolding rounds
  rounds-end zero k level high low enough = elim (absurd low enough) [ ]
    where
      absurd : k ≤ forest.bound + 1 → forest.bound + 2 ≤ k + 0 → ⊥
      absurd a b = omega arith
  rounds-end (suc n) k [] high low enough = refl
  rounds-end (suc n) k (x ∷ level) high low enough =
      is_some-map? _ (rounds n tasks (children tasks (x ∷ level))) (
        rounds-end n (suc k) (children tasks (x ∷ level)) higher
          (let top = forest.ranked x (high x (inl refl)).0 in
            let own = (high x (inl refl)).1 in omega arith)
          (omega arith))
    where
      higher :
          (t : Task) → Has t (children tasks (x ∷ level)) → Has t tasks × (suc k ≤ forest.rank t.id)
      higher t m =
          let (p, l, own, e) = Has-children tasks (x ∷ level) t m in
          let (mine, low') = high p l in
          let over = forest.above t p own mine e in (own, omega arith)

-- Where no cycle of parents stands in the table, the recursive query of the tree of a task ends, for
-- any fuel above the bound on the ranks by two.
pub get_task_tree-ends :
    (db : Db) (forest : Forest db.tasks) (root : String) (fuel : ℕ)
    → forest.bound + 2 ≤ fuel
    → is_some (get_task_tree fuel root db) ≡ true
unfolding get_task_tree
get_task_tree-ends db forest root fuel enough =
    rounds-end forest fuel 0 (filter (λ t. str_eq t.id root) db.tasks)
      (λ t m. ((Has-filter (λ x. str_eq x.id root) t db.tasks m).0, omega arith)) (omega arith)
      (omega arith)

-- No row has the id, and none names it as its parent.
pub record IsFresh (id : String) (tasks : List Task) : Type 0 where
  pub no_row : (t : Task) → Has t tasks → str_eq t.id id ≡ false
  pub no_child : (t : Task) → Has t tasks → t.parent_id ≡ some id → ⊥

module _ (id : String) (tasks : List Task) (forest : Forest tasks) where
  -- The rank of a task that is put above all.
  abbrev raised : String → ℕ
  raised i = if str_eq i id then suc forest.bound else forest.rank i

  raised-own : (i : String) → i ≡ id → raised i ≡ suc forest.bound
  raised-own i e = rw (e, eq_refl id) refl

  raised-other : (i : String) → str_eq i id ≡ false → raised i ≡ forest.rank i
  raised-other i e = rw e refl

  pub insert-Forest :
      (x : Task) → x.id ≡ id → IsFresh id tasks → (x.parent_id ≡ some id → ⊥) → Forest (x ∷ tasks)
  insert-Forest x own fresh alone = record {
    rank = raised;
    bound = suc forest.bound;
    ranked = ranked';
    above = above';
  }
    where
      ranked' : (t : Task) → (t ≡ x) ⊎ Has t tasks → raised t.id ≤ suc forest.bound
      ranked' t (inl e) = rw (raised-own t.id (ap (λ z. z.id) e ∙ own)) (omega arith)
      ranked' t (inr m) =
          let old = forest.ranked t m in rw (raised-other t.id (fresh.no_row t m)) (omega arith)

      above' :
          (t p : Task)
          → (t ≡ x) ⊎ Has t tasks
          → (p ≡ x) ⊎ Has p tasks
          → t.parent_id ≡ some p.id
          → raised p.id < raised t.id
      above' t p (inl e) (inl f) h =
          elim (alone (ap (λ z. z.parent_id) (sym e) ∙ h ∙ ap (λ z. some z.id) f ∙ ap some own)) [ ]
      above' t p (inr m) (inl f) h =
          elim (fresh.no_child t m (h ∙ ap (λ z. some z.id) f ∙ ap some own)) [ ]
      above' t p (inl e) (inr l) h =
          let old = forest.ranked p l in
          rw (raised-own t.id (ap (λ z. z.id) e ∙ own), raised-other p.id (fresh.no_row p l))
            (omega arith)
      above' t p (inr m) (inr l) h =
          rw (raised-other t.id (fresh.no_row t m), raised-other p.id (fresh.no_row p l))
            (forest.above t p m l h)

-- Rows of the new table stand for rows of the old one, with the same id and parent.
abbrev Stands : List Task → List Task → Type 0
Stands old new =
    (t : Task) → Has t new → (s : Task) × Has s old × (s.id ≡ t.id) × (s.parent_id ≡ t.parent_id)

Stands-Forest : (old new : List Task) → Stands old new → Forest old → Forest new
Stands-Forest old new stands forest = record {
  rank = forest.rank;
  bound = forest.bound;
  ranked = λ t m.
      let (s, own, i, p) = stands t m in
      subst (λ z. forest.rank z ≤ forest.bound) i (forest.ranked s own);
  above = λ t p m l h.
      let (s, own, i, e) = stands t m in
      let (q, mine, j, f) = stands p l in
      subst (λ z. forest.rank p.id < forest.rank z) i
        (subst (λ z. forest.rank z < forest.rank s.id) j
          (forest.above s q own mine (e ∙ h ∙ ap some (sym j))));
}

update-Stands :
    (p : Task → Bool) (f : Task → Task) (ts : List Task)
    → ((t : Task) → ((f t).id ≡ t.id) × ((f t).parent_id ≡ t.parent_id))
    → Stands ts (update p f ts)
update-Stands p f [] same t m = elim m [ ]
update-Stands p f (x ∷ ts) same t (inl e) = (x, inl refl, (kept e).0, (kept e).1)
  where
    kept : t ≡ change p f x → (x.id ≡ t.id) × (x.parent_id ≡ t.parent_id)
    kept e' = elim (Bool-cases (p x)) [
      | inl b ↦ rw (e', b, (same x).0, (same x).1) (refl, refl)
      | inr b ↦ rw (e', b) (refl, refl)
    ]
update-Stands p f (x ∷ ts) same t (inr m) =
    let (s, own, i, e) = update-Stands p f ts same t m in (s, inr own, i, e)

module _ (db : Db) (forest : Forest db.tasks) where
  pub status-Forest :
      (id : String) (s : TaskStatus) (now : ℕ) → Forest (update_task_status id s now db).tasks
  unfolding update_task_status
  status-Forest id s now =
      Stands-Forest db.tasks _
        (update-Stands (λ t. str_eq t.id id)
          (λ t. record t { status = s; updated_at = stamp db now t.updated_at }) db.tasks
          (λ t. (refl, refl)))
        forest

  pub context-Forest :
      (id : String) (c : TaskContext) (now : ℕ) → Forest (update_task_context id c now db).tasks
  unfolding update_task_context
  context-Forest id c now =
      Stands-Forest db.tasks _
        (update-Stands (λ t. str_eq t.id id) (λ t. record t { context = some c; updated_at = now })
          db.tasks (λ t. (refl, refl)))
        forest

  pub delete-Forest : (id : String) (now : ℕ) → Forest (delete_task id now db).tasks
  unfolding delete_task
  delete-Forest id now =
      Stands-Forest db.tasks _
        (λ t m. (t, (Has-filter (λ x. not (str_eq x.id id)) t db.tasks m).0, refl, refl)) forest
