-- ===== src/Api/Planting.antt =====
-- internal/apiserver/task/handler.go, `Create`: the task that is stored under a parent, and the
-- absence of cycles among parents.
use agents_admin.Prelude.{
  ℕ, ◌+◌, true, false, String, str_eq, eq_refl, Option, none, some, is_some, List, [], ◌∷◌, ◌++◌,
  ◌≡◌, refl, sym, ap, ◌∙◌, inl, inr, arith, if◌then◌else◌, find?, find?-Has, Bool-cases,
  Option-cases, not, length, ◌==◌,
}
use agents_admin.Model.Task.{ContextItem, Task}
use agents_admin.Storage.World.{Db, World, query, call, ◌>>=◌}
use agents_admin.Storage.Leads.{Leads, Leads-pure, Leads-if, Leads-read}
use agents_admin.Storage.Tasks.{find_task, create_task}
use agents_admin.Storage.Tree.Forest.{Forest, IsFresh, insert-Forest}
use agents_admin.Api.TaskRequest.{CreateRequest, text_or_empty}
use agents_admin.Api.Tasks.{
  Bridge, new_task, inherit, store_task, create_under, has_parent, create_checked, create,
}

-- What a task inherited, and what it produced.
abbrev pub inherited : Task → List ContextItem
inherited t = elim t.context [ none ↦ [] | some c ↦ c.inherited_context ]

abbrev pub produced : Task → List ContextItem
produced t = elim t.context [ none ↦ [] | some c ↦ c.produced_context ]

-- Tables in which an id is fresh and no parents form a cycle.
abbrev Ready : String → Db → Type 0
Ready id db = Forest db.tasks × IsFresh id db.tasks

abbrev Grown : Db → Type 0
Grown db = Forest db.tasks

create_task-Forest :
    (id : String) (t : Task) (now : ℕ) (db : Db)
    → Ready id db
    → t.id ≡ id
    → (t.parent_id ≡ some id → ⊥)
    → Forest (create_task t now db).1.tasks
unfolding create_task
create_task-Forest id t now db (forest, fresh) own alone =
    elim (Bool-cases (is_some (find_task t.id db))) [
      | inl e ↦ rw e forest
      | inr e ↦ rw e (insert-Forest id db.tasks forest _ own fresh alone)
    ]

store-Leads :
    (id : String) (t : Task)
    → t.id ≡ id
    → (t.parent_id ≡ some id → ⊥)
    → Leads (Ready id) Grown (store_task t)
unfolding call
store-Leads id t own alone = record {
  at = λ w p. elim (Bool-cases (w.fails w.calls)) [
    | inl e ↦ rw (store_task, ◌>>=◌, e) p.0
    | inr e ↦ rw (store_task, ◌>>=◌, e) (create_task-Forest id t w.now w.db p own alone)
  ];
}

no_parent :
    (id : String) (o : Option String)
    → has_parent o ≡ false
    → str_eq id "" ≡ false
    → o ≡ some id
    → ⊥
no_parent id none h named e = none_some e
  where
    none_some : none ≡ some id → ⊥
    none_some f = cc
no_parent id (some p) h named e = absurd h (ap (λ i. str_eq i "") (injective e) ∙ named)
  where
    injective : some p ≡ some id → p ≡ id
    injective f = cc

    absurd : not (str_eq p "") ≡ false → str_eq p "" ≡ false → ⊥
    absurd f g = cc

parent_of : (o : Option String) → has_parent o ≡ true → o ≡ some (text_or_empty o)
parent_of none h = elim (false_true h) [ ]
  where
    false_true : false ≡ true → ⊥
    false_true f = cc
parent_of (some q) h = refl

inherit-kept :
    (parent t : Task)
    → ((inherit parent t).id ≡ t.id) × ((inherit parent t).parent_id ≡ t.parent_id)
unfolding inherit
inherit-kept parent t = elim (Option-cases parent.context) [
  | inl e ↦ rw e (refl, refl)
  | inr (c, e) ↦ elim (Bool-cases (length c.produced_context == 0)) [
    | inl f ↦ rw (e, f) (refl, refl)
    | inr f ↦ rw (e, f) (refl, refl)
  ]
]

module _ (bridge : Bridge) (id : String) (named : str_eq id "" ≡ false) where
  -- The parent that was read has another id.
  under-Leads :
      (p : String) (t : Task) (found : Option Task)
      → t.id ≡ id
      → t.parent_id ≡ some p
      → Leads (λ db. Ready id db × (found ≡ find_task p db)) Grown (create_under t (some found))
  unfolding find_task
  under-Leads p t none own e = Leads-pure _ (λ db r. r.0.0)
  under-Leads p t (some parent) own e = record {
    at = λ w r.
        (store-Leads id (inherit parent t) ((inherit-kept parent t).0 ∙ own) (λ f.
            other w.db r.0.1 (sym r.1)
              (ap text_or_empty (sym e ∙ sym (inherit-kept parent t).1 ∙ f)))).at
          w r.0;
  }
    where
      clash : str_eq parent.id id ≡ false → str_eq parent.id id ≡ true → ⊥
      clash f g = cc

      other :
          (db : Db)
          → IsFresh id db.tasks
          → find? (λ x. str_eq x.id p) db.tasks ≡ some parent
          → p ≡ id
          → ⊥
      other db fresh found same =
          let (m, g) = find?-Has (λ x. str_eq x.id p) parent db.tasks found in
          clash (fresh.no_row parent m) (ap (λ i. str_eq parent.id i) (sym same) ∙ g)

  new_task-Leads :
      (req : CreateRequest) (now : ℕ)
      → Leads (Ready id) Grown (
          if has_parent req.parent_id
          then query (λ _ db. find_task (text_or_empty req.parent_id) db)
            >>= create_under (new_task bridge id req now)
          else store_task (new_task bridge id req now))
  unfolding new_task
  new_task-Leads req now =
      Leads-if (has_parent req.parent_id) _ _
        (λ b.
          Leads-read
            (λ found db. Ready id db × (found ≡ find_task (text_or_empty req.parent_id) db))
            (λ _ db. find_task (text_or_empty req.parent_id) db)
            (create_under (new_task bridge id req now)) (Leads-pure _ (λ db r. r.0))
            (λ _ db r. (r, refl))
            (λ found.
              under-Leads (text_or_empty req.parent_id) (new_task bridge id req now) found refl
                (parent_of req.parent_id b)))
        (λ b. store-Leads id (new_task bridge id req now) refl (no_parent id req.parent_id b named))

  create-Leads : (body : Option CreateRequest) → Leads (Ready id) Grown (create bridge id body)
  unfolding create
  create-Leads none = Leads-pure _ (λ db r. r.0)
  create-Leads (some req) =
      Leads-if (str_eq req.name "") _ _ (λ _. Leads-pure _ (λ db r. r.0))
        (λ _.
          Leads-if (str_eq req.prompt "") _ _ (λ _. Leads-pure _ (λ db r. r.0))
            (λ _. record { at = λ w r. (new_task-Leads req w.now).at w r }))

  -- From tasks whose parents form no cycle, a request for a task, under an id that is not empty,
  -- that no task has and that none names as its parent, leads to such tasks, whatever its body and
  -- whichever statements fail.
  pub create-Forest :
      (body : Option CreateRequest) (w : World)
      → Forest w.db.tasks
      → IsFresh id w.db.tasks
      → Forest (create bridge id body w).1.db.tasks
  create-Forest body w forest fresh = (create-Leads body).at w (forest, fresh)

++-[] : {A : Type 0} (xs : List A) → xs ++ [] ≡ xs
++-[] [] = refl
++-[] (x ∷ xs) = ap (λ l. x ∷ l) (++-[] xs)

length-nil : {A : Type 0} (xs : List A) → (length xs == 0) ≡ true → xs ≡ []
length-nil [] h = refl
length-nil (x ∷ xs) h = ground arith

-- What a task inherits under a parent: what its request gives it, then what the parent produced.
inherit-inherited :
    (parent t : Task) → inherited (inherit parent t) ≡ inherited t ++ produced parent
unfolding inherit
inherit-inherited parent t = elim (Option-cases parent.context) [
  | inl e ↦ rw e (sym (++-[] (inherited t)))
  | inr (c, e) ↦ elim (Bool-cases (length c.produced_context == 0)) [
    | inl f ↦
        rw (e, f)
          (sym (++-[] (inherited t))
            ∙ ap (λ l. inherited t ++ l) (sym (length-nil c.produced_context f)))
    | inr f ↦ elim (Option-cases t.context) [
      | inl g ↦ rw (e, f, g) refl
      | inr (d, g) ↦ rw (e, f, g) refl
    ]
  ]
]

store_task-row :
    (t : Task) (w : World)
    → w.fails w.calls ≡ false
    → find_task t.id w.db ≡ none
    → find_task t.id (store_task t w).1.db ≡ some (record t { description = "" })
unfolding create_task call find_task
store_task-row t w quiet fresh = rw (store_task, ◌>>=◌, quiet, fresh, eq_refl t.id) refl

-- A request under a parent that is there goes on to store a task.
create-stores :
    (bridge : Bridge) (id : String) (req : CreateRequest) (parent : Task) (w : World)
    → w.fails w.calls ≡ false
    → str_eq req.name "" ≡ false
    → str_eq req.prompt "" ≡ false
    → has_parent req.parent_id ≡ true
    → find_task (text_or_empty req.parent_id) w.db ≡ some parent
    → create bridge id (some req) w
      ≡ store_task
          (inherit parent (new_task bridge id req w.now))
          (record w { calls = w.calls + 1 })
unfolding create query call
create-stores bridge id req parent w quiet name prompt child found =
    rw (name, prompt, create_checked, child, ◌>>=◌, quiet, found) refl

-- A request for a task with a name, a prompt and a parent that is there, under an id that no task
-- has, when no statement fails: the task is then there under that id and that parent, it inherits
-- what its request gives it and then what the parent produced, and the description of its request is
-- not stored.
pub create-row :
    (bridge : Bridge) (id : String) (req : CreateRequest) (p : String) (parent : Task) (w : World)
    → ((k : ℕ) → w.fails k ≡ false)
    → str_eq req.name "" ≡ false
    → str_eq req.prompt "" ≡ false
    → req.parent_id ≡ some p
    → str_eq p "" ≡ false
    → find_task p w.db ≡ some parent
    → find_task id w.db ≡ none
    → (t : Task) × (find_task id (create bridge id (some req) w).1.db ≡ some t)
      × (t.parent_id ≡ some p)
      × (inherited t ≡ inherited (new_task bridge id req w.now) ++ produced parent)
      × (t.description ≡ "")
unfolding new_task
create-row bridge id req p parent w quiet name prompt child real found fresh =
    let t = inherit parent (new_task bridge id req w.now) in
    let (own, above) = inherit-kept parent (new_task bridge id req w.now) in
    (
      record t { description = "" },
      ap (λ m. find_task id m.1.db)
            (create-stores bridge id req parent w (quiet w.calls) name prompt
              (ap has_parent child ∙ ap not real)
              (ap (λ o. find_task (text_or_empty o) w.db) child ∙ found))
          ∙ ap (λ i. find_task i (store_task t (record w { calls = w.calls + 1 })).1.db) (sym own)
          ∙ store_task-row t (record w { calls = w.calls + 1 }) (quiet (w.calls + 1))
              (ap (λ i. find_task i w.db) own ∙ fresh),
      above ∙ child,
      inherit-inherited parent (new_task bridge id req w.now),
      refl,
    )
