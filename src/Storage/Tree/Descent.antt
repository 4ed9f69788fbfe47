-- ===== src/Storage/Tree/Descent.antt =====
-- What the recursive query of `GetTaskTree` returns: the tasks that descend from the root.
use agents_admin.Prelude.{
  ℕ, zero, suc, true, false, String, str_eq, eq_iff, Option, none, some, List, [], ◌∷◌, ◌++◌, ◌≡◌,
  ◌⊎◌, inl, inr, refl, sym, leb, filter, Has, Has-filter, filter-Has, map?, ap, ◌∙◌, Bool, subst,
  ◌↔◌,
}
use agents_admin.Model.Task.{Task}
use agents_admin.Storage.World.{Db}
use agents_admin.Storage.Order.{sort_by, Has-sort_by, sort_by-Has}
use agents_admin.Storage.Listing.{is_child}
use agents_admin.Storage.Tree.{children, rounds, get_task_tree}

-- The root, and the tasks whose parent descends from it.
pub data Descends (tasks : List Task) (root : String) : Task → Type 0 where
  top : {t : Task} → Has t tasks → t.id ≡ root → Descends tasks root t
  below :
      {t p : Task}
      → Descends tasks root p
      → Has t tasks
      → t.parent_id ≡ some p.id
      → Descends tasks root t

names-some :
    (id : String) (o : Option String)
    → (elim o [ none ↦ false | some p ↦ str_eq p id ]) ≡ true
    → o ≡ some id
names-some id none h = cc
names-some id (some p) h = rw ((eq_iff p id).0 h) refl

is_child-parent : (id : String) (t : Task) → is_child id t ≡ true → t.parent_id ≡ some id
is_child-parent id t h = names-some id t.parent_id h

parent-is_child : (id : String) (t : Task) → t.parent_id ≡ some id → is_child id t ≡ true
parent-is_child id t e = rw e ((eq_iff id id).1 refl)

Has-++ : (a : Task) (xs ys : List Task) → Has a (xs ++ ys) → Has a xs ⊎ Has a ys
Has-++ a [] ys h = inr h
Has-++ a (x ∷ xs) ys (inl e) = inl (inl e)
Has-++ a (x ∷ xs) ys (inr h) = elim (Has-++ a xs ys h) [ inl m ↦ inl (inr m) | inr m ↦ inr m ]

++-Has : (a : Task) (xs ys : List Task) → Has a xs ⊎ Has a ys → Has a (xs ++ ys)
++-Has a [] ys (inl h) = elim h [ ]
++-Has a [] ys (inr h) = h
++-Has a (x ∷ xs) ys (inl (inl e)) = inl e
++-Has a (x ∷ xs) ys (inl (inr m)) = inr (++-Has a xs ys (inl m))
++-Has a (x ∷ xs) ys (inr m) = inr (++-Has a xs ys (inr m))

-- A row of the join comes from a row of the level.
pub Has-children :
    (tasks level : List Task) (t : Task)
    → Has t (children tasks level)
    → (p : Task) × Has p level × Has t tasks × (t.parent_id ≡ some p.id)
unfolding children
Has-children tasks [] t h = elim h [ ]
Has-children tasks (p ∷ level) t h =
    elim (Has-++ t (filter (is_child p.id) tasks) (children tasks level) h) [
      | inl m ↦
          let (own, e) = Has-filter (is_child p.id) t tasks m in
          (p, inl refl, own, is_child-parent p.id t e)
      | inr m ↦ let (q, l, own, e) = Has-children tasks level t m in (q, inr l, own, e)
    ]

children-Has :
    (tasks level : List Task) (t p : Task)
    → Has p level
    → Has t tasks
    → t.parent_id ≡ some p.id
    → Has t (children tasks level)
unfolding children
children-Has tasks [] t p h own e = elim h [ ]
children-Has tasks (q ∷ level) t p (inl s) own e =
    ++-Has t (filter (is_child q.id) tasks) (children tasks level) (
      inl (
        filter-Has (is_child q.id) t tasks own
          (parent-is_child q.id t (e ∙ ap (λ z. some z.id) s))))
children-Has tasks (q ∷ level) t p (inr m) own e =
    ++-Has t (filter (is_child q.id) tasks) (children tasks level)
      (inr (children-Has tasks level t p m own e))

none_distinct : {out : List Task} → none ≡ some out → ⊥
none_distinct h = cc

some_injective : {a b : List Task} → some a ≡ some b → a ≡ b
some_injective h = cc

map?-some :
    (f : List Task → List Task) (o : Option (List Task)) (b : List Task)
    → map? f o ≡ some b
    → (a : List Task) × (o ≡ some a) × (b ≡ f a)
map?-some f none b h = elim (none_distinct h) [ ]
map?-some f (some a) b h = (a, refl, sym (some_injective h))

abbrev by_creation : Task → Task → Bool
by_creation a b = leb a.created_at b.created_at

module _ (tasks : List Task) where
  -- What a round adds, when the later ones end.
  rounds-split :
      (n : ℕ) (t : Task) (level out : List Task)
      → rounds (suc n) tasks (t ∷ level) ≡ some out
      → (rest : List Task) × (rounds n tasks (children tasks (t ∷ level)) ≡ some rest)
        × (out ≡ sort_by by_creation (t ∷ level) ++ rest)
  unfolding rounds
  rounds-split n t level out h = map?-some _ (rounds n tasks (children tasks (t ∷ level))) out h

  pub rounds-Descends :
      (root : String) (n : ℕ) (level out : List Task)
      → ((t : Task) → Has t level → Descends tasks root t)
      → rounds n tasks level ≡ some out
      → (t : Task) → Has t out
      → Descends tasks root t
  unfolding rounds
  rounds-Descends root zero level out from h t m = elim (none_distinct h) [ ]
  rounds-Descends root (suc n) [] out from h t m =
      elim (subst (Has t) (sym (some_injective h)) m) [ ]
  rounds-Descends root (suc n) (x ∷ level) out from h t m =
      let (rest, e, split) = rounds-split n x level out h in
      elim (Has-++ t (sort_by by_creation (x ∷ level)) rest (subst (Has t) split m)) [
        | inl own ↦ from t (Has-sort_by by_creation t (x ∷ level) own)
        | inr later ↦ rounds-Descends root n (children tasks (x ∷ level)) rest descends e t later
      ]
    where
      descends : (t : Task) → Has t (children tasks (x ∷ level)) → Descends tasks root t
      descends t m =
          let (p, l, own, e) = Has-children tasks (x ∷ level) t m in below (from p l) own e

  Has-rounds :
      (n : ℕ) (level out : List Task)
      → rounds n tasks level ≡ some out
      → (t : Task) → Has t level
      → Has t out
  unfolding rounds
  Has-rounds zero level out h t m = elim (none_distinct h) [ ]
  Has-rounds (suc n) [] out h t m = elim m [ ]
  Has-rounds (suc n) (x ∷ level) out h t m =
      let (rest, e, split) = rounds-split n x level out h in
      subst (Has t) (sym split) (
        ++-Has t (sort_by by_creation (x ∷ level)) rest
          (inl (sort_by-Has by_creation t (x ∷ level) m)))

  -- The rows that are returned have their children beside them.
  rounds-closed :
      (n : ℕ) (level out : List Task)
      → rounds n tasks level ≡ some out
      → (t p : Task) → Has p out
      → Has t tasks
      → t.parent_id ≡ some p.id
      → Has t out
  unfolding rounds
  rounds-closed zero level out h t p m own e = elim (none_distinct h) [ ]
  rounds-closed (suc n) [] out h t p m own e = elim (subst (Has p) (sym (some_injective h)) m) [ ]
  rounds-closed (suc n) (x ∷ level) out h t p m own e =
      let (rest, r, split) = rounds-split n x level out h in
      subst (Has t) (sym split) (
        ++-Has t (sort_by by_creation (x ∷ level)) rest (
          inr (elim (Has-++ p (sort_by by_creation (x ∷ level)) rest (subst (Has p) split m)) [
            | inl l ↦
                Has-rounds n (children tasks (x ∷ level)) rest r t (
                  children-Has tasks (x ∷ level) t p (Has-sort_by by_creation p (x ∷ level) l) own
                    e)
            | inr l ↦ rounds-closed n (children tasks (x ∷ level)) rest r t p l own e
          ])))

module _ (fuel : ℕ) (root : String) (db : Db) (out : List Task) where
  closed-Descends :
      get_task_tree fuel root db ≡ some out → (t : Task) → Descends db.tasks root t → Has t out
  unfolding get_task_tree
  closed-Descends h t (top own e) =
      Has-rounds db.tasks fuel _ out h t
        (filter-Has (λ x. str_eq x.id root) t db.tasks own ((eq_iff t.id root).1 e))
  closed-Descends h t (below {p = p} d own e) =
      rounds-closed db.tasks fuel _ out h t p (closed-Descends h p d) own e

  -- Where the query for the tree of a task ends, its rows are the tasks that descend from the task:
  -- those with its id, and those whose parent descends from it.
  pub get_task_tree-Descends :
      get_task_tree fuel root db ≡ some out → (t : Task) → Has t out ↔ Descends db.tasks root t
  unfolding get_task_tree
  get_task_tree-Descends h t =
      (rounds-Descends db.tasks root fuel _ out start h t, closed-Descends h t)
    where
      start :
          (t : Task) → Has t (filter (λ x. str_eq x.id root) db.tasks) → Descends db.tasks root t
      start t m =
          let (own, e) = Has-filter (λ x. str_eq x.id root) t db.tasks m in
          top own ((eq_iff t.id root).0 e)
