-- ===== src/Tests/Tasking.antt =====
-- The theorems on tasks, at two tasks of which one is the parent of the other.
use agents_admin.Prelude.{
  ℕ, zero, suc, concat, ◌+◌, ◌≤◌, ◌<◌, if◌then◌else◌, str_eq, eq_iff, ℤ, pos, Bool, true, false,
  String, Option, none, some, List, [], ◌∷◌, ◌++◌, ◌≡◌, ◌↔◌, refl, sym, ap, ◌∙◌, inl, inr, arith,
  length, is_some, Has, ◌⊎◌,
}
use Prim.Native.String.{count as text_length}
use text.Mathlib.TextLemmas.{length-append}
use agents_admin.Model.Task.{Task, ContextItem}
use agents_admin.Storage.World.{Db, World}
use agents_admin.Storage.Tasks.{find_task}
use agents_admin.Storage.Listing.{Dialect, matching, matches}
use agents_admin.Storage.Tree.{get_task_tree}
use agents_admin.Storage.Tree.Descent.{Descends, get_task_tree-Descends}
use agents_admin.Storage.Tree.Forest.{Forest, IsFresh, get_task_tree-ends}
use agents_admin.Api.TaskRequest.{CreateRequest}
use agents_admin.Api.Tasks.{
  Bridge, Page, Readers, ListQuery, page_limit, list, new_task, filter_of, create,
}
use agents_admin.Api.Browsing.{browse, browse-all, list-bounds}
use agents_admin.Storage.Ties.{Untied}
use mathlib.Core.List.{Permᴰ}
use agents_admin.Api.Planting.{create-Forest, create-row, inherited, produced}
use agents_admin.Tests.{task_a, db_of, world_of}

abbrev result : ContextItem
result = record { type = "summary"; name = "notes"; content = "all built"; source = "t1" }

-- The parent has produced one item; the child comes later.
abbrev mother : Task
mother = record task_a {
  context = some (record {
    inherited_context = [];
    produced_context = result ∷ [];
    conversation_history = [];
  });
}

abbrev daughter : Task
daughter = record task_a { id = "t2"; parent_id = some "t1"; created_at = 2 }

abbrev family : Db
family = record (db_of []) { tasks = daughter ∷ mother ∷ [] }

abbrev height : String → ℕ
height id = if str_eq id "t2" then 1 else 0

none_distinct : {x : String} → none ≡ some x → ⊥
none_distinct h = cc

booleans_distinct : false ≡ true → ⊥
booleans_distinct h = cc

other_text : {x y : String} → str_eq x y ≡ false → some x ≡ some y → ⊥
other_text {x = x} {y = y} e h = booleans_distinct (sym e ∙ (eq_iff x y).1 (injective h))
  where
    injective : some x ≡ some y → x ≡ y
    injective g = cc

family_Forest : Forest family.tasks
family_Forest = record { rank = height; bound = 1; ranked = ranked'; above = above' }
  where
    ranked' : (t : Task) → Has t family.tasks → height t.id ≤ 1
    ranked' t (inl e) = rw e (omega arith)
    ranked' t (inr (inl e)) = rw e (omega arith)
    ranked' t (inr (inr m)) = elim m [ ]

    above' :
        (t p : Task)
        → Has t family.tasks
        → Has p family.tasks
        → t.parent_id ≡ some p.id
        → height p.id < height t.id
    above' t p (inl e) (inl f) h =
        elim (other_text {x = "t1"} {y = "t2"} refl
          (ap (λ z. z.parent_id) (sym e) ∙ h ∙ ap (λ z. some z.id) f)) [ ]
    above' t p (inl e) (inr (inl f)) h = rw (e, f) (omega arith)
    above' t p (inl e) (inr (inr m)) h = elim m [ ]
    above' t p (inr (inl e)) l h = elim (none_distinct (ap (λ z. z.parent_id) (sym e) ∙ h)) [ ]
    above' t p (inr (inr m)) l h = elim m [ ]

get_task_tree-ends_example : is_some (get_task_tree 3 "t1" family) ≡ true
unfolding family_Forest
get_task_tree-ends_example = get_task_tree-ends family family_Forest "t1" 3 (omega arith)

get_task_tree-Descends_example :
    Has daughter (mother ∷ daughter ∷ []) ↔ Descends family.tasks "t1" daughter
unfolding get_task_tree agents_admin.Storage.Order.sort_by
get_task_tree-Descends_example =
    get_task_tree-Descends 3 "t1" family (mother ∷ daughter ∷ []) tree_family daughter
  where
    tree_family : get_task_tree 3 "t1" family ≡ some (mother ∷ daughter ∷ [])
    tree_family = refl

-- A third task below the first one.
abbrev pub third : CreateRequest
third = record {
  agent_id = none;
  context = none;
  description = some "the third";
  labels = none;
  name = "test";
  parent_id = some "t1";
  prompt = "test it";
  prompt_description = none;
  prompt_template_id = none;
  security = none;
  template_id = none;
  type = none;
  workspace = none;
}

abbrev pub bridge : Bridge
bridge = record { to_workspace = λ j. some j; to_security = λ j. some j }

IsFresh-third : IsFresh "t3" family.tasks
IsFresh-third = record { no_row = no_row'; no_child = no_child' }
  where
    no_row' : (t : Task) → Has t family.tasks → str_eq t.id "t3" ≡ false
    no_row' t (inl e) = rw e refl
    no_row' t (inr (inl e)) = rw e refl
    no_row' t (inr (inr m)) = elim m [ ]

    no_child' : (t : Task) → Has t family.tasks → t.parent_id ≡ some "t3" → ⊥
    no_child' t (inl e) h =
        other_text {x = "t1"} {y = "t3"} refl (ap (λ z. z.parent_id) (sym e) ∙ h)
    no_child' t (inr (inl e)) h = none_distinct (ap (λ z. z.parent_id) (sym e) ∙ h)
    no_child' t (inr (inr m)) h = elim m [ ]

create-Forest_example : Forest (create bridge "t3" (some third) (world_of family)).1.db.tasks
create-Forest_example =
    create-Forest bridge "t3" refl (some third) (world_of family) family_Forest IsFresh-third

create-row_example :
    (t : Task) × (find_task "t3" (create bridge "t3" (some third) (world_of family)).1.db ≡ some t)
    × (t.parent_id ≡ some "t1")
    × (inherited t ≡ inherited (new_task bridge "t3" third 100) ++ produced mother)
    × (t.description ≡ "")
unfolding find_task
create-row_example =
    create-row bridge "t3" third "t1" mother (world_of family) (λ k. refl) refl refl refl refl
      mother_row no_third
  where
    mother_row : find_task "t1" family ≡ some mother
    mother_row = refl

    no_third : find_task "t3" family ≡ none
    no_third = refl

-- The first two rows, the other way round.
abbrev turned : List Task → List Task
turned (x ∷ y ∷ xs) = y ∷ x ∷ xs
turned xs = xs

turned-Permᴰ : (xs : List Task) → Permᴰ xs (turned xs)
turned-Permᴰ [] = Permᴰ.nil
turned-Permᴰ (x ∷ []) = Permᴰ.cons refl Permᴰ.nil
turned-Permᴰ (x ∷ y ∷ xs) = Permᴰ.swap refl refl

two_one : daughter.created_at ≡ mother.created_at → ⊥
two_one h = cc

-- A database whose offsets count from 0, and a query that is written and read as tally marks.
abbrev dialect : Dialect
dialect = record {
  ilike = λ name pattern. false;
  offset = λ z. elim z [ pos n ↦ some n | _ ↦ none ];
  scan = λ f xs. turned xs;
}

abbrev marks : ℕ → String
marks zero = ""
marks (suc n) = concat "i" (marks n)

abbrev readers : Readers
readers = record { atoi = λ s. pos (text_length s); parse_time = λ s. none }

text_length-marks : (n : ℕ) → pos (text_length (marks n)) ≡ pos n
text_length-marks zero = refl
text_length-marks (suc n) = ap pos (length-append "i" (marks n) ∙ step (text_length-marks n))
  where
    step : pos (text_length (marks n)) ≡ pos n → 1 + text_length (marks n) ≡ suc n
    step h = grind arith

-- One task a page.
abbrev one_by_one : ListQuery
one_by_one = record { status = ""; search = ""; since = ""; until = ""; limit = "i"; offset = "" }

browse-all_example :
    browse dialect readers one_by_one marks (world_of family) 3 0 ≡ some (daughter ∷ mother ∷ [])
unfolding matching agents_admin.Storage.Order.sort_by filter_of matches
browse-all_example =
    browse-all dialect readers one_by_one marks (world_of family) (λ k. refl) text_length-marks
      (λ n. refl) (λ f xs. turned-Permᴰ xs) untied 3 (omega arith)
  where
    untied : Untied (matching dialect (filter_of readers one_by_one) family)
    untied t u (inl a) (inl b) e = a ∙ sym b
    untied t u (inr (inl a)) (inr (inl b)) e = a ∙ sym b
    untied t u (inl a) (inr (inl b)) e =
        elim (two_one (sym (ap (λ z. z.created_at) a) ∙ e ∙ ap (λ z. z.created_at) b)) [ ]
    untied t u (inr (inl a)) (inl b) e =
        elim (two_one (sym (ap (λ z. z.created_at) b) ∙ sym e ∙ ap (λ z. z.created_at) a)) [ ]
    untied t u (inr (inr m)) n e = elim m [ ]
    untied t u (inl a) (inr (inr n)) e = elim n [ ]
    untied t u (inr (inl a)) (inr (inr n)) e = elim n [ ]

abbrev first_page : Page
first_page = record { tasks = daughter ∷ []; count = 1; total = 2; has_more = true }

list-bounds_example :
    (1 ≤ page_limit (pos 1))
    × (page_limit (pos 1) ≤ 100)
    × (length first_page.tasks ≤ page_limit (pos 1))
    × (first_page.count ≡ length first_page.tasks)
unfolding list agents_admin.Storage.Listing.list_tasks_with_filter agents_admin.Storage.World.query
    matching agents_admin.Prelude.◌+ℤ◌ agents_admin.Storage.Order.sort_by
list-bounds_example = list-bounds dialect readers one_by_one (world_of family) 200 first_page refl
