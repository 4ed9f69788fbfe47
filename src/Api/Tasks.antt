-- ===== src/Api/Tasks.antt =====
-- internal/apiserver/task/handler.go: the handlers of tasks. `jsonBridgeConvert`, which turns a
-- document of the request into one of the model, is a parameter, and so are the readers of numbers
-- and times in a query.
use agents_admin.Prelude.{
  ℕ, ℤ, pos, ◌+ℤ◌, ltb, ltb_ℤ, ◌==◌, Bool, false, not, ◌||◌, String, str_eq, Option, none, some,
  List, [], ◌++◌, if◌then◌else◌, length,
}
use agents_admin.Json.{Json}
use agents_admin.Model.Task.{TaskStatus, ContextItem, TaskContext, Task}
use agents_admin.Storage.World.{M, pure, clock, ◌>>=◌, call, query, exec}
use agents_admin.Storage.Tasks.{find_task, create_task, update_task_context, delete_task}
use agents_admin.Storage.Listing.{Dialect, TaskFilter, list_tasks_with_filter, list_sub_tasks}
use agents_admin.Storage.Tree.{get_task_tree}
use agents_admin.Api.Reply.{Reply, error, ok}
use agents_admin.Api.TaskRequest.{CreateRequest, text_or_empty, convert_task_context}

-- The two conversions by `jsonBridgeConvert`; `none` is its nil.
pub record Bridge : Type 0 where
  pub to_workspace : Json → Option Json
  pub to_security : Json → Option Json

abbrev pub bridged : (Json → Option Json) → Option Json → Option Json
bridged f none = none
bridged f (some j) = f j

-- The type of a task, `TaskTypeGeneral` where the request has none.
abbrev pub type_of : Option String → String
type_of none = "general"
type_of (some t) = if str_eq t "" then "general" else t

-- The task of a request, before it inherits from its parent.
unfoldable pub new_task : Bridge → String → CreateRequest → ℕ → Task
new_task bridge id req now = record {
  id = id;
  name = req.name;
  description = text_or_empty req.description;
  status = TaskStatus.pending;
  type = type_of req.type;
  prompt = some (record {
    content = req.prompt;
    template_id = req.prompt_template_id;
    description = text_or_empty req.prompt_description;
  });
  context = convert_task_context req.context;
  workspace = bridged bridge.to_workspace req.workspace;
  security = bridged bridge.to_security req.security;
  labels = req.labels;
  template_id = req.template_id;
  agent_id = req.agent_id;
  parent_id = req.parent_id;
  created_at = now;
  updated_at = now;
}

abbrev pub inherit_items : List ContextItem → Option TaskContext → TaskContext
inherit_items items none = record {
  inherited_context = items;
  produced_context = [];
  conversation_history = [];
}
inherit_items items (some c) = record c { inherited_context = c.inherited_context ++ items }

-- What the parent produced is appended to what the task inherits.
unfoldable pub inherit : Task → Task → Task
inherit parent task = elim parent.context [
  | none ↦ task
  | some c ↦
      if length c.produced_context == 0
      then task
      else record task { context = some (inherit_items c.produced_context task.context) }
]

abbrev pub store_task : Task → M (Reply Task)
store_task task = do
  stored ← call (λ now db. create_task task now db)
  pure (elim stored [ none ↦ error 500 "failed to create task" | some _ ↦ ok 201 task ])

abbrev pub create_under : Task → Option (Option Task) → M (Reply Task)
create_under task none = pure (error 500 "failed to get parent task")
create_under task (some none) = pure (error 400 "parent task not found")
create_under task (some (some parent)) = store_task (inherit parent task)

-- `req.ParentId != nil && *req.ParentId != ""`
abbrev pub has_parent : Option String → Bool
has_parent none = false
has_parent (some p) = not (str_eq p "")

abbrev pub create_checked : Bridge → String → CreateRequest → M (Reply Task)
create_checked bridge id req = do
  now ← clock
  if has_parent req.parent_id
      then query (λ _ db. find_task (text_or_empty req.parent_id) db)
        >>= create_under (new_task bridge id req now)
      else store_task (new_task bridge id req now)

-- `Handler.Create`, of a body that may not parse, under the id that `generateID` drew.
unfoldable pub create : Bridge → String → Option CreateRequest → M (Reply Task)
unfolding new_task inherit
create bridge id none = pure (error 400 "invalid request body")
create bridge id (some req) =
    if str_eq req.name ""
    then pure (error 400 "name is required")
    else if str_eq req.prompt ""
    then pure (error 400 "prompt is required")
    else create_checked bridge id req

-- `Handler.Get`
unfoldable pub get : String → M (Reply Task)
get id = do
  found ← query (λ now db. find_task id db)
  pure (elim found [
    | none ↦ error 500 "failed to get task"
    | some t ↦ elim t [ none ↦ error 404 "task not found" | some task ↦ ok 200 task ]
  ])

-- `strconv.Atoi`, whose error is dropped, and `time.Parse`.
pub record Readers : Type 0 where
  pub atoi : String → ℤ
  pub parse_time : String → Option ℕ

pub record ListQuery : Type 0 where
  pub status : String
  pub search : String
  pub since : String
  pub until : String
  pub limit : String
  pub offset : String

-- `limit <= 0 || limit > 100` gives 20.
unfoldable pub page_limit : ℤ → ℕ
page_limit (pos n) = if n == 0 || ltb 100 n then 20 else n
page_limit _ = 20

-- A bound on the times; the zero time where the text is missing or does not parse.
abbrev pub time_bound : Readers → String → ℕ
time_bound r s = if str_eq s "" then 0 else elim (r.parse_time s) [ none ↦ 0 | some t ↦ t ]

unfoldable pub filter_of : Readers → ListQuery → TaskFilter
unfolding page_limit
filter_of r q = record {
  status = q.status;
  search = q.search;
  since = time_bound r q.since;
  until = time_bound r q.until;
  limit = page_limit (r.atoi q.limit);
  offset = r.atoi q.offset;
}

pub record Page : Type 0 where
  pub tasks : List Task
  pub count : ℕ
  pub total : ℕ
  pub has_more : Bool

-- `offset+len(tasks) < total`
abbrev pub page_reply : ℤ → Option (List Task × ℕ) → Reply Page
page_reply offset none = error 500 "failed to list tasks"
page_reply offset (some (tasks, total)) = ok 200 (record {
  tasks = tasks;
  count = length tasks;
  total = total;
  has_more = ltb_ℤ (offset +ℤ pos (length tasks)) (pos total);
})

-- `Handler.List`
unfoldable pub list : Dialect → Readers → ListQuery → M (Reply Page)
unfolding filter_of
list d r q = do
  found ← list_tasks_with_filter d (filter_of r q)
  pure (page_reply (r.atoi q.offset) found)

-- `Handler.Delete`
unfoldable pub delete : String → M (Reply Unit)
delete id = do
  deleted ← exec (delete_task id)
  pure (elim deleted [ none ↦ error 500 "failed to delete task" | some _ ↦ ok 204 tt ])

-- `Handler.ListSubTasks`; the count is the length of the list.
unfoldable pub sub_tasks : String → M (Reply (List Task × ℕ))
sub_tasks id = do
  found ← query (λ now db. list_sub_tasks id db)
  pure (elim found [
    | none ↦ error 500 "failed to list subtasks"
    | some tasks ↦ ok 200 (tasks, length tasks)
  ])

-- `Handler.GetTree`, of a database with recursive queries; `none` where the query does not end.
unfoldable pub get_tree : ℕ → String → M (Option (Reply (List Task × ℕ)))
get_tree fuel root = do
  found ← query (λ now db. get_task_tree fuel root db)
  pure (elim found [
    | none ↦ some (error 500 "failed to get task tree")
    | some rows ↦ elim rows [ none ↦ none | some tasks ↦ some (ok 200 (tasks, length tasks)) ]
  ])

-- `Handler.UpdateContext`
unfoldable pub update_context : String → Option TaskContext → M (Reply Unit)
update_context id none = pure (error 400 "invalid request body")
update_context id (some context) = do
  written ← exec (update_task_context id context)
  pure (elim written [ none ↦ error 500 "failed to update task context" | some _ ↦ ok 200 tt ])
