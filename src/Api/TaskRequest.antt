-- ===== src/Api/TaskRequest.antt =====
-- api/generated/go/models.gen.go and internal/apiserver/task/util.go: the body of a request for a task
-- and its conversion to the model.
use agents_admin.Prelude.{ℕ, String, Option, none, some, List, [], map}
use agents_admin.Json.{Json}
use agents_admin.Model.Task
use agents_admin.Model.Task.{TaskContext}

pub record ContextItem : Type 0 where
  pub type : String
  pub name : String
  pub content : Option String
  pub source : Option String

pub record Message : Type 0 where
  pub role : String
  pub content : String
  pub timestamp : Option ℕ

-- A pointer to a slice may be nil.
pub record OpenContext : Type 0 where
  pub inherited_context : Option (List ContextItem)
  pub produced_context : Option (List ContextItem)
  pub conversation_history : Option (List Message)

pub record CreateRequest : Type 0 where
  pub agent_id : Option String
  pub context : Option OpenContext
  pub description : Option String
  pub labels : Option (List (String × String))
  pub name : String
  pub parent_id : Option String
  pub prompt : String
  pub prompt_description : Option String
  pub prompt_template_id : Option String
  pub security : Option Json
  pub template_id : Option String
  pub type : Option String
  pub workspace : Option Json

-- The text of a pointer, `""` where it is nil.
abbrev pub text_or_empty : Option String → String
text_or_empty none = ""
text_or_empty (some s) = s

unfoldable pub convert_context_item : ContextItem → Task.ContextItem
convert_context_item src = record {
  type = src.type;
  name = src.name;
  content = text_or_empty src.content;
  source = text_or_empty src.source;
}

-- A time that is missing is the zero time.
unfoldable pub convert_message : Message → Task.Message
convert_message src = record {
  role = src.role;
  content = src.content;
  timestamp = elim src.timestamp [ none ↦ 0 | some t ↦ t ];
}

-- The elements of a pointer to a slice, each converted.
abbrev pub convert_all : {A B : Type 0} → (A → B) → Option (List A) → List B
convert_all f none = []
convert_all f (some l) = map f l

unfoldable pub convert_task_context : Option OpenContext → Option TaskContext
unfolding convert_context_item convert_message
convert_task_context none = none
convert_task_context (some src) = some (record {
  inherited_context = convert_all convert_context_item src.inherited_context;
  produced_context = convert_all convert_context_item src.produced_context;
  conversation_history = convert_all convert_message src.conversation_history;
})
