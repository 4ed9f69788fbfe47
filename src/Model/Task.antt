-- ===== src/Model/Task.antt =====
-- internal/shared/model/task.go: a task, its prompt and its context.
use agents_admin.Prelude.{ℕ, String, Option, none, some, List}
use agents_admin.Json.{Json}

pub data TaskStatus : Type 0 where
  pending in_progress completed failed cancelled : TaskStatus

-- The text of a status in the table.
unfoldable pub to_string : TaskStatus → String
to_string pending = "pending"
to_string in_progress = "in_progress"
to_string completed = "completed"
to_string failed = "failed"
to_string cancelled = "cancelled"

pub record Prompt : Type 0 where
  pub content : String
  pub template_id : Option String
  pub description : String

pub record ContextItem : Type 0 where
  pub type : String
  pub name : String
  pub content : String
  pub source : String

pub record Message : Type 0 where
  pub role : String
  pub content : String
  pub timestamp : ℕ

pub record TaskContext : Type 0 where
  pub inherited_context : List ContextItem
  pub produced_context : List ContextItem
  pub conversation_history : List Message

pub record Task : Type 0 where
  pub id : String
  pub name : String
  pub description : String
  pub status : TaskStatus
  pub type : String
  pub prompt : Option Prompt
  pub context : Option TaskContext
  pub workspace : Option Json
  pub security : Option Json
  pub labels : Option (List (String × String))
  pub template_id : Option String
  pub agent_id : Option String
  pub parent_id : Option String
  pub created_at : ℕ
  pub updated_at : ℕ

-- `Task.GetPromptContent`
abbrev pub get_prompt_content : Task → String
get_prompt_content t = elim t.prompt [ none ↦ "" | some p ↦ p.content ]
