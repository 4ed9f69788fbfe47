-- ===== src/Model/Account.antt =====
-- internal/shared/model/account.go, and the types of agents of internal/shared/model/agent.go.
use agents_admin.Prelude.{ℕ, Bool, String, str_eq, Option, List, [], ◌∷◌, find?, any}

pub data AccountStatus : Type 0 where
  pending authenticating authenticated expired : AccountStatus

pub record Account : Type 0 where
  pub id : String
  pub name : String
  pub agent_type_id : String
  pub volume_name : Option String
  pub volume_archive_key : Option String
  pub status : AccountStatus
  pub created_at : ℕ
  pub updated_at : ℕ
  pub last_used_at : Option ℕ

-- `AgentTypeConfig`, without the fields that are only shown.
pub record AgentType : Type 0 where
  pub id : String
  pub image : String
  pub login_methods : List String

-- `PredefinedAgentTypeConfigs`
unfoldable pub predefined_agent_types : List AgentType
predefined_agent_types =
    record {
      id = "qwen-code";
      image = "runners/qwencode:latest";
      login_methods = "oauth" ∷ "api_key" ∷ [];
    }
    ∷ record {
      id = "openai-codex";
      image = "runners/codex:latest";
      login_methods = "device_code" ∷ "oauth" ∷ "api_key" ∷ [];
    }
    ∷ []

-- `findAgentType`
unfoldable pub find_agent_type : String → Option AgentType
unfolding predefined_agent_types
find_agent_type id = find? (λ a. str_eq a.id id) predefined_agent_types

-- `agentTypeSupportsMethod`
unfoldable pub supports_method : AgentType → String → Bool
supports_method a method = any (λ m. str_eq m method) a.login_methods
