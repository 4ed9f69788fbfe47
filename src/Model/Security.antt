-- ===== src/Model/Security.antt =====
-- internal/shared/model/security.go: which tools a security policy allows.
use agents_admin.Prelude.{
  Bool, true, false, ◌||◌, String, str_eq, Option, none, some, List, [], ◌∷◌, ◌≡◌, refl, arith, inl,
  inr, if◌then◌else◌, find?, any, is_some, Bool-cases,
}

-- A Go string type with three constants; `other` is any other text.
pub data ToolPermissionLevel : Type 0 where
  allowed denied approval_required : ToolPermissionLevel
  other : String → ToolPermissionLevel

pub record ToolPermission : Type 0 where
  pub tool : String
  pub permission : ToolPermissionLevel
  pub scopes : List String
  pub approval_note : String
  pub reason : String

-- `SecurityPolicyEntity.HasToolPermission`, of the permissions of the policy
unfoldable pub has_tool_permission : List ToolPermission → String → Bool
has_tool_permission [] tool = false
has_tool_permission (p ∷ ps) tool =
    if str_eq p.tool tool || str_eq p.tool "*" then true else has_tool_permission ps tool

-- The loop of `GetToolPermission`, with the wildcard that it has seen last.
unfoldable pub permission_loop :
    List ToolPermission → String → Option ToolPermission → Option ToolPermission
permission_loop [] tool wildcard = wildcard
permission_loop (p ∷ ps) tool wildcard =
    if str_eq p.tool tool
    then some p
    else permission_loop ps tool (if str_eq p.tool "*" then some p else wildcard)

-- `SecurityPolicyEntity.GetToolPermission`
unfoldable pub get_tool_permission : List ToolPermission → String → Option ToolPermission
unfolding permission_loop
get_tool_permission ps tool = permission_loop ps tool none

abbrev pub is_allowed : ToolPermissionLevel → Bool
is_allowed allowed = true
is_allowed _ = false

-- `SecurityPolicyEntity.IsToolAllowed`: a tool without a permission is allowed.
unfoldable pub is_tool_allowed : List ToolPermission → String → Bool
unfolding get_tool_permission
is_tool_allowed ps tool = elim (get_tool_permission ps tool) [
  | none ↦ true
  | some p ↦ is_allowed p.permission
]

-- An entry that only names a tool and its level.
abbrev entry : String → ToolPermissionLevel → String → String → ToolPermission
entry tool permission note reason = record {
  tool = tool;
  permission = permission;
  scopes = [];
  approval_note = note;
  reason = reason;
}

-- The tool permissions of the policy `builtin-strict`.
abbrev pub strict_permissions : List ToolPermission
strict_permissions =
    entry "file_read" allowed "" ""
    ∷ entry "file_write" approval_required "文件写入需要审批" ""
    ∷ entry "file_delete" denied "" "严格模式禁止删除文件"
    ∷ entry "command_execute" denied "" "严格模式禁止执行命令"
    ∷ entry "network_*" denied "" "严格模式禁止网络访问"
    ∷ []

-- The last element that passes a test, or else a given one.
abbrev pub last_or : {A : Type 0} → Option A → (A → Bool) → List A → Option A
last_or d p [] = d
last_or d p (x ∷ xs) = last_or (if p x then some x else d) p xs

abbrev pub or_else : {A : Type 0} → Option A → Option A → Option A
or_else none d = d
or_else (some a) d = some a

permission_loop-find? :
    (ps : List ToolPermission) (tool : String) (d : Option ToolPermission)
    → permission_loop ps tool d
      ≡ or_else (find? (λ p. str_eq p.tool tool) ps) (last_or d (λ p. str_eq p.tool "*") ps)
unfolding permission_loop
permission_loop-find? [] tool d = refl
permission_loop-find? (p ∷ ps) tool d = elim (Bool-cases (str_eq p.tool tool)) [
  | inl e ↦ rw e refl
  | inr e ↦ rw e (permission_loop-find? ps tool (if str_eq p.tool "*" then some p else d))
]

-- The permission of a tool is the first entry with its very name, or else the last entry `*`.
pub get_tool_permission-find? :
    (ps : List ToolPermission) (tool : String)
    → get_tool_permission ps tool
      ≡ or_else (find? (λ p. str_eq p.tool tool) ps) (last_or none (λ p. str_eq p.tool "*") ps)
unfolding get_tool_permission
get_tool_permission-find? ps tool = permission_loop-find? ps tool none

loop_keeps :
    (ps : List ToolPermission) (tool : String) (p : ToolPermission)
    → is_some (permission_loop ps tool (some p)) ≡ true
unfolding permission_loop
loop_keeps [] tool p = refl
loop_keeps (q ∷ ps) tool p = ground (arith, loop_keeps ps tool p, loop_keeps ps tool q)

-- A policy has a permission for a tool exactly if it finds one.
pub has_tool_permission-get :
    (ps : List ToolPermission) (tool : String)
    → has_tool_permission ps tool ≡ is_some (get_tool_permission ps tool)
unfolding has_tool_permission get_tool_permission permission_loop
has_tool_permission-get [] tool = refl
has_tool_permission-get (p ∷ ps) tool =
    ground (arith, loop_keeps ps tool p, has_tool_permission-get ps tool)

-- A tool is allowed if no entry bears its very name or `*`, whatever patterns the entries hold.
pub is_tool_allowed-unnamed :
    (ps : List ToolPermission) (tool : String)
    → any (λ p. str_eq p.tool tool || str_eq p.tool "*") ps ≡ false
    → is_tool_allowed ps tool ≡ true
unfolding is_tool_allowed get_tool_permission permission_loop
is_tool_allowed-unnamed [] tool h = refl
is_tool_allowed-unnamed (p ∷ ps) tool h = ground (arith, is_tool_allowed-unnamed ps tool)
