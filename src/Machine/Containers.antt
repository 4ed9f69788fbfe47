-- ===== src/Machine/Containers.antt =====
-- internal/nodemanager/manager.go: the container in which a run is executed. The answers of the API
-- server and of Docker are parameters.
use Prim.Native.Char.{code}
use text.Mathlib.Text.{find? as position?}
use agents_admin.Prelude.{
  ℕ, pos, ◌==◌, Bool, ◌&&◌, not, String, str_eq, concat, none, some, List, [], ◌∷◌, if◌then◌else◌,
  find?, is_some,
}
use agents_admin.Machine.Adapters.{Result, gives, refuses, Codec}

-- The fields that are read of an instance.
pub record InstanceView : Type 0 where
  pub id : String
  pub container_name : String
  pub container : String
  pub status : String

-- What a GET gives: no answer, or a status code with the decoded body.
pub data Fetch (A : Type 0) : Type 0 where
  unanswered : String → Fetch A
  answered : ℕ → Result A → Fetch A

-- `container_name`, or the older field.
abbrev pub container_of : InstanceView → String
container_of v = if str_eq v.container_name "" then v.container else v.container_name

-- The body of an answer with the status 200.
unfoldable pub body_of : {A : Type 0} → Codec → Fetch A → Result A
body_of codec (unanswered e) = refuses (concat "请求失败: " e)
body_of codec (answered s body) =
    if s == 200
    then elim body [ gives a ↦ gives a | refuses e ↦ refuses (concat "解析响应失败: " e) ]
    else refuses (concat "API 返回错误状态: " (codec.itoa (pos s)))

-- `getContainerForInstance`
unfoldable pub container_for_instance : Codec → String → Fetch InstanceView → Result String
unfolding body_of
container_for_instance codec id answer = elim (body_of codec answer) [
  | refuses e ↦ refuses e
  | gives v ↦
      if str_eq (container_of v) ""
      then refuses (concat "实例 " (concat id " 没有关联的容器"))
      else gives (container_of v)
]

-- A running instance with a container.
abbrev pub is_usable : InstanceView → Bool
is_usable v = str_eq v.status "running" && not (str_eq (container_of v) "")

abbrev pub first_container : List InstanceView → Result String
first_container [] = refuses "没有找到实例"
first_container (v ∷ vs) =
    if str_eq (container_of v) "" then refuses "没有找到实例" else gives (container_of v)

-- `getContainerFromAPI`: the first running instance, or the first one.
unfoldable pub container_from_api : Codec → Fetch (List InstanceView) → Result String
unfolding body_of
container_from_api codec answer = elim (body_of codec answer) [
  | refuses e ↦ refuses e
  | gives vs ↦ elim (find? is_usable vs) [
    | some v ↦ gives (container_of v)
    | none ↦ first_container vs
  ]
]

-- `sanitizeAccountID`
unfoldable pub sanitize_account_id : String → String
sanitize_account_id String.[] = ""
sanitize_account_id (String.◌∷◌ c s) =
    let rest = sanitize_account_id s in
    if code c == 64
    then concat "_at_" rest
    else if code c == 46
    then concat "_" rest
    else String.◌∷◌ c rest

-- `findContainerByAccountID`, of the names that `docker ps` prints.
unfoldable pub container_by_name : String → Result (List String) → Result String
unfolding sanitize_account_id
container_by_name account (refuses e) = refuses (concat "docker ps 失败: " e)
container_by_name account (gives names) =
    elim (find? (λ name. is_some (position? name (sanitize_account_id account))) names) [
      | some name ↦ gives name
      | none ↦ refuses (concat "没有找到匹配 " (concat (sanitize_account_id account) " 的运行中容器"))
    ]

abbrev pub no_container : String → String → Result String
no_container account e = refuses (concat "账号 " (concat account (concat " 没有可用的容器: " e)))

abbrev pub by_name : String → Result (List String) → Result String
by_name account ps = elim (container_by_name account ps) [
  | refuses e ↦ no_container account e
  | gives name ↦ if str_eq name "" then no_container account "<nil>" else gives name
]

-- `getContainerForAccount`: the API first, then Docker.
unfoldable pub container_for_account :
    Codec → String → Fetch (List InstanceView) → Result (List String) → Result String
unfolding container_from_api container_by_name
container_for_account codec account answer ps = elim (container_from_api codec answer) [
  | refuses e ↦ by_name account ps
  | gives c ↦ if str_eq c "" then by_name account ps else gives c
]
