-- ===== src/Machine/Execution.antt =====
-- internal/nodemanager/manager.go: the execution of one run, as the requests that it sends. What the
-- container prints, how it exits and when the execution is cancelled are parameters.
use Prim.Native.Char.{code}
use agents_admin.Prelude.{
  ℕ, suc, ◌+◌, ◌==◌, pos, leb, ltb, Bool, false, ◌&&◌, not, String, str_eq, concat, Option, none,
  some, List, [], ◌∷◌, ◌++◌, map, if◌then◌else◌, length, take,
}
use agents_admin.Json.{Json, str, obj, Fields, end, field, field_value, as_string, doc, RawMessage}
use agents_admin.Model.Run.{Run}
use agents_admin.System.{Request, report_events, patch_run}
use agents_admin.Machine.Adapters.{Result, gives, refuses, RunConfig, Codec, Adapter, registry_get}
use agents_admin.Machine.Workspaces.{
  Disk, WorkspaceConfig, Prepared, parse_workspace_config, prepare,
}
use agents_admin.Machine.Containers.{
  InstanceView, Fetch, container_for_instance, container_for_account,
}

-- A run as the API gives it: its id and its snapshot.
pub record Fetched : Type 0 where
  pub id : String
  pub snapshot : Option Json

-- What surrounds an execution: the answers of the API server and of Docker, what the command prints
-- and whether it exits with 0, after how many requests the execution is cancelled, if it is, and which
-- requests the transport loses. A command may never exit, as one that blocks on output that is no
-- longer read; its execution then waits until it is cancelled.
pub record Surroundings : Type 0 where
  pub node_id : String
  pub codec : Codec
  pub adapters : List Adapter
  pub disk : Disk
  pub instance : String → Fetch InstanceView
  pub instances : String → Fetch (List InstanceView)
  pub ps : Result (List String)
  pub copy : String → String → Option String
  pub start : List String → Option String
  pub output : List String → List String
  pub exits : List String → Option Bool
  pub cancelled : Option ℕ
  pub lost : ℕ → Bool
  pub clock : ℕ → ℕ

infixl 5 ◌>>=◌
abbrev ◌>>=◌ : {A B : Type 0} → Result A → (A → Result B) → Result B
gives a >>= f = f a
refuses e >>= f = refuses e

-- `v.(map[string]interface{})`
abbrev pub object_or : String → Option Json → Result Fields
object_or message (some (obj m)) = gives m
object_or message _ = refuses message

-- `v.(string)`, not empty.
abbrev pub text_or : String → Option Json → Result String
text_or message v = if str_eq (as_string v) "" then refuses message else gives (as_string v)

abbrev pub explained : {A : Type 0} → String → Result A → Result A
explained message (gives a) = gives a
explained message (refuses e) = refuses (concat message e)

-- `normalizeAdapterName`
unfoldable pub normalize_adapter_name : String → String
normalize_adapter_name t =
    if str_eq t "qwen-code"
    then "qwencode-v1"
    else if str_eq t "qwencode"
    then "qwencode-v1"
    else if str_eq t "qwen"
    then "qwencode-v1"
    else if str_eq t "gemini"
    then "gemini-v1"
    else if str_eq t "claude"
    then "claude-v1"
    else concat t "-v1"

abbrev pub adapter_for : List Adapter → String → Result Adapter
adapter_for adapters t = elim (registry_get (normalize_adapter_name t) adapters) [
  | some a ↦ gives a
  | none ↦
      refuses
        (concat "找不到适配器: " (concat (normalize_adapter_name t) (concat " (原始类型: " (concat t ")"))))
]

-- `parameters`, or the configuration of the agent itself.
abbrev pub parameters_of : Fields → Fields
parameters_of agent = elim (field_value "parameters" agent) [ some (obj p) ↦ p | _ ↦ agent ]

-- The workspace with its type, where one is configured.
abbrev pub workspace_for :
    Surroundings → String → Option WorkspaceConfig → Result (Option (String × Prepared))
workspace_for s id none = gives none
workspace_for s id (some config) = elim (prepare s.disk id config) [
  | gives w ↦ gives (some (config.type, w))
  | refuses e ↦ refuses (concat "准备 Workspace 失败: " e)
]

abbrev pub container_for : Surroundings → Fields → Result String
container_for s agent =
    let instance_id = as_string (field_value "instance_id" agent) in
    let account_id = as_string (field_value "account_id" agent) in
    if not (str_eq instance_id "")
    then explained "获取实例容器失败: "
        (container_for_instance s.codec instance_id (s.instance instance_id))
    else if not (str_eq account_id "")
    then explained "获取容器失败: "
        (container_for_account s.codec account_id (s.instances account_id) s.ps)
    else refuses "任务缺少 instance_id 或 account_id 配置"

-- A git workspace is copied into the container.
abbrev pub copied : Surroundings → String → Option (String × Prepared) → Result (Unit {0})
copied s container none = gives tt
copied s container (some (t, w)) =
    if not (str_eq w.path "") && str_eq t "git"
    then elim (s.copy w.path container) [
      | none ↦ gives tt
      | some e ↦ refuses (concat "复制 Workspace 到容器失败: " e)
    ]
    else gives tt

-- What is known before the command is started.
pub record Plan : Type 0 where
  pub adapter : Adapter
  pub config : RunConfig
  pub workspace : Option (String × Prepared)
  pub container : String

-- The first part of `executeRun`: every way out of it is an error that is reported.
unfoldable pub plan : Surroundings → Fetched → Result Plan
unfolding normalize_adapter_name
plan s run = do
  snapshot ← object_or "任务快照 (snapshot) 缺失或格式错误" run.snapshot
  agent ← object_or "Agent 配置 (snapshot.agent) 缺失或格式错误" (field_value "agent" snapshot)
  t ← text_or "Agent 类型 (snapshot.agent.type) 缺失或格式错误" (field_value "type" agent)
  prompt ← text_or "任务提示 (snapshot.prompt) 缺失或格式错误" (field_value "prompt" snapshot)
  a ← adapter_for s.adapters t
  config ← explained "构建命令失败: " (a.build_command prompt (parameters_of agent))
  workspace ← workspace_for s run.id (parse_workspace_config snapshot)
  container ← container_for s agent
  done ← copied s container workspace
  gives (record { adapter = a; config = config; workspace = workspace; container = container })

abbrev pub env_args : List (String × String) → List String
env_args [] = []
env_args ((k, v) ∷ env) = "-e" ∷ concat k (concat "=" v) ∷ env_args env

-- The working directory of the workspace comes first.
abbrev pub working_dir_of : Plan → String
working_dir_of p = elim p.workspace [
  | none ↦ p.config.working_dir
  | some tw ↦ if str_eq tw.1.working_dir "" then p.config.working_dir else tw.1.working_dir
]

unfoldable pub docker_args : Plan → List String
docker_args p =
    "exec" ∷ env_args p.config.env
    ++ (if str_eq (working_dir_of p) "" then [] else "-w" ∷ working_dir_of p ∷ [])
    ++ (p.container ∷ [])
    ++ p.config.command
    ++ p.config.args

-- The requests that an execution sends.
pub data Report : Type 0 where
  event : ℕ → String → Fields → String → Report
  status : String → Report

-- `reportError`
unfoldable pub report_error : String → List Report
report_error message =
    event 1 "error" (field "code" (str "execution_error") (field "message" (str message) end)) ""
    ∷ status "failed"
    ∷ []

-- The bytes of a text in UTF-8.
unfoldable pub byte_length : String → ℕ
byte_length String.[] = 0
byte_length (String.◌∷◌ c s) =
    (if ltb (code c) 128
      then 1
      else if ltb (code c) 2048
      then 2
      else if ltb (code c) 65536
      then 3
      else 4)
    + byte_length s

-- `bufio.ScanLines` drops a carriage return at the end of a line.
unfoldable pub drop_return : String → String
drop_return String.[] = ""
drop_return (String.◌∷◌ c String.[]) = if code c == 13 then "" else String.◌∷◌ c String.[]
drop_return (String.◌∷◌ c (String.◌∷◌ d s)) =
    let rest = drop_return (String.◌∷◌ d s) in String.◌∷◌ c rest

-- The lines that the scanner yields: it stops at one that does not fit into 1024 * 1024 bytes with
-- the end of its line.
unfoldable pub scanned : List String → List String
unfolding byte_length drop_return
scanned [] = []
scanned (line ∷ lines) =
    let rest = scanned lines in
    if ltb (byte_length line) 1048576 then drop_return line ∷ rest else []

-- An event for each line that the adapter knows.
unfoldable pub report_lines : Adapter → ℕ → List String → List Report
report_lines a seq [] = []
report_lines a seq (line ∷ lines) = elim (a.parse_event line) [
  | none ↦ report_lines a seq lines
  | some e ↦ event seq e.type e.payload line ∷ report_lines a (suc seq) lines
]

-- `streamOutput`
unfoldable pub stream_output : Adapter → ℕ → List String → List Report
unfolding report_lines scanned
stream_output a seq lines = report_lines a seq (scanned lines)

abbrev pub start_payload : Surroundings → Plan → Fields
start_payload s p = field "node_id" (str s.node_id) (
    field "container" (str p.container) (elim p.workspace [
      | none ↦ end
      | some tw ↦
          field "workspace"
            (obj (
              field "type" (str tw.0)
                (field "path" (str tw.1.path) (field "working_dir" (str tw.1.working_dir) end))))
            end
    ]))

-- Whether the execution is cancelled by the time that some requests are sent.
abbrev pub is_cancelled_by : Option ℕ → ℕ → Bool
is_cancelled_by none sent = false
is_cancelled_by (some n) sent = leb n sent

abbrev pub final_status : Surroundings → Bool → ℕ → String
final_status s well sent =
    if well then "done" else if is_cancelled_by s.cancelled sent then "cancelled" else "failed"

-- The last two reports, after a number of events, once the command exits.
abbrev pub closing : Surroundings → ℕ → Option Bool → List Report
closing s streamed none = []
closing s streamed (some well) =
    event (2 + streamed) "run_completed"
      (field "status" (str (final_status s well (1 + streamed))) end) ""
    ∷ status (final_status s well (1 + streamed))
    ∷ []

-- From the start of the command: its output, and how it ends.
unfoldable pub attend : Surroundings → Plan → List Report
unfolding stream_output docker_args
attend s p =
    let streamed = stream_output p.adapter 2 (s.output (docker_args p)) in
    streamed ++ closing s (length streamed) (s.exits (docker_args p))

abbrev pub started : Surroundings → Plan → List Report
started s p = elim (s.start (docker_args p)) [
  | some e ↦ report_error (concat "启动失败: " e)
  | none ↦ attend s p
]

-- `executeRun`: the requests that it sends or tries to send.
unfoldable pub execute : Surroundings → Fetched → List Report
unfolding plan report_error attend
execute s run = elim (plan s run) [
  | refuses e ↦ report_error e
  | gives p ↦ event 1 "run_started" (start_payload s p) "" ∷ started s p
]

-- A request with a cancelled context is not sent.
abbrev pub before_cancel : Option ℕ → List Report → List Report
before_cancel none reports = reports
before_cancel (some n) reports = take n reports

-- `reportEventWithRaw` and `updateRunStatus`
unfoldable pub request_of : Surroundings → String → Report → Request
request_of s id (event seq t payload raw) = report_events id (
    some (
      record {
        seq = pos seq;
        type = t;
        timestamp = s.clock seq;
        payload = doc (obj payload);
        raw = if str_eq raw "" then none else some raw;
      }
      ∷ []))
request_of s id (status t) = patch_run id (some (some t))

-- The error of a request that the transport loses is dropped.
unfoldable pub arriving : (ℕ → Bool) → ℕ → List Report → List Report
arriving lost n [] = []
arriving lost n (r ∷ rs) = let rest = arriving lost (suc n) rs in if lost n then rest else r ∷ rest

-- The requests of an execution that arrive.
unfoldable pub delivered : Surroundings → Fetched → List Request
unfolding execute request_of arriving
delivered s run =
    map (request_of s run.id) (arriving s.lost 0 (before_cancel s.cancelled (execute s run)))

-- `json.Decode` of a run that the API server wrote.
abbrev pub document_of : RawMessage → Option Json
document_of (doc j) = some j
document_of _ = none

abbrev pub fetched : Run → Fetched
fetched run = record { id = run.id; snapshot = document_of run.snapshot }
