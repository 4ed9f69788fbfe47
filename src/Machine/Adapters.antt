-- ===== src/Machine/Adapters.antt =====
-- internal/nodemanager/adapter: what an adapter builds for a command line and what it makes of a line
-- of output, and the three adapters. Trimming, the JSON decoder and the printer of numbers are
-- parameters.
use agents_admin.Prelude.{
  ℤ, Bool, false, ◌||◌, not, String, str_eq, Option, none, some, List, [], ◌∷◌, ◌++◌, if◌then◌else◌,
  find?,
}
use agents_admin.Json.{
  Json, num, str, arr, obj, Items, nil, cons, Fields, end, field, field_value, as_string,
}

-- `RunConfig`, without mounts, resources and options, which no adapter sets. `env` is a Go map: its
-- order is left open.
pub record RunConfig : Type 0 where
  pub image : String
  pub command : List String
  pub args : List String
  pub env : List (String × String)
  pub working_dir : String

-- The type and payload of a `CanonicalEvent`, which is what an adapter fills in.
pub record Parsed : Type 0 where
  pub type : String
  pub payload : Fields

-- A result, or the text of an error.
pub data Result (A : Type 0) : Type 0 where
  gives : A → Result A
  refuses : String → Result A

-- `strings.TrimSpace`, `json.Unmarshal` of a line into a map, and `strconv.Itoa`.
pub record Codec : Type 0 where
  pub trim : String → String
  pub decode : String → Option Fields
  pub itoa : ℤ → String

-- The interface `Adapter`, as the execution of a run uses it: the command for a prompt and
-- parameters, and the event of a line.
pub record Adapter : Type 0 where
  pub name : String
  pub build_command : String → Fields → Result RunConfig
  pub parse_event : String → Option Parsed

-- `Registry.Get`, of the adapters that were registered, the latest first.
unfoldable pub registry_get : String → List Adapter → Option Adapter
registry_get name adapters = find? (λ a. str_eq a.name name) adapters

-- `v, ok := p[k].(bool); ok && v`
abbrev pub is_set : Option Json → Bool
is_set (some (Json.bool b)) = b
is_set _ = false

-- `--max-turns`, where the parameter is a number.
abbrev pub max_turns : Codec → Fields → List String
max_turns codec params = elim (field_value "max_turns" params) [
  | some v ↦ elim v [ num n ↦ "--max-turns" ∷ codec.itoa n ∷ [] | _ ↦ [] ]
  | none ↦ []
]

abbrev pub flag : String → String → Fields → List String
flag key option params = if is_set (field_value key params) then option ∷ [] else []

-- An environment variable, where the parameter is a text that is not empty.
abbrev pub variable : String → String → Fields → List (String × String)
variable key name params =
    let v = as_string (field_value key params) in if str_eq v "" then [] else (name, v) ∷ []

-- `mapEventType` of qwencode; "" is no event.
unfoldable pub qwen_event_type : String → String
qwen_event_type t =
    if str_eq t "system"
    then "system_info"
    else if str_eq t "assistant" || str_eq t "message"
    then "message"
    else if str_eq t "result" || str_eq t "done"
    then "run_completed"
    else if str_eq t "tool_use" || str_eq t "tool_call"
    then "tool_use_start"
    else if str_eq t "tool_result"
    then "tool_result"
    else if str_eq t "file_read"
    then "file_read"
    else if str_eq t "file_write"
    then "file_write"
    else if str_eq t "shell" || str_eq t "command"
    then "command"
    else if str_eq t "shell_output" || str_eq t "command_output" || str_eq t "command_done"
    then "command_output"
    else if str_eq t "error"
    then "error"
    else if str_eq t "thinking" || str_eq t "plan"
    then "message"
    else ""

-- The text of the first block that has one.
unfoldable pub first_text : Items → Option String
first_text nil = none
first_text (cons (obj block) rest) =
    let later = first_text rest in
    elim (field_value "text" block) [
      | some v ↦ elim v [ str s ↦ some s | _ ↦ later ]
      | none ↦ later
    ]
first_text (cons _ rest) = first_text rest

-- The value of a key that may be missing, as an `interface{}`.
abbrev pub value_or_null : String → Fields → Json
value_or_null k raw = elim (field_value k raw) [ none ↦ Json.null | some v ↦ v ]

abbrev pub assistant_text : Fields → Option String
assistant_text raw = elim (field_value "message" raw) [
  | some (obj msg) ↦ elim (field_value "content" msg) [
    | some (arr items) ↦ first_text items
    | _ ↦ none
  ]
  | _ ↦ none
]

-- `extractPayload` of qwencode.
unfoldable pub qwen_payload : String → Fields → Fields
unfolding first_text
qwen_payload t raw =
    if str_eq t "assistant"
    then elim (assistant_text raw) [
      | none ↦ field "type" (str "message") end
      | some text ↦ field "content" (str text) (field "type" (str "message") end)
    ]
    else if str_eq t "result"
    then field "result" (value_or_null "result" raw) (
        field "subtype" (value_or_null "subtype" raw) (elim (field_value "usage" raw) [
          | some (obj usage) ↦ field "usage" (obj usage) end
          | _ ↦ end
        ]))
    else if str_eq t "tool_use" || str_eq t "tool_call"
    then field "tool" (value_or_null "name" raw) (field "input" (value_or_null "input" raw) end)
    else if str_eq t "tool_result"
    then field "output" (value_or_null "output" raw)
        (field "success" (Json.bool (not (is_set (field_value "is_error" raw)))) end)
    else raw

-- An event of a decoded line, where its type is mapped to one.
abbrev pub event_of : (String → String) → (String → Fields → Fields) → Option Fields → Option Parsed
event_of types payload none = none
event_of types payload (some raw) =
    let t = as_string (field_value "type" raw) in
    if str_eq t "" || str_eq (types t) ""
    then none
    else some (record { type = types t; payload = payload t raw })

abbrev pub qwen_parse : Codec → String → Option Parsed
qwen_parse codec line =
    let l = codec.trim line in
    if str_eq l "" then none else event_of qwen_event_type qwen_payload (codec.decode l)

-- internal/nodemanager/adapter/qwencode
unfoldable pub qwencode : Codec → Adapter
unfolding qwen_event_type qwen_payload
qwencode codec = record {
  name = "qwencode-v1";
  build_command = λ prompt params. gives (record {
    image = "runners/qwencode:latest";
    command = "qwen" ∷ [];
    args =
        ("-p" ∷ prompt ∷ "--output-format" ∷ "stream-json" ∷ [])
        ++ flag "yolo" "--yolo" params
        ++ max_turns codec params;
    env =
        variable "api_key" "OPENAI_API_KEY" params
        ++ variable "base_url" "OPENAI_BASE_URL" params
        ++ variable "model" "OPENAI_MODEL" params;
    working_dir = "/workspace";
  });
  parse_event = qwen_parse codec;
}
