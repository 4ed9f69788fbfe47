-- ===== src/Machine/Parsing.antt =====
-- internal/nodemanager/adapter/claude and internal/nodemanager/adapter/gemini: the other adapters,
-- and what the three make of a line.
use agents_admin.Prelude.{◌||◌, String, str_eq, concat, some, List, [], ◌∷◌, ◌++◌, if◌then◌else◌}
use agents_admin.Json.{str, arr, Items, nil, cons, Fields, field_value}
use agents_admin.Machine.Adapters.{gives, Codec, Adapter, max_turns, flag, event_of, qwencode}

-- The texts among the items.
unfoldable pub texts : Items → List String
texts nil = []
texts (cons (str s) rest) = s ∷ texts rest
texts (cons _ rest) = texts rest

-- `strings.Join(l, ",")`
unfoldable pub join_comma : List String → String
join_comma [] = ""
join_comma (s ∷ []) = s
join_comma (s ∷ t ∷ l) = concat s (concat "," (join_comma (t ∷ l)))

-- An option with the texts of a list that is not empty.
abbrev pub listed : String → String → Fields → List String
listed key option params = elim (field_value key params) [
  | some (arr (cons i items)) ↦ option ∷ join_comma (texts (cons i items)) ∷ []
  | _ ↦ []
]

-- `mapEventType` of claude; "" is no event.
unfoldable pub claude_event_type : String → String
claude_event_type t =
    if str_eq t "assistant" || str_eq t "user"
    then "message"
    else if str_eq t "tool_use"
    then "tool_use_start"
    else if str_eq t "tool_result"
    then "tool_result"
    else if str_eq t "error"
    then "error"
    else if str_eq t "result"
    then "run_completed"
    else ""

unfoldable pub claude : Codec → Adapter
unfolding texts join_comma claude_event_type
claude codec = record {
  name = "claude-v1";
  build_command = λ prompt params. gives (record {
    image = "runners/claude:latest";
    command = "claude" ∷ [];
    args =
        ("-p" ∷ prompt ∷ "--output-format" ∷ "stream-json" ∷ [])
        ++ max_turns codec params
        ++ listed "allowed_tools" "--allowed-tools" params
        ++ listed "disallowed_tools" "--disallowed-tools" params
        ++ flag "sandbox" "--no-permissions" params;
    env = [];
    working_dir = "/workspace";
  });
  parse_event = λ line. event_of claude_event_type (λ t raw. raw) (codec.decode line);
}

-- `mapEventType` of gemini; "" is no event.
unfoldable pub gemini_event_type : String → String
gemini_event_type t =
    if str_eq t "message"
    then "message"
    else if str_eq t "tool_call"
    then "tool_use_start"
    else if str_eq t "tool_result"
    then "tool_result"
    else if str_eq t "command"
    then "command"
    else if str_eq t "command_done"
    then "command_output"
    else if str_eq t "file_read"
    then "file_read"
    else if str_eq t "file_write"
    then "file_write"
    else if str_eq t "error"
    then "error"
    else if str_eq t "done"
    then "run_completed"
    else ""

unfoldable pub gemini : Codec → Adapter
unfolding gemini_event_type
gemini codec = record {
  name = "gemini-v1";
  build_command = λ prompt params. gives (record {
    image = "runners/gemini:latest";
    command = "gemini" ∷ [];
    args =
        ("-p" ∷ prompt ∷ "--output-format" ∷ "json" ∷ [])
        ++ flag "sandbox" "--sandbox" params
        ++ max_turns codec params;
    env = [];
    working_dir = "/workspace";
  });
  parse_event = λ line. event_of gemini_event_type (λ t raw. raw) (codec.decode line);
}

-- The adapters that cmd/nodemanager/main.go registers.
unfoldable pub registered : Codec → List Adapter
registered codec = claude codec ∷ gemini codec ∷ qwencode codec ∷ []
