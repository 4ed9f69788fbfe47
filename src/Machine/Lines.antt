-- ===== src/Machine/Lines.antt =====
-- internal/nodemanager/adapter/event.go: the types of events, and those that the adapters give.
use agents_admin.Prelude.{
  Bool, true, false, ◌||◌, ◌&&◌, not, String, str_eq, Option, none, some, List, [], ◌∷◌, ◌≡◌, refl,
  sym, inl, inr, subst, if◌then◌else◌, any, Has, Bool-cases,
}
use agents_admin.Json.{Fields, field_value, as_string}
use agents_admin.Machine.Adapters.{
  Codec, Adapter, Parsed, event_of, qwen_event_type, qwen_payload, qwen_parse, qwencode,
}
use agents_admin.Machine.Parsing.{claude_event_type, claude, gemini_event_type, gemini, registered}

-- The constants of `EventType`.
abbrev pub event_types : List String
event_types =
    "run_started" ∷ "run_completed" ∷ "run_failed" ∷ "message" ∷ "thinking" ∷ "progress"
    ∷ "tool_use_start" ∷ "tool_result" ∷ "file_read" ∷ "file_write" ∷ "file_delete" ∷ "command"
    ∷ "command_output" ∷ "approval_request" ∷ "approval_response" ∷ "checkpoint" ∷ "heartbeat"
    ∷ "system_info" ∷ "result" ∷ "error" ∷ "warning" ∷ []

-- A type of events, other than the one that starts a run.
abbrev pub is_later_type : String → Bool
is_later_type t = any (λ k. str_eq k t) event_types && not (str_eq t "run_started")

abbrev Good : String → Type 0
Good t = str_eq t "" ≡ false → is_later_type t ≡ true

Good-if : (b : Bool) (x y : String) → Good x → Good y → Good (if b then x else y)
Good-if true x y gx gy = gx
Good-if false x y gx gy = gy

Good-empty : Good ""
Good-empty h = sym h

qwen-Good : (t : String) → Good (qwen_event_type t)
unfolding qwen_event_type
qwen-Good t =
    Good-if (str_eq t "system") _ _ (λ _. refl)
      (Good-if (str_eq t "assistant" || str_eq t "message") _ _ (λ _. refl)
        (Good-if (str_eq t "result" || str_eq t "done") _ _ (λ _. refl)
          (Good-if (str_eq t "tool_use" || str_eq t "tool_call") _ _ (λ _. refl)
            (Good-if (str_eq t "tool_result") _ _ (λ _. refl)
              (Good-if (str_eq t "file_read") _ _ (λ _. refl)
                (Good-if (str_eq t "file_write") _ _ (λ _. refl)
                  (Good-if (str_eq t "shell" || str_eq t "command") _ _ (λ _. refl)
                    (Good-if
                      (str_eq t "shell_output"
                        || str_eq t "command_output"
                        || str_eq t "command_done")
                      _ _ (λ _. refl)
                      (Good-if (str_eq t "error") _ _ (λ _. refl)
                        (Good-if (str_eq t "thinking" || str_eq t "plan") _ _ (λ _. refl)
                          Good-empty))))))))))

claude-Good : (t : String) → Good (claude_event_type t)
unfolding claude_event_type
claude-Good t =
    Good-if (str_eq t "assistant" || str_eq t "user") _ _ (λ _. refl)
      (Good-if (str_eq t "tool_use") _ _ (λ _. refl)
        (Good-if (str_eq t "tool_result") _ _ (λ _. refl)
          (Good-if (str_eq t "error") _ _ (λ _. refl)
            (Good-if (str_eq t "result") _ _ (λ _. refl) Good-empty))))

gemini-Good : (t : String) → Good (gemini_event_type t)
unfolding gemini_event_type
gemini-Good t =
    Good-if (str_eq t "message") _ _ (λ _. refl)
      (Good-if (str_eq t "tool_call") _ _ (λ _. refl)
        (Good-if (str_eq t "tool_result") _ _ (λ _. refl)
          (Good-if (str_eq t "command") _ _ (λ _. refl)
            (Good-if (str_eq t "command_done") _ _ (λ _. refl)
              (Good-if (str_eq t "file_read") _ _ (λ _. refl)
                (Good-if (str_eq t "file_write") _ _ (λ _. refl)
                  (Good-if (str_eq t "error") _ _ (λ _. refl)
                    (Good-if (str_eq t "done") _ _ (λ _. refl) Good-empty))))))))

-- An event that an adapter gives has a good type.
abbrev Later : Option Parsed → Type 0
Later none = Unit
Later (some p) = is_later_type p.type ≡ true

event_of-Later :
    (types : String → String) (payload : String → Fields → Fields) (raw : Option Fields)
    → ((t : String) → Good (types t))
    → Later (event_of types payload raw)
event_of-Later types payload none good = tt
event_of-Later types payload (some raw) good =
    let t = as_string (field_value "type" raw) in
    elim (Bool-cases (str_eq t "")) [
      | inl e ↦ rw e tt
      | inr e ↦ elim (Bool-cases (str_eq (types t) "")) [
        | inl f ↦ rw (e, f) tt
        | inr f ↦ rw (e, f) (good t f)
      ]
    ]

qwen_parse-Later : (codec : Codec) (line : String) → Later (qwen_parse codec line)
qwen_parse-Later codec line = elim (Bool-cases (str_eq (codec.trim line) "")) [
  | inl e ↦ rw e tt
  | inr e ↦
      rw e (event_of-Later qwen_event_type qwen_payload (codec.decode (codec.trim line)) qwen-Good)
]

adapter-Later :
    (codec : Codec) (a : Adapter) (line : String)
    → Has a (registered codec)
    → Later (a.parse_event line)
unfolding registered claude gemini qwencode
adapter-Later codec a line (inl e) =
    rw e (event_of-Later claude_event_type (λ t raw. raw) (codec.decode line) claude-Good)
adapter-Later codec a line (inr (inl e)) =
    rw e (event_of-Later gemini_event_type (λ t raw. raw) (codec.decode line) gemini-Good)
adapter-Later codec a line (inr (inr (inl e))) = rw e (qwen_parse-Later codec line)
adapter-Later codec a line (inr (inr (inr h))) = elim h [ ]

-- An event that one of the three adapters makes of a line has one of the types of the model, and never
-- the one that starts a run, which only the execution itself reports.
pub parse_event-known :
    (codec : Codec) (a : Adapter) (line : String) (p : Parsed)
    → Has a (registered codec)
    → a.parse_event line ≡ some p
    → (any (λ k. str_eq k p.type) event_types ≡ true) × (str_eq p.type "run_started" ≡ false)
parse_event-known codec a line p m e = and-split _ _ (subst Later e (adapter-Later codec a line m))
  where
    and-split : (b c : Bool) → b && not c ≡ true → (b ≡ true) × (c ≡ false)
    and-split true true h = cc
    and-split true false h = (refl, refl)
    and-split false c h = cc
