-- ===== src/Machine/Created.antt =====
-- A run that the control plane creates, on a node with the adapters of cmd/nodemanager.
use agents_admin.Prelude.{
  ℕ, false, String, str_eq, none, some, ◌≡◌, refl, ap, inl, inr, Option-cases,
}
use agents_admin.Json.{Json, obj, str, field, end, field_value}
use agents_admin.Model.Task.{Task, get_prompt_content}
use agents_admin.Api.Runs.{new_run, exec_snapshot, optional_field}
use agents_admin.Api.TaskRequest.{CreateRequest}
use agents_admin.Api.Tasks.{Bridge, type_of, new_task}
use agents_admin.Machine.Adapters.{refuses, qwencode, registry_get}
use agents_admin.Machine.Parsing.{registered, claude, gemini}
use agents_admin.Machine.Execution.{
  Surroundings, adapter_for, fetched, plan, execute, report_error, normalize_adapter_name,
}

module _ (task : Task) where
  abbrev agent_fields : Json
  agent_fields = obj (
      field "type" (str task.type) (
        optional_field "instance_id" (elim task.agent_id [ none ↦ none | some a ↦ some (str a) ])
          end))

  snapshot-agent : field_value "agent" (exec_snapshot task) ≡ some agent_fields
  unfolding exec_snapshot field_value
  snapshot-agent = elim (Option-cases task.workspace) [
    | inl w ↦ elim (Option-cases task.labels) [
      | inl l ↦ rw (w, l) refl
      | inr (x, l) ↦ rw (w, l) refl
    ]
    | inr (y, w) ↦ elim (Option-cases task.labels) [
      | inl l ↦ rw (w, l) refl
      | inr (x, l) ↦ rw (w, l) refl
    ]
  ]

  snapshot-prompt : field_value "prompt" (exec_snapshot task) ≡ some (str (get_prompt_content task))
  unfolding exec_snapshot field_value
  snapshot-prompt = elim (Option-cases task.workspace) [
    | inl w ↦ elim (Option-cases task.labels) [
      | inl l ↦ rw (w, l) refl
      | inr (x, l) ↦ rw (w, l) refl
    ]
    | inr (y, w) ↦ elim (Option-cases task.labels) [
      | inl l ↦ rw (w, l) refl
      | inr (x, l) ↦ rw (w, l) refl
    ]
  ]

  agent-type :
      field_value "type" (
        field "type" (str task.type) (
          optional_field "instance_id"
            (elim task.agent_id [ none ↦ none | some a ↦ some (str a) ])
            end))
      ≡ some (str task.type)
  unfolding field_value
  agent-type = elim (Option-cases task.agent_id) [ inl e ↦ rw e refl | inr (a, e) ↦ rw e refl ]

abbrev pub no_general : String
no_general = "找不到适配器: general-v1 (原始类型: general)"

plan-general :
    (s : Surroundings) (id : String) (task : Task) (now : ℕ)
    → s.adapters ≡ registered s.codec
    → task.type ≡ "general"
    → str_eq (get_prompt_content task) "" ≡ false
    → plan s (fetched (new_run id task now)) ≡ refuses no_general
unfolding plan registry_get registered claude gemini qwencode normalize_adapter_name
plan-general s id task now known general prompt =
    rw
      (
        snapshot-agent task,
        agent-type task,
        snapshot-prompt task,
        general,
        prompt,
        adapter_for,
        known,
      )
      refl

-- A run of a task whose request names no type, on a node with the adapters that the program
-- registers, always fails: its execution reports that there is no adapter for the type "general",
-- whatever surrounds it.
pub execute-general :
    (s : Surroundings) (bridge : Bridge) (task_id id : String) (req : CreateRequest)
    (created now : ℕ)
    → s.adapters ≡ registered s.codec
    → req.type ≡ none
    → str_eq req.prompt "" ≡ false
    → execute s (fetched (new_run id (new_task bridge task_id req created) now))
      ≡ report_error no_general
unfolding execute new_task
execute-general s bridge task_id id req created now known general prompt =
    rw
      (
        execute,
        plan-general s id (new_task bridge task_id req created) now known (ap type_of general)
            prompt,
      )
      refl
