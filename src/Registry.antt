-- ===== src/Registry.antt =====
-- app/orchestration/registry.py: which operations there are, which need an approval, and the call of an
-- agent. The agents' sets of operations stand at the head of their classes in app/agents/.
use agentic_google_workspace.Prelude.{
  ℕ, String, Bool, true, false, ◌&&◌, Option, none, some, List, [], ◌∷◌, ◌==◌, if◌then◌else◌, mem,
  any, length, ok, err, ◌>>=◌, ◌>>◌, guard,
}
use agentic_google_workspace.Json.{Json, Fields, obj}
use agentic_google_workspace.Contracts.{
  Service, service_eq, ExecutionStep, ExecutionPlan, AgentResult, unknown_operation, type_error,
  agent_error, Checked,
}
use agentic_google_workspace.Contracts.Graph.{for_each}
use agentic_google_workspace.Specs.Values.{Iso}
use agentic_google_workspace.Specs.Validate.{validate_operation_arguments}

abbrev pub approval_required_operations : List (Service × String)
approval_required_operations =
    (Service.gmail, "send_email")
    ∷ (Service.gmail, "update_labels")
    ∷ (Service.google_calendar, "create_event")
    ∷ (Service.google_calendar, "update_event")
    ∷ (Service.google_calendar, "delete_event")
    ∷ (Service.google_drive, "share_file")
    ∷ (Service.google_drive, "create_folder")
    ∷ (Service.google_drive, "move_file")
    ∷ []

abbrev pub gmail_supported : List String
gmail_supported =
    "search_emails" ∷ "get_email" ∷ "draft_email" ∷ "send_email" ∷ "update_labels" ∷ []

abbrev pub calendar_supported : List String
calendar_supported =
    "search_events" ∷ "get_event" ∷ "create_event" ∷ "update_event" ∷ "delete_event" ∷ []

abbrev pub drive_supported : List String
drive_supported = "search_files" ∷ "get_file" ∷ "share_file" ∷ "create_folder" ∷ "move_file" ∷ []

abbrev pub workspace_supported : List String
workspace_supported = "workspace_search" ∷ []

-- A call of `agent.execute(operation, arguments)`.
pub record Call : Type 0 where
  pub service : Service
  pub operation : String
  pub arguments : Fields

-- The n-th call of a run returns a result, or raises. Every run of the agents, concurrent ones too, is
-- some such function.
abbrev pub Agents : Type 0
Agents = ℕ → Call → Option AgentResult

pub record AgentRegistry : Type 0 where
  pub has_workspace : Bool
  pub agents : Agents
  pub iso : Iso

module _ (registry : AgentRegistry) where
  -- `self._operations.get(service, frozenset())`
  abbrev pub operations : Service → List String
  operations Service.gmail = gmail_supported
  operations Service.google_calendar = calendar_supported
  operations Service.google_drive = drive_supported
  operations Service.workspace = if registry.has_workspace then workspace_supported else []

  unfoldable pub validate_operation : Service → String → Checked (Unit {0})
  validate_operation service operation =
      guard (mem operation (operations service)) (unknown_operation service operation)

  unfoldable pub validate_step : ExecutionStep → Checked (Unit {0})
  validate_step step =
      validate_operation step.service step.operation
      >> validate_operation_arguments registry.iso step.service step.operation step.arguments true

  unfoldable pub validate_plan : ExecutionPlan → Checked (Unit {0})
  validate_plan plan = for_each validate_step plan.steps

  unfoldable pub is_approval_required : Service → String → Bool
  is_approval_required service operation =
      any (λ entry. service_eq entry.0 service && entry.1 == operation) approval_required_operations

  unfoldable pub requires_approval : Service → String → Checked Bool
  requires_approval service operation =
      validate_operation service operation >> ok (is_approval_required service operation)

  abbrev pub validate_arguments : Service → String → Json → Checked Fields
  validate_arguments service operation (obj arguments) =
      validate_operation_arguments registry.iso service operation arguments false >> ok arguments
  validate_arguments service operation _ = err type_error

  -- `execute` up to the call of the agent: the call that it makes.
  unfoldable pub checked_call : Service → String → Json → Checked Call
  checked_call service operation value = do
    validate_operation service operation
    arguments ← validate_arguments service operation value
    ok (record { service = service; operation = operation; arguments = arguments })

  abbrev agent_answer : Option AgentResult → Checked AgentResult
  agent_answer none = err agent_error
  agent_answer (some result) = ok result

  abbrev pub call_agent : Checked Call → List Call → Checked AgentResult × List Call
  call_agent (err e) calls = (err e, calls)
  call_agent (ok call) calls = (agent_answer (registry.agents (length calls) call), call ∷ calls)

  -- `execute` over the log of the calls made before, the latest first.
  unfoldable pub execute : Service → String → Json → List Call → Checked AgentResult × List Call
  execute service operation value calls = call_agent (checked_call service operation value) calls
