-- ===== src/Contracts/Types.antt =====
-- The enumerations and models of app/schemas/contracts.py, and the exceptions that the program raises.
use agentic_google_workspace.Prelude.{
  ℕ, String, ◌≡◌, ◌↔◌, Bool, true, false, Option, List, arith, Result,
}
use agentic_google_workspace.Json.{Json, Fields}

pub data Service : Type 0 where
  gmail google_calendar google_drive workspace : Service

-- `service.value`
abbrev pub service_value : Service → String
service_value Service.gmail = "gmail"
service_value Service.google_calendar = "google_calendar"
service_value Service.google_drive = "google_drive"
service_value Service.workspace = "workspace"

abbrev pub service_eq : Service → Service → Bool
service_eq Service.gmail Service.gmail = true
service_eq Service.google_calendar Service.google_calendar = true
service_eq Service.google_drive Service.google_drive = true
service_eq Service.workspace Service.workspace = true
service_eq _ _ = false

pub service_eq_iff : (a b : Service) → (service_eq a b ≡ true) ↔ (a ≡ b)
service_eq_iff a b = ground arith

pub data ExecutionStatus : Type 0 where
  pending running completed failed skipped awaiting_approval : ExecutionStatus

abbrev pub status_eq : ExecutionStatus → ExecutionStatus → Bool
status_eq ExecutionStatus.pending ExecutionStatus.pending = true
status_eq ExecutionStatus.running ExecutionStatus.running = true
status_eq ExecutionStatus.completed ExecutionStatus.completed = true
status_eq ExecutionStatus.failed ExecutionStatus.failed = true
status_eq ExecutionStatus.skipped ExecutionStatus.skipped = true
status_eq ExecutionStatus.awaiting_approval ExecutionStatus.awaiting_approval = true
status_eq _ _ = false

pub status_eq_iff : (a b : ExecutionStatus) → (status_eq a b ≡ true) ↔ (a ≡ b)
status_eq_iff a b = ground arith

pub record ErrorInfo : Type 0 where
  pub error_code : String
  pub message : String
  pub details : Fields

pub record Intent : Type 0 where
  pub intent_name : String
  pub required_services : List Service
  pub extracted_entities : Fields
  pub requires_clarification : Bool
  pub clarification_question : Option String

pub record ExecutionStep : Type 0 where
  pub step_id : String
  pub service : Service
  pub operation : String
  pub arguments : Fields
  pub depends_on : List String

pub record ExecutionPlan : Type 0 where
  pub steps : List ExecutionStep

pub record StepResult : Type 0 where
  pub step_id : String
  pub status : ExecutionStatus
  pub content : Fields
  pub error : Option ErrorInfo

pub record AgentResult : Type 0 where
  pub status : ExecutionStatus
  pub content : Fields
  pub source_ids : List String
  pub error : Option ErrorInfo

-- The exceptions that the modelled code raises or lets through. `value_error` has the fixed part of
-- the message; `reference_error` is `ReferenceResolutionError` with its code, step and path.
pub data Exception : Type 0 where
  value_error : String → Exception
  unknown_operation : Service → String → Exception
  reference_error : String → String → List Json → Exception
  runtime_error : String → Exception
  key_error : String → Exception
  type_error : Exception
  attribute_error : Exception
  overflow_error : Exception
  http_error : ℕ → String → Exception
  llm_error : String → Exception
  recursion_error : Exception
  agent_error : Exception

abbrev pub Checked : Type 0 → Type 0
Checked A = Result Exception A
