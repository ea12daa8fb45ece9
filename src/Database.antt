-- ===== src/Database.antt =====
-- The rows of app/db/models.py that the executor and the approvals write, and a session over them.
use agentic_google_workspace.Prelude.{
  nat_eq, if◌then◌else◌, [], ◌∷◌, ℕ, String, Option, none, some, List,
}
use agentic_google_workspace.Json.{Json, Fields, str, obj, end, field}
use agentic_google_workspace.Contracts.{Service, ExecutionStatus, ErrorInfo, Intent, ExecutionPlan}

-- `status.value`
abbrev pub status_value : ExecutionStatus → String
status_value ExecutionStatus.pending = "pending"
status_value ExecutionStatus.running = "running"
status_value ExecutionStatus.completed = "completed"
status_value ExecutionStatus.failed = "failed"
status_value ExecutionStatus.skipped = "skipped"
status_value ExecutionStatus.awaiting_approval = "awaiting_approval"

pub record Execution : Type 0 where
  pub id : ℕ
  pub user_id : ℕ
  pub conversation_id : ℕ
  pub status : String
  pub intent : Intent
  pub execution_plan : ExecutionPlan

-- `error.model_dump(mode="json") if error else None`
abbrev pub dump_error : Option ErrorInfo → Option Fields
dump_error none = none
dump_error (some e) = some (
    field "code" (str e.error_code)
      (field "message" (str e.message) (field "details" (obj e.details) end)))

-- The class `ExecutionStep` of app/db/models.py, without the bounds of its columns: the table refuses a
-- `step_id` of more than 128 characters, here and in an approval.
pub record StepRecord : Type 0 where
  pub execution_id : ℕ
  pub step_id : String
  pub service : Service
  pub operation : String
  pub status : String
  pub arguments : Json
  pub result : Fields
  pub error_details : Option Fields

pub record ActionApproval : Type 0 where
  pub id : ℕ
  pub execution_id : ℕ
  pub step_id : String
  pub user_id : ℕ
  pub status : String
  pub proposed_action : Fields

pub record AuditLog : Type 0 where
  pub user_id : ℕ
  pub execution_id : ℕ
  pub action : String
  pub details : Fields

pub record Rows : Type 0 where
  pub next_id : ℕ
  pub executions : List Execution
  pub steps : List StepRecord
  pub approvals : List ActionApproval
  pub audit_logs : List AuditLog

-- What the transaction has written, and what is committed.
pub record Session : Type 0 where
  pub current : Rows
  pub committed : Rows

abbrev pub commit : Session → Session
commit s = record s { committed = s.current }

abbrev pub rollback : Session → Session
rollback s = record s { current = s.committed }

-- `execution.status = status` on the row with this identifier.
abbrev pub set_status : ℕ → String → List Execution → List Execution
set_status id status [] = []
set_status id status (e ∷ es) =
    if nat_eq e.id id then record e { status = status } ∷ es else e ∷ set_status id status es
