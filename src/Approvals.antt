-- ===== src/Approvals.antt =====
-- app/api/routes/approvals.py: the user's decision on a waiting action.
pub mod Decide
pub mod Laws
pub mod Once
pub mod Stored
mod Tests
use agentic_google_workspace.Prelude.{
  ℕ, String, Bool, true, false, ◌&&◌, Option, none, some, List, [], ◌∷◌, ◌==◌, if◌then◌else◌,
  nat_eq, mem, ok, err, ◌>>=◌, ◌>>◌, guard,
}
use agentic_google_workspace.Json.{Json, Fields, null, str, obj, get, end, field}
use agentic_google_workspace.Contracts.{
  Service, ExecutionStatus, ErrorInfo, Exception, key_error, value_error, type_error, http_error,
  Checked,
}
use agentic_google_workspace.Database.{
  set_status, Rows, Execution, StepRecord, ActionApproval, AuditLog, status_value,
}

-- `Service(value)`
abbrev pub service_of : Json → Checked Service
service_of (str s) =
    if s == "gmail"
    then ok Service.gmail
    else if s == "google_calendar"
    then ok Service.google_calendar
    else if s == "google_drive"
    then ok Service.google_drive
    else if s == "workspace"
    then ok Service.workspace
    else err (value_error "not a valid Service")
service_of _ = err (value_error "not a valid Service")

-- `action[key]`
abbrev pub item : String → Fields → Checked Json
item key action = elim (get key action) [ none ↦ err (key_error key) | some v ↦ ok v ]

pub record StoredAction : Type 0 where
  pub service : Service
  pub operation : String
  pub arguments : Fields

abbrev pub stored : Service → Json → Json → Checked StoredAction
stored service (str operation) (obj arguments) =
    ok (record { service = service; operation = operation; arguments = arguments })
stored service _ _ = err (value_error "")

-- The `try` block over `approval.proposed_action`, with its handler.
abbrev pub parse_action : Fields → Checked StoredAction
parse_action action = do
  value ← item "service" action
  service ← service_of value
  operation ← item "operation" action
  arguments ← item "arguments" action
  stored service operation arguments

abbrev pub invalid_action : Checked StoredAction → Checked StoredAction
invalid_action (ok a) = ok a
invalid_action (err e) = err (http_error 409 "Stored action is invalid")

-- The first row that the query of `_pending_approval` selects.
abbrev pub find_approval : ℕ → ℕ → List ActionApproval → Option ActionApproval
find_approval id user_id [] = none
find_approval id user_id (a ∷ as_) =
    if nat_eq a.id id && nat_eq a.user_id user_id then some a else find_approval id user_id as_

abbrev check_pending : Option ActionApproval → Checked ActionApproval
check_pending none = err (http_error 404 "Approval not found")
check_pending (some a) =
    if a.status == status_value ExecutionStatus.awaiting_approval
    then ok a
    else err (http_error 409 "Approval is no longer pending")

-- `_pending_approval`
unfoldable pub pending_approval : ℕ → ℕ → Rows → Checked ActionApproval
pending_approval id user_id rows = check_pending (find_approval id user_id rows.approvals)

abbrev pub is_step_of : ActionApproval → StepRecord → Bool
is_step_of a s = nat_eq s.execution_id a.execution_id && s.step_id == a.step_id

abbrev pub has_step : ActionApproval → List StepRecord → Bool
has_step a [] = false
has_step a (s ∷ ss) = if is_step_of a s then true else has_step a ss

-- `_execution_step`: whether there is a row, which is then changed in place.
unfoldable pub execution_step : ActionApproval → Rows → Checked (Unit {0})
execution_step a rows = guard (has_step a rows.steps) (http_error 409 "Approval step not found")

abbrev pub update_step :
    ActionApproval → (StepRecord → StepRecord) → List StepRecord → List StepRecord
update_step a f [] = []
update_step a f (s ∷ ss) = if is_step_of a s then f s ∷ ss else s ∷ update_step a f ss

-- `approval.status = status` on the row that was found.
abbrev pub set_approval : ActionApproval → String → List ActionApproval → List ActionApproval
set_approval a status [] = []
set_approval a status (b ∷ bs) =
    if nat_eq b.id a.id && nat_eq b.user_id a.user_id
    then record b { status = status } ∷ bs
    else b ∷ set_approval a status bs

-- The statuses of the steps of an execution.
abbrev pub statuses : ℕ → List StepRecord → List String
statuses id [] = []
statuses id (s ∷ ss) =
    if nat_eq s.execution_id id then s.status ∷ statuses id ss else statuses id ss

abbrev pub status_of : List String → ExecutionStatus
status_of found =
    if mem "failed" found
    then ExecutionStatus.failed
    else if mem "awaiting_approval" found
    then ExecutionStatus.awaiting_approval
    else ExecutionStatus.completed

-- `_refresh_execution_status`: where there is no such row, nothing is set.
unfoldable pub refresh_execution_status : ℕ → Rows → Rows
refresh_execution_status id rows = record rows {
  executions = set_status id (status_value (status_of (statuses id rows.steps))) rows.executions;
}
