-- ===== src/Approvals/Decide.antt =====
-- The two endpoints of app/api/routes/approvals.py.
use agentic_google_workspace.Prelude.{
  ℕ, String, Option, none, some, [], ◌∷◌, ◌++◌, if◌then◌else◌, ok, err,
}
use agentic_google_workspace.Json.{Fields, str, obj, end, field}
use agentic_google_workspace.Contracts.{
  ExecutionStatus, status_eq, AgentResult, http_error, Checked,
}
use agentic_google_workspace.Registry.{AgentRegistry, validate_operation}
use agentic_google_workspace.Registry
use agentic_google_workspace.Database.{
  dump_error, set_status, Rows, ActionApproval, commit, rollback, status_value,
}
use agentic_google_workspace.Executor.{World, Action}
use agentic_google_workspace.Executor.Monad.{pure, lift, write, ◌>>=◌, ◌>>◌}
use agentic_google_workspace.Approvals.{
  StoredAction, parse_action, invalid_action, pending_approval, execution_step, update_step,
  set_approval, refresh_execution_status,
}

pub record ApprovalResponse : Type 0 where
  pub approval_id : ℕ
  pub status : String
  pub result : Option Fields

-- Reads the rows as the transaction sees them.
unfoldable pub read : {A : Type 0} → (Rows → Checked A) → Action A
read f w = (f w.session.current, w)

unfoldable pub commit_all : Action (Unit {0})
commit_all w = (ok tt, record w { session = commit w.session })

abbrev pub bad_gateway : Checked AgentResult → Checked AgentResult
bad_gateway (ok r) = ok r
bad_gateway (err e) = err (http_error 502 "The approved action could not be executed")

-- The status of an approval whose action was executed.
abbrev pub decided_status : AgentResult → String
decided_status r = if status_eq r.status ExecutionStatus.completed then "approved" else "failed"

abbrev pub executed_rows : (ℕ → String) → ActionApproval → AgentResult → ℕ → Rows → Rows
executed_rows id_text a r user_id rows = refresh_execution_status a.execution_id (record rows {
  steps =
      update_step a
        (λ s. record s {
          status = status_value r.status;
          result = r.content;
          error_details = dump_error r.error;
        })
        rows.steps;
  approvals = set_approval a (decided_status r) rows.approvals;
  audit_logs =
      rows.audit_logs
      ++ record {
        user_id = user_id;
        execution_id = a.execution_id;
        action = "action_approval_executed";
        details =
            field "approval_id" (str (id_text a.id))
              (field "step_id" (str a.step_id) (field "status" (str (decided_status r)) end));
      }
        ∷ [];
})

abbrev pub rejected_error : Option Fields
rejected_error = some (
    field "code" (str "approval_rejected")
      (field "message" (str "The user rejected this action") end))

abbrev pub rejected_rows : (ℕ → String) → ActionApproval → ℕ → Rows → Rows
rejected_rows id_text a user_id rows = record rows {
  steps =
      update_step a
        (λ s. record s {
          status = status_value ExecutionStatus.skipped;
          error_details = rejected_error;
        })
        rows.steps;
  approvals = set_approval a "rejected" rows.approvals;
  executions = set_status a.execution_id (status_value ExecutionStatus.failed) rows.executions;
  audit_logs =
      rows.audit_logs
      ++ record {
        user_id = user_id;
        execution_id = a.execution_id;
        action = "action_approval_rejected";
        details = field "approval_id" (str (id_text a.id)) (field "step_id" (str a.step_id) end);
      }
        ∷ [];
}

module _ (registry : AgentRegistry) (id_text : ℕ → String) where
  -- `registry.execute` in the handler, which logs the call and turns an exception into a 502.
  unfoldable pub execute_stored : StoredAction → Action AgentResult
  execute_stored a w =
      let (answer, calls) =
        Registry.execute registry a.service a.operation (obj a.arguments) w.calls in
      (bad_gateway answer, record w { calls = calls })

  unfoldable pub approve_action : ℕ → ℕ → Action ApprovalResponse
  approve_action approval_id user_id = do
    approval ← read (pending_approval approval_id user_id)
    action ← lift (invalid_action (parse_action approval.proposed_action))
    lift (validate_operation registry action.service action.operation)
    result ← execute_stored action
    read (execution_step approval)
    write (executed_rows id_text approval result user_id)
    commit_all
    pure (record {
      approval_id = approval.id;
      status = decided_status result;
      result = some result.content;
    })

  unfoldable pub reject_action : ℕ → ℕ → Action ApprovalResponse
  reject_action approval_id user_id = do
    approval ← read (pending_approval approval_id user_id)
    read (execution_step approval)
    write (rejected_rows id_text approval user_id)
    commit_all
    pure (record { approval_id = approval.id; status = "rejected"; result = none })

-- A request has a session of its own, which is rolled back if the endpoint raises.
abbrev pub finish : {A : Type 0} → Checked A → World → Checked A × World
finish (ok a) w = (ok a, w)
finish (err e) w = (err e, record w { session = rollback w.session })

unfoldable pub request : {A : Type 0} → Action A → Action A
request m w = let (r, v) = m (record w { session = rollback w.session }) in finish r v
