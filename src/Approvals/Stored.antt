-- ===== src/Approvals/Stored.antt =====
-- The action of an approval: what the executor stores, and what the endpoint calls.
use agentic_google_workspace.Prelude.{
  ℕ, String, ◌≡◌, refl, false, some, ◌∷◌, eq_iff, ok, err, ◌⊎◌, ap, Option-cases, arith,
  Result-cases, inl, inr,
}
use agentic_google_workspace.Json.{Fields, str, obj, end, field}
use agentic_google_workspace.Contracts.{Service, service_value, Checked, ExecutionStep, AgentResult}
use agentic_google_workspace.Specs.Validate.{validate_operation_arguments}
use agentic_google_workspace.Registry.{
  AgentRegistry, Call, validate_operation, checked_call, call_agent,
}
use agentic_google_workspace.Registry
use agentic_google_workspace.Database.{Rows, ActionApproval, rollback}
use agentic_google_workspace.Executor.{World, Action}
use agentic_google_workspace.Executor.Wave.{proposed_action}
use agentic_google_workspace.Executor.Monad.{pure, write, continue, ◌>>=◌, ◌>>◌}
use agentic_google_workspace.Approvals.{
  StoredAction, parse_action, find_approval, pending_approval, execution_step,
}
use agentic_google_workspace.Approvals.Decide.{
  ApprovalResponse, commit_all, executed_rows, decided_status, read, execute_stored, approve_action,
  finish, request,
}

parse-service :
    (s : Service) (operation : String) (arguments : Fields)
    → parse_action (
        field "service"
          (str (service_value s))
          (field "operation" (str operation) (field "arguments" (obj arguments) end)))
      ≡ ok (record { service = s; operation = operation; arguments = arguments })
parse-service Service.gmail operation arguments = refl
parse-service Service.google_calendar operation arguments = refl
parse-service Service.google_drive operation arguments = refl
parse-service Service.workspace operation arguments = refl

-- The action that the executor stores for a step is read back as the service and the operation
-- of the step, with the arguments as they were resolved.
pub parse_action-proposed_action :
    (step : ExecutionStep) (arguments : Fields)
    → parse_action (proposed_action step (obj arguments))
      ≡ ok (record { service = step.service; operation = step.operation; arguments = arguments })
parse_action-proposed_action step arguments = parse-service step.service step.operation arguments

-- The call of an agent is the action of this approval, which was waiting.
pub record Called (id user_id : ℕ) (rows : Rows) (call : Call) : Type 0 where
  pub approval : ActionApproval
  pub found : find_approval id user_id rows.approvals ≡ some approval
  pub awaiting : approval.status ≡ "awaiting_approval"
  pub stored :
      parse_action approval.proposed_action
      ≡ ok (record {
        service = call.service;
        operation = call.operation;
        arguments = call.arguments;
      })

pending-Called :
    (id user_id : ℕ) (rows : Rows) {a : ActionApproval}
    → pending_approval id user_id rows ≡ ok a
    → (find_approval id user_id rows.approvals ≡ some a) × (a.status ≡ "awaiting_approval")
unfolding pending_approval
pending-Called id user_id rows h = elim (Option-cases (find_approval id user_id rows.approvals)) [
  | inl missing ↦ cc (rw missing at h)
  | inr (b, f) ↦ ground (arith, eq_iff b.status "awaiting_approval")
]

checked-same :
    (registry : AgentRegistry) (a : StoredAction) {call : Call}
    → checked_call registry a.service a.operation (obj a.arguments) ≡ ok call
    → a ≡ record { service = call.service; operation = call.operation; arguments = call.arguments }
unfolding checked_call
checked-same registry a h =
    elim (Result-cases (validate_operation registry a.service a.operation)) [
      | inl (u, p) ↦
          elim (Result-cases
            (validate_operation_arguments registry.iso a.service a.operation a.arguments false)) [
              | inl (v, q) ↦ cc (rw (p, q) at h)
              | inr (e, q) ↦ cc (rw (p, q) at h)
            ]
      | inr (e, p) ↦ cc (rw p at h)
    ]

-- What the call of the action does to the log of calls.
execute_stored-calls :
    (registry : AgentRegistry) (id_text : ℕ → String) (a : StoredAction) (w : World)
    → ((execute_stored registry id_text a w).1.calls ≡ w.calls)
      ⊎ ((call : Call) × (a ≡ record {
        service = call.service;
        operation = call.operation;
        arguments = call.arguments;
      })
          × ((execute_stored registry id_text a w).1.calls ≡ call ∷ w.calls))
unfolding execute_stored Registry.execute
execute_stored-calls registry id_text a w =
    elim (Result-cases (checked_call registry a.service a.operation (obj a.arguments))) [
      | inl (call, p) ↦ inr (call, checked-same registry a p, rw p refl)
      | inr (e, p) ↦ inl (rw p refl)
    ]

module _ (registry : AgentRegistry) (id_text : ℕ → String) (id user_id : ℕ) where
  -- What the endpoint does once the agent has answered.
  abbrev finished : ActionApproval → AgentResult → Action ApprovalResponse
  finished approval result = do
    read (execution_step approval)
    write (executed_rows id_text approval result user_id)
    commit_all
    pure (record {
      approval_id = approval.id;
      status = decided_status result;
      result = some result.content;
    })

  finished-calls :
      (a : ActionApproval) (r : AgentResult) (w : World) → (finished a r w).1.calls ≡ w.calls
  unfolding ◌>>=◌ read commit_all
  finished-calls a r w = elim (Result-cases (execution_step a w.session.current)) [
    | inl (u, p) ↦ rw p refl
    | inr (e, p) ↦ rw p refl
  ]

  continue-calls :
      (a : ActionApproval) (r : Checked AgentResult) (w : World)
      → (continue r (finished a) w).1.calls ≡ w.calls
  continue-calls a (ok r) w = finished-calls a r w
  continue-calls a (err e) w = refl

  finish-calls : {A : Type 0} (r : Checked A) (w : World) → (finish r w).1.calls ≡ w.calls
  finish-calls (ok a) w = refl
  finish-calls (err e) w = refl

  abbrev Reaches : World → World → Type 0
  Reaches w v =
      (v.calls ≡ w.calls)
      ⊎ ((call : Call) × Called id user_id w.session.current call × (v.calls ≡ call ∷ w.calls))

  after-Reaches :
      (a : ActionApproval) (action : StoredAction) (w : World)
      → pending_approval id user_id w.session.current ≡ ok a
      → parse_action a.proposed_action ≡ ok action
      → Reaches w ((execute_stored registry id_text action >>= finished a) w).1
  unfolding ◌>>=◌
  after-Reaches a action w p q =
      let (r, v) = execute_stored registry id_text action w in
      elim (execute_stored-calls registry id_text action w) [
        | inl same ↦ inl (rw (continue-calls a r v) same)
        | inr (call, is_call, called) ↦ inr (
          call,
          record {
            approval = a;
            found = (pending-Called id user_id w.session.current p).0;
            awaiting = (pending-Called id user_id w.session.current p).1;
            stored = rw q (ap ok is_call);
          },
          rw (continue-calls a r v) called,
        )
      ]

  approve-Reaches : (w : World) → Reaches w (approve_action registry id_text id user_id w).1
  unfolding approve_action read ◌>>=◌
  approve-Reaches w = elim (Result-cases (pending_approval id user_id w.session.current)) [
    | inr (e, p) ↦ rw p (inl refl)
    | inl (a, p) ↦ elim (Result-cases (parse_action a.proposed_action)) [
      | inr (e, q) ↦ rw (p, q) (inl refl)
      | inl (action, q) ↦
          elim (Result-cases (validate_operation registry action.service action.operation)) [
            | inr (e, r) ↦ rw (p, q, r) (inl refl)
            | inl (t, r) ↦ rw (p, q, r) (after-Reaches a action w p q)
          ]
    ]
  ]

-- A request to approve calls no agent, or makes one call: that of the action that is stored with
-- the user's approval, which was waiting.
pub approve-calls :
    (registry : AgentRegistry) (id_text : ℕ → String) (id user_id : ℕ) (w : World)
    → let v = (request (approve_action registry id_text id user_id) w).1 in
      (v.calls ≡ w.calls)
      ⊎ ((call : Call) × Called id user_id w.session.committed call × (v.calls ≡ call ∷ w.calls))
unfolding request
approve-calls registry id_text id user_id w =
    let m = approve_action registry id_text id user_id in
    let start = record w { session = rollback w.session } in
    elim (approve-Reaches registry id_text id user_id start) [
      | inl same ↦ inl (rw (finish-calls registry id_text id user_id (m start).0 (m start).1) same)
      | inr (call, c, called) ↦
          inr
            (call, c, rw (finish-calls registry id_text id user_id (m start).0 (m start).1) called)
    ]
