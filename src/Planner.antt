-- ===== src/Planner.antt =====
-- app/orchestration/planner.py: a plan is asked of the language model, brought in line with the intent,
-- and checked; a plan that fails is asked for once more.
pub mod Requests
pub mod Arguments
pub mod Routing
mod References
mod Events
mod Canonical
mod Reworked
mod Added
mod Accepted
pub mod Created
mod Covered
mod Named
mod Tests
use agentic_google_workspace.Prelude.{
  ℕ, String, Bool, true, false, Option, none, some, List, [], ◌∷◌, ok, err, ◌>>=◌, ◌>>◌,
}
use agentic_google_workspace.Prelude.Int.{ℤ}
use agentic_google_workspace.Json.{Fields}
use agentic_google_workspace.Contracts.{
  Intent, ExecutionStep, ExecutionPlan, Exception, value_error, unknown_operation, llm_error,
  reference_error, Checked,
}
use agentic_google_workspace.Contracts.Graph.{validate_graph}
use agentic_google_workspace.Specs.Values.{Moment, aware, naive}
use agentic_google_workspace.Registry.{AgentRegistry, validate_plan}
use agentic_google_workspace.Planner.Requests.{Environment, Settings}
use agentic_google_workspace.Planner.Arguments.{canonical_arguments}
use agentic_google_workspace.Planner.Routing.{route_contextual_retrieval}

-- The language model, which is told whether this is the second attempt and the local time of the request,
-- and the reader of the fields of a plan, which `ExecutionPlan.model_validate` calls before
-- `validate_graph`.
pub record PlanModel : Type 0 where
  pub generate : Bool → String → Settings → Intent → Checked Fields
  pub read_plan : Fields → Checked ExecutionPlan

-- The reference time as microseconds of UTC: a time without a zone is taken as UTC.
abbrev pub reference_of : ℤ → Option Moment → ℤ
reference_of now none = now
reference_of now (some (aware t)) = t
reference_of now (some (naive t)) = t

-- `except (ValidationError, ValueError)`, with the classes that are derived from `ValueError`
abbrev pub is_value_error : Exception → Bool
is_value_error (value_error m) = true
is_value_error (unknown_operation s o) = true
is_value_error (reference_error c s p) = true
is_value_error _ = false

module _ (environment : Environment) (registry : AgentRegistry) (model : PlanModel) where
  module _ (settings : Settings) (intent : Intent) where
    abbrev pub constrain_step : ExecutionStep → Checked ExecutionStep
    constrain_step step =
        canonical_arguments environment settings intent step.service step.operation step.arguments
        >>= λ arguments. ok (record step { arguments = arguments })

    abbrev pub constrain_steps : List ExecutionStep → Checked (List ExecutionStep)
    constrain_steps [] = ok []
    constrain_steps (step ∷ steps) = do
      first ← constrain_step step
      rest ← constrain_steps steps
      ok (first ∷ rest)

    -- `_apply_intent_constraints`
    unfoldable pub apply_intent_constraints : ExecutionPlan → Checked ExecutionPlan
    apply_intent_constraints plan = do
      constrained ← constrain_steps plan.steps
      routed ← route_contextual_retrieval environment settings.query constrained
      ok (record { steps = routed })

    -- `ExecutionPlan.model_validate(result)`
    abbrev pub model_validate : Fields → Checked ExecutionPlan
    model_validate fields = do plan ← model.read_plan fields; validate_graph plan; ok plan

    -- The `try` block.
    unfoldable pub accept_plan : Fields → Checked ExecutionPlan
    accept_plan fields = do
      read ← model_validate fields
      plan ← apply_intent_constraints read
      validate_plan registry plan
      ok plan

    abbrev pub invalid_plan : Exception → Bool → Checked ExecutionPlan
    invalid_plan e true = err (llm_error "Planner returned an invalid execution plan")
    invalid_plan e false = err e

    -- The last attempt: a plan that fails its checks is an error of the model.
    abbrev pub last_attempt : Checked ExecutionPlan → Checked ExecutionPlan
    last_attempt (ok plan) = ok plan
    last_attempt (err e) = invalid_plan e (is_value_error e)

    -- The request of an attempt: the reference time in the zone of the user, which raises where there is no
    -- such zone, and the answer of the language model. Both are outside the `try` block.
    abbrev pub ask : Bool → Checked Fields
    ask again = do
      local_time ← environment.local_text settings.timezone_name settings.reference_time
      model.generate again local_time settings intent

    unfoldable pub repair_plan : Checked ExecutionPlan
    repair_plan = ask true >>= λ fields. last_attempt (accept_plan fields)

    abbrev pub retry : Exception → Bool → Checked ExecutionPlan
    retry e true = repair_plan
    retry e false = err e

    abbrev pub first_attempt : Checked ExecutionPlan → Checked ExecutionPlan
    first_attempt (ok plan) = ok plan
    first_attempt (err e) = retry e (is_value_error e)

    unfoldable pub create_plan : Checked ExecutionPlan
    create_plan = ask false >>= λ fields. first_attempt (accept_plan fields)
