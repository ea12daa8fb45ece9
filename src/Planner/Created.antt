-- ===== src/Planner/Created.antt =====
-- The two attempts of `create_plan` in app/orchestration/planner.py, and the run of the plan they give.
use agentic_google_workspace.Prelude.{
  ℕ, String, ◌≡◌, refl, ◌⊎◌, Bool, true, false, ok, err, >>=-eq-ok, Bool-cases, inl, inr,
  Result-cases,
}
use agentic_google_workspace.Contracts.{Intent, ExecutionPlan, Exception, llm_error, Checked}
use agentic_google_workspace.Contracts.Graph.{step_ids}
use agentic_google_workspace.Registry.{AgentRegistry}
use agentic_google_workspace.Executor.{Executor, World, ExecutionOutcome}
use agentic_google_workspace.Executor.Run.{execute}
use agentic_google_workspace.Executor.Completes.{result_ids, execute-returns}
use agentic_google_workspace.Planner.Requests.{Environment, Settings}
use agentic_google_workspace.Planner.{
  PlanModel, is_value_error, ask, accept_plan, last_attempt, repair_plan, first_attempt,
  create_plan,
}
use agentic_google_workspace.Planner.Accepted.{ReadsIdentifiers, IsValid, accept_plan-IsValid}

module _ (environment : Environment) (registry : AgentRegistry) (model : PlanModel)
    (settings : Settings) (intent : Intent) where
  -- The exception was raised where a request was made: there is no such time zone, or the language model
  -- raised it at that local time, at the first attempt or at the second.
  abbrev pub IsRequestError : Exception → Type 0
  IsRequestError e =
      (environment.local_text settings.timezone_name settings.reference_time ≡ err e)
      ⊎ ((again : Bool) × (local_time : String) × (environment.local_text settings.timezone_name
              settings.reference_time
            ≡ ok local_time)
          × (model.generate again local_time settings intent ≡ err e))

  ask-err :
      (again : Bool) (e : Exception)
      → ask environment registry model settings intent again ≡ err e
      → IsRequestError e
  ask-err again e h =
      elim (Result-cases (environment.local_text settings.timezone_name settings.reference_time)) [
        | inl (text, zoned) ↦ inr (again, text, zoned, rw zoned at h)
        | inr (f, raised) ↦ let same : f ≡ e = cc (rw raised at h) in inl (rw (← same) raised)
      ]

  abbrev last : Checked ExecutionPlan → Checked ExecutionPlan
  last = last_attempt environment registry model settings intent

  last_attempt-ok :
      (r : Checked ExecutionPlan) (plan : ExecutionPlan) → last r ≡ ok plan → r ≡ ok plan
  last_attempt-ok (ok p) plan h = h
  last_attempt-ok (err e) plan h = elim (Bool-cases (is_value_error e)) [
    | inl caught ↦ cc (rw caught at h)
    | inr other ↦ cc (rw other at h)
  ]

  last_attempt-err :
      (r : Checked ExecutionPlan) (e : Exception) → last r ≡ err e → is_value_error e ≡ false
  last_attempt-err (ok p) e h = cc
  last_attempt-err (err f) e h = elim (Bool-cases (is_value_error f)) [
    | inl caught ↦
        let same : llm_error "Planner returned an invalid execution plan" ≡ e =
          cc (rw caught at h) in
        rw (← same) refl
    | inr other ↦ let same : f ≡ e = cc (rw other at h) in rw (← same) other
  ]

  first_attempt-ok :
      (r : Checked ExecutionPlan) (plan : ExecutionPlan)
      → first_attempt environment registry model settings intent r ≡ ok plan
      → (r ≡ ok plan) ⊎ (repair_plan environment registry model settings intent ≡ ok plan)
  first_attempt-ok (ok p) plan h = inl h
  first_attempt-ok (err e) plan h = elim (Bool-cases (is_value_error e)) [
    | inl caught ↦ inr (rw caught at h)
    | inr other ↦ cc (rw other at h)
  ]

  repair_plan-err :
      (e : Exception)
      → repair_plan environment registry model settings intent ≡ err e
      → is_value_error e ≡ true
      → IsRequestError e
  unfolding repair_plan
  repair_plan-err e h is_value =
      elim (Result-cases (ask environment registry model settings intent true)) [
        | inl (fields, given) ↦
            let no_value =
              last_attempt-err (accept_plan environment registry model settings intent fields) e
                (rw given at h) in
            absurd (cc)
        | inr (f, raised) ↦
            let same : f ≡ e = cc (rw raised at h) in ask-err true e (rw (← same) raised)
      ]

  first_attempt-err :
      (r : Checked ExecutionPlan) (e : Exception)
      → first_attempt environment registry model settings intent r ≡ err e
      → is_value_error e ≡ true
      → IsRequestError e
  first_attempt-err (ok p) e h is_value = cc
  first_attempt-err (err f) e h is_value = elim (Bool-cases (is_value_error f)) [
    | inl caught ↦ repair_plan-err e (rw caught at h) is_value
    | inr other ↦ cc (rw other at h)
  ]

  -- A plan that fails its checks does not make `create_plan` raise a value error, the first time or the
  -- second: each value error that it raises was raised where a request was made, by the reader of the time
  -- zone or by the language model.
  pub create_plan-err :
      (e : Exception)
      → create_plan environment registry model settings intent ≡ err e
      → is_value_error e ≡ true
      → IsRequestError e
  unfolding create_plan
  create_plan-err e h is_value =
      elim (Result-cases (ask environment registry model settings intent false)) [
        | inl (fields, given) ↦
            first_attempt-err (accept_plan environment registry model settings intent fields) e
              (rw given at h) is_value
        | inr (f, raised) ↦
            let same : f ≡ e = cc (rw raised at h) in ask-err false e (rw (← same) raised)
      ]

  module _ (reads : ReadsIdentifiers model) where
    repair_plan-IsValid :
        (plan : ExecutionPlan)
        → repair_plan environment registry model settings intent ≡ ok plan
        → IsValid environment registry model settings intent plan
    unfolding repair_plan
    repair_plan-IsValid plan h =
        let (fields, hf, k) = >>=-eq-ok (ask environment registry model settings intent true) _ h in
        accept_plan-IsValid environment registry model settings intent reads fields plan
          (last_attempt-ok (accept_plan environment registry model settings intent fields) plan k)

    -- Where the identifiers of the plans that are read have the form that the schema asks for, every
    -- plan that `create_plan` returns, at the first attempt or at the second, passes the check of its
    -- graph and the check of its operations, after all that was changed in it and added to it.
    pub create_plan-IsValid :
        (plan : ExecutionPlan)
        → create_plan environment registry model settings intent ≡ ok plan
        → IsValid environment registry model settings intent plan
    unfolding create_plan
    create_plan-IsValid plan h =
        let (fields, hf, k) =
          >>=-eq-ok (ask environment registry model settings intent false) _ h in
        elim (first_attempt-ok (accept_plan environment registry model settings intent fields) plan
          k) [
            | inl at_once ↦
                accept_plan-IsValid environment registry model settings intent reads fields plan
                  at_once
            | inr repaired ↦ repair_plan-IsValid plan repaired
          ]

-- Where the identifiers of the plans that are read have the form that the schema asks for, a plan that
-- `create_plan` returns is run by the executor of the same registry to an outcome with one result for
-- each step, in the plan's order, whatever the agents do.
pub create_plan-execute :
    (x : Executor) (environment : Environment) (model : PlanModel) (settings : Settings)
    (intent : Intent)
    → ReadsIdentifiers model
    → (plan : ExecutionPlan) → create_plan environment x.registry model settings intent ≡ ok plan
    → (u c : ℕ) (w : World)
    → (outcome : ExecutionOutcome) × ((execute x u c intent plan w).0 ≡ ok outcome)
      × (result_ids outcome.results ≡ step_ids plan.steps)
create_plan-execute x environment model settings intent reads plan h u c w =
    let (graph, valid) =
      create_plan-IsValid environment x.registry model settings intent reads plan h in
    execute-returns x u c intent plan w graph valid
