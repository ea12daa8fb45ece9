-- ===== src/Planner/Accepted.antt =====
-- The plans that `create_plan` of app/orchestration/planner.py returns.
use agentic_google_workspace.Prelude.{
  String, ◌≡◌, refl, true, List, [], ◌∷◌, eq_refl, mem, All, All-map, ok, >>=-eq-ok, arith,
  Bool-cases, inl, inr,
}
use agentic_google_workspace.Json.{Fields}
use agentic_google_workspace.Contracts.{Intent, ExecutionStep, ExecutionPlan, Checked}
use agentic_google_workspace.Contracts.Graph.{step_ids, validate_graph}
use agentic_google_workspace.Contracts.Graph.Valid.{
  IsWellFormed, validate_graph_iff, for_each-All, ReferenceOk,
}
use agentic_google_workspace.Specs.Marker.{accepted-has_marker}
use agentic_google_workspace.Registry.{
  AgentRegistry, validate_plan, validate_step, validate_operation,
}
use agentic_google_workspace.Planner.Requests.{
  Environment, Settings, contextual_services, requests_contextual_retrieval,
}
use agentic_google_workspace.Planner.Arguments.{canonical_arguments}
use agentic_google_workspace.Planner.Canonical.{canonical_arguments-Keeps}
use agentic_google_workspace.Planner.Routing.{
  route_steps, route_from, route_contextual_retrieval, calendar_step_ids, is_calendar_search,
  missing_services, present_services,
}
use agentic_google_workspace.Planner.Reworked.{
  IsIdentifier, HasNoMarker, Reworked, AllReworked, Keeps-Reworked, route-AllReworked,
  step_ids-AllReworked, IsWellFormed-AllReworked,
}
use agentic_google_workspace.Planner.Added.{All-mem, add_searches-IsWellFormed, add_searches-keeps}
use agentic_google_workspace.Planner.{
  PlanModel, constrain_step, constrain_steps, apply_intent_constraints, model_validate, accept_plan,
}

-- The identifiers of the steps that are read are of the form that the schema asks for.
abbrev pub ReadsIdentifiers : PlanModel → Type 0
ReadsIdentifiers model =
    (fields : Fields) (plan : ExecutionPlan)
    → model.read_plan fields ≡ ok plan
    → All IsIdentifier (step_ids plan.steps)

validate_step-HasNoMarker :
    (registry : AgentRegistry) (s : ExecutionStep)
    → validate_step registry s ≡ ok tt
    → HasNoMarker s
unfolding validate_step
validate_step-HasNoMarker registry s h =
    let (u, hu, rest) = >>=-eq-ok (validate_operation registry s.service s.operation) _ h in
    accepted-has_marker registry.iso s.service s.operation s.arguments true rest

validate_plan-HasNoMarker :
    (registry : AgentRegistry) (plan : ExecutionPlan)
    → validate_plan registry plan ≡ ok tt
    → All HasNoMarker plan.steps
validate_plan-HasNoMarker registry plan h =
    All-map _ _ (validate_step-HasNoMarker registry) plan.steps
      (for_each-All _ plan.steps (unfold validate_plan in h))

calendar_step_ids-mem :
    (id : String) (steps : List ExecutionStep)
    → mem id (calendar_step_ids steps) ≡ true
    → mem id (step_ids steps) ≡ true
calendar_step_ids-mem id [] h = h
calendar_step_ids-mem id (s ∷ ss) h = elim (Bool-cases (is_calendar_search s)) [
  | inl is_one ↦ ground (arith, calendar_step_ids-mem id ss)
  | inr other ↦ ground (arith, calendar_step_ids-mem id ss)
]

module _ (environment : Environment) where
  module _ (ss us : List ExecutionStep) (r : AllReworked (step_ids ss) ss us)
      (w : IsWellFormed (record { steps = ss })) where
    route_from-IsWellFormed :
        (query : String) (calendar : List String) (ts : List ExecutionStep)
        → ((id : String) → mem id calendar ≡ true → IsIdentifier id × (mem id (step_ids ss) ≡ true))
        → route_from environment query calendar us ≡ ok ts
        → All HasNoMarker ts
        → IsWellFormed (record { steps = ts })
    route_from-IsWellFormed query [] ts good h lacks =
        let same : us ≡ ts = cc in rw (← same) (IsWellFormed-AllReworked ss us r (rw same lacks) w)
    route_from-IsWellFormed query (calendar ∷ others) ts good h lacks =
        let routed = route_steps (calendar ∷ others) us in
        let (present, hp, added) = >>=-eq-ok (present_services routed) _ h in
        let reworked = route-AllReworked (step_ids ss) (calendar ∷ others) good ss us r in
        let (named, there) = good calendar (rw (eq_refl calendar) refl) in
        let services = missing_services present (contextual_services environment query) in
        add_searches-IsWellFormed environment calendar named services routed ts added
          (rw (step_ids-AllReworked (step_ids ss) ss routed reworked) there)
          (IsWellFormed-AllReworked ss routed reworked
            (add_searches-keeps environment calendar named HasNoMarker services routed ts added
              lacks)
            w)

    route-IsWellFormed :
        (query : String) (ts : List ExecutionStep)
        → All IsIdentifier (step_ids ss)
        → route_contextual_retrieval environment query us ≡ ok ts
        → All HasNoMarker ts
        → IsWellFormed (record { steps = ts })
    unfolding route_contextual_retrieval
    route-IsWellFormed query ts named h lacks =
        elim (Bool-cases (requests_contextual_retrieval environment query)) [
          | inl contextual ↦
              route_from-IsWellFormed query (calendar_step_ids us) ts
                (λ id m.
                  let there : mem id (step_ids ss) ≡ true =
                    rw (step_ids-AllReworked (step_ids ss) ss us r) at
                      (calendar_step_ids-mem id us m) in
                  (All-mem IsIdentifier (step_ids ss) named id there, there))
                (rw contextual at h) lacks
          | inr other ↦
              let same : ◌≡◌ {A = Checked (List ExecutionStep)} (ok us) (ok ts) = rw other at h in
              let equal : us ≡ ts = cc in
              rw (← equal) (IsWellFormed-AllReworked ss us r (rw equal lacks) w)
        ]

  module _ (registry : AgentRegistry) (model : PlanModel) (settings : Settings)
      (intent : Intent) where
    constrain_step-Reworked :
        (known : List String) (s t : ExecutionStep)
        → constrain_step environment registry model settings intent s ≡ ok t
        → Reworked known s t
    constrain_step-Reworked known s t h =
        let (gs, made, k) =
          >>=-eq-ok
            (canonical_arguments environment settings intent s.service s.operation s.arguments) _
            h in
        let same : record s { arguments = gs } ≡ t = cc in
        rw (← same) (
          Keeps-Reworked known s gs (
            canonical_arguments-Keeps environment (ReferenceOk known s) settings intent s.service
              s.operation s.arguments gs made))

    constrain_steps-AllReworked :
        (known : List String) (ss ts : List ExecutionStep)
        → constrain_steps environment registry model settings intent ss ≡ ok ts
        → AllReworked known ss ts
    constrain_steps-AllReworked known [] [] h = tt
    constrain_steps-AllReworked known [] (t ∷ ts) h = cc
    constrain_steps-AllReworked known (s ∷ ss) ts h =
        let (u, hu, k) =
          >>=-eq-ok (constrain_step environment registry model settings intent s) _ h in
        let (us, hus, l) =
          >>=-eq-ok (constrain_steps environment registry model settings intent ss) _ k in
        let same : u ∷ us ≡ ts = cc in
        rw (← same)
          (constrain_step-Reworked known s u hu, constrain_steps-AllReworked known ss us hus)

    -- What the checks of an accepted plan say of it.
    abbrev pub IsValid : ExecutionPlan → Type 0
    IsValid plan = (validate_graph plan ≡ ok tt) × (validate_plan registry plan ≡ ok tt)

    module _ (reads : ReadsIdentifiers model) where
      pub accept_plan-IsValid :
          (fields : Fields) (plan : ExecutionPlan)
          → accept_plan environment registry model settings intent fields ≡ ok plan
          → IsValid plan
      unfolding accept_plan apply_intent_constraints
      accept_plan-IsValid fields plan h =
          let (read, hr, k1) =
            >>=-eq-ok (model_validate environment registry model settings intent fields) _ h in
          let (raw, hraw, g1) = >>=-eq-ok (model.read_plan fields) _ hr in
          let (u, graph, g2) = >>=-eq-ok (validate_graph raw) _ g1 in
          let same_read : raw ≡ read = cc in
          let (applied, ha, k2) =
            >>=-eq-ok (apply_intent_constraints environment registry model settings intent read) _
              k1 in
          let (v, valid, k3) = >>=-eq-ok (validate_plan registry applied) _ k2 in
          let same : applied ≡ plan = cc in
          let (us, hus, l1) =
            >>=-eq-ok (constrain_steps environment registry model settings intent read.steps) _
              ha in
          let (ts, hts, l2) =
            >>=-eq-ok (route_contextual_retrieval environment settings.query us) _ l1 in
          let steps : record { steps = ts } ≡ applied = cc in
          let named = rw same_read at (reads fields raw hraw) in
          let lacks = validate_plan-HasNoMarker registry applied valid in
          let routed =
            route-IsWellFormed read.steps us
              (constrain_steps-AllReworked (step_ids read.steps) read.steps us hus)
              ((validate_graph_iff read).0 (rw same_read at graph)) settings.query ts named hts
              (rw (← steps) at lacks) in
          rw (← same) ((validate_graph_iff applied).1 (rw (← steps) routed), valid)
