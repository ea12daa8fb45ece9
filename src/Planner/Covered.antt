-- ===== src/Planner/Covered.antt =====
-- The services that a plan searches after `_route_contextual_retrieval` of app/orchestration/planner.py.
use mathlib.Core.List.{append-nil, append_assoc}
use agentic_google_workspace.Prelude.{
  String, ◌≡◌, refl, Bool, true, false, ◌||◌, List, [], ◌∷◌, ◌++◌, eq_iff, mem, mem-append, ok,
  ◌>>=◌, >>=-eq-ok, arith, Bool-cases, inl, inr,
}
use agentic_google_workspace.Json.{get_or, arr, nil}
use agentic_google_workspace.Contracts.{ExecutionStep}
use agentic_google_workspace.Contracts.Graph.{step_ids}
use agentic_google_workspace.Planner.Requests.{
  Environment, requests_contextual_retrieval, contextual_services,
}
use agentic_google_workspace.Planner.Routing.{
  calendar_step_ids, present_services, missing_services, new_step, step_id_for, add_searches,
  route_steps, route_from, route_contextual_retrieval, is_workspace_search, iterated,
}

-- The workspace searches of the steps name all of these services.
pub record Covers (services : List String) (steps : List ExecutionStep) : Type 0 where
  pub found : List String
  pub reads : present_services steps ≡ ok found
  pub covered : (service : String) → mem service services ≡ true → mem service found ≡ true

add_one :
    (calendar id service : String) (ss : List ExecutionStep) (found : List String)
    → present_services ss ≡ ok found
    → present_services (ss ++ new_step calendar id service ∷ []) ≡ ok (found ++ service ∷ [])
add_one calendar id service [] found h = let same : [] ≡ found = cc in rw (← same) refl
add_one calendar id service (s ∷ ss) found h = elim (Bool-cases (is_workspace_search s)) [
  | inl is_one ↦
      let (xs, hx, k) =
        >>=-eq-ok (iterated (get_or "services" s.arguments (arr nil)))
          (λ xs. present_services ss >>= λ ys. ok (xs ++ ys)) (rw is_one at h) in
      let (ys, hy, l) = >>=-eq-ok (present_services ss) (λ ys. ok (xs ++ ys)) k in
      let same : xs ++ ys ≡ found = cc in
      rw
        (
          is_one,
          hx,
          add_one calendar id service ss ys hy,
          ← same,
          append_assoc xs ys (service ∷ []),
        )
        refl
  | inr other ↦ rw (other, add_one calendar id service ss found (rw other at h)) refl
]

add_searches-present :
    (environment : Environment) (calendar : String) (services : List String)
    (ss ts : List ExecutionStep) (found : List String)
    → add_searches environment calendar services ss ≡ ok ts
    → present_services ss ≡ ok found
    → present_services ts ≡ ok (found ++ services)
add_searches-present environment calendar [] ss ts found h k =
    let same : ss ≡ ts = cc in rw (← same, append-nil found) k
add_searches-present environment calendar (service ∷ services) ss ts found h k =
    let (id, chosen, rest) = >>=-eq-ok (step_id_for environment service (step_ids ss)) _ h in
    let added = ss ++ new_step calendar id service ∷ [] in
    let after =
      add_searches-present environment calendar services added ts (found ++ service ∷ []) rest
        (add_one calendar id service ss found k) in
    rw (append_assoc found (service ∷ []) services) at after

found_or_missing :
    (found services : List String) (service : String)
    → mem service services ≡ true
    → (mem service found || mem service (missing_services found services)) ≡ true
found_or_missing found [] service h = cc
found_or_missing found (s ∷ services) service h =
    ground (arith, eq_iff s service, found_or_missing found services service)

missing_services-mem :
    (found services : List String) (service : String)
    → mem service services ≡ true
    → mem service (found ++ missing_services found services) ≡ true
missing_services-mem found services service h =
    rw (mem-append service found (missing_services found services))
      (found_or_missing found services service h)

abbrev pub is_empty : List String → Bool
is_empty [] = true
is_empty (x ∷ xs) = false

route_from-Covers :
    (environment : Environment) (query : String) (calendar : List String)
    (steps routed : List ExecutionStep)
    → is_empty calendar ≡ false
    → route_from environment query calendar steps ≡ ok routed
    → Covers (contextual_services environment query) routed
route_from-Covers environment query [] steps routed h k = cc
route_from-Covers environment query (calendar ∷ others) steps routed h k =
    let rerouted = route_steps (calendar ∷ others) steps in
    let services = contextual_services environment query in
    let (found, hf, added) = >>=-eq-ok (present_services rerouted) _ k in
    let missing = missing_services found services in
    record {
      found = found ++ missing;
      reads = add_searches-present environment calendar missing rerouted routed found added hf;
      covered = missing_services-mem found services;
    }

-- Where a request asks for what is related to a meeting, a step of the plan searches the calendar, and the
-- routing returns,
-- the workspace searches of the plan that comes back name each of the services that are wanted.
pub route_contextual_retrieval-Covers :
    (environment : Environment) (query : String) (steps routed : List ExecutionStep)
    → requests_contextual_retrieval environment query ≡ true
    → is_empty (calendar_step_ids steps) ≡ false
    → route_contextual_retrieval environment query steps ≡ ok routed
    → Covers (contextual_services environment query) routed
unfolding route_contextual_retrieval
route_contextual_retrieval-Covers environment query steps routed contextual calendar h =
    route_from-Covers environment query (calendar_step_ids steps) steps routed calendar
      (rw contextual at h)
