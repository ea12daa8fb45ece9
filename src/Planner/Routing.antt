-- ===== src/Planner/Routing.antt =====
-- `_route_contextual_retrieval` of app/orchestration/planner.py.
use Prim.Native.String.{◌++◌ as ◌+++◌}
use agentic_google_workspace.Prelude.{
  ℕ, zero, suc, String, Bool, false, Option, none, some, List, [], ◌∷◌, ◌++◌, ◌==◌, if◌then◌else◌,
  mem, length, ok, err, ◌>>=◌,
}
use agentic_google_workspace.Prelude.Int.{pos}
use agentic_google_workspace.Json.{
  Json, Fields, int, str, arr, obj, nil, cons, end, field, get_or, items, names,
}
use agentic_google_workspace.Contracts.{
  Service, service_eq, ExecutionStep, type_error, recursion_error, Checked,
}
use agentic_google_workspace.Contracts.Graph.{step_ids}
use agentic_google_workspace.Planner.Requests.{
  Environment, requests_contextual_retrieval, contextual_services,
}

abbrev pub is_calendar_search : ExecutionStep → Bool
is_calendar_search step =
    if service_eq step.service Service.google_calendar
    then step.operation == "search_events"
    else false

abbrev pub calendar_step_ids : List ExecutionStep → List String
calendar_step_ids [] = []
calendar_step_ids (s ∷ ss) =
    let rest = calendar_step_ids ss in if is_calendar_search s then s.step_id ∷ rest else rest

-- The service whose native search can be replaced.
abbrev pub target_service : Service → String → Option String
target_service Service.gmail operation = if operation == "search_emails" then some "gmail" else none
target_service Service.google_drive operation =
    if operation == "search_files" then some "google_drive" else none
target_service _ operation = none

-- `next((d for d in depends_on if d in calendar_steps), None)`
abbrev pub calendar_dependency : List String → List String → Option String
calendar_dependency calendar [] = none
calendar_dependency calendar (d ∷ ds) =
    if mem d calendar then some d else calendar_dependency calendar ds

abbrev pub first_event : String → Json
first_event id =
    obj (
      field "$step" (str id)
        (field "path" (arr (cons (str "events") (cons (int (pos 0)) nil))) end))

abbrev pub contextual_arguments : String → String → Fields
contextual_arguments id service =
    field "query" (first_event id)
      (field "services" (arr (cons (str service) nil)) (field "top_k" (int (pos 5)) end))

abbrev pub reroute : ExecutionStep → Option String → Option String → ExecutionStep
reroute step (some service) (some id) = record step {
  service = Service.workspace;
  operation = "workspace_search";
  arguments = contextual_arguments id service;
}
reroute step _ _ = step

abbrev pub route_steps : List String → List ExecutionStep → List ExecutionStep
route_steps calendar [] = []
route_steps calendar (s ∷ ss) =
    reroute s (target_service s.service s.operation) (calendar_dependency calendar s.depends_on)
    ∷ route_steps calendar ss

abbrev texts : List Json → List String
texts [] = []
texts (str s ∷ xs) = s ∷ texts xs
texts (_ ∷ xs) = texts xs

abbrev characters : String → List String
characters String.[] = []
characters (String.◌∷◌ c s) = String.◌∷◌ c String.[] ∷ characters s

-- `for service in value if isinstance(service, str)`
abbrev pub iterated : Json → Checked (List String)
iterated (arr xs) = ok (texts (items xs))
iterated (obj fs) = ok (names fs)
iterated (str s) = ok (characters s)
iterated _ = err type_error

abbrev pub is_workspace_search : ExecutionStep → Bool
is_workspace_search step =
    if service_eq step.service Service.workspace
    then step.operation == "workspace_search"
    else false

abbrev pub present_services : List ExecutionStep → Checked (List String)
present_services [] = ok []
present_services (s ∷ ss) =
    let rest = present_services ss in
    if is_workspace_search s
    then (iterated (get_or "services" s.arguments (arr nil)) >>= λ xs.
        (rest >>= λ ys. ok (xs ++ ys)))
    else rest

-- `sorted(desired - present)`, where the desired ones are sorted
abbrev pub missing_services : List String → List String → List String
missing_services present [] = []
missing_services present (s ∷ ss) =
    let rest = missing_services present ss in if mem s present then rest else s ∷ rest

abbrev pub new_step : String → String → String → ExecutionStep
new_step calendar step_id service = record {
  step_id = step_id;
  service = Service.workspace;
  operation = "workspace_search";
  arguments = contextual_arguments calendar service;
  depends_on = calendar ∷ [];
}

module _ (environment : Environment) where
  -- `f"{base_id}_{suffix}"`
  abbrev pub numbered : String → ℕ → String
  numbered base suffix = base +++ ("_" +++ environment.number suffix)

  -- `while step_id in used_ids`
  unfoldable pub fresh_id : ℕ → String → List String → ℕ → String → Checked String
  fresh_id zero base used suffix id = if mem id used then err recursion_error else ok id
  fresh_id (suc fuel) base used suffix id =
      let next = fresh_id fuel base used (suc suffix) (numbered base suffix) in
      if mem id used then next else ok id

  -- The names tried differ, so one more than there are names in use is enough.
  abbrev pub step_id_for : String → List String → Checked String
  step_id_for service used =
      let base = "workspace_" +++ service in fresh_id (length used) base used 2 base

  abbrev pub add_searches : String → List String → List ExecutionStep → Checked (List ExecutionStep)
  add_searches calendar [] steps = ok steps
  add_searches calendar (service ∷ services) steps = do
    id ← step_id_for service (step_ids steps)
    add_searches calendar services (steps ++ new_step calendar id service ∷ [])

  abbrev pub route_from : String → List String → List ExecutionStep → Checked (List ExecutionStep)
  route_from query [] steps = ok steps
  route_from query (calendar ∷ others) steps =
      let routed = route_steps (calendar ∷ others) steps in
      present_services routed >>= λ present.
      add_searches calendar (missing_services present (contextual_services environment query))
        routed

  unfoldable pub route_contextual_retrieval :
      String → List ExecutionStep → Checked (List ExecutionStep)
  unfolding fresh_id
  route_contextual_retrieval query steps =
      if requests_contextual_retrieval environment query
      then route_from query (calendar_step_ids steps) steps
      else ok steps
