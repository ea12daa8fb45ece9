-- ===== src/Planner/Tests.antt =====
-- A plan whose mail search becomes a workspace search, and gets a second one beside it.
use Prim.Native.Char.{code}
use agentic_google_workspace.Prelude.{
  ℕ, zero, suc, ◌≡◌, refl, true, false, ◌&&◌, none, some, List, [], ◌∷◌, ok, err, leb, String, mem,
  if◌then◌else◌,
}
use agentic_google_workspace.Prelude.Int.{pos}
use agentic_google_workspace.Json.{str, int, end, field}
use agentic_google_workspace.Contracts.{
  Service, Intent, ExecutionStep, value_error, key_error, overflow_error,
}
use agentic_google_workspace.Contracts.Graph.{
  validate_graph, check_dependency, check_reference, parse_reference,
}
use agentic_google_workspace.Text.{strip_whitespace, is_identifier, is_space, is_white_space}
use agentic_google_workspace.Specs.Validate.{validate_operation_arguments}
use agentic_google_workspace.Specs.Values.{Iso, aware}
use agentic_google_workspace.Registry.{
  AgentRegistry, validate_plan, validate_step, validate_operation,
}
use agentic_google_workspace.Database.{Rows}
use agentic_google_workspace.Executor.{Executor, World, ExecutionOutcome}
use agentic_google_workspace.Executor.Run.{execute}
use agentic_google_workspace.Executor.Completes.{result_ids}
use agentic_google_workspace.Patterns.{
  Letters, after, begins, has_word, begins_pair, skip_spaces, begins_near,
}
use agentic_google_workspace.Planner.Requests.{
  Environment, Settings, requests_google_meet, requests_singular_upcoming_event,
  requests_contextual_retrieval, contextual_services,
}
use agentic_google_workspace.Planner.Arguments.{canonical_arguments, default_end_time}
use agentic_google_workspace.Planner.Routing.{
  fresh_id, route_contextual_retrieval, step_id_for, contextual_arguments, new_step,
}
use agentic_google_workspace.Planner.{
  PlanModel, apply_intent_constraints, accept_plan, repair_plan, create_plan,
}
use agentic_google_workspace.Planner.Accepted.{ReadsIdentifiers, IsValid}
use agentic_google_workspace.Planner.Created.{
  IsRequestError, create_plan-execute, create_plan-err, create_plan-IsValid,
}
use agentic_google_workspace.Planner.Covered.{Covers, route_contextual_retrieval-Covers}
use agentic_google_workspace.Planner.Named.{step_id_for-returns}

abbrev letters : Letters
letters = record { fold = λ c. c; is_alphanumeric = λ c. leb b'a' (code c) && leb (code c) b'z' }

abbrev iso : Iso
iso = record { parse_datetime = λ s. some (aware (pos 0)); parse_date = λ s. some 0 }

-- A text of a number: as many strokes.
abbrev strokes : ℕ → String
strokes zero = ""
strokes (suc n) = String.◌∷◌ "i" (strokes n)

strokes-injective : (a b : ℕ) → strokes a ≡ strokes b → a ≡ b
strokes-injective zero zero h = refl
strokes-injective zero (suc b) h = cc
strokes-injective (suc a) zero h = cc
strokes-injective (suc a) (suc b) h = let same : a ≡ b = strokes-injective a b (cc) in cc

abbrev environment : Environment
environment = record {
  iso = iso;
  plus_minutes = λ s n. some s;
  local_text = λ z t. ok "2026-01-01T00:00:00Z";
  letters = letters;
  lower = λ s. s;
  number = strokes;
}

abbrev settings : Settings
settings = record {
  query = "prepare for my meeting";
  timezone_name = "UTC";
  default_meeting_duration_minutes = 30;
  reference_time = pos 0;
}

abbrev intent : Intent
intent = record {
  intent_name = "prepare";
  required_services = Service.google_calendar ∷ Service.gmail ∷ [];
  extracted_entities = end;
  requires_clarification = false;
  clarification_question = none;
}

abbrev find : ExecutionStep
find = record {
  step_id = "find";
  service = Service.google_calendar;
  operation = "search_events";
  arguments = field "max_results" (int (pos 1)) end;
  depends_on = [];
}

abbrev mails : ExecutionStep
mails = record {
  step_id = "mails";
  service = Service.gmail;
  operation = "search_emails";
  arguments = field "keywords" (str "review") end;
  depends_on = "find" ∷ [];
}

abbrev routed : List ExecutionStep
routed =
    find
    ∷ record mails {
      service = Service.workspace;
      operation = "workspace_search";
      arguments = contextual_arguments "find" "gmail";
    }
    ∷ new_step "find" "workspace_google_drive" "google_drive"
    ∷ []

abbrev model : PlanModel
model = record {
  generate = λ again now s i. ok end;
  read_plan = λ fields. ok (record { steps = find ∷ mails ∷ [] });
}

read_identifiers : ReadsIdentifiers model
unfolding strip_whitespace is_white_space is_identifier
read_identifiers fields plan h =
    let same : record { steps = find ∷ mails ∷ [] } ≡ plan = cc in
    rw (← same)
      (record { stripped = refl; letters = refl }, (record { stripped = refl; letters = refl }, tt))

abbrev registry : AgentRegistry
registry = record { has_workspace = true; agents = λ n call. none; iso = iso }

abbrev executor : Executor
executor = record {
  registry = registry;
  unicode = record { is_digit = λ c. false; decimal = λ c. none };
  id_text = λ n. "id";
}

abbrev no_rows : Rows
no_rows = record { next_id = 0; executions = []; steps = []; approvals = []; audit_logs = [] }

abbrev world : World
world = record { session = record { current = no_rows; committed = no_rows }; calls = [] }

planned : create_plan environment registry model settings intent ≡ ok (record { steps = routed })
unfolding create_plan accept_plan apply_intent_constraints canonical_arguments
    route_contextual_retrieval fresh_id requests_contextual_retrieval
    requests_singular_upcoming_event requests_google_meet contextual_services has_word begins
    begins_near begins_pair after skip_spaces is_space is_white_space validate_graph
    check_dependency check_reference parse_reference strip_whitespace is_identifier validate_plan
    validate_step validate_operation validate_operation_arguments
planned = refl

create_plan-IsValid_example :
    IsValid environment registry model settings intent (record { steps = routed })
create_plan-IsValid_example =
    create_plan-IsValid environment registry model settings intent read_identifiers
      (record { steps = routed }) planned

create_plan-execute_example :
    (outcome : ExecutionOutcome) × ((execute executor 1 2 intent
        (record { steps = routed })
        world).0
      ≡ ok outcome)
    × (result_ids outcome.results ≡ "find" ∷ "mails" ∷ "workspace_google_drive" ∷ [])
create_plan-execute_example =
    create_plan-execute executor environment model settings intent read_identifiers
      (record { steps = routed }) planned 1 2 world

is_contextual : requests_contextual_retrieval environment settings.query ≡ true
unfolding requests_contextual_retrieval has_word begins after
is_contextual = refl

routes : route_contextual_retrieval environment settings.query (find ∷ mails ∷ []) ≡ ok routed
unfolding route_contextual_retrieval requests_contextual_retrieval contextual_services fresh_id
    has_word begins after
routes = refl

route_contextual_retrieval-Covers_example :
    Covers (contextual_services environment settings.query) routed
route_contextual_retrieval-Covers_example =
    route_contextual_retrieval-Covers environment settings.query (find ∷ mails ∷ []) routed
      is_contextual refl routes

step_id_for-returns_example :
    (id : String) × (step_id_for environment "gmail" ("workspace_gmail" ∷ []) ≡ ok id)
    × (mem id ("workspace_gmail" ∷ []) ≡ false)
step_id_for-returns_example =
    step_id_for-returns environment strokes-injective "gmail" ("workspace_gmail" ∷ [])

-- No plan of this model can be read, and the second call of it fails.
abbrev broken : PlanModel
broken = record {
  generate = λ again now s i. if again then err (value_error "no JSON") else ok end;
  read_plan = λ fields. err (value_error "steps");
}

raises : create_plan environment registry broken settings intent ≡ err (value_error "no JSON")
unfolding create_plan accept_plan repair_plan
raises = refl

create_plan-err_example :
    IsRequestError environment registry broken settings intent (value_error "no JSON")
create_plan-err_example =
    create_plan-err environment registry broken settings intent (value_error "no JSON") raises refl

-- There is no such time zone.
abbrev nowhere : Environment
nowhere = record environment { local_text = λ z t. err (key_error "No time zone found") }

no_zone : create_plan nowhere registry model settings intent ≡ err (key_error "No time zone found")
unfolding create_plan
no_zone = refl

too_late :
    default_end_time
      (record environment { plus_minutes = λ s n. none })
      (str "9999-12-31T23:59Z")
      60
    ≡ err overflow_error
unfolding default_end_time
too_late = refl
