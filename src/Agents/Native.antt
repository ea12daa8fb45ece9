-- ===== src/Agents/Native.antt =====
-- `_native_fallback` of app/agents/workspace.py.
use agentic_google_workspace.Prelude.{
  ℕ, String, Bool, true, false, Option, none, some, List, [], ◌∷◌, ◌++◌, ◌==◌, if◌then◌else◌, mem,
  length, ok, err,
}
use agentic_google_workspace.Prelude.Int.{ℤ, pos}
use agentic_google_workspace.Json.{
  Json, Fields, null, int, str, arr, obj, end, field, get_or, items,
}
use agentic_google_workspace.Contracts.{
  Service, ExecutionStatus, ErrorInfo, AgentResult, agent_error, Checked, status_eq,
}
use agentic_google_workspace.Registry.{Agents, Call}
use agentic_google_workspace.Patterns.{Letters}
use agentic_google_workspace.Search.Index.{WorkspaceSearchFilters, WorkspaceSearchResponse}
use agentic_google_workspace.Agents.Query.{native_search_text}

-- What the agent is made of: the tables of letters, `html.unescape`, `int(…)` of a text or a float, the
-- search for its user, the native agents that it has, and the time after which a service is stale.
pub record WorkspaceSearchAgent : Type 0 where
  pub letters : Letters
  pub unescape : String → String
  pub int_of : Json → Checked ℤ
  pub run_search : String → ℕ → WorkspaceSearchFilters → Checked WorkspaceSearchResponse
  pub native_services : List String
  pub agents : Agents
  pub now : ℤ
  pub stale_after : ℤ

-- What a fallback has found so far.
pub record Fallback : Type 0 where
  pub native_results : List Fields
  pub performed : Bool
  pub fallback_error : Option (String × String)
  pub source_ids : List String

abbrev native_item : String → String → String → Json → List Fields
native_item service title_name last_name (obj item) =
    (if service == "gmail"
      then field "service" (str service) (
          field "external_resource_id" (get_or "id" item null) (
            field "title" (get_or title_name item (str "")) (
              field "snippet" (get_or last_name item (str ""))
                (field "retrieval_source" (str "native_fallback") end))))
      else field "service" (str service) (
          field "external_resource_id" (get_or "id" item null) (
            field "title" (get_or title_name item (str "")) (
              field "source_updated_at" (get_or last_name item null)
                (field "retrieval_source" (str "native_fallback") end)))))
    ∷ []
native_item service title_name last_name _ = []

abbrev native_items : String → String → String → List Json → List Fields
native_items service title_name last_name [] = []
native_items service title_name last_name (x ∷ xs) =
    native_item service title_name last_name x ++ native_items service title_name last_name xs

abbrev pub listed : Json → List Json
listed (arr xs) = items xs
listed _ = []

-- `_native_result_items`
unfoldable pub native_result_items : String → Fields → List Fields
native_result_items service content =
    if service == "gmail"
    then native_items service "subject" "preview" (listed (get_or "emails" content null))
    else native_items service "name" "modifiedTime" (listed (get_or "files" content null))

-- The native call for a service, if there is one.
unfoldable pub native_call : Json → String → String → Option Call
native_call query contextual service =
    if service == "gmail"
    then some (record {
      service = Service.gmail;
      operation = "search_emails";
      arguments =
          field "keywords" (str (native_search_text query contextual false))
            (field "max_results" (int (pos 10)) end);
    })
    else if service == "google_drive"
    then some (record {
      service = Service.google_drive;
      operation = "search_files";
      arguments =
          field "filename" (str (native_search_text query contextual true))
            (field "max_results" (int (pos 10)) end);
    })
    else none

abbrev error_code_of : Option ErrorInfo → String
error_code_of none = "operation_failed"
error_code_of (some e) = e.error_code

-- What the result of a native agent adds.
abbrev pub add_result : String → Fallback → AgentResult → Fallback
add_result service found result =
    if status_eq result.status ExecutionStatus.completed
    then record {
      native_results = found.native_results ++ native_result_items service result.content;
      performed = true;
      fallback_error = found.fallback_error;
      source_ids = found.source_ids ++ result.source_ids;
    }
    else record found { fallback_error = some (service, error_code_of result.error) }

module _ (agent : WorkspaceSearchAgent) where
  abbrev pub answered : String → Fallback → Option AgentResult → Checked Fallback
  answered service found none = err agent_error
  answered service found (some result) = ok (add_result service found result)

  -- The rest of the loop is left out where the native agent raises.
  abbrev pub go_on :
      (Fallback → List Call → Checked Fallback × List Call)
      → Checked Fallback
      → List Call
      → Checked Fallback × List Call
  go_on next (ok found) calls = next found calls
  go_on next (err e) calls = (err e, calls)

  abbrev pub make_call :
      String
      → Option Call
      → (Fallback → List Call → Checked Fallback × List Call)
      → Fallback
      → List Call
      → Checked Fallback × List Call
  make_call service none next found calls = next found calls
  make_call service (some call) next found calls =
      go_on next (answered service found (agent.agents (length calls) call)) (call ∷ calls)

  abbrev pub call_for : Json → String → Json → Option Call
  call_for query contextual (str service) =
      if mem service agent.native_services then native_call query contextual service else none
  call_for query contextual _ = none

  abbrev pub name_of : Json → String
  name_of (str service) = service
  name_of _ = ""

  -- The loop of `_native_fallback`, over the log of the calls.
  unfoldable pub native_fallback :
      Json → String → List Json → Fallback → List Call → Checked Fallback × List Call
  unfolding native_call native_result_items
  native_fallback query contextual [] found calls = (ok found, calls)
  native_fallback query contextual (service ∷ services) found calls =
      make_call (name_of service) (call_for query contextual service)
        (native_fallback query contextual services) found calls

  abbrev pub nothing_found : Fallback
  nothing_found = record {
    native_results = [];
    performed = false;
    fallback_error = none;
    source_ids = [];
  }
