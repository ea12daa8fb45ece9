-- ===== src/Agents/Workspace.antt =====
-- `WorkspaceSearchAgent` of app/agents/workspace.py.
use agentic_google_workspace.Prelude.{
  ℕ, String, Bool, true, false, not, ◌&&◌, Option, none, some, List, [], ◌∷◌, ◌++◌, if◌then◌else◌,
  ok, err, ◌>>=◌,
}
use agentic_google_workspace.Prelude.Int.{ℤ, pos, negsuc}
use agentic_google_workspace.Dict.{Dict}
use agentic_google_workspace.Json.{
  Json, Fields, null, bool, int, float, str, arr, nil, cons, get, get_or, as_str, truthy,
}
use agentic_google_workspace.Contracts.{key_error, type_error, Checked}
use agentic_google_workspace.Registry.{Call}
use agentic_google_workspace.Specs.Values.{aware}
use agentic_google_workspace.Freshness.{SyncState, ServiceFreshness, evaluate_service_freshness}
use agentic_google_workspace.Search.Index.{
  WorkspaceSearchFilters, WorkspaceSearchResult, WorkspaceSearchResponse, all_services, as_dict,
}
use agentic_google_workspace.Agents.Query.{contextual_query}
use agentic_google_workspace.Agents.Native.{
  WorkspaceSearchAgent, Fallback, listed, native_fallback, nothing_found,
}

-- The data of a completed search without the times that were measured, with the identifiers of its sources.
pub record WorkspaceAnswer : Type 0 where
  pub results : List Fields
  pub searched_services : Json
  pub index_stale : Bool
  pub freshness : Dict ServiceFreshness
  pub native_fallback_performed : Bool
  pub native_fallback_error : Option (String × String)
  pub source_ids : List String

abbrev pub states_of : Dict SyncState → List SyncState
states_of [] = []
states_of ((service, state) ∷ states) = state ∷ states_of states

abbrev pub services_of : Dict SyncState → List String
services_of [] = []
services_of ((service, state) ∷ states) = service ∷ services_of states

abbrev pub or_all : List String → List String
or_all [] = all_services
or_all (s ∷ services) = s ∷ services

-- `_sync_state_freshness`, in the order of the states
unfoldable pub sync_state_freshness : ℤ → ℤ → Dict SyncState → Checked (Dict ServiceFreshness)
sync_state_freshness now stale_after states =
    evaluate_service_freshness (states_of states) (or_all (services_of states)) (aware now)
      stale_after

abbrev pub all_fresh : Dict ServiceFreshness → Bool
all_fresh [] = true
all_fresh ((service, state) ∷ states) = let rest = all_fresh states in state.fresh && rest

-- `not freshness or not all(…)`
abbrev pub is_stale : Dict ServiceFreshness → Bool
is_stale [] = true
is_stale (state ∷ states) = not (all_fresh (state ∷ states))

module _ (agent : WorkspaceSearchAgent) where
  abbrev pub result_dicts : List WorkspaceSearchResult → List Fields
  result_dicts [] = []
  result_dicts (r ∷ rs) = as_dict r ∷ result_dicts rs

  abbrev pub external_ids : List WorkspaceSearchResult → List String
  external_ids [] = []
  external_ids (r ∷ rs) = r.external_resource_id ∷ external_ids rs

  -- `services or […]`
  abbrev searched : Json → Json
  searched services =
      if truthy services
      then services
      else arr (cons (str "gmail") (cons (str "google_calendar") (cons (str "google_drive") nil)))

  abbrev pub answer :
      Json → WorkspaceSearchResponse → Dict ServiceFreshness → Fallback → WorkspaceAnswer
  answer services response freshness found = record {
    results = result_dicts response.results ++ found.native_results;
    searched_services = searched services;
    index_stale = is_stale freshness;
    freshness = freshness;
    native_fallback_performed = found.performed;
    native_fallback_error = found.fallback_error;
    source_ids = external_ids response.results ++ found.source_ids;
  }

  abbrev pub is_empty : List WorkspaceSearchResult → Bool
  is_empty [] = true
  is_empty (r ∷ rs) = false

  abbrev pub finish :
      Json
      → WorkspaceSearchResponse
      → Dict ServiceFreshness
      → Checked Fallback × List Call
      → Checked WorkspaceAnswer × List Call
  finish services response freshness (ok found, calls) =
      (ok (answer services response freshness found), calls)
  finish services response freshness (err e, calls) = (err e, calls)

  unfoldable pub complete :
      Json
      → String
      → Json
      → WorkspaceSearchResponse
      → Checked (Dict ServiceFreshness)
      → List Call
      → Checked WorkspaceAnswer × List Call
  unfolding native_fallback
  complete query contextual services response (err e) calls = (err e, calls)
  complete query contextual services response (ok freshness) calls =
      if is_stale freshness && is_empty response.results
      then finish services response freshness
          (native_fallback agent query contextual (listed services) (nothing_found agent) calls)
      else (ok (answer services response freshness (nothing_found agent)), calls)

  abbrev texts_of : List Json → List String
  texts_of [] = []
  texts_of (str s ∷ xs) = s ∷ texts_of xs
  texts_of (_ ∷ xs) = texts_of xs

  abbrev text_at : String → Fields → Option String
  text_at name arguments = as_str (get_or name arguments null)

  -- The arguments are those that the registry accepts: texts, and a list of names.
  abbrev pub filters_of : Fields → WorkspaceSearchFilters
  filters_of arguments = record {
    services = texts_of (listed (get_or "services" arguments null));
    sender = text_at "sender" arguments;
    date_from = text_at "date_from" arguments;
    date_to = text_at "date_to" arguments;
    mime_type = text_at "mime_type" arguments;
    attendee = text_at "attendee" arguments;
  }

  -- The search refuses a number below 0 as it refuses 0.
  abbrev number_asked : ℤ → ℕ
  number_asked (pos n) = n
  number_asked (negsuc n) = 0

  -- `int(…)` of the argument
  abbrev pub top_k_of : Json → Checked ℕ
  top_k_of (int n) = ok (number_asked n)
  top_k_of (bool b) = ok (if b then 1 else 0)
  top_k_of (float m e) = do n ← agent.int_of (float m e); ok (number_asked n)
  top_k_of (str s) = do n ← agent.int_of (str s); ok (number_asked n)
  top_k_of _ = err type_error

  abbrev pub query_of : Option Json → Checked Json
  query_of none = err (key_error "query")
  query_of (some v) = ok v

  abbrev pub found_response :
      Fields
      → Checked (Json × (String × WorkspaceSearchResponse))
      → List Call
      → Checked WorkspaceAnswer × List Call
  found_response arguments (err e) calls = (err e, calls)
  found_response arguments (ok (query, (contextual, response))) calls =
      complete query contextual (get_or "services" arguments null) response
        (sync_state_freshness agent.now agent.stale_after response.sync_states) calls

  -- The part of `workspace_search` up to the answer of the index.
  abbrev pub indexed_search : Fields → Checked (Json × (String × WorkspaceSearchResponse))
  indexed_search arguments = do
    query ← query_of (get "query" arguments)
    contextual ← contextual_query agent.letters agent.unescape query
    top_k ← top_k_of (get_or "top_k" arguments (int (pos 5)))
    response ← agent.run_search contextual top_k (filters_of arguments)
    ok (query, (contextual, response))

  unfoldable pub workspace_search : Fields → List Call → Checked WorkspaceAnswer × List Call
  unfolding complete sync_state_freshness
  workspace_search arguments calls = found_response arguments (indexed_search arguments) calls
