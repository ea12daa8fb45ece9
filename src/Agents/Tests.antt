-- ===== src/Agents/Tests.antt =====
-- A search around a meeting in an index that was never filled.
use Prim.Native.Char.{code}
use agentic_google_workspace.Prelude.{
  ◌≡◌, refl, true, false, ◌&&◌, none, some, [], ◌∷◌, ok, err, leb, length,
}
use agentic_google_workspace.Prelude.Int.{pos}
use agentic_google_workspace.Json.{Fields, bool, str, arr, obj, nil, cons, end, field}
use agentic_google_workspace.Contracts.{ExecutionStatus, AgentResult, type_error}
use agentic_google_workspace.Registry.{AgentRegistry}
use agentic_google_workspace.Specs.Values.{aware}
use agentic_google_workspace.Text.{strip, rstrip, is_blank, is_space, is_white_space, words}
use agentic_google_workspace.Patterns.{Letters, after}
use agentic_google_workspace.Search.Index.{WorkspaceSearchResponse}
use agentic_google_workspace.Freshness.{evaluate_service_freshness}
use agentic_google_workspace.Agents.Query.{
  contextual_query, compact_description, segments, normalize_space, is_boilerplate,
  native_search_text,
}
use agentic_google_workspace.Agents.Native.{WorkspaceSearchAgent, native_fallback}
use agentic_google_workspace.Agents.Workspace.{top_k_of, workspace_search}

abbrev letters : Letters
letters = record { fold = λ c. c; is_alphanumeric = λ c. leb b'a' (code c) && leb (code c) b'z' }

abbrev event : Fields
event = field "title" (str "Review: next  plan") (
    field "description" (str "<p>Read the plan.</p> http://x.y\nThanks")
      (field "organizer" (str " a@b ") end))

event_query :
    contextual_query letters (λ s. s) (obj event)
    ≡ ok "Review: next plan next plan Read the plan. Thanks a@b"
unfolding contextual_query compact_description segments normalize_space is_boilerplate after strip
    rstrip is_blank is_space is_white_space words
event_query = refl

event_topic : native_search_text (obj event) "" true ≡ "next plan"
unfolding native_search_text segments normalize_space strip is_blank is_space is_white_space words
event_topic = refl

abbrev unfilled : WorkspaceSearchResponse
unfilled = record { results = []; embedding_cache_hit = false; sync_states = [] }

abbrev no_mail : AgentResult
no_mail = record {
  status = ExecutionStatus.completed;
  content = field "emails" (arr nil) end;
  source_ids = [];
  error = none;
}

abbrev agent : WorkspaceSearchAgent
agent = record {
  letters = letters;
  unescape = λ s. s;
  int_of = λ v. err type_error;
  run_search = λ query top_k filters. ok unfilled;
  native_services = "gmail" ∷ [];
  agents = λ n call. some no_mail;
  now = pos 0;
  stale_after = pos 0;
}

abbrev registry : AgentRegistry
registry = record {
  has_workspace = true;
  agents = λ n call. none;
  iso = record { parse_datetime = λ s. some (aware (pos 0)); parse_date = λ s. some 0 };
}

abbrev arguments : Fields
arguments = field "query" (str "plan") (field "services" (arr (cons (str "gmail") nil)) end)

-- Two entries of the list are two calls.
asked_twice :
    length
      (workspace_search agent
        (field "query"
          (str "plan")
          (field "services" (arr (cons (str "gmail") (cons (str "gmail") nil))) end))
        []).1
    ≡ 2
unfolding workspace_search native_fallback contextual_query normalize_space strip rstrip is_blank
    is_space is_white_space words evaluate_service_freshness
asked_twice = refl

top_k_true : top_k_of agent (bool true) ≡ ok 1
top_k_true = refl
