-- ===== src/Agents/ReadOnly.antt =====
-- What `workspace_search` of app/agents/workspace.py asks of the native agents, and when.
use agentic_google_workspace.Prelude.{◌≡◌, ◌≢◌, true, false, List, [], ok, err}
use agentic_google_workspace.Dict.{Dict}
use agentic_google_workspace.Json.{Json}
use agentic_google_workspace.Contracts.{Checked, Exception}
use agentic_google_workspace.Registry.{AgentRegistry, Call}
use agentic_google_workspace.Freshness.{ServiceFreshness}
use agentic_google_workspace.Search.Index.{WorkspaceSearchResponse}
use agentic_google_workspace.Agents.Native.{WorkspaceSearchAgent, listed}
use agentic_google_workspace.Agents.Workspace.{is_stale}
use agentic_google_workspace.Agents.Asked.{Asked}

module _ (registry : AgentRegistry) (agent : WorkspaceSearchAgent) where
  -- What `workspace_search` does once the index has answered: where the index is stale and had no results,
  -- the services that it was given are asked; otherwise nobody is called.
  pub record IsCareful (services : Json) (response : WorkspaceSearchResponse)
      (freshness : Checked (Dict ServiceFreshness)) (before after : List Call) : Type 0 where
    pub where_empty :
        (states : Dict ServiceFreshness)
        → freshness ≡ ok states
        → is_stale states ≡ true
        → response.results ≡ []
        → Asked registry agent (listed services) before after
    pub where_found : response.results ≢ [] → after ≡ before
    pub where_fresh :
        (states : Dict ServiceFreshness)
        → freshness ≡ ok states
        → is_stale states ≡ false
        → after ≡ before
    pub where_raised : (e : Exception) → freshness ≡ err e → after ≡ before
