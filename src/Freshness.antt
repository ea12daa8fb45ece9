-- ===== src/Freshness.antt =====
-- app/retrieval/freshness.py: which services of the index are up to date.
pub mod Fresh
mod Tests
use Prim.Native.String.{◌++◌}
use agentic_google_workspace.Prelude.{
  String, Bool, true, false, not, Option, none, some, List, [], ◌∷◌, ◌==◌, if◌then◌else◌, ok, err,
}
use agentic_google_workspace.Prelude.Int.{ℤ, leb_int, minus}
use agentic_google_workspace.Dict.{Dict, lookup, insert}
use agentic_google_workspace.Contracts.{value_error, Checked}
use agentic_google_workspace.Specs.Values.{Moment, aware, naive}

-- The row of a synchronization, as far as it is read here.
pub record SyncState : Type 0 where
  pub service : String
  pub status : String
  pub last_successful_sync : Option Moment

pub record ServiceFreshness : Type 0 where
  pub service : String
  pub fresh : Bool
  pub reason : String
  pub last_successful_sync : Option Moment

-- `{str(state.service): state for state in states}`
abbrev pub by_service : Dict SyncState → List SyncState → Dict SyncState
by_service acc [] = acc
by_service acc (s ∷ ss) = by_service (insert s.service s acc) ss

module _ (now stale_after : ℤ) where
  abbrev aged : String → ℤ → Bool → ServiceFreshness
  aged service last true = record {
    service = service;
    fresh = true;
    reason = "fresh";
    last_successful_sync = some (aware last);
  }
  aged service last false = record {
    service = service;
    fresh = false;
    reason = "age_exceeded";
    last_successful_sync = some (aware last);
  }

  abbrev pub by_age : String → Option Moment → ServiceFreshness
  by_age service none = record {
    service = service;
    fresh = false;
    reason = "never_succeeded";
    last_successful_sync = none;
  }
  by_age service (some (naive t)) = record {
    service = service;
    fresh = false;
    reason = "invalid_naive_timestamp";
    last_successful_sync = some (naive t);
  }
  by_age service (some (aware t)) = aged service t (leb_int (minus now t) stale_after)

  abbrev pub by_status : String → SyncState → Bool → ServiceFreshness
  by_status service state true = by_age service state.last_successful_sync
  by_status service state false = record {
    service = service;
    fresh = false;
    reason = "sync_" ++ (if state.status == "" then "incomplete" else state.status);
    last_successful_sync = state.last_successful_sync;
  }

  abbrev pub freshness_of : String → Option SyncState → ServiceFreshness
  freshness_of service none = record {
    service = service;
    fresh = false;
    reason = "never_synced";
    last_successful_sync = none;
  }
  freshness_of service (some state) = by_status service state (state.status == "completed")

  abbrev pub freshness_all : Dict SyncState → List String → Dict ServiceFreshness
  freshness_all states [] = []
  freshness_all states (s ∷ ss) = (s, freshness_of s (lookup s states)) ∷ freshness_all states ss

-- The services that are asked for are given as the sorted list of the set.
unfoldable pub evaluate_service_freshness :
    List SyncState → List String → Moment → ℤ → Checked (Dict ServiceFreshness)
evaluate_service_freshness states services (naive t) stale_after =
    err (value_error "Freshness reference time must be timezone-aware")
evaluate_service_freshness states services (aware now) stale_after =
    ok (freshness_all now stale_after (by_service [] states) services)
