-- ===== src/Freshness/Tests.antt =====
-- A service that was synchronized two units ago, and may be three old.
use agentic_google_workspace.Prelude.{◌≡◌, ◌↔◌, refl, true, some, List, [], ◌∷◌, ok}
use agentic_google_workspace.Prelude.Int.{pos}
use agentic_google_workspace.Dict.{Dict, lookup}
use agentic_google_workspace.Specs.Values.{aware}
use agentic_google_workspace.Freshness.{
  SyncState, ServiceFreshness, by_service, evaluate_service_freshness,
}
use agentic_google_workspace.Freshness.Fresh.{IsFresh, evaluate_service_freshness-IsFresh}

abbrev states : List SyncState
states =
    record { service = "gmail"; status = "completed"; last_successful_sync = some (aware (pos 8)) }
    ∷ []

evaluate_service_freshness-IsFresh_example :
    (reported : Dict ServiceFreshness) × (f : ServiceFreshness) × (evaluate_service_freshness states
        ("gmail" ∷ [])
        (aware (pos 10))
        (pos 3)
      ≡ ok reported)
    × (lookup "gmail" reported ≡ some f)
    × ((f.fresh ≡ true) ↔ IsFresh (pos 10) (pos 3) (lookup "gmail" (by_service [] states)))
evaluate_service_freshness-IsFresh_example =
    evaluate_service_freshness-IsFresh states ("gmail" ∷ []) (pos 10) (pos 3) "gmail" refl
