-- ===== src/Freshness/Fresh.antt =====
-- When a service counts as up to date in app/retrieval/freshness.py.
use agentic_google_workspace.Prelude.{
  String, ◌≡◌, ◌↔◌, refl, true, Option, none, some, List, [], ◌∷◌, ◌==◌, eq_iff, mem, ok, arith,
  Bool-cases, inl, inr,
}
use agentic_google_workspace.Prelude.Int.{ℤ, leb_int, minus}
use agentic_google_workspace.Dict.{Dict, lookup}
use agentic_google_workspace.Specs.Values.{Moment, aware, naive}
use agentic_google_workspace.Freshness.{
  SyncState, ServiceFreshness, by_service, by_age, freshness_of, freshness_all,
  evaluate_service_freshness,
}

-- The last synchronization completed, with a time zone, and is not older than allowed.
pub record IsFresh (now stale_after : ℤ) (found : Option SyncState) : Type 0 where
  pub state : SyncState
  pub known : found ≡ some state
  pub completed : (state.status == "completed") ≡ true
  pub time : ℤ
  pub synced : state.last_successful_sync ≡ some (aware time)
  pub young : leb_int (minus now time) stale_after ≡ true

module _ (now stale_after : ℤ) (service : String) where
  by_age-IsFresh :
      (state : SyncState) (last : Option Moment)
      → state.last_successful_sync ≡ last
      → (state.status == "completed") ≡ true
      → (by_age now stale_after service last).fresh ≡ true
      → IsFresh now stale_after (some state)
  by_age-IsFresh state none e c h = ground arith
  by_age-IsFresh state (some (naive t)) e c h = ground arith
  by_age-IsFresh state (some (aware t)) e c h =
      elim (Bool-cases (leb_int (minus now t) stale_after)) [
        | inl young ↦ record {
          state = state;
          known = refl;
          completed = c;
          time = t;
          synced = e;
          young = young;
        }
        | inr old ↦ cc (rw old at h)
      ]

  fresh-IsFresh :
      (found : Option SyncState)
      → (freshness_of now stale_after service found).fresh ≡ true
      → IsFresh now stale_after found
  fresh-IsFresh none h = ground arith
  fresh-IsFresh (some state) h = elim (Bool-cases (state.status == "completed")) [
    | inl c ↦ by_age-IsFresh state state.last_successful_sync refl c (rw c at h)
    | inr other ↦ cc (rw other at h)
  ]

  IsFresh-fresh :
      (found : Option SyncState)
      → IsFresh now stale_after found
      → (freshness_of now stale_after service found).fresh ≡ true
  IsFresh-fresh found k = rw (k.known, k.completed, k.synced, k.young) refl

lookup-freshness_all :
    (now stale_after : ℤ) (states : Dict SyncState) (service : String) (services : List String)
    → mem service services ≡ true
    → lookup service (freshness_all now stale_after states services)
      ≡ some (freshness_of now stale_after service (lookup service states))
lookup-freshness_all now stale_after states service [] h = cc
lookup-freshness_all now stale_after states service (s ∷ ss) h = elim (Bool-cases (s == service)) [
  | inl same ↦ rw (same, (eq_iff s service).0 same) refl
  | inr other ↦ rw other (lookup-freshness_all now stale_after states service ss (rw other at h))
]

-- With a reference time that has a time zone, every service that is asked for is reported on, and is
-- reported as fresh exactly if its last row says that a synchronization completed, at a time with a time
-- zone, and no longer ago than is allowed.
pub evaluate_service_freshness-IsFresh :
    (states : List SyncState) (services : List String) (now stale_after : ℤ) (service : String)
    → mem service services ≡ true
    → (reported : Dict ServiceFreshness) × (f : ServiceFreshness) × (evaluate_service_freshness
          states services
          (aware now)
          stale_after
        ≡ ok reported)
      × (lookup service reported ≡ some f)
      × ((f.fresh ≡ true) ↔ IsFresh now stale_after (lookup service (by_service [] states)))
unfolding evaluate_service_freshness
evaluate_service_freshness-IsFresh states services now stale_after service asked =
    let found = by_service [] states in
    (
      freshness_all now stale_after found services,
      freshness_of now stale_after service (lookup service found),
      refl,
      lookup-freshness_all now stale_after found service services asked,
      (
        fresh-IsFresh now stale_after service (lookup service found),
        IsFresh-fresh now stale_after service (lookup service found),
      ),
    )
