-- ===== src/Agents/Asked.antt =====
-- The calls that `_native_fallback` of app/agents/workspace.py makes of the native agents.
use agentic_google_workspace.Prelude.{
  String, ◌≡◌, refl, Bool, true, false, ◌&&◌, ◌||◌, Option, none, some, List, [], ◌∷◌, ◌==◌, mem,
  length, Bool-cases, inl, inr, ap, eq_iff,
}
use agentic_google_workspace.Json.{Json, str}
use agentic_google_workspace.Contracts.{Checked, AgentResult, service_value}
use agentic_google_workspace.Registry.{AgentRegistry, Call, is_approval_required}
use agentic_google_workspace.Agents.Native.{
  WorkspaceSearchAgent, Fallback, native_call, call_for, make_call, native_fallback, answered,
  go_on, name_of, add_result,
}

module _ (registry : AgentRegistry) where
  -- The operation of the call is one that needs no approval.
  abbrev pub IsRead : Call → Type 0
  IsRead call = is_approval_required registry call.service call.operation ≡ false

  module _ (agent : WorkspaceSearchAgent) where
    -- The entry of the list names mail or files, and the agent of it is at hand.
    abbrev pub is_asked : Json → Bool
    is_asked (str s) = mem s agent.native_services && (s == "gmail" || s == "google_drive")
    is_asked _ = false

    -- A read of the service that the entry names.
    pub record IsReadOf (entry : Json) (call : Call) : Type 0 where
      pub same_service : entry ≡ str (service_value call.service)
      pub asked : is_asked entry ≡ true
      pub is_read : IsRead call

    -- The log before and after the services of a list were asked, in its order: one read for each entry
    -- that names mail or files, none for the others, and none after an agent raised.
    pub data Asked : List Json → List Call → List Call → Type 0 where
      ended : (calls : List Call) → Asked [] calls calls
      passed :
          (entry : Json) (entries : List Json) (before after : List Call)
          → is_asked entry ≡ false
          → Asked entries before after
          → Asked (entry ∷ entries) before after
      called :
          (entry : Json) (entries : List Json) (call : Call) (before after : List Call)
          → IsReadOf entry call
          → Asked entries (call ∷ before) after
          → Asked (entry ∷ entries) before after
      raised :
          (entry : Json) (entries : List Json) (call : Call) (before : List Call)
          → IsReadOf entry call
          → agent.agents (length before) call ≡ none
          → Asked (entry ∷ entries) before (call ∷ before)

    equal-IsReadOf :
        (entry : Json) (a b : Call)
        → ◌≡◌ {A = Option Call} (some a) (some b)
        → IsReadOf entry a
        → IsReadOf entry b
    equal-IsReadOf entry a b e h = let same : a ≡ b = cc in rw (← same) h

    native_call-IsReadOf :
        (query : Json) (contextual service : String) {call : Call}
        → mem service agent.native_services ≡ true
        → native_call query contextual service ≡ some call
        → IsReadOf (str service) call
    unfolding native_call is_approval_required
    native_call-IsReadOf query contextual service {call = call} known h =
        elim (Bool-cases (service == "gmail")) [
          | inl mail ↦ equal-IsReadOf (str service) _ call (rw mail at h) (record {
            same_service = ap str ((eq_iff service "gmail").0 mail);
            asked = rw (known, mail) refl;
            is_read = refl;
          })
          | inr other ↦ elim (Bool-cases (service == "google_drive")) [
            | inl drive ↦ equal-IsReadOf (str service) _ call (rw (other, drive) at h) (record {
              same_service = ap str ((eq_iff service "google_drive").0 drive);
              asked = rw (known, other, drive) refl;
              is_read = refl;
            })
            | inr neither ↦ cc (rw (other, neither) at h)
          ]
        ]

    native_call-none :
        (query : Json) (contextual service : String)
        → native_call query contextual service ≡ none
        → (service == "gmail" || service == "google_drive") ≡ false
    unfolding native_call
    native_call-none query contextual service h = elim (Bool-cases (service == "gmail")) [
      | inl mail ↦ cc (rw mail at h)
      | inr other ↦ elim (Bool-cases (service == "google_drive")) [
        | inl drive ↦ cc (rw (other, drive) at h)
        | inr neither ↦ rw (other, neither) refl
      ]
    ]

    call_for-IsReadOf :
        (query : Json) (contextual : String) (entry : Json) (call : Call)
        → call_for agent query contextual entry ≡ some call
        → IsReadOf entry call
    call_for-IsReadOf query contextual (str s) call h =
        elim (Bool-cases (mem s agent.native_services)) [
          | inl known ↦ native_call-IsReadOf query contextual s known (rw known at h)
          | inr unknown ↦ cc (rw unknown at h)
        ]
    call_for-IsReadOf query contextual _ call h = cc

    call_for-none :
        (query : Json) (contextual : String) (entry : Json)
        → call_for agent query contextual entry ≡ none
        → is_asked entry ≡ false
    call_for-none query contextual (str s) h = elim (Bool-cases (mem s agent.native_services)) [
      | inl known ↦ rw known (native_call-none query contextual s (rw known at h))
      | inr unknown ↦ rw unknown refl
    ]
    call_for-none query contextual _ h = refl

    module _ (entry : Json) (entries : List Json) (service : String)
        (next : Fallback → List Call → Checked Fallback × List Call)
        (k : (found : Fallback) (calls : List Call)
          → Asked entries calls (next found calls).1) where
      go_on-Asked :
          (call : Call) (found : Fallback) (calls : List Call) (reply : Option AgentResult)
          → IsReadOf entry call
          → agent.agents (length calls) call ≡ reply
          → Asked
              (entry ∷ entries)
              calls
              (go_on agent next (answered agent service found reply) (call ∷ calls)).1
      go_on-Asked call found calls none r h = raised entry entries call calls r h
      go_on-Asked call found calls (some result) r h =
          called entry entries call calls _ r (k (add_result service found result) (call ∷ calls))

      make_call-Asked :
          (call : Option Call) (found : Fallback) (calls : List Call)
          → (call ≡ none → is_asked entry ≡ false)
          → ((c : Call) → call ≡ some c → IsReadOf entry c)
          → Asked (entry ∷ entries) calls (make_call agent service call next found calls).1
      make_call-Asked none found calls p q = passed entry entries calls _ (p refl) (k found calls)
      make_call-Asked (some c) found calls p q =
          go_on-Asked c found calls (agent.agents (length calls) c) (q c refl) refl

    pub native_fallback-Asked :
        (query : Json) (contextual : String) (entries : List Json) (found : Fallback)
        (calls : List Call)
        → Asked entries calls (native_fallback agent query contextual entries found calls).1
    unfolding native_fallback
    native_fallback-Asked query contextual [] found calls = ended calls
    native_fallback-Asked query contextual (entry ∷ entries) found calls =
        make_call-Asked entry entries (name_of agent entry)
          (native_fallback agent query contextual entries)
          (λ f cs. native_fallback-Asked query contextual entries f cs)
          (call_for agent query contextual entry) found calls (call_for-none query contextual entry)
          (call_for-IsReadOf query contextual entry)
