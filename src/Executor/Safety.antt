-- ===== src/Executor/Safety.antt =====
-- The calls of agents that a run makes.
use agentic_google_workspace.Prelude.{
  ℕ, zero, suc, ◌≡◌, refl, Bool, true, false, List, [], ◌∷◌, ◌++◌, ok, err, All, arith, >>=-eq-ok,
  select,
}
use agentic_google_workspace.Dict.{Dict}
use agentic_google_workspace.Json.{Json, Fields, obj}
use agentic_google_workspace.Contracts.{
  Exception, ExecutionStep, ExecutionPlan, Intent, StepResult, Checked,
}
use agentic_google_workspace.Registry
use agentic_google_workspace.Registry.{
  Call, AgentRegistry, is_approval_required, validate_operation, requires_approval, checked_call,
  call_agent, validate_arguments, validate_plan,
}
use agentic_google_workspace.Specs.Validate.{validate_operation_arguments}
use agentic_google_workspace.Executor.{
  Executor, World, WaveResult, Prepared, settled, executable, ExecutionState, dependency_failed,
  unresolved, is_ready, pop_step,
}
use agentic_google_workspace.Executor.Monad.{write, ◌>>=◌}
use agentic_google_workspace.Database.{Rows}
use agentic_google_workspace.Executor.Ensures.{
  Outcome, Ensures, Ensures-pure, Ensures-lift, Ensures-bind, Ensures-write,
}
use agentic_google_workspace.Executor.Wave.{
  add_approval, submit, resolved, prepare_if, prepare, add_prepared, prepare_all, run_step, gather,
  settle, settle_all, finish_wave, run_ready, wave,
}
use agentic_google_workspace.Executor.Run.{while_remaining, run_waves, execute}

-- The operation of the call is supported and needs no approval, and its arguments, which hold no
-- reference any more, passed the check of the catalog.
pub record IsPermitted (registry : AgentRegistry) (call : Call) : Type 0 where
  pub supported : validate_operation registry call.service call.operation ≡ ok tt
  pub unattended : is_approval_required registry call.service call.operation ≡ false
  pub checked :
      validate_operation_arguments registry.iso call.service call.operation call.arguments false
      ≡ ok tt

module _ (x : Executor) where
  abbrev pub AllPermitted : World → Type 0
  AllPermitted w = All (IsPermitted x.registry) w.calls

  abbrev Anything : {A : Type 0} → A → Type 0
  Anything a = Unit

  -- What is left to the agents needs no approval.
  abbrev Unattended : ExecutionStep × Json → Type 0
  Unattended (step, arguments) = is_approval_required x.registry step.service step.operation ≡ false

  abbrev UnattendedIf : Prepared → Type 0
  UnattendedIf (settled r) = Unit
  UnattendedIf (executable step arguments) = Unattended (step, arguments)

  abbrev Keeps : {A : Type 0} → (A → Type 0) → (World → Checked A × World) → Type 0
  Keeps Q m = Ensures AllPermitted Q Anything m

  submit-Keeps :
      (e u : ℕ) (step : ExecutionStep) (v : Json) → Keeps UnattendedIf (submit x e u step v)
  unfolding submit requires_approval add_approval ◌>>=◌
  submit-Keeps e u step v = record { keeps = λ w p. ground arith; gives = λ w p. ground arith }

  unresolved-Keeps :
      (step : ExecutionStep) (e : Exception) → Outcome UnattendedIf Anything (unresolved step e)
  unresolved-Keeps step e = ground arith

  resolved-Keeps :
      (e u : ℕ) (step : ExecutionStep) (r : Checked Json)
      → Keeps UnattendedIf (resolved x e u step r)
  resolved-Keeps e u step (ok v) = submit-Keeps e u step v
  resolved-Keeps e u step (err c) =
      Ensures-lift UnattendedIf (unresolved step c) (unresolved-Keeps step c)

  prepare_if-Keeps :
      (b : Bool) (e u : ℕ) (results : Dict StepResult) (step : ExecutionStep)
      → Keeps UnattendedIf (prepare_if x b e u results step)
  prepare_if-Keeps true e u results step = Ensures-pure UnattendedIf _ tt
  prepare_if-Keeps false e u results step = resolved-Keeps e u step _

  anything : {A : Type 0} (r : Checked A) → Outcome Anything Anything r
  anything (ok a) = tt
  anything (err e) = tt

  prepare-Keeps :
      (e u : ℕ) (results : Dict StepResult) (step : ExecutionStep)
      → Keeps UnattendedIf (prepare x e u results step)
  unfolding prepare
  prepare-Keeps e u results step =
      Ensures-bind Anything UnattendedIf _ _
        (Ensures-lift Anything (dependency_failed results step.depends_on) (anything _))
        (λ b q. prepare_if-Keeps b e u results step)

  abbrev AllUnattended : List WaveResult × List (ExecutionStep × Json) → Type 0
  AllUnattended (rs, es) = All Unattended es

  add_prepared-AllUnattended :
      (p : Prepared) (others : List WaveResult × List (ExecutionStep × Json))
      → UnattendedIf p
      → AllUnattended others
      → AllUnattended (add_prepared x p others)
  add_prepared-AllUnattended (settled r) others h k = k
  add_prepared-AllUnattended (executable s v) others h k = (h, k)

  prepare_all-Keeps :
      (e u : ℕ) (results : Dict StepResult) (ready : List ExecutionStep)
      → Keeps AllUnattended (prepare_all x e u results ready)
  unfolding prepare_all
  prepare_all-Keeps e u results [] = Ensures-pure AllUnattended _ tt
  prepare_all-Keeps e u results (step ∷ ready) =
      Ensures-bind UnattendedIf AllUnattended _ _ (prepare-Keeps e u results step) λ p h.
        Ensures-bind AllUnattended AllUnattended _ _ (prepare_all-Keeps e u results ready)
          λ others k. Ensures-pure AllUnattended _ (add_prepared-AllUnattended p others h k)

  arguments-checked :
      (step : ExecutionStep) (v : Json) (fs : Fields)
      → validate_arguments x.registry step.service step.operation v ≡ ok fs
      → validate_operation_arguments x.registry.iso step.service step.operation fs false ≡ ok tt
  arguments-checked step (obj gs) fs h =
      let (t, ht, e) =
        >>=-eq-ok (validate_operation_arguments x.registry.iso step.service step.operation gs false)
          _ h in
      let same : gs ≡ fs = cc in rw (← same) ht
  arguments-checked step _ fs h = cc

  call-IsPermitted :
      (step : ExecutionStep) (v : Json) {call : Call}
      → Unattended (step, v)
      → checked_call x.registry step.service step.operation v ≡ ok call
      → IsPermitted x.registry call
  unfolding checked_call
  call-IsPermitted step v {call} h c =
      let (t, hs, rest) =
        >>=-eq-ok (validate_operation x.registry step.service step.operation) _ c in
      let (fs, hv, e) =
        >>=-eq-ok (validate_arguments x.registry step.service step.operation v) _ rest in
      let made : record { service = step.service; operation = step.operation; arguments = fs }
          ≡ call =
        cc in
      rw (← made)
        (record { supported = hs; unattended = h; checked = arguments-checked step v fs hv })

  call_agent-IsPermitted :
      (r : Checked Call) (calls : List Call)
      → ((call : Call) → r ≡ ok call → IsPermitted x.registry call)
      → All (IsPermitted x.registry) calls
      → All (IsPermitted x.registry) (call_agent x.registry r calls).1
  call_agent-IsPermitted (ok call) calls h p = (h call refl, p)
  call_agent-IsPermitted (err e) calls h p = p

  run_step-permitted :
      (step : ExecutionStep) (v : Json) (w : World)
      → Unattended (step, v)
      → AllPermitted w
      → AllPermitted (run_step x step v w).1
  unfolding run_step Registry.execute
  run_step-permitted step v w h p =
      call_agent-IsPermitted (checked_call x.registry step.service step.operation v) w.calls
        (λ call made. call-IsPermitted step v h made) p

  gather-permitted :
      (es : List (ExecutionStep × Json)) (w : World)
      → All Unattended es
      → AllPermitted w
      → AllPermitted (gather x es w).1
  unfolding gather
  gather-permitted [] w h p = p
  gather-permitted ((step, v) ∷ es) w h p =
      gather-permitted es (run_step x step v w).1 h.1 (run_step-permitted step v w h.0 p)

  same_calls : (f : Rows → Rows) (w : World) → AllPermitted w → AllPermitted (write f w).1
  unfolding ◌>>=◌
  same_calls f w p = p

  settle-Keeps :
      (e : ℕ) (state : ExecutionState) (r : WaveResult) → Keeps Anything (settle x e state r)
  unfolding settle
  settle-Keeps e state r =
      Ensures-bind Anything Anything _ _
        (Ensures-lift Anything (pop_step r.step.step_id state.remaining) (anything _))
        λ left q.
          Ensures-bind Anything Anything _ _ (Ensures-write Anything _ (same_calls _) tt)
            λ t q'. Ensures-pure Anything _ tt

  settle_all-Keeps :
      (e : ℕ) (state : ExecutionState) (rs : List WaveResult)
      → Keeps Anything (settle_all x e state rs)
  unfolding settle_all
  settle_all-Keeps e state [] = Ensures-pure Anything _ tt
  settle_all-Keeps e state (r ∷ rs) =
      Ensures-bind Anything Anything _ _ (settle-Keeps e state r)
        λ next q. settle_all-Keeps e next rs

  finish_wave-Keeps :
      (e : ℕ) (state : ExecutionState) (p : List WaveResult × List (ExecutionStep × Json))
      → AllUnattended p
      → Keeps Anything (finish_wave x e state p)
  unfolding finish_wave
  finish_wave-Keeps e state (rs, es) h = record {
    keeps = λ w p.
        (settle_all-Keeps e state (rs ++ (gather x es w).0)).keeps (gather x es w).1
          (gather-permitted es w h p);
    gives = λ w p. anything _;
  }

  run_ready-Keeps :
      (e u : ℕ) (state : ExecutionState) (ready : List ExecutionStep)
      → Keeps Anything (run_ready x e u state ready)
  run_ready-Keeps e u state [] = Ensures-lift Anything _ tt
  run_ready-Keeps e u state (step ∷ ready) =
      Ensures-bind AllUnattended Anything _ _ (prepare_all-Keeps e u state.results (step ∷ ready))
        λ p h. finish_wave-Keeps e state p h

  wave-Keeps : (e u : ℕ) (state : ExecutionState) → Keeps Anything (wave x e u state)
  unfolding wave
  wave-Keeps e u state = run_ready-Keeps e u state (select (is_ready state.results) state.remaining)

  while-Keeps :
      (left : List ExecutionStep) (state : ExecutionState)
      (round : World → Checked ExecutionState × World)
      → Keeps Anything round
      → Keeps Anything (while_remaining x left state round)
  while-Keeps [] state round k = Ensures-pure Anything _ tt
  while-Keeps (_ ∷ _) state round k = k

  run_waves-Keeps :
      (fuel e u : ℕ) (state : ExecutionState) → Keeps Anything (run_waves x fuel e u state)
  unfolding run_waves
  run_waves-Keeps zero e u state = while-Keeps state.remaining state _ (Ensures-lift Anything _ tt)
  run_waves-Keeps (suc fuel) e u state = while-Keeps state.remaining state _ (
      Ensures-bind Anything Anything _ _ (wave-Keeps e u state)
        λ next q. run_waves-Keeps fuel e u next)

  -- Where the calls of agents before a run are permitted, those after it are, whatever the plan, and
  -- also where the run raises: a permitted call has a supported operation that needs no approval, and
  -- arguments that were checked.
  pub execute-permitted :
      (u c : ℕ) (intent : Intent) (plan : ExecutionPlan) (w : World)
      → AllPermitted w
      → AllPermitted (execute x u c intent plan w).1
  unfolding execute
  execute-permitted u c intent plan w p =
      (Ensures-bind Anything Anything _ _ (Ensures-lift Anything _ (anything _)) λ t q.
          Ensures-bind Anything Anything _ _ (record { keeps = λ w p. p; gives = λ w p. tt })
            λ e q. Ensures-bind Anything Anything _ _ (run_waves-Keeps _ e u _) λ last q.
              Ensures-bind Anything Anything _ _ (Ensures-lift Anything _ (anything _)) λ rs q.
                Ensures-bind Anything Anything _ _ (Ensures-write Anything _ (same_calls _) tt)
                  λ t q.
                    Ensures-bind Anything Anything _ _
                      (record { keeps = λ w p. p; gives = λ w p. tt })
                      λ t q. Ensures-pure Anything _ tt).keeps
        w p
