-- ===== src/Executor/Settling.antt =====
-- The end of a wave of app/orchestration/executor.py: its results, and the steps that remain.
use agentic_google_workspace.Prelude.{
  ℕ, ◌+◌, ◌≤◌, ◌<◌, String, ◌≡◌, refl, ◌||◌, some, List, [], ◌∷◌, ◌==◌, eq_iff, eq_refl, mem,
  length, All, arith, Bool-cases, inl, inr,
}
use agentic_google_workspace.Dict.{Dict, lookup, contains, lookup-insert}
use agentic_google_workspace.Contracts.{ExecutionStep, StepResult, Exception}
use agentic_google_workspace.Contracts.Graph.{step_ids}
use agentic_google_workspace.Executor.{Executor, World, WaveResult, ExecutionState}
use agentic_google_workspace.Executor.Ensures.{
  Ensures, Ensures-pure, Ensures-lift, Ensures-bind, Ensures-write, Ensures-weaken,
}
use agentic_google_workspace.Executor.Wave.{settle, settle_all}
use agentic_google_workspace.Executor.Counts.{count, pop_step-Popped}

abbrev pub wave_ids : List WaveResult → List String
wave_ids [] = []
wave_ids (r ∷ rs) = r.step.step_id ∷ wave_ids rs

abbrev pub Always : World → Type 0
Always w = Unit

abbrev pub Never : Exception → Type 0
Never e = ⊥

-- A result carries the identifier of its step.
abbrev pub IsNamed : WaveResult → Type 0
IsNamed r = r.result.step_id ≡ r.step.step_id

abbrev pub AllNamed : Dict StepResult → Type 0
AllNamed results = (id : String) (r : StepResult) → lookup id results ≡ some r → r.step_id ≡ id

-- The state after the results `rs` are entered.
pub record Settled (P : ExecutionStep → Type 0) (state : ExecutionState) (rs : List WaveResult)
    (next : ExecutionState) : Type 0 where
  pub counts :
      (j : String)
      → count j (step_ids next.remaining) + count j (wave_ids rs)
        ≡ count j (step_ids state.remaining)
  pub shorter : length next.remaining + length rs ≡ length state.remaining
  pub kept : All P state.remaining → All P next.remaining
  pub entered :
      (j : String) → contains j next.results ≡ (contains j state.results || mem j (wave_ids rs))
  pub named : AllNamed state.results → All IsNamed rs → AllNamed next.results

module _ (x : Executor) (P : ExecutionStep → Type 0) where
  settle-Settled :
      (e : ℕ) (state : ExecutionState) (r : WaveResult)
      → 0 < count r.step.step_id (step_ids state.remaining)
      → Ensures Always (Settled P state (r ∷ [])) Never (settle x e state r)
  unfolding settle
  settle-Settled e state r h =
      let popped = pop_step-Popped P r.step.step_id state.remaining h in
      Ensures-bind (λ left. left ≡ popped.left) (Settled P state (r ∷ [])) _ _
        (Ensures-lift _ _ (rw popped.returns refl))
        λ left same.
          Ensures-bind (λ t. Unit) (Settled P state (r ∷ [])) _ _
            (Ensures-write (λ t. Unit) _ (λ w p. tt) tt)
            λ t q. Ensures-pure (Settled P state (r ∷ [])) _ (record {
              counts = λ j. rw same (omega (arith, popped.counts j));
              shorter = rw same (omega (arith, popped.shorter));
              kept = λ a. rw same (popped.kept a);
              entered = λ j. ground (arith, lookup-insert r.step.step_id j r.result state.results);
              named = λ n m id s found. elim (Bool-cases (r.step.step_id == id)) [
                | inl here ↦ ground (
                  arith,
                  lookup-insert r.step.step_id id r.result state.results,
                  eq_iff r.step.step_id id,
                  m.0,
                )
                | inr there ↦
                    n id s (ground (arith, lookup-insert r.step.step_id id r.result state.results))
              ];
            })

  Settled-nil : (state : ExecutionState) → Settled P state [] state
  Settled-nil state = record {
    counts = λ j. omega arith;
    shorter = omega arith;
    kept = λ a. a;
    entered = λ j. ground arith;
    named = λ n m. n;
  }

  Settled-cons :
      (state mid next : ExecutionState) (r : WaveResult) (rs : List WaveResult)
      → Settled P state (r ∷ []) mid
      → Settled P mid rs next
      → Settled P state (r ∷ rs) next
  Settled-cons state mid next r rs one rest = record {
    counts = λ j. omega (arith, one.counts j, rest.counts j);
    shorter = omega (arith, one.shorter, rest.shorter);
    kept = λ a. rest.kept (one.kept a);
    entered = λ j. ground (arith, one.entered j, rest.entered j);
    named = λ n m. rest.named (one.named n (m.0, tt)) m.1;
  }

  pub settle_all-Settled :
      (e : ℕ) (state : ExecutionState) (rs : List WaveResult)
      → ((j : String) → count j (wave_ids rs) ≤ count j (step_ids state.remaining))
      → Ensures Always (Settled P state rs) Never (settle_all x e state rs)
  unfolding settle_all
  settle_all-Settled e state [] h = Ensures-pure (Settled P state []) state (Settled-nil state)
  settle_all-Settled e state (r ∷ rs) h =
      Ensures-bind (Settled P state (r ∷ [])) (Settled P state (r ∷ rs)) _ _
        (settle-Settled e state r (ground (arith, h r.step.step_id, eq_refl r.step.step_id)))
        λ mid one.
          Ensures-weaken (Settled P mid rs) (Settled P state (r ∷ rs)) _
            (λ next rest. Settled-cons state mid next r rs one rest)
            (settle_all-Settled e mid rs (λ j. omega (arith, one.counts j, h j)))
