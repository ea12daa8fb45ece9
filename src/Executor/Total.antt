-- ===== src/Executor/Total.antt =====
-- The rounds of `DAGExecutor.execute` on a plan that passed its checks.
use agentic_google_workspace.Prelude.{
  ℕ, ◌≤◌, ◌<◌, String, ◌≡◌, ◌≢◌, refl, Bool, true, false, List, [], ◌∷◌, ◌++◌, mem, select, length,
  length-append, all, All, All-append, All-map, arith, Bool-cases, inl, inr, ap, ◌∙◌, eq_refl,
}
use agentic_google_workspace.Dict.{Dict, contains}
use agentic_google_workspace.Json.{Json}
use agentic_google_workspace.Contracts.{ExecutionStep, StepResult}
use agentic_google_workspace.Contracts.Graph.{step_ids}
use agentic_google_workspace.Contracts.Graph.Sound.{Grounded, grounded}
use agentic_google_workspace.Contracts.Graph.Complete.{mem-find_step}
use agentic_google_workspace.Executor.{Executor, WaveResult, ExecutionState, is_ready}
use agentic_google_workspace.Executor.Ensures.{Ensures, Ensures-bind, Ensures-weaken}
use agentic_google_workspace.Executor.Wave.{gather, finish_wave, run_ready, wave}
use agentic_google_workspace.Executor.Counts.{
  count, count-append, mem-of_count, count-select_le, pick,
}
use agentic_google_workspace.Executor.Steps.{IsLocated}
use agentic_google_workspace.Executor.Settling.{
  wave_ids, Always, Never, IsNamed, AllNamed, Settled, settle_all-Settled,
}
use agentic_google_workspace.Executor.Preparing.{
  executable_ids, IsSupported, IsSplit, prepare_all-returns, gather-ids,
}

All-select :
    {A : Type 0} (P : A → Type 0) (p : A → Bool) (xs : List A) → All P xs → All P (select p xs)
All-select P p [] h = tt
All-select P p (x ∷ xs) h = elim (Bool-cases (p x)) [
  | inl chosen ↦ rw chosen (h.0, All-select P p xs h.1)
  | inr other ↦ rw other (All-select P p xs h.1)
]

select-All : {A : Type 0} (p : A → Bool) (xs : List A) → All (λ x. p x ≡ true) (select p xs)
select-All p [] = tt
select-All p (x ∷ xs) = elim (Bool-cases (p x)) [
  | inl chosen ↦ rw chosen (chosen, select-All p xs)
  | inr other ↦ rw other (select-All p xs)
]

wave_ids-append : (rs ss : List WaveResult) → wave_ids (rs ++ ss) ≡ wave_ids rs ++ wave_ids ss
wave_ids-append [] ss = refl
wave_ids-append (r ∷ rs) ss = rw (wave_ids-append rs ss)

-- A list of dependencies that are not all there has one that is missing.
missing-dependency :
    (results : Dict StepResult) (ds : List String)
    → all (λ d. contains d results) ds ≡ false
    → (d : String) × (mem d ds ≡ true) × (contains d results ≡ false)
missing-dependency results [] h = cc
missing-dependency results (d ∷ ds) h = elim (Bool-cases (contains d results)) [
  | inl there ↦
      let (e, m, gone) = missing-dependency results ds (ground arith) in (e, ground arith, gone)
  | inr gone ↦ (d, rw (eq_refl d), gone)
]

module _ (x : Executor) (steps : List ExecutionStep) where
  abbrev pub IsPlanned : ExecutionStep → Type 0
  IsPlanned s = IsLocated steps s × IsSupported x s

  -- The invariant of the loop: the remaining steps are steps of the plan, each step has a result or
  -- remains, and each result stands under its own identifier.
  pub record IsConsistent (state : ExecutionState) : Type 0 where
    pub planned : All IsPlanned state.remaining
    pub covered :
        (id : String)
        → mem id (step_ids steps) ≡ true
        → contains id state.results ≡ false
        → 0 < count id (step_ids state.remaining)
    pub named : AllNamed state.results

  Grounded-known : {id : String} → Grounded steps id → mem id (step_ids steps) ≡ true
  Grounded-known (grounded id step found sub) = mem-find_step id steps found

  -- Without a ready step, no grounded step remains.
  none-ready :
      {id : String} (state : ExecutionState)
      → Grounded steps id
      → IsConsistent state
      → select (is_ready state.results) state.remaining ≡ []
      → ¬ (0 < count id (step_ids state.remaining))
  none-ready state (grounded id step found sub) inv stuck h =
      let picked = pick IsPlanned (is_ready state.results) id state.remaining h inv.planned in
      let same : picked.step ≡ step = ground (arith, picked.named, picked.holds.0) in
      let (d, m, gone) =
        missing-dependency state.results picked.step.depends_on (picked.unselected stuck) in
      none-ready state (sub d (cc)) inv stuck (inv.covered d (Grounded-known (sub d (cc))) gone)

  -- A round leaves a consistent state with fewer steps.
  pub record Advances (state next : ExecutionState) : Type 0 where
    pub consistent : IsConsistent next
    pub fewer : length next.remaining < length state.remaining

  Settled-Advances :
      (state next : ExecutionState) (rs : List WaveResult)
      → IsConsistent state
      → 0 < length rs
      → All IsNamed rs
      → Settled IsPlanned state rs next
      → Advances state next
  Settled-Advances state next rs inv pos named s = record {
    consistent = record {
      planned = s.kept inv.planned;
      covered = λ id known gone.
          let before : contains id state.results ≡ false = ground (arith, s.entered id) in
          let unentered : mem id (wave_ids rs) ≡ false = ground (arith, s.entered id) in
          omega (
            arith,
            s.counts id,
            inv.covered id known before,
            mem-of_count id (wave_ids rs) unentered,
          );
      named = s.named inv.named named;
    };
    fewer = omega (arith, s.shorter);
  }

  finish_wave-Advances :
      (e : ℕ) (state : ExecutionState) (ready : List ExecutionStep)
      (p : List WaveResult × List (ExecutionStep × Json))
      → IsConsistent state
      → 0 < length ready
      → ((j : String) → count j (step_ids ready) ≤ count j (step_ids state.remaining))
      → IsSplit ready p
      → Ensures Always (Advances state) Never (finish_wave x e state p)
  unfolding finish_wave
  finish_wave-Advances e state ready (rs, es) inv pos le s = record {
    keeps = λ w p. tt;
    gives = λ w p.
        let (ids, lengths, named) = gather-ids x es w in
        let gs = (gather x es w).0 in
        let all_ids : wave_ids (rs ++ gs) ≡ wave_ids rs ++ executable_ids es =
          wave_ids-append rs gs ∙ ap (λ l. wave_ids rs ++ l) ids in
        (Ensures-weaken (Settled IsPlanned state (rs ++ gs)) (Advances state) _
            (λ next settled.
              Settled-Advances state next (rs ++ gs) inv
                (omega (arith, length-append rs gs, lengths, s.lengths))
                (All-append IsNamed rs gs s.named named) settled)
            (settle_all-Settled x IsPlanned e state (rs ++ gs)
              (λ j. rw (all_ids, count-append) (omega (arith, s.counts j, le j))))).gives
          (gather x es w).1 tt;
  }

  run_ready-Advances :
      (e u : ℕ) (state : ExecutionState) (ready : List ExecutionStep)
      → IsConsistent state
      → ready ≢ []
      → ((j : String) → count j (step_ids ready) ≤ count j (step_ids state.remaining))
      → All IsPlanned ready
      → All (λ s. is_ready state.results s ≡ true) ready
      → Ensures Always (Advances state) Never (run_ready x e u state ready)
  run_ready-Advances e u state [] inv ne le planned able = absurd (ne refl)
  run_ready-Advances e u state (step ∷ ready) inv ne le planned able =
      Ensures-bind (IsSplit (step ∷ ready)) (Advances state) _ _
        (prepare_all-returns x e u state.results (step ∷ ready)
          (All-map IsPlanned (IsSupported x) (λ s h. h.1) (step ∷ ready) planned) able)
        λ p s. finish_wave-Advances e state (step ∷ ready) p inv (omega arith) le s

  module _ (all_grounded : (id : String) → mem id (step_ids steps) ≡ true → Grounded steps id) where
    pub wave-Advances :
        (e u : ℕ) (state : ExecutionState) (s : ExecutionStep) (rest : List ExecutionStep)
        → state.remaining ≡ s ∷ rest
        → IsConsistent state
        → Ensures Always (Advances state) Never (wave x e u state)
    unfolding wave
    wave-Advances e u state s rest some_left inv =
        let p = is_ready state.results in
        let here : IsPlanned s = (rw some_left at inv.planned).0 in
        let known : mem s.step_id (step_ids steps) ≡ true = mem-find_step s.step_id steps here.0 in
        run_ready-Advances e u state (select p state.remaining) inv
          (λ stuck.
            none-ready state (all_grounded s.step_id known) inv stuck
              (rw some_left (ground (arith, eq_refl s.step_id))))
          (λ j. count-select_le p j state.remaining)
          (All-select IsPlanned p state.remaining inv.planned) (select-All p state.remaining)
