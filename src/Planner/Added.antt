-- ===== src/Planner/Added.antt =====
-- The searches that `_route_contextual_retrieval` of app/orchestration/planner.py adds to a plan.
use agentic_google_workspace.Prelude.{
  ℕ, zero, suc, String, ◌≡◌, refl, true, false, some, List, [], ◌∷◌, ◌++◌, ◌==◌, eq_iff, eq_refl,
  mem, mem-append, ne_of_mem, is_unique, All, All-map, All-append, All-left, ok, err, >>=-eq-ok,
  arith, Bool-cases, inl, inr,
}
use agentic_google_workspace.Json.{obj}
use agentic_google_workspace.Contracts.{ExecutionStep, Checked}
use agentic_google_workspace.Contracts.Graph.{find_step_references, step_ids, find_step}
use agentic_google_workspace.Contracts.Graph.Sound.{Grounded, grounded}
use agentic_google_workspace.Contracts.Graph.Complete.{mem-find_step}
use agentic_google_workspace.Contracts.Graph.Valid.{DependencyOk, ReferenceOk, StepOk, IsWellFormed}
use agentic_google_workspace.Planner.Requests.{Environment}
use agentic_google_workspace.Planner.Routing.{
  new_step, numbered, fresh_id, step_id_for, add_searches,
}
use agentic_google_workspace.Planner.Reworked.{IsIdentifier, contextual-references}

pub fresh_id-not-mem :
    (environment : Environment) (fuel : ℕ) (base : String) (used : List String) (suffix : ℕ)
    (tried : String) {id : String}
    → fresh_id environment fuel base used suffix tried ≡ ok id
    → mem id used ≡ false
unfolding fresh_id
fresh_id-not-mem environment zero base used suffix tried h = ground arith
fresh_id-not-mem environment (suc fuel) base used suffix tried {id = id} h =
    elim (Bool-cases (mem tried used)) [
      | inl taken ↦
          fresh_id-not-mem environment fuel base used (suc suffix)
            (numbered environment base suffix) (rw taken at h)
      | inr free ↦ ground arith
    ]

step_ids-append : (ss ts : List ExecutionStep) → step_ids (ss ++ ts) ≡ step_ids ss ++ step_ids ts
step_ids-append [] ts = refl
step_ids-append (s ∷ ss) ts = rw (step_ids-append ss ts) refl

is_unique-add :
    (id : String) (ids : List String)
    → mem id ids ≡ false
    → is_unique ids ≡ true
    → is_unique (ids ++ id ∷ []) ≡ true
is_unique-add id [] h k = refl
is_unique-add id (x ∷ ids) h k =
    ground
      (arith, mem-append x ids (id ∷ []), is_unique-add id ids, eq_iff x id, eq_iff id x, eq_refl x)

reference_mono :
    (known more : List String) (s : ExecutionStep)
    → ((d : String) → mem d known ≡ true → mem d more ≡ true)
    → (c : Checked String) → ReferenceOk known s c
    → ReferenceOk more s c
reference_mono known more s sub (ok id) k = (sub id k.0, k.1)
reference_mono known more s sub (err e) k = k

StepOk-mono :
    (known more : List String) (s : ExecutionStep)
    → ((d : String) → mem d known ≡ true → mem d more ≡ true)
    → StepOk known s
    → StepOk more s
StepOk-mono known more s sub h = record {
  dependencies =
      All-map (DependencyOk known s) (DependencyOk more s) (λ d k. (k.0, sub d k.1)) s.depends_on
        h.dependencies;
  references =
      All-map (ReferenceOk known s) (ReferenceOk more s) (reference_mono known more s sub)
        (find_step_references (obj s.arguments)) h.references;
}

pub All-mem :
    (P : String → Type 0) (xs : List String) → All P xs → (d : String) → mem d xs ≡ true → P d
All-mem P [] all d m = cc
All-mem P (x ∷ xs) all d m = elim (Bool-cases (x == d)) [
  | inl same ↦ rw (← ((eq_iff x d).0 same)) all.0
  | inr other ↦ All-mem P xs all.1 d (rw other at m)
]

module _ (ss : List ExecutionStep) (t : ExecutionStep)
    (new : mem t.step_id (step_ids ss) ≡ false) where
  find_step-other :
      (id : String) (ts : List ExecutionStep)
      → (t.step_id == id) ≡ false
      → find_step id (ts ++ t ∷ []) ≡ find_step id ts
  find_step-other id [] h = rw h refl
  find_step-other id (s ∷ ts) h = rw (find_step-other id ts h) refl

  find_step-last : (ts : List ExecutionStep) → find_step t.step_id (ts ++ t ∷ []) ≡ some t
  find_step-last [] = rw (eq_refl t.step_id) refl
  find_step-last (s ∷ ts) = rw (find_step-last ts) refl

  Grounded-add : {id : String} → Grounded ss id → Grounded (ss ++ t ∷ []) id
  Grounded-add (grounded id step found sub) =
      let differ : (t.step_id == id) ≡ false =
        ground (arith, eq_iff t.step_id id, mem-find_step id ss found) in
      grounded id step (rw (find_step-other id ss differ) found) (λ d m. Grounded-add (sub d m))

  in_both : (d : String) → mem d (step_ids ss) ≡ true → mem d (step_ids (ss ++ t ∷ [])) ≡ true
  in_both d m =
      rw (step_ids-append ss (t ∷ [])) (rw (mem-append d (step_ids ss) (t.step_id ∷ []), m) refl)

  Grounded-new :
      ((d : String) → mem d t.depends_on ≡ true → Grounded ss d)
      → (id : String) → mem id (step_ids (ss ++ t ∷ [])) ≡ true
      → ((d : String) → mem d (step_ids ss) ≡ true → Grounded ss d)
      → Grounded (ss ++ t ∷ []) id
  Grounded-new own id m all = elim (Bool-cases (t.step_id == id)) [
    | inl same ↦
        rw (← ((eq_iff t.step_id id).0 same))
          (grounded t.step_id t (find_step-last ss) (λ d k. Grounded-add (own d k)))
    | inr other ↦
        let parts =
          rw (step_ids-append ss (t ∷ []), mem-append id (step_ids ss) (t.step_id ∷ [])) at m in
        Grounded-add (all id (ground arith))
  ]

  IsWellFormed-add :
      StepOk (step_ids ss) t
      → IsWellFormed (record { steps = ss })
      → IsWellFormed (record { steps = ss ++ t ∷ [] })
  IsWellFormed-add h w =
      let known = step_ids (ss ++ t ∷ []) in
      record {
        unique_ids =
            rw (step_ids-append ss (t ∷ []))
              (is_unique-add t.step_id (step_ids ss) new w.unique_ids);
        steps_ok =
            All-append (StepOk known) ss (t ∷ [])
              (All-map _ (StepOk known) (λ s. StepOk-mono (step_ids ss) known s in_both) ss
                w.steps_ok)
              (StepOk-mono (step_ids ss) known t in_both h, tt);
        acyclic = λ id m.
            Grounded-new
              (λ d k.
                w.acyclic d
                  (All-mem (DependencyOk (step_ids ss) t) t.depends_on h.dependencies d k).1)
              id m w.acyclic;
      }

module _ (environment : Environment) (calendar : String) (named : IsIdentifier calendar) where
  new_step-StepOk :
      (known : List String) (id service : String)
      → mem id known ≡ false
      → mem calendar known ≡ true
      → StepOk known (new_step calendar id service)
  new_step-StepOk known id service new there = record {
    dependencies = ((ne_of_mem calendar id known there new, there), tt);
    references =
        rw (contextual-references calendar service named) ((there, rw (eq_refl calendar) refl), tt);
  }

  pub add_searches-IsWellFormed :
      (services : List String) (ss ts : List ExecutionStep)
      → add_searches environment calendar services ss ≡ ok ts
      → mem calendar (step_ids ss) ≡ true
      → IsWellFormed (record { steps = ss })
      → IsWellFormed (record { steps = ts })
  add_searches-IsWellFormed [] ss ts h there w = let same : ss ≡ ts = cc in rw (← same) w
  add_searches-IsWellFormed (service ∷ services) ss ts h there w =
      let (id, chosen, rest) = >>=-eq-ok (step_id_for environment service (step_ids ss)) _ h in
      let new = fresh_id-not-mem environment _ _ (step_ids ss) _ _ chosen in
      let t = new_step calendar id service in
      add_searches-IsWellFormed services (ss ++ t ∷ []) ts rest (in_both ss t new calendar there)
        (IsWellFormed-add ss t new (new_step-StepOk (step_ids ss) id service new there) w)

  pub add_searches-keeps :
      (P : ExecutionStep → Type 0) (services : List String) (ss ts : List ExecutionStep)
      → add_searches environment calendar services ss ≡ ok ts
      → All P ts
      → All P ss
  add_searches-keeps P [] ss ts h all = let same : ss ≡ ts = cc in rw same all
  add_searches-keeps P (service ∷ services) ss ts h all =
      let (id, chosen, rest) = >>=-eq-ok (step_id_for environment service (step_ids ss)) _ h in
      All-left P ss _
        (add_searches-keeps P services (ss ++ new_step calendar id service ∷ []) ts rest all)
