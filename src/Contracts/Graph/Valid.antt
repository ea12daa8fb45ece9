-- ===== src/Contracts/Graph/Valid.antt =====
-- The plans that `ExecutionPlan.validate_graph` accepts, described without the search.
use agentic_google_workspace.Prelude.{
  suc, String, ◌≡◌, ◌≢◌, ◌↔◌, refl, true, List, [], ◌∷◌, eq_iff, mem, is_unique, length, ok, err,
  guard, >>=-eq-ok, arith, All, All-map,
}
use agentic_google_workspace.Json.{obj}
use agentic_google_workspace.Contracts.Types.{ExecutionStep, ExecutionPlan, Checked}
use agentic_google_workspace.Contracts.Graph.{
  for_each, step_ids, find_step_references, check_dependency, check_reference, check_step, visit,
  visit_all, validate_graph,
}
use agentic_google_workspace.Contracts.Graph.Sound.{Grounded, search-Grounded}
use agentic_google_workspace.Contracts.Graph.Complete.{search-total}

-- A dependency is another step of the plan.
abbrev pub DependencyOk : List String → ExecutionStep → String → Type 0
DependencyOk known step d = (d ≢ step.step_id) × (mem d known ≡ true)

-- A reference in the arguments is well-formed, and names a step that is depended on.
abbrev pub ReferenceOk : List String → ExecutionStep → Checked String → Type 0
ReferenceOk known step (err e) = ⊥
ReferenceOk known step (ok id) = (mem id known ≡ true) × (mem id step.depends_on ≡ true)

pub record StepOk (known : List String) (step : ExecutionStep) : Type 0 where
  pub dependencies : All (DependencyOk known step) step.depends_on
  pub references : All (ReferenceOk known step) (find_step_references (obj step.arguments))

pub record IsWellFormed (plan : ExecutionPlan) : Type 0 where
  pub unique_ids : is_unique (step_ids plan.steps) ≡ true
  pub steps_ok : All (StepOk (step_ids plan.steps)) plan.steps
  pub acyclic : (id : String) → mem id (step_ids plan.steps) ≡ true → Grounded plan.steps id

pub for_each-All :
    {A : Type 0} (f : A → Checked (Unit {0})) (xs : List A)
    → for_each f xs ≡ ok tt
    → All (λ x. f x ≡ ok tt) xs
for_each-All f [] h = tt
for_each-All f (x ∷ xs) h =
    let (u, hx, hr) = >>=-eq-ok (f x) (λ _. for_each f xs) h in (hx, for_each-All f xs hr)

All-for_each :
    {A : Type 0} (f : A → Checked (Unit {0})) (xs : List A)
    → All (λ x. f x ≡ ok tt) xs
    → for_each f xs ≡ ok tt
All-for_each f [] h = refl
All-for_each f (x ∷ xs) h = rw h.0 (All-for_each f xs h.1)

module _ (known : List String) (step : ExecutionStep) where
  check_dependency_iff :
      (d : String) → (check_dependency known step d ≡ ok tt) ↔ DependencyOk known step d
  unfolding check_dependency
  check_dependency_iff d = ground (arith, eq_iff d step.step_id)

  check_reference_iff :
      (r : Checked String) → (check_reference known step r ≡ ok tt) ↔ ReferenceOk known step r
  unfolding check_reference
  check_reference_iff (ok id) = ground arith
  check_reference_iff (err e) = ground arith

  check_step_iff : (check_step known step ≡ ok tt) ↔ StepOk known step
  unfolding check_step
  check_step_iff = (
    λ h.
        let refs = find_step_references (obj step.arguments) in
        let (u, hd, hr) =
          >>=-eq-ok (for_each (check_dependency known step) step.depends_on)
            (λ _. for_each (check_reference known step) refs) h in
        record {
          dependencies =
              All-map _ _ (λ d. (check_dependency_iff d).0) step.depends_on
                (for_each-All _ step.depends_on hd);
          references = All-map _ _ (λ r. (check_reference_iff r).0) refs (for_each-All _ refs hr);
        },
    λ k.
        let refs = find_step_references (obj step.arguments) in
        rw
          (All-for_each (check_dependency known step) step.depends_on
            (All-map _ _ (λ d. (check_dependency_iff d).1) step.depends_on k.dependencies))
          (All-for_each (check_reference known step) refs
            (All-map _ _ (λ r. (check_reference_iff r).1) refs k.references)),
  )

accepted-IsWellFormed : (plan : ExecutionPlan) → validate_graph plan ≡ ok tt → IsWellFormed plan
unfolding validate_graph
accepted-IsWellFormed plan h =
    let known = step_ids plan.steps in
    let (u, hu, hrest) = >>=-eq-ok (guard (is_unique known) _) _ h in
    let (v, hs, hsearch) = >>=-eq-ok (for_each (check_step known) plan.steps) _ hrest in
    let (vs, hv, hend) =
      >>=-eq-ok (visit_all (visit plan.steps (suc (length plan.steps))) known []) _ hsearch in
    record {
      unique_ids = ground arith;
      steps_ok =
          All-map _ _ (λ s. (check_step_iff known s).0) plan.steps (for_each-All _ plan.steps hs);
      acyclic = search-Grounded plan.steps (suc (length plan.steps)) known vs hv;
    }

IsWellFormed-accepted : (plan : ExecutionPlan) → IsWellFormed plan → validate_graph plan ≡ ok tt
unfolding validate_graph
IsWellFormed-accepted plan w =
    let known = step_ids plan.steps in
    let (vs, hv) = search-total plan.steps w.acyclic in
    let steps : for_each (check_step known) plan.steps ≡ ok tt =
      All-for_each _ plan.steps
        (All-map _ _ (λ s. (check_step_iff known s).1) plan.steps w.steps_ok) in
    rw (w.unique_ids, steps, hv)

-- A plan is accepted exactly if its step identifiers differ, its dependencies are other steps of it,
-- its references are well-formed and among the dependencies of their step, and the dependencies of
-- every step are well-founded.
pub validate_graph_iff : (plan : ExecutionPlan) → (validate_graph plan ≡ ok tt) ↔ IsWellFormed plan
validate_graph_iff plan = (accepted-IsWellFormed plan, IsWellFormed-accepted plan)
