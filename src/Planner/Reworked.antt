-- ===== src/Planner/Reworked.antt =====
-- The steps that app/orchestration/planner.py changes: their place in the graph of the plan.
use agentic_google_workspace.Prelude.{
  String, ◌≡◌, refl, true, false, Option, none, some, List, [], ◌∷◌, eq_refl, mem, All, All-map, ok,
  err, arith, Bool-cases, Option-cases, inl, inr,
}
use agentic_google_workspace.Json.{Fields, obj, get, has}
use agentic_google_workspace.Text.{strip_whitespace, is_identifier}
use agentic_google_workspace.Contracts.{ExecutionStep, Checked}
use agentic_google_workspace.Contracts.Graph.{
  find_step_references, references_in_fields, parse_reference, step_ids, find_step,
}
use agentic_google_workspace.Contracts.Graph.Sound.{Grounded, grounded}
use agentic_google_workspace.Contracts.Graph.Valid.{DependencyOk, ReferenceOk, StepOk, IsWellFormed}
use agentic_google_workspace.Planner.References.{Keeps}
use agentic_google_workspace.Planner.Routing.{
  target_service, calendar_dependency, contextual_arguments, reroute, route_steps,
}

-- A text that the pattern of the step identifiers accepts, without space around it.
pub record IsIdentifier (id : String) : Type 0 where
  pub stripped : strip_whitespace id ≡ id
  pub letters : is_identifier id ≡ true

abbrev pub HasNoMarker : ExecutionStep → Type 0
HasNoMarker step = has "$step" step.arguments ≡ false

-- The step keeps its identifier and its dependencies, and its references are good if they were.
pub record Reworked (known : List String) (s t : ExecutionStep) : Type 0 where
  pub same_id : t.step_id ≡ s.step_id
  pub same_depends : t.depends_on ≡ s.depends_on
  pub refs :
      HasNoMarker t
      → All (ReferenceOk known s) (find_step_references (obj s.arguments))
      → All (ReferenceOk known s) (find_step_references (obj t.arguments))

abbrev pub AllReworked : List String → List ExecutionStep → List ExecutionStep → Type 0
AllReworked known [] [] = Unit
AllReworked known (s ∷ ss) (t ∷ ts) = Reworked known s t × AllReworked known ss ts
AllReworked known _ _ = ⊥

has-get : (k : String) (fs gs : Fields) → get k gs ≡ get k fs → has k gs ≡ has k fs
has-get k fs gs h = cc

fields-references :
    (fs : Fields) → has "$step" fs ≡ false → find_step_references (obj fs) ≡ references_in_fields fs
unfolding find_step_references
fields-references fs h = rw h refl

pub Keeps-Reworked :
    (known : List String) (s : ExecutionStep) (gs : Fields)
    → Keeps (ReferenceOk known s) s.arguments gs
    → Reworked known s (record s { arguments = gs })
Keeps-Reworked known s gs k = record {
  same_id = refl;
  same_depends = refl;
  refs = λ none_after before.
      let none_before : has "$step" s.arguments ≡ false =
        rw (has-get "$step" s.arguments gs k.same) at none_after in
      rw (fields-references gs none_after)
        (k.refs (rw (fields-references s.arguments none_before) at before));
}

pub contextual-references :
    (id service : String)
    → IsIdentifier id
    → find_step_references (obj (contextual_arguments id service)) ≡ ok id ∷ []
unfolding find_step_references parse_reference
contextual-references id service h = rw (h.stripped, h.letters) refl

dependency-known :
    (calendar ds : List String) (id : String)
    → calendar_dependency calendar ds ≡ some id
    → (mem id ds ≡ true) × (mem id calendar ≡ true)
dependency-known calendar [] id h = cc
dependency-known calendar (d ∷ ds) id h = elim (Bool-cases (mem d calendar)) [
  | inl there ↦ let same : d ≡ id = ground arith in (ground (arith, eq_refl id), rw same at there)
  | inr other ↦
      let (depended, in_calendar) = dependency-known calendar ds id (rw other at h) in
      (ground arith, in_calendar)
]

module _ (known calendar : List String)
    (good : (id : String) → mem id calendar ≡ true → IsIdentifier id × (mem id known ≡ true)) where
  reroute-Reworked :
      (s u : ExecutionStep) (service dependency : Option String)
      → calendar_dependency calendar u.depends_on ≡ dependency
      → Reworked known s u
      → Reworked known s (reroute u service dependency)
  reroute-Reworked s u (some service) (some id) h r =
      let (depended, in_calendar) = dependency-known calendar u.depends_on id h in
      let (identifier, is_known) = good id in_calendar in
      record {
        same_id = r.same_id;
        same_depends = r.same_depends;
        refs = λ none_after before.
            rw (contextual-references id service identifier)
              ((is_known, rw (← r.same_depends) depended), tt);
      }
  reroute-Reworked s u (some service) none h r = r
  reroute-Reworked s u none dependency h r = r

  pub route-AllReworked :
      (ss us : List ExecutionStep)
      → AllReworked known ss us
      → AllReworked known ss (route_steps calendar us)
  route-AllReworked [] [] r = tt
  route-AllReworked (s ∷ ss) (u ∷ us) r = (
    reroute-Reworked s u (target_service u.service u.operation)
        (calendar_dependency calendar u.depends_on) refl r.0,
    route-AllReworked ss us r.1,
  )
  route-AllReworked [] (u ∷ us) r = r
  route-AllReworked (s ∷ ss) [] r = r

pub step_ids-AllReworked :
    (known : List String) (ss ts : List ExecutionStep)
    → AllReworked known ss ts
    → step_ids ts ≡ step_ids ss
step_ids-AllReworked known [] [] r = refl
step_ids-AllReworked known (s ∷ ss) (t ∷ ts) r =
    rw (r.0.same_id, step_ids-AllReworked known ss ts r.1) refl
step_ids-AllReworked known [] (t ∷ ts) r = absurd r
step_ids-AllReworked known (s ∷ ss) [] r = absurd r

abbrev depends_at : String → List ExecutionStep → Option (List String)
depends_at id steps = elim (find_step id steps) [ none ↦ none | some s ↦ some s.depends_on ]

depends_at-AllReworked :
    (known : List String) (id : String) (ss ts : List ExecutionStep)
    → AllReworked known ss ts
    → depends_at id ts ≡ depends_at id ss
depends_at-AllReworked known id [] [] r = refl
depends_at-AllReworked known id (s ∷ ss) (t ∷ ts) r =
    ground (arith, depends_at-AllReworked known id ss ts r.1, r.0.same_id, r.0.same_depends)
depends_at-AllReworked known id [] (t ∷ ts) r = absurd r
depends_at-AllReworked known id (s ∷ ss) [] r = absurd r

Grounded-AllReworked :
    (known : List String) (ss ts : List ExecutionStep)
    → AllReworked known ss ts
    → {id : String} → Grounded ss id
    → Grounded ts id
Grounded-AllReworked known ss ts r (grounded id step found sub) =
    let same = depends_at-AllReworked known id ss ts r in
    elim (Option-cases (find_step id ts)) [
      | inl missing ↦ absurd (cc)
      | inr (t, there) ↦
          let depends : t.depends_on ≡ step.depends_on = ground arith in
          grounded id t there (λ d m. Grounded-AllReworked known ss ts r (sub d (rw depends at m)))
    ]

reference-Reworked :
    (known : List String) (s t : ExecutionStep)
    → t.depends_on ≡ s.depends_on
    → (c : Checked String) → ReferenceOk known s c
    → ReferenceOk known t c
reference-Reworked known s t same (ok id) k = (k.0, rw same k.1)
reference-Reworked known s t same (err e) k = k

StepOk-Reworked :
    (known : List String) (s t : ExecutionStep)
    → Reworked known s t
    → HasNoMarker t
    → StepOk known s
    → StepOk known t
StepOk-Reworked known s t r lacks h = record {
  dependencies =
      All-map (DependencyOk known s) (DependencyOk known t) (λ d k. (rw r.same_id k.0, k.1))
        t.depends_on (rw r.same_depends h.dependencies);
  references =
      All-map (ReferenceOk known s) (ReferenceOk known t)
        (reference-Reworked known s t r.same_depends) (find_step_references (obj t.arguments))
        (r.refs lacks h.references);
}

steps_ok-AllReworked :
    (known : List String) (ss ts : List ExecutionStep)
    → AllReworked known ss ts
    → All HasNoMarker ts
    → All (StepOk known) ss
    → All (StepOk known) ts
steps_ok-AllReworked known [] [] r lacks h = tt
steps_ok-AllReworked known (s ∷ ss) (t ∷ ts) r lacks h =
    (StepOk-Reworked known s t r.0 lacks.0 h.0, steps_ok-AllReworked known ss ts r.1 lacks.1 h.1)
steps_ok-AllReworked known [] (t ∷ ts) r lacks h = absurd r
steps_ok-AllReworked known (s ∷ ss) [] r lacks h = absurd r

-- The graph of the reworked steps is as good as that of the steps they come from.
pub IsWellFormed-AllReworked :
    (ss ts : List ExecutionStep)
    → AllReworked (step_ids ss) ss ts
    → All HasNoMarker ts
    → IsWellFormed (record { steps = ss })
    → IsWellFormed (record { steps = ts })
IsWellFormed-AllReworked ss ts r lacks w =
    let same = step_ids-AllReworked (step_ids ss) ss ts r in
    record {
      unique_ids = rw same w.unique_ids;
      steps_ok = rw same (steps_ok-AllReworked (step_ids ss) ss ts r lacks w.steps_ok);
      acyclic = λ id m. Grounded-AllReworked (step_ids ss) ss ts r (w.acyclic id (rw same at m));
    }
