-- ===== src/Executor/Steps.antt =====
-- The dict of the steps by identifier, for a plan whose identifiers differ.
use agentic_google_workspace.Prelude.{
  String, ◌≡◌, refl, true, false, none, some, List, [], ◌∷◌, ◌++◌, eq_iff, eq_refl, mem, is_unique,
  mem-append, All, All-map, arith, inl, inr, Option-cases, ◌∙◌,
}
use mathlib.Core.List.{append-nil, append_assoc}
use agentic_google_workspace.Contracts.{ExecutionStep}
use agentic_google_workspace.Contracts.Graph.{step_ids, find_step}
use agentic_google_workspace.Contracts.Graph.Complete.{mem-find_step}
use agentic_google_workspace.Executor.{put_step, steps_by_id}

-- Each step is the one that its identifier finds.
abbrev pub IsLocated : List ExecutionStep → ExecutionStep → Type 0
IsLocated steps s = find_step s.step_id steps ≡ some s

find_step-none :
    (id : String) (ss : List ExecutionStep) → mem id (step_ids ss) ≡ false → find_step id ss ≡ none
find_step-none id ss h = elim (Option-cases (find_step id ss)) [
  | inl e ↦ e
  | inr (s, e) ↦ cc (mem-find_step id ss e)
]

pub IsLocated-of_unique :
    (ss : List ExecutionStep) → is_unique (step_ids ss) ≡ true → All (IsLocated ss) ss
IsLocated-of_unique [] h = tt
IsLocated-of_unique (s ∷ ss) h = (
  ground (arith, find_step-none s.step_id ss (ground arith), eq_refl s.step_id),
  All-map (IsLocated ss) (IsLocated (s ∷ ss)) (λ t e. rw e) ss
      (IsLocated-of_unique ss (ground arith)),
)

put_step-new :
    (s : ExecutionStep) (acc : List ExecutionStep)
    → mem s.step_id (step_ids acc) ≡ false
    → put_step s acc ≡ acc ++ s ∷ []
put_step-new s [] h = refl
put_step-new s (t ∷ acc) h = ground (arith, put_step-new s acc)

step_ids-append : (xs ys : List ExecutionStep) → step_ids (xs ++ ys) ≡ step_ids xs ++ step_ids ys
step_ids-append [] ys = refl
step_ids-append (x ∷ xs) ys = rw (step_ids-append xs ys)

steps_by_id-append :
    (acc ss : List ExecutionStep)
    → is_unique (step_ids ss) ≡ true
    → ((id : String) → mem id (step_ids ss) ≡ true → mem id (step_ids acc) ≡ false)
    → steps_by_id acc ss ≡ acc ++ ss
steps_by_id-append acc [] u h = rw append-nil
steps_by_id-append acc (s ∷ ss) u h =
    rw (put_step-new s acc (h s.step_id (rw (eq_refl s.step_id)))) (
      steps_by_id-append (acc ++ s ∷ []) ss (ground arith) (λ id m.
        rw (step_ids-append, mem-append id (step_ids acc) (s.step_id ∷ []))
          (ground (arith, h id (ground arith), eq_iff s.step_id id)))
      ∙ append_assoc acc (s ∷ []) ss)

-- The dict holds the steps of the plan, in order.
pub steps_by_id_unique :
    (ss : List ExecutionStep) → is_unique (step_ids ss) ≡ true → steps_by_id [] ss ≡ ss
steps_by_id_unique ss u = steps_by_id-append [] ss u (λ id m. refl)
