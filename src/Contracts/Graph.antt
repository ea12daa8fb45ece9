-- ===== src/Contracts/Graph.antt =====
-- `ExecutionPlan.validate_graph` and `_find_step_references` of app/schemas/contracts.py.
pub mod Sound
pub mod Complete
pub mod Valid
mod Tests
use agentic_google_workspace.Prelude.{
  ℕ, zero, suc, ◌+◌, ◌*◌, ◌%◌, ◌^◌, String, ◌≡◌, refl, Bool, true, false, not, ◌&&◌, Option, none,
  some, List, [], ◌∷◌, ◌++◌, ◌==◌, if◌then◌else◌, mem, is_unique, nat_eq, length, all, ok, err,
  ◌>>=◌, ◌>>◌, guard,
}
use agentic_google_workspace.Prelude.Int.{ℤ, pos, negsuc}
use agentic_google_workspace.Dict.{Dict, lookup, insert}
use agentic_google_workspace.Json.{
  Json, Items, Fields, null, bool, int, float, str, arr, obj, nil, cons, end, field, get, has,
  items,
}
use agentic_google_workspace.Text.{strip_whitespace, is_identifier}
use agentic_google_workspace.Contracts.Types.{
  ExecutionStep, ExecutionPlan, Exception, value_error, key_error, recursion_error, Checked,
}

-- Runs a check on each element, up to the first that raises.
abbrev pub for_each : {A : Type 0} → (A → Checked (Unit {0})) → List A → Checked (Unit {0})
for_each f [] = ok tt
for_each f (x ∷ xs) = let rest = for_each f xs in f x >> rest

-- A path segment is `str | int`: a Boolean and a number without a fraction are read as `int`.
abbrev is_segment : Json → Bool
is_segment (str s) = true
is_segment (int n) = true
is_segment (bool b) = true
is_segment (float (pos m) e) = nat_eq (m % 10 ^ e) 0
is_segment (float (negsuc m) e) = nat_eq (suc m % 10 ^ e) 0
is_segment _ = false

abbrev is_path : Json → Bool
is_path (arr xs) = all is_segment (items xs)
is_path _ = false

-- The model allows the two fields and no other.
abbrev only_reference_fields : Fields → Bool
only_reference_fields end = true
only_reference_fields (field k v fs) =
    (if k == "$step" then true else k == "path") && only_reference_fields fs

-- `StepOutputReference.model_validate(value).step_id`
unfoldable pub parse_reference : Fields → Checked String
parse_reference fs = elim (get "$step" fs) [
  | some (str s) ↦
      let id = strip_whitespace s in
      if is_identifier id
      then (if only_reference_fields fs
          then (if (elim (get "path" fs) [ none ↦ true | some p ↦ is_path p ])
              then ok id
              else err (value_error "path"))
          else err (value_error "extra fields"))
      else err (value_error "$step")
  | _ ↦ err (value_error "$step")
]

-- What the generator yields, in order; it stops where `parse_reference` raises.
unfoldable mutual
  pub find_step_references : Json → List (Checked String)
  find_step_references (obj fs) =
      let inner = references_in_fields fs in
      if has "$step" fs then parse_reference fs ∷ [] else inner
  find_step_references (arr xs) = references_in_items xs
  find_step_references _ = []

  pub references_in_items : Items → List (Checked String)
  references_in_items nil = []
  references_in_items (cons x xs) = find_step_references x ++ references_in_items xs

  pub references_in_fields : Fields → List (Checked String)
  references_in_fields end = []
  references_in_fields (field k v fs) = find_step_references v ++ references_in_fields fs

abbrev pub step_ids : List ExecutionStep → List String
step_ids [] = []
step_ids (s ∷ ss) = s.step_id ∷ step_ids ss

-- `steps_by_id[id]`: the dict keeps the last step of each id.
abbrev pub find_step : String → List ExecutionStep → Option ExecutionStep
find_step id [] = none
find_step id (s ∷ ss) = elim (find_step id ss) [
  | some t ↦ some t
  | none ↦ if s.step_id == id then some s else none
]

unfoldable pub check_dependency : List String → ExecutionStep → String → Checked (Unit {0})
check_dependency known step dependency_id =
    if dependency_id == step.step_id
    then err (value_error "step cannot depend on itself")
    else guard (mem dependency_id known) (value_error "step depends on nonexistent step")

unfoldable pub check_reference : List String → ExecutionStep → Checked String → Checked (Unit {0})
check_reference known step (err e) = err e
check_reference known step (ok referenced_id) =
    guard (mem referenced_id known) (value_error "step references nonexistent step")
    >> guard (mem referenced_id step.depends_on) (value_error "step must depend on referenced step")

-- The reference `{"$step": …}` may also be the whole `arguments` dict.
unfoldable pub check_step : List String → ExecutionStep → Checked (Unit {0})
unfolding find_step_references
check_step known step =
    for_each (check_dependency known step) step.depends_on
    >> for_each (check_reference known step) (find_step_references (obj step.arguments))

abbrev pub state_of : String → Dict ℕ → ℕ
state_of id vs = elim (lookup id vs) [ none ↦ 0 | some n ↦ n ]

-- `for dependency_id in …: visit(dependency_id)`
abbrev pub visit_all :
    (String → Dict ℕ → Checked (Dict ℕ)) → List String → Dict ℕ → Checked (Dict ℕ)
visit_all go [] vs = ok vs
visit_all go (d ∷ ds) vs = go d vs >>= visit_all go ds

-- One round of `visit`: 0 is new, 1 is open and 2 is done.
abbrev pub visit_step :
    List ExecutionStep → (String → Dict ℕ → Checked (Dict ℕ)) → String → Dict ℕ → Checked (Dict ℕ)
visit_step steps go id vs =
    if nat_eq (state_of id vs) 1
    then err (value_error "execution plan contains a dependency cycle")
    else if nat_eq (state_of id vs) 2
    then ok vs
    else elim (find_step id steps) [
      | none ↦ err (key_error id)
      | some step ↦ visit_all go step.depends_on (insert id 1 vs) >>= λ done. ok (insert id 2 done)
    ]

unfoldable pub visit : List ExecutionStep → ℕ → String → Dict ℕ → Checked (Dict ℕ)
visit steps zero id vs = err recursion_error
visit steps (suc fuel) id vs = visit_step steps (visit steps fuel) id vs

-- Each open step is another one, so the depth is at most the number of steps, and one more.
unfoldable pub validate_graph : ExecutionPlan → Checked (Unit {0})
unfolding check_step visit
validate_graph plan = do
  let known = step_ids plan.steps
  guard (is_unique known) (value_error "execution plan contains duplicate step IDs")
  for_each (check_step known) plan.steps
  visited ← visit_all (visit plan.steps (suc (length plan.steps))) known []
  ok tt
