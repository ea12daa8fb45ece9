-- ===== src/Specs/Accepted.antt =====
-- What is known of arguments that `validate_operation_arguments` accepts.
use mathlib.Core.Path.{subst}
use agentic_google_workspace.Prelude.{
  eq_iff, ℕ, String, ◌≡◌, refl, Bool, true, false, not, ◌&&◌, ◌||◌, [], ◌∷◌, ◌==◌, Option, none,
  some, ok, err, >>=-eq-ok, guard, arith, Bool-cases, inl, inr, All, ◌≤◌,
}
use agentic_google_workspace.Prelude.Int.{pos}
use agentic_google_workspace.Dict.{lookup, keys}
use agentic_google_workspace.Json.{Json, Fields, end, field, has, get, int, names}
use agentic_google_workspace.Contracts.{Service, service_eq, value_error}
use agentic_google_workspace.Contracts.Graph.{for_each}
use agentic_google_workspace.Contracts.Graph.Valid.{for_each-All}
use agentic_google_workspace.Specs.Catalog.{OperationSpec, operation_specifications}
use agentic_google_workspace.Specs.Values.{
  Iso, contains_step_reference, max_results_limit, is_int_within, validate_max_results,
}
use agentic_google_workspace.Specs.Validate.{
  declared, is_subset, check_value, check_argument, check_operation, check_service, check_against,
  pairs, validate_operation_arguments,
}

guard-true : {E : Type 0} (b : Bool) (e : E) → guard b e ≡ ok tt → b ≡ true
guard-true true e h = refl
guard-true false e h = cc

-- What each check of accepted arguments found.
pub record Accepted (iso : Iso) (service : Service) (operation : String) (arguments : Fields)
    (allow : Bool) (spec : OperationSpec) : Type 0 where
  pub found : lookup operation (operation_specifications service) ≡ some spec
  pub names_declared : declared spec (names arguments) ≡ true
  required_given : is_subset (keys spec.required_arguments) (names arguments) ≡ true
  values_ok :
      All (λ pair. check_argument iso service operation allow pair ≡ ok tt) (pairs iso arguments)
  operation_ok : check_operation iso operation arguments allow ≡ ok tt
  service_ok : check_service iso service arguments ≡ ok tt

All-get :
    (iso : Iso) (P : String × Json → Type 0) (key : String) (fs : Fields) {v : Json}
    → All P (pairs iso fs)
    → get key fs ≡ some v
    → P (key, v)
All-get iso P key end all h = cc
All-get iso P key (field k v fs) {v = w} all h = elim (Bool-cases (k == key)) [
  | inl same ↦
      let j : k ≡ key = (eq_iff k key).0 same in
      let found : v ≡ w = ground arith in
      subst (λ x. P (x, w)) j (subst (λ x. P (k, x)) found all.0)
  | inr other ↦ All-get iso P key fs all.1 (ground arith)
]

and-false : (a b : Bool) → (a && b && false) ≡ false
and-false a b = ground arith

and_false : (a : Bool) → (a && false) ≡ false
and_false a = ground arith

is_int_within-pos :
    (upper : ℕ) (v : Json)
    → is_int_within upper v ≡ true
    → (m : ℕ) × (v ≡ int (pos m)) × (1 ≤ m) × (m ≤ upper)
is_int_within-pos upper (int (pos m)) h = (m, refl, ground arith, ground arith)
is_int_within-pos upper _ h = ground arith

module _ (iso : Iso) (service : Service) (operation : String) (arguments : Fields)
    (allow : Bool) where
  against-Accepted :
      (spec : OperationSpec)
      → lookup operation (operation_specifications service) ≡ some spec
      → check_against iso spec service operation arguments allow ≡ ok tt
      → Accepted iso service operation arguments allow spec
  against-Accepted spec found k =
      let (a, ha, k1) = >>=-eq-ok (guard (declared spec (names arguments)) _) _ k in
      let (b, hb, k2) =
        >>=-eq-ok (guard (is_subset (keys spec.required_arguments) (names arguments)) _) _ k1 in
      let (c, hc, k3) =
        >>=-eq-ok (for_each (check_argument iso service operation allow) (pairs iso arguments)) _
          k2 in
      let (d, hd, k4) = >>=-eq-ok (check_operation iso operation arguments allow) _ k3 in
      record {
        found = found;
        names_declared = guard-true _ _ ha;
        required_given = guard-true _ _ hb;
        values_ok = for_each-All _ (pairs iso arguments) hc;
        operation_ok = hd;
        service_ok = k4;
      }

  found-Accepted :
      (found : Option OperationSpec)
      → lookup operation (operation_specifications service) ≡ found
      → (elim found [
        | none ↦ err (value_error "Unsupported operation")
        | some spec ↦ check_against iso spec service operation arguments allow
      ])
        ≡ ok tt
      → (spec : OperationSpec) × Accepted iso service operation arguments allow spec
  found-Accepted none e h = cc
  found-Accepted (some spec) e h = (spec, against-Accepted spec e h)

  pub validate-Accepted :
      validate_operation_arguments iso service operation arguments allow ≡ ok tt
      → (spec : OperationSpec) × Accepted iso service operation arguments allow spec
  unfolding validate_operation_arguments
  validate-Accepted h = found-Accepted (lookup operation (operation_specifications service)) refl h

  max_results-checked :
      (v : Json)
      → contains_step_reference v ≡ false
      → check_argument iso service operation allow ("max_results", v)
        ≡ validate_max_results service v
  unfolding check_argument check_value
  max_results-checked v h =
      rw
        (
          h,
          and_false allow,
          and-false (service_eq service Service.workspace) (operation == "workspace_search"),
        )
        refl

  max_results-within :
      (v : Json)
      → validate_max_results service v ≡ ok tt
      → is_int_within (max_results_limit service) v ≡ true
  unfolding validate_max_results
  max_results-within v h = guard-true (is_int_within (max_results_limit service) v) _ h

-- In accepted arguments, a `max_results` that is not left to a reference is a whole number from 1 to
-- the limit of the service: 250 for the calendar, and 100 for the others.
pub max_results_bounded :
    (iso : Iso) (service : Service) (operation : String) (arguments : Fields) (allow : Bool)
    {v : Json}
    → validate_operation_arguments iso service operation arguments allow ≡ ok tt
    → get "max_results" arguments ≡ some v
    → contains_step_reference v ≡ false
    → (m : ℕ) × (v ≡ int (pos m)) × (1 ≤ m) × (m ≤ max_results_limit service)
max_results_bounded iso service operation arguments allow {v} h g plain =
    let (spec, accepted) = validate-Accepted iso service operation arguments allow h in
    let checked = All-get iso _ "max_results" arguments accepted.values_ok g in
    is_int_within-pos (max_results_limit service) v (
      max_results-within iso service operation arguments allow v
        (rw (max_results-checked iso service operation arguments allow v plain) at checked))

send_email-subset :
    (iso : Iso) (arguments : Fields) (allow : Bool)
    → check_operation iso "send_email" arguments allow ≡ ok tt
    → has "draft_id" arguments ≡ false
    → is_subset ("to" ∷ "subject" ∷ "body" ∷ []) (names arguments) ≡ true
unfolding check_operation
send_email-subset iso arguments allow h missing =
    let (u, first, rest) =
      >>=-eq-ok
        (guard
          (not (true && not (has "draft_id" arguments))
            || is_subset ("to" ∷ "subject" ∷ "body" ∷ []) (names arguments))
          _)
        _ h in
    rw missing at (guard-true _ _ first)

-- A message is only accepted as a draft, or with its recipient, subject and body.
pub send_email_complete :
    (iso : Iso) (service : Service) (arguments : Fields) (allow : Bool)
    → validate_operation_arguments iso service "send_email" arguments allow ≡ ok tt
    → has "draft_id" arguments ≡ false
    → is_subset ("to" ∷ "subject" ∷ "body" ∷ []) (names arguments) ≡ true
send_email_complete iso service arguments allow h missing =
    let (spec, accepted) = validate-Accepted iso service "send_email" arguments allow h in
    send_email-subset iso arguments allow accepted.operation_ok missing
