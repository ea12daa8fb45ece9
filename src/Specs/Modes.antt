-- ===== src/Specs/Modes.antt =====
-- `allow_step_references` of `validate_operation_arguments` in app/orchestration/operation_specs.py.
use agentic_google_workspace.Prelude.{
  String, ◌≡◌, refl, Bool, true, false, ◌||◌, ◌==◌, Option, none, some, err, Bool-cases, inl, inr,
}
use agentic_google_workspace.Dict.{lookup}
use agentic_google_workspace.Json.{Json, Fields, end, field, get_or, str}
use agentic_google_workspace.Contracts.{Service, value_error}
use agentic_google_workspace.Contracts.Graph.{for_each}
use agentic_google_workspace.Specs.Catalog.{OperationSpec, operation_specifications}
use agentic_google_workspace.Specs.Values.{Iso, contains_step_reference, field_contains}
use agentic_google_workspace.Specs.Validate.{
  check_argument, check_operation, check_against, pairs, validate_operation_arguments,
}

or-false : (a b : Bool) → (a || b) ≡ false → (a ≡ false) × (b ≡ false)
or-false false b h = (refl, h)
or-false true b h = cc

reader-plain : contains_step_reference (str "reader") ≡ false
unfolding contains_step_reference
reader-plain = refl

field-plain :
    (k : String) (v : Json) (fs : Fields)
    → field_contains (field k v fs) ≡ false
    → (contains_step_reference v ≡ false) × (field_contains fs ≡ false)
unfolding contains_step_reference
field-plain k v fs h = or-false (contains_step_reference v) (field_contains fs) h

module _ (iso : Iso) where
  check_argument-plain :
      (service : Service) (operation : String) (name : String) (v : Json)
      → contains_step_reference v ≡ false
      → check_argument iso service operation true (name, v)
        ≡ check_argument iso service operation false (name, v)
  unfolding check_argument
  check_argument-plain service operation name v h = rw h refl

  for_each-plain :
      (service : Service) (operation : String) (fs : Fields)
      → field_contains fs ≡ false
      → for_each (check_argument iso service operation true) (pairs iso fs)
        ≡ for_each (check_argument iso service operation false) (pairs iso fs)
  for_each-plain service operation end h = refl
  for_each-plain service operation (field k v fs) h =
      rw
        (
          check_argument-plain service operation k v (field-plain k v fs h).0,
          for_each-plain service operation fs (field-plain k v fs h).1,
        )
        refl

get-plain :
    (key : String) (fs : Fields)
    → field_contains fs ≡ false
    → contains_step_reference (get_or key fs (str "reader")) ≡ false
get-plain key end h = reader-plain
get-plain key (field k v fs) h =
    let (hv, hfs) = field-plain k v fs h in
    elim (Bool-cases (k == key)) [
      | inl same ↦ rw (get_or, same) hv
      | inr other ↦ rw (get_or, other) (get-plain key fs hfs)
    ]

check_operation-plain :
    (iso : Iso) (operation : String) (fs : Fields)
    → field_contains fs ≡ false
    → check_operation iso operation fs true ≡ check_operation iso operation fs false
unfolding check_operation
check_operation-plain iso operation fs h = rw (get-plain "role" fs h) refl

against-plain :
    (iso : Iso) (spec : OperationSpec) (service : Service) (operation : String) (arguments : Fields)
    → field_contains arguments ≡ false
    → check_against iso spec service operation arguments true
      ≡ check_against iso spec service operation arguments false
against-plain iso spec service operation arguments h =
    rw
      (
        for_each-plain iso service operation arguments h,
        check_operation-plain iso operation arguments h,
      )
      refl

spec-plain :
    (iso : Iso) (found : Option OperationSpec) (service : Service) (operation : String)
    (arguments : Fields)
    → field_contains arguments ≡ false
    → (elim found [
      | none ↦ err (value_error "Unsupported operation")
      | some spec ↦ check_against iso spec service operation arguments true
    ])
      ≡ (elim found [
        | none ↦ err (value_error "Unsupported operation")
        | some spec ↦ check_against iso spec service operation arguments false
      ])
spec-plain iso none service operation arguments h = refl
spec-plain iso (some spec) service operation arguments h =
    against-plain iso spec service operation arguments h

-- Where the arguments hold no reference, the validation that a plan passes is the one before a call:
-- it accepts, or raises, alike.
pub validate_operation_arguments-plain :
    (iso : Iso) (service : Service) (operation : String) (arguments : Fields)
    → field_contains arguments ≡ false
    → validate_operation_arguments iso service operation arguments true
      ≡ validate_operation_arguments iso service operation arguments false
unfolding validate_operation_arguments
validate_operation_arguments-plain iso service operation arguments h =
    spec-plain iso (lookup operation (operation_specifications service)) service operation arguments
      h
