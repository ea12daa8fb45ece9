-- ===== src/Specs/Marker.antt =====
-- The argument names that app/orchestration/operation_specs.py leaves to references.
use agentic_google_workspace.Prelude.{
  String, ◌≡◌, refl, Bool, true, false, not, ◌||◌, some, [], ◌∷◌, ◌==◌, eq_iff, mem, all, ok, arith,
  Bool-cases, inl, inr,
}
use agentic_google_workspace.Dict.{Dict, lookup, keys}
use agentic_google_workspace.Json.{Fields, end, field, has, names}
use agentic_google_workspace.Contracts.{Service}
use agentic_google_workspace.Specs.Catalog.{OperationSpec, operation_specifications}
use agentic_google_workspace.Specs.Values.{Iso}
use agentic_google_workspace.Specs.Validate.{declared, validate_operation_arguments}
use agentic_google_workspace.Specs.Accepted.{validate-Accepted}

abbrev has_argument : String → OperationSpec → Bool
has_argument name spec =
    mem name (keys spec.required_arguments) || mem name (keys spec.optional_arguments)

abbrev no_operation_has : String → Dict OperationSpec → Bool
no_operation_has name table = all (λ entry. not (has_argument name entry.1)) table

no_marker : (service : Service) → no_operation_has "$step" (operation_specifications service) ≡ true
no_marker Service.gmail = refl
no_marker Service.google_calendar = refl
no_marker Service.google_drive = refl
no_marker Service.workspace = refl

lookup-lacks :
    (name operation : String) (table : Dict OperationSpec) (spec : OperationSpec)
    → no_operation_has name table ≡ true
    → lookup operation table ≡ some spec
    → has_argument name spec ≡ false
lookup-lacks name operation [] spec h k = cc
lookup-lacks name operation ((o, s) ∷ table) spec h k = elim (Bool-cases (o == operation)) [
  | inl same ↦ ground arith
  | inr other ↦ lookup-lacks name operation table spec (ground arith) (ground arith)
]

declared-lacks :
    (name : String) (spec : OperationSpec) (fs : Fields)
    → has_argument name spec ≡ false
    → declared spec (names fs) ≡ true
    → has name fs ≡ false
declared-lacks name spec end h k = refl
declared-lacks name spec (field i v fs) h k =
    ground (arith, eq_iff i name, declared-lacks name spec fs h)

-- No argument that an operation accepts is named `$step`, so the arguments are not a reference.
pub accepted-has_marker :
    (iso : Iso) (service : Service) (operation : String) (arguments : Fields) (allow : Bool)
    → validate_operation_arguments iso service operation arguments allow ≡ ok tt
    → has "$step" arguments ≡ false
accepted-has_marker iso service operation arguments allow h =
    let (spec, accepted) = validate-Accepted iso service operation arguments allow h in
    declared-lacks "$step" spec arguments
      (lookup-lacks "$step" operation (operation_specifications service) spec (no_marker service)
        accepted.found)
      accepted.names_declared
