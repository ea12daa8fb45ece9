-- ===== src/References.antt =====
-- `_resolve_references` of app/orchestration/executor.py: a step's arguments with the references to
-- earlier results replaced by the values that they name.
pub mod Walk
pub mod Resolve
mod Tests
use Prim.Native.Char.{Char}
use agentic_google_workspace.Prelude.{
  ℕ, zero, suc, ◌+◌, ◌*◌, String, ◌≡◌, refl, Bool, true, false, ◌&&◌, ◌||◌, Option, none, some,
  List, [], ◌∷◌, ◌++◌, ◌==◌, if◌then◌else◌, leb, ok, err, ◌>>=◌, get_elem?,
}
use agentic_google_workspace.Prelude.Int.{pos, negsuc}
use agentic_google_workspace.Dict.{Dict, lookup}
use agentic_google_workspace.Json.{
  Json, Items, Fields, null, bool, int, float, str, arr, obj, nil, cons, end, field, get, has,
  get_or, items,
}
use agentic_google_workspace.Contracts.{
  StepResult, Exception, value_error, reference_error, Checked,
}

-- The character tables behind `str.isdigit` and `int`: not every digit has a decimal value.
pub record Unicode : Type 0 where
  pub is_digit : Char → Bool
  pub decimal : Char → Option ℕ

module _ (u : Unicode) where
  abbrev all_digits : String → Bool
  all_digits String.[] = true
  all_digits (String.◌∷◌ c s) = u.is_digit c && all_digits s

  -- `segment.isdigit()`
  abbrev pub is_digits : String → Bool
  is_digits String.[] = false
  is_digits (String.◌∷◌ c s) = u.is_digit c && all_digits s

  abbrev read_digits : ℕ → String → Option ℕ
  read_digits acc String.[] = some acc
  read_digits acc (String.◌∷◌ c s) = elim (u.decimal c) [
    | none ↦ none
    | some d ↦ read_digits (acc * 10 + d) s
  ]

  abbrev count_characters : String → ℕ
  count_characters String.[] = 0
  count_characters (String.◌∷◌ c s) = suc (count_characters s)

  -- `int(segment)` on digits; Python refuses more than 4300 of them.
  abbrev pub to_int : String → Checked ℕ
  to_int s =
      if leb (count_characters s) 4300
      then (elim (read_digits 0 s) [
        | none ↦ err (value_error "invalid literal for int()")
        | some n ↦ ok n
      ])
      else err (value_error "Exceeds the limit for integer string conversion")

  -- A text segment at a list may stand for an index.
  pub normalize_segment : Json → Json → Checked Json
  normalize_segment (arr xs) (str s) =
      if s == "first" || s == "next"
      then ok (int (pos 0))
      else if is_digits s
      then (to_int s >>= λ n. ok (int (pos n)))
      else ok (str s)
  normalize_segment _ segment = ok segment

  -- One round of the loop; `traversed` and the segment are the path that an error reports.
  pub descend : String → List Json → Json → Json → Checked Json
  descend step_id traversed (obj fs) (str s) = elim (get s fs) [
    | none ↦ err (reference_error "reference_field_missing" step_id (traversed ++ str s ∷ []))
    | some v ↦ ok v
  ]
  descend step_id traversed (arr xs) (int (pos n)) = elim (get_elem? (items xs) n) [
    | none ↦
        err (reference_error "reference_element_missing" step_id (traversed ++ int (pos n) ∷ []))
    | some v ↦ ok v
  ]
  descend step_id traversed (arr xs) (int (negsuc n)) =
      err (reference_error "reference_element_missing" step_id (traversed ++ int (negsuc n) ∷ []))
  descend step_id traversed _ segment =
      err (reference_error "reference_shape_mismatch" step_id (traversed ++ segment ∷ []))

  -- `for segment in path`
  pub walk : String → List Json → Json → List Json → Checked Json
  walk step_id traversed current [] = ok current
  walk step_id traversed current (segment ∷ path) = do
    normalized ← normalize_segment current segment
    next ← descend step_id traversed current normalized
    walk step_id (traversed ++ normalized ∷ []) next path

  abbrev follow_result : String → List Json → Option StepResult → Checked Json
  follow_result step_id path none = err (reference_error "reference_step_missing" step_id path)
  follow_result step_id path (some result) = walk step_id [] (obj result.content) path

  abbrev follow_parts : Dict StepResult → Json → Json → Checked Json
  follow_parts results (str step_id) (arr path) =
      follow_result step_id (items path) (lookup step_id results)
  follow_parts results _ _ = err (value_error "Malformed step reference")

  -- The dict has the key `$step`.
  pub follow : Dict StepResult → Fields → Checked Json
  follow results fs = follow_parts results (get_or "$step" fs null) (get_or "path" fs (arr nil))

  module _ (results : Dict StepResult) where
    mutual
      pub resolve_references : Json → Checked Json
      resolve_references (obj fs) =
          let inner = resolve_fields fs in
          if has "$step" fs then follow results fs else (inner >>= λ gs. ok (obj gs))
      resolve_references (arr xs) = resolve_items xs >>= λ ys. ok (arr ys)
      resolve_references value = ok value

      pub resolve_items : Items → Checked Items
      resolve_items nil = ok nil
      resolve_items (cons x xs) =
          resolve_references x >>= λ y. (resolve_items xs >>= λ ys. ok (cons y ys))

      pub resolve_fields : Fields → Checked Fields
      resolve_fields end = ok end
      resolve_fields (field k v fs) =
          resolve_references v >>= λ w. (resolve_fields fs >>= λ gs. ok (field k w gs))
