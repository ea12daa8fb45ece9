-- ===== src/References/Resolve.antt =====
-- The arguments that `_resolve_references` returns, and the exceptions that it can raise.
use agentic_google_workspace.Prelude.{
  String, ◌≡◌, refl, Option, none, some, List, [], ◌∷◌, ◌++◌, ok, err, ◌>>=◌, arith, Bool-cases,
  inl, inr,
}
use agentic_google_workspace.Dict.{Dict, lookup}
use agentic_google_workspace.Prelude.Int.{pos}
use agentic_google_workspace.Json.{
  Json, Items, Fields, null, bool, int, float, str, arr, obj, nil, cons, end, field, has, get_or,
  items,
}
use agentic_google_workspace.Contracts.{
  Checked, StepResult, Exception, value_error, reference_error, type_error, key_error,
}
use agentic_google_workspace.Contracts.Graph.{
  find_step_references, references_in_items, references_in_fields,
}
use agentic_google_workspace.References.{
  Unicode, to_int, normalize_segment, descend, walk, follow_result, follow_parts, follow,
  resolve_references, resolve_items, resolve_fields,
}

-- The exceptions that the executor turns into a failed step.
abbrev pub IsCaught : Exception → Type 0
IsCaught (value_error m) = Unit
IsCaught (reference_error c s p) = Unit
IsCaught (key_error k) = Unit
IsCaught type_error = Unit
IsCaught _ = ⊥

-- A check returns, or raises an exception that the executor catches.
abbrev pub RaisesCaught : {A : Type 0} → Checked A → Type 0
RaisesCaught (ok a) = Unit
RaisesCaught (err e) = IsCaught e

RaisesCaught-bind :
    {A B : Type 0} (m : Checked A) (f : A → Checked B)
    → RaisesCaught m
    → ((a : A) → RaisesCaught (f a))
    → RaisesCaught (m >>= f)
RaisesCaught-bind (ok a) f h k = k a
RaisesCaught-bind (err e) f h k = h

parts-nil : {A : Type 0} (xs ys : List A) → xs ++ ys ≡ [] → (xs ≡ []) × (ys ≡ [])
parts-nil [] ys h = (refl, h)
parts-nil (x ∷ xs) ys h = cc

module _ (u : Unicode) where
  to_int-RaisesCaught : (s : String) → RaisesCaught (to_int u s)
  to_int-RaisesCaught s = ground arith

  normalize-RaisesCaught :
      (current segment : Json) → RaisesCaught (normalize_segment u current segment)
  unfolding normalize_segment
  normalize-RaisesCaught (arr xs) (str s) = ground (arith, to_int-RaisesCaught s)
  normalize-RaisesCaught _ _ = ground arith

  descend-RaisesCaught :
      (id : String) (tr : List Json) (current segment : Json)
      → RaisesCaught (descend u id tr current segment)
  unfolding descend
  descend-RaisesCaught id tr (obj fs) (str s) = ground arith
  descend-RaisesCaught id tr (arr xs) (int (pos n)) = ground arith
  descend-RaisesCaught id tr _ _ = ground arith

  walk-RaisesCaught :
      (id : String) (tr : List Json) (current : Json) (path : List Json)
      → RaisesCaught (walk u id tr current path)
  unfolding walk
  walk-RaisesCaught id tr current [] = tt
  walk-RaisesCaught id tr current (segment ∷ path) =
      RaisesCaught-bind (normalize_segment u current segment) _
        (normalize-RaisesCaught current segment)
        λ n.
          RaisesCaught-bind (descend u id tr current n) _ (descend-RaisesCaught id tr current n)
            λ next. walk-RaisesCaught id (tr ++ n ∷ []) next path

  result-RaisesCaught :
      (s : String) (path : List Json) (r : Option StepResult)
      → RaisesCaught (follow_result u s path r)
  result-RaisesCaught s path none = tt
  result-RaisesCaught s path (some r) = walk-RaisesCaught s [] (obj r.content) path

  module _ (results : Dict StepResult) where
    parts-RaisesCaught : (step_id path : Json) → RaisesCaught (follow_parts u results step_id path)
    parts-RaisesCaught (str s) (arr path) = result-RaisesCaught s (items path) (lookup s results)
    parts-RaisesCaught _ _ = tt

    follow-RaisesCaught : (fs : Fields) → RaisesCaught (follow u results fs)
    unfolding follow
    follow-RaisesCaught fs =
        parts-RaisesCaught (get_or "$step" fs null) (get_or "path" fs (arr nil))

    mutual
      unfolding resolve_references

      pub resolve-RaisesCaught : (v : Json) → RaisesCaught (resolve_references u results v)
      resolve-RaisesCaught (obj fs) = elim (Bool-cases (has "$step" fs)) [
        | inl r ↦ rw r (follow-RaisesCaught fs)
        | inr plain ↦
            rw plain (
              RaisesCaught-bind (resolve_fields u results fs) _ (fields-RaisesCaught fs) (λ gs. tt))
      ]
      resolve-RaisesCaught (arr xs) =
          RaisesCaught-bind (resolve_items u results xs) _ (items-RaisesCaught xs) (λ ys. tt)
      resolve-RaisesCaught null = tt
      resolve-RaisesCaught (bool b) = tt
      resolve-RaisesCaught (int n) = tt
      resolve-RaisesCaught (float m e) = tt
      resolve-RaisesCaught (str s) = tt

      items-RaisesCaught : (xs : Items) → RaisesCaught (resolve_items u results xs)
      items-RaisesCaught nil = tt
      items-RaisesCaught (cons x xs) =
          RaisesCaught-bind (resolve_references u results x) _ (resolve-RaisesCaught x)
            λ y. RaisesCaught-bind (resolve_items u results xs) _ (items-RaisesCaught xs) (λ ys. tt)

      fields-RaisesCaught : (fs : Fields) → RaisesCaught (resolve_fields u results fs)
      fields-RaisesCaught end = tt
      fields-RaisesCaught (field k v fs) =
          RaisesCaught-bind (resolve_references u results v) _ (resolve-RaisesCaught v) λ y.
            RaisesCaught-bind (resolve_fields u results fs) _ (fields-RaisesCaught fs) (λ ys. tt)

    -- Arguments that hold no reference are passed on as they are, whatever the results.
    mutual
      unfolding resolve_references find_step_references

      resolve-plain :
          (v : Json) → find_step_references v ≡ [] → resolve_references u results v ≡ ok v
      resolve-plain (obj fs) h = elim (Bool-cases (has "$step" fs)) [
        | inl r ↦ cc (rw r at h)
        | inr plain ↦ rw (plain, fields-plain fs (rw plain at h))
      ]
      resolve-plain (arr xs) h = rw (items-plain xs h)
      resolve-plain null h = refl
      resolve-plain (bool b) h = refl
      resolve-plain (int n) h = refl
      resolve-plain (float m e) h = refl
      resolve-plain (str s) h = refl

      items-plain : (xs : Items) → references_in_items xs ≡ [] → resolve_items u results xs ≡ ok xs
      items-plain nil h = refl
      items-plain (cons x xs) h =
          let (hx, hxs) = parts-nil (find_step_references x) (references_in_items xs) h in
          rw (resolve-plain x hx, items-plain xs hxs)

      fields-plain :
          (fs : Fields) → references_in_fields fs ≡ [] → resolve_fields u results fs ≡ ok fs
      fields-plain end h = refl
      fields-plain (field k v fs) h =
          let (hv, hfs) = parts-nil (find_step_references v) (references_in_fields fs) h in
          rw (resolve-plain v hv, fields-plain fs hfs)

-- Resolving the arguments of a step returns, or raises an exception of the kinds that the executor
-- turns into a failed step.
pub resolve_references-RaisesCaught :
    (u : Unicode) (results : Dict StepResult) (v : Json)
    → RaisesCaught (resolve_references u results v)
resolve_references-RaisesCaught u results v = resolve-RaisesCaught u results v

-- Arguments in which the plan's validation finds no reference are resolved to themselves, whatever
-- the results are.
pub resolve_references-plain :
    (u : Unicode) (results : Dict StepResult) (v : Json)
    → find_step_references v ≡ []
    → resolve_references u results v ≡ ok v
resolve_references-plain u results v h = resolve-plain u results v h
