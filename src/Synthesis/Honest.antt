-- ===== src/Synthesis/Honest.antt =====
-- What the response of app/orchestration/synthesis.py cannot leave out.
use Prim.Native.Char.{Char}
use Prim.Native.String.{◌++◌}
use Prim.Native.String.append
use agentic_google_workspace.Prelude.{
  String, ◌≡◌, refl, Bool, true, ◌||◌, List, [], ◌∷◌, any, All, All-map, ok, ◌>>=◌, >>=-eq-ok,
  arith, Bool-cases, inl, inr, if◌then◌else◌,
}
use agentic_google_workspace.Json.{Json, get}
use agentic_google_workspace.Contracts.{status_eq, ExecutionStatus, StepResult, Checked}
use agentic_google_workspace.Synthesis.Grounded.{
  join, concat, listed, failed_text, skipped_text, or_default, steps_with, completed_statements,
  pending_statements, grounded_response,
}
use agentic_google_workspace.Synthesis.{
  Writer, is_unfinished, has_contextual_workspace_results, looks_generic_response, response_text,
  request, synthesize,
}

-- The first text is a part of the second.
abbrev pub IsWithin : String → String → Type 0
IsWithin s t = (a : String) × (b : String) × (t ≡ a ++ (s ++ b))

nil_append : (s : String) → "" ++ s ≡ s
nil_append s = λ i. append.nil s i

cons_append : (c : Char) (s t : String) → String.◌∷◌ c s ++ t ≡ String.◌∷◌ c (s ++ t)
cons_append c s t = λ i. append.cons c s t i

assoc : (s t u : String) → (s ++ t) ++ u ≡ s ++ (t ++ u)
assoc String.[] t u = rw (nil_append t, nil_append (t ++ u)) refl
assoc (String.◌∷◌ c s) t u =
    rw (cons_append c s t, cons_append c (s ++ t) u, cons_append c s (t ++ u), assoc s t u) refl

right_unit : (s : String) → s ++ "" ≡ s
right_unit String.[] = nil_append ""
right_unit (String.◌∷◌ c s) = rw (cons_append c s "", right_unit s) refl

IsWithin-self : (s : String) → IsWithin s s
IsWithin-self s = ("", "", rw (nil_append (s ++ ""), right_unit s) refl)

IsWithin-before : (s t u : String) → IsWithin s t → IsWithin s (u ++ t)
IsWithin-before s t u (a, b, e) = (u ++ a, b, rw (e, assoc u a (s ++ b)) refl)

IsWithin-after : (s t u : String) → IsWithin s t → IsWithin s (t ++ u)
IsWithin-after s t u (a, b, e) = (a, b ++ u, rw (e, assoc a (s ++ b) u, assoc s b u) refl)

IsWithin-trans : (s t u : String) → IsWithin s t → IsWithin t u → IsWithin s u
IsWithin-trans s t u h (a, b, e) = rw e (IsWithin-before s (t ++ b) a (IsWithin-after s t b h))

join-IsWithin :
    (separator : String) (xs : List String) → All (λ s. IsWithin s (join separator xs)) xs
join-IsWithin separator [] = tt
join-IsWithin separator (s ∷ []) = (IsWithin-self s, tt)
join-IsWithin separator (s ∷ t ∷ ts) = (
  IsWithin-after s s _ (IsWithin-self s),
  All-map _ _
      (λ x h.
        IsWithin-before x (separator ++ join separator (t ∷ ts)) s
          (IsWithin-before x (join separator (t ∷ ts)) separator h))
      (t ∷ ts) (join-IsWithin separator (t ∷ ts)),
)

All-concat-right : (P : String → Type 0) (xs ys : List String) → All P (concat xs ys) → All P ys
All-concat-right P [] ys h = h
All-concat-right P (x ∷ xs) ys h = All-concat-right P xs ys h.1

All-concat-left : (P : String → Type 0) (xs ys : List String) → All P (concat xs ys) → All P xs
All-concat-left P [] ys h = tt
All-concat-left P (x ∷ xs) ys h = (h.0, All-concat-left P xs ys h.1)

-- A text that is a part, and not empty, is a part of what is left of the default.
or_default-IsWithin : (s t : String) → IsWithin s t → IsWithin s (or_default t)
or_default-IsWithin String.[] t h =
    ("", or_default t, rw (nil_append (or_default t), nil_append (or_default t)) refl)
or_default-IsWithin (String.◌∷◌ c s) String.[] (String.[], b, e) =
    cc (rw (nil_append (String.◌∷◌ c s ++ b), cons_append c s b) at e)
or_default-IsWithin (String.◌∷◌ c s) String.[] (String.◌∷◌ d a, b, e) =
    cc (rw (cons_append d a (String.◌∷◌ c s ++ b)) at e)
or_default-IsWithin (String.◌∷◌ c s) (String.◌∷◌ d t) h = h

listed-IsWithin :
    (before : String) (ids : List String) (t : String)
    → All (λ s. IsWithin s t) (listed before ids)
    → All (λ id. IsWithin id t) ids
listed-IsWithin before [] t h = tt
listed-IsWithin before (id ∷ ids) t h =
    All-map _ _
      (λ x k.
        IsWithin-trans x (before ++ (join ", " (id ∷ ids) ++ ".")) t
          (IsWithin-before x _ before (IsWithin-after x (join ", " (id ∷ ids)) "." k)) h.0)
      (id ∷ ids) (join-IsWithin ", " (id ∷ ids))

-- The response that is made of the results names every step that failed, and every step that was skipped.
pub grounded_response-IsWithin :
    (show : Json → String) (results : List StepResult)
    → All
        (λ id. IsWithin id (grounded_response show results))
        (steps_with ExecutionStatus.failed results)
      × All
          (λ id. IsWithin id (grounded_response show results))
          (steps_with ExecutionStatus.skipped results)
unfolding grounded_response
grounded_response-IsWithin show results =
    let failed = listed failed_text (steps_with ExecutionStatus.failed results) in
    let skipped = listed skipped_text (steps_with ExecutionStatus.skipped results) in
    let tail = concat failed skipped in
    let pending = concat (pending_statements show results) tail in
    let every = concat (completed_statements show results) pending in
    let within =
      All-map _ _ (λ s h. or_default-IsWithin s (join " " every) h) tail
        (All-concat-right _ (pending_statements show results) tail (
          All-concat-right _ (completed_statements show results) pending
            (join-IsWithin " " every))) in
    (
      listed-IsWithin failed_text _ _ (All-concat-left _ failed skipped within),
      listed-IsWithin skipped_text _ _ (All-concat-right _ failed skipped within),
    )

-- Some step failed, or was skipped.
abbrev pub some_missing : List StepResult → Bool
some_missing =
    any
      (λ r. status_eq r.status ExecutionStatus.failed || status_eq r.status ExecutionStatus.skipped)

module _ (w : Writer) (results : List StepResult) where
  -- What is made of the model's text where a step failed or was skipped.
  texts-unfinished :
      (texts : Checked String) {response : String}
      → some_missing results ≡ true
      → (texts >>= λ response. ok (
          if any is_unfinished results || looks_generic_response w response
          then grounded_response w.show results
          else response))
        ≡ ok response
      → response ≡ grounded_response w.show results
  texts-unfinished texts {response} unfinished h =
      let (text, t, k) = >>=-eq-ok texts _ h in ground arith

-- Where a step failed or was skipped, the response that the synthesizer returns is the one made of
-- the results alone, whatever the model says.
pub synthesize-grounded_response :
    (w : Writer) (query : String) (results : List StepResult) {response : String}
    → some_missing results ≡ true
    → synthesize w query results ≡ ok response
    → response ≡ grounded_response w.show results
unfolding synthesize
synthesize-grounded_response w query results {response} unfinished h =
    elim (Bool-cases (has_contextual_workspace_results results)) [
      | inl contextual ↦ ground arith
      | inr plain ↦
          let k : ((w.generate (request query results)) >>= λ output.
          (response_text w (get "response" output) >>= λ response. ok (
            if any is_unfinished results || looks_generic_response w response
            then grounded_response w.show results
            else response)))
              ≡ ok response =
            ground arith in
          let (output, o, rest) = >>=-eq-ok (w.generate (request query results)) _ k in
          texts-unfinished w results (response_text w (get "response" output)) unfinished rest
    ]
