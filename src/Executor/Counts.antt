-- ===== src/Executor/Counts.antt =====
-- How often an identifier stands in a list of steps, under the operations of the executor.
use agentic_google_workspace.Prelude.{
  ℕ, ◌+◌, ◌≤◌, ◌<◌, String, ◌≡◌, refl, Bool, true, false, List, [], ◌∷◌, ◌++◌, ◌==◌, eq_iff,
  if◌then◌else◌, mem, select, length, All, ok, arith, Bool-cases, inl, inr,
}
use agentic_google_workspace.Contracts.{ExecutionStep}
use agentic_google_workspace.Contracts.Graph.{step_ids}
use agentic_google_workspace.Executor.{pop_step}

abbrev pub count : String → List String → ℕ
count id [] = 0
count id (x ∷ xs) = (if x == id then 1 else 0) + count id xs

pub count-append :
    (id : String) (xs ys : List String) → count id (xs ++ ys) ≡ count id xs + count id ys
count-append id [] ys = omega arith
count-append id (x ∷ xs) ys = omega (arith, count-append id xs ys)

pub count-pos_of_mem : (id : String) (xs : List String) → mem id xs ≡ true → 0 < count id xs
count-pos_of_mem id [] h = cc
count-pos_of_mem id (x ∷ xs) h = ground (arith, count-pos_of_mem id xs)

pub mem-of_count : (id : String) (xs : List String) → mem id xs ≡ false → count id xs ≡ 0
mem-of_count id [] h = refl
mem-of_count id (x ∷ xs) h = ground (arith, mem-of_count id xs)

pub count-select_le :
    (p : ExecutionStep → Bool) (id : String) (ss : List ExecutionStep)
    → count id (step_ids (select p ss)) ≤ count id (step_ids ss)
count-select_le p id [] = omega arith
count-select_le p id (s ∷ ss) = ground (arith, count-select_le p id ss)

-- What `pop` does where the identifier is there.
pub record Popped (P : ExecutionStep → Type 0) (id : String) (ss : List ExecutionStep)
    : Type 0 where
  pub left : List ExecutionStep
  pub returns : pop_step id ss ≡ ok left
  pub counts :
      (j : String) → count j (step_ids left) + (if id == j then 1 else 0) ≡ count j (step_ids ss)
  pub shorter : length left + 1 ≡ length ss
  pub kept : All P ss → All P left

pub pop_step-Popped :
    (P : ExecutionStep → Type 0) (id : String) (ss : List ExecutionStep)
    → 0 < count id (step_ids ss)
    → Popped P id ss
pop_step-Popped P id [] h = absurd (omega arith)
pop_step-Popped P id (s ∷ ss) h = elim (Bool-cases (s.step_id == id)) [
  | inl same ↦ record {
    left = ss;
    returns = rw same;
    counts = λ j. ground (arith, eq_iff s.step_id id);
    shorter = omega arith;
    kept = λ a. a.1;
  }
  | inr other ↦
      let rest = pop_step-Popped P id ss (ground arith) in
      record {
        left = s ∷ rest.left;
        returns = rw (other, rest.returns);
        counts = λ j. omega (arith, rest.counts j);
        shorter = omega (arith, rest.shorter);
        kept = λ a. (a.0, rest.kept a.1);
      }
]

-- A step of the list under an identifier that is there.
pub record Picked (P : ExecutionStep → Type 0) (p : ExecutionStep → Bool) (id : String)
    (ss : List ExecutionStep) : Type 0 where
  pub step : ExecutionStep
  pub named : step.step_id ≡ id
  pub holds : P step
  pub unselected : select p ss ≡ [] → p step ≡ false

pub pick :
    (P : ExecutionStep → Type 0) (p : ExecutionStep → Bool) (id : String) (ss : List ExecutionStep)
    → 0 < count id (step_ids ss)
    → All P ss
    → Picked P p id ss
pick P p id [] h a = absurd (omega arith)
pick P p id (s ∷ ss) h a = elim (Bool-cases (s.step_id == id)) [
  | inl same ↦ record {
    step = s;
    named = (eq_iff s.step_id id).0 same;
    holds = a.0;
    unselected = λ e. ground arith;
  }
  | inr other ↦
      let rest = pick P p id ss (ground arith) a.1 in
      record {
        step = rest.step;
        named = rest.named;
        holds = rest.holds;
        unselected = λ e. rest.unselected (ground arith);
      }
]
