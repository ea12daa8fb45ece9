-- ===== src/Contracts/Graph/Complete.antt =====
-- The depth-first search of `validate_graph` (app/schemas/contracts.py) on a plan without a cycle:
-- the states that it meets, and its depth.
use agentic_google_workspace.Prelude.{
  ℕ, zero, suc, ◌+◌, ◌≤◌, ◌<◌, String, ◌≡◌, refl, Bool, true, false, not, some, List, [], ◌∷◌, ◌==◌,
  eq_iff, if◌then◌else◌, mem, nat_eq, ok, arith, Option-cases, Bool-cases, inl, inr, ◌⊎◌, eq_refl,
  length,
}
use agentic_google_workspace.Dict.{Dict, insert}
use agentic_google_workspace.Contracts.Types.{ExecutionStep, Checked}
use agentic_google_workspace.Contracts.Graph.{
  find_step, step_ids, state_of, visit_all, visit_step, visit,
}
use agentic_google_workspace.Contracts.Graph.Sound.{Grounded, grounded, state_of-insert}

-- `a` rests on `b`, directly or through other steps.
data Above (steps : List ExecutionStep) (a : String) : String → Type 0 where
  direct :
      {b : String} (step : ExecutionStep)
      → find_step a steps ≡ some step
      → mem b step.depends_on ≡ true
      → Above steps a b
  further :
      {b c : String} (step : ExecutionStep)
      → Above steps a b
      → find_step b steps ≡ some step
      → mem c step.depends_on ≡ true
      → Above steps a c

-- The search has not come to `id`.
abbrev is_new : String → Dict ℕ → Bool
is_new id vs = if nat_eq (state_of id vs) 1 then false else not (nat_eq (state_of id vs) 2)

abbrev fresh : List String → Dict ℕ → ℕ
fresh [] vs = 0
fresh (x ∷ xs) vs = (if is_new x vs then 1 else 0) + fresh xs vs

fresh-insert_le :
    (ids : List String) (k : String) (n : ℕ) (vs : Dict ℕ)
    → (n ≡ 1) ⊎ (n ≡ 2)
    → fresh ids (insert k n vs) ≤ fresh ids vs
fresh-insert_le [] k n vs h = omega arith
fresh-insert_le (x ∷ ids) k n vs h =
    ground (arith, state_of-insert k x n vs, fresh-insert_le ids k n vs h)

fresh-insert_lt :
    (ids : List String) (k : String) (vs : Dict ℕ)
    → mem k ids ≡ true
    → is_new k vs ≡ true
    → fresh ids (insert k 1 vs) < fresh ids vs
fresh-insert_lt [] k vs h new = cc
fresh-insert_lt (x ∷ ids) k vs h new = elim (Bool-cases (x == k)) [
  | inl same ↦ ground (
    arith,
    eq_iff x k,
    eq_refl k,
    state_of-insert k x 1 vs,
    fresh-insert_le ids k 1 vs (inl refl),
  )
  | inr other ↦ ground (arith, state_of-insert k x 1 vs, fresh-insert_lt ids k vs (cc) new)
]

fresh-empty : (ids : List String) → fresh ids [] ≡ length ids
fresh-empty [] = refl
fresh-empty (x ∷ ids) = omega (arith, fresh-empty ids)

pub mem-find_step :
    (id : String) (steps : List ExecutionStep) {step : ExecutionStep}
    → find_step id steps ≡ some step
    → mem id (step_ids steps) ≡ true
mem-find_step id [] h = cc
mem-find_step id (s ∷ ss) h = elim (Option-cases (find_step id ss)) [
  | inl missing ↦ ground arith
  | inr (t, e) ↦ ground (arith, mem-find_step id ss e)
]

module _ (steps : List ExecutionStep) where
  Above-first :
      {a c : String}
      → Above steps a c
      → (d : String) × (step : ExecutionStep) × (find_step a steps ≡ some step)
        × (mem d step.depends_on ≡ true)
        × ((d ≡ c) ⊎ Above steps d c)
  Above-first (direct {b = b} step found m) = (b, step, found, m, inl refl)
  Above-first (further {b = b} {c = c} step above found m) =
      let (d, first, f, md, rest) = Above-first above in
      (
        d,
        first,
        f,
        md,
        elim rest [
          | inl e ↦ inr (direct step (rw e found) m)
          | inr deeper ↦ inr (further step deeper found m)
        ],
      )

  -- A grounded step does not rest on itself.
  Grounded-not-Above : {a : String} → Grounded steps a → ¬ (Above steps a a)
  Grounded-not-Above (grounded a step found sub) cycle =
      let (d, first, f, md, rest) = Above-first cycle in
      let same : first ≡ step = cc in
      Grounded-not-Above (sub d (cc))
        (elim rest [ inl e ↦ direct first (cc) md | inr deeper ↦ further first deeper f md ])

  abbrev Opens : Dict ℕ → String → Type 0
  Opens vs j = state_of j vs ≡ 1

  -- The visit of `id` at `vs` succeeds, and leaves open what was open.
  record Succeeds (go : String → Dict ℕ → Checked (Dict ℕ)) (id : String) (vs : Dict ℕ)
      : Type 0 where
    after : Dict ℕ
    returns : go id vs ≡ ok after
    still_open : (j : String) → Opens after j → Opens vs j
    fewer : fresh (step_ids steps) after ≤ fresh (step_ids steps) vs

  record SucceedsAll (go : String → Dict ℕ → Checked (Dict ℕ)) (ids : List String) (vs : Dict ℕ)
      : Type 0 where
    after : Dict ℕ
    returns : visit_all go ids vs ≡ ok after
    still_open : (j : String) → Opens after j → Opens vs j
    fewer : fresh (step_ids steps) after ≤ fresh (step_ids steps) vs

  abbrev IsTotal : ℕ → (String → Dict ℕ → Checked (Dict ℕ)) → Type 0
  IsTotal fuel go =
      (id : String) (vs : Dict ℕ)
      → Grounded steps id
      → ((j : String) → Opens vs j → Above steps j id)
      → fresh (step_ids steps) vs < fuel
      → Succeeds go id vs

  visit_all-total :
      (fuel : ℕ) (go : String → Dict ℕ → Checked (Dict ℕ))
      → IsTotal fuel go
      → (ids : List String) (vs : Dict ℕ) → ((d : String) → mem d ids ≡ true → Grounded steps d)
      → ((d j : String) → mem d ids ≡ true → Opens vs j → Above steps j d)
      → fresh (step_ids steps) vs < fuel
      → SucceedsAll go ids vs
  visit_all-total fuel go total [] vs g above lt = record {
    after = vs;
    returns = refl;
    still_open = λ j e. e;
    fewer = omega arith;
  }
  visit_all-total fuel go total (x ∷ ids) vs g above lt =
      let here : mem x (x ∷ ids) ≡ true = rw (eq_refl x) in
      let one = total x vs (g x here) (λ j e. above x j here e) lt in
      let there =
        λ (d : String) (m : mem d ids ≡ true). let t : mem d (x ∷ ids) ≡ true = ground arith in t in
      let less : fresh (step_ids steps) one.after < fuel = omega (arith, one.fewer) in
      let rest =
        visit_all-total fuel go total ids one.after (λ d m. g d (there d m))
          (λ d j m e. above d j (there d m) (one.still_open j e)) less in
      record {
        after = rest.after;
        returns = rw one.returns rest.returns;
        still_open = λ j e. one.still_open j (rest.still_open j e);
        fewer = omega (arith, one.fewer, rest.fewer);
      }

  open-total :
      (fuel : ℕ) (go : String → Dict ℕ → Checked (Dict ℕ))
      → IsTotal fuel go
      → (id : String) (vs : Dict ℕ) (step : ExecutionStep) → find_step id steps ≡ some step
      → ((d : String) → mem d step.depends_on ≡ true → Grounded steps d)
      → ((j : String) → Opens vs j → Above steps j id)
      → is_new id vs ≡ true
      → fresh (step_ids steps) vs < suc fuel
      → Succeeds (visit_step steps go) id vs
  open-total fuel go total id vs step found g above new lt =
      let drop = fresh-insert_lt (step_ids steps) id vs (mem-find_step id steps found) new in
      let deps =
        visit_all-total fuel go total step.depends_on (insert id 1 vs) g
          (λ d j m e. elim (Bool-cases (id == j)) [
            | inl same ↦ rw (← ((eq_iff id j).0 same)) (direct step found m)
            | inr other ↦ further step (above j (ground (arith, state_of-insert id j 1 vs))) found m
          ])
          (omega (arith, drop)) in
      record {
        after = insert id 2 deps.after;
        returns = ground (arith, found, deps.returns);
        still_open = λ j e.
            let older : Opens deps.after j = ground (arith, state_of-insert id j 2 deps.after) in
            ground (
              arith,
              deps.still_open j older,
              state_of-insert id j 1 vs,
              state_of-insert id j 2 deps.after,
            );
        fewer =
            omega (
              arith,
              drop,
              deps.fewer,
              fresh-insert_le (step_ids steps) id 2 deps.after (inr refl),
            );
      }

  visit_step-IsTotal :
      (fuel : ℕ) (go : String → Dict ℕ → Checked (Dict ℕ))
      → IsTotal fuel go
      → IsTotal (suc fuel) (visit_step steps go)
  visit_step-IsTotal fuel go total id vs (grounded _ step found g) above lt =
      elim (Bool-cases (nat_eq (state_of id vs) 1)) [
        | inl cycle ↦
            absurd (Grounded-not-Above (grounded id step found g) (above id (ground arith)))
        | inr closed ↦ elim (Bool-cases (nat_eq (state_of id vs) 2)) [
          | inl done ↦ record {
            after = vs;
            returns = rw (closed, done);
            still_open = λ j e. e;
            fewer = omega arith;
          }
          | inr new ↦ open-total fuel go total id vs step found g above (ground arith) lt
        ]
      ]

  visit-IsTotal : (fuel : ℕ) → IsTotal fuel (visit steps fuel)
  unfolding visit
  visit-IsTotal zero id vs g above lt = absurd (omega arith)
  visit-IsTotal (suc fuel) id vs g above lt =
      visit_step-IsTotal fuel (visit steps fuel) (visit-IsTotal fuel) id vs g above lt

  length-step_ids : (ss : List ExecutionStep) → length (step_ids ss) ≡ length ss
  length-step_ids [] = refl
  length-step_ids (s ∷ ss) = omega (arith, length-step_ids ss)

  -- Where all steps are grounded, the search from the empty state succeeds.
  pub search-total :
      ((id : String) → mem id (step_ids steps) ≡ true → Grounded steps id)
      → (vs : Dict ℕ) × (visit_all (visit steps (suc (length steps))) (step_ids steps) [] ≡ ok vs)
  search-total g =
      let all =
        visit_all-total (suc (length steps)) (visit steps (suc (length steps)))
          (visit-IsTotal (suc (length steps))) (step_ids steps) [] g
          (λ d j m e. absurd (omega arith))
          (omega (arith, fresh-empty (step_ids steps), length-step_ids steps)) in
      (all.after, all.returns)
