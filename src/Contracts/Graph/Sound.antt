-- ===== src/Contracts/Graph/Sound.antt =====
-- What a graph that passes the depth-first search of `validate_graph` is like.
use agentic_google_workspace.Prelude.{
  ℕ, zero, suc, String, ◌≡◌, true, false, some, List, [], ◌∷◌, ◌==◌, eq_iff, if◌then◌else◌, mem,
  nat_eq, ok, ◌>>=◌, >>=-eq-ok, arith, Option-cases, Bool-cases, inl, inr, eq_refl,
}
use agentic_google_workspace.Dict.{Dict, insert, lookup-insert}
use agentic_google_workspace.Contracts.Types.{ExecutionStep, Checked}
use agentic_google_workspace.Contracts.Graph.{find_step, state_of, visit_all, visit_step, visit}

-- The dependencies of a step are well-founded: it and all that it rests on are steps of the plan,
-- and no chain of dependencies goes on for ever, so none is a cycle.
pub data Grounded (steps : List ExecutionStep) : String → Type 0 where
  grounded :
      (id : String) (step : ExecutionStep)
      → find_step id steps ≡ some step
      → ((d : String) → mem d step.depends_on ≡ true → Grounded steps d)
      → Grounded steps id

pub state_of-insert :
    (k j : String) (n : ℕ) (vs : Dict ℕ)
    → state_of j (insert k n vs) ≡ (if k == j then n else state_of j vs)
state_of-insert k j n vs = ground (arith, lookup-insert k j n vs)

module _ (steps : List ExecutionStep) where
  -- Only grounded steps are done.
  abbrev AllGrounded : Dict ℕ → Type 0
  AllGrounded vs = (j : String) → state_of j vs ≡ 2 → Grounded steps j

  -- What is done stays done.
  abbrev Extends : Dict ℕ → Dict ℕ → Type 0
  Extends vs ws = (j : String) → state_of j vs ≡ 2 → state_of j ws ≡ 2

  -- What a successful visit of `id` gives.
  record Visited (id : String) (vs ws : Dict ℕ) : Type 0 where
    good : AllGrounded ws
    extends : Extends vs ws
    is_done : state_of id ws ≡ 2

  record VisitedAll (ids : List String) (vs ws : Dict ℕ) : Type 0 where
    good : AllGrounded ws
    extends : Extends vs ws
    are_done : (d : String) → mem d ids ≡ true → state_of d ws ≡ 2

  abbrev IsSound : (String → Dict ℕ → Checked (Dict ℕ)) → Type 0
  IsSound go = (id : String) (vs ws : Dict ℕ) → go id vs ≡ ok ws → AllGrounded vs → Visited id vs ws

  visit_all_sound :
      (go : String → Dict ℕ → Checked (Dict ℕ))
      → IsSound go
      → (ids : List String) (vs ws : Dict ℕ) → visit_all go ids vs ≡ ok ws
      → AllGrounded vs
      → VisitedAll ids vs ws
  visit_all_sound go sound [] vs ws h g = record {
    good = λ j e. g j (cc);
    extends = λ j e. cc;
    are_done = λ d e. cc;
  }
  visit_all_sound go sound (x ∷ ids) vs ws h g =
      let (us, hx, hr) = >>=-eq-ok (go x vs) (visit_all go ids) h in
      let one = sound x vs us hx g in
      let rest = visit_all_sound go sound ids us ws hr one.good in
      record {
        good = rest.good;
        extends = λ j e. rest.extends j (one.extends j e);
        are_done = λ d e. elim (Bool-cases (x == d)) [
          | inl same ↦ rw (← ((eq_iff x d).0 same)) (rest.extends x one.is_done)
          | inr other ↦ rest.are_done d (cc)
        ];
      }

  -- The round that Opens `id`, visits its dependencies and closes it.
  open_sound :
      (go : String → Dict ℕ → Checked (Dict ℕ))
      → IsSound go
      → (id : String) (vs ws : Dict ℕ) (step : ExecutionStep) → find_step id steps ≡ some step
      → (visit_all go step.depends_on (insert id 1 vs) >>= λ us. ok (insert id 2 us)) ≡ ok ws
      → nat_eq (state_of id vs) 2 ≡ false
      → AllGrounded vs
      → Visited id vs ws
  open_sound go sound id vs ws step found h new g =
      let (us, hr, hw) = >>=-eq-ok (visit_all go step.depends_on (insert id 1 vs)) _ h in
      let deps =
        visit_all_sound go sound step.depends_on (insert id 1 vs) us hr
          (λ j e. g j (ground (arith, state_of-insert id j 1 vs))) in
      let closed : ws ≡ insert id 2 us = cc in
      let self : Grounded steps id =
        grounded id step found (λ d m. deps.good d (deps.are_done d m)) in
      record {
        good = λ j e. elim (Bool-cases (id == j)) [
          | inl same ↦ rw (← ((eq_iff id j).0 same)) self
          | inr other ↦ deps.good j (ground (arith, closed, state_of-insert id j 2 us))
        ];
        extends = λ j e. rw closed (elim (Bool-cases (id == j)) [
          | inl same ↦ ground (arith, state_of-insert id j 2 us)
          | inr other ↦ ground (
            arith,
            state_of-insert id j 2 us,
            deps.extends j (ground (arith, state_of-insert id j 1 vs)),
          )
        ]);
        is_done = rw closed (ground (arith, state_of-insert id id 2 us, eq_refl id));
      }

  visit_step-IsSound :
      (go : String → Dict ℕ → Checked (Dict ℕ)) → IsSound go → IsSound (visit_step steps go)
  visit_step-IsSound go sound id vs ws h g = elim (Bool-cases (nat_eq (state_of id vs) 1)) [
    | inl open_now ↦ cc (rw open_now at h)
    | inr not_open ↦ elim (Bool-cases (nat_eq (state_of id vs) 2)) [
      | inl done ↦
          let same : vs ≡ ws = ground arith in
          record { good = rw (← same) g; extends = λ j e. rw (← same) e; is_done = ground arith }
      | inr new ↦ elim (Option-cases (find_step id steps)) [
        | inl missing ↦ ground arith
        | inr (step, found) ↦
            open_sound go sound id vs ws step found (rw (not_open, new, found) at h) new g
      ]
    ]
  ]

  visit-IsSound : (fuel : ℕ) → IsSound (visit steps fuel)
  unfolding visit
  visit-IsSound zero id vs ws h g = cc
  visit-IsSound (suc fuel) id vs ws h g =
      visit_step-IsSound (visit steps fuel) (visit-IsSound fuel) id vs ws h g

  -- After a successful search from the empty state every id that was visited is grounded.
  pub search-Grounded :
      (fuel : ℕ) (ids : List String) (vs : Dict ℕ)
      → visit_all (visit steps fuel) ids [] ≡ ok vs
      → (id : String) → mem id ids ≡ true
      → Grounded steps id
  search-Grounded fuel ids vs h id m =
      let all =
        visit_all_sound (visit steps fuel) (visit-IsSound fuel) ids [] vs h
          (λ j e. absurd (omega arith)) in
      all.good id (all.are_done id m)
