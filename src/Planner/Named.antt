-- ===== src/Planner/Named.antt =====
-- The search for a free name in `_route_contextual_retrieval` of app/orchestration/planner.py.
use Prim.Native.String.{◌++◌ as ◌+++◌}
use text.Mathlib.TextLemmas.{append-nil, append_cancel_left, append-eq-nil_iff}
use agentic_google_workspace.Prelude.{
  ◌∙◌, sym, ap, ℕ, zero, suc, ◌≤◌, ◌<◌, String, ◌≡◌, ◌≢◌, refl, Bool, true, false, List, [], ◌∷◌,
  ◌==◌, eq_iff, eq_refl, if◌then◌else◌, mem, is_unique, length, ok, err, Result-cases, arith,
  Bool-cases, inl, inr,
}
use agentic_google_workspace.Contracts.{Exception}
use agentic_google_workspace.Planner.Requests.{Environment}
use agentic_google_workspace.Planner.Routing.{numbered, fresh_id, step_id_for}
use agentic_google_workspace.Planner.Added.{fresh_id-not-mem}

-- A list without one text.
abbrev without : String → List String → List String
without s [] = []
without s (x ∷ xs) = let rest = without s xs in if x == s then rest else x ∷ rest

length-without_le : (s : String) (xs : List String) → length (without s xs) ≤ length xs
length-without_le s [] = omega arith
length-without_le s (x ∷ xs) = ground (arith, length-without_le s xs)

length-without_lt :
    (s : String) (xs : List String) → mem s xs ≡ true → length (without s xs) < length xs
length-without_lt s [] h = cc
length-without_lt s (x ∷ xs) h = ground (arith, length-without_le s xs, length-without_lt s xs)

mem-without :
    (s t : String) (xs : List String)
    → mem t xs ≡ true
    → (s == t) ≡ false
    → mem t (without s xs) ≡ true
mem-without s t [] h differ = cc
mem-without s t (x ∷ xs) h differ =
    ground (arith, eq_iff x s, eq_iff s t, eq_iff x t, mem-without s t xs)

-- Different texts that are all in a list are not more than the list has.
pigeonhole :
    (xs used : List String)
    → is_unique xs ≡ true
    → ((t : String) → mem t xs ≡ true → mem t used ≡ true)
    → length xs ≤ length used
pigeonhole [] used unique sub = omega arith
pigeonhole (x ∷ xs) used unique sub =
    let there = sub x (rw (eq_refl x) refl) in
    let rest : length xs ≤ length (without x used) =
      pigeonhole xs (without x used) (ground arith)
        (λ t m. mem-without x t used (sub t (ground arith)) (ground (arith, eq_iff x t, unique))) in
    omega (arith, length-without_lt x used there, rest)

abbrev is_void : String → Bool
is_void String.[] = true
is_void (String.◌∷◌ c s) = false

module _ (environment : Environment)
    (distinct : (a b : ℕ) → environment.number a ≡ environment.number b → a ≡ b) where
  numbered-injective :
      (base : String) (a b : ℕ) → numbered environment base a ≡ numbered environment base b → a ≡ b
  numbered-injective base a b h = distinct a b (
      append_cancel_left "_" (environment.number a) (environment.number b)
        (append_cancel_left base _ _ h))

  numbered-ne : (base : String) (a : ℕ) → base ≢ numbered environment base a
  numbered-ne base a h =
      let tail = "_" +++ environment.number a in
      let bare : base +++ "" ≡ base +++ tail = append-nil base ∙ h in
      let same : tail ≡ "" = sym (append_cancel_left base "" tail bare) in
      let bad : "_" ≡ "" = ((append-eq-nil_iff {p = "_"} {q = environment.number a}).0 same).0 in
      let parted : false ≡ true = ap is_void bad in cc

  -- The names that are tried.
  abbrev candidates : ℕ → String → ℕ → String → List String
  candidates zero base suffix tried = tried ∷ []
  candidates (suc fuel) base suffix tried =
      tried ∷ candidates fuel base (suc suffix) (numbered environment base suffix)

  length-candidates :
      (fuel : ℕ) (base : String) (suffix : ℕ) (tried : String)
      → length (candidates fuel base suffix tried) ≡ suc fuel
  length-candidates zero base suffix tried = refl
  length-candidates (suc fuel) base suffix tried =
      omega (arith, length-candidates fuel base (suc suffix) (numbered environment base suffix))

  not_later :
      (fuel : ℕ) (base : String) (suffix : ℕ) (tried t : String)
      → tried ≢ t
      → ((n : ℕ) → suffix ≤ n → t ≢ numbered environment base n)
      → mem t (candidates fuel base suffix tried) ≡ false
  not_later zero base suffix tried t differ other = ground (arith, eq_iff tried t)
  not_later (suc fuel) base suffix tried t differ other =
      let rest : mem t (candidates fuel base (suc suffix) (numbered environment base suffix))
          ≡ false =
        not_later fuel base (suc suffix) (numbered environment base suffix) t
          (λ e. other suffix (omega arith) (cc)) (λ n le. other n (omega arith)) in
      ground (arith, eq_iff tried t, rest)

  candidates_unique :
      (fuel : ℕ) (base : String) (suffix : ℕ) (tried : String)
      → ((n : ℕ) → suffix ≤ n → tried ≢ numbered environment base n)
      → is_unique (candidates fuel base suffix tried) ≡ true
  candidates_unique zero base suffix tried other = refl
  candidates_unique (suc fuel) base suffix tried other =
      let next = numbered environment base suffix in
      let here : mem tried (candidates fuel base (suc suffix) next) ≡ false =
        not_later fuel base (suc suffix) next tried (λ e. other suffix (omega arith) (cc))
          (λ n le. other n (omega arith)) in
      rw here (
        candidates_unique fuel base (suc suffix) next
          (λ n le e. absurd (omega (arith, numbered-injective base suffix n e))))

  fresh_id-err :
      (fuel : ℕ) (base : String) (used : List String) (suffix : ℕ) (tried : String) {e : Exception}
      → fresh_id environment fuel base used suffix tried ≡ err e
      → (t : String) → mem t (candidates fuel base suffix tried) ≡ true
      → mem t used ≡ true
  unfolding fresh_id
  fresh_id-err zero base used suffix tried h t m = elim (Bool-cases (mem tried used)) [
    | inl taken ↦ ground (arith, eq_iff tried t)
    | inr free ↦ cc (rw free at h)
  ]
  fresh_id-err (suc fuel) base used suffix tried h t m = elim (Bool-cases (mem tried used)) [
    | inl taken ↦ elim (Bool-cases (tried == t)) [
      | inl same ↦ ground (arith, eq_iff tried t)
      | inr other ↦
          fresh_id-err fuel base used (suc suffix) (numbered environment base suffix)
            (rw taken at h) t (rw other at m)
    ]
    | inr free ↦ cc (rw free at h)
  ]

  -- Where the texts of different numbers differ, the search for a free name ends with a name that is not
  -- in use: one more try than there are names in use is enough.
  pub step_id_for-returns :
      (service : String) (used : List String)
      → (id : String) × (step_id_for environment service used ≡ ok id) × (mem id used ≡ false)
  step_id_for-returns service used = elim (Result-cases (step_id_for environment service used)) [
    | inl (id, chosen) ↦ (id, chosen, fresh_id-not-mem environment _ _ used _ _ chosen)
    | inr (e, failed) ↦
        let base = "workspace_" +++ service in
        let fits =
          pigeonhole (candidates (length used) base 2 base) used
            (candidates_unique (length used) base 2 base (λ n le. numbered-ne base n))
            (fresh_id-err (length used) base used 2 base failed) in
        absurd (omega (arith, fits, length-candidates (length used) base 2 base))
  ]
