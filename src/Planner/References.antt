-- ===== src/Planner/References.antt =====
-- The references in the arguments that `_canonical_arguments` of app/orchestration/planner.py makes.
use agentic_google_workspace.Prelude.{
  String, ◌≡◌, refl, true, false, List, [], ◌∷◌, ◌++◌, ◌==◌, eq_iff, All, All-append, All-left,
  All-right, ◌∙◌, arith, Bool-cases, inl, inr, all,
}
use agentic_google_workspace.Json.{
  Json, Items, Fields, str, arr, nil, cons, end, field, get, put, drop_key, of_items, items, is_str,
}
use agentic_google_workspace.Contracts.{Service, service_eq, Checked}
use agentic_google_workspace.Contracts.Graph.{
  find_step_references, references_in_items, references_in_fields,
}
use agentic_google_workspace.Specs.Values.{is_nonempty_texts, is_nonempty_str}
use agentic_google_workspace.Planner.Arguments.{service_names}

pub str-plain : (v : Json) → is_str v ≡ true → find_step_references v ≡ []
unfolding find_step_references
str-plain (str s) h = refl
str-plain _ h = ground arith

texts-plain : (xs : Items) → all is_nonempty_str (items xs) ≡ true → references_in_items xs ≡ []
unfolding find_step_references
texts-plain nil h = refl
texts-plain (cons (str s) xs) h = texts-plain xs (ground arith)
texts-plain (cons _ xs) h = ground arith

pub nonempty_texts-plain : (v : Json) → is_nonempty_texts v ≡ true → find_step_references v ≡ []
unfolding find_step_references
nonempty_texts-plain (arr xs) h = texts-plain xs h
nonempty_texts-plain _ h = ground arith

pub service_names-plain :
    (ss : List Service) → references_in_items (of_items (service_names ss)) ≡ []
unfolding find_step_references
service_names-plain [] = refl
service_names-plain (s ∷ ss) = elim (Bool-cases (service_eq s Service.workspace)) [
  | inl same ↦ rw same (service_names-plain ss)
  | inr other ↦ rw other (service_names-plain ss)
]

fields_cons :
    (k : String) (v : Json) (fs : Fields)
    → references_in_fields (field k v fs) ≡ find_step_references v ++ references_in_fields fs
unfolding find_step_references
fields_cons k v fs = refl

get-put_ne :
    (j k : String) (v : Json) (fs : Fields) → (k == j) ≡ false → get j (put k v fs) ≡ get j fs
get-put_ne j k v end h = rw h refl
get-put_ne j k v (field i w fs) h = ground (arith, eq_iff i k, get-put_ne j k v fs h)

get-drop_key_ne : (j k : String) (fs : Fields) → (k == j) ≡ false → get j (drop_key k fs) ≡ get j fs
get-drop_key_ne j k end h = refl
get-drop_key_ne j k (field i w fs) h = ground (arith, eq_iff i k, get-drop_key_ne j k fs h)

module _ (P : Checked String → Type 0) where
  -- The change brings in no reference, and keeps what is known of those that were there.
  pub record Keeps (before after : Fields) : Type 0 where
    pub same : get "$step" after ≡ get "$step" before
    pub refs : All P (references_in_fields before) → All P (references_in_fields after)

  pub Keeps-refl : (fs : Fields) → Keeps fs fs
  Keeps-refl fs = record { same = refl; refs = λ h. h }

  pub Keeps-trans : (a b c : Fields) → Keeps a b → Keeps b c → Keeps a c
  Keeps-trans a b c h k = record { same = k.same ∙ h.same; refs = λ x. k.refs (h.refs x) }

  put-refs :
      (k : String) (v : Json) (fs : Fields)
      → find_step_references v ≡ []
      → All P (references_in_fields fs)
      → All P (references_in_fields (put k v fs))
  put-refs k v end plain h = rw (fields_cons k v end, plain) h
  put-refs k v (field i w fs) plain h =
      let parts : All P (find_step_references w ++ references_in_fields fs) =
        rw (fields_cons i w fs) at h in
      elim (Bool-cases (i == k)) [
        | inl same ↦
            rw (put, same)
              (rw (fields_cons i v fs, plain)
                (All-right P (find_step_references w) (references_in_fields fs) parts))
        | inr other ↦
            rw (put, other)
              (rw (fields_cons i w (put k v fs)) (
                All-append P (find_step_references w) (references_in_fields (put k v fs))
                  (All-left P (find_step_references w) (references_in_fields fs) parts)
                  (put-refs k v fs plain
                    (All-right P (find_step_references w) (references_in_fields fs) parts))))
      ]

  drop-refs :
      (k : String) (fs : Fields)
      → All P (references_in_fields fs)
      → All P (references_in_fields (drop_key k fs))
  drop-refs k end h = h
  drop-refs k (field i w fs) h =
      let parts : All P (find_step_references w ++ references_in_fields fs) =
        rw (fields_cons i w fs) at h in
      let rest = All-right P (find_step_references w) (references_in_fields fs) parts in
      elim (Bool-cases (i == k)) [
        | inl same ↦ rw (drop_key, same) rest
        | inr other ↦
            rw (drop_key, other)
              (rw (fields_cons i w (drop_key k fs)) (
                All-append P (find_step_references w) (references_in_fields (drop_key k fs))
                  (All-left P (find_step_references w) (references_in_fields fs) parts)
                  (drop-refs k fs rest)))
      ]

  pub put-Keeps :
      (k : String) (v : Json) (fs : Fields)
      → (k == "$step") ≡ false
      → find_step_references v ≡ []
      → Keeps fs (put k v fs)
  put-Keeps k v fs other plain = record {
    same = get-put_ne "$step" k v fs other;
    refs = put-refs k v fs plain;
  }

  pub drop-Keeps : (k : String) (fs : Fields) → (k == "$step") ≡ false → Keeps fs (drop_key k fs)
  drop-Keeps k fs other = record {
    same = get-drop_key_ne "$step" k fs other;
    refs = drop-refs k fs;
  }
