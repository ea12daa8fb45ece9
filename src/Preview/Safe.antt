-- ===== src/Preview/Safe.antt =====
-- What the preview of an approval in app/api/routes/query.py can show.
use mathlib.Core.Path.{subst}
use agentic_google_workspace.Prelude.{
  String, ◌≡◌, refl, Bool, true, false, ◌||◌, Option, none, some, List, [], ◌∷◌, ◌==◌, take, select,
  mem, all, All, arith, Bool-cases, inl, inr, ◌⊎◌,
}
use agentic_google_workspace.Json.{
  Json, Fields, bool, str, arr, obj, end, field, get, items, of_items, is_str,
}
use agentic_google_workspace.Preview.{
  safe_keys, safe_value, add, safe_arguments, text_value, source_of, nonempty, preview_of,
  sanitized_approval_preview,
}

-- A text, a Boolean, or a list of texts.
abbrev pub is_plain : Json → Bool
is_plain (str s) = true
is_plain (bool b) = true
is_plain (arr xs) = all is_str (items xs)
is_plain _ = false

abbrev pub AllFields : (String → Json → Type 0) → Fields → Type 0
AllFields P end = Unit
AllFields P (field k v fs) = P k v × AllFields P fs

-- An argument that is shown: it has a safe name, and a plain value.
abbrev pub IsSafeArgument : String → Json → Type 0
IsSafeArgument key v = (mem key safe_keys ≡ true) × (is_plain v ≡ true)

-- The arguments that are shown are safe ones.
abbrev pub AreSafe : Json → Type 0
AreSafe (obj fs) = AllFields IsSafeArgument fs
AreSafe _ = ⊥

-- An entry of the preview: the service and the operation as texts, and safe arguments.
abbrev pub IsSafeEntry : String → Json → Type 0
IsSafeEntry key v =
    (((key == "service" || key == "operation") ≡ true) × (is_str v ≡ true))
    ⊎ ((key ≡ "arguments") × AreSafe v)

abbrev pub IsSafePreview : Option Json → Type 0
IsSafePreview none = Unit
IsSafePreview (some (obj fs)) = AllFields IsSafeEntry fs
IsSafePreview (some _) = ⊥

all-select : (xs : List Json) → all is_str (select is_str xs) ≡ true
all-select [] = refl
all-select (x ∷ xs) = ground (arith, all-select xs)

items-of_items : (xs : List Json) → items (of_items xs) ≡ xs
items-of_items [] = refl
items-of_items (x ∷ xs) = rw (items-of_items xs) refl

AllFields-add :
    (P : String → Json → Type 0) (key : String) (o : Option Json) (fs : Fields)
    → ((v : Json) → o ≡ some v → P key v)
    → AllFields P fs
    → AllFields P (add key o fs)
AllFields-add P key none fs h k = k
AllFields-add P key (some v) fs h k = (h v refl, k)

safe_value-is_plain :
    (key : String) (o : Option Json) (v : Json) → safe_value key o ≡ some v → is_plain v ≡ true
safe_value-is_plain key (some (str s)) v h = ground arith
safe_value-is_plain key (some (bool b)) v h = ground arith
safe_value-is_plain key (some (arr xs)) v h = elim (Bool-cases (key == "attendees")) [
  | inl same ↦
      let texts = select is_str (take 10 (items xs)) in
      let shown : arr (of_items texts) ≡ v = ground arith in
      let plain : is_plain (arr (of_items texts)) ≡ true =
        rw (items-of_items texts) (all-select (take 10 (items xs))) in
      subst (λ x. is_plain x ≡ true) shown plain
  | inr other ↦ ground arith
]
safe_value-is_plain key _ v h = cc

safe_arguments-AllFields :
    (keys : List String) (source : Fields)
    → All (λ key. mem key safe_keys ≡ true) keys
    → AllFields IsSafeArgument (safe_arguments keys source)
safe_arguments-AllFields [] source h = tt
safe_arguments-AllFields (k ∷ ks) source h =
    AllFields-add IsSafeArgument k (safe_value k (get k source)) _
      (λ v e. (h.0, safe_value-is_plain k (get k source) v e))
      (safe_arguments-AllFields ks source h.1)

nonempty-AreSafe :
    (fs : Fields) (v : Json) → AllFields IsSafeArgument fs → nonempty fs ≡ some v → AreSafe v
nonempty-AreSafe end v h e = cc
nonempty-AreSafe (field k x fs) v h e =
    let shown : obj (field k x fs) ≡ v = ground arith in subst AreSafe shown h

text_value-is_str : (o : Option Json) (v : Json) → text_value o ≡ some v → is_str v ≡ true
text_value-is_str (some (str s)) v e = ground arith
text_value-is_str _ v e = cc

safe_keys_safe : All (λ key. mem key safe_keys ≡ true) safe_keys
safe_keys_safe = (refl, (refl, (refl, (refl, (refl, (refl, (refl, (refl, (refl, (refl, tt))))))))))

preview-AllFields : (value : Fields) → AllFields IsSafeEntry (preview_of value)
preview-AllFields value =
    AllFields-add IsSafeEntry "service" (text_value (get "service" value)) _
      (λ v e. inl (refl, text_value-is_str (get "service" value) v e))
      (AllFields-add IsSafeEntry "operation" (text_value (get "operation" value)) _
        (λ v e. inl (refl, text_value-is_str (get "operation" value) v e))
        (AllFields-add IsSafeEntry "arguments" _ end
          (λ v e. inr (
            refl,
            nonempty-AreSafe _ v
                (safe_arguments-AllFields safe_keys (source_of value (get "arguments" value))
                  safe_keys_safe)
                e,
          ))
          tt))

nonempty-IsSafePreview : (fs : Fields) → AllFields IsSafeEntry fs → IsSafePreview (nonempty fs)
nonempty-IsSafePreview end h = tt
nonempty-IsSafePreview (field k v fs) h = h

-- Whatever value a step carries as its proposed action, the preview made of it holds nothing but the
-- service and the operation, as texts, and arguments with one of ten names, whose values are texts, Booleans
-- or lists of texts.
pub sanitized_approval_preview-IsSafePreview :
    (value : Option Json) → IsSafePreview (sanitized_approval_preview value)
unfolding sanitized_approval_preview
sanitized_approval_preview-IsSafePreview (some (obj value)) =
    nonempty-IsSafePreview (preview_of value) (preview-AllFields value)
sanitized_approval_preview-IsSafePreview _ = tt
