-- ===== src/Json.antt =====
-- The JSON values of the contracts (`JsonValue`, `StructuredData` in app/schemas/contracts.py).
use agentic_google_workspace.Prelude.{
  ℕ, String, Bool, true, false, Option, none, some, List, [], ◌∷◌, ◌==◌, if◌then◌else◌,
}
use agentic_google_workspace.Prelude.Int.{ℤ, is_nonzero}

-- A JSON number with a fraction is `float m e`, that is m / 10^e.
mutual
  pub data Json : Type 0 where
    null : Json
    bool : Bool → Json
    int : ℤ → Json
    float : ℤ → ℕ → Json
    str : String → Json
    arr : Items → Json
    obj : Fields → Json

  pub data Items : Type 0 where
    nil : Items
    cons : Json → Items → Items

  pub data Fields : Type 0 where
    end : Fields
    field : String → Json → Fields → Fields

abbrev pub items : Items → List Json
items nil = []
items (cons x xs) = x ∷ items xs

abbrev pub of_items : List Json → Items
of_items [] = nil
of_items (x ∷ xs) = cons x (of_items xs)

-- `d.get(k)`
abbrev pub get : String → Fields → Option Json
get k end = none
get k (field j v fs) = if j == k then some v else get k fs

-- `k in d`
abbrev pub has : String → Fields → Bool
has k fs = elim (get k fs) [ none ↦ false | some _ ↦ true ]

-- `d[k] = v`
abbrev pub put : String → Json → Fields → Fields
put k v end = field k v end
put k v (field j w fs) = if j == k then field j v fs else field j w (put k v fs)

-- `d.pop(k, None)`
abbrev pub drop_key : String → Fields → Fields
drop_key k end = end
drop_key k (field j w fs) = if j == k then fs else field j w (drop_key k fs)

abbrev pub names : Fields → List String
names end = []
names (field k v fs) = k ∷ names fs

-- `d.get(k, default)`
abbrev pub get_or : String → Fields → Json → Json
get_or k fs d = elim (get k fs) [ none ↦ d | some v ↦ v ]

-- `isinstance(v, str)` with the value at hand
abbrev pub as_str : Json → Option String
as_str (str s) = some s
as_str _ = none

abbrev pub is_str : Json → Bool
is_str (str s) = true
is_str _ = false

-- `bool(v)`
abbrev pub truthy : Json → Bool
truthy null = false
truthy (bool b) = b
truthy (int n) = is_nonzero n
truthy (float m e) = is_nonzero m
truthy (str s) = if s == "" then false else true
truthy (arr nil) = false
truthy (arr (cons x xs)) = true
truthy (obj end) = false
truthy (obj (field k v fs)) = true

-- `a or b`
abbrev pub or_else : Json → Json → Json
or_else a b = if truthy a then a else b
