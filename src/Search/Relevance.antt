-- ===== src/Search/Relevance.antt =====
-- app/retrieval/relevance.py: which candidates of a search are kept.
use Prim.Native.String.{◌++◌ as ◌+++◌}
use Prim.Native.Char.{Char, code}
use agentic_google_workspace.Prelude.{
  ℕ, suc, String, Bool, true, false, not, ◌&&◌, ◌||◌, Option, none, some, List, [], ◌∷◌, ◌==◌,
  if◌then◌else◌, leb, nat_eq, length, mem,
}
use agentic_google_workspace.Json.{
  Json, Fields, null, int, float, str, obj, get_or, or_else, truthy,
}
use agentic_google_workspace.Text.{runs_of, words, unwords}

-- The floating-point numbers, as far as they are used: `float(v)`, `m / n`, the weighted sum, and `<` and `>=`.
pub record Floats (F : Type 0) : Type 0 where
  pub float_of : Json → F
  pub ratio : ℕ → ℕ → F
  pub zero : F
  pub one : F
  -- 0.60, from which on a score is enough without a common word
  pub strong : F
  -- `0.60 * base + 0.30 * coverage + 0.10 * title_coverage`
  pub calibrated : F → F → F → F
  pub less : F → F → Bool
  pub at_least : F → F → Bool

-- `s.lower()` and `str(v)`
pub record Strings : Type 0 where
  pub lower : String → String
  pub text_of : Json → String

pub record RankedCandidate (Item F : Type 0) : Type 0 where
  pub item : Item
  pub score : F
  pub lexical_coverage : F

-- `[a-z0-9]`
abbrev is_token : Char → Bool
is_token c = (leb b'a' (code c) && leb (code c) b'z') || (leb b'0' (code c) && leb (code c) b'9')

-- `_TOKEN_PATTERN.findall(value)`
abbrev pub tokens : String → List String
tokens = runs_of is_token

abbrev pub stop_words : List String
stop_words =
    "a" ∷ "an" ∷ "and" ∷ "are" ∷ "documents" ∷ "emails" ∷ "find" ∷ "for" ∷ "in" ∷ "me" ∷ "my" ∷ "of"
    ∷ "on" ∷ "related" ∷ "research" ∷ "the" ∷ "to" ∷ "with" ∷ []

abbrev is_meaningful : String → Bool
is_meaningful String.[] = false
is_meaningful (String.◌∷◌ c String.[]) = false
is_meaningful token = not (mem token stop_words)

-- The set of the meaningful ones.
abbrev pub meaningful : List String → List String
meaningful [] = []
meaningful (t ∷ ts) =
    let rest = meaningful ts in if is_meaningful t && not (mem t rest) then t ∷ rest else rest

-- `len(xs & ys)` of a list without repetition
abbrev pub common : List String → List String → ℕ
common [] ys = 0
common (x ∷ xs) ys = let rest = common xs ys in if mem x ys then suc rest else rest

abbrev pub Key : Type 0
Key = String × String

abbrev pub key_eq : Key → Key → Bool
key_eq (a, b) (c, d) = a == c && b == d

abbrev pub mem_key : Key → List Key → Bool
mem_key k [] = false
mem_key k (j ∷ js) = key_eq j k || mem_key k js

module _ (strings : Strings) where
  -- `str(value or "")`
  abbrev pub text_or_empty : Json → String
  text_or_empty (str s) = s
  text_or_empty v = if truthy v then strings.text_of v else ""

  unfoldable pub meaningful_tokens : String → List String
  meaningful_tokens value = meaningful (tokens (strings.lower value))

  -- `_value(candidate, name)`
  abbrev pub value : Fields → String → Json
  value candidate name = get_or name candidate null

  abbrev pub thread_of : String → Json → Option String
  thread_of service (obj metadata) = elim (get_or "thread_id" metadata null) [
    | str s ↦ if service == "gmail" && not (s == "") then some s else none
    | _ ↦ none
  ]
  thread_of service _ = none

  abbrev pub by_title : Fields → String → Key
  by_title candidate service =
      (service, unwords (words (strings.lower (text_or_empty (value candidate "title")))))

  abbrev pub by_identifier : Fields → String → Json → Key
  by_identifier candidate service (str s) =
      if s == "" then by_title candidate service else (service, s)
  by_identifier candidate service _ = by_title candidate service

  abbrev by_thread : Fields → String → Option String → Key
  by_thread candidate service (some s) = (service, "thread:" +++ s)
  by_thread candidate service none =
      by_identifier candidate service
        (or_else (value candidate "external_resource_id") (value candidate "id"))

  unfoldable pub deduplication_key : Fields → Key
  unfolding words
  deduplication_key candidate =
      let service = text_or_empty (value candidate "service") in
      by_thread candidate service (
        thread_of service
          (or_else (value candidate "metadata") (value candidate "resource_metadata")))

  module _ {F : Type 0} (floats : Floats F) where
    abbrev at_most_one : F → F
    at_most_one v = if floats.less floats.one v then floats.one else v

    abbrev not_negative : F → F
    not_negative v = if floats.less floats.zero v then v else floats.zero

    abbrev pub bounded_score : Json → F
    bounded_score (int n) = not_negative (at_most_one (floats.float_of (int n)))
    bounded_score (float m e) = not_negative (at_most_one (floats.float_of (float m e)))
    bounded_score _ = floats.zero

    abbrev pub coverage_of : List String → String → F
    coverage_of [] text = floats.zero
    coverage_of (t ∷ terms) text =
        floats.ratio (common (t ∷ terms) (tokens (strings.lower text))) (length (t ∷ terms))

    module _ {Item : Type 0} (view : Item → Fields) where
      abbrev pub title_of : Item → String
      title_of item = text_or_empty (value (view item) "title")

      abbrev pub snippet_of : Item → String
      snippet_of item =
          let candidate = view item in
          text_or_empty (
            or_else (or_else (value candidate "snippet") (value candidate "chunk_text"))
              (value candidate "text"))

      abbrev pub is_requested : List String → Item → Bool
      is_requested [] item = true
      is_requested (s ∷ services) item =
          mem (text_or_empty (value (view item) "service")) (s ∷ services)

      unfoldable pub rank : List String → Item → RankedCandidate Item F
      rank terms item =
          let coverage = coverage_of terms (title_of item +++ (" " +++ snippet_of item)) in
          let base = bounded_score (value (view item) "score") in
          record {
            item = item;
            score = floats.calibrated base coverage (coverage_of terms (title_of item));
            lexical_coverage = coverage;
          }

      unfoldable pub is_relevant : F → RankedCandidate Item F → Bool
      is_relevant minimum_score r =
          floats.at_least r.score minimum_score
          && (floats.less floats.zero r.lexical_coverage
              || floats.at_least (bounded_score (value (view r.item) "score")) floats.strong)

      unfoldable pub ranked_candidates :
          List String → List String → F → List Item → List (RankedCandidate Item F)
      unfolding rank is_relevant
      ranked_candidates terms requested minimum_score [] = []
      ranked_candidates terms requested minimum_score (item ∷ items) =
          let rest = ranked_candidates terms requested minimum_score items in
          if is_requested requested item && is_relevant minimum_score (rank terms item)
          then rank terms item ∷ rest
          else rest

      -- `ranked.sort(key=…, reverse=True)` keeps the order of what has one score.
      abbrev pub insert_ranked :
          RankedCandidate Item F → List (RankedCandidate Item F) → List (RankedCandidate Item F)
      insert_ranked r [] = r ∷ []
      insert_ranked r (s ∷ ss) =
          let rest = insert_ranked r ss in
          if floats.less r.score s.score then s ∷ rest else r ∷ s ∷ ss

      abbrev pub sort_ranked : List (RankedCandidate Item F) → List (RankedCandidate Item F)
      sort_ranked [] = []
      sort_ranked (r ∷ rs) = insert_ranked r (sort_ranked rs)

      abbrev pub key_of : RankedCandidate Item F → Key
      key_of r = deduplication_key (view r.item)

      -- The loop, with the keys that were seen and how many are selected: it ends where these are `top_k`.
      unfoldable pub pick :
          ℕ → List Key → ℕ → List (RankedCandidate Item F) → List (RankedCandidate Item F)
      unfolding deduplication_key
      pick top_k seen n [] = []
      pick top_k seen n (r ∷ rs) =
          let skipped = pick top_k seen n rs in
          let rest = pick top_k (key_of r ∷ seen) (suc n) rs in
          if mem_key (key_of r) seen
          then skipped
          else if nat_eq (suc n) top_k
          then r ∷ []
          else r ∷ rest

      abbrev pub items_of : List (RankedCandidate Item F) → List Item
      items_of [] = []
      items_of (r ∷ rs) = r.item ∷ items_of rs

      unfoldable pub select_ranked :
          List Item → String → ℕ → List String → F → List (RankedCandidate Item F)
      unfolding meaningful_tokens pick ranked_candidates
      select_ranked candidates query top_k requested minimum_score = pick top_k [] 0 (
          sort_ranked
            (ranked_candidates (meaningful_tokens query) requested minimum_score candidates))

      abbrev pub select_relevant_candidates : List Item → String → ℕ → List String → F → List Item
      select_relevant_candidates candidates query top_k requested minimum_score =
          items_of (select_ranked candidates query top_k requested minimum_score)
