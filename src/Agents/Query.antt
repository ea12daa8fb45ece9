-- ===== src/Agents/Query.antt =====
-- The texts that the agent of app/agents/workspace.py searches for.
use Prim.Native.Char.{Char, code}
use agentic_google_workspace.Prelude.{
  ℕ, suc, ◌+◌, String, Bool, true, false, not, ◌&&◌, ◌||◌, Option, none, some, List, [], ◌∷◌, ◌++◌,
  ◌==◌, if◌then◌else◌, nat_eq, leb, ltb, any, mem, length, take, ok, err,
}
use agentic_google_workspace.Json.{Json, Fields, null, str, arr, obj, get_or, items}
use agentic_google_workspace.Text.{
  strip, rstrip, is_blank, is_space, words, unwords, first_characters, text_length,
}
use agentic_google_workspace.Patterns.{Letters, after}
use agentic_google_workspace.Contracts.{value_error, Checked}

-- `_normalize_space`
unfoldable pub normalize_space : String → String
unfolding words
normalize_space s = unwords (words s)

abbrev pub append_to_first : Char → List String → List String
append_to_first c [] = String.◌∷◌ c String.[] ∷ []
append_to_first c (s ∷ ss) = String.◌∷◌ c s ∷ ss

-- `|`, `—`, `–` and `:`
abbrev is_separator : Char → Bool
is_separator c =
    nat_eq (code c) b'|' || nat_eq (code c) 0x2014 || nat_eq (code c) 0x2013 || nat_eq (code c) b':'

abbrev parts : String → List String
parts String.[] = String.[] ∷ []
parts (String.◌∷◌ c s) =
    let rest = parts s in if is_separator c then String.[] ∷ rest else append_to_first c rest

abbrev strip_all : List String → List String
strip_all [] = []
strip_all (s ∷ ss) = strip s ∷ strip_all ss

-- `re.split(r"\s*(?:\||—|–|:)\s*", title)`, where the title has no white space at its ends
unfoldable pub segments : String → List String
unfolding strip
segments title = strip_all (parts title)

-- A segment of two words or more that is not there yet is added.
abbrev pub add_segments : List String → List String → List String
add_segments found [] = found
add_segments found (s ∷ ss) =
    add_segments (if leb 2 (length (words s)) && not (mem s found) then found ++ s ∷ [] else found)
      ss

abbrev has_end : String → Bool
has_end String.[] = false
has_end (String.◌∷◌ c s) = nat_eq (code c) b'>' || has_end s

abbrev is_end : String → Bool
is_end String.[] = true
is_end (String.◌∷◌ c s) = nat_eq (code c) b'>'

-- `<[^>]+>` begins here, at the `<`.
abbrev begins_tag : Char → String → Bool
begins_tag c s = nat_eq (code c) b'<' && not (is_end s) && has_end s

abbrev without_tags : Bool → String → String
without_tags inside String.[] = String.[]
without_tags true (String.◌∷◌ c s) =
    let out = without_tags false s in
    let still = without_tags true s in if nat_eq (code c) b'>' then out else still
without_tags false (String.◌∷◌ c s) =
    let out = without_tags false s in
    let still = without_tags true s in
    if begins_tag c s then String.◌∷◌ " " still else String.◌∷◌ c out

abbrev ends_sentence : Char → Bool
ends_sentence c = nat_eq (code c) b'.' || nat_eq (code c) b'!' || nat_eq (code c) b'?'

-- `re.split(r"[\r\n]+|(?<=[.!?])\s+", plain)` but for empty pieces and white space, which fall away later. The
-- Boolean says that the character before ends a sentence.
abbrev sentences : Bool → String → List String
sentences ended String.[] = String.[] ∷ []
sentences ended (String.◌∷◌ c s) =
    let rest = sentences (ends_sentence c) s in
    if nat_eq (code c) 13 || nat_eq (code c) 10 || (ended && is_space (code c))
    then String.[] ∷ rest
    else append_to_first c rest

abbrev boilerplate : List String
boilerplate =
    "http://" ∷ "https://" ∷ "www." ∷ "meet.google." ∷ "zoom." ∷ "teams.microsoft.com" ∷ "password"
    ∷ "passcode" ∷ "dialin" ∷ "dial-in" ∷ "dial in" ∷ "join meeting" ∷ "join the meeting"
    ∷ "confidential" ∷ "disclaimer" ∷ "unsubscribe" ∷ "do not reply" ∷ "kind regards"
    ∷ "best regards" ∷ "sincerely" ∷ []

abbrev is_found : Option String → Bool
is_found none = false
is_found (some rest) = true

module _ (letters : Letters) (unescape : String → String) where
  abbrev begins_with : String → String → Bool
  begins_with s phrase = is_found (after letters phrase s)

  -- `_BOILERPLATE.search(s)`
  unfoldable pub is_boilerplate : String → Bool
  is_boilerplate String.[] = false
  is_boilerplate (String.◌∷◌ c s) =
      any (begins_with (String.◌∷◌ c s)) boilerplate || is_boilerplate s

  -- The loop, with how many are kept and how long they are together.
  abbrev useful : ℕ → ℕ → List String → List String
  useful kept size [] = []
  useful kept size (candidate ∷ candidates) =
      let normalized = normalize_space candidate in
      let skipped = useful kept size candidates in
      let total = size + text_length normalized in
      let rest = useful (suc kept) total candidates in
      if ltb (text_length normalized) 3 || is_boilerplate normalized
      then skipped
      else if leb 350 total || nat_eq (suc kept) 4
      then normalized ∷ []
      else normalized ∷ rest

  unfoldable pub compact_description : String → String
  unfolding is_boilerplate normalize_space rstrip is_space
  compact_description description = rstrip (
      first_characters 400
        (unwords (useful 0 0 (sentences false (unescape (without_tags false description))))))

  abbrev title_parts : Json → List String
  title_parts (str title) =
      if is_blank title
      then []
      else add_segments (normalize_space title ∷ []) (segments (normalize_space title))
  title_parts _ = []

  abbrev if_given : String → List String
  if_given s = if s == "" then [] else s ∷ []

  abbrev description_parts : Json → List String
  description_parts (str description) =
      if is_blank description then [] else if_given (compact_description description)
  description_parts _ = []

  abbrev organizer_parts : Json → List String
  organizer_parts (str organizer) =
      if is_blank organizer then [] else normalize_space organizer ∷ []
  organizer_parts _ = []

  abbrev useful_attendees : List Json → List String
  useful_attendees [] = []
  useful_attendees (str s ∷ xs) =
      let rest = useful_attendees xs in if is_blank s then rest else strip s ∷ rest
  useful_attendees (_ ∷ xs) = useful_attendees xs

  abbrev attendee_parts : Json → List String
  attendee_parts (arr xs) = take 3 (useful_attendees (items xs))
  attendee_parts _ = []

  abbrev query_parts : Fields → List String
  query_parts value =
      title_parts (get_or "title" value null)
      ++ (description_parts (get_or "description" value null)
          ++ (organizer_parts (get_or "organizer" value null)
              ++ attendee_parts (get_or "attendees" value null)))

  abbrev shorten : String → String
  shorten s = rstrip (first_characters 700 s)

  abbrev of_parts : List String → Checked String
  of_parts [] = err (value_error "Calendar event context contains no searchable fields")
  of_parts (p ∷ ps) = ok (shorten (normalize_space (unwords (p ∷ ps))))

  unfoldable pub contextual_query : Json → Checked String
  unfolding compact_description segments normalize_space rstrip is_blank
  contextual_query (str s) =
      if is_blank s
      then err (value_error "workspace query must be a string or Calendar event context")
      else ok (shorten (normalize_space s))
  contextual_query (obj value) = of_parts (query_parts value)
  contextual_query _ =
      err (value_error "workspace query must be a string or Calendar event context")

-- `max(segments, key=lambda segment: len(segment.split()))`: the first of those with most words.
abbrev longest : String → List String → String
longest best [] = best
longest best (s ∷ ss) =
    longest (if ltb (length (words best)) (length (words s)) then s else best) ss

abbrev not_empty : List String → List String
not_empty [] = []
not_empty (s ∷ ss) = let rest = not_empty ss in if s == "" then rest else s ∷ rest

abbrev topic : String → List String → String
topic normalized [] = first_characters 200 normalized
topic normalized (s ∷ ss) = first_characters 200 (longest s ss)

abbrev search_text_of : Json → String → Bool → String
search_text_of (str title) contextual prefer_topic =
    if is_blank title
    then first_characters 200 contextual
    else if prefer_topic
    then topic (normalize_space title) (not_empty (segments (normalize_space title)))
    else first_characters 200 (normalize_space title)
search_text_of _ contextual prefer_topic = first_characters 200 contextual

-- `_native_search_text`
unfoldable pub native_search_text : Json → String → Bool → String
unfolding segments normalize_space is_blank words
native_search_text (obj value) contextual prefer_topic =
    search_text_of (get_or "title" value null) contextual prefer_topic
native_search_text _ contextual prefer_topic = first_characters 200 contextual
