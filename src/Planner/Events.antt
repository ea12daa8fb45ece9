-- ===== src/Planner/Events.antt =====
-- The times and guests that `_canonical_arguments` of app/orchestration/planner.py gives an event.
use agentic_google_workspace.Prelude.{
  ℕ, String, ◌≡◌, refl, Bool, true, false, not, ◌&&◌, [], ◌==◌, ok, >>=-eq-ok, arith, Bool-cases,
  inl, inr,
}
use agentic_google_workspace.Json.{
  Json, Fields, null, bool, str, arr, nil, cons, get_or, has, put, is_str, or_else,
}
use agentic_google_workspace.Contracts.{Intent, Checked}
use agentic_google_workspace.Contracts.Graph.{find_step_references}
use agentic_google_workspace.Specs.Values.{is_nonempty_texts}
use agentic_google_workspace.Planner.Requests.{Environment, Settings, requests_google_meet}
use agentic_google_workspace.Planner.Arguments.{
  attendee_email, event_attendees, default_end_time, put_end, given_end, event_times,
  event_arguments,
}
use agentic_google_workspace.Planner.References.{
  Keeps, Keeps-refl, Keeps-trans, put-Keeps, str-plain, nonempty_texts-plain,
}

email-plain : (s : String) → find_step_references (arr (cons (str s) nil)) ≡ []
unfolding find_step_references
email-plain s = refl

bool-plain : (b : Bool) → find_step_references (bool b) ≡ []
unfolding find_step_references
bool-plain b = refl

module _ (environment : Environment) where
  end_time-is_str :
      (start : Json) (minutes : ℕ) {v : Json}
      → default_end_time environment start minutes ≡ ok v
      → is_str v ≡ true
  unfolding default_end_time
  end_time-is_str (str s) minutes h = ground arith
  end_time-is_str _ minutes h = cc

  module _ (P : Checked String → Type 0) (settings : Settings) (intent : Intent) where
    pub text-Keeps :
        (k s : String) (fs : Fields) → (k == "$step") ≡ false → Keeps P fs (put k (str s) fs)
    text-Keeps k s fs other = put-Keeps P k (str s) fs other (str-plain (str s) refl)

    email-Keeps : (email : Json) (fs : Fields) → Keeps P fs (attendee_email email fs)
    email-Keeps (str s) fs =
        put-Keeps P "attendees" (arr (cons (str s) nil)) fs refl (email-plain s)
    email-Keeps _ fs = Keeps-refl P fs

    attendees-Keeps :
        (attendees email : Json) (fs : Fields) → Keeps P fs (event_attendees attendees email fs)
    attendees-Keeps attendees email fs = elim (Bool-cases (is_nonempty_texts attendees)) [
      | inl given ↦
          rw (event_attendees, given)
            (put-Keeps P "attendees" attendees fs refl (nonempty_texts-plain attendees given))
      | inr other ↦ rw (event_attendees, other) (email-Keeps email fs)
    ]

    put_end-Keeps :
        (start : Json) (minutes : ℕ) (fs gs : Fields)
        → put_end environment settings intent start minutes fs ≡ ok gs
        → Keeps P fs gs
    put_end-Keeps start minutes fs gs h =
        let (v, hv, k) = >>=-eq-ok (default_end_time environment start minutes) _ h in
        let same : put "end" v fs ≡ gs = cc in
        rw (← same) (put-Keeps P "end" v fs refl (str-plain v (end_time-is_str start minutes hv)))

    given_end-Keeps :
        (start : String) (finish : Json) (fs gs : Fields)
        → given_end environment settings intent start finish fs ≡ ok gs
        → Keeps P fs gs
    given_end-Keeps start (str finish) fs gs h =
        let same : put "end" (str finish) fs ≡ gs = cc in
        rw (← same) (text-Keeps "end" finish fs refl)
    given_end-Keeps start _ fs gs h = put_end-Keeps (str start) _ fs gs h

    event_times-Keeps :
        (start finish : Json) (fs gs : Fields)
        → event_times environment settings intent start finish fs ≡ ok gs
        → Keeps P fs gs
    event_times-Keeps (str start) finish fs gs h =
        Keeps-trans P fs (put "start" (str start) fs) gs (text-Keeps "start" start fs refl)
          (given_end-Keeps start finish (put "start" (str start) fs) gs h)
    event_times-Keeps _ finish fs gs h = elim (Bool-cases (has "start" fs && not (has "end" fs))) [
      | inl open_end ↦ put_end-Keeps (get_or "start" fs null) _ fs gs (rw open_end at h)
      | inr other ↦ let same : fs ≡ gs = (cc (rw other at h)) in rw (← same) (Keeps-refl P fs)
    ]

    pub event_arguments-Keeps :
        (fs gs : Fields) → event_arguments environment settings intent fs ≡ ok gs → Keeps P fs gs
    event_arguments-Keeps fs gs h =
        let entities = intent.extracted_entities in
        let meet = requests_google_meet environment settings.query in
        let (timed, ht, k) =
          >>=-eq-ok
            (event_times environment settings intent
              (or_else (get_or "start_time" entities null) (get_or "start" entities null))
              (or_else (get_or "end_time" entities null) (get_or "end" entities null)) fs)
            _ h in
        let attended =
          event_attendees (get_or "attendees" entities null) (get_or "attendee_email" entities null)
            timed in
        let zoned = put "timezone" (str settings.timezone_name) attended in
        let same : put "create_google_meet" (bool meet) zoned ≡ gs = cc in
        rw (← same) (
          Keeps-trans P fs timed _
            (event_times-Keeps
              (or_else (get_or "start_time" entities null) (get_or "start" entities null))
              (or_else (get_or "end_time" entities null) (get_or "end" entities null)) fs timed ht)
            (Keeps-trans P timed attended _
              (attendees-Keeps (get_or "attendees" entities null)
                (get_or "attendee_email" entities null) timed)
              (Keeps-trans P attended zoned _
                (text-Keeps "timezone" settings.timezone_name attended refl)
                (put-Keeps P "create_google_meet" (bool meet) zoned refl (bool-plain meet)))))
