-- ===== src/Planner/Canonical.antt =====
-- The arguments that `_canonical_arguments` of app/orchestration/planner.py makes, step by step.
use agentic_google_workspace.Prelude.{
  String, ◌≡◌, refl, true, false, ◌&&◌, Option, none, some, List, [], ◌∷◌, ◌==◌, ok, ◌>>=◌,
  >>=-eq-ok, arith, Bool-cases, inl, inr,
}
use agentic_google_workspace.Prelude.Int.{pos}
use agentic_google_workspace.Json.{
  Json, Fields, null, int, str, arr, get_or, has, put, drop_key, of_items, is_str,
}
use agentic_google_workspace.Contracts.{Service, Intent, Checked}
use agentic_google_workspace.Contracts.Graph.{find_step_references}
use agentic_google_workspace.Specs.Values.{Moment, aware, naive}
use agentic_google_workspace.Planner.Requests.{
  Environment, Settings, requests_singular_upcoming_event,
}
use agentic_google_workspace.Planner.Arguments.{
  set_default, service_names, put_services, or_range, drop_aliases, later_of, parse_time, later,
  search_arguments, upcoming_arguments, calendar_start, apply_range, range_between, range_arguments,
  first_arguments, second_arguments, third_arguments, canonical_arguments, is_operation, dict_at,
}
use agentic_google_workspace.Planner.References.{
  Keeps, Keeps-refl, Keeps-trans, put-Keeps, drop-Keeps, str-plain, service_names-plain,
}
use agentic_google_workspace.Planner.Events.{text-Keeps, event_arguments-Keeps}

one-plain : find_step_references (int (pos 1)) ≡ []
unfolding find_step_references
one-plain = refl

names-plain : (ss : List Service) → find_step_references (arr (of_items (service_names ss))) ≡ []
unfolding find_step_references
names-plain ss = service_names-plain ss

module _ (environment : Environment) where
  later_of-is_str :
      (a b : String) (s t : Moment) {v : Json} → later_of a b s t ≡ ok v → is_str v ≡ true
  later_of-is_str a b (aware s) (aware t) h = ground arith
  later_of-is_str a b (naive s) (naive t) h = ground arith
  later_of-is_str a b (aware s) (naive t) h = cc
  later_of-is_str a b (naive s) (aware t) h = cc

  later-is_str : (a : Json) (b : String) {v : Json} → later environment a b ≡ ok v → is_str v ≡ true
  later-is_str (str a) b h =
      let (s, hs, k) = >>=-eq-ok (parse_time environment a) _ h in
      let (t, ht, l) = >>=-eq-ok (parse_time environment b) _ k in later_of-is_str a b s t l
  later-is_str _ b h = cc

  module _ (P : Checked String → Type 0) (settings : Settings) (intent : Intent) where
    default-Keeps :
        (k : String) (v : Json) (fs : Fields)
        → (k == "$step") ≡ false
        → find_step_references v ≡ []
        → Keeps P fs (set_default k v fs)
    default-Keeps k v fs other plain = elim (Bool-cases (has k fs)) [
      | inl there ↦ rw (set_default, there) (Keeps-refl P fs)
      | inr missing ↦ rw (set_default, missing) (put-Keeps P k v fs other plain)
    ]

    services-Keeps :
        (xs : List Json) (fs : Fields)
        → find_step_references (arr (of_items xs)) ≡ []
        → Keeps P fs (put_services xs fs)
    services-Keeps [] fs plain = Keeps-refl P fs
    services-Keeps (x ∷ xs) fs plain =
        default-Keeps "services" (arr (of_items (x ∷ xs))) fs refl plain

    search_arguments-Keeps :
        (fs : Fields) → Keeps P fs (search_arguments environment settings intent fs)
    search_arguments-Keeps fs =
        Keeps-trans P fs (set_default "query" (str settings.query) fs) _
          (default-Keeps "query" (str settings.query) fs refl (str-plain (str settings.query) refl))
          (services-Keeps (service_names intent.required_services) _
            (names-plain intent.required_services))

    upcoming_arguments-Keeps :
        (fs gs : Fields) → upcoming_arguments environment settings intent fs ≡ ok gs → Keeps P fs gs
    upcoming_arguments-Keeps fs gs h =
        let (now, hn, k) =
          >>=-eq-ok (environment.local_text settings.timezone_name settings.reference_time) _ h in
        let timed = put "time_min" (str now) fs in
        let same : put "max_results" (int (pos 1)) timed ≡ gs = cc in
        rw (← same) (
          Keeps-trans P fs timed _ (text-Keeps environment P settings intent "time_min" now fs refl)
            (put-Keeps P "max_results" (int (pos 1)) timed refl one-plain))

    aliases-Keeps : (fs : Fields) → Keeps P fs (drop_aliases fs)
    aliases-Keeps fs =
        let a = drop_key "date_range" fs in
        let b = drop_key "time_range" a in
        let c = drop_key "start_date" b in
        let d = drop_key "end_date" c in
        let e = drop_key "time_minimum" d in
        Keeps-trans P fs a _ (drop-Keeps P "date_range" fs refl) (
          Keeps-trans P a b _ (drop-Keeps P "time_range" a refl) (
            Keeps-trans P b c _ (drop-Keeps P "start_date" b refl) (
              Keeps-trans P c d _ (drop-Keeps P "end_date" c refl) (
                Keeps-trans P d e _ (drop-Keeps P "time_minimum" d refl)
                  (drop-Keeps P "time_maximum" e refl)))))

    calendar_start-is_str :
        (start : String) (fs : Fields) {v : Json}
        → calendar_start environment settings intent start fs ≡ ok v
        → is_str v ≡ true
    calendar_start-is_str start fs h = elim (Bool-cases (has "time_min" fs)) [
      | inl there ↦ later-is_str (get_or "time_min" fs null) start (rw there at h)
      | inr missing ↦ ground arith
    ]

    -- Two texts are put, and the aliases are dropped.
    two-Keeps :
        (j k s t : String) (fs : Fields)
        → (j == "$step") ≡ false
        → (k == "$step") ≡ false
        → Keeps P fs (drop_aliases (put k (str t) (put j (str s) fs)))
    two-Keeps j k s t fs hj hk =
        Keeps-trans P fs (put j (str s) fs) _ (text-Keeps environment P settings intent j s fs hj) (
          Keeps-trans P (put j (str s) fs) (put k (str t) (put j (str s) fs)) _
            (text-Keeps environment P settings intent k t (put j (str s) fs) hk)
            (aliases-Keeps (put k (str t) (put j (str s) fs))))

    calendar-Keeps :
        (start finish : String) (fs gs : Fields)
        → (calendar_start environment settings intent start fs >>= λ from.
            ok (drop_aliases (put "time_max" (str finish) (put "time_min" from fs))))
          ≡ ok gs
        → Keeps P fs gs
    calendar-Keeps start finish fs gs h =
        let (v, hv, k) = >>=-eq-ok (calendar_start environment settings intent start fs) _ h in
        let first = put "time_min" v fs in
        let second = put "time_max" (str finish) first in
        let same : drop_aliases second ≡ gs = cc in
        rw (← same) (
          Keeps-trans P fs first _
            (put-Keeps P "time_min" v fs refl (str-plain v (calendar_start-is_str start fs hv)))
            (Keeps-trans P first second _
              (text-Keeps environment P settings intent "time_max" finish first refl)
              (aliases-Keeps second)))

    is_ok : (a b c : Fields) → Keeps P a b → ◌≡◌ {A = Checked Fields} (ok b) (ok c) → Keeps P a c
    is_ok a b c k e = let same : b ≡ c = cc in rw (← same) k

    apply_range-Keeps :
        (service : Service) (operation start finish : String) (fs gs : Fields)
        → apply_range environment settings intent service operation start finish fs ≡ ok gs
        → Keeps P fs gs
    apply_range-Keeps service operation start finish fs gs h =
        elim (Bool-cases (
          is_operation environment settings intent Service.google_calendar "search_events" service
            operation)) [
              | inl a ↦ calendar-Keeps start finish fs gs (rw a at h)
              | inr a ↦
                  elim (Bool-cases (
                    is_operation environment settings intent Service.gmail "search_emails" service
                      operation)) [
                        | inl b ↦
                            is_ok fs _ gs (two-Keeps "date_from" "date_to" _ _ fs refl refl)
                              (rw (a, b) at h)
                        | inr b ↦
                            elim (Bool-cases (
                              is_operation environment settings intent Service.google_drive
                                "search_files" service operation)) [
                                  | inl c ↦
                                      is_ok fs _ gs
                                        (two-Keeps "modified_after" "modified_before" _ _ fs refl
                                          refl)
                                        (rw (a, b, c) at h)
                                  | inr c ↦
                                      elim (Bool-cases (
                                        is_operation environment settings intent Service.workspace
                                          "workspace_search" service operation)) [
                                            | inl d ↦
                                                is_ok fs _ gs
                                                  (two-Keeps "date_from" "date_to" _ _ fs refl refl)
                                                  (rw (a, b, c, d) at h)
                                            | inr d ↦
                                                is_ok fs fs gs (Keeps-refl P fs)
                                                  (rw (a, b, c, d) at h)
                                          ]
                                ]
                      ]
            ]

    range_between-Keeps :
        (start finish : Json) (service : Service) (operation : String) (fs gs : Fields)
        → range_between environment settings intent start finish service operation fs ≡ ok gs
        → Keeps P fs gs
    range_between-Keeps (str start) (str finish) service operation fs gs h =
        apply_range-Keeps service operation start finish fs gs h
    range_between-Keeps _ _ service operation fs gs h = is_ok fs fs gs (Keeps-refl P fs) h

    range_arguments-Keeps :
        (range : Option Fields) (service : Service) (operation : String) (fs gs : Fields)
        → range_arguments environment settings intent range service operation fs ≡ ok gs
        → Keeps P fs gs
    range_arguments-Keeps none service operation fs gs h = is_ok fs fs gs (Keeps-refl P fs) h
    range_arguments-Keeps (some range) service operation fs gs h =
        range_between-Keeps (get_or "start" range null) (get_or "end" range null) service operation
          fs gs h

    first-Keeps :
        (service : Service) (operation : String) (fs gs : Fields)
        → first_arguments environment settings intent service operation fs ≡ ok gs
        → Keeps P fs gs
    first-Keeps service operation fs gs h =
        elim (Bool-cases (
          is_operation environment settings intent Service.google_calendar "create_event" service
            operation)) [
              | inl a ↦ event_arguments-Keeps environment P settings intent fs gs (rw a at h)
              | inr a ↦ is_ok fs fs gs (Keeps-refl P fs) (rw a at h)
            ]

    second-Keeps :
        (service : Service) (operation : String) (fs : Fields)
        → Keeps P fs (second_arguments environment settings intent service operation fs)
    second-Keeps service operation fs =
        elim (Bool-cases (
          is_operation environment settings intent Service.workspace "workspace_search" service
            operation)) [
              | inl a ↦ rw (second_arguments, a) (search_arguments-Keeps fs)
              | inr a ↦ rw (second_arguments, a) (Keeps-refl P fs)
            ]

    third-Keeps :
        (service : Service) (operation : String) (fs gs : Fields)
        → third_arguments environment settings intent service operation fs ≡ ok gs
        → Keeps P fs gs
    third-Keeps service operation fs gs h =
        elim (Bool-cases (
          is_operation environment settings intent Service.google_calendar "search_events" service
            operation
          && requests_singular_upcoming_event environment settings.query intent)) [
            | inl a ↦ upcoming_arguments-Keeps fs gs (rw a at h)
            | inr a ↦ is_ok fs fs gs (Keeps-refl P fs) (rw a at h)
          ]

    pub canonical_arguments-Keeps :
        (service : Service) (operation : String) (fs gs : Fields)
        → canonical_arguments environment settings intent service operation fs ≡ ok gs
        → Keeps P fs gs
    unfolding canonical_arguments
    canonical_arguments-Keeps service operation fs gs h =
        let (timed, ht, k) =
          >>=-eq-ok (first_arguments environment settings intent service operation fs) _ h in
        let second = second_arguments environment settings intent service operation timed in
        let (third, hthird, l) =
          >>=-eq-ok (third_arguments environment settings intent service operation second) _ k in
        Keeps-trans P fs timed gs (first-Keeps service operation fs timed ht) (
          Keeps-trans P timed second gs (second-Keeps service operation timed) (
            Keeps-trans P second third gs (third-Keeps service operation second third hthird) (
              range_arguments-Keeps
                (or_range (dict_at "date_range" intent.extracted_entities)
                  (dict_at "time_range" intent.extracted_entities))
                service operation third gs l)))
