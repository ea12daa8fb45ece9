-- ===== src/Sync/Tests.antt =====
-- Two pages of items, of which three may be copied.
use agentic_google_workspace.Prelude.{
  ℕ, String, ◌≡◌, ◌≢◌, refl, true, Option, none, some, List, [], ◌∷◌, arith,
}
use agentic_google_workspace.Prelude.Int.{pos}
use agentic_google_workspace.Json.{str}
use agentic_google_workspace.Specs.Values.{Moment, aware}
use agentic_google_workspace.Sync.{
  Store, Session, Page, done, failed, unfinished, Source, sync_pages, sync_bounded, sync_service,
}
use agentic_google_workspace.Sync.Paging.{
  Counted, IsFinite, sync_bounded-Counted, sync_bounded-ends,
}
use agentic_google_workspace.Sync.History.{
  Run, kept_of, after_runs, sync_all, opened, sync_all-kept,
}
use agentic_google_workspace.Sync.Recovery.{Settled, sync_service-recovers}

abbrev page_at : Option String → Option Page
page_at none = some (record { found = str "a" ∷ str "b" ∷ []; next_page_token = some "more" })
page_at (some s) = some (record { found = str "c" ∷ str "d" ∷ []; next_page_token = none })

abbrev source : Source
source = record {
  pages = λ n token. page_at token;
  is_indexable = λ x. true;
  error_name = "HttpError";
}

abbrev left : Option String → ℕ
left none = 1
left (some s) = 0

three_copied : sync_bounded source 2 3 [] ≡ done 3 none (str "a" ∷ str "b" ∷ str "c" ∷ [])
unfolding sync_pages
three_copied = refl

source-IsFinite : IsFinite source left
source-IsFinite n none page next e t = omega arith
source-IsFinite n (some s) page next e t = ground arith

sync_bounded-Counted_example : Counted 3 0 (sync_bounded source 2 3 [])
sync_bounded-Counted_example = sync_bounded-Counted source 2 3 []

sync_bounded-ends_example : sync_bounded source 2 3 [] ≢ unfinished
sync_bounded-ends_example = sync_bounded-ends source left 2 3 [] source-IsFinite (omega arith)

abbrev store : Store
store = record {
  row = record {
    status = "pending";
    sync_cursor = none;
    last_successful_sync = none;
    last_attempted_sync = none;
    error_type = none;
  };
  indexed = [];
}

abbrev session : Session
session = record { current = store; committed = store }

failed_ends : failed "HttpError" (str "a" ∷ []) ≢ unfinished
failed_ends h = cc

sync_service-recovers_example :
    Settled
      (aware (pos 1))
      (aware (pos 2))
      store
      (sync_service
        (aware (pos 1))
        (aware (pos 2))
        (λ since indexed. failed "HttpError" (str "a" ∷ []))
        session).committed
      (failed "HttpError" (str "a" ∷ []))
sync_service-recovers_example =
    sync_service-recovers (aware (pos 1)) (aware (pos 2))
      (λ since indexed. failed "HttpError" (str "a" ∷ [])) session failed_ends

abbrev begins_at : Moment
begins_at = aware (pos 1)

-- One that fails, one that is done, and one that is cut off.
abbrev runs : List Run
runs =
    record {
      begun = begins_at;
      ended = aware (pos 2);
      download = λ since indexed. failed "HttpError" (str "a" ∷ []);
    }
    ∷ record {
      begun = begins_at;
      ended = aware (pos 3);
      download = λ since indexed. sync_bounded source 2 3 indexed;
    }
    ∷ record {
      begun = begins_at;
      ended = aware (pos 4);
      download = λ since indexed. sync_pages source 1 9 0 none indexed;
    }
    ∷ []

sync_all-kept_example :
    kept_of (sync_all runs (opened store)).committed ≡ after_runs runs (kept_of store)
sync_all-kept_example = sync_all-kept runs store

-- The three items of the second one.
left_over : after_runs runs (kept_of store) ≡ record {
  sync_cursor = none;
  last_successful_sync = some (aware (pos 3));
  indexed = str "a" ∷ str "b" ∷ str "c" ∷ [];
}
unfolding sync_pages
left_over = refl
