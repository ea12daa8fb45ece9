-- ===== src/Compaction/Tests.antt =====
-- The compaction of the results of a search for events.
use agentic_google_workspace.Prelude.{◌≡◌, refl}
use agentic_google_workspace.Prelude.Int.{pos}
use agentic_google_workspace.Json.{Fields, int, str, arr, obj, nil, cons, end, field}
use agentic_google_workspace.Compaction.{compact_result_data}
use agentic_google_workspace.Compaction.Bounds.{Compacted, primary_collection-compact_result_data}
use agentic_google_workspace.Synthesis.{primary_collection}

abbrev found : Fields
found =
    field "events"
      (arr (
        cons
          (obj (
            field "id" (str "e1")
              (field "title" (str "Review") (field "attendees" (arr (cons (str "a@b") nil)) end))))
          (cons (str "no dict") nil)))
      end

events_compacted :
    compact_result_data found
    ≡ field "events"
        (arr (
          cons
            (obj (
              field "title" (str "Review") (
                field "attendees"
                  (arr (cons (str "a@b") nil))
                  (field "attendee_count" (int (pos 1)) end))))
            nil))
        end
unfolding compact_result_data
events_compacted = refl

primary_collection-compact_result_data_example :
    Compacted (primary_collection found) (primary_collection (compact_result_data found))
primary_collection-compact_result_data_example = primary_collection-compact_result_data found
