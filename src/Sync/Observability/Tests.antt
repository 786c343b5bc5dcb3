-- ===== src/Sync/Observability/Tests.antt =====
-- A concrete run, for the theorems on src/ntulearn_skill/sync/observability.py.
use ntulearn_skill.Prelude.{
  All, is_blank, storage_error, err, ok, ℕ, ◌≡◌, refl, true, false, none, some, List, [], ◌∷◌,
}
use ntulearn_skill.Core.Models.{Coverage, SyncRunStatus}
use ntulearn_skill.Core.Identifiers.{RemoteId}
use ntulearn_skill.Sync.Models.{ScopeResult}
use ntulearn_skill.Sync.Observability.{
  Control, RequestField, Count, Book, SyncRunResult, find_course_key, new_run, start,
}
use ntulearn_skill.Sync.Observability.Finish.{
  find_run, find_course, scopes_of, get, end_run, end_runs, finish,
}
use ntulearn_skill.Sync.Observability.Recorded.{record_all, WellFormed, IsRecordable}
use ntulearn_skill.Sync.Observability.Roundtrip.{completed, run-recorded}
use ntulearn_skill.Sync.Observability.Once.{finish-once}
use ntulearn_skill.Prelude.Json.{ℤ}

abbrev course_id : RemoteId
course_id = record { provider = "ntulearn"; value = "_1_1" }

abbrev content_scope : ScopeResult
content_scope = record {
  provider = "ntulearn";
  course_id = some course_id;
  data_kind = "content";
  coverage = Coverage.complete;
  pages_seen = 2;
  items_seen = 3;
  pagination_complete = true;
  failure_category = none;
  warnings = [];
  observed_at = 60;
}

abbrev book : Book
book = record {
  providers = [];
  courses = record { key = 4; id = course_id } ∷ [];
  runs = [];
  scopes = [];
}

abbrev controls : List RequestField
controls = record { name = "page_size"; value = Control.number (ℤ.pos 100) } ∷ []

abbrev counts : List Count
counts = record { name = "content_observed"; value = ℤ.pos 3 } ∷ []

mode_not_blank : is_blank "discovery" ≡ false
unfolding is_blank
mode_not_blank = refl

book-WellFormed : WellFormed book
unfolding find_course
book-WellFormed = ((refl, tt), tt)

scope-IsRecordable : All (IsRecordable "ntulearn" book.courses) (content_scope ∷ [])
unfolding find_course_key
scope-IsRecordable = ((refl, (refl, refl)), tt)

run-recorded_example :
    (key : ℕ) × (started : Book) × (recorded : Book) × (ended : Book) × let result =
        completed key "discovery" 50 70 SyncRunStatus.succeeded counts [] none
          (content_scope ∷ []) in
      (start "ntulearn" "discovery" controls 50 book ≡ ok (key, started))
      × (record_all "ntulearn" key (content_scope ∷ []) started ≡ ok recorded)
      × (finish key SyncRunStatus.succeeded counts [] none 70 recorded ≡ ok (result, ended))
      × (get key ended ≡ ok result)
run-recorded_example =
    run-recorded "ntulearn" "discovery" controls 50 70 (content_scope ∷ []) SyncRunStatus.succeeded
      counts [] none book mode_not_blank refl book-WellFormed scope-IsRecordable refl refl

-- A run that was started, and the same ended.
abbrev open_book : Book
open_book = record book { runs = new_run 1 "discovery" controls 50 ∷ [] }

abbrev ended_book : Book
ended_book = record book {
  runs =
      end_run SyncRunStatus.failed counts [] (some "source_unavailable") 70
        (new_run 1 "discovery" controls 50)
      ∷ [];
}

abbrev failed_run : SyncRunResult
failed_run =
    completed 1 "discovery" 50 70 SyncRunStatus.failed counts [] (some "source_unavailable") []

finish_open :
    finish 1 SyncRunStatus.failed counts [] (some "source_unavailable") 70 open_book
    ≡ ok (failed_run, ended_book)
unfolding finish end_runs get find_run scopes_of
finish_open = refl

finish-once_example :
    (get 1 ended_book ≡ ok failed_run)
    × (ended_book.scopes ≡ open_book.scopes)
    × (finish 1 SyncRunStatus.succeeded [] [] none 80 ended_book
        ≡ err (storage_error "sync run operation failed"))
finish-once_example =
    finish-once 1 SyncRunStatus.failed SyncRunStatus.succeeded counts [] [] []
      (some "source_unavailable") none 70 80 open_book ended_book failed_run finish_open refl refl
