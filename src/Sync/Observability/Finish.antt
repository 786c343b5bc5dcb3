-- ===== src/Sync/Observability/Finish.antt =====
-- src/ntulearn_skill/sync/observability.py: `finish` and `get`.
use ntulearn_skill.Prelude.{
  ◌==◌, if◌then◌else◌, any, count_if, value_error, storage_error, Result, err, ok, raise_if, ◌>>=◌,
  ◌>>◌, ℕ, String, Bool, true, false, ◌&&◌, ◌||◌, not, Option, none, some, List, [], ◌∷◌,
}
use ntulearn_skill.Core.Models.{SyncRunStatus, Instant}
use ntulearn_skill.Core.Identifiers.{CourseId}
use ntulearn_skill.Sync.Models.{SyncWarning, ScopeResult}
use ntulearn_skill.Sync.Observability.{Count, SyncRunRow, ScopeRow, Book, SyncRunResult}
use ntulearn_skill.Prelude.Json.{ℤ}
use ntulearn_skill.Sync.Lifecycle.{Course}

abbrev pub is_running : SyncRunStatus → Bool
is_running SyncRunStatus.running = true
is_running _ = false

abbrev pub is_negative_count : Count → Bool
is_negative_count c = elim c.value [ ℤ.pos n ↦ false | ℤ.negsuc n ↦ true ]

unfoldable pub find_run : ℕ → List SyncRunRow → Option SyncRunRow
find_run key [] = none
find_run key (r ∷ rs) = if r.key == key then some r else find_run key rs

-- The remote key that the row of a course belongs to.
unfoldable pub find_course : ℕ → List Course → Option CourseId
find_course key [] = none
find_course key (c ∷ cs) = if c.key == key then some c.id else find_course key cs

-- The course is read through its row; the provider is that of the scope.
unfoldable pub read_course : String → Option ℕ → List Course → Option CourseId
unfolding find_course
read_course provider none cs = none
read_course provider (some key) cs = elim (find_course key cs) [
  | none ↦ none
  | some id ↦ some (record { provider = provider; value = id.value })
]

-- `_scope_from_row`
unfoldable pub scope_from_row : List Course → ScopeRow → ScopeResult
unfolding read_course
scope_from_row cs row = record {
  provider = row.provider;
  course_id = read_course row.provider row.course_key cs;
  data_kind = row.data_kind;
  coverage = row.coverage;
  pages_seen = row.pages_seen;
  items_seen = row.items_seen;
  pagination_complete = row.pagination_complete;
  failure_category = row.failure_category;
  warnings = row.warnings;
  observed_at = row.observed_at;
}

-- The rows of a run, in the order of their keys.
unfoldable pub scopes_of : ℕ → List Course → List ScopeRow → List ScopeResult
unfolding scope_from_row
scopes_of key cs [] = []
scopes_of key cs (row ∷ rows) =
    if row.run_key == key
    then scope_from_row cs row ∷ scopes_of key cs rows
    else scopes_of key cs rows

abbrev pub run_result : SyncRunRow → Instant → List ScopeResult → SyncRunResult
run_result run ended_at scopes = record {
  key = run.key;
  mode = run.mode;
  started_at = run.started_at;
  ended_at = ended_at;
  status = run.status;
  counts = run.counts;
  warnings = run.warnings;
  error_category = run.error_category;
  scopes = scopes;
}

abbrev pub ended_result : Book → SyncRunRow → Option Instant → Result SyncRunResult
unfolding scopes_of
ended_result book run none = err (storage_error "completed sync run was not found")
ended_result book run (some at) =
    ok (run_result run at (scopes_of run.key book.courses book.scopes))

abbrev pub found_result : Book → Option SyncRunRow → Result SyncRunResult
unfolding ended_result
found_result book none = err (storage_error "completed sync run was not found")
found_result book (some run) = ended_result book run run.ended_at

unfoldable pub get : ℕ → Book → Result SyncRunResult
unfolding find_run found_result
get run_key book = found_result book (find_run run_key book.runs)

abbrev pub end_run :
    SyncRunStatus
    → List Count
    → List SyncWarning
    → Option String
    → Instant
    → SyncRunRow
    → SyncRunRow
end_run status counts warnings error_category now r = record r {
  ended_at = some now;
  status = status;
  counts = counts;
  warnings = warnings;
  error_category = error_category;
}

abbrev pub is_open : ℕ → SyncRunRow → Bool
is_open key r = (r.key == key) && is_running r.status

-- The update of the rows that have the key and are running.
unfoldable pub end_runs : ℕ → (SyncRunRow → SyncRunRow) → List SyncRunRow → List SyncRunRow
end_runs key f [] = []
end_runs key f (r ∷ rs) = (if is_open key r then f r else r) ∷ end_runs key f rs

-- `finish`, at the time of the call; `get` finds the run that was ended just before.
unfoldable pub finish :
    ℕ
    → SyncRunStatus
    → List Count
    → List SyncWarning
    → Option String
    → Instant
    → Book
    → Result (SyncRunResult × Book)
unfolding end_runs get
finish run_key status counts warnings error_category now book = do
  raise_if (run_key == 0 || is_running status)
      (value_error "sync run cannot finish with this status")
  raise_if (any is_negative_count counts) (value_error "sync counts must be non-negative integers")
  raise_if (not (count_if (is_open run_key) book.runs == 1))
      (storage_error "sync run operation failed")
  let runs = end_runs run_key (end_run status counts warnings error_category now) book.runs
  result ← get run_key (record book { runs = runs })
  ok (result, record book { runs = runs })
