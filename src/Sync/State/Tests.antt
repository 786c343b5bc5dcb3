-- ===== src/Sync/State/Tests.antt =====
-- Concrete attempts on a concrete store, for the theorems on src/ntulearn_skill/sync/state.py.
use ntulearn_skill.Prelude.{ok, ℕ, String, ◌≡◌, refl, false, Option, none, some, [], ◌∷◌, arith}
use ntulearn_skill.Core.Models.{Coverage, Instant, Duration, DateTime}
use ntulearn_skill.Sync.State.{SyncAttemptOutcome, ScopeKey, SyncState, max_age_seconds}
use ntulearn_skill.Sync.State.Repository.{
  Store, course_of, selects, select, get, Attempt, attempt_row, record_attempt,
}
use ntulearn_skill.Sync.State.Stored.{IsValidStore, IsRecordable, new_row}
use ntulearn_skill.Sync.State.Recording.{
  final_row, FitsRow, record_attempt-get, record_attempt-get_other,
}
use ntulearn_skill.Sync.State.Order.{found, record_all, record_all-Permᴰ}
use mathlib.Core.List.{Permᴰ}

abbrev pub scope_of : String → ScopeKey
scope_of kind = record {
  provider = "ntulearn";
  course_id = some (record { provider = "ntulearn"; value = "_1_1" });
  data_kind = kind;
  time_window = none;
}

abbrev pub empty_store : Store
empty_store = record {
  providers = [];
  courses = record { provider = "ntulearn"; value = "_1_1" } ∷ [];
  runs = 1 ∷ 2 ∷ [];
  states = [];
}

abbrev pub attempt : ℕ → Instant → SyncAttemptOutcome → Coverage → Option Duration → Attempt
attempt run at outcome coverage age = record {
  run_key = run;
  attempted_at = DateTime.aware at;
  outcome = outcome;
  coverage = coverage;
  warning_codes = [];
  configured_max_age = age;
  capabilities = [];
}

abbrev pub complete_attempt : Attempt
complete_attempt = attempt 1 100 SyncAttemptOutcome.succeeded Coverage.complete (some 60000000)

abbrev failed_attempt : Attempt
failed_attempt = attempt 2 200 SyncAttemptOutcome.failed Coverage.failed none

pub complete-IsRecordable :
    IsRecordable (scope_of "content") complete_attempt 100 (some 60) empty_store
unfolding max_age_seconds course_of
complete-IsRecordable = record {
  run_positive = omega arith;
  run_exists = refl;
  consistent = refl;
  time = refl;
  few_warnings = omega arith;
  age = refl;
  observed = refl;
}

pub complete-FitsRow :
    FitsRow (final_row (scope_of "content") complete_attempt 100 (some 60) empty_store)
unfolding attempt_row select
complete-FitsRow = omega arith

failed-IsRecordable : IsRecordable (scope_of "content") failed_attempt 200 none empty_store
unfolding max_age_seconds course_of
failed-IsRecordable = record {
  run_positive = omega arith;
  run_exists = refl;
  consistent = refl;
  time = refl;
  few_warnings = omega arith;
  age = refl;
  observed = refl;
}

record_all-Permᴰ_example :
    (s t : Store) × (record_all
        (scope_of "content")
        (complete_attempt ∷ failed_attempt ∷ [])
        empty_store
      ≡ ok s)
    × (record_all (scope_of "content") (failed_attempt ∷ complete_attempt ∷ []) empty_store ≡ ok t)
    × (found (scope_of "content") s ≡ found (scope_of "content") t)
record_all-Permᴰ_example =
    record_all-Permᴰ 200 60000000 (scope_of "content") empty_store (omega arith)
      (Permᴰ.swap refl refl) tt tt
      (
        (100, some 60, complete-IsRecordable, omega arith, omega arith),
        ((200, none, failed-IsRecordable, omega arith, tt), tt),
      )

record_attempt-get_example :
    (state : SyncState) × (next : Store) × (record_attempt
        (scope_of "content")
        complete_attempt
        empty_store
      ≡ ok (state, next))
    × IsValidStore next
    × (get (scope_of "content") next ≡ ok (some state))
record_attempt-get_example =
    record_attempt-get (scope_of "content") complete_attempt 100 (some 60) empty_store tt
      complete-IsRecordable complete-FitsRow

other_kind :
    selects (scope_of "announcement") (new_row (scope_of "content") complete_attempt 100 (some 60))
    ≡ false
unfolding selects attempt_row
other_kind = refl

record_attempt-get_other_example :
    (state : SyncState) × (next : Store) × (record_attempt
        (scope_of "content")
        complete_attempt
        empty_store
      ≡ ok (state, next))
    × (get (scope_of "announcement") next ≡ get (scope_of "announcement") empty_store)
record_attempt-get_other_example =
    record_attempt-get_other (scope_of "content") (scope_of "announcement") complete_attempt 100
      (some 60) empty_store tt complete-IsRecordable complete-FitsRow other_kind
