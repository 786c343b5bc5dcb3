-- ===== src/Sync/State/Repository.antt =====
-- src/ntulearn_skill/sync/state.py: `SyncStateRepository` over the tables that it reads and writes.
--
-- A method returns the new store; one that raises has rolled its transaction back, so it returns
-- no store. `sync_run` and `course` are filled by other parts: they are the runs and the courses
-- that exist.
use ntulearn_skill.Prelude.{
  ltb, ◌==◌, if◌then◌else◌, any, contains, codes, value_error, assertion_error, storage_error,
  Result, ok, err, ◌>>=◌, ◌>>◌, raise_if, ℕ, ◌*◌, String, Bool, true, false, ◌&&◌, not, Option,
  none, some, List, [], ◌∷◌, ◌==ₛ◌,
}
use ntulearn_skill.Core.Models.{Coverage, is_complete, Instant, Duration, DateTime, add_duration}
use ntulearn_skill.Core.Identifiers.{CourseId, same_id}
use ntulearn_skill.Sync.Models.{SyncWarning}
use ntulearn_skill.Sync.State.{
  SyncAttemptOutcome, is_succeeded, ScopeKey, window_key, Capabilities, SyncState, max_age_seconds,
  warning_json, check_state,
}
use ntulearn_skill.Client.Contracts.{aware_instant}
use ntulearn_skill.Sync.State.Row.{SyncStateRow, same_text?, same_window, max_time, upsert}

pub record ProviderRow : Type 0 where
  pub name : String
  pub created_at : Instant
  pub updated_at : Instant

pub record Store : Type 0 where
  pub providers : List ProviderRow
  pub courses : List CourseId
  pub runs : List ℕ
  pub states : List SyncStateRow

-- `_provider_key`: the provider is added, or its times are widened.
unfoldable pub put_provider : String → Instant → List ProviderRow → List ProviderRow
put_provider name at [] = record { name = name; created_at = at; updated_at = at } ∷ []
put_provider name at (p ∷ ps) =
    if name ==ₛ p.name
    then record p {
      created_at = if ltb at p.created_at then at else p.created_at;
      updated_at = max_time p.updated_at at;
    }
      ∷ ps
    else p ∷ put_provider name at ps

-- `_course_key`: the course of the scope, which must have been observed.
unfoldable pub course_of : Option CourseId → Store → Result (Option String)
course_of none store = ok none
course_of (some course) store =
    if any (same_id course) store.courses
    then ok (some course.value)
    else err (value_error "sync scope course has not been observed")

abbrev pub course_value : Option CourseId → Option String
course_value none = none
course_value (some course) = some course.value

-- The `WHERE` clause of `_select`.
unfoldable pub selects : ScopeKey → SyncStateRow → Bool
unfolding window_key
selects scope row =
    (row.provider ==ₛ scope.provider)
    && same_text? row.course (course_value scope.course_id)
    && (row.data_kind ==ₛ scope.data_kind)
    && same_window row.window (window_key scope)

unfoldable pub select : ScopeKey → List SyncStateRow → Option SyncStateRow
select scope [] = none
select scope (row ∷ rows) = if selects scope row then some row else select scope rows

abbrev pub seconds_to_age : Option ℕ → Option Duration
seconds_to_age none = none
seconds_to_age (some seconds) = some (seconds * 1000000)

-- `_from_row`, with the checks of `SyncState`.
unfoldable pub from_row : SyncStateRow → ScopeKey → Result SyncState
from_row row scope = do
  codes ← warning_json row.warning_codes
  check_state (record {
    scope = scope;
    latest_attempt_run_key = row.latest_attempt_run_key;
    last_attempt_at = row.last_attempt_at;
    last_attempt_outcome = row.last_attempt_outcome;
    latest_coverage = row.coverage;
    warning_codes = codes;
    latest_success_run_key = row.latest_success_run_key;
    last_success_at = row.last_success_at;
    latest_complete_run_key = row.latest_complete_run_key;
    last_complete_at = row.last_complete_at;
    configured_max_age = seconds_to_age row.max_age_seconds;
    capabilities = row.capabilities;
  })

abbrev pub or_storage_error {ℓ} : {A : Type ℓ} → Result A → Result A
or_storage_error (ok a) = ok a
or_storage_error (err e) = err (storage_error "sync state operation failed")

-- `get`: any failure to read the row is a storage error.
unfoldable pub get : ScopeKey → Store → Result (Option SyncState)
get scope store = elim (select scope store.states) [
  | none ↦ ok none
  | some row ↦ or_storage_error (from_row row scope >>= λ state. ok (some state))
]

-- The foreign keys of a row to `sync_run`.
abbrev pub known_run : List ℕ → Option ℕ → Bool
known_run runs none = true
known_run runs (some key) = contains key runs

abbrev pub keys_exist : List ℕ → SyncStateRow → Bool
keys_exist runs row =
    contains row.latest_attempt_run_key runs
    && known_run runs row.latest_success_run_key
    && known_run runs row.latest_complete_run_key

-- What one attempt reports, the arguments of `record_attempt`.
pub record Attempt : Type 0 where
  pub run_key : ℕ
  pub attempted_at : DateTime
  pub outcome : SyncAttemptOutcome
  pub coverage : Coverage
  pub warning_codes : List SyncWarning
  pub configured_max_age : Option Duration
  pub capabilities : Capabilities

abbrev pub when {ℓ} : {A : Type ℓ} → Bool → A → Option A
when true a = some a
when false a = none

-- The row that an attempt is to insert.
unfoldable pub attempt_row : ScopeKey → Option String → Attempt → Instant → Option ℕ → SyncStateRow
unfolding window_key
attempt_row scope course a at seconds =
    let success = is_succeeded a.outcome in
    let full = success && is_complete a.coverage in
    record {
      provider = scope.provider;
      course = course;
      data_kind = scope.data_kind;
      window = window_key scope;
      latest_attempt_run_key = a.run_key;
      latest_success_run_key = when success a.run_key;
      latest_complete_run_key = when full a.run_key;
      coverage = a.coverage;
      capabilities = a.capabilities;
      stale_after = none;
      updated_at = at;
      last_attempt_at = at;
      last_attempt_outcome = a.outcome;
      last_success_at = when success at;
      last_complete_at = when full at;
      warning_codes = a.warning_codes;
      max_age_seconds = seconds;
    }

-- `stale_after` of a last complete observation and a maximum age.
unfoldable pub stale_of : Option Instant → Option Duration → Result (Option Instant)
stale_of none age = ok none
stale_of (some at) none = ok none
stale_of (some at) (some age) = do t ← add_duration at age; ok (some t)

-- `stale_after`, computed from the state that was read back.
abbrev pub stale_time : SyncState → Result (Option Instant)
stale_time state = stale_of state.last_complete_at state.configured_max_age

unfoldable pub set_stale : ScopeKey → Option Instant → List SyncStateRow → List SyncStateRow
set_stale scope stale [] = []
set_stale scope stale (row ∷ rows) =
    if selects scope row
    then record row { stale_after = stale } ∷ rows
    else row ∷ set_stale scope stale rows

-- The transaction of `record_attempt`.
unfoldable pub write_attempt : ScopeKey → Attempt → Instant → Option ℕ → Store → Result Store
write_attempt scope a at seconds store = do
  course ← course_of scope.course_id store
  let states = upsert (attempt_row scope course a at seconds) store.states
  elim (select scope states) [
    | none ↦ err (assertion_error "row is not None")
    | some row ↦ do
      raise_if (not (keys_exist store.runs row)) (storage_error "sync state operation failed")
      state ← from_row row scope
      stale ← stale_time state
      ok (record store {
        providers = put_provider scope.provider at store.providers;
        states = set_stale scope stale states;
      })
  ]

abbrev pub or_assertion_error {ℓ} : {A : Type ℓ} → Option A → Result A
or_assertion_error none = err (assertion_error "result is not None")
or_assertion_error (some a) = ok a

unfoldable pub record_attempt : ScopeKey → Attempt → Store → Result (SyncState × Store)
record_attempt scope a store = do
  raise_if (a.run_key == 0) (value_error "run_key must be a positive integer")
  raise_if (not (is_succeeded a.outcome) && is_complete a.coverage)
      (value_error "a failed attempt cannot establish complete coverage")
  at ← aware_instant a.attempted_at "attempted_at must be timezone-aware"
  codes ← warning_json a.warning_codes
  seconds ← max_age_seconds a.configured_max_age
  written ← write_attempt scope a at seconds store
  found ← get scope written
  state ← or_assertion_error found
  ok (state, written)
