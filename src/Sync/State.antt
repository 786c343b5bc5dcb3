-- ===== src/Sync/State.antt =====
-- src/ntulearn_skill/sync/state.py: the key of a scope, its state, and the checks of both.
pub mod Row
pub mod Repository
pub mod Markers
pub mod Validity
pub mod Lookup
pub mod Stored
pub mod Calendar
pub mod Recording
pub mod Order
pub mod Tests
use ntulearn_skill.Prelude.{
  ltb, leb, ◌==◌, if◌then◌else◌, is_none, is_some, opt_eq, Bool-cases, Option-cases, length, any,
  all, count_if, All, contains, codes, text_length, is_space, is_blank, one_of, Error, type_error,
  value_error, assertion_error, storage_error, local_job_error, local_job_contract_mismatch,
  other_error, Result, ok, err, ◌>>=◌, ◌>>◌, raise_if, >>=-returns, ℕ, zero, suc, ◌+◌, ◌-◌, ◌*◌,
  ◌/◌, ◌%◌, ◌≤◌, ◌<◌, String, ◌≡◌, refl, sym, ap, ◌∙◌, ◌≢◌, ◌↔◌, ◌⊎◌, inl, inr, Bool, true, false,
  ◌&&◌, ◌||◌, not, Option, none, some, List, [], ◌∷◌, ◌++◌, map, arith, ◌==ₛ◌, eq_iff,
}
use ntulearn_skill.Core.Models.{
  Availability, Coverage, SyncRunStatus, ObservationStatus, FetchDecision, is_complete, Instant,
  Duration, DateTime, to_storage_time, from_storage_time,
}
use ntulearn_skill.Core.Identifiers.{RemoteId, CourseId, make_remote_id, same_id, same_id_iff}
use ntulearn_skill.Client.Contracts.{
  SourceCapability, CapabilityState, TimeWindow, aware_instant, make_time_window,
}
use ntulearn_skill.Sync.Models.{SyncWarning, ScopeResult}

pub data SyncAttemptOutcome : Type 0 where
  succeeded failed : SyncAttemptOutcome

-- `outcome is SyncAttemptOutcome.SUCCEEDED`
abbrev pub is_succeeded : SyncAttemptOutcome → Bool
is_succeeded SyncAttemptOutcome.succeeded = true
is_succeeded SyncAttemptOutcome.failed = false

-- Identity of one provider, course, kind of data and time window.
pub record ScopeKey : Type 0 where
  pub provider : String
  pub course_id : Option CourseId
  pub data_kind : String
  pub time_window : Option TimeWindow

abbrev foreign_course : String → Option CourseId → Bool
foreign_course provider none = false
foreign_course provider (some course) = not (course.provider ==ₛ provider)

unfoldable pub make_scope_key :
    String → Option CourseId → String → Option TimeWindow → Result ScopeKey
make_scope_key provider course_id data_kind time_window = do
  raise_if (is_blank provider || is_blank data_kind)
      (value_error "scope provider and data kind must be non-empty")
  raise_if (foreign_course provider course_id)
      (value_error "scope course provider must match the scope provider")
  ok (record {
    provider = provider;
    course_id = course_id;
    data_kind = data_kind;
    time_window = time_window;
  })

-- `ScopeKey.window_key`: the empty text, or the JSON list of the two stored times.
abbrev pub WindowKey : Type 0
WindowKey = Option (Instant × Instant)

unfoldable pub window_key : ScopeKey → WindowKey
window_key scope = elim scope.time_window [
  | none ↦ none
  | some window ↦ some (window.since, window.until)
]

abbrev pub Capabilities : Type 0
Capabilities = List (SourceCapability × CapabilityState)

-- The state of a scope. All its times are aware, so they are held as instants.
pub record SyncState : Type 0 where
  pub scope : ScopeKey
  pub latest_attempt_run_key : ℕ
  pub last_attempt_at : Instant
  pub last_attempt_outcome : SyncAttemptOutcome
  pub latest_coverage : Coverage
  pub warning_codes : List SyncWarning
  pub latest_success_run_key : Option ℕ
  pub last_success_at : Option Instant
  pub latest_complete_run_key : Option ℕ
  pub last_complete_at : Option Instant
  pub configured_max_age : Option Duration
  pub capabilities : Capabilities

-- `_max_age_seconds`: a whole positive number of seconds, from microseconds.
unfoldable pub max_age_seconds : Option Duration → Result (Option ℕ)
max_age_seconds none = ok none
max_age_seconds (some value) =
    if value == 0 || not (value % 1000000 == 0)
    then err (value_error "configured max age must be a positive whole number of seconds")
    else ok (some (value / 1000000))

-- `_warning_json`: the warnings that are written, at most a hundred.
unfoldable pub warning_json : List SyncWarning → Result (List SyncWarning)
warning_json codes =
    if ltb 100 (length codes)
    then err (value_error "warning codes must use the safe typed vocabulary")
    else ok codes

-- `(run is None) != (at is None)`
abbrev pub unpaired : Option ℕ → Option ℕ → Bool
unpaired none none = false
unpaired none (some _) = true
unpaired (some _) none = true
unpaired (some _) (some _) = false

-- `key is not None and key <= 0`
abbrev pub not_positive : Option ℕ → Bool
not_positive none = false
not_positive (some key) = key == 0

-- `a is not None and b is not None and b > a`
abbrev pub later_than : Option Instant → Option Instant → Bool
later_than (some success) (some complete) = ltb success complete
later_than _ _ = false

-- `SyncState.__post_init__`: the checks, in order; the state itself is unchanged.
unfoldable pub check_state : SyncState → Result SyncState
check_state s = do
  raise_if (s.latest_attempt_run_key == 0) (value_error "latest attempt run key must be positive")
  raise_if (unpaired s.latest_success_run_key s.last_success_at)
      (value_error "last success run and timestamp must be present together")
  raise_if (unpaired s.latest_complete_run_key s.last_complete_at)
      (value_error "last complete run and timestamp must be present together")
  raise_if (not_positive s.latest_success_run_key)
      (value_error "latest success run key must be positive")
  raise_if (not_positive s.latest_complete_run_key)
      (value_error "latest complete run key must be positive")
  raise_if (later_than s.last_success_at s.last_complete_at)
      (value_error "last complete observation cannot be newer than last success")
  seconds ← max_age_seconds s.configured_max_age
  codes ← warning_json s.warning_codes
  ok s

-- `SyncState.age_at`
unfoldable pub age_at : SyncState → DateTime → Result (Option Duration)
age_at s now = do
  normalized ← aware_instant now "now must be timezone-aware"
  elim s.last_complete_at [ none ↦ ok none | some at ↦ ok (some (normalized - at)) ]
