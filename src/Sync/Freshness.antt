-- ===== src/Sync/Freshness.antt =====
-- src/ntulearn_skill/sync/freshness.py: is the local state of a scope fresh enough for a request?
pub mod Retrieval
pub mod Recorded
pub mod Decisions
mod Tests
use ntulearn_skill.Prelude.{
  ltb, leb, ◌==◌, if◌then◌else◌, is_none, is_some, opt_eq, Bool-cases, Option-cases, length, any,
  all, count_if, All, contains, codes, text_length, is_space, is_blank, one_of, Error, type_error,
  value_error, assertion_error, storage_error, local_job_error, local_job_contract_mismatch,
  other_error, Result, ok, err, ◌>>=◌, ◌>>◌, raise_if, >>=-returns, ℕ, zero, suc, ◌+◌, ◌-◌, ◌*◌,
  ◌/◌, ◌%◌, ◌≤◌, ◌<◌, String, ◌≡◌, refl, sym, ap, ◌∙◌, ◌≢◌, ◌↔◌, ◌⊎◌, inl, inr, Bool, true, false,
  ◌&&◌, ◌||◌, not, Option, none, some, List, [], ◌∷◌, ◌++◌, map, arith, ◌==ₛ◌, eq_iff,
}
use ntulearn_skill.Core.Models.{
  Availability, Coverage, SyncRunStatus, ObservationStatus, FetchDecision, is_complete, Instant,
  Duration, DateTime, to_storage_time, from_storage_time,
}
use ntulearn_skill.Client.Contracts.{
  SourceCapability, CapabilityState, TimeWindow, aware_instant, make_time_window,
}
use ntulearn_skill.Sync.State.{
  SyncAttemptOutcome, is_succeeded, ScopeKey, make_scope_key, WindowKey, window_key, Capabilities,
  SyncState, max_age_seconds, warning_json, unpaired, not_positive, later_than, check_state, age_at,
}
use ntulearn_skill.Sync.State.Row.{
  SyncStateRow, same_text?, same_window, same_scope, is_newer, key_after, supersedes, later_time,
  max_time, not_empty, merge, upsert,
}

pub data FreshnessMode : Type 0 where
  cache_only allow_stale max_age refresh_if_stale require_current : FreshnessMode

pub data FreshnessStatus : Type 0 where
  current stale unknown : FreshnessStatus

pub data FreshnessWarning : Type 0 where
  no_complete_observation max_age_unconfigured no_max_age_guarantee : FreshnessWarning
  latest_attempt_incomplete current_coverage_unestablished : FreshnessWarning
  historical_local_only targeted_refresh_unavailable targeted_refresh_failed : FreshnessWarning

pub record FreshnessRequirement : Type 0 where
  pub mode : FreshnessMode
  pub max_age : Option Duration

abbrev pub is_max_age : FreshnessMode → Bool
is_max_age FreshnessMode.max_age = true
is_max_age _ = false

abbrev pub is_refresh_if_stale : FreshnessMode → Bool
is_refresh_if_stale FreshnessMode.refresh_if_stale = true
is_refresh_if_stale _ = false

-- `max_age is None or max_age <= timedelta()`
abbrev pub no_positive_age : Option Duration → Bool
no_positive_age none = true
no_positive_age (some age) = age == 0

-- The constructor, with the checks of `__post_init__`.
unfoldable pub make_requirement : FreshnessMode → Option Duration → Result FreshnessRequirement
make_requirement mode limit =
    if is_max_age mode
    then (if no_positive_age limit
        then err (value_error "MAX_AGE requires a positive duration")
        else ok (record { mode = mode; max_age = limit }))
    else (if is_some limit
        then err (value_error "only MAX_AGE accepts an explicit duration")
        else ok (record { mode = mode; max_age = limit }))

pub record FreshnessDecision : Type 0 where
  pub status : FreshnessStatus
  pub as_of : Option Instant
  pub age : Option Duration
  pub max_age : Option Duration
  pub latest_coverage : Option Coverage
  pub last_attempt_outcome : Option SyncAttemptOutcome
  pub satisfied : Bool
  pub should_refresh : Bool
  pub warning_codes : List FreshnessWarning
  pub successful_observation_at : Option Instant
  pub successful_observation_age : Option Duration
  pub complete_snapshot_at : Option Instant
  pub complete_snapshot_age : Option Duration
  pub ttl_configured : Bool

-- `None if state is None else state.field`
abbrev pub field? {ℓ} : {A : Type ℓ} → Option SyncState → (SyncState → Option A) → Option A
field? none f = none
field? (some s) f = f s

-- `max(now - at, timedelta())`: the subtraction of ℕ stops at zero.
abbrev pub age_of : Instant → Option Instant → Option Duration
age_of now none = none
age_of now (some at) = some (now - at)

-- The maximal age that applies: the request's own, or the one configured for the scope.
abbrev pub effective_max_age : Option SyncState → FreshnessRequirement → Option Duration
effective_max_age state requirement =
    if is_max_age requirement.mode
    then requirement.max_age
    else field? state (λ s. s.configured_max_age)

abbrev pub base_status : Option Duration → Option Duration → FreshnessStatus
base_status none limit = FreshnessStatus.unknown
base_status (some age) none = FreshnessStatus.current
base_status (some age) (some limit) =
    if leb age limit then FreshnessStatus.current else FreshnessStatus.stale

-- `STALE if complete_known else UNKNOWN`
abbrev pub degraded : Option Duration → FreshnessStatus
degraded none = FreshnessStatus.unknown
degraded (some age) = FreshnessStatus.stale

abbrev pub or_zero : Option ℕ → ℕ
or_zero none = 0
or_zero (some n) = n

-- The latest attempt is after the last complete observation, by time and then by run.
abbrev pub after_complete : SyncState → Bool
after_complete s = elim s.last_complete_at [
  | none ↦ true
  | some at ↦
      is_newer s.last_attempt_at s.latest_attempt_run_key at (or_zero s.latest_complete_run_key)
]

-- `latest_incomplete`
unfoldable pub latest_incomplete : Option SyncState → Bool
latest_incomplete none = false
latest_incomplete (some s) =
    (not (is_succeeded s.last_attempt_outcome) || not (is_complete s.latest_coverage))
    && after_complete s

-- The condition of `REQUIRE_CURRENT`.
unfoldable pub is_current_at : Option SyncState → Instant → Bool
is_current_at none now = false
is_current_at (some s) now =
    is_succeeded s.last_attempt_outcome
    && is_complete s.latest_coverage
    && opt_eq s.last_complete_at (some s.last_attempt_at)
    && leb now s.last_attempt_at

abbrev pub is_current : FreshnessStatus → Bool
is_current FreshnessStatus.current = true
is_current _ = false

-- The `if`/`elif` chain over the mode: `satisfied`, then `should_refresh`.
unfoldable pub verdict : FreshnessMode → Option Duration → FreshnessStatus → Bool → Bool × Bool
verdict FreshnessMode.cache_only limit status established = (true, false)
verdict FreshnessMode.allow_stale limit status established = (true, false)
verdict FreshnessMode.refresh_if_stale none status established = (false, false)
verdict FreshnessMode.refresh_if_stale (some limit) status established =
    (is_current status, not (is_current status))
verdict FreshnessMode.max_age limit status established =
    (is_current status, not (is_current status))
verdict FreshnessMode.require_current limit status established = (established, not established)

abbrev pub warn_if : Bool → FreshnessWarning → List FreshnessWarning
warn_if true w = w ∷ []
warn_if false w = []

abbrev pub is_require_current : FreshnessMode → Bool
is_require_current FreshnessMode.require_current = true
is_require_current _ = false

-- The body of `evaluate_freshness`, at a time that has been normalized.
unfoldable pub evaluate_at : Option SyncState → FreshnessRequirement → Instant → FreshnessDecision
evaluate_at state requirement now =
    let as_of = field? state (λ s. s.last_complete_at) in
    let age = age_of now as_of in
    let success_at = field? state (λ s. s.last_success_at) in
    let limit = effective_max_age state requirement in
    let mode = requirement.mode in
    let incomplete = latest_incomplete state in
    let status = if incomplete then degraded age else base_status age limit in
    let (satisfied, should_refresh) = verdict mode limit status (is_current_at state now) in
    let unestablished = is_require_current mode && not satisfied in
    record {
      status = if unestablished then degraded age else status;
      as_of = as_of;
      age = age;
      max_age = limit;
      latest_coverage = field? state (λ s. some s.latest_coverage);
      last_attempt_outcome = field? state (λ s. some s.last_attempt_outcome);
      satisfied = satisfied;
      should_refresh = should_refresh;
      warning_codes =
          warn_if (is_none age) FreshnessWarning.no_complete_observation
          ++ (warn_if (is_refresh_if_stale mode && is_none limit)
                FreshnessWarning.max_age_unconfigured
              ++ (warn_if (is_none limit) FreshnessWarning.no_max_age_guarantee
                  ++ (warn_if incomplete FreshnessWarning.latest_attempt_incomplete
                      ++ warn_if unestablished FreshnessWarning.current_coverage_unestablished)));
      successful_observation_at = success_at;
      successful_observation_age = age_of now success_at;
      complete_snapshot_at = as_of;
      complete_snapshot_age = age;
      ttl_configured = is_some limit;
    }

unfoldable pub evaluate_freshness :
    Option SyncState → FreshnessRequirement → DateTime → Result FreshnessDecision
evaluate_freshness state requirement now = do
  t ← aware_instant now "freshness evaluation time must be timezone-aware"
  ok (evaluate_at state requirement t)
