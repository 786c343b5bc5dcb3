-- ===== src/Sync/Freshness/Tests.antt =====
-- A concrete state, and callbacks that count their calls, for the theorems on
-- src/ntulearn_skill/sync/freshness.py.
use ntulearn_skill.Prelude.{
  ok, ℕ, ◌+◌, ◌-◌, ◌≤◌, ◌≡◌, refl, ◌↔◌, inl, inr, true, false, Option, none, some, [], arith,
}
use ntulearn_skill.Core.Models.{Coverage, Instant}
use ntulearn_skill.Sync.State.{SyncAttemptOutcome, ScopeKey, SyncState}
use ntulearn_skill.Sync.State.Repository.{Store, select, record_attempt}
use ntulearn_skill.Sync.State.Tests.{
  scope_of, empty_store, complete_attempt, complete-IsRecordable, complete-FitsRow,
}
use ntulearn_skill.Sync.Freshness.{
  FreshnessMode, FreshnessStatus, FreshnessRequirement, latest_incomplete, is_current_at, verdict,
  evaluate_at,
}
use ntulearn_skill.Sync.Freshness.Decisions.{
  IsUndisputed, within_age, max_age-satisfied, IsWithin, current_sound, satisfied_earlier,
}
use ntulearn_skill.Sync.Freshness.Recorded.{
  require_current, IsLatest, record_attempt-require_current,
}
use ntulearn_skill.Sync.Freshness.Retrieval.{
  Action, FreshnessResult, result_of, retrieve_with_freshness,
}
use ntulearn_skill.Sync.Freshness.Retrieval.Effects.{
  retrieve_counts, retrieve, retrieve_declines, retrieve_local,
}

-- Complete at 100, with a later successful attempt of partial coverage at 150.
abbrev partial_state : SyncState
partial_state = record {
  scope = scope_of "content";
  latest_attempt_run_key = 2;
  last_attempt_at = 150;
  last_attempt_outcome = SyncAttemptOutcome.succeeded;
  latest_coverage = Coverage.partial;
  warning_codes = [];
  latest_success_run_key = some 2;
  last_success_at = some 150;
  latest_complete_run_key = some 1;
  last_complete_at = some 100;
  configured_max_age = some 50;
  capabilities = [];
}

-- The same scope before that attempt.
abbrev complete_state : SyncState
complete_state = record partial_state {
  latest_attempt_run_key = 1;
  last_attempt_at = 100;
  latest_coverage = Coverage.complete;
  latest_success_run_key = some 1;
  last_success_at = some 100;
}

abbrev cache_only : FreshnessRequirement
cache_only = record { mode = FreshnessMode.cache_only; max_age = none }

first_attempt : IsLatest 1 100 (select (scope_of "content") [])
unfolding select
first_attempt = tt

record_attempt-require_current_example :
    (state : SyncState) × (store : Store) × (record_attempt
        (scope_of "content")
        complete_attempt
        empty_store
      ≡ ok (state, store))
    × ((evaluate_at (some state) require_current 90).satisfied ≡ true)
record_attempt-require_current_example =
    record_attempt-require_current (scope_of "content") complete_attempt 100 90 (some 60)
      empty_store tt complete-IsRecordable complete-FitsRow first_attempt refl refl (omega arith)

max_age-satisfied_example :
    ((evaluate_at (some complete_state) (within_age 30) 120).satisfied ≡ true) ↔ (
      (s : SyncState) × (at : Instant) × (some complete_state ≡ some s)
      × IsUndisputed s at
      × (120 - at ≤ 30))
max_age-satisfied_example = max_age-satisfied (some complete_state) 30 120

complete_current :
    (evaluate_at (some complete_state) cache_only 120).status ≡ FreshnessStatus.current
unfolding evaluate_at verdict latest_incomplete is_current_at
complete_current = refl

current_sound_example :
    (s : SyncState) × (at : Instant) × (some complete_state ≡ some s)
    × IsUndisputed s at
    × ((evaluate_at (some complete_state) cache_only 120).age ≡ some (120 - at))
    × IsWithin (evaluate_at (some complete_state) cache_only 120).max_age (120 - at)
current_sound_example = current_sound (some complete_state) cache_only 120 complete_current

complete_satisfied : (evaluate_at (some complete_state) (within_age 30) 120).satisfied ≡ true
unfolding evaluate_at verdict latest_incomplete is_current_at
complete_satisfied = refl

satisfied_earlier_example : (evaluate_at (some complete_state) (within_age 30) 110).satisfied ≡ true
satisfied_earlier_example =
    satisfied_earlier (some complete_state) (within_age 30) 110 120 (omega arith) complete_satisfied

-- Local reads, then refreshes.
abbrev Calls : Type 0
Calls = ℕ × ℕ

abbrev read : Action Calls ℕ
read w = (ok w.0, (w.0 + 1, w.1))

abbrev load : ScopeKey → Action Calls (Option SyncState)
load scope w = (ok (some complete_state), w)

abbrev call : ScopeKey → Action Calls (Unit {0})
call scope w = (ok tt, (w.0, w.1 + 1))

abbrev refreshed : FreshnessResult ℕ
refreshed = result_of 1 (evaluate_at (some complete_state) require_current 300) true 2

abbrev cached : FreshnessResult ℕ
cached = result_of 0 (evaluate_at (some complete_state) cache_only 300) false 1

refreshed_retrieval :
    retrieve read load call (scope_of "content") require_current 300 false (0, 0)
    ≡ (ok refreshed, (2, 1))
unfolding retrieve_with_freshness evaluate_at verdict latest_incomplete is_current_at
refreshed_retrieval = refl

cached_retrieval :
    retrieve read load call (scope_of "content") cache_only 300 false (0, 0) ≡ (ok cached, (1, 0))
unfolding retrieve_with_freshness evaluate_at verdict latest_incomplete is_current_at
cached_retrieval = refl

retrieve_counts_example : (2 ≡ 0 + 2) × (1 ≡ 0 + 1) × (2 ≤ 2)
retrieve_counts_example =
    retrieve_counts read load call (scope_of "content") require_current 300 false (λ w. w.0)
      (λ w. w.1) (λ w. refl) (λ w. refl) (λ w. refl) (λ w. refl) (λ w. refl) (λ w. refl) (0, 0)
      (2, 1) refreshed refreshed_retrieval

retrieve_declines_example :
    (evaluate_at (some complete_state) cache_only 300).should_refresh ≡ false
retrieve_declines_example =
    retrieve_declines read load call (scope_of "content") cache_only 300 false (0, 0) (1, 0) cached
      cached_retrieval refl refl

retrieve_local_example :
    (cached.refresh_attempted ≡ false)
    × (cached.local_reads ≡ 1)
    × ((read (0, 0)).0 ≡ ok cached.value)
retrieve_local_example =
    retrieve_local read load call (scope_of "content") cache_only 300 false (0, 0) (1, 0) cached
      cached_retrieval (inr (inl refl))
