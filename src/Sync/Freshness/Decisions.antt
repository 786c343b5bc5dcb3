-- ===== src/Sync/Freshness/Decisions.antt =====
-- What a decision of `evaluate_freshness` (src/ntulearn_skill/sync/freshness.py) promises.
use ntulearn_skill.Prelude.{
  is_none, Option-cases, ok, ℕ, ◌-◌, ◌≤◌, ◌≡◌, refl, ◌↔◌, ◌⊎◌, inl, inr, true, false, ◌&&◌, ◌||◌,
  not, Option, none, some, arith,
}
use ntulearn_skill.Core.Models.{is_complete, Instant, Duration, DateTime}
use ntulearn_skill.Sync.State.{is_succeeded, SyncState, age_at}
use ntulearn_skill.Sync.State.Row.{is_newer}
use ntulearn_skill.Sync.Freshness.{
  FreshnessMode, FreshnessStatus, FreshnessRequirement, is_refresh_if_stale, or_zero,
  latest_incomplete, is_current_at, verdict, evaluate_at,
}

-- The latest attempt does not cast doubt on the complete observation at `at`: it succeeded with
-- complete coverage, or it is not after that observation.
pub record IsUndisputed (s : SyncState) (at : Instant) : Type 0 where
  pub complete_at : s.last_complete_at ≡ some at
  pub undisputed :
      (is_succeeded s.last_attempt_outcome && is_complete s.latest_coverage ≡ true)
      ⊎ (is_newer s.last_attempt_at s.latest_attempt_run_key at (or_zero s.latest_complete_run_key)
          ≡ false)

-- `FreshnessRequirement.with_max_age`
abbrev pub within_age : Duration → FreshnessRequirement
within_age limit = record { mode = FreshnessMode.max_age; max_age = some limit }

-- A decision is satisfied under `MAX_AGE` exactly when the scope has a complete observation that is
-- no older than the requested age and that no later attempt casts doubt on.
pub max_age-satisfied :
    (state : Option SyncState) (limit now : ℕ)
    → ((evaluate_at state (within_age limit) now).satisfied ≡ true) ↔ (
        (s : SyncState) × (at : Instant) × (state ≡ some s)
        × IsUndisputed s at
        × (now - at ≤ limit))
unfolding evaluate_at latest_incomplete verdict
max_age-satisfied none limit now = (λ h. cc, λ (s, at, e, u, l). cc)
max_age-satisfied (some s) limit now = (forth, back)
  where
    forth :
        (evaluate_at (some s) (within_age limit) now).satisfied ≡ true
        → (s' : SyncState) × (at : Instant) × (some s ≡ some s')
          × IsUndisputed s' at
          × (now - at ≤ limit)
    forth h = elim (Option-cases s.last_complete_at) [
      | inl e ↦ absurd (ground arith)
      | inr (at, e) ↦ (s, at, refl, ground arith, ground arith)
    ]

    back :
        (s' : SyncState) × (at : Instant) × (some s ≡ some s')
          × IsUndisputed s' at
          × (now - at ≤ limit)
        → (evaluate_at (some s) (within_age limit) now).satisfied ≡ true
    back (s', at, e, u, l) = ground arith

-- Whatever the request, a decision asks for a refresh exactly when it is not satisfied, save that
-- `REFRESH_IF_STALE` without a maximal age does not ask for one.
pub should_refresh-eq :
    (state : Option SyncState) (r : FreshnessRequirement) (now : Instant)
    → (evaluate_at state r now).should_refresh
      ≡ not (
          (evaluate_at state r now).satisfied
          || (is_refresh_if_stale r.mode && is_none (evaluate_at state r now).max_age))
unfolding evaluate_at verdict
should_refresh-eq state r now = ground arith

-- An age is within a limit, if there is one.
abbrev pub IsWithin : Option Duration → Duration → Type 0
IsWithin none age = Unit
IsWithin (some limit) age = age ≤ limit

-- A decision that reports `CURRENT` rests on a complete observation, whose age it reports, which is
-- within the maximal age if one applies, and on which no later attempt casts doubt.
pub current_sound :
    (state : Option SyncState) (r : FreshnessRequirement) (now : Instant)
    → (evaluate_at state r now).status ≡ FreshnessStatus.current
    → (s : SyncState) × (at : Instant) × (state ≡ some s)
      × IsUndisputed s at
      × ((evaluate_at state r now).age ≡ some (now - at))
      × IsWithin (evaluate_at state r now).max_age (now - at)
unfolding evaluate_at verdict latest_incomplete
current_sound none r now h = absurd (ground arith)
current_sound (some s) r now h = elim (Option-cases s.last_complete_at) [
  | inl e ↦ absurd (ground arith)
  | inr (at, e) ↦ (s, at, refl, ground arith, ground arith, ground arith)
]

-- Freshness is lost, not gained, as time goes on: what satisfies a request at one time satisfied it
-- at every earlier time.
pub satisfied_earlier :
    (state : Option SyncState) (r : FreshnessRequirement) (earlier now : Instant)
    → earlier ≤ now
    → (evaluate_at state r now).satisfied ≡ true
    → (evaluate_at state r earlier).satisfied ≡ true
unfolding evaluate_at verdict is_current_at
satisfied_earlier none r earlier now le h = ground arith
satisfied_earlier (some s) r earlier now le h = ground arith

-- The age that a decision reports is the one that `SyncState.age_at` computes at the same aware
-- time.
pub evaluate_freshness-age_at :
    (s : SyncState) (r : FreshnessRequirement) (now : Instant)
    → age_at s (DateTime.aware now) ≡ ok (evaluate_at (some s) r now).age
unfolding evaluate_at age_at
evaluate_freshness-age_at s r now = ground arith
