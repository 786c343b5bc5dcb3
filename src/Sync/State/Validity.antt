-- ===== src/Sync/State/Validity.antt =====
-- What holds of every row of `sync_state` (src/ntulearn_skill/sync/state.py), so that a row that
-- was written can be read back.
use ntulearn_skill.Prelude.{
  if◌then◌else◌, length, ok, ℕ, ◌≤◌, ◌<◌, ◌≡◌, refl, sym, ap, ◌∙◌, Bool, true, false, Option, none,
  some, List, arith,
}
use ntulearn_skill.Sync.Models.{SyncWarning}
use ntulearn_skill.Sync.State.{
  ScopeKey, SyncState, max_age_seconds, warning_json, unpaired, not_positive, later_than,
  check_state,
}
use ntulearn_skill.Sync.State.Row.{SyncStateRow, merge}
use ntulearn_skill.Sync.State.Repository.{seconds_to_age, from_row}
use mathlib.Core.Path.{ap₂}
use ntulearn_skill.Sync.State.Markers.{
  Marker, later?, later?_comm, later?_assoc, marker, IsPaired, marker-merged, merged_attempt,
  HasMarkers, HasMarkers-merge,
}

abbrev pub IsPositive : Option ℕ → Type 0
IsPositive none = Unit
IsPositive (some n) = 0 < n

-- Run keys and the maximal age are positive, markers are paired, and the latest complete
-- observation is no later than the latest success, which is no later than the latest attempt.
pub record IsValidRow (r : SyncStateRow) : Type 0 where
  pub attempt_positive : 0 < r.latest_attempt_run_key
  pub paired : HasMarkers r
  pub success_positive : IsPositive r.latest_success_run_key
  pub full_positive : IsPositive r.latest_complete_run_key
  pub full_le_success :
      later?
        (marker r.last_complete_at r.latest_complete_run_key)
        (marker r.last_success_at r.latest_success_run_key)
      ≡ marker r.last_success_at r.latest_success_run_key
  pub success_le_attempt :
      later?
        (marker r.last_success_at r.latest_success_run_key)
        (some (r.last_attempt_at, r.latest_attempt_run_key))
      ≡ some (r.last_attempt_at, r.latest_attempt_run_key)
  pub few_warnings : length r.warning_codes ≤ 100
  pub seconds_positive : IsPositive r.max_age_seconds

pub if_keeps {ℓ κ} :
    {A : Type ℓ} (P : A → Type κ) (b : Bool) {x y : A} → P x → P y → P (if b then x else y)
if_keeps P true p q = p
if_keeps P false p q = q

-- The joins of two ordered pairs of markers are ordered.
later?_mono :
    (f s f' s' : Option Marker)
    → later? f s ≡ s
    → later? f' s' ≡ s'
    → later? (later? f f') (later? s s') ≡ later? s s'
later?_mono f s f' s' p q =
    later?_assoc f f' (later? s s')
    ∙ ap (later? f) (
        sym (later?_assoc f' s s')
        ∙ ap (λ x. later? x s') (later?_comm f' s)
        ∙ later?_assoc s f' s'
        ∙ ap (later? s) q)
    ∙ sym (later?_assoc f s s')
    ∙ ap (λ x. later? x s') p

full_le_success-merge :
    (e s : SyncStateRow)
    → IsValidRow e
    → IsValidRow s
    → later?
        (marker (merge e s).last_complete_at (merge e s).latest_complete_run_key)
        (marker (merge e s).last_success_at (merge e s).latest_success_run_key)
      ≡ marker (merge e s).last_success_at (merge e s).latest_success_run_key
unfolding merge
full_le_success-merge e s p q =
    let f =
      marker-merged e.last_complete_at e.latest_complete_run_key s.last_complete_at
        s.latest_complete_run_key p.paired.full q.paired.full in
    let g =
      marker-merged e.last_success_at e.latest_success_run_key s.last_success_at
        s.latest_success_run_key p.paired.success q.paired.success in
    ap₂ later? f g
    ∙ later?_mono (marker e.last_complete_at e.latest_complete_run_key)
        (marker e.last_success_at e.latest_success_run_key)
        (marker s.last_complete_at s.latest_complete_run_key)
        (marker s.last_success_at s.latest_success_run_key) p.full_le_success q.full_le_success
    ∙ sym g

success_le_attempt-merge :
    (e s : SyncStateRow)
    → IsValidRow e
    → IsValidRow s
    → later?
        (marker (merge e s).last_success_at (merge e s).latest_success_run_key)
        (some ((merge e s).last_attempt_at, (merge e s).latest_attempt_run_key))
      ≡ some ((merge e s).last_attempt_at, (merge e s).latest_attempt_run_key)
unfolding merge
success_le_attempt-merge e s p q =
    let f =
      marker-merged e.last_success_at e.latest_success_run_key s.last_success_at
        s.latest_success_run_key p.paired.success q.paired.success in
    let g = ap {B = Option Marker} some (
      merged_attempt e.last_attempt_at e.latest_attempt_run_key s.last_attempt_at
        s.latest_attempt_run_key) in
    ap₂ later? f g
    ∙ later?_mono (marker e.last_success_at e.latest_success_run_key)
        (some (e.last_attempt_at, e.latest_attempt_run_key))
        (marker s.last_success_at s.latest_success_run_key)
        (some (s.last_attempt_at, s.latest_attempt_run_key)) p.success_le_attempt
        q.success_le_attempt
    ∙ sym g

-- The upsert keeps rows valid.
pub merge-IsValidRow : (e s : SyncStateRow) → IsValidRow e → IsValidRow s → IsValidRow (merge e s)
unfolding merge
merge-IsValidRow e s p q = record {
  attempt_positive = if_keeps (λ n. 0 < n) _ p.attempt_positive q.attempt_positive;
  paired = HasMarkers-merge e s p.paired q.paired;
  success_positive = if_keeps IsPositive _ p.success_positive q.success_positive;
  full_positive = if_keeps IsPositive _ p.full_positive q.full_positive;
  full_le_success = full_le_success-merge e s p q;
  success_le_attempt = success_le_attempt-merge e s p q;
  few_warnings =
      if_keeps (λ (l : List SyncWarning). length l ≤ 100) _ p.few_warnings q.few_warnings;
  seconds_positive = if_keeps IsPositive _ p.seconds_positive q.seconds_positive;
}

-- The reading of the row of a scope, without the checks.
abbrev pub state_of : SyncStateRow → ScopeKey → SyncState
state_of row scope = record {
  scope = scope;
  latest_attempt_run_key = row.latest_attempt_run_key;
  last_attempt_at = row.last_attempt_at;
  last_attempt_outcome = row.last_attempt_outcome;
  latest_coverage = row.coverage;
  warning_codes = row.warning_codes;
  latest_success_run_key = row.latest_success_run_key;
  last_success_at = row.last_success_at;
  latest_complete_run_key = row.latest_complete_run_key;
  last_complete_at = row.last_complete_at;
  configured_max_age = seconds_to_age row.max_age_seconds;
  capabilities = row.capabilities;
}

IsPaired-unpaired : (at key : Option ℕ) → IsPaired at key → unpaired key at ≡ false
IsPaired-unpaired none none p = refl
IsPaired-unpaired none (some k) p = elim p [ ]
IsPaired-unpaired (some a) none p = elim p [ ]
IsPaired-unpaired (some a) (some k) p = refl

IsPositive-not_positive : (key : Option ℕ) → IsPositive key → not_positive key ≡ false
IsPositive-not_positive none p = refl
IsPositive-not_positive (some k) p = ground arith

not_later_than :
    (s_at s_key f_at f_key : Option ℕ)
    → IsPaired s_at s_key
    → IsPaired f_at f_key
    → later? (marker f_at f_key) (marker s_at s_key) ≡ marker s_at s_key
    → later_than s_at f_at ≡ false
not_later_than none s_key f_at f_key p q e = refl
not_later_than (some a) s_key none f_key p q e = refl
not_later_than (some a) none (some b) f_key p q e = elim p [ ]
not_later_than (some a) (some k) (some b) none p q e = elim q [ ]
not_later_than (some a) (some k) (some b) (some l) p q e = ground arith

max_age_seconds-seconds : (n : Option ℕ) → IsPositive n → max_age_seconds (seconds_to_age n) ≡ ok n
unfolding max_age_seconds
max_age_seconds-seconds none p = refl
max_age_seconds-seconds (some n) p = ground arith

-- A valid row is read without an error.
pub from_row-IsValidRow :
    (row : SyncStateRow) (scope : ScopeKey)
    → IsValidRow row
    → from_row row scope ≡ ok (state_of row scope)
unfolding from_row check_state warning_json
from_row-IsValidRow row scope v = ground (
  arith,
  IsPaired-unpaired row.last_success_at row.latest_success_run_key v.paired.success,
  IsPaired-unpaired row.last_complete_at row.latest_complete_run_key v.paired.full,
  IsPositive-not_positive row.latest_success_run_key v.success_positive,
  IsPositive-not_positive row.latest_complete_run_key v.full_positive,
  not_later_than row.last_success_at row.latest_success_run_key row.last_complete_at
      row.latest_complete_run_key v.paired.success v.paired.full v.full_le_success,
  max_age_seconds-seconds row.max_age_seconds v.seconds_positive,
)
