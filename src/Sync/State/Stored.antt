-- ===== src/Sync/State/Stored.antt =====
-- The invariant of the table `sync_state` (src/ntulearn_skill/sync/state.py), and that the statements
-- of `record_attempt` keep it.
use ntulearn_skill.Prelude.{
  Bool-cases, length, All, contains, ok, ℕ, ◌≤◌, ◌<◌, ◌≡◌, refl, inl, inr, Bool, true, false, ◌&&◌,
  ◌||◌, not, Option, none, some, List, [], ◌∷◌, arith,
}
use ntulearn_skill.Core.Models.{is_complete, Instant, Duration, DateTime}
use ntulearn_skill.Sync.State.{is_succeeded, ScopeKey, max_age_seconds}
use ntulearn_skill.Sync.State.Row.{SyncStateRow, same_scope, merge, upsert}
use ntulearn_skill.Sync.State.Repository.{
  Store, course_of, course_value, selects, select, known_run, Attempt, when, attempt_row, set_stale,
}
use ntulearn_skill.Sync.State.Markers.{later?, marker, IsPaired}
use ntulearn_skill.Sync.State.Validity.{IsPositive, IsValidRow, if_keeps, merge-IsValidRow}
use ntulearn_skill.Sync.State.Lookup.{HasKey, written}

-- A row that is valid and whose runs exist.
pub record IsStored (runs : List ℕ) (r : SyncStateRow) : Type 0 where
  pub valid : IsValidRow r
  pub attempt_exists : contains r.latest_attempt_run_key runs ≡ true
  pub success_exists : known_run runs r.latest_success_run_key ≡ true
  pub full_exists : known_run runs r.latest_complete_run_key ≡ true

abbrev pub IsValidStore : Store → Type 0
IsValidStore store = All (IsStored store.runs) store.states

pub merge-IsStored :
    (runs : List ℕ) (e s : SyncStateRow)
    → IsStored runs e
    → IsStored runs s
    → IsStored runs (merge e s)
unfolding merge
merge-IsStored runs e s p q = record {
  valid = merge-IsValidRow e s p.valid q.valid;
  attempt_exists = if_keeps (λ k. contains k runs ≡ true) _ p.attempt_exists q.attempt_exists;
  success_exists = if_keeps (λ k. known_run runs k ≡ true) _ p.success_exists q.success_exists;
  full_exists = if_keeps (λ k. known_run runs k ≡ true) _ p.full_exists q.full_exists;
}

pub upsert-All :
    (runs : List ℕ) (e : SyncStateRow) (rows : List SyncStateRow)
    → IsStored runs e
    → All (IsStored runs) rows
    → All (IsStored runs) (upsert e rows)
unfolding upsert
upsert-All runs e [] p h = (p, tt)
upsert-All runs e (s ∷ rows) p h =
    if_keeps (All (IsStored runs)) (same_scope e s) (merge-IsStored runs e s p h.0, h.1)
      (h.0, upsert-All runs e rows p h.1)

pub restale-IsStored :
    (runs : List ℕ) (stale : Option Instant) (r : SyncStateRow)
    → IsStored runs r
    → IsStored runs (record r { stale_after = stale })
restale-IsStored runs stale r p = record {
  valid = record {
    attempt_positive = p.valid.attempt_positive;
    paired = record { success = p.valid.paired.success; full = p.valid.paired.full };
    success_positive = p.valid.success_positive;
    full_positive = p.valid.full_positive;
    full_le_success = p.valid.full_le_success;
    success_le_attempt = p.valid.success_le_attempt;
    few_warnings = p.valid.few_warnings;
    seconds_positive = p.valid.seconds_positive;
  };
  attempt_exists = p.attempt_exists;
  success_exists = p.success_exists;
  full_exists = p.full_exists;
}

pub set_stale-All :
    (runs : List ℕ) (scope : ScopeKey) (stale : Option Instant) (rows : List SyncStateRow)
    → All (IsStored runs) rows
    → All (IsStored runs) (set_stale scope stale rows)
unfolding set_stale
set_stale-All runs scope stale [] h = tt
set_stale-All runs scope stale (r ∷ rows) h =
    if_keeps (All (IsStored runs)) (selects scope r) (restale-IsStored runs stale r h.0, h.1)
      (h.0, set_stale-All runs scope stale rows h.1)

-- What is selected from valid rows is valid.
pub written-IsStored :
    (runs : List ℕ) (scope : ScopeKey) (e : SyncStateRow) (rows : List SyncStateRow)
    → IsStored runs e
    → All (IsStored runs) rows
    → IsStored runs (written e (select scope rows))
unfolding select
written-IsStored runs scope e [] p h = p
written-IsStored runs scope e (r ∷ rows) p h = elim (Bool-cases (selects scope r)) [
  | inl same ↦ rw same (merge-IsStored runs e r p h.0)
  | inr other ↦ rw other (written-IsStored runs scope e rows p h.1)
]

-- The arguments of `record_attempt` pass its checks: the time is `at`, the age is `seconds`.
pub record IsRecordable (scope : ScopeKey) (a : Attempt) (at : Instant) (seconds : Option ℕ)
    (store : Store) : Type 0 where
  pub run_positive : 0 < a.run_key
  pub run_exists : contains a.run_key store.runs ≡ true
  pub consistent : (is_succeeded a.outcome || not (is_complete a.coverage)) ≡ true
  pub time : a.attempted_at ≡ DateTime.aware at
  pub few_warnings : length a.warning_codes ≤ 100
  pub age : max_age_seconds a.configured_max_age ≡ ok seconds
  pub observed : course_of scope.course_id store ≡ ok (course_value scope.course_id)

-- The row that the attempt is to insert.
abbrev pub new_row : ScopeKey → Attempt → Instant → Option ℕ → SyncStateRow
new_row scope a at seconds = attempt_row scope (course_value scope.course_id) a at seconds

pub new_row-HasKey :
    (scope : ScopeKey) (a : Attempt) (at : Instant) (seconds : Option ℕ)
    → HasKey scope (new_row scope a at seconds)
unfolding attempt_row
new_row-HasKey scope a at seconds = record {
  provider = refl;
  course = refl;
  data_kind = refl;
  window = refl;
}

when-IsPaired : (b : Bool) (at key : ℕ) → IsPaired (when b at) (when b key)
when-IsPaired true at key = tt
when-IsPaired false at key = tt

when-ordered :
    (b c : Bool) (at key : ℕ)
    → later? (marker (when (b && c) at) (when (b && c) key)) (marker (when b at) (when b key))
      ≡ marker (when b at) (when b key)
when-ordered true true at key = ground arith
when-ordered true false at key = refl
when-ordered false c at key = refl

when-attempted :
    (b : Bool) (at key : ℕ)
    → later? (marker (when b at) (when b key)) (some (at, key)) ≡ some (at, key)
when-attempted true at key = ground arith
when-attempted false at key = refl

when-IsPositive : (b : Bool) (key : ℕ) → 0 < key → IsPositive (when b key)
when-IsPositive true key h = h
when-IsPositive false key h = tt

when-known :
    (runs : List ℕ) (b : Bool) (key : ℕ)
    → contains key runs ≡ true
    → known_run runs (when b key) ≡ true
when-known runs true key h = h
when-known runs false key h = refl

age-IsPositive :
    (age : Option Duration) (seconds : Option ℕ)
    → max_age_seconds age ≡ ok seconds
    → IsPositive seconds
unfolding max_age_seconds
age-IsPositive none none e = tt
age-IsPositive none (some n) e = cc
age-IsPositive (some value) none e = tt
age-IsPositive (some value) (some n) e = ground arith

pub new_row-IsStored :
    (scope : ScopeKey) (a : Attempt) (at : Instant) (seconds : Option ℕ) (store : Store)
    → IsRecordable scope a at seconds store
    → IsStored store.runs (new_row scope a at seconds)
unfolding attempt_row
new_row-IsStored scope a at seconds store r = record {
  valid = record {
    attempt_positive = r.run_positive;
    paired = record { success = when-IsPaired _ at a.run_key; full = when-IsPaired _ at a.run_key };
    success_positive = when-IsPositive _ a.run_key r.run_positive;
    full_positive = when-IsPositive _ a.run_key r.run_positive;
    full_le_success = when-ordered (is_succeeded a.outcome) (is_complete a.coverage) at a.run_key;
    success_le_attempt = when-attempted _ at a.run_key;
    few_warnings = r.few_warnings;
    seconds_positive = age-IsPositive a.configured_max_age seconds r.age;
  };
  attempt_exists = r.run_exists;
  success_exists = when-known store.runs _ a.run_key r.run_exists;
  full_exists = when-known store.runs _ a.run_key r.run_exists;
}
