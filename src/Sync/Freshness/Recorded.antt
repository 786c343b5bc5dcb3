-- ===== src/Sync/Freshness/Recorded.antt =====
-- `record_attempt` (src/ntulearn_skill/sync/state.py) meets `evaluate_freshness`
-- (src/ntulearn_skill/sync/freshness.py).
use ntulearn_skill.Prelude.{
  Bool-cases, All, ok, ℕ, ◌≤◌, ◌≡◌, refl, inl, inr, true, Option, none, some, List, [], ◌∷◌, arith,
}
use mathlib.Core.Path.{subst}
use ntulearn_skill.Core.Models.{Coverage, Instant}
use ntulearn_skill.Sync.State.{SyncAttemptOutcome, ScopeKey, SyncState}
use ntulearn_skill.Sync.State.Row.{SyncStateRow, is_newer, later_time, merge}
use ntulearn_skill.Sync.State.Repository.{
  Store, selects, select, Attempt, attempt_row, record_attempt,
}
use ntulearn_skill.Sync.State.Markers.{later?, marker, IsPaired}
use ntulearn_skill.Sync.State.Validity.{state_of}
use ntulearn_skill.Sync.State.Lookup.{written}
use ntulearn_skill.Sync.State.Stored.{IsStored, IsValidStore, IsRecordable, new_row}
use ntulearn_skill.Sync.State.Recording.{final_row, FitsRow, final_store, record_attempt-ok}
use ntulearn_skill.Sync.Freshness.{
  FreshnessMode, FreshnessRequirement, is_current_at, verdict, evaluate_at,
}

abbrev pub require_current : FreshnessRequirement
require_current = record { mode = FreshnessMode.require_current; max_age = none }

-- The attempt at `at` is after the attempt that is stored for the scope, if there is one.
abbrev pub IsLatest : ℕ → Instant → Option SyncStateRow → Type 0
IsLatest key at none = Unit
IsLatest key at (some s) = is_newer at key s.last_attempt_at s.latest_attempt_run_key ≡ true

no_later_time :
    (at key s_at s_key : ℕ) (u_at u_key f_at f_key : Option ℕ)
    → is_newer at key s_at s_key ≡ true
    → IsPaired u_at u_key
    → IsPaired f_at f_key
    → later? (marker f_at f_key) (marker u_at u_key) ≡ marker u_at u_key
    → later? (marker u_at u_key) (some (s_at, s_key)) ≡ some (s_at, s_key)
    → later_time (some at) f_at ≡ some at
no_later_time at key s_at s_key u_at u_key none f_key n p q e f = refl
no_later_time at key s_at s_key none none (some b) (some l) n p q e f = cc
no_later_time at key s_at s_key none (some k) (some b) (some l) n p q e f = elim p [ ]
no_later_time at key s_at s_key (some a) none (some b) (some l) n p q e f = elim p [ ]
no_later_time at key s_at s_key (some a) (some k) (some b) (some l) n p q e f = ground arith
no_later_time at key s_at s_key u_at u_key (some b) none n p q e f = elim q [ ]

written_current :
    (runs : List ℕ) (scope : ScopeKey) (a : Attempt) (at now : Instant) (seconds : Option ℕ)
    (stored : Option SyncStateRow)
    → ((s : SyncStateRow) → stored ≡ some s → IsStored runs s)
    → IsLatest a.run_key at stored
    → a.outcome ≡ SyncAttemptOutcome.succeeded
    → a.coverage ≡ Coverage.complete
    → now ≤ at
    → is_current_at (some (state_of (written (new_row scope a at seconds) stored) scope)) now ≡ true
unfolding is_current_at merge attempt_row
written_current runs scope a at now seconds none v l o c le = ground arith
written_current runs scope a at now seconds (some s) v l o c le =
    let h : IsStored runs s = v s refl in
    ground (
      arith,
      no_later_time at a.run_key s.last_attempt_at s.latest_attempt_run_key s.last_success_at
          s.latest_success_run_key s.last_complete_at s.latest_complete_run_key l
          h.valid.paired.success h.valid.paired.full h.valid.full_le_success
          h.valid.success_le_attempt,
    )

select-IsStored :
    (runs : List ℕ) (scope : ScopeKey) (rows : List SyncStateRow)
    → All (IsStored runs) rows
    → (s : SyncStateRow) → select scope rows ≡ some s
    → IsStored runs s
unfolding select
select-IsStored runs scope [] h s e = absurd (ground arith)
select-IsStored runs scope (r ∷ rows) h s e = elim (Bool-cases (selects scope r)) [
  | inl same ↦ let q : r ≡ s = ground arith in subst (IsStored runs) q h.0
  | inr other ↦ select-IsStored runs scope rows h.1 s (ground arith)
]

-- When a successful attempt with complete coverage, later than the one that is stored, is recorded
-- in a valid store with arguments that pass the checks, and its time plus the maximum age of the row
-- that results is not past the year 9999, the call succeeds and the state that it returns satisfies
-- `REQUIRE_CURRENT` at every time up to the attempt's.
pub record_attempt-require_current :
    (scope : ScopeKey) (a : Attempt) (at now : Instant) (seconds : Option ℕ) (store : Store)
    → IsValidStore store
    → IsRecordable scope a at seconds store
    → FitsRow (final_row scope a at seconds store)
    → IsLatest a.run_key at (select scope store.states)
    → a.outcome ≡ SyncAttemptOutcome.succeeded
    → a.coverage ≡ Coverage.complete
    → now ≤ at
    → (state : SyncState) × (store' : Store) × (record_attempt scope a store ≡ ok (state, store'))
      × ((evaluate_at (some state) require_current now).satisfied ≡ true)
unfolding evaluate_at verdict
record_attempt-require_current scope a at now seconds store v r f l o c le = (
  state_of (final_row scope a at seconds store) scope,
  final_store scope a at seconds store,
  record_attempt-ok scope a at seconds store v r f,
  written_current store.runs scope a at now seconds (select scope store.states)
      (select-IsStored store.runs scope store.states v) l o c le,
)
