-- ===== src/Sync/State/Recording.antt =====
-- What `SyncStateRepository.record_attempt` (src/ntulearn_skill/sync/state.py) does to a store whose
-- rows are valid, where the time at which the scope becomes stale exists.
use ntulearn_skill.Prelude.{ok, ℕ, ◌≡◌, ◌∙◌, true, false, Option, some, arith}
use ntulearn_skill.Core.Models.{Instant}
use ntulearn_skill.Sync.State.{ScopeKey, SyncState, warning_json}
use ntulearn_skill.Sync.State.Row.{SyncStateRow, upsert}
use ntulearn_skill.Sync.State.Repository.{
  Store, put_provider, selects, select, seconds_to_age, get, Attempt, set_stale, write_attempt,
  record_attempt,
}
use ntulearn_skill.Sync.State.Validity.{state_of, from_row-IsValidRow}
use ntulearn_skill.Sync.State.Lookup.{
  written, select-upsert, select-upsert_other, select-set_stale, select-set_stale_other,
  selects-other,
}
use ntulearn_skill.Sync.State.Stored.{
  IsStored, IsValidStore, upsert-All, restale-IsStored, set_stale-All, written-IsStored,
  IsRecordable, new_row, new_row-HasKey, new_row-IsStored,
}
use ntulearn_skill.Sync.State.Calendar.{Fits, stale_value, stale_of-Fits}

-- The row of the scope after the attempt, but for `stale_after`.
abbrev pub final_row : ScopeKey → Attempt → Instant → Option ℕ → Store → SyncStateRow
final_row scope a at seconds store =
    written (new_row scope a at seconds) (select scope store.states)

abbrev pub stale_after_of : SyncStateRow → Option Instant
stale_after_of row = stale_value row.last_complete_at (seconds_to_age row.max_age_seconds)

-- The row has a time at which it becomes stale, or needs none.
abbrev pub FitsRow : SyncStateRow → Type 0
FitsRow row = Fits row.last_complete_at (seconds_to_age row.max_age_seconds)

-- The store after the attempt.
abbrev pub final_store : ScopeKey → Attempt → Instant → Option ℕ → Store → Store
final_store scope a at seconds store = record store {
  providers = put_provider scope.provider at store.providers;
  states =
      set_stale scope (stale_after_of (final_row scope a at seconds store))
        (upsert (new_row scope a at seconds) store.states);
}

module _ (scope : ScopeKey) (a : Attempt) (at : Instant) (seconds : Option ℕ) (store : Store)
    (valid : IsValidStore store) (recordable : IsRecordable scope a at seconds store)
    (fits : FitsRow (final_row scope a at seconds store)) where
  final_row-IsStored : IsStored store.runs (final_row scope a at seconds store)
  final_row-IsStored =
      written-IsStored store.runs scope (new_row scope a at seconds) store.states
        (new_row-IsStored scope a at seconds store recordable) valid

  write_attempt-ok :
      write_attempt scope a at seconds store ≡ ok (final_store scope a at seconds store)
  unfolding write_attempt
  write_attempt-ok =
      let s = final_row-IsStored in
      ground (
        arith,
        recordable.observed,
        select-upsert scope (new_row scope a at seconds) store.states
            (new_row-HasKey scope a at seconds),
        s.attempt_exists,
        s.success_exists,
        s.full_exists,
        from_row-IsValidRow (final_row scope a at seconds store) scope s.valid,
        stale_of-Fits (final_row scope a at seconds store).last_complete_at
            (seconds_to_age (final_row scope a at seconds store).max_age_seconds) fits,
      )

  pub final_store-IsValidStore : IsValidStore (final_store scope a at seconds store)
  final_store-IsValidStore =
      set_stale-All store.runs scope _ (upsert (new_row scope a at seconds) store.states) (
        upsert-All store.runs (new_row scope a at seconds) store.states
          (new_row-IsStored scope a at seconds store recordable) valid)

  pub get-final_store :
      get scope (final_store scope a at seconds store)
      ≡ ok (some (state_of (final_row scope a at seconds store) scope))
  unfolding get
  get-final_store =
      let stale = stale_after_of (final_row scope a at seconds store) in
      ground (
        arith,
        select-set_stale scope stale (upsert (new_row scope a at seconds) store.states),
        select-upsert scope (new_row scope a at seconds) store.states
            (new_row-HasKey scope a at seconds),
        from_row-IsValidRow (record (final_row scope a at seconds store) { stale_after = stale })
            scope
            (restale-IsStored store.runs stale (final_row scope a at seconds store)
              final_row-IsStored).valid,
      )

  pub record_attempt-ok :
      record_attempt scope a store
      ≡ ok (
        state_of (final_row scope a at seconds store) scope,
        final_store scope a at seconds store,
      )
  unfolding record_attempt warning_json
  record_attempt-ok = ground (
    arith, recordable.run_positive, recordable.consistent, recordable.few_warnings, recordable.time,
    recordable.age, write_attempt-ok, get-final_store,
  )

-- An attempt whose arguments pass the checks of `record_attempt`, recorded in a valid store,
-- succeeds, provided that the last complete observation of the row that results, plus its maximum
-- age, is not past the year 9999; the store that it leaves is valid, and `get` of the scope reads from it the very state
-- that the call returned.
pub record_attempt-get :
    (scope : ScopeKey) (a : Attempt) (at : Instant) (seconds : Option ℕ) (store : Store)
    → IsValidStore store
    → IsRecordable scope a at seconds store
    → FitsRow (final_row scope a at seconds store)
    → (state : SyncState) × (next : Store) × (record_attempt scope a store ≡ ok (state, next))
      × IsValidStore next
      × (get scope next ≡ ok (some state))
record_attempt-get scope a at seconds store v r f = (
  state_of (final_row scope a at seconds store) scope,
  final_store scope a at seconds store,
  record_attempt-ok scope a at seconds store v r f,
  final_store-IsValidStore scope a at seconds store v r f,
  get-final_store scope a at seconds store v r f,
)

get-select :
    (scope : ScopeKey) (s t : Store)
    → select scope s.states ≡ select scope t.states
    → get scope s ≡ get scope t
unfolding get
get-select scope s t e = ground (arith, e)

-- An attempt whose arguments pass the checks of `record_attempt`, recorded in a valid store, leaves
-- alone any scope that does not select the row of the attempt: provided that the last complete
-- observation of the row that results, plus its maximum age, is not past the year 9999, the call
-- succeeds and `get` of that other scope reads what it read before.
pub record_attempt-get_other :
    (scope other : ScopeKey) (a : Attempt) (at : Instant) (seconds : Option ℕ) (store : Store)
    → IsValidStore store
    → IsRecordable scope a at seconds store
    → FitsRow (final_row scope a at seconds store)
    → selects other (new_row scope a at seconds) ≡ false
    → (state : SyncState) × (next : Store) × (record_attempt scope a store ≡ ok (state, next))
      × (get other next ≡ get other store)
record_attempt-get_other scope other a at seconds store v r f d =
    let e = new_row scope a at seconds in
    let k = new_row-HasKey scope a at seconds in
    let differs = λ (row : SyncStateRow) (h : selects scope row ≡ true).
      selects-other scope other e row k d h in
    (
      state_of (final_row scope a at seconds store) scope,
      final_store scope a at seconds store,
      record_attempt-ok scope a at seconds store v r f,
      get-select other (final_store scope a at seconds store) store (
          select-set_stale_other scope other _ (upsert e store.states) differs
          ∙ select-upsert_other scope other e store.states k differs),
    )
