-- ===== src/Sync/Jobs/Update.antt =====
-- src/ntulearn_skill/sync/jobs.py: the statements of `LocalJobQueue` that change the status of jobs:
-- recovery, retry, claim and finish, and the counts.
use ntulearn_skill.Prelude.{
  ltb, leb, ◌==◌, if◌then◌else◌, length, any, count_if, codes, value_error, local_job_error, Result,
  ok, err, ◌>>=◌, ℕ, ◌+◌, String, Bool, true, false, ◌&&◌, ◌||◌, not, Option, none, some, List, [],
  ◌∷◌, ◌==ₛ◌,
}
use ntulearn_skill.Core.Models.{Instant, Duration, add_duration}
use ntulearn_skill.Parsers.Models.{ParserOptions}
use ntulearn_skill.Sync.Jobs.{
  LocalJobStatus, is_pending, is_running, is_succeeded, is_failed, JobResult, Category, JobRow,
  LocalJobRecord, Jobs,
}
use ntulearn_skill.Sync.Jobs.Queue.{
  job_keys, is_selected, find_key, job_error, from_row, or_assertion,
}

-- How many rows an `UPDATE` changed, beside the new table.
abbrev pub Updated : Type 0
Updated = ℕ × Jobs

-- `UPDATE local_job SET … WHERE …`: `test` is the condition and `change` the assignments.
unfoldable pub update_where : (JobRow → Bool) → (JobRow → JobRow) → Jobs → Jobs
update_where test change [] = []
update_where test change (row ∷ rows) =
    (if test row then change row else row) ∷ update_where test change rows

-- `cursor.rowcount`
abbrev pub row_count : (JobRow → Bool) → Jobs → ℕ
row_count = count_if

-- A lease that has run out; a missing one has not.
abbrev pub lease_over : Instant → Option Instant → Bool
lease_over now none = false
lease_over now (some at) = leb at now

unfoldable pub is_interrupted : Instant → Option (List ℕ) → JobRow → Bool
is_interrupted now selected row =
    is_running row.status && lease_over now row.lease_expires_at && is_selected selected row.key

abbrev pub interrupted_category : Category
interrupted_category = codes "interrupted"

unfoldable pub recover_row : Instant → JobRow → JobRow
recover_row now row = record row {
  status =
      if ltb row.attempt_count row.max_attempts
      then LocalJobStatus.pending
      else LocalJobStatus.failed;
  available_at = now;
  lease_expires_at = none;
  worker_token = none;
  last_error_category = some interrupted_category;
  updated_at = now;
}

abbrev pub selects_nothing : Option (List ℕ) → Bool
selects_nothing none = false
selects_nothing (some []) = true
selects_nothing (some (_ ∷ _)) = false

unfoldable pub recover_interrupted : Instant → Option (List ℕ) → Jobs → Result Updated
recover_interrupted now keys rows = do
  selected ← job_keys keys
  if selects_nothing selected
      then ok (0, rows)
      else ok (
        row_count (is_interrupted now selected) rows,
        update_where (is_interrupted now selected) (recover_row now) rows,
      )

unfoldable pub is_retryable : ℕ → JobRow → Bool
is_retryable key row =
    (row.key == key) && is_failed row.status && ltb row.attempt_count row.max_attempts

unfoldable pub retry_row : Instant → JobRow → JobRow
retry_row now row = record row {
  status = LocalJobStatus.pending;
  available_at = now;
  updated_at = now;
}

unfoldable pub retry_failed : ℕ → Instant → Jobs → Result (Bool × Jobs)
retry_failed key now rows =
    if key == 0
    then err (value_error "job key must be positive")
    else ok (
      row_count (is_retryable key) rows == 1,
      update_where (is_retryable key) (retry_row now) rows,
    )

-- The `LEFT JOIN` on the dependency: there is none, or it has succeeded.
unfoldable pub dependency_done : Option ℕ → Jobs → Bool
dependency_done none rows = true
dependency_done (some key) rows = elim (find_key key rows) [
  | none ↦ true
  | some dependency ↦ is_succeeded dependency.status
]

-- The `WHERE` clause of `_claim`.
unfoldable pub is_claimable : Instant → Option (List ℕ) → Jobs → JobRow → Bool
is_claimable now selected rows row =
    is_pending row.status
    && leb row.available_at now
    && ltb row.attempt_count row.max_attempts
    && dependency_done row.depends_on rows
    && is_selected selected row.key

-- `ORDER BY job_key LIMIT 1`: the table is in the order of its keys.
unfoldable pub first_where : (JobRow → Bool) → Jobs → Option JobRow
first_where test [] = none
first_where test (row ∷ rows) = if test row then some row else first_where test rows

unfoldable pub claim_row : Instant → Instant → String → JobRow → JobRow
claim_row now lease_expires token row = record row {
  status = LocalJobStatus.running;
  attempt_count = row.attempt_count + 1;
  lease_expires_at = some lease_expires;
  worker_token = some token;
  started_at = elim row.started_at [ none ↦ some now | some at ↦ some at ];
  updated_at = now;
}

abbrev pub pending_key : ℕ → JobRow → Bool
pending_key key row = (row.key == key) && is_pending row.status

module _ (settings_hash : ParserOptions → String) where
  -- The transaction of `_claim`.
  unfoldable pub claim_until :
      Instant
      → Instant
      → String
      → Option (List ℕ)
      → Jobs
      → Result (Option (LocalJobRecord × String) × Jobs)
  claim_until now lease_expires token selected rows =
      elim (first_where (is_claimable now selected rows) rows) [
        | none ↦ ok (none, rows)
        | some row ↦
            let changed =
              update_where (pending_key row.key) (claim_row now lease_expires token) rows in
            if row_count (pending_key row.key) rows == 1
            then job_error
                (or_assertion settings_hash (find_key row.key changed) >>= λ claimed.
                  from_row settings_hash claimed >>= λ job. ok (some (job, token), changed))
                "local job could not be claimed"
            else ok (none, changed)
      ]

  -- `_claim`; `token` is the fresh text of `uuid4`. The end of the lease is computed before the
  -- transaction, and outside the `try`.
  unfoldable pub claim :
      Instant
      → Duration
      → String
      → Option (List ℕ)
      → Jobs
      → Result (Option (LocalJobRecord × String) × Jobs)
  claim now lease token selected rows =
      if selects_nothing selected
      then ok (none, rows)
      else (add_duration now lease >>= λ lease_expires.
          claim_until now lease_expires token selected rows)

abbrev pub held_by : ℕ → String → JobRow → Bool
held_by key token row =
    (row.key == key)
    && is_running row.status
    && elim row.worker_token [ none ↦ false | some t ↦ t ==ₛ token ]

-- How a job ended: with a result, or in an error of some category.
pub data Outcome : Type 0 where
  success : JobResult → Outcome
  failure : Category → Outcome

unfoldable pub finish_row : Instant → Outcome → JobRow → JobRow
finish_row now (Outcome.success result) row = record row {
  status = LocalJobStatus.succeeded;
  lease_expires_at = none;
  worker_token = none;
  last_error_category = none;
  result = some result;
  completed_at = some now;
  updated_at = now;
}
finish_row now (Outcome.failure category) row = record row {
  status = LocalJobStatus.failed;
  lease_expires_at = none;
  worker_token = none;
  last_error_category = some category;
  result = none;
  completed_at = none;
  updated_at = now;
}

-- The constraint on `last_error_category`: SQLite's `trim` removes spaces.
abbrev pub is_category : Category → Bool
is_category c = any (λ x. not (x == 32)) c && leb (length c) 120

abbrev pub category_allowed : Outcome → Bool
category_allowed (Outcome.success _) = true
category_allowed (Outcome.failure c) = is_category c

-- `_finish`
unfoldable pub finish : ℕ → String → Outcome → Instant → Jobs → Result Jobs
finish key token outcome now rows =
    let held = row_count (held_by key token) rows in
    if not (held == 0) && not (category_allowed outcome)
    then err (local_job_error "local job result could not be recorded")
    else (if held == 1
        then ok (update_where (held_by key token) (finish_row now outcome) rows)
        else err (local_job_error "local job lease was lost"))

unfoldable pub is_remaining : Option (List ℕ) → JobRow → Bool
is_remaining selected row = not (is_succeeded row.status) && is_selected selected row.key

-- The `CASE` of `blocked`.
unfoldable pub is_blocked : Option (List ℕ) → Jobs → JobRow → Bool
is_blocked selected rows row =
    (is_failed row.status
      || (is_pending row.status
          && (leb row.max_attempts row.attempt_count || not (dependency_done row.depends_on rows))))
    && is_selected selected row.key

-- `counts`: what remains, and the part of it that is blocked.
unfoldable pub counts : Option (List ℕ) → Jobs → Result (ℕ × ℕ)
counts keys rows = do
  selected ← job_keys keys
  if selects_nothing selected
      then ok (0, 0)
      else ok (count_if (is_remaining selected) rows, count_if (is_blocked selected rows) rows)
