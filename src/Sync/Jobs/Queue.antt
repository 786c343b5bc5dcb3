-- ===== src/Sync/Jobs/Queue.antt =====
-- src/ntulearn_skill/sync/jobs.py: `LocalJobQueue` over the table `local_job`.
--
-- A method returns the new table; one that raises has rolled its transaction back, so it returns no
-- table. The constraints of the table (storage/migrations/0009_incremental_jobs.sql) are tests.
use ntulearn_skill.Prelude.{
  ltb, ◌==◌, if◌then◌else◌, is_some, opt_eq, any, contains, text_length, value_error,
  assertion_error, local_job_error, local_job_contract_mismatch, Result, ok, err, ◌>>=◌, ◌>>◌,
  raise_if, ℕ, suc, String, Bool, true, false, ◌&&◌, ◌||◌, not, Option, none, some, List, [], ◌∷◌,
  ◌++◌, ◌==ₛ◌,
}
use ntulearn_skill.Core.Models.{Instant, DateTime, to_storage_time}
use ntulearn_skill.Parsers.Models.{ParserOptions}
use ntulearn_skill.Sync.Jobs.{LocalJobKind, LocalJobStatus, same_kind, JobRow, LocalJobRecord, Jobs}
use ntulearn_skill.Sync.Jobs.Payload.{is_digest, validate_payload}
use ntulearn_skill.Prelude.Json.{JsonValue, JsonFields, same_fields, keys, encoded_length}

-- `_job_keys`: the selection, sorted and without repeats.
unfoldable pub insert_key : ℕ → List ℕ → List ℕ
insert_key k [] = k ∷ []
insert_key k (j ∷ js) =
    if ltb k j then k ∷ j ∷ js else (if k == j then j ∷ js else j ∷ insert_key k js)

unfoldable pub sort_keys : List ℕ → List ℕ
unfolding insert_key
sort_keys [] = []
sort_keys (k ∷ ks) = insert_key k (sort_keys ks)

unfoldable pub job_keys : Option (List ℕ) → Result (Option (List ℕ))
unfolding sort_keys
job_keys none = ok none
job_keys (some supplied) =
    if any (λ k. k == 0) supplied
    then err (value_error "job keys must be positive integers")
    else ok (some (sort_keys supplied))

-- `_selection_sql`: a row is among the selected, or nothing is selected by name.
abbrev pub is_selected : Option (List ℕ) → ℕ → Bool
is_selected none key = true
is_selected (some keys) key = contains key keys

unfoldable pub find_key : ℕ → Jobs → Option JobRow
find_key key [] = none
find_key key (row ∷ rows) = if row.key == key then some row else find_key key rows

unfoldable pub find_identity : LocalJobKind → String → Jobs → Option JobRow
find_identity kind identity [] = none
find_identity kind identity (row ∷ rows) =
    if same_kind row.kind kind && (row.input_identity ==ₛ identity)
    then some row
    else find_identity kind identity rows

-- The key that SQLite gives a new row: one more than the largest.
unfoldable pub largest_key : Jobs → ℕ
largest_key [] = 0
largest_key (row ∷ rows) = let rest = largest_key rows in if ltb row.key rest then rest else row.key

-- The foreign key of a dependency.
abbrev pub key_exists : Option ℕ → Jobs → Bool
key_exists none rows = true
key_exists (some key) rows = is_some (find_key key rows)

abbrev pub job_error {ℓ} : {A : Type ℓ} → Result A → String → Result A
job_error (ok a) message = ok a
job_error (err (local_job_error e)) message = err (local_job_error e)
job_error (err (local_job_contract_mismatch e)) message = err (local_job_contract_mismatch e)
job_error (err _) message = err (local_job_error message)

module _ (settings_hash : ParserOptions → String) where
  -- `_from_row`: the stored payload is checked again.
  unfoldable pub from_row : JobRow → Result LocalJobRecord
  from_row row = do
    validate_payload settings_hash row.kind row.payload
    ok (record {
      key = row.key;
      kind = row.kind;
      input_identity = row.input_identity;
      payload = row.payload;
      result = row.result;
      depends_on_job_key = row.depends_on;
      status = row.status;
      attempt_count = row.attempt_count;
      max_attempts = row.max_attempts;
      available_at = row.available_at;
      lease_expires_at = row.lease_expires_at;
      last_error_category = row.last_error_category;
    })

  abbrev pub new_job : LocalJobKind → String → JsonFields → Option ℕ → ℕ → Instant → ℕ → JobRow
  new_job kind identity payload depends_on max_attempts at key = record {
    key = key;
    kind = kind;
    input_identity = identity;
    payload = payload;
    result = none;
    depends_on = depends_on;
    status = LocalJobStatus.pending;
    attempt_count = 0;
    max_attempts = max_attempts;
    available_at = at;
    lease_expires_at = none;
    worker_token = none;
    last_error_category = none;
    created_at = at;
    updated_at = at;
    started_at = none;
    completed_at = none;
  }

  abbrev pub no_fields : JsonFields → Bool
  no_fields JsonFields.end = true
  no_fields (JsonFields.field _ _ _) = false

  -- `INSERT … ON CONFLICT(job_kind, input_identity) DO NOTHING`
  unfoldable pub insert_job :
      LocalJobKind → String → JsonFields → Option ℕ → ℕ → Instant → Jobs → Result Jobs
  insert_job kind identity payload depends_on max_attempts at rows =
      if is_some (find_identity kind identity rows)
      then ok rows
      else (if key_exists depends_on rows
          then ok (
              rows
              ++ new_job kind identity payload depends_on max_attempts at (suc (largest_key rows))
                ∷ [])
          else err (local_job_error "local job could not be scheduled"))

  abbrev pub or_assertion {ℓ} : {A : Type ℓ} → Option A → Result A
  or_assertion none = err (assertion_error "row is not None")
  or_assertion (some a) = ok a

  -- The `write` of `schedule`.
  unfoldable pub write_job :
      LocalJobKind
      → String
      → JsonFields
      → Option ℕ
      → ℕ
      → Instant
      → Jobs
      → Result (LocalJobRecord × Jobs)
  unfolding insert_job
  write_job kind identity payload depends_on max_attempts at rows = do
    written ← insert_job kind identity payload depends_on max_attempts at rows
    row ← or_assertion (find_identity kind identity written)
    job ← job_error (from_row row) "local job could not be scheduled"
    raise_if
        (not (same_fields job.payload payload) || not (opt_eq job.depends_on_job_key depends_on))
        (local_job_error "local job identity collision")
    ok (job, written)

  abbrev pub opt_zero : Option ℕ → Bool
  opt_zero none = false
  opt_zero (some key) = key == 0

  unfoldable pub schedule :
      LocalJobKind
      → String
      → JsonFields
      → Option ℕ
      → ℕ
      → DateTime
      → Jobs
      → Result (LocalJobRecord × Jobs)
  unfolding write_job
  schedule kind identity payload depends_on max_attempts available_at rows = do
    raise_if (not (is_digest identity))
        (value_error "job input identity must be a lowercase SHA-256")
    raise_if (no_fields payload || any (λ k. text_length k == 0) (keys payload))
        (value_error "local job payload is invalid")
    validate_payload settings_hash kind payload
    raise_if (max_attempts == 0) (value_error "maximum attempts must be positive")
    raise_if (opt_zero depends_on) (value_error "dependency key must be positive")
    at ← to_storage_time available_at
    raise_if (ltb 16384 (encoded_length (JsonValue.object payload)))
        (value_error "local job payload is too large")
    write_job kind identity payload depends_on max_attempts at rows

  -- `get`
  unfoldable pub get_job : ℕ → Jobs → Result (Option LocalJobRecord)
  get_job key rows =
      if key == 0 then err (value_error "job key must be positive") else elim (find_key key rows) [
        | none ↦ ok none
        | some row ↦ job_error (from_row row >>= λ job. ok (some job)) "local job could not be read"
      ]

  -- `list`
  unfoldable pub list_jobs : Jobs → Result (List LocalJobRecord)
  list_jobs [] = ok []
  list_jobs (row ∷ rows) =
      let rest = list_jobs rows in
      job_error (from_row row >>= λ job. rest >>= λ jobs. ok (job ∷ jobs))
        "local jobs could not be read"
