-- ===== src/Sync/Jobs/Changes.antt =====
-- What one call of the queue of src/ntulearn_skill/sync/jobs.py does to the table `local_job`.
use ntulearn_skill.Prelude.{
  is_some, Bool-cases, Result, ok, err, ℕ, suc, ◌+◌, ◌<◌, String, ◌≡◌, refl, sym, ap, ◌∙◌, inl, inr,
  Bool, true, false, Option, none, some, List, [], ◌∷◌, ◌++◌, arith,
}
use ntulearn_skill.Core.Models.{Instant, Duration, DateTime, to_storage_time}
use ntulearn_skill.Sync.Jobs.{
  LocalJobKind, is_running, is_succeeded, is_failed, JobRow, LocalJobRecord, Jobs,
}
use ntulearn_skill.Sync.Jobs.Payload.{validate_payload}
use ntulearn_skill.Sync.Jobs.Queue.{
  job_keys, find_key, find_identity, largest_key, new_job, insert_job, write_job, schedule,
}
use ntulearn_skill.Sync.Jobs.Update.{
  update_where, is_interrupted, recover_row, selects_nothing, recover_interrupted, is_retryable,
  retry_row, retry_failed, claim_row, pending_key, claim, held_by, Outcome, finish_row, finish,
}
use ntulearn_skill.Sync.Jobs.Validity.{
  IsValidJob, IsValidQueue, recover_row-IsValidJob, retry_row-IsValidJob, finish_row-IsValidJob,
}
use ntulearn_skill.Sync.Jobs.Claims.{claimed-IsValidJob, claim_row-key, finish_row-key, claim-inv}
use ntulearn_skill.Sync.Jobs.Leases.{recover_row-key}
use ntulearn_skill.Prelude.Json.{JsonFields}
use ntulearn_skill.Parsers.Models.{ParserOptions}
use mathlib.Core.Path.{subst}

-- What a call does to the table: nothing, an update of some rows, or a row behind the others.
pub data Change (settings_hash : ParserOptions → String) (rows : Jobs) : Jobs → Type 0 where
  none_made : Change settings_hash rows rows
  updated :
      (test : JobRow → Bool) (change : JobRow → JobRow)
      → ((r : JobRow) → (change r).key ≡ r.key)
      → ((r : JobRow) → test r ≡ true → is_succeeded r.status ≡ false)
      → ((r : JobRow)
          → test r ≡ true
          → find_key r.key rows ≡ some r
          → IsValidJob settings_hash r
          → IsValidJob settings_hash (change r))
      → Change settings_hash rows (update_where test change rows)
  added :
      (kind : LocalJobKind) (identity : String) (payload : JsonFields) (depends_on : Option ℕ)
      (max_attempts : ℕ) (at : Instant)
      → 0 < max_attempts
      → validate_payload settings_hash kind payload ≡ ok tt
      → Change settings_hash rows (
          rows
          ++ new_job settings_hash kind identity payload depends_on max_attempts at
              (suc (largest_key rows))
            ∷ [])

module _ (settings_hash : ParserOptions → String) where
  pub schedule-Change :
      (kind : LocalJobKind) (identity : String) (payload : JsonFields) (depends_on : Option ℕ)
      (max_attempts : ℕ) (at : DateTime) (job : LocalJobRecord) (rows rows' : Jobs)
      → schedule settings_hash kind identity payload depends_on max_attempts at rows
        ≡ ok (job, rows')
      → Change settings_hash rows rows'
  unfolding schedule write_job insert_job to_storage_time
  schedule-Change kind identity payload depends_on max_attempts (DateTime.naive t) job rows rows'
        e =
      absurd (ground arith)
  schedule-Change kind identity payload depends_on max_attempts (DateTime.aware t) job rows rows'
        e =
      let valid : validate_payload settings_hash kind payload ≡ ok tt = ground arith in
      let positive : 0 < max_attempts = ground arith in
      elim (Bool-cases (is_some (find_identity kind identity rows))) [
        | inl s ↦
            let q : rows ≡ rows' = ground arith in
            subst (Change settings_hash rows) q Change.none_made
        | inr n ↦
            let row : JobRow =
              new_job settings_hash kind identity payload depends_on max_attempts t
                (suc (largest_key rows)) in
            let q : rows ++ row ∷ [] ≡ rows' = ground arith in
            subst (Change settings_hash rows) q
              (Change.added kind identity payload depends_on max_attempts t positive valid)
      ]

  interrupted_open :
      (now : Instant) (selected : Option (List ℕ)) (r : JobRow)
      → is_interrupted now selected r ≡ true
      → is_succeeded r.status ≡ false
  unfolding is_interrupted
  interrupted_open now selected r h = ground arith

  retryable_open :
      (key : ℕ) (r : JobRow) → is_retryable key r ≡ true → is_succeeded r.status ≡ false
  unfolding is_retryable
  retryable_open key r h = ground arith

  interrupted_running :
      (now : Instant) (selected : Option (List ℕ)) (r : JobRow)
      → is_interrupted now selected r ≡ true
      → is_running r.status ≡ true
  unfolding is_interrupted
  interrupted_running now selected r h = ground arith

  retryable_failed : (key : ℕ) (r : JobRow) → is_retryable key r ≡ true → is_failed r.status ≡ true
  unfolding is_retryable
  retryable_failed key r h = ground arith

  pending_open : (key : ℕ) (r : JobRow) → pending_key key r ≡ true → is_succeeded r.status ≡ false
  pending_open key r h = ground arith

  held_open :
      (key : ℕ) (token : String) (r : JobRow)
      → held_by key token r ≡ true
      → is_succeeded r.status ≡ false
  held_open key token r h = ground arith

  retry_row-key : (now : Instant) (r : JobRow) → (retry_row now r).key ≡ r.key
  unfolding retry_row
  retry_row-key now r = refl

  pub finish-Change :
      (key : ℕ) (token : String) (o : Outcome) (now : Instant) (rows rows' : Jobs)
      → finish key token o now rows ≡ ok rows'
      → Change settings_hash rows rows'
  unfolding finish
  finish-Change key token o now rows rows' e =
      let q : update_where (held_by key token) (finish_row now o) rows ≡ rows' = ground arith in
      subst (Change settings_hash rows) q (
        Change.updated (held_by key token) (finish_row now o) (finish_row-key now o)
          (held_open key token) (λ r t f v. finish_row-IsValidJob settings_hash now o r v))

  pub retry-Change :
      (key : ℕ) (now : Instant) (b : Bool) (rows rows' : Jobs)
      → retry_failed key now rows ≡ ok (b, rows')
      → Change settings_hash rows rows'
  unfolding retry_failed
  retry-Change key now b rows rows' e =
      let q : update_where (is_retryable key) (retry_row now) rows ≡ rows' = ground arith in
      subst (Change settings_hash rows) q (
        Change.updated (is_retryable key) (retry_row now) (retry_row-key now) (retryable_open key)
          (λ r t f v. retry_row-IsValidJob settings_hash now r (retryable_failed key r t) v))

  pub recover-Change :
      (now : Instant) (keys : Option (List ℕ)) (n : ℕ) (rows rows' : Jobs)
      → (r : Result (Option (List ℕ))) → job_keys keys ≡ r
      → recover_interrupted now keys rows ≡ ok (n, rows')
      → Change settings_hash rows rows'
  unfolding recover_interrupted
  recover-Change now keys n rows rows' (err x) k e = absurd (ground arith)
  recover-Change now keys n rows rows' (ok selected) k e =
      elim (Bool-cases (selects_nothing selected)) [
        | inl s ↦
            let q : rows ≡ rows' = ground arith in
            subst (Change settings_hash rows) q Change.none_made
        | inr s ↦
            let q : update_where (is_interrupted now selected) (recover_row now) rows ≡ rows' =
              ground arith in
            subst (Change settings_hash rows) q (
              Change.updated (is_interrupted now selected) (recover_row now) (recover_row-key now)
                (interrupted_open now selected)
                (λ r t f v.
                  recover_row-IsValidJob settings_hash now r (interrupted_running now selected r t)
                    v))
      ]

  -- A claim on a table that is valid.
  pub claim-Change :
      (now : Instant) (lease : Duration) (token : String) (selected : Option (List ℕ))
      (handed : Option (LocalJobRecord × String)) (rows rows' : Jobs)
      → IsValidQueue settings_hash rows
      → claim settings_hash now lease token selected rows ≡ ok (handed, rows')
      → Change settings_hash rows rows'
  claim-Change now lease token selected none rows rows' v e =
      let ((count, same), _) =
        claim-inv settings_hash now lease token selected rows v (none, rows') e in
      subst (Change settings_hash rows) (sym same) Change.none_made
  claim-Change now lease token selected (some (job, t)) rows rows' v e =
      let ((row, found, p, je, te, re), _) =
        claim-inv settings_hash now lease token selected rows v (some (job, t), rows') e in
      subst (Change settings_hash rows) (sym re) (
        Change.updated (pending_key row.key) (claim_row now (now + lease) token)
          (claim_row-key now (now + lease) token) (pending_open row.key)
          (claimed-IsValidJob settings_hash now lease token selected rows v row
            (subst (λ k. find_key k rows ≡ some row)
              (ap (λ (j : LocalJobRecord). j.key) je ∙ claim_row-key now (now + lease) token row)
              found)
            p))
