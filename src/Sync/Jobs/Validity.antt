-- ===== src/Sync/Jobs/Validity.antt =====
-- The invariant of the table `local_job` (src/ntulearn_skill/sync/jobs.py), and that every statement of
-- the queue keeps it.
use ntulearn_skill.Prelude.{
  if◌then◌else◌, is_some, All, ok, ℕ, ◌≤◌, ◌<◌, String, ◌≡◌, refl, Bool, true, false, [], ◌∷◌,
  arith,
}
use ntulearn_skill.Core.Models.{Instant}
use ntulearn_skill.Parsers.Models.{ParserOptions}
use ntulearn_skill.Sync.Jobs.{is_pending, is_running, is_succeeded, is_failed, JobRow, Jobs}
use ntulearn_skill.Sync.Jobs.Payload.{validate_payload}
use ntulearn_skill.Sync.Jobs.Update.{
  update_where, recover_row, retry_row, claim_row, Outcome, finish_row,
}

-- The constraints of the table on one row, and what the queue adds: a lease and a worker exactly
-- while the job runs, a result and a completion exactly when it has succeeded, no more attempts
-- than allowed, and a payload that passes its checks.
pub record IsValidJob (settings_hash : ParserOptions → String) (r : JobRow) : Type 0 where
  pub leased : is_running r.status ≡ is_some r.lease_expires_at
  pub held : is_running r.status ≡ is_some r.worker_token
  pub completed : is_succeeded r.status ≡ is_some r.completed_at
  pub resulted : is_succeeded r.status ≡ is_some r.result
  pub bounded : r.attempt_count ≤ r.max_attempts
  pub allowed : 0 < r.max_attempts
  pub payload_checked : validate_payload settings_hash r.kind r.payload ≡ ok tt

-- Keys ascend from above a bound, so no key occurs twice.
abbrev pub IsAbove : ℕ → Jobs → Type 0
IsAbove lower [] = Unit
IsAbove lower (r ∷ rows) = (lower < r.key) × IsAbove r.key rows

abbrev pub IsValidQueue : (ParserOptions → String) → Jobs → Type 0
IsValidQueue settings_hash rows = IsAbove 0 rows × All (IsValidJob settings_hash) rows

module _ (settings_hash : ParserOptions → String) where
  pub recover_row-IsValidJob :
      (now : Instant) (r : JobRow)
      → is_running r.status ≡ true
      → IsValidJob settings_hash r
      → IsValidJob settings_hash (recover_row now r)
  unfolding recover_row
  recover_row-IsValidJob now r t v = record {
    leased = ground arith;
    held = ground arith;
    completed = ground (arith, v.completed);
    resulted = ground (arith, v.resulted);
    bounded = v.bounded;
    allowed = v.allowed;
    payload_checked = v.payload_checked;
  }

  pub retry_row-IsValidJob :
      (now : Instant) (r : JobRow)
      → is_failed r.status ≡ true
      → IsValidJob settings_hash r
      → IsValidJob settings_hash (retry_row now r)
  unfolding retry_row
  retry_row-IsValidJob now r t v = record {
    leased = ground (arith, v.leased);
    held = ground (arith, v.held);
    completed = ground (arith, v.completed);
    resulted = ground (arith, v.resulted);
    bounded = v.bounded;
    allowed = v.allowed;
    payload_checked = v.payload_checked;
  }

  pub claim_row-IsValidJob :
      (now lease : Instant) (token : String) (r : JobRow)
      → is_pending r.status ≡ true
      → r.attempt_count < r.max_attempts
      → IsValidJob settings_hash r
      → IsValidJob settings_hash (claim_row now lease token r)
  unfolding claim_row
  claim_row-IsValidJob now lease token r t lt v = record {
    leased = refl;
    held = refl;
    completed = ground (arith, v.completed);
    resulted = ground (arith, v.resulted);
    bounded = ground arith;
    allowed = v.allowed;
    payload_checked = v.payload_checked;
  }

  pub finish_row-IsValidJob :
      (now : Instant) (o : Outcome) (r : JobRow)
      → IsValidJob settings_hash r
      → IsValidJob settings_hash (finish_row now o r)
  unfolding finish_row
  finish_row-IsValidJob now (Outcome.success result) r v = record {
    leased = refl;
    held = refl;
    completed = refl;
    resulted = refl;
    bounded = v.bounded;
    allowed = v.allowed;
    payload_checked = v.payload_checked;
  }
  finish_row-IsValidJob now (Outcome.failure c) r v = record {
    leased = refl;
    held = refl;
    completed = refl;
    resulted = refl;
    bounded = v.bounded;
    allowed = v.allowed;
    payload_checked = v.payload_checked;
  }

pub if_pred {ℓ κ} :
    {A : Type ℓ} (P : A → Type κ) (b : Bool) {x y : A}
    → (b ≡ true → P x)
    → P y
    → P (if b then x else y)
if_pred P true p q = p refl
if_pred P false p q = q

pub update_where-IsAbove :
    (test : JobRow → Bool) (change : JobRow → JobRow)
    → ((r : JobRow) → (change r).key ≡ r.key)
    → (lower : ℕ) (rows : Jobs) → IsAbove lower rows
    → IsAbove lower (update_where test change rows)
unfolding update_where
update_where-IsAbove test change same lower [] h = tt
update_where-IsAbove test change same lower (r ∷ rows) (lt, h) =
    let e : (if test r then change r else r).key ≡ r.key =
      if_pred (λ (x : JobRow). x.key ≡ r.key) (test r) (λ _. same r) refl in
    rw e (lt, update_where-IsAbove test change same r.key rows h)

update_where-All :
    (settings_hash : ParserOptions → String) (test : JobRow → Bool) (change : JobRow → JobRow)
    → ((r : JobRow)
        → test r ≡ true
        → IsValidJob settings_hash r
        → IsValidJob settings_hash (change r))
    → (rows : Jobs) → All (IsValidJob settings_hash) rows
    → All (IsValidJob settings_hash) (update_where test change rows)
unfolding update_where
update_where-All settings_hash test change keep [] h = tt
update_where-All settings_hash test change keep (r ∷ rows) (v, h) = (
  if_pred (IsValidJob settings_hash) (test r) (λ t. keep r t v) v,
  update_where-All settings_hash test change keep rows h,
)

-- An update that keeps keys, and that keeps valid the rows that it changes, keeps the table valid.
pub update_where-IsValidQueue :
    (settings_hash : ParserOptions → String) (test : JobRow → Bool) (change : JobRow → JobRow)
    → ((r : JobRow) → (change r).key ≡ r.key)
    → ((r : JobRow)
        → test r ≡ true
        → IsValidJob settings_hash r
        → IsValidJob settings_hash (change r))
    → (rows : Jobs) → IsValidQueue settings_hash rows
    → IsValidQueue settings_hash (update_where test change rows)
update_where-IsValidQueue settings_hash test change same keep rows (a, v) = (
  update_where-IsAbove test change same 0 rows a,
  update_where-All settings_hash test change keep rows v,
)
