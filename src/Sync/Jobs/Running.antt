-- ===== src/Sync/Jobs/Running.antt =====
-- What `LocalJobRunner.run` (src/ntulearn_skill/sync/jobs.py) does to a valid table, whatever the jobs
-- do and however they fail.
use ntulearn_skill.Prelude.{
  Result, ok, err, ℕ, zero, suc, ◌+◌, ◌≤◌, String, ◌≡◌, refl, sym, ap, ◌∙◌, ◌⊎◌, inl, inr, true,
  Option, none, some, List, arith, eq_iff,
}
use ntulearn_skill.Core.Models.{Instant, Duration, max_instant}
use ntulearn_skill.Parsers.Models.{ParserOptions}
use ntulearn_skill.Sync.Jobs.{JobResult, JobRow, LocalJobRecord, Jobs}
use ntulearn_skill.Sync.Jobs.Queue.{find_key}
use ntulearn_skill.Sync.Jobs.Update.{
  row_count, is_claimable, claim_row, claim, held_by, category_allowed, finish, counts,
}
use ntulearn_skill.Sync.Jobs.Category.{safe_error_category, class_name}
use ntulearn_skill.Sync.Jobs.Categories.{safe_error_category-IsSafe, IsSafe-is_category}
use ntulearn_skill.Sync.Jobs.Runner.{
  Tally, LocalJobRunResult, outcome_of, tallied, zero_tally, run_loop, report,
}
use ntulearn_skill.Sync.Jobs.Validity.{IsValidQueue}
use ntulearn_skill.Sync.Jobs.Rows.{counted}
use ntulearn_skill.Sync.Jobs.Claims.{claim_lem, find-after_claim, claim_row-key, Claimed}
use ntulearn_skill.Sync.Jobs.Leases.{after_finish, finish_held, after_finish-IsValidQueue}
use mathlib.Core.Path.{subst}

outcome_of-allowed : (r : Result JobResult) → category_allowed (outcome_of r) ≡ true
outcome_of-allowed (ok result) = refl
outcome_of-allowed (err e) =
    IsSafe-is_category (safe_error_category (class_name e))
      (safe_error_category-IsSafe (class_name e))

tallied_counts :
    (r : Result JobResult) (t : Tally)
    → ((tallied r t).claimed ≡ t.claimed + 1)
      × ((tallied r t).succeeded + (tallied r t).failed ≡ t.succeeded + t.failed + 1)
tallied_counts (ok result) t = (refl, omega arith)
tallied_counts (err e) t = (refl, omega arith)

held_after :
    (now lease : Instant) (token : String) (row : JobRow)
    → counted (held_by row.key token) (some (claim_row now lease token row)) ≡ 1
unfolding claim_row
held_after now lease token row = ground (arith, (eq_iff token token).1 refl)

module _ {W : Type 0} (settings_hash : ParserOptions → String)
    (execute : LocalJobRecord → Jobs → W → Result JobResult × W) (tokens : ℕ → String)
    (now : Instant) (lease : Duration) (selected : Option (List ℕ)) where
  -- The loop returned, the table is valid, and every claimed job has succeeded or failed. At most
  -- `n` jobs were claimed; with fewer, no claimable row is left.
  abbrev pub Ran : ℕ → Tally → Result Tally × Jobs × W → Type 0
  Ran n t out =
      (t' : Tally) × (rows : Jobs) × (w : W) × (out ≡ (ok t', rows, w))
      × IsValidQueue settings_hash rows
      × (t'.claimed + t.succeeded + t.failed ≡ t.claimed + t'.succeeded + t'.failed)
      × (t'.claimed ≤ t.claimed + n)
      × ((t'.claimed ≡ t.claimed + n) ⊎ (row_count (is_claimable now selected rows) rows ≡ 0))

  -- The claimed job can be finished.
  finish-Claimed :
      (token : String) (r : Result JobResult) (rows rows' : Jobs) (job : LocalJobRecord)
      (t : String) (v : IsValidQueue settings_hash rows)
      → Claimed settings_hash now lease token selected rows v (some (job, t), rows')
      → IsValidQueue settings_hash rows'
      → finish job.key t (outcome_of r) now rows'
        ≡ ok (after_finish job.key t (outcome_of r) now rows')
  finish-Claimed token r rows rows' job t v (row, found, p, je, te, re) v' =
      let k : job.key ≡ row.key =
        ap (λ (j : LocalJobRecord). j.key) je ∙ claim_row-key now (now + lease) token row in
      let at_key : find_key row.key rows ≡ some row =
        subst (λ n. find_key n rows ≡ some row) k found in
      ground (
        arith,
        finish_held settings_hash job.key t (outcome_of r) now rows' v' (outcome_of-allowed r),
        k,
        te,
        re,
        find-after_claim settings_hash now lease token selected rows v row at_key p,
        held_after now (now + lease) token row,
      )

  Ran-step :
      (n i : ℕ) (t : Tally) (rows : Jobs) (w : W) (v : IsValidQueue settings_hash rows)
      (x : Option (LocalJobRecord × String) × Jobs)
      → claim settings_hash now lease (tokens i) selected rows ≡ ok x
      → Claimed settings_hash now lease (tokens i) selected rows v x
      → IsValidQueue settings_hash x.1
      → ((t' : Tally) (rows' : Jobs) (w' : W)
          → IsValidQueue settings_hash rows'
          → Ran n t'
              (run_loop settings_hash execute tokens now lease selected n (suc i) t' rows' w'))
      → Ran (suc n) t (run_loop settings_hash execute tokens now lease selected (suc n) i t rows w)
  unfolding run_loop
  Ran-step n i t rows w v (none, rows') e c v' rec = (
    t,
    rows',
    w,
    ground (arith, e),
    v',
    refl,
    omega arith,
    inr (subst (λ (l : Jobs). row_count (is_claimable now selected l) l ≡ 0) (sym c.1) c.0),
  )
  Ran-step n i t rows w v (some (job, token), rows') e c v' rec =
      let r = (execute job rows' w).0 in
      let w' = (execute job rows' w).1 in
      let f = finish-Claimed (tokens i) r rows rows' job token v c v' in
      let (t', done, last, same, valid, sum, le, idle) =
        rec (tallied r t) (after_finish job.key token (outcome_of r) now rows') w'
          (after_finish-IsValidQueue settings_hash job.key token (outcome_of r) now rows' v') in
      let counts = tallied_counts r t in
      (
        t',
        done,
        last,
        ground (arith, e, f, same),
        valid,
        omega (arith, counts, sum),
        omega (arith, counts, le),
        elim idle [ inl full ↦ inl (omega (arith, counts, full)) | inr z ↦ inr z ],
      )

  pub run_loop-Ran :
      (n i : ℕ) (t : Tally) (rows : Jobs) (w : W)
      → now + lease ≤ max_instant
      → IsValidQueue settings_hash rows
      → Ran n t (run_loop settings_hash execute tokens now lease selected n i t rows w)
  run_loop-Ran zero i t rows w fits v =
      (t, rows, w, unfold run_loop in refl, v, refl, omega arith, inl (omega arith))
  run_loop-Ran (suc n) i t rows w fits v =
      let (x, e, c, v') = claim_lem settings_hash now lease (tokens i) selected rows v fits in
      Ran-step n i t rows w v x e c v' (λ t' rows' w'. run_loop-Ran n (suc i) t' rows' w' fits)

  -- The result of `run`, for arguments that pass its checks.
  abbrev pub Reported : ℕ → ℕ → Result LocalJobRunResult × Jobs × W → Type 0
  Reported max_jobs recovered out =
      (r : LocalJobRunResult) × (rows : Jobs) × (w : W) × (out ≡ (ok r, rows, w))
      × IsValidQueue settings_hash rows
      × (r.claimed ≡ r.succeeded + r.failed)
      × (r.claimed ≤ max_jobs)
      × (r.recovered ≡ recovered)
      × (counts selected rows ≡ ok (r.remaining, r.blocked))
      × ((r.claimed ≡ max_jobs) ⊎ (row_count (is_claimable now selected rows) rows ≡ 0))

  pub report-Reported :
      (max_jobs recovered : ℕ) (out : Result Tally × Jobs × W)
      → ((rows : Jobs) → (c : ℕ × ℕ) × (counts selected rows ≡ ok c))
      → Ran max_jobs zero_tally out
      → Reported max_jobs recovered (report settings_hash execute tokens selected recovered out)
  report-Reported max_jobs recovered out total (t, rows, w, e, v, sum, le, idle) =
      let (c, ce) = total rows in
      (
        record {
          claimed = t.claimed;
          succeeded = t.succeeded;
          failed = t.failed;
          recovered = recovered;
          remaining = c.0;
          blocked = c.1;
        },
        rows,
        w,
        unfold report in rw e (rw ce),
        v,
        omega (arith, sum),
        omega (arith, le),
        refl,
        ce,
        elim idle [ inl full ↦ inl (omega (arith, full)) | inr z ↦ inr z ],
      )
