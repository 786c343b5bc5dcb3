-- ===== src/Sync/Jobs/Runs.antt =====
-- The whole of `LocalJobRunner.run` (src/ntulearn_skill/sync/jobs.py): recovery, the loop, the counts.
use ntulearn_skill.Prelude.{
  if◌then◌else◌, count_if, Result, ok, ℕ, ◌+◌, ◌≤◌, ◌<◌, String, ◌≡◌, refl, sym, true, Option, none,
  some, List, [], ◌∷◌, arith,
}
use ntulearn_skill.Core.Models.{Instant, Duration, DateTime, to_storage_time, max_instant}
use ntulearn_skill.Parsers.Models.{ParserOptions}
use ntulearn_skill.Sync.Jobs.{is_running, JobResult, JobRow, LocalJobRecord, Jobs}
use ntulearn_skill.Sync.Jobs.Queue.{job_keys}
use ntulearn_skill.Sync.Jobs.Update.{
  update_where, row_count, is_interrupted, recover_row, selects_nothing, recover_interrupted,
  is_remaining, is_blocked,
}
use ntulearn_skill.Sync.Jobs.Runner.{zero_tally, run_loop, report, prepare, run}
use ntulearn_skill.Sync.Jobs.Validity.{
  IsValidQueue, recover_row-IsValidJob, if_pred, update_where-IsValidQueue,
}
use ntulearn_skill.Sync.Jobs.Running.{run_loop-Ran, Reported, report-Reported}
use ntulearn_skill.Sync.Jobs.Selection.{job_keys_idem, count-zero, not_interrupted, counts-ok}
use mathlib.Core.Path.{subst}

abbrev after_recovery : Instant → Option (List ℕ) → Jobs → Jobs
after_recovery now selected rows =
    if selects_nothing selected
    then rows
    else update_where (is_interrupted now selected) (recover_row now) rows

recover-ok :
    (now : Instant) (selected : Option (List ℕ)) (rows : Jobs)
    → job_keys selected ≡ ok selected
    → recover_interrupted now selected rows
      ≡ ok (row_count (is_interrupted now selected) rows, after_recovery now selected rows)
unfolding recover_interrupted
recover-ok now none rows e = ground (arith, e)
recover-ok now (some []) rows e =
    ground (arith, e, count-zero (is_interrupted now (some [])) rows (not_interrupted now))
recover-ok now (some (k ∷ ks)) rows e = ground (arith, e)

interrupted_running :
    (now : Instant) (selected : Option (List ℕ)) (r : JobRow)
    → is_interrupted now selected r ≡ true
    → is_running r.status ≡ true
unfolding is_interrupted
interrupted_running now selected r h = ground arith

recover_row-same : (now : Instant) (r : JobRow) → (recover_row now r).key ≡ r.key
unfolding recover_row
recover_row-same now r = refl

after_recovery-IsValidQueue :
    (settings_hash : ParserOptions → String) (now : Instant) (selected : Option (List ℕ))
    (rows : Jobs)
    → IsValidQueue settings_hash rows
    → IsValidQueue settings_hash (after_recovery now selected rows)
after_recovery-IsValidQueue settings_hash now selected rows v =
    if_pred (IsValidQueue settings_hash) (selects_nothing selected) (λ _. v)
      (update_where-IsValidQueue settings_hash (is_interrupted now selected) (recover_row now)
        (recover_row-same now)
        (λ r t. recover_row-IsValidJob settings_hash now r (interrupted_running now selected r t))
        rows v)

run-eq :
    {W : Type 0} (settings_hash : ParserOptions → String)
    (execute : LocalJobRecord → Jobs → W → Result JobResult × W) (tokens : ℕ → String)
    (max_jobs : ℕ) (lease : Duration) (now : Instant) (keys selected : Option (List ℕ))
    (rows : Jobs) (w : W)
    → 0 < max_jobs
    → 0 < lease
    → job_keys keys ≡ ok selected
    → job_keys selected ≡ ok selected
    → run settings_hash execute tokens max_jobs lease (DateTime.aware now) keys rows w
      ≡ report settings_hash execute tokens selected
          (row_count (is_interrupted now selected) rows)
          (run_loop settings_hash execute tokens now lease selected max_jobs 0 zero_tally
            (after_recovery now selected rows)
            w)
unfolding prepare to_storage_time
run-eq settings_hash execute tokens max_jobs lease now keys selected rows w pm pl e same =
    unfold run in ground (arith, e, recover-ok now selected rows same)

-- A run over a valid table whose arguments pass its checks, with a lease that does not end past the
-- year 9999, always returns, whatever the jobs do and however they fail, and leaves the table valid.
-- It reports as recovered as many jobs as were selected and running with a lease that is over, claims
-- at most `max_jobs` jobs, each of which succeeds or fails, reports the counts of the table that it
-- leaves, and stops short of `max_jobs` only where no selected job can be claimed.
pub run-Reported :
    {W : Type 0} (settings_hash : ParserOptions → String)
    (execute : LocalJobRecord → Jobs → W → Result JobResult × W) (tokens : ℕ → String)
    (max_jobs : ℕ) (lease : Duration) (now : Instant) (keys selected : Option (List ℕ))
    (rows : Jobs) (w : W)
    → 0 < max_jobs
    → 0 < lease
    → now + lease ≤ max_instant
    → job_keys keys ≡ ok selected
    → IsValidQueue settings_hash rows
    → Reported settings_hash execute tokens now lease selected max_jobs
        (row_count (is_interrupted now selected) rows)
        (run settings_hash execute tokens max_jobs lease (DateTime.aware now) keys rows w)
run-Reported settings_hash execute tokens max_jobs lease now keys selected rows w pm pl fits e v =
    let same = job_keys_idem keys selected e in
    let n = row_count (is_interrupted now selected) rows in
    let rows' = after_recovery now selected rows in
    let reported =
      report-Reported settings_hash execute tokens now lease selected max_jobs n
        (run_loop settings_hash execute tokens now lease selected max_jobs 0 zero_tally rows' w)
        (λ l. (
          (count_if (is_remaining selected) l, count_if (is_blocked selected l) l),
          counts-ok selected l same,
        ))
        (run_loop-Ran settings_hash execute tokens now lease selected max_jobs 0 zero_tally rows' w
          fits (after_recovery-IsValidQueue settings_hash now selected rows v)) in
    subst (Reported settings_hash execute tokens now lease selected max_jobs n)
      (sym
        (run-eq settings_hash execute tokens max_jobs lease now keys selected rows w pm pl e same))
      reported
