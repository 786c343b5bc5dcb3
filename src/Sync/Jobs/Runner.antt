-- ===== src/Sync/Jobs/Runner.antt =====
-- src/ntulearn_skill/sync/jobs.py: `LocalJobRunner.run`. What a job does is the parameter `execute`,
-- which is given in `Execution`; it changes a world of its own. `uuid4` is the parameter `tokens`: the
-- texts that it will return, in order.
use ntulearn_skill.Prelude.{
  ◌==◌, value_error, Result, ok, err, ◌>>=◌, ◌>>◌, raise_if, ℕ, zero, suc, ◌+◌, String, Option,
  none, some, List,
}
use ntulearn_skill.Core.Models.{Instant, Duration, DateTime, to_storage_time}
use ntulearn_skill.Parsers.Models.{ParserOptions}
use ntulearn_skill.Sync.Jobs.{JobResult, LocalJobRecord, Jobs}
use ntulearn_skill.Sync.Jobs.Queue.{job_keys}
use ntulearn_skill.Sync.Jobs.Update.{Updated, recover_interrupted, claim, Outcome, finish, counts}
use ntulearn_skill.Sync.Jobs.Category.{safe_error_category, class_name}

pub record Tally : Type 0 where
  pub claimed : ℕ
  pub succeeded : ℕ
  pub failed : ℕ

pub record LocalJobRunResult : Type 0 where
  pub claimed : ℕ
  pub succeeded : ℕ
  pub failed : ℕ
  pub recovered : ℕ
  pub remaining : ℕ
  pub blocked : ℕ

abbrev pub outcome_of : Result JobResult → Outcome
outcome_of (ok result) = Outcome.success result
outcome_of (err e) = Outcome.failure (safe_error_category (class_name e))

abbrev pub tallied : Result JobResult → Tally → Tally
tallied (ok _) t = record t { claimed = t.claimed + 1; succeeded = t.succeeded + 1 }
tallied (err _) t = record t { claimed = t.claimed + 1; failed = t.failed + 1 }

abbrev pub zero_tally : Tally
zero_tally = record { claimed = 0; succeeded = 0; failed = 0 }

module _ {W : Type 0} (settings_hash : ParserOptions → String)
    (execute : LocalJobRecord → Jobs → W → Result JobResult × W) (tokens : ℕ → String) where
  -- The `for` loop: at most the given number of jobs; `i` counts the tokens that were used.
  unfoldable pub run_loop :
      Instant → Duration → Option (List ℕ) → ℕ → ℕ → Tally → Jobs → W → Result Tally × Jobs × W
  run_loop now lease selected zero i t rows w = (ok t, rows, w)
  run_loop now lease selected (suc n) i t rows w =
      elim (claim settings_hash now lease (tokens i) selected rows) [
        | err e ↦ (err e, rows, w)
        | ok (item, claimed) ↦ elim item [
          | none ↦ (ok t, claimed, w)
          | some (job, token) ↦
              let (r, w') = execute job claimed w in
              elim (finish job.key token (outcome_of r) now claimed) [
                | err e ↦ (err e, claimed, w')
                | ok finished ↦ run_loop now lease selected n (suc i) (tallied r t) finished w'
              ]
        ]
      ]

  -- After the loop: the counts.
  unfoldable pub report :
      Option (List ℕ) → ℕ → Result Tally × Jobs × W → Result LocalJobRunResult × Jobs × W
  report selected recovered (err e, rows, w) = (err e, rows, w)
  report selected recovered (ok t, rows, w) = (
    counts selected rows >>= λ c. ok (record {
      claimed = t.claimed;
      succeeded = t.succeeded;
      failed = t.failed;
      recovered = recovered;
      remaining = c.0;
      blocked = c.1;
    }),
    rows,
    w,
  )

  -- The checks of the arguments, up to the recovery of interrupted jobs.
  unfoldable pub prepare :
      ℕ
      → Duration
      → DateTime
      → Option (List ℕ)
      → Jobs
      → Result (Instant × Option (List ℕ) × Updated)
  prepare max_jobs lease clock keys rows = do
    raise_if (max_jobs == 0) (value_error "maximum jobs must be positive")
    raise_if (lease == 0) (value_error "job lease must be positive")
    selected ← job_keys keys
    now ← to_storage_time clock
    recovered ← recover_interrupted now selected rows
    ok (now, selected, recovered)

  unfoldable pub run :
      ℕ → Duration → DateTime → Option (List ℕ) → Jobs → W → Result LocalJobRunResult × Jobs × W
  run max_jobs lease clock keys rows w = elim (prepare max_jobs lease clock keys rows) [
    | err e ↦ (err e, rows, w)
    | ok (now, selected, recovered) ↦
        report selected recovered.0
          (run_loop now lease selected max_jobs 0 zero_tally recovered.1 w)
  ]
