-- ===== src/Sync/Jobs/Tests.antt =====
-- Concrete jobs for the theorems on src/ntulearn_skill/sync/jobs.py.
use ntulearn_skill.Prelude.{
  ◌⊎◌, codes, local_job_error, Result, ok, err, ℕ, ◌+◌, String, ◌≡◌, refl, ◌≢◌, true, none, some,
  [], ◌∷◌, arith,
}
use ntulearn_skill.Core.Models.{DateTime, to_storage_time, add_duration}
use ntulearn_skill.Sync.Jobs.{LocalJobKind, LocalJobStatus, JobResult, JobRow, LocalJobRecord, Jobs}
use ntulearn_skill.Sync.Jobs.Payload.{validate_payload}
use ntulearn_skill.Sync.Jobs.Queue.{
  job_keys, find_key, find_identity, largest_key, from_row, schedule,
}
use ntulearn_skill.Sync.Jobs.Update.{
  update_where, row_count, is_interrupted, recover_row, recover_interrupted, dependency_done,
  is_claimable, first_where, claim_row, claim_until, claim, Outcome, finish,
}
use ntulearn_skill.Sync.Jobs.Category.{safe_error_category}
use ntulearn_skill.Sync.Jobs.Categories.{IsSafe, safe_error_category-IsSafe}
use ntulearn_skill.Sync.Jobs.Validity.{IsValidJob, IsValidQueue}
use ntulearn_skill.Sync.Jobs.Claims.{record_of}
use ntulearn_skill.Sync.Jobs.Leases.{Holds, HasEnded, finish_lem, recovered-finish, claim-claim}
use ntulearn_skill.Sync.Jobs.Planner.{with_text, with_key}
use ntulearn_skill.Sync.Jobs.Runner.{run}
use ntulearn_skill.Sync.Jobs.Running.{Reported}
use ntulearn_skill.Sync.Jobs.Runs.{run-Reported}
use ntulearn_skill.Sync.Jobs.History.{
  Step, Reach, Reach-IsValidQueue, Reach-succeeded, schedule_idem,
}
use ntulearn_skill.Parsers.Models.{ParserOptions}
use ntulearn_skill.Prelude.Json.{JsonFields, encoded_length, same_fields}

abbrev pub hash : ParserOptions → String
hash options = "settings"

abbrev pub digest : String
digest = "0123456789abcdef0123456789abcdef0123456789abcdef0123456789abcdef"

abbrev payload : JsonFields
payload = with_key "version_key" 1 (with_text "indexer_version" "fts-1" JsonFields.end)

abbrev pending_job : ℕ → JobRow
pending_job key = record {
  key = key;
  kind = LocalJobKind.index;
  input_identity = digest;
  payload = payload;
  result = none;
  depends_on = none;
  status = LocalJobStatus.pending;
  attempt_count = 0;
  max_attempts = 3;
  available_at = 10;
  lease_expires_at = none;
  worker_token = none;
  last_error_category = none;
  created_at = 10;
  updated_at = 10;
  started_at = none;
  completed_at = none;
}

abbrev running_job : JobRow
running_job = record (pending_job 1) {
  status = LocalJobStatus.running;
  attempt_count = 1;
  lease_expires_at = some 20;
  worker_token = some "first";
  started_at = some 15;
  updated_at = 15;
}

abbrev succeeded_job : JobRow
succeeded_job = record (pending_job 1) {
  status = LocalJobStatus.succeeded;
  attempt_count = 1;
  result = some (("source_generation", 7) ∷ []);
  completed_at = some 18;
}

checked_payload : validate_payload hash LocalJobKind.index payload ≡ ok tt
unfolding validate_payload
checked_payload = refl

pending-IsValidJob : (key : ℕ) → IsValidJob hash (pending_job key)
pending-IsValidJob key = record {
  leased = refl;
  held = refl;
  completed = refl;
  resulted = refl;
  bounded = omega arith;
  allowed = omega arith;
  payload_checked = checked_payload;
}

abbrev queue_of_two : Jobs
queue_of_two = pending_job 1 ∷ pending_job 2 ∷ []

two-IsValidQueue : IsValidQueue hash queue_of_two
two-IsValidQueue =
    ((omega arith, (omega arith, tt)), (pending-IsValidJob 1, (pending-IsValidJob 2, tt)))

running-IsValidQueue : IsValidQueue hash (running_job ∷ [])
running-IsValidQueue = (
  (omega arith, tt),
  (
    record {
      leased = refl;
      held = refl;
      completed = refl;
      resulted = refl;
      bounded = omega arith;
      allowed = omega arith;
      payload_checked = checked_payload;
    },
    tt,
  ),
)

succeeded-IsValidQueue : IsValidQueue hash (succeeded_job ∷ [])
succeeded-IsValidQueue = (
  (omega arith, tt),
  (
    record {
      leased = refl;
      held = refl;
      completed = refl;
      resulted = refl;
      bounded = omega arith;
      allowed = omega arith;
      payload_checked = checked_payload;
    },
    tt,
  ),
)

-- A job that always fails.
abbrev fails : LocalJobRecord → Jobs → ℕ → Result JobResult × ℕ
fails job rows w = (err (local_job_error "no parser"), w + 1)

all_keys : job_keys none ≡ ok none
unfolding job_keys
all_keys = refl

run-Reported_example :
    Reported hash fails
      (λ i. "first")
      10
      5
      none
      3
      (row_count (is_interrupted 10 none) queue_of_two)
      (run hash fails (λ i. "first") 3 5 (DateTime.aware 10) none queue_of_two 0)
run-Reported_example =
    run-Reported hash fails (λ i. "first") 3 5 10 none none queue_of_two 0 (omega arith)
      (omega arith) (omega arith) all_keys two-IsValidQueue

abbrev one_claimed : Jobs
one_claimed = claim_row 10 15 "first" (pending_job 1) ∷ pending_job 2 ∷ []

abbrev both_claimed : Jobs
both_claimed =
    claim_row 10 15 "first" (pending_job 1) ∷ claim_row 12 17 "second" (pending_job 2) ∷ []

first_claim :
    claim hash 10 5 "first" none queue_of_two
    ≡ ok (some (record_of (claim_row 10 15 "first" (pending_job 1)), "first"), one_claimed)
unfolding claim claim_until add_duration is_claimable first_where claim_row find_key from_row
    validate_payload dependency_done update_where
first_claim = refl

second_claim :
    claim hash 12 5 "second" none one_claimed
    ≡ ok (some (record_of (claim_row 12 17 "second" (pending_job 2)), "second"), both_claimed)
unfolding claim claim_until add_duration is_claimable first_where claim_row find_key from_row
    validate_payload dependency_done update_where
second_claim = refl

claim-claim_example :
    (record_of (claim_row 12 17 "second" (pending_job 2))).key
    ≢ (record_of (claim_row 10 15 "first" (pending_job 1))).key
claim-claim_example =
    claim-claim hash 10 12 5 5 "first" "second" none none queue_of_two one_claimed both_claimed
      (record_of (claim_row 10 15 "first" (pending_job 1)))
      (record_of (claim_row 12 17 "second" (pending_job 2))) "first" "second" two-IsValidQueue
      first_claim second_claim

Reach-IsValidQueue_example : IsValidQueue hash one_claimed
Reach-IsValidQueue_example =
    Reach-IsValidQueue hash (Reach.next (Step.claimed 10 5 "first" none _ first_claim) Reach.here)
      two-IsValidQueue

recovers_nothing : recover_interrupted 30 none (succeeded_job ∷ []) ≡ ok (0, succeeded_job ∷ [])
unfolding recover_interrupted is_interrupted job_keys update_where
recovers_nothing = refl

found_succeeded : find_key 1 (succeeded_job ∷ []) ≡ some succeeded_job
unfolding find_key
found_succeeded = refl

Reach-succeeded_example : find_key 1 (succeeded_job ∷ []) ≡ some succeeded_job
Reach-succeeded_example =
    Reach-succeeded hash 1 succeeded_job
      (Reach.next (Step.recovered 30 none 0 recovers_nothing) Reach.here) succeeded-IsValidQueue
      found_succeeded refl

finish_lem_example :
    ((row : JobRow) × (row' : JobRow) × (rows' : Jobs) × Holds 1 "second" (running_job ∷ []) row
      × (finish 1 "second" (Outcome.success []) 18 (running_job ∷ []) ≡ ok rows')
      × (find_key 1 rows' ≡ some row')
      × HasEnded (Outcome.success []) row'
      × (row'.attempt_count ≡ row.attempt_count)
      × ((other : ℕ) → other ≢ 1 → find_key other rows' ≡ find_key other (running_job ∷ [])))
    ⊎ (((row : JobRow) → ¬ Holds 1 "second" (running_job ∷ []) row)
        × (finish 1 "second" (Outcome.success []) 18 (running_job ∷ [])
            ≡ err (local_job_error "local job lease was lost")))
finish_lem_example =
    finish_lem hash 1 "second" (Outcome.success []) 18 (running_job ∷ []) running-IsValidQueue refl

found_running : find_key 1 (running_job ∷ []) ≡ some running_job
unfolding find_key
found_running = refl

lease_ran_out : is_interrupted 30 none running_job ≡ true
unfolding is_interrupted
lease_ran_out = refl

recovered-finish_example :
    finish 1 "first"
      (Outcome.success [])
      31
      (update_where (is_interrupted 30 none) (recover_row 30) (running_job ∷ []))
    ≡ err (local_job_error "local job lease was lost")
recovered-finish_example =
    recovered-finish hash 1 "first" (Outcome.success []) 30 31 none (running_job ∷ []) running_job
      running-IsValidQueue found_running lease_ran_out refl

scheduled_once :
    schedule hash LocalJobKind.index digest payload none 3 (DateTime.aware 10) []
    ≡ ok (record_of (pending_job 1), pending_job 1 ∷ [])
unfolding schedule validate_payload to_storage_time find_identity largest_key from_row
    encoded_length same_fields
scheduled_once = refl

schedule_idem_example :
    schedule hash LocalJobKind.index digest payload none 3 (DateTime.aware 10) (pending_job 1 ∷ [])
    ≡ ok (record_of (pending_job 1), pending_job 1 ∷ [])
schedule_idem_example =
    schedule_idem hash LocalJobKind.index digest payload none 3 (DateTime.aware 10)
      (record_of (pending_job 1)) [] (pending_job 1 ∷ []) scheduled_once

safe_error_category-IsSafe_example : IsSafe (safe_error_category (codes "ValueError"))
safe_error_category-IsSafe_example = safe_error_category-IsSafe (codes "ValueError")

sorted_keys : job_keys (some (3 ∷ 1 ∷ 3 ∷ [])) ≡ ok (some (1 ∷ 3 ∷ []))
unfolding job_keys
sorted_keys = refl

-- The Kelvin sign becomes a small letter, an umlaut does not.
odd_names :
    (safe_error_category (8490 ∷ 69 ∷ []) ≡ codes "k_e")
    × (safe_error_category (196 ∷ []) ≡ codes "_")
unfolding safe_error_category
odd_names = (refl, refl)
