-- ===== src/Sync/Jobs.antt =====
-- src/ntulearn_skill/sync/jobs.py: durable local jobs, their table and their records.
pub mod Payload
pub mod Queue
pub mod Update
pub mod Category
pub mod Runner
pub mod Execution
pub mod Planner
pub mod Validity
pub mod Rows
pub mod Claims
pub mod Contracts
pub mod Changes
pub mod Kept
pub mod History
pub mod Leases
pub mod Planned
pub mod Categories
pub mod Running
pub mod Selection
pub mod Runs
mod PlanTests
pub mod Tests
use ntulearn_skill.Prelude.{
  ltb, leb, ◌==◌, if◌then◌else◌, is_none, is_some, opt_eq, Bool-cases, Option-cases, length, any,
  all, count_if, All, contains, codes, text_length, is_space, is_blank, one_of, Error, type_error,
  value_error, assertion_error, storage_error, local_job_error, local_job_contract_mismatch,
  other_error, Result, ok, err, ◌>>=◌, ◌>>◌, raise_if, >>=-returns, ℕ, zero, suc, ◌+◌, ◌-◌, ◌*◌,
  ◌/◌, ◌%◌, ◌≤◌, ◌<◌, String, ◌≡◌, refl, sym, ap, ◌∙◌, ◌≢◌, ◌↔◌, ◌⊎◌, inl, inr, Bool, true, false,
  ◌&&◌, ◌||◌, not, Option, none, some, List, [], ◌∷◌, ◌++◌, map, arith, ◌==ₛ◌, eq_iff,
}
use ntulearn_skill.Core.Models.{
  Availability, Coverage, SyncRunStatus, ObservationStatus, FetchDecision, is_complete, Instant,
  Duration, DateTime, to_storage_time, from_storage_time,
}
use ntulearn_skill.Prelude.Json.{JsonFields}

pub data LocalJobKind : Type 0 where
  parse index extract reconcile : LocalJobKind

pub data LocalJobStatus : Type 0 where
  pending running succeeded failed : LocalJobStatus

abbrev pub same_kind : LocalJobKind → LocalJobKind → Bool
same_kind LocalJobKind.parse LocalJobKind.parse = true
same_kind LocalJobKind.index LocalJobKind.index = true
same_kind LocalJobKind.extract LocalJobKind.extract = true
same_kind LocalJobKind.reconcile LocalJobKind.reconcile = true
same_kind _ _ = false

abbrev pub is_pending : LocalJobStatus → Bool
is_pending LocalJobStatus.pending = true
is_pending _ = false

abbrev pub is_running : LocalJobStatus → Bool
is_running LocalJobStatus.running = true
is_running _ = false

abbrev pub is_succeeded : LocalJobStatus → Bool
is_succeeded LocalJobStatus.succeeded = true
is_succeeded _ = false

abbrev pub is_failed : LocalJobStatus → Bool
is_failed LocalJobStatus.failed = true
is_failed _ = false

-- The `result_json` of a job: named non-negative integers.
abbrev pub JobResult : Type 0
JobResult = List (String × ℕ)

-- An error category, by its characters.
abbrev pub Category : Type 0
Category = List ℕ

-- A row of the table `local_job`.
pub record JobRow : Type 0 where
  pub key : ℕ
  pub kind : LocalJobKind
  pub input_identity : String
  pub payload : JsonFields
  pub result : Option JobResult
  pub depends_on : Option ℕ
  pub status : LocalJobStatus
  pub attempt_count : ℕ
  pub max_attempts : ℕ
  pub available_at : Instant
  pub lease_expires_at : Option Instant
  pub worker_token : Option String
  pub last_error_category : Option Category
  pub created_at : Instant
  pub updated_at : Instant
  pub started_at : Option Instant
  pub completed_at : Option Instant

-- What the queue hands out of a row.
pub record LocalJobRecord : Type 0 where
  pub key : ℕ
  pub kind : LocalJobKind
  pub input_identity : String
  pub payload : JsonFields
  pub result : Option JobResult
  pub depends_on_job_key : Option ℕ
  pub status : LocalJobStatus
  pub attempt_count : ℕ
  pub max_attempts : ℕ
  pub available_at : Instant
  pub lease_expires_at : Option Instant
  pub last_error_category : Option Category

-- The table, in the order of its keys.
abbrev pub Jobs : Type 0
Jobs = List JobRow
