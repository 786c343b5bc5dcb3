-- ===== src/Sync/Lifecycle.antt =====
-- src/ntulearn_skill/sync/lifecycle.py: the tables that an inventory is compared with, and its results.
-- The key of a table stands beside the remote identity that it belongs to.
pub mod Checks
pub mod Effects
pub mod Loop
pub mod Marking
pub mod Preservation
pub mod Reconcile
pub mod Replay
mod Tests
use ntulearn_skill.Prelude.{
  ltb, leb, ◌==◌, if◌then◌else◌, is_none, is_some, opt_eq, Bool-cases, Option-cases, length, any,
  all, count_if, All, length-append, All-imp, All-both, contains, codes, text_length, is_space,
  is_blank, one_of, Error, type_error, value_error, assertion_error, storage_error, local_job_error,
  local_job_contract_mismatch, other_error, Result, ok, err, ◌>>=◌, ◌>>◌, raise_if, >>=-returns, ℕ,
  zero, suc, ◌+◌, ◌-◌, ◌*◌, ◌/◌, ◌%◌, ◌≤◌, ◌<◌, String, ◌≡◌, refl, sym, ap, ◌∙◌, ◌≢◌, ◌↔◌, ◌⊎◌, inl,
  inr, Bool, true, false, ◌&&◌, ◌||◌, not, Option, none, some, List, [], ◌∷◌, ◌++◌, map, arith,
  ◌==ₛ◌, eq_iff,
}
use ntulearn_skill.Core.Models.{
  Availability, Coverage, SyncRunStatus, ObservationStatus, FetchDecision, is_complete, Instant,
  Duration, DateTime, to_storage_time, from_storage_time,
}
use ntulearn_skill.Core.Identifiers.{RemoteId, CourseId, make_remote_id, same_id, same_id_iff}

pub data LifecycleWarning : Type 0 where
  incomplete_inventory_preserved unavailable_parent_preserved removal_candidate : LifecycleWarning

pub record InventoryReconciliationResult : Type 0 where
  pub resources_marked_missing : ℕ
  pub uncertainty_observations : ℕ
  pub removal_candidates : ℕ
  pub warning_codes : List LifecycleWarning

pub record Course : Type 0 where
  pub key : ℕ
  pub id : RemoteId

pub record ContentNode : Type 0 where
  pub key : ℕ
  pub id : RemoteId
  pub course_key : ℕ
  pub availability : Availability

pub record Resource : Type 0 where
  pub key : ℕ
  pub id : RemoteId
  pub content_key : ℕ
  pub availability : Availability

-- What an observation copies from the one before it.
pub record Evidence : Type 0 where
  pub original_filename : String
  pub sanitized_metadata : String
  pub metadata_fingerprint : String
  pub candidate_modified_at : Option String
  pub candidate_revision : Option String

-- A row of `resource_observation`; its key is its place in the table.
pub record Observation : Type 0 where
  pub resource_key : ℕ
  pub run_key : ℕ
  pub status : ObservationStatus
  pub evidence : Evidence
  pub availability : Availability
  pub observed_at : Instant
  pub fetch_decision : FetchDecision
  pub version_key : Option ℕ

-- A row of `sync_scope_result` of the kind `content`.
pub record RecordedScope : Type 0 where
  pub run_key : ℕ
  pub provider : String
  pub course_key : Option ℕ
  pub is_windowed : Bool
  pub coverage : Coverage
  pub pagination_complete : Bool
  pub pages_seen : ℕ
  pub items_seen : ℕ
  pub failure_category : Option String
  pub observed_at : Instant

pub record Tables : Type 0 where
  pub courses : List Course
  pub runs : List ℕ
  pub scopes : List RecordedScope
  pub contents : List ContentNode
  pub resources : List Resource
  pub observations : List Observation

-- `_ResourceRow`: a resource as it was read before the loop.
pub record ResourceRow : Type 0 where
  pub key : ℕ
  pub availability : Availability
  pub parent_availability : Availability
  pub evidence : Evidence

abbrev pub is_missing : Availability → Bool
is_missing Availability.missing = true
is_missing _ = false

abbrev pub is_removed : Availability → Bool
is_removed Availability.removed_confirmed = true
is_removed _ = false

abbrev pub is_unavailable : Availability → Bool
is_unavailable Availability.unavailable = true
is_unavailable _ = false

abbrev pub is_not_observed : ObservationStatus → Bool
is_not_observed ObservationStatus.not_observed = true
is_not_observed _ = false

abbrev pub is_unknown : ObservationStatus → Bool
is_unknown ObservationStatus.unknown = true
is_unknown _ = false
