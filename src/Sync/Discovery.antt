-- ===== src/Sync/Discovery.antt =====
-- src/ntulearn_skill/sync/discovery.py: the progress of one scope, and the scopes that are reported.

pub mod Known
pub mod Paging
mod Tests
pub mod Complete
pub mod Targeted
pub mod Scoped
pub mod Returned
pub mod Summary
pub mod Outcomes
pub mod Entries
pub mod Tree
pub mod Run
pub mod Reported
pub mod Ending
pub mod Forest
pub mod Nodes
pub mod Walk
pub mod Content
pub mod Observed
pub mod Courses
pub mod Rounds
pub mod Kept
use ntulearn_skill.Prelude.{
  ltb, leb, ◌==◌, if◌then◌else◌, is_none, is_some, opt_eq, Bool-cases, Option-cases, length, any,
  all, count_if, All, length-append, append_nil, append_assoc, any-append, All-imp, All-both,
  All-append, contains, codes, text_length, is_space, is_blank, one_of, Error, type_error,
  value_error, assertion_error, storage_error, local_job_error, local_job_contract_mismatch,
  other_error, Result, err, ok, raise_if, ◌>>=◌, ◌>>◌, >>=-returns, Result-cases, ℕ, zero, suc, ◌+◌,
  ◌-◌, ◌*◌, ◌/◌, ◌%◌, ◌≤◌, ◌<◌, String, ◌≡◌, refl, sym, ap, ◌∙◌, ◌≢◌, ◌↔◌, ◌⊎◌, inl, inr, Bool,
  true, false, ◌&&◌, ◌||◌, not, Option, none, some, List, [], ◌∷◌, ◌++◌, map, arith, ◌==ₛ◌, eq_iff,
}
use ntulearn_skill.Core.Models.{
  Availability, Coverage, SyncRunStatus, ObservationStatus, FetchDecision, is_complete, Instant,
  Duration, DateTime, to_storage_time, from_storage_time,
}
use ntulearn_skill.Core.Identifiers.{
  RemoteId, CourseId, ContentId, AttachmentId, make_remote_id, same_id, same_id_iff,
}
use ntulearn_skill.Client.Contracts.{
  SourceCapability, CapabilityState, TimeWindow, aware_instant, make_time_window,
}
use ntulearn_skill.Client.Errors.{
  SourceError, category_of, source_error_categories, safe_source_error_category, Raised, Answer,
  is_expired,
}
use ntulearn_skill.Client.Records.{
  ReadPurpose, AuthorizedReadSession, PageRequest, is_cursor, no_cursor_or, make_page_request, Page,
  CourseSourceRecord, ResourceMetadataRecord, ContentSourceRecord,
}
use ntulearn_skill.Sync.Models.{SyncWarning, ScopeResult}
use ntulearn_skill.Prelude.Json.{JsonFields, ℤ}

-- `_Progress`
pub record Progress : Type 0 where
  pub pages_seen : ℕ
  pub items_seen : ℕ
  pub resources_seen : ℕ
  pub pagination_complete : Bool
  pub coverage : Coverage
  pub failure_category : Option String
  pub warnings : List SyncWarning

abbrev pub no_progress : Progress
no_progress = record {
  pages_seen = 0;
  items_seen = 0;
  resources_seen = 0;
  pagination_complete = false;
  coverage = Coverage.complete;
  failure_category = none;
  warnings = [];
}

abbrev warning_index : SyncWarning → ℕ
warning_index SyncWarning.page_reported_partial = 0
warning_index SyncWarning.page_coverage_unknown = 1
warning_index SyncWarning.pagination_cycle = 2
warning_index SyncWarning.page_cap_reached = 3
warning_index SyncWarning.content_node_cap_reached = 4
warning_index SyncWarning.duplicate_content_node = 5
warning_index SyncWarning.capture_replay_assumed_not_reverified = 6
warning_index SyncWarning.source_failure = 7

abbrev pub same_warning : SyncWarning → SyncWarning → Bool
same_warning a b = warning_index a == warning_index b

-- `_Progress.warn`, on the list of warnings.
unfoldable pub add_warning : SyncWarning → List SyncWarning → List SyncWarning
add_warning w ws = if any (same_warning w) ws then ws else ws ++ w ∷ []

abbrev pub warn : SyncWarning → Progress → Progress
warn w p = record p { warnings = add_warning w p.warnings }

-- `_partial`
abbrev pub partial : String → SyncWarning → Progress → Progress
partial category w p = warn w (record p {
  coverage = Coverage.partial;
  failure_category = some category;
  pagination_complete = false;
})

-- `_source_failure`
unfoldable pub source_failure : SourceError → Progress → Progress
source_failure e p = warn SyncWarning.source_failure (record p {
  coverage = if p.pages_seen == 0 then Coverage.failed else Coverage.partial;
  pagination_complete = false;
  failure_category = some (safe_source_error_category (category_of e));
})

-- `_merge_page_coverage`
unfoldable pub merge_page_coverage : Coverage → Progress → Answer Progress
merge_page_coverage Coverage.partial p =
    Answer.returned
      (warn SyncWarning.page_reported_partial (record p { coverage = Coverage.partial }))
merge_page_coverage Coverage.unknown p = Answer.returned (
    if is_complete p.coverage
    then warn SyncWarning.page_coverage_unknown (record p { coverage = Coverage.unknown })
    else p)
merge_page_coverage Coverage.complete p = Answer.returned p
merge_page_coverage Coverage.stale p = Answer.raised (Raised.from_source SourceError.protocol_error)
merge_page_coverage Coverage.failed p =
    Answer.raised (Raised.from_source SourceError.protocol_error)

-- The source, the sessions and the repositories that a synchronization calls.
pub record Backend (W : Type 0) : Type 0 where
  pub provider_name : String
  pub capability : SourceCapability → W → Answer CapabilityState × W
  pub acquire : ReadPurpose → W → Answer AuthorizedReadSession × W
  pub invalidate : W → W
  pub list_courses : AuthorizedReadSession → PageRequest → W → Answer (Page CourseSourceRecord) × W
  pub list_content :
      AuthorizedReadSession
      → CourseId
      → Option ContentId
      → PageRequest
      → W
      → Answer (Page ContentSourceRecord) × W
  pub observed_at : W → Instant
  pub put_course : CourseSourceRecord → Instant → W → Answer (Unit {0}) × W
  pub has_course : CourseId → W → Result Bool
  pub put_content_node : ContentSourceRecord → Instant → W → Answer (Unit {0}) × W
  pub observe_resource :
      ResourceMetadataRecord
      → ℕ
      → Availability
      → Option Instant
      → Instant
      → W
      → Answer (Unit {0}) × W

abbrev pub is_supported : Answer CapabilityState → Bool
is_supported (Answer.returned CapabilityState.supported) = true
is_supported _ = false

-- `_acquire`: any other exception counts as the source being unavailable.
abbrev pub as_source_error : Raised → SourceError
as_source_error (Raised.from_source e) = e
as_source_error Raised.from_elsewhere = SourceError.source_unavailable

module _ {W : Type 0} (b : Backend W) where
  -- `_scope`
  unfoldable pub scope_of : String → Option CourseId → Progress → W → ScopeResult
  scope_of data_kind course p w = record {
    provider = b.provider_name;
    course_id = course;
    data_kind = data_kind;
    coverage = p.coverage;
    pages_seen = p.pages_seen;
    items_seen = p.items_seen;
    pagination_complete = p.pagination_complete;
    failure_category = p.failure_category;
    warnings = p.warnings;
    observed_at = b.observed_at w;
  }

  -- `_failed_scope`
  unfoldable pub failed_scope : String → Option CourseId → String → W → ScopeResult
  failed_scope data_kind course category w = record {
    provider = b.provider_name;
    course_id = course;
    data_kind = data_kind;
    coverage = Coverage.failed;
    pages_seen = 0;
    items_seen = 0;
    pagination_complete = false;
    failure_category = some category;
    warnings = SyncWarning.source_failure ∷ [];
    observed_at = b.observed_at w;
  }

  -- `_unsupported_scope`
  unfoldable pub unsupported_scope : String → Option CourseId → W → ScopeResult
  unsupported_scope data_kind course w = record {
    provider = b.provider_name;
    course_id = course;
    data_kind = data_kind;
    coverage = Coverage.unknown;
    pages_seen = 0;
    items_seen = 0;
    pagination_complete = false;
    failure_category = some "unsupported_capability";
    warnings = SyncWarning.page_coverage_unknown ∷ [];
    observed_at = b.observed_at w;
  }

  -- `_invalidate_if_expired`
  unfoldable pub invalidate_if_expired : SourceError → W → W
  invalidate_if_expired e w = if is_expired e then b.invalidate w else w

  -- The two `except` clauses round a loop: the progress, and the session if it has expired.
  unfoldable pub after_raise : Option Raised → Progress → W → Progress × W
  unfolding source_failure invalidate_if_expired
  after_raise none p w = (p, w)
  after_raise (some (Raised.from_source e)) p w = (source_failure e p, invalidate_if_expired e w)
  after_raise (some Raised.from_elsewhere) p w =
      (source_failure SourceError.source_unavailable p, w)
