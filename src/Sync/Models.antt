-- ===== src/Sync/Models.antt =====
-- src/ntulearn_skill/sync/models.py: what one synchronization of a scope observed.
use ntulearn_skill.Prelude.{ℕ, String, Bool, Option, List}
use ntulearn_skill.Core.Models.{Coverage, Instant}
use ntulearn_skill.Core.Identifiers.{CourseId}

pub data SyncWarning : Type 0 where
  page_reported_partial page_coverage_unknown pagination_cycle : SyncWarning
  page_cap_reached content_node_cap_reached duplicate_content_node : SyncWarning
  capture_replay_assumed_not_reverified source_failure : SyncWarning

pub record ScopeResult : Type 0 where
  pub provider : String
  pub course_id : Option CourseId
  pub data_kind : String
  pub coverage : Coverage
  pub pages_seen : ℕ
  pub items_seen : ℕ
  pub pagination_complete : Bool
  pub failure_category : Option String
  pub warnings : List SyncWarning
  pub observed_at : Instant
