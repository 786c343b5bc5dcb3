-- ===== src/Client/Contracts.antt =====
-- src/ntulearn_skill/client/contracts.py: capabilities of a source, and query windows.
use ntulearn_skill.Prelude.{leb, value_error, Result, ok, err, ◌>>=◌, ◌>>◌, raise_if, String}
use ntulearn_skill.Core.Models.{Instant, DateTime}

pub data SourceCapability : Type 0 where
  course_discovery content_tree resource_metadata resource_stream : SourceCapability
  announcements assessment_details schedule_items due_items : SourceCapability
  automatic_session_renewal remote_delta conditional_resource_read : SourceCapability
  complete_cross_course_calendar : SourceCapability

pub data CapabilityState : Type 0 where
  supported unsupported unknown : CapabilityState

-- A query window between two aware times.
pub record TimeWindow : Type 0 where
  pub since : Instant
  pub until : Instant

abbrev pub aware_instant : DateTime → String → Result Instant
aware_instant (DateTime.naive _) message = err (value_error message)
aware_instant (DateTime.aware t) message = ok t

-- The constructor, with the checks of `__post_init__`.
unfoldable pub make_time_window : DateTime → DateTime → Result TimeWindow
make_time_window since until = do
  from ← aware_instant since "time window must contain ordered aware timestamps"
  to ← aware_instant until "time window must contain ordered aware timestamps"
  raise_if (leb to from) (value_error "time window must contain ordered aware timestamps")
  ok (record { since = from; until = to })
