-- ===== src/Sync/Discovery/Content.antt =====
-- src/ntulearn_skill/sync/discovery.py: `_content`, the walk over the content tree of a course.
use ntulearn_skill.Prelude.{
  leb, ◌==◌, if◌then◌else◌, any, all, text_length, is_blank, Result, err, ok, ◌>>=◌, ℕ, ◌+◌, String,
  Bool, true, false, ◌&&◌, not, Option, none, some, List, [], ◌∷◌, ◌++◌, ◌==ₛ◌,
}
use ntulearn_skill.Prelude.Json.{ℤ}
use ntulearn_skill.Core.Models.{Availability, Instant, DateTime, to_storage_time}
use ntulearn_skill.Core.Identifiers.{CourseId, ContentId, same_id}
use ntulearn_skill.Client.Errors.{Raised}
use ntulearn_skill.Client.Records.{ResourceMetadataRecord, ContentSourceRecord}
use ntulearn_skill.Sync.Models.{SyncWarning}
use ntulearn_skill.Sync.Discovery.{partial, Backend}
use ntulearn_skill.Sync.Discovery.Paging.{Scan, Flow, continue_with, move, visit_all}
use ntulearn_skill.Sync.Discovery.Courses.{after_put, protocol_fault}

-- `pending` is the deque `parents`. A node is in `seen_nodes` when it is in `content`.
pub record Tree : Type 0 where
  pub pending : List (Option ContentId)
  pub queued : List ContentId
  pub visited : List (Option ContentId)
  pub content : List ContentSourceRecord
  pub resources : List ResourceMetadataRecord

abbrev pub same_parent : Option ContentId → Option ContentId → Bool
same_parent none none = true
same_parent none (some d) = false
same_parent (some c) none = false
same_parent (some c) (some d) = same_id c d

abbrev pub is_negative : ℤ → Bool
is_negative (ℤ.pos n) = false
is_negative (ℤ.negsuc n) = true

abbrev pub is_empty_text : String → Bool
is_empty_text s = text_length s == 0

unfoldable pub valid_resource : CourseId → ContentId → ResourceMetadataRecord → Bool
valid_resource course content r =
    (r.remote_id.provider ==ₛ course.provider)
    && same_id r.content_id content
    && not (is_blank r.display_title)
    && not (is_empty_text r.original_filename)

-- `_validate_content`, the other way round; the fields have their types.
unfoldable pub valid_content : CourseId → Option ContentId → ContentSourceRecord → Bool
unfolding valid_resource
valid_content course parent item =
    (item.remote_id.provider ==ₛ course.provider)
    && same_id item.course_id course
    && same_parent item.parent_id parent
    && not (is_blank item.handler_kind)
    && not (is_blank item.title)
    && not (is_negative item.position)
    && all (valid_resource course item.remote_id) item.resources

abbrev pub node_seen : ContentId → List ContentSourceRecord → Bool
node_seen node content = any (λ c. same_id node c.remote_id) content

-- `item.is_container and item.remote_id not in queued`
unfoldable pub enqueue : ContentSourceRecord → Tree → Tree
enqueue item t =
    if item.is_container && not (any (same_id item.remote_id) t.queued)
    then record t {
      pending = t.pending ++ some item.remote_id ∷ [];
      queued = item.remote_id ∷ t.queued;
    }
    else t

-- `to_storage_time` of a modification time that is given; a naive one raises.
abbrev pub storage_time : Option DateTime → Result (Option Instant)
storage_time none = ok none
storage_time (some d) = do t ← to_storage_time d; ok (some t)

-- `parents.clear()` and the report of the cap on nodes.
abbrev pub node_cap : {W : Type 0} → Scan Tree W → Scan Tree W
node_cap s = record s {
  progress = partial "content_node_limit_reached" SyncWarning.content_node_cap_reached s.progress;
  found = record s.found { pending = [] };
}

module _ {W : Type 0} where
  abbrev pub add_resource : ResourceMetadataRecord → Scan Tree W → Flow × Scan Tree W
  add_resource r s = (
    Flow.go,
    record s {
      found = record s.found { resources = s.found.resources ++ r ∷ [] };
      progress = record s.progress { resources_seen = s.progress.resources_seen + 1 };
    },
  )

  abbrev pub add_node : ContentSourceRecord → Scan Tree W → Scan Tree W
  add_node item s = record s {
    found = record s.found { content = s.found.content ++ item ∷ [] };
    progress = record s.progress { items_seen = s.progress.items_seen + 1 };
  }

  abbrev pub enqueue_node : ContentSourceRecord → Scan Tree W → Flow × Scan Tree W
  unfolding enqueue
  enqueue_node item s = (Flow.go, record s { found = enqueue item s.found })

module _ {W : Type 0} (b : Backend W) where
  abbrev pub observe_at :
      ℕ
      → Availability
      → ResourceMetadataRecord
      → Scan Tree W
      → Result (Option Instant)
      → Flow × Scan Tree W
  observe_at run_key availability r s (err raised) = (Flow.throw Raised.from_elsewhere, s)
  observe_at run_key availability r s (ok modified_at) =
      after_put (add_resource r) s
        (b.observe_resource r run_key availability modified_at (b.observed_at s.world) s.world)

  -- The body of `for resource in item.resources`.
  unfoldable pub visit_resource :
      ℕ → Availability → ResourceMetadataRecord → Scan Tree W → Flow × Scan Tree W
  visit_resource run_key availability r s =
      observe_at run_key availability r s (storage_time r.candidate_modified_at)

  -- From `observed_content.append(item)` to the end of the loop over the items.
  unfoldable pub keep_node : ℕ → ContentSourceRecord → Scan Tree W → Flow × Scan Tree W
  unfolding visit_all visit_resource enqueue_node
  keep_node run_key item s =
      continue_with
        (visit_all (visit_resource run_key item.availability) item.resources (add_node item s))
        (enqueue_node item)

  -- The body of `for item in page.items` in `_content`.
  unfoldable pub visit_node :
      ℕ → CourseId → Option ContentId → ℕ → ContentSourceRecord → Scan Tree W → Flow × Scan Tree W
  unfolding valid_content keep_node
  visit_node run_key course parent max_nodes item s =
      if not (valid_content course parent item)
      then protocol_fault s
      else (if node_seen item.remote_id s.found.content
          then (
            Flow.go,
            move (partial "source_protocol_error" SyncWarning.duplicate_content_node) s,
          )
          else (if leb max_nodes s.progress.items_seen
              then (Flow.stop, node_cap s)
              else after_put (keep_node run_key item) s
                  (b.put_content_node item (b.observed_at s.world) s.world)))
