-- ===== src/Sync/Discovery/Courses.antt =====
-- src/ntulearn_skill/sync/discovery.py: `_courses` and `_target_course`.
use ntulearn_skill.Prelude.{
  Result, ok, ◌>>=◌, if◌then◌else◌, is_none, any, is_blank, ℕ, ◌+◌, Bool, true, false, ◌&&◌, not,
  Option, none, some, List, [], ◌∷◌, ◌++◌, ◌==ₛ◌,
}
use ntulearn_skill.Core.Models.{Coverage, is_complete}
use ntulearn_skill.Core.Identifiers.{CourseId, same_id}
use ntulearn_skill.Client.Errors.{SourceError, Raised, Answer}
use ntulearn_skill.Client.Records.{ReadPurpose, AuthorizedReadSession, CourseSourceRecord}
use ntulearn_skill.Sync.Models.{SyncWarning, ScopeResult}
use ntulearn_skill.Sync.Discovery.{
  Progress, no_progress, warn, partial, Backend, scope_of, as_source_error, after_raise,
}
use ntulearn_skill.Sync.Discovery.Paging.{Scan, Flow, move, pages}

-- `result is None and progress.coverage is Coverage.COMPLETE`
unfoldable pub not_observed : Option CourseSourceRecord → Progress → Progress
not_observed result p =
    if is_none result && is_complete p.coverage
    then warn SyncWarning.source_failure (record p {
      coverage = Coverage.failed;
      pagination_complete = false;
      failure_category = some "course_not_observed";
    })
    else p

module _ {X W : Type 0} where
  abbrev pub after_put :
      (Scan X W → Flow × Scan X W) → Scan X W → Answer (Unit {0}) × W → Flow × Scan X W
  after_put rest s (Answer.raised r, w) = (Flow.throw r, record s { world = w })
  after_put rest s (Answer.returned _, w) = rest (record s { world = w })

  abbrev pub protocol_fault : Scan X W → Flow × Scan X W
  protocol_fault s = (Flow.throw (Raised.from_source SourceError.protocol_error), s)

-- `item.remote_id in seen_ids`: a course is seen when it is in the list, as a call of `put_course`
-- that raises ends the loop.
abbrev pub course_seen : CourseSourceRecord → List CourseSourceRecord → Bool
course_seen item courses = any (λ c. same_id item.remote_id c.remote_id) courses

module _ {W : Type 0} where
  abbrev pub add_course :
      CourseSourceRecord
      → Scan (List CourseSourceRecord) W
      → Flow × Scan (List CourseSourceRecord) W
  add_course item s = (
    Flow.go,
    record s {
      found = s.found ++ item ∷ [];
      progress = record s.progress { items_seen = s.progress.items_seen + 1 };
    },
  )

  abbrev pub keep_target :
      CourseSourceRecord
      → Scan (Option CourseSourceRecord) W
      → Flow × Scan (Option CourseSourceRecord) W
  keep_target item s = (
    Flow.stop,
    record s {
      found = some item;
      progress = record s.progress { items_seen = 1; pagination_complete = true };
    },
  )

module _ {W : Type 0} (b : Backend W) where
  -- `_validate_course`, the other way round; the fields have their types.
  unfoldable pub valid_course : CourseSourceRecord → Bool
  valid_course item =
      (item.remote_id.provider ==ₛ b.provider_name)
      && not (is_blank item.code)
      && not (is_blank item.title)

  abbrev pub put_course_now : CourseSourceRecord → W → Answer (Unit {0}) × W
  put_course_now item w = b.put_course item (b.observed_at w) w

  -- The body of `for item in page.items` in `_courses`.
  unfoldable pub visit_course :
      CourseSourceRecord
      → Scan (List CourseSourceRecord) W
      → Flow × Scan (List CourseSourceRecord) W
  unfolding valid_course
  visit_course item s =
      if not (valid_course item)
      then protocol_fault s
      else (if course_seen item s.found
          then (Flow.go, move (partial "source_protocol_error" SyncWarning.source_failure) s)
          else after_put (add_course item) s (put_course_now item s.world))

  unfoldable pub courses_scope :
      Option Raised × Scan (List CourseSourceRecord) W → List CourseSourceRecord × ScopeResult × W
  unfolding after_raise scope_of
  courses_scope (o, s) =
      let (p, w) = after_raise b o s.progress s.world in (s.found, scope_of b "courses" none p w, w)

  -- `_courses`
  unfoldable pub courses_of :
      AuthorizedReadSession → ℕ → ℕ → W → List CourseSourceRecord × ScopeResult × W
  unfolding pages visit_course courses_scope
  courses_of session page_size max_pages w = courses_scope (
      pages (b.list_courses session) visit_course page_size max_pages none []
        (record { progress = no_progress; found = []; world = w }))

  -- The body of `for item in page.items` in `_target_course`.
  unfoldable pub visit_target :
      CourseId
      → CourseSourceRecord
      → Scan (Option CourseSourceRecord) W
      → Flow × Scan (Option CourseSourceRecord) W
  unfolding valid_course
  visit_target course item s =
      if not (valid_course item)
      then protocol_fault s
      else (if not (same_id item.remote_id course)
          then (Flow.go, s)
          else after_put (keep_target item) s (put_course_now item s.world))

  -- `course if self.repository.get_course(course) is not None else None`; what that raises is not caught.
  abbrev pub persisted : CourseId → W → Result (Option CourseId)
  persisted course w = do known ← b.has_course course w; ok (if known then some course else none)

  abbrev pub target_scope :
      CourseId
      → Option Raised × Scan (Option CourseSourceRecord) W
      → Result (Option CourseSourceRecord × ScopeResult × W)
  unfolding after_raise scope_of not_observed
  target_scope course (o, s) = do
    let (p, w) = after_raise b o s.progress s.world
    id ← persisted course w
    ok (s.found, scope_of b "course_availability" id (not_observed s.found p) w, w)

  abbrev pub target_loop :
      CourseId
      → ℕ
      → ℕ
      → Answer AuthorizedReadSession × W
      → Option Raised × Scan (Option CourseSourceRecord) W
  unfolding pages visit_target
  target_loop course page_size max_pages (Answer.raised r, w) = (
    some (Raised.from_source (as_source_error r)),
    record { progress = no_progress; found = none; world = w },
  )
  target_loop course page_size max_pages (Answer.returned session, w) =
      pages (b.list_courses session) (visit_target course) page_size max_pages none []
        (record { progress = no_progress; found = none; world = w })

  -- `_target_course`
  unfoldable pub target_course :
      CourseId → ℕ → ℕ → W → Result (Option CourseSourceRecord × ScopeResult × W)
  unfolding target_loop target_scope
  target_course course page_size max_pages w =
      target_scope course
        (target_loop course page_size max_pages (b.acquire ReadPurpose.discovery w))
