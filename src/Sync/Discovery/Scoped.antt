-- ===== src/Sync/Discovery/Scoped.antt =====
-- src/ntulearn_skill/sync/discovery.py: `sync_course` and `discover_courses`, inside a run that a caller
-- owns.
use ntulearn_skill.Prelude.{
  ◌==◌, if◌then◌else◌, value_error, other_error, Result, err, ok, raise_if, ◌>>=◌, ◌>>◌, ℕ, Bool,
  true, false, not, Option, none, some, List, [], ◌∷◌, ◌++◌, ◌==ₛ◌,
}
use ntulearn_skill.Core.Identifiers.{CourseId}
use ntulearn_skill.Client.Contracts.{SourceCapability, CapabilityState}
use ntulearn_skill.Client.Errors.{category_of, safe_source_error_category, Answer}
use ntulearn_skill.Client.Records.{
  ReadPurpose, AuthorizedReadSession, make_page_request, CourseSourceRecord, ResourceMetadataRecord,
  ContentSourceRecord,
}
use ntulearn_skill.Sync.Models.{ScopeResult}
use ntulearn_skill.Sync.Discovery.{
  Backend, is_supported, as_source_error, failed_scope, unsupported_scope, invalidate_if_expired,
}
use ntulearn_skill.Sync.Discovery.Paging.{Scan}
use ntulearn_skill.Sync.Discovery.Courses.{persisted, target_course}
use ntulearn_skill.Sync.Discovery.Content.{Tree}
use ntulearn_skill.Sync.Discovery.Walk.{content_of}
use ntulearn_skill.Sync.Discovery.Run.{Bounds, check_bounds, observe_courses}

pub record ScopedDiscoveryResult : Type 0 where
  pub course : Option CourseSourceRecord
  pub content : List ContentSourceRecord
  pub resources : List ResourceMetadataRecord
  pub scopes : List ScopeResult

module _ {W : Type 0} (b : Backend W) where
  unfoldable pub availability_if_supported :
      CourseId
      → Bounds
      → Answer CapabilityState × W
      → Result (Option CourseSourceRecord × ScopeResult × W)
  unfolding target_course unsupported_scope
  availability_if_supported course bounds (state, w) =
      if is_supported state
      then target_course b course bounds.page_size bounds.max_pages w
      else (persisted b course w >>= λ id.
          ok (none, unsupported_scope b "course_availability" id w, w))

  -- The result so far, and the world.
  abbrev pub with_content :
      Option CourseSourceRecord
      → List ScopeResult
      → Option (ScopeResult × Scan Tree W)
      → Result (ScopedDiscoveryResult × W)
  with_content course scopes none = err (other_error "the walk did not end")
  with_content course scopes (some (scope, s)) = ok (
    record {
      course = course;
      content = s.found.content;
      resources = s.found.resources;
      scopes = scopes ++ scope ∷ [];
    },
    s.world,
  )

  abbrev pub without_content :
      Option CourseSourceRecord → List ScopeResult → W → Result (ScopedDiscoveryResult × W)
  without_content course scopes w =
      ok (record { course = course; content = []; resources = []; scopes = scopes }, w)

  unfoldable pub course_content_with :
      ℕ
      → CourseId
      → Bounds
      → Option CourseSourceRecord
      → List ScopeResult
      → Answer AuthorizedReadSession × W
      → Result (ScopedDiscoveryResult × W)
  unfolding content_of invalidate_if_expired failed_scope
  course_content_with run_key course bounds observed scopes (Answer.returned session, w) =
      with_content observed scopes
        (content_of b run_key session course bounds.page_size bounds.max_pages bounds.max_nodes w)
  course_content_with run_key course bounds observed scopes (Answer.raised r, w) =
      let w' = invalidate_if_expired b (as_source_error r) w in
      without_content observed
        (scopes
          ++ failed_scope b "content" (some course)
              (safe_source_error_category (category_of (as_source_error r))) w'
            ∷ [])
        w'

  unfoldable pub course_content_if_supported :
      ℕ
      → CourseId
      → Bounds
      → Option CourseSourceRecord
      → List ScopeResult
      → Answer CapabilityState × W
      → Result (ScopedDiscoveryResult × W)
  unfolding course_content_with unsupported_scope
  course_content_if_supported run_key course bounds observed scopes (state, w) =
      if is_supported state
      then course_content_with run_key course bounds observed scopes
          (b.acquire ReadPurpose.content w)
      else without_content observed (scopes ++ unsupported_scope b "content" (some course) w ∷ []) w

  -- `if include_content`
  unfoldable pub course_content :
      Bool
      → ℕ
      → CourseId
      → Bounds
      → Option CourseSourceRecord
      → List ScopeResult
      → W
      → Result (ScopedDiscoveryResult × W)
  unfolding course_content_if_supported
  course_content false run_key course bounds observed scopes w = without_content observed scopes w
  course_content true run_key course bounds observed scopes w =
      course_content_if_supported run_key course bounds observed scopes
        (b.capability SourceCapability.content_tree w)

  -- `if observed_course is None: return …`
  abbrev pub after_availability :
      Bool
      → ℕ
      → CourseId
      → Bounds
      → Option CourseSourceRecord × ScopeResult × W
      → Result (ScopedDiscoveryResult × W)
  after_availability include_content run_key course bounds (none, scope, w) =
      without_content none (scope ∷ []) w
  after_availability include_content run_key course bounds (some c, scope, w) =
      course_content include_content run_key course bounds (some c) (scope ∷ []) w

  -- `if include_availability`, and the check in its place.
  unfoldable pub observe_course :
      Bool → Bool → ℕ → CourseId → Bounds → W → Result (ScopedDiscoveryResult × W)
  unfolding availability_if_supported course_content
  observe_course true include_content run_key course bounds w =
      availability_if_supported course bounds (b.capability SourceCapability.course_discovery w)
      >>= after_availability include_content run_key course bounds
  observe_course false include_content run_key course bounds w = do
    known ← b.has_course course w
    raise_if (not known)
        (value_error "course must already exist when availability refresh is skipped")
    course_content include_content run_key course bounds none [] w

  unfoldable pub sync_course :
      ℕ → CourseId → Bool → Bool → Bounds → W → Result (ScopedDiscoveryResult × W)
  unfolding observe_course
  sync_course run_key course include_availability include_content bounds w = do
    raise_if (run_key == 0) (value_error "run_key must be a positive integer")
    raise_if (not (course.provider ==ₛ b.provider_name))
        (value_error "course must belong to the source provider")
    check_bounds bounds
    observe_course include_availability include_content run_key course bounds w

  -- The bound on nodes plays no part.
  unfoldable pub discover_courses :
      ℕ → ℕ → ℕ → W → Result (List CourseSourceRecord × ScopeResult × W)
  unfolding observe_courses make_page_request
  discover_courses run_key page_size max_pages w = do
    raise_if (run_key == 0) (value_error "run_key must be a positive integer")
    raise_if (max_pages == 0) (value_error "sync bounds must be positive")
    _ ← make_page_request none page_size
    ok (
        observe_courses b (record { page_size = page_size; max_pages = max_pages; max_nodes = 1 })
          w)
