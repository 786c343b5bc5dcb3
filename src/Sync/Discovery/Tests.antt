-- ===== src/Sync/Discovery/Tests.antt =====
-- A concrete source and recorder, for the theorems on src/ntulearn_skill/sync/discovery.py.
use ntulearn_skill.Prelude.{
  inl, length, any, All, is_blank, ok, ℕ, ◌+◌, ◌≤◌, String, ◌≡◌, refl, ◌≢◌, ◌↔◌, Bool, true, false,
  Option, none, some, List, [], ◌∷◌, map, arith,
}
use ntulearn_skill.Core.Models.{Availability, Coverage, SyncRunStatus, is_complete}
use ntulearn_skill.Core.Identifiers.{RemoteId, ContentId}
use ntulearn_skill.Client.Contracts.{CapabilityState}
use ntulearn_skill.Client.Errors.{Answer}
use ntulearn_skill.Client.Records.{
  ReadPurpose, AuthorizedReadSession, is_cursor, make_page_request, Page, CourseSourceRecord,
  ResourceMetadataRecord, ContentSourceRecord,
}
use ntulearn_skill.Sync.Models.{SyncWarning, ScopeResult}
use ntulearn_skill.Sync.Discovery.{
  same_warning, merge_page_coverage, Backend, scope_of, after_raise,
}
use ntulearn_skill.Sync.Discovery.Paging.{Scan, visit_all, one_page, pages}
use ntulearn_skill.Sync.Discovery.Courses.{
  valid_course, visit_course, courses_scope, courses_of, target_course,
}
use ntulearn_skill.Sync.Discovery.Content.{
  Tree, valid_resource, valid_content, enqueue, visit_resource, keep_node, visit_node,
}
use ntulearn_skill.Sync.Discovery.Walk.{read_parent, end_walk, walk, read_content, content_of}
use ntulearn_skill.Sync.Discovery.Run.{
  Recorder, Bounds, check_bounds, is_failed, scopes_complete, scopes_failed, scopes_partial,
  all_warnings, run_status, run,
}
use ntulearn_skill.Sync.Discovery.Scoped.{sync_course}
use ntulearn_skill.Sync.Discovery.Observed.{
  LookupRaises, TargetScope, Trusted, CoursesObserved, courses-observed, target-observed,
}
use ntulearn_skill.Sync.Discovery.Ending.{ContentObserved}
use ntulearn_skill.Sync.Discovery.Reported.{content_key, content-observed, content-comparable}
use ntulearn_skill.Sync.Discovery.Complete.{page_items, Serves, courses-complete}
use ntulearn_skill.Sync.Discovery.Returned.{Finished, distinct, run_status-scopes, run-Finished}
use ntulearn_skill.Sync.Discovery.Targeted.{IsSynced, sync_course-returns}
use ntulearn_skill.Sync.Discovery.Outcomes.{Outcome}
use ntulearn_skill.Prelude.Json.{ℤ, JsonFields}
use ntulearn_skill.Sync.Lifecycle.Checks.{validate_scope, is_complete_comparable}

abbrev id : String → RemoteId
id value = record { provider = "ntulearn"; value = value }

abbrev course : String → CourseSourceRecord
course value = record {
  remote_id = id value;
  code = "SC1001";
  title = "Algorithms";
  term = none;
  availability = Availability.active;
}

abbrev first_page : Page CourseSourceRecord
first_page = record {
  items = course "_1_1" ∷ [];
  next_cursor = some "2";
  coverage_for_page = Coverage.complete;
}

abbrev second_page : Page CourseSourceRecord
second_page = record {
  items = course "_1_2" ∷ [];
  next_cursor = none;
  coverage_for_page = Coverage.complete;
}

abbrev notes : ResourceMetadataRecord
notes = record {
  remote_id = id "_a";
  content_id = id "_leaf";
  display_title = "Notes";
  original_filename = "notes.pdf";
  declared_mime = none;
  candidate_modified_at = none;
}

abbrev node : String → Option ContentId → Bool → List ResourceMetadataRecord → ContentSourceRecord
node value parent is_container resources = record {
  remote_id = id value;
  course_id = id "_1_1";
  parent_id = parent;
  handler_kind = "folder";
  title = "Week 1";
  position = ℤ.pos 0;
  availability = Availability.active;
  is_container = is_container;
  sanitized_metadata = JsonFields.end;
  resources = resources;
}

abbrev content_page : ContentSourceRecord → Page ContentSourceRecord
content_page item = record {
  items = item ∷ [];
  next_cursor = none;
  coverage_for_page = Coverage.complete;
}

abbrev course_page : Option String → Page CourseSourceRecord
course_page none = first_page
course_page (some c) = second_page

-- A folder in the root, and a leaf in the folder.
abbrev tree_page : Option ContentId → Page ContentSourceRecord
tree_page none = content_page (node "_folder" none true [])
tree_page (some parent) = content_page (node "_leaf" (some parent) false (notes ∷ []))

-- The world is the number of calls that stored something.
abbrev backend : Backend ℕ
backend = record {
  provider_name = "ntulearn";
  capability = λ c w. (Answer.returned CapabilityState.supported, w);
  acquire =
      λ p w. (Answer.returned (record { provider = "ntulearn"; purposes = p ∷ []; marker = 1 }), w);
  invalidate = λ w. w;
  list_courses = λ session request w. (Answer.returned (course_page request.cursor), w);
  list_content = λ session c parent request w. (Answer.returned (tree_page parent), w);
  observed_at = λ w. 1000 + w;
  put_course = λ c at w. (Answer.returned tt, w + 1);
  has_course = λ c w. ok true;
  put_content_node = λ c at w. (Answer.returned tt, w + 1);
  observe_resource = λ r key a modified at w. (Answer.returned tt, w + 1);
}

abbrev session : AuthorizedReadSession
session = record { provider = "ntulearn"; purposes = ReadPurpose.discovery ∷ []; marker = 1 }

abbrev bounds : Bounds
bounds = record { page_size = 100; max_pages = 5; max_nodes = 10 }

-- Both courses are found; with one page only, the cap is reported.
courses_found :
    (map (λ c. c.remote_id.value) (courses_of backend session 100 5 0).0 ≡ "_1_1" ∷ "_1_2" ∷ [])
    × ((courses_of backend session 100 1 0).1.coverage ≡ Coverage.partial)
unfolding courses_of courses_scope pages one_page visit_all visit_course after_raise scope_of
    merge_page_coverage make_page_request is_cursor valid_course is_blank
courses_found = (refl, refl)

abbrev summary : Option (ScopeResult × Scan Tree ℕ) → List ℕ × Option Coverage
summary none = ([], none)
summary (some (scope, s)) =
    (scope.pages_seen ∷ scope.items_seen ∷ s.progress.resources_seen ∷ [], some scope.coverage)

-- The tree is read down to the leaf; with a cap of one node, that is reported.
tree_found :
    (summary (content_of backend 7 session (id "_1_1") 100 5 10 0)
      ≡ (2 ∷ 2 ∷ 1 ∷ [], some Coverage.complete))
    × (summary (content_of backend 7 session (id "_1_1") 100 5 1 0)
        ≡ (2 ∷ 1 ∷ 0 ∷ [], some Coverage.partial))
unfolding content_of walk read_content read_parent one_page visit_all visit_node keep_node
    visit_resource enqueue after_raise scope_of merge_page_coverage make_page_request is_cursor
    valid_content valid_resource is_blank end_walk
tree_found = (refl, refl)

courses-observed_example :
    let (cs, scope, w') = courses_of backend session 100 5 0 in
    CoursesObserved backend scope.items_seen 0 cs × (scope.pages_seen ≤ 5) × Trusted scope
courses-observed_example = courses-observed backend session 100 5 0

target-observed_example :
    Outcome
      (LookupRaises backend (id "_1_2"))
      (TargetScope backend (id "_1_2") 5)
      (target_course backend (id "_1_2") 100 5 0)
target-observed_example = target-observed backend (id "_1_2") 100 5 0

content-observed_example :
    (scope : ScopeResult) × (s : Scan Tree ℕ) × (content_of backend 7 session (id "_1_1") 100 5 10 0
      ≡ some (scope, s))
    × ContentObserved (id "_1_1") 10 scope.items_seen s.progress.resources_seen s.found
    × (scope.pages_seen ≤ 5)
    × Trusted scope
content-observed_example = content-observed backend 7 session (id "_1_1") 100 5 10 0

content-comparable_example :
    (scope : ScopeResult) × (s : Scan Tree ℕ) × (content_of backend 7 session (id "_1_1") 100 5 10 0
      ≡ some (scope, s))
    × (validate_scope (id "_1_1") (content_key (id "_1_1")) scope ≡ ok tt)
    × (is_complete_comparable (content_key (id "_1_1")) scope ≡ is_complete scope.coverage)
content-comparable_example = content-comparable backend 7 session (id "_1_1") 100 5 10 0 refl

abbrev course_pages : List (Page CourseSourceRecord)
course_pages = first_page ∷ second_page ∷ []

request_none : make_page_request none 100 ≡ ok (record { cursor = none; page_size = 100 })
unfolding make_page_request is_cursor
request_none = refl

request_two : make_page_request (some "2") 100 ≡ ok (record { cursor = some "2"; page_size = 100 })
unfolding make_page_request is_cursor
request_two = refl

served : Serves backend session 100 [] none [] course_pages
unfolding valid_course is_blank
served = (
  record { cursor = none; page_size = 100 },
  request_none,
  λ w. refl,
  refl,
  refl,
  (refl, refl, tt),
  (
    record { cursor = some "2"; page_size = 100 },
    request_two,
    λ w. refl,
    refl,
    refl,
    (refl, refl, tt),
    refl,
  ),
)

courses-complete_example :
    let (cs, scope, w') = courses_of backend session 100 5 0 in
    (cs ≡ page_items course_pages)
    × (scope.coverage ≡ Coverage.complete)
    × (scope.pages_seen ≡ length course_pages)
courses-complete_example =
    courses-complete backend session 100 5 course_pages 0 (λ item at w. refl) (omega arith) served

-- A recorder that accepts everything; the run has the key 7.
abbrev accepting : Recorder ℕ
accepting = record {
  start = λ mode fields w. ok (7, w);
  record_scope = λ key scope w. ok w;
  finish = λ key status counts warnings category w. ok (
    record {
      key = key;
      mode = "discovery";
      started_at = 0;
      ended_at = w;
      status = status;
      counts = counts;
      warnings = warnings;
      error_category = category;
      scopes = [];
    },
    w,
  );
}

bounds_checked : check_bounds bounds ≡ ok tt
unfolding check_bounds make_page_request is_cursor
bounds_checked = refl

-- No error is raised at all: the run returns.
run-Finished_example :
    Outcome
      (λ e. ⊥)
      (Finished backend accepting true bounds 0)
      (run backend accepting true bounds 0)
run-Finished_example =
    run-Finished backend accepting (λ e. ⊥) true bounds 0
      ((λ mode fields w. tt), (λ key scope w. tt), (λ key status counts warnings category w. tt))
      bounds_checked

abbrev complete_scope : ScopeResult
complete_scope = (courses_of backend session 100 5 0).1

run_status-scopes_example :
    let scopes = complete_scope ∷ [] in
    let status = run_status complete_scope scopes in
    ((status ≡ SyncRunStatus.failed) ↔ (is_failed complete_scope.coverage ≡ true))
    × ((status ≡ SyncRunStatus.succeeded) ↔ All (λ s. is_complete s.coverage ≡ true) scopes)
    × (status ≢ SyncRunStatus.running)
    × (scopes_complete scopes + scopes_partial scopes + scopes_failed scopes ≡ length scopes)
    × (distinct (all_warnings scopes []) ≡ true)
    × ((v : SyncWarning)
        → any (same_warning v) (all_warnings scopes [])
          ≡ any (λ s. any (same_warning v) s.warnings) scopes)
run_status-scopes_example = run_status-scopes complete_scope []

sync_course-returns_example :
    Outcome
      (LookupRaises backend (id "_1_1"))
      (IsSynced backend (id "_1_1") bounds)
      (sync_course backend 7 (id "_1_1") true true bounds 0)
sync_course-returns_example =
    sync_course-returns backend (id "_1_1") bounds 7 true true 0 refl refl bounds_checked (inl refl)
