-- ===== src/Sync/Discovery/Run.antt =====
-- src/ntulearn_skill/sync/discovery.py: `DiscoverySync.run`, over an interface of the recorder.
use ntulearn_skill.Prelude.{
  ◌==◌, if◌then◌else◌, any, count_if, value_error, other_error, Result, err, ok, raise_if, ◌>>=◌,
  ◌>>◌, ℕ, ◌+◌, String, Bool, true, false, ◌&&◌, ◌||◌, not, Option, none, some, List, [], ◌∷◌, ◌++◌,
}
use ntulearn_skill.Core.Models.{Coverage, SyncRunStatus, is_complete}
use ntulearn_skill.Core.Identifiers.{CourseId}
use ntulearn_skill.Client.Contracts.{SourceCapability, CapabilityState}
use ntulearn_skill.Client.Errors.{category_of, safe_source_error_category, Answer}
use ntulearn_skill.Client.Records.{
  ReadPurpose, AuthorizedReadSession, make_page_request, CourseSourceRecord,
}
use ntulearn_skill.Sync.Models.{SyncWarning, ScopeResult}
use ntulearn_skill.Sync.Discovery.{
  add_warning, Backend, is_supported, as_source_error, failed_scope, unsupported_scope,
  invalidate_if_expired,
}
use ntulearn_skill.Sync.Discovery.Paging.{Scan}
use ntulearn_skill.Sync.Discovery.Courses.{courses_of}
use ntulearn_skill.Sync.Discovery.Content.{Tree}
use ntulearn_skill.Sync.Discovery.Walk.{content_of}
use ntulearn_skill.Prelude.Json.{ℤ}
use ntulearn_skill.Sync.Observability.{RequestField, Control, Count, SyncRunResult}

-- The recorder of runs, in the world that the source and the repositories share.
pub record Recorder (W : Type 0) : Type 0 where
  pub start : String → List RequestField → W → Result (ℕ × W)
  pub record_scope : ℕ → ScopeResult → W → Result W
  pub finish :
      ℕ
      → SyncRunStatus
      → List Count
      → List SyncWarning
      → Option String
      → W
      → Result (SyncRunResult × W)

-- The bounds that the caller chooses.
pub record Bounds : Type 0 where
  pub page_size : ℕ
  pub max_pages : ℕ
  pub max_nodes : ℕ

unfoldable pub check_bounds : Bounds → Result (Unit {0})
unfolding make_page_request
check_bounds bounds = do
  raise_if (bounds.max_pages == 0 || bounds.max_nodes == 0)
      (value_error "sync bounds must be positive")
  _ ← make_page_request none bounds.page_size
  ok tt

-- The variables of `run`.
pub record RunState (W : Type 0) : Type 0 where
  pub scopes : List ScopeResult
  pub content_observed : ℕ
  pub resources_discovered : ℕ
  pub world : W

abbrev pub is_failed : Coverage → Bool
is_failed Coverage.failed = true
is_failed _ = false

-- `for scope in scopes`, one counter each.
unfoldable pub scopes_complete : List ScopeResult → ℕ
scopes_complete scopes = count_if (λ s. is_complete s.coverage) scopes

unfoldable pub scopes_failed : List ScopeResult → ℕ
scopes_failed scopes = count_if (λ s. is_failed s.coverage) scopes

unfoldable pub scopes_partial : List ScopeResult → ℕ
scopes_partial scopes =
    count_if (λ s. not (is_complete s.coverage) && not (is_failed s.coverage)) scopes

-- `dict.fromkeys`, from the warnings that stand before.
unfoldable pub add_warnings : List SyncWarning → List SyncWarning → List SyncWarning
unfolding add_warning
add_warnings [] seen = seen
add_warnings (w ∷ ws) seen = add_warnings ws (add_warning w seen)

unfoldable pub all_warnings : List ScopeResult → List SyncWarning → List SyncWarning
unfolding add_warnings
all_warnings [] seen = seen
all_warnings (s ∷ scopes) seen = all_warnings scopes (add_warnings s.warnings seen)

-- `status`
unfoldable pub run_status : ScopeResult → List ScopeResult → SyncRunStatus
run_status course_scope scopes =
    if is_failed course_scope.coverage
    then SyncRunStatus.failed
    else (if any (λ s. not (is_complete s.coverage)) scopes
        then SyncRunStatus.succeeded_with_warnings
        else SyncRunStatus.succeeded)

-- `error_category`
unfoldable pub run_category : ScopeResult → Option String
run_category course_scope =
    if is_failed course_scope.coverage then course_scope.failure_category else none

abbrev pub run_counts : ScopeResult → List ScopeResult → ℕ → ℕ → List Count
unfolding scopes_complete scopes_partial scopes_failed
run_counts course_scope scopes content resources =
    record { name = "courses_observed"; value = ℤ.pos course_scope.items_seen }
    ∷ record { name = "content_observed"; value = ℤ.pos content }
    ∷ record { name = "resources_discovered"; value = ℤ.pos resources }
    ∷ record { name = "scopes_complete"; value = ℤ.pos (scopes_complete scopes) }
    ∷ record { name = "scopes_partial"; value = ℤ.pos (scopes_partial scopes) }
    ∷ record { name = "scopes_failed"; value = ℤ.pos (scopes_failed scopes) }
    ∷ []

abbrev pub requested : Bool → Bounds → List RequestField
requested include_content bounds =
    record { name = "include_content"; value = Control.flag include_content }
    ∷ record { name = "page_size"; value = Control.number (ℤ.pos bounds.page_size) }
    ∷ record { name = "max_pages_per_scope"; value = Control.number (ℤ.pos bounds.max_pages) }
    ∷ record { name = "max_content_nodes"; value = Control.number (ℤ.pos bounds.max_nodes) }
    ∷ []

module _ {W : Type 0} (b : Backend W) where
  unfoldable pub courses_with :
      Bounds → Answer AuthorizedReadSession × W → List CourseSourceRecord × ScopeResult × W
  unfolding courses_of invalidate_if_expired failed_scope
  courses_with bounds (Answer.returned session, w) =
      courses_of b session bounds.page_size bounds.max_pages w
  courses_with bounds (Answer.raised r, w) =
      let w' = invalidate_if_expired b (as_source_error r) w in
      (
        [],
        failed_scope b "courses" none (safe_source_error_category (category_of (as_source_error r)))
            w',
        w',
      )

  -- The course inventory, as `run` and `discover_courses` observe it.
  unfoldable pub courses_if_supported :
      Bounds → Answer CapabilityState × W → List CourseSourceRecord × ScopeResult × W
  unfolding courses_with unsupported_scope
  courses_if_supported bounds (state, w) =
      if is_supported state
      then courses_with bounds (b.acquire ReadPurpose.discovery w)
      else ([], unsupported_scope b "courses" none w, w)

  unfoldable pub observe_courses : Bounds → W → List CourseSourceRecord × ScopeResult × W
  unfolding courses_if_supported
  observe_courses bounds w =
      courses_if_supported bounds (b.capability SourceCapability.course_discovery w)

module _ {W : Type 0} (b : Backend W) (recorder : Recorder W) where
  -- `scopes.append(scope)` and `self.recorder.record_scope(run_key, scope)`
  abbrev pub note_scope : ℕ → ScopeResult → RunState W → Result (RunState W)
  note_scope key scope st = do
    w ← recorder.record_scope key scope st.world
    ok (record st { scopes = st.scopes ++ scope ∷ []; world = w })

  -- One scope for each course, from what the loop's body makes of it.
  unfoldable pub note_each :
      (CourseId → W → ScopeResult) → ℕ → List CourseSourceRecord → RunState W → Result (RunState W)
  note_each scope key [] st = ok st
  note_each scope key (c ∷ cs) st = do
    after ← note_scope key (scope c.remote_id st.world) st
    note_each scope key cs after

  abbrev pub note_content :
      ℕ → RunState W → Option (ScopeResult × Scan Tree W) → Result (RunState W)
  note_content key st none = err (other_error "the walk did not end")
  note_content key st (some (scope, s)) = do
    after ← note_scope key scope (record st { world = s.world })
    ok (record after {
      content_observed = after.content_observed + scope.items_seen;
      resources_discovered = after.resources_discovered + s.progress.resources_seen;
    })

  unfoldable pub content_each :
      ℕ
      → AuthorizedReadSession
      → Bounds
      → List CourseSourceRecord
      → RunState W
      → Result (RunState W)
  unfolding content_of
  content_each key session bounds [] st = ok st
  content_each key session bounds (c ∷ cs) st = do
    after ← note_content key st (
        content_of b key session c.remote_id bounds.page_size bounds.max_pages bounds.max_nodes
          st.world)
    content_each key session bounds cs after

  unfoldable pub content_with :
      ℕ
      → Bounds
      → List CourseSourceRecord
      → RunState W
      → Answer AuthorizedReadSession × W
      → Result (RunState W)
  unfolding content_each note_each invalidate_if_expired failed_scope
  content_with key bounds cs st (Answer.returned session, w) =
      content_each key session bounds cs (record st { world = w })
  content_with key bounds cs st (Answer.raised r, w) =
      note_each
        (λ course w.
          failed_scope b "content" (some course)
            (safe_source_error_category (category_of (as_source_error r))) w)
        key cs (record st { world = invalidate_if_expired b (as_source_error r) w })

  unfoldable pub content_if_supported :
      ℕ
      → Bounds
      → List CourseSourceRecord
      → RunState W
      → Answer CapabilityState × W
      → Result (RunState W)
  unfolding content_with note_each unsupported_scope
  content_if_supported key bounds cs st (state, w) =
      if is_supported state
      then content_with key bounds cs (record st { world = w }) (b.acquire ReadPurpose.content w)
      else note_each (λ course w. unsupported_scope b "content" (some course) w) key cs
          (record st { world = w })

  -- `if include_content and courses`
  unfoldable pub observe_content :
      Bool → ℕ → Bounds → List CourseSourceRecord → RunState W → Result (RunState W)
  unfolding content_if_supported
  observe_content false key bounds cs st = ok st
  observe_content true key bounds [] st = ok st
  observe_content true key bounds (c ∷ cs) st =
      content_if_supported key bounds (c ∷ cs) st
        (b.capability SourceCapability.content_tree st.world)

  -- The scopes of a run, each recorded when it was observed; the course scope is the first.
  unfoldable pub observe_run :
      Bool → ℕ → Bounds → List CourseSourceRecord × ScopeResult × W → Result (RunState W)
  unfolding observe_content
  observe_run include_content key bounds (cs, scope, w) = do
    st ←
        note_scope key scope
          (record { scopes = []; content_observed = 0; resources_discovered = 0; world = w })
    observe_content include_content key bounds cs st

  unfoldable pub run : Bool → Bounds → W → Result (SyncRunResult × W)
  unfolding observe_courses observe_run run_status run_category all_warnings
  run include_content bounds w = do
    check_bounds bounds
    (key, w1) ← recorder.start "discovery" (requested include_content bounds) w
    let observed = observe_courses b bounds w1
    let course_scope = observed.1
    st ← observe_run include_content key bounds observed
    recorder.finish key (run_status course_scope st.scopes)
        (run_counts course_scope st.scopes st.content_observed st.resources_discovered)
        (all_warnings st.scopes []) (run_category course_scope) st.world
