-- ===== src/Sync/Discovery/Returned.antt =====
-- src/ntulearn_skill/sync/discovery.py: how `DiscoverySync.run` sums up its scopes, and what it returns.
use ntulearn_skill.Prelude.{
  length, any, All, any-append, Error, ok, ℕ, ◌+◌, String, ◌≡◌, refl, ◌≢◌, ◌↔◌, Bool, true, false,
  ◌&&◌, ◌||◌, not, Option, List, [], ◌∷◌, ◌++◌, arith,
}
use ntulearn_skill.Core.Models.{Coverage, SyncRunStatus, is_complete}
use ntulearn_skill.Client.Records.{CourseSourceRecord}
use ntulearn_skill.Sync.Models.{SyncWarning, ScopeResult}
use ntulearn_skill.Sync.Discovery.{same_warning, add_warning, Backend}
use ntulearn_skill.Sync.Discovery.Run.{
  Recorder, Bounds, check_bounds, RunState, is_failed, scopes_complete, scopes_failed,
  scopes_partial, add_warnings, all_warnings, run_status, run_category, run_counts, requested,
  observe_courses, observe_run, run,
}
use ntulearn_skill.Sync.Observability.{RequestField, Count, SyncRunResult}
use ntulearn_skill.Sync.Discovery.Summary.{IsSound, observe_courses-IsSound}
use ntulearn_skill.Sync.Discovery.Outcomes.{
  Outcome, >>=-Outcome, Outcome-imp, Outcome-returned, Outcome-both,
}
use ntulearn_skill.Sync.Discovery.Entries.{
  observe_run-Summed, Entry, scopes_of, content_sum, resource_sum, with_content, Matches, Summed,
}

abbrev pub distinct : List SyncWarning → Bool
distinct [] = true
distinct (w ∷ ws) = not (any (same_warning w) ws) && distinct ws

any-same_warning :
    (v w : SyncWarning) (seen : List SyncWarning)
    → same_warning v w ≡ true
    → any (same_warning v) seen ≡ any (same_warning w) seen
any-same_warning v w [] e = refl
any-same_warning v w (x ∷ seen) e = ground (arith, any-same_warning v w seen e)

add_warning-any :
    (v w : SyncWarning) (seen : List SyncWarning)
    → any (same_warning v) (add_warning w seen) ≡ (same_warning v w || any (same_warning v) seen)
unfolding add_warning
add_warning-any v w seen =
    ground (arith, any-same_warning v w seen, any-append (same_warning v) seen (w ∷ []))

distinct-append :
    (w : SyncWarning) (seen : List SyncWarning)
    → any (same_warning w) seen ≡ false
    → distinct seen ≡ true
    → distinct (seen ++ w ∷ []) ≡ true
distinct-append w [] e d = refl
distinct-append w (x ∷ seen) e d =
    ground (arith, distinct-append w seen, any-append (same_warning x) seen (w ∷ []))

add_warning-distinct :
    (w : SyncWarning) (seen : List SyncWarning)
    → distinct seen ≡ true
    → distinct (add_warning w seen) ≡ true
unfolding add_warning
add_warning-distinct w seen d = ground (arith, distinct-append w seen)

add_warnings-distinct :
    (ws seen : List SyncWarning) → distinct seen ≡ true → distinct (add_warnings ws seen) ≡ true
unfolding add_warnings
add_warnings-distinct [] seen d = d
add_warnings-distinct (w ∷ ws) seen d =
    add_warnings-distinct ws (add_warning w seen) (add_warning-distinct w seen d)

all_warnings-distinct :
    (scopes : List ScopeResult) (seen : List SyncWarning)
    → distinct seen ≡ true
    → distinct (all_warnings scopes seen) ≡ true
unfolding all_warnings
all_warnings-distinct [] seen d = d
all_warnings-distinct (s ∷ scopes) seen d =
    all_warnings-distinct scopes (add_warnings s.warnings seen)
      (add_warnings-distinct s.warnings seen d)

add_warnings-any :
    (v : SyncWarning) (ws seen : List SyncWarning)
    → any (same_warning v) (add_warnings ws seen)
      ≡ (any (same_warning v) seen || any (same_warning v) ws)
unfolding add_warnings
add_warnings-any v [] seen = ground (arith)
add_warnings-any v (w ∷ ws) seen =
    ground (arith, add_warnings-any v ws (add_warning w seen), add_warning-any v w seen)

all_warnings-any :
    (v : SyncWarning) (scopes : List ScopeResult) (seen : List SyncWarning)
    → any (same_warning v) (all_warnings scopes seen)
      ≡ (any (same_warning v) seen || any (λ s. any (same_warning v) s.warnings) scopes)
unfolding all_warnings
all_warnings-any v [] seen = ground (arith)
all_warnings-any v (s ∷ scopes) seen = ground (
  arith,
  all_warnings-any v scopes (add_warnings s.warnings seen),
  add_warnings-any v s.warnings seen,
)

complete_not_failed : (c : Coverage) → (is_complete c && is_failed c) ≡ false
complete_not_failed Coverage.complete = refl
complete_not_failed Coverage.partial = refl
complete_not_failed Coverage.stale = refl
complete_not_failed Coverage.unknown = refl
complete_not_failed Coverage.failed = refl

counters :
    (scopes : List ScopeResult)
    → scopes_complete scopes + scopes_partial scopes + scopes_failed scopes ≡ length scopes
unfolding scopes_complete scopes_partial scopes_failed
counters [] = refl
counters (s ∷ scopes) = ground (arith, counters scopes, complete_not_failed s.coverage)

every_complete :
    (scopes : List ScopeResult)
    → any (λ s. not (is_complete s.coverage)) scopes ≡ false
    → All (λ s. is_complete s.coverage ≡ true) scopes
every_complete [] e = tt
every_complete (s ∷ scopes) e = (ground (arith), every_complete scopes (ground (arith)))

not_every_complete :
    (scopes : List ScopeResult)
    → All (λ s. is_complete s.coverage ≡ true) scopes
    → any (λ s. not (is_complete s.coverage)) scopes ≡ false
not_every_complete [] a = refl
not_every_complete (s ∷ scopes) (h, a) = ground (arith, not_every_complete scopes a)

-- A run is FAILED exactly when its course scope is, SUCCEEDED exactly when every scope is complete, and
-- never RUNNING. The three counters add up to the number of scopes. A warning is among those of the run
-- exactly when it is among those of a scope, and it is there once.
pub run_status-scopes :
    (first : ScopeResult) (rest : List ScopeResult)
    → let scopes = first ∷ rest in
      let status = run_status first scopes in
      ((status ≡ SyncRunStatus.failed) ↔ (is_failed first.coverage ≡ true))
      × ((status ≡ SyncRunStatus.succeeded) ↔ All (λ s. is_complete s.coverage ≡ true) scopes)
      × (status ≢ SyncRunStatus.running)
      × (scopes_complete scopes + scopes_partial scopes + scopes_failed scopes ≡ length scopes)
      × (distinct (all_warnings scopes []) ≡ true)
      × ((v : SyncWarning)
          → any (same_warning v) (all_warnings scopes [])
            ≡ any (λ s. any (same_warning v) s.warnings) scopes)
unfolding run_status
run_status-scopes first rest = (
  ground (arith),
  (
    (λ e. every_complete (first ∷ rest) (ground (arith))),
    (λ a.
        let n = not_every_complete (first ∷ rest) a in
        ground (arith, complete_not_failed first.coverage)),
  ),
  (λ e. ground (arith)),
  counters (first ∷ rest),
  all_warnings-distinct (first ∷ rest) [] refl,
  λ v. all_warnings-any v (first ∷ rest) [],
)

module _ {W : Type 0} (b : Backend W) (recorder : Recorder W) where
  -- For every run: the recorder raises no other errors.
  abbrev pub Raises : (Error → Type 0) → Type 0
  Raises F =
      ((mode : String) (fields : List RequestField) (w : W)
        → Outcome F (λ r. Unit {0}) (recorder.start mode fields w))
      × ((key : ℕ) (scope : ScopeResult) (w : W)
          → Outcome F (λ w'. Unit {0}) (recorder.record_scope key scope w))
      × ((key : ℕ) (status : SyncRunStatus) (counts : List Count) (warnings : List SyncWarning)
            (category : Option String) (w : W)
          → Outcome F (λ r. Unit {0}) (recorder.finish key status counts warnings category w))

  -- What a run that returned has done: it started with the request, observed the courses and then
  -- the content of each, and finished with what these observations add up to.
  abbrev pub Finished : Bool → Bounds → W → SyncRunResult × W → Type 0
  Finished include_content bounds w returned =
      (key : ℕ) × (w1 : W) × (courses : List CourseSourceRecord) × (first : ScopeResult) × (w2 : W)
      × (entries : List Entry) × (st : RunState W) × (recorder.start "discovery"
            (requested include_content bounds) w
          ≡ ok (key, w1))
      × (observe_courses b bounds w1 ≡ (courses, first, w2))
      × (observe_run b recorder include_content key bounds (courses, first, w2) ≡ ok st)
      × IsSound bounds.max_pages first
      × Matches b recorder key bounds (with_content include_content courses) entries
      × (recorder.finish key (run_status first (first ∷ scopes_of entries))
            (run_counts first (first ∷ scopes_of entries) (content_sum entries)
              (resource_sum entries))
            (all_warnings (first ∷ scopes_of entries) []) (run_category first) st.world
          ≡ ok returned)

  -- With bounds that are in order, whatever the source, the sessions and the repositories answer, a
  -- run raises no error but those of the recorder. If it returns, then under the key that
  -- `recorder.start` returned for the request it observed the course scope and, if content was
  -- asked for, one content scope for each course, in order: the scope that `_content` returned for
  -- that course with the resources that it saw, or an incomplete scope with no item and no resource.
  -- It returns what `recorder.finish` returned for that key, for the status, the warnings and the
  -- category of these scopes, the course scope first, and for the counters of these scopes: the items
  -- of the course scope, the sum of the items and the sum of the resources of the content scopes, and
  -- how many scopes are complete, failed, and neither. Each scope is within the bound on pages, and a
  -- complete one has complete pagination, no failure and no warning, and read a page.
  pub run-Finished :
      (F : Error → Type 0) (include_content : Bool) (bounds : Bounds) (w : W)
      → Raises F
      → check_bounds bounds ≡ ok tt
      → Outcome F (Finished include_content bounds w) (run b recorder include_content bounds w)
  unfolding run
  run-Finished F include_content bounds w (starts, records, finishes) c = rw c (
      >>=-Outcome F Started (Finished include_content bounds w)
        (recorder.start "discovery" (requested include_content bounds) w) _
        (Outcome-returned F _ (starts "discovery" (requested include_content bounds) w))
        (λ (key, w1) begun.
          let observed = observe_courses b bounds w1 in
          let ran = observe_run b recorder include_content key bounds observed in
          >>=-Outcome F
            (λ st.
              (ran ≡ ok st)
              × Summed b recorder key bounds F records (with_content include_content observed.0)
                  observed.1 st)
            (Finished include_content bounds w) ran _
            (Outcome-both F _ ran (
              observe_run-Summed b recorder key bounds F records include_content observed.0
                observed.1 observed.2))
            (λ st (noted, (entries, s, o, r, m)). finished key w1 begun st noted entries s o r m)))
    where
      Started : ℕ × W → Type 0
      Started v = recorder.start "discovery" (requested include_content bounds) w ≡ ok v

      finished :
          (key : ℕ) (w1 : W)
          → Started (key, w1)
          → (st : RunState W)
          → let observed = observe_courses b bounds w1 in
            observe_run b recorder include_content key bounds observed ≡ ok st
            → (entries : List Entry) → st.scopes ≡ observed.1 ∷ scopes_of entries
            → st.content_observed ≡ content_sum entries
            → st.resources_discovered ≡ resource_sum entries
            → Matches b recorder key bounds (with_content include_content observed.0) entries
            → Outcome F (Finished include_content bounds w) (
                recorder.finish key
                  (run_status observed.1 st.scopes)
                  (run_counts observed.1 st.scopes st.content_observed st.resources_discovered)
                  (all_warnings st.scopes [])
                  (run_category observed.1)
                  st.world)
      finished key w1 begun st noted entries s o r m =
          let observed = observe_courses b bounds w1 in
          let scopes = observed.1 ∷ scopes_of entries in
          rw (s, o, r)
            (Outcome-imp F _ (Finished include_content bounds w) _
              (λ v f. (
                key,
                w1,
                observed.0,
                observed.1,
                observed.2,
                entries,
                st,
                begun,
                refl,
                noted,
                observe_courses-IsSound b bounds w1,
                m,
                f,
              ))
              (Outcome-returned F _ (
                finishes key (run_status observed.1 scopes)
                  (run_counts observed.1 scopes (content_sum entries) (resource_sum entries))
                  (all_warnings scopes []) (run_category observed.1) st.world)))
