-- ===== src/Sync/Discovery/Reported.antt =====
-- src/ntulearn_skill/sync/discovery.py and lifecycle.py: what `_content` reports, and that the
-- reconciliation of the inventory can rely on it.
use ntulearn_skill.Prelude.{ok, ℕ, ◌≤◌, ◌≡◌, refl, sym, ◌∙◌, inl, inr, none, some, arith, eq_iff}
use ntulearn_skill.Core.Models.{is_complete}
use ntulearn_skill.Core.Identifiers.{CourseId, same_id_iff}
use ntulearn_skill.Client.Records.{AuthorizedReadSession}
use ntulearn_skill.Sync.Models.{ScopeResult}
use ntulearn_skill.Sync.Discovery.{Backend}
use ntulearn_skill.Sync.Discovery.Paging.{Scan}
use ntulearn_skill.Sync.Discovery.Content.{Tree}
use ntulearn_skill.Sync.Discovery.Walk.{content_of}
use ntulearn_skill.Sync.Discovery.Observed.{Trusted}
use ntulearn_skill.Sync.Discovery.Ending.{ContentObserved, content_of-returns}
use ntulearn_skill.Sync.State.{ScopeKey}
use ntulearn_skill.Sync.Lifecycle.Checks.{validate_scope, is_complete_comparable}

abbrev pub content_key : CourseId → ScopeKey
content_key course = record {
  provider = course.provider;
  course_id = some course;
  data_kind = "content";
  time_window = none;
}

validate_scope-content :
    (course : CourseId) (scope : ScopeResult)
    → (scope.provider ≡ course.provider)
    → (scope.course_id ≡ some course)
    → (scope.data_kind ≡ "content")
    → validate_scope course (content_key course) scope ≡ ok tt
unfolding validate_scope
validate_scope-content course scope p c d =
    rw (p, c, d) ground (arith, same_id_iff course course, eq_iff course.provider course.provider)

is_complete_comparable-Trusted :
    (course : CourseId) (scope : ScopeResult)
    → Trusted scope
    → is_complete_comparable (content_key course) scope ≡ is_complete scope.coverage
unfolding is_complete_comparable
is_complete_comparable-Trusted course scope (inl e) = rw e refl
is_complete_comparable-Trusted course scope (inr (p, f, w, n)) = rw (p, f, w) ground (arith, n)

module _ {W : Type 0} (b : Backend W) where
  -- Whatever the source answers, the loops of `_content` end. The scope counts exactly the nodes and
  -- the resources observed, at most `max_nodes` nodes, after at most `max_pages` pages. The nodes have
  -- different identities and are valid for the course, and each stands after its parent, which is the
  -- root or a container. A scope whose coverage is complete has complete pagination, no failure and no
  -- warning, and at least one page was read.
  pub content-observed :
      (run_key : ℕ) (session : AuthorizedReadSession) (course : CourseId)
      (page_size max_pages max_nodes : ℕ) (w : W)
      → (scope : ScopeResult) × (s : Scan Tree W) × (content_of b run_key session course page_size
            max_pages max_nodes w
          ≡ some (scope, s))
        × ContentObserved course max_nodes scope.items_seen s.progress.resources_seen s.found
        × (scope.pages_seen ≤ max_pages)
        × Trusted scope
  content-observed run_key session course page_size max_pages max_nodes w =
      let (scope, s, e, o, n, t, l) =
        content_of-returns b run_key session course page_size max_pages max_nodes w in
      (scope, s, e, o, n, t)

  -- The reconciliation of a course of the source accepts the scope that `_content` returns for the
  -- course, and it compares inventories exactly when the coverage of the scope is complete.
  pub content-comparable :
      (run_key : ℕ) (session : AuthorizedReadSession) (course : CourseId)
      (page_size max_pages max_nodes : ℕ) (w : W)
      → course.provider ≡ b.provider_name
      → (scope : ScopeResult) × (s : Scan Tree W) × (content_of b run_key session course page_size
            max_pages max_nodes w
          ≡ some (scope, s))
        × (validate_scope course (content_key course) scope ≡ ok tt)
        × (is_complete_comparable (content_key course) scope ≡ is_complete scope.coverage)
  content-comparable run_key session course page_size max_pages max_nodes w p =
      let (scope, s, e, o, n, t, l) =
        content_of-returns b run_key session course page_size max_pages max_nodes w in
      let (q, c, d) = l in
      (
        scope,
        s,
        e,
        validate_scope-content course scope (q ∙ sym p) c d,
        is_complete_comparable-Trusted course scope t,
      )
