-- ===== src/Sync/Discovery/Targeted.antt =====
-- src/ntulearn_skill/sync/discovery.py: what `sync_course` returns.
use ntulearn_skill.Prelude.{
  ◌==◌, Bool-cases, length, All, All-append, Result, ok, ℕ, ◌≤◌, ◌≡◌, refl, sym, ◌⊎◌, inl, inr,
  Bool, true, false, Option, none, some, List, [], ◌∷◌, ◌++◌, arith, eq_iff,
}
use ntulearn_skill.Sync.Discovery.Outcomes.{Outcome, >>=-Outcome, Outcome-imp, Outcome-ok}
use ntulearn_skill.Sync.Discovery.Observed.{
  LookupRaises, persisted-Outcome, TargetScope, target-observed,
}
use ntulearn_skill.Core.Identifiers.{CourseId}
use ntulearn_skill.Client.Contracts.{SourceCapability, CapabilityState}
use ntulearn_skill.Client.Errors.{category_of, safe_source_error_category, Answer}
use ntulearn_skill.Client.Records.{ReadPurpose, AuthorizedReadSession, CourseSourceRecord}
use ntulearn_skill.Sync.Models.{ScopeResult}
use ntulearn_skill.Sync.Discovery.{Backend, is_supported, as_source_error, invalidate_if_expired}
use ntulearn_skill.Sync.Discovery.Courses.{valid_course, persisted, target_course}
use ntulearn_skill.Sync.Discovery.Content.{valid_content}
use ntulearn_skill.Sync.Discovery.Run.{Bounds, check_bounds}
use ntulearn_skill.Sync.Discovery.Ending.{content_of-returns}
use mathlib.Core.Path.{subst}
use ntulearn_skill.Sync.Discovery.Summary.{failed_scope-IsSound, unsupported_scope-IsSound, IsSound}
use ntulearn_skill.Sync.Discovery.Scoped.{
  ScopedDiscoveryResult, availability_if_supported, without_content, course_content_with,
  course_content_if_supported, course_content, after_availability, observe_course, sync_course,
}
use ntulearn_skill.Sync.Discovery.Known.{content_ids, Forest}
use ntulearn_skill.Sync.Lifecycle.Checks.{unique}

-- Sound scopes, and a content tree within the bound that is valid for the course.
abbrev pub IsScoped : CourseId → Bounds → ScopedDiscoveryResult → Type 0
IsScoped course bounds r =
    All (IsSound bounds.max_pages) r.scopes
    × (length r.content ≤ bounds.max_nodes)
    × (unique (content_ids r.content) ≡ true)
    × Forest [] r.content
    × All (λ c. valid_content course c.parent_id c ≡ true) r.content

module _ {W : Type 0} (b : Backend W) (course : CourseId) (bounds : Bounds) where
  Returns : Option CourseSourceRecord → Result (ScopedDiscoveryResult × W) → Type 0
  Returns observed result =
      (r : ScopedDiscoveryResult) × (w : W) × (result ≡ ok (r, w))
      × (r.course ≡ observed)
      × IsScoped course bounds r

  without_content-Returns :
      (observed : Option CourseSourceRecord) (scopes : List ScopeResult) (w : W)
      → All (IsSound bounds.max_pages) scopes
      → Returns observed (without_content b observed scopes w)
  unfolding Returns
  without_content-Returns observed scopes w s = (
    record { course = observed; content = []; resources = []; scopes = scopes },
    w,
    refl,
    refl,
    (s, omega arith, refl, tt, tt),
  )

  course_content_with-Returns :
      (run_key : ℕ) (observed : Option CourseSourceRecord) (scopes : List ScopeResult)
      (a : Answer AuthorizedReadSession × W)
      → All (IsSound bounds.max_pages) scopes
      → Returns observed (course_content_with b run_key course bounds observed scopes a)
  unfolding course_content_with Returns
  course_content_with-Returns run_key observed scopes (Answer.returned session, w) a =
      let (scope, s, e, o, m, t, l) =
        content_of-returns b run_key session course bounds.page_size bounds.max_pages
          bounds.max_nodes w in
      let (i, r, n, u, f, v) = o in
      rw e (
        record {
          course = observed;
          content = s.found.content;
          resources = s.found.resources;
          scopes = scopes ++ scope ∷ [];
        },
        s.world,
        refl,
        refl,
        (
          All-append (IsSound bounds.max_pages) scopes (scope ∷ []) a ((m, t), tt),
          omega (arith, i, n),
          u,
          f,
          v,
        ),
      )
  course_content_with-Returns run_key observed scopes (Answer.raised r, w) a =
      without_content-Returns observed _ _ (
        All-append (IsSound bounds.max_pages) scopes _ a (
          failed_scope-IsSound b "content" (some course)
              (safe_source_error_category (category_of (as_source_error r)))
              (invalidate_if_expired b (as_source_error r) w) bounds.max_pages,
          tt,
        ))

  course_content-Returns :
      (include_content : Bool) (run_key : ℕ) (observed : Option CourseSourceRecord)
      (scopes : List ScopeResult) (w : W)
      → All (IsSound bounds.max_pages) scopes
      → Returns observed (course_content b include_content run_key course bounds observed scopes w)
  unfolding course_content course_content_if_supported
  course_content-Returns false run_key observed scopes w a =
      without_content-Returns observed scopes w a
  course_content-Returns true run_key observed scopes w a =
      supported (b.capability SourceCapability.content_tree w)
    where
      supported :
          (c : Answer CapabilityState × W)
          → Returns observed (course_content_if_supported b run_key course bounds observed scopes c)
      supported (state, w) = elim (Bool-cases (is_supported state)) [
        | inl e ↦ rw e (
            course_content_with-Returns run_key observed scopes (b.acquire ReadPurpose.content w) a)
        | inr e ↦ rw e (
            without_content-Returns observed _ _ (
              All-append (IsSound bounds.max_pages) scopes _ a
                (unsupported_scope-IsSound b "content" (some course) w bounds.max_pages, tt)))
      ]

  -- The course asked for, or none.
  abbrev pub IsTarget : Option CourseSourceRecord → Type 0
  IsTarget none = Unit
  IsTarget (some c) = (c.remote_id ≡ course) × (valid_course b c ≡ true)

  -- What is returned: scopes and content in order, and the course asked for or none.
  abbrev pub IsSynced : ScopedDiscoveryResult × W → Type 0
  IsSynced (r, w) = IsScoped course bounds r × IsTarget r.course

  Returns-IsSynced :
      (observed : Option CourseSourceRecord) (result : Result (ScopedDiscoveryResult × W))
      → IsTarget observed
      → Returns observed result
      → Outcome (LookupRaises b course) IsSynced result
  unfolding Returns
  Returns-IsSynced observed result t (r, w, e, o, d) =
      Outcome-ok (LookupRaises b course) IsSynced result (r, w) e (d, subst IsTarget (sym o) t)

  -- What availability returns: a sound scope, and the course asked for or none.
  IsAvailable : Option CourseSourceRecord × ScopeResult × W → Type 0
  IsAvailable (c, scope, w) = IsTarget c × IsSound bounds.max_pages scope

  after_availability-IsSynced :
      (include_content : Bool) (run_key : ℕ) (a : Option CourseSourceRecord × ScopeResult × W)
      → IsAvailable a
      → Outcome
          (LookupRaises b course)
          IsSynced
          (after_availability b include_content run_key course bounds a)
  unfolding IsAvailable
  after_availability-IsSynced include_content run_key (none, scope, w) (t, s) =
      Returns-IsSynced none _ tt (without_content-Returns none (scope ∷ []) w (s, tt))
  after_availability-IsSynced include_content run_key (some c, scope, w) (t, s) =
      Returns-IsSynced (some c) _ t
        (course_content-Returns include_content run_key (some c) (scope ∷ []) w (s, tt))

  target-IsAvailable :
      (a : Option CourseSourceRecord × ScopeResult × W)
      → TargetScope b course bounds.max_pages a
      → IsAvailable a
  unfolding IsAvailable
  target-IsAvailable (none, scope, w) (o, n, t, d) = (tt, (n, t))
  target-IsAvailable (some c, scope, w) (o, n, t, d) = ((o.1, o.2), (n, t))

  available :
      (a : Answer CapabilityState × W)
      → Outcome (LookupRaises b course) IsAvailable (availability_if_supported b course bounds a)
  unfolding availability_if_supported IsAvailable
  available (state, w) = elim (Bool-cases (is_supported state)) [
    | inl e ↦
        rw (e, availability_if_supported)
          (Outcome-imp (LookupRaises b course) (TargetScope b course bounds.max_pages) IsAvailable
            (target_course b course bounds.page_size bounds.max_pages w) target-IsAvailable
            (target-observed b course bounds.page_size bounds.max_pages w))
    | inr e ↦
        rw (e, availability_if_supported)
          (>>=-Outcome (LookupRaises b course) (λ id. Unit {0}) IsAvailable (persisted b course w) _
            (persisted-Outcome b course w)
            (λ id u. (tt, unsupported_scope-IsSound b "course_availability" id w bounds.max_pages)))
  ]

  -- `sync_course` of a run with a positive key, for a course of the source, with bounds in order, and
  -- with the availability to be observed or the course known, raises nothing but an error of the
  -- repository's look-up of that course, or returns, whatever the source answers. The scopes are then
  -- within the bound on pages, and a complete one has complete pagination, no failure and no warning,
  -- and read a page. The content is a tree of at most `max_nodes` nodes with different identities,
  -- valid for the course, each after its parent. A course that is returned is valid and the one asked
  -- for.
  pub sync_course-returns :
      (run_key : ℕ) (include_availability include_content : Bool) (w : W)
      → (run_key == 0) ≡ false
      → course.provider ≡ b.provider_name
      → check_bounds bounds ≡ ok tt
      → (include_availability ≡ true) ⊎ (b.has_course course w ≡ ok true)
      → Outcome
          (LookupRaises b course)
          IsSynced
          (sync_course b run_key course include_availability include_content bounds w)
  unfolding sync_course observe_course
  sync_course-returns run_key false include_content w z p c (inl k) = absurd (ground arith)
  sync_course-returns run_key false include_content w z p c (inr k) =
      rw (z, (eq_iff course.provider b.provider_name).1 p, c, k)
        (Returns-IsSynced none _ tt (course_content-Returns include_content run_key none [] w tt))
  sync_course-returns run_key true include_content w z p c k =
      rw (z, (eq_iff course.provider b.provider_name).1 p, c)
        (>>=-Outcome (LookupRaises b course) IsAvailable IsSynced _ _
          (available (b.capability SourceCapability.course_discovery w))
          (λ a t. after_availability-IsSynced include_content run_key a t))
