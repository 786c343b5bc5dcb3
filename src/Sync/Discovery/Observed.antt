-- ===== src/Sync/Discovery/Observed.antt =====
-- src/ntulearn_skill/sync/discovery.py: what `_courses` and `_target_course` report.
use ntulearn_skill.Prelude.{
  is_none, Bool-cases, length, any, All, length-append, any-append, All-append, Error, err,
  Result-cases, ℕ, ◌≤◌, ◌<◌, String, ◌≡◌, refl, sym, ap, ◌∙◌, ◌⊎◌, inl, inr, true, false, ◌&&◌,
  ◌||◌, Option, none, some, List, [], ◌∷◌, ◌++◌, arith, eq_iff,
}
use ntulearn_skill.Sync.Discovery.Outcomes.{Outcome, >>=-Outcome}
use ntulearn_skill.Core.Models.{is_complete}
use ntulearn_skill.Core.Identifiers.{RemoteId, CourseId, same_id, same_id_iff}
use ntulearn_skill.Client.Errors.{SourceError, Raised, Answer}
use ntulearn_skill.Client.Records.{ReadPurpose, AuthorizedReadSession, CourseSourceRecord}
use ntulearn_skill.Sync.Models.{ScopeResult}
use ntulearn_skill.Sync.Discovery.{
  Progress, no_progress, source_failure, Backend, scope_of, after_raise,
}
use ntulearn_skill.Sync.Discovery.Paging.{Scan, pages}
use ntulearn_skill.Sync.Discovery.Kept.{
  Comparable, no_progress-Healthy, partial-Healthy, source_failure-Comparable,
}
use ntulearn_skill.Sync.Discovery.Rounds.{Kept, Visited, Looped, pages-Looped}
use ntulearn_skill.Sync.Discovery.Courses.{
  valid_course, put_course_now, after_put, course_seen, add_course, visit_course, courses_scope,
  courses_of, keep_target, visit_target, not_observed, persisted, target_scope, target_loop,
  target_course,
}
use ntulearn_skill.Sync.Lifecycle.Checks.{unique}
use mathlib.Core.Path.{subst}

-- Either the coverage is not complete, or it can be relied upon.
abbrev pub Trusted : ScopeResult → Type 0
Trusted r =
    (is_complete r.coverage ≡ false)
    ⊎ ((r.pagination_complete ≡ true)
        × (r.failure_category ≡ none)
        × (r.warnings ≡ [])
        × (0 < r.pages_seen))

pub scope_of-Trusted :
    {W : Type 0} (b : Backend W) (data_kind : String) (course : Option CourseId) (p : Progress)
    (w : W)
    → Comparable p
    → Trusted (scope_of b data_kind course p w)
unfolding scope_of
scope_of-Trusted b data_kind course p w h = elim (Bool-cases (is_complete p.coverage)) [
  | inl e ↦ inr (h e)
  | inr e ↦ inl e
]

pub unique-append :
    (xs : List RemoteId) (x : RemoteId)
    → unique xs ≡ true
    → any (same_id x) xs ≡ false
    → unique (xs ++ x ∷ []) ≡ true
unique-append [] x u e = refl
unique-append (y ∷ ys) x u e = ground (
  arith,
  unique-append ys x,
  any-append (same_id y) ys (x ∷ []),
  eq_iff x.provider y.provider,
  eq_iff x.value y.value,
  eq_iff y.provider x.provider,
  eq_iff y.value x.value,
)

abbrev pub course_ids : List CourseSourceRecord → List CourseId
course_ids [] = []
course_ids (c ∷ cs) = c.remote_id ∷ course_ids cs

course_ids-append :
    (cs : List CourseSourceRecord) (c : CourseSourceRecord)
    → course_ids (cs ++ c ∷ []) ≡ course_ids cs ++ c.remote_id ∷ []
course_ids-append [] c = refl
course_ids-append (d ∷ cs) c = ap (λ l. d.remote_id ∷ l) (course_ids-append cs c)

course_seen-ids :
    (item : CourseSourceRecord) (cs : List CourseSourceRecord)
    → course_seen item cs ≡ any (same_id item.remote_id) (course_ids cs)
course_seen-ids item [] = refl
course_seen-ids item (c ∷ cs) =
    ap (λ t. same_id item.remote_id c.remote_id || t) (course_seen-ids item cs)

not_observed-Comparable :
    (result : Option CourseSourceRecord) (p : Progress)
    → Comparable p
    → Comparable (not_observed result p)
      × ((is_complete (not_observed result p).coverage && is_none result) ≡ false)
      × ((not_observed result p).pages_seen ≡ p.pages_seen)
      × ((not_observed result p).items_seen ≡ p.items_seen)
unfolding not_observed
not_observed-Comparable (some c) p h = (h, ground (arith), refl, refl)
not_observed-Comparable none p h = elim (Bool-cases (is_complete p.coverage)) [
  | inl e ↦ rw (e, not_observed) ((λ e. cc), refl, refl, refl)
  | inr e ↦ rw (e, not_observed) (h, ground (arith), refl, refl)
]

module _ {W : Type 0} (b : Backend W) where
  -- The courses counted are valid and have different identities.
  abbrev pub CoursesObserved : ℕ → ℕ → List CourseSourceRecord → Type 0
  CoursesObserved items resources cs =
      (items ≡ length cs) × (unique (course_ids cs) ≡ true) × All (λ c. valid_course b c ≡ true) cs

  visit_course-Visited :
      (item : CourseSourceRecord) (s : Scan (List CourseSourceRecord) W)
      → Kept CoursesObserved s
      → Visited CoursesObserved s (visit_course b item s)
  unfolding visit_course
  visit_course-Visited item s (h, o) = elim (Bool-cases (valid_course b item)) [
    | inr e ↦ rw (e, visit_course) ((h, o), refl)
    | inl e ↦ elim (Bool-cases (course_seen item s.found)) [
      | inl f ↦ rw (e, f, visit_course) ((partial-Healthy _ _ s.progress, o), refl)
      | inr f ↦ rw (e, f, visit_course) (put e f (put_course_now b item s.world))
    ]
  ]
    where
      put :
          valid_course b item ≡ true
          → course_seen item s.found ≡ false
          → (r : Answer (Unit {0}) × W)
          → Visited CoursesObserved s (after_put (add_course item) s r)
      put e f (Answer.raised r, w) = ((h, o), refl)
      put e f (Answer.returned _, w) =
          let (n, u, v) = o in
          (
            (
              h,
              (
                omega (arith, n, length-append s.found (item ∷ [])),
                subst (λ l. unique l ≡ true) (sym (course_ids-append s.found item))
                    (unique-append (course_ids s.found) item.remote_id u
                      (sym (course_seen-ids item s.found) ∙ f)),
                All-append (λ c. valid_course b c ≡ true) s.found (item ∷ []) v (e, tt),
              ),
            ),
            refl,
          )

  pub after_raise-Trusted :
      (o : Option Raised) (p : Progress) (w : W)
      → (o ≡ none → Comparable p)
      → Comparable (after_raise b o p w).0
        × ((after_raise b o p w).0.pages_seen ≡ p.pages_seen)
        × ((after_raise b o p w).0.items_seen ≡ p.items_seen)
        × ((after_raise b o p w).0.resources_seen ≡ p.resources_seen)
  unfolding after_raise source_failure
  after_raise-Trusted none p w h = (h refl, refl, refl, refl)
  after_raise-Trusted (some (Raised.from_source e)) p w h =
      (source_failure-Comparable e p, refl, refl, refl)
  after_raise-Trusted (some Raised.from_elsewhere) p w h =
      (source_failure-Comparable SourceError.source_unavailable p, refl, refl, refl)

  -- Whatever the source answers, `_courses` counts exactly the courses that it returns, which are valid
  -- and have different identities, and it reads at most `max_pages` pages. A scope whose coverage is
  -- complete has complete pagination, no failure and no warning, and at least one page was read.
  pub courses-observed :
      (session : AuthorizedReadSession) (page_size max_pages : ℕ) (w : W)
      → let (cs, scope, w') = courses_of b session page_size max_pages w in
        CoursesObserved scope.items_seen 0 cs × (scope.pages_seen ≤ max_pages) × Trusted scope
  unfolding courses_of scope_of
  courses-observed session page_size max_pages w =
      reported
        (pages (b.list_courses session) (visit_course b) page_size max_pages none []
          (record { progress = no_progress; found = []; world = w }))
        (pages-Looped CoursesObserved (b.list_courses session) (visit_course b) visit_course-Visited
          page_size max_pages none [] (record { progress = no_progress; found = []; world = w })
          (no_progress-Healthy, (refl, refl, tt)))
    where
      reported :
          (r : Option Raised × Scan (List CourseSourceRecord) W)
          → Looped CoursesObserved max_pages
              (record { progress = no_progress; found = []; world = w })
              r
          → let (cs, scope, w') = courses_scope b r in
            CoursesObserved scope.items_seen 0 cs × (scope.pages_seen ≤ max_pages) × Trusted scope
      reported (o, s) ((h, k), n, c) =
          let (t, e, f, g) = after_raise-Trusted o s.progress s.world c in
          (
            subst (λ n. CoursesObserved n 0 s.found) (sym f) k,
            omega (arith, n, e),
            scope_of-Trusted b "courses" none (after_raise b o s.progress s.world).0
                (after_raise b o s.progress s.world).1 t,
          )

  abbrev pub TargetObserved : CourseId → ℕ → ℕ → Option CourseSourceRecord → Type 0
  TargetObserved course items resources none = items ≡ 0
  TargetObserved course items resources (some c) =
      (items ≡ 1) × (c.remote_id ≡ course) × (valid_course b c ≡ true)

  visit_target-Visited :
      (course : CourseId) (item : CourseSourceRecord) (s : Scan (Option CourseSourceRecord) W)
      → Kept (TargetObserved course) s
      → Visited (TargetObserved course) s (visit_target b course item s)
  unfolding visit_target
  visit_target-Visited course item s (h, o) = elim (Bool-cases (valid_course b item)) [
    | inr e ↦ rw (e, visit_target) ((h, o), refl)
    | inl e ↦ elim (Bool-cases (same_id item.remote_id course)) [
      | inr f ↦ rw (e, f, visit_target) ((h, o), refl)
      | inl f ↦ rw (e, f, visit_target) (put e f (put_course_now b item s.world))
    ]
  ]
    where
      put :
          valid_course b item ≡ true
          → same_id item.remote_id course ≡ true
          → (r : Answer (Unit {0}) × W)
          → Visited (TargetObserved course) s (after_put (keep_target item) s r)
      put e f (Answer.raised r, w) = ((h, o), refl)
      put e f (Answer.returned _, w) =
          ((h, (refl, (same_id_iff item.remote_id course).0 f, e)), refl, λ c. refl)

  -- An error of the repository's look-up of a course.
  abbrev pub LookupRaises : CourseId → Error → Type 0
  LookupRaises course e = (w : W) × (b.has_course course w ≡ err e)

  pub persisted-Outcome :
      (course : CourseId) (w : W)
      → Outcome (LookupRaises course) (λ id. Unit {0}) (persisted b course w)
  persisted-Outcome course w = elim (Result-cases (b.has_course course w)) [
    | inl (known, e) ↦ rw e tt
    | inr (raised, e) ↦ rw e (w, e)
  ]

  -- A scope that is as its coverage says, and the course that was observed.
  abbrev pub TargetScope : CourseId → ℕ → Option CourseSourceRecord × ScopeResult × W → Type 0
  TargetScope course max_pages (c, scope, w) =
      TargetObserved course scope.items_seen 0 c
      × (scope.pages_seen ≤ max_pages)
      × Trusted scope
      × ((is_complete scope.coverage && is_none c) ≡ false)

  -- Whatever the sessions and the source answer, `_target_course` raises nothing but an error of the
  -- repository's look-up of that course, or returns. Then a scope whose coverage is complete comes with
  -- a course, and has complete pagination, no failure and no warning, and read a page. A course that is
  -- returned is valid and the one asked for, and it is the one item counted; without one, no item is
  -- counted. At most `max_pages` pages are read.
  pub target-observed :
      (course : CourseId) (page_size max_pages : ℕ) (w : W)
      → Outcome
          (LookupRaises course)
          (TargetScope course max_pages)
          (target_course b course page_size max_pages w)
  unfolding target_course scope_of
  target-observed course page_size max_pages w =
      reported (target_loop b course page_size max_pages (b.acquire ReadPurpose.discovery w))
        (looped (b.acquire ReadPurpose.discovery w))
    where
      begin : W → Scan (Option CourseSourceRecord) W
      begin w = record { progress = no_progress; found = none; world = w }

      looped :
          (r : Answer AuthorizedReadSession × W)
          → Looped
              (TargetObserved course)
              max_pages
              (begin w)
              (target_loop b course page_size max_pages r)
      looped (Answer.raised r, w) = ((no_progress-Healthy, refl), omega arith, λ e. cc)
      looped (Answer.returned session, w) =
          pages-Looped (TargetObserved course) (b.list_courses session) (visit_target b course)
            (visit_target-Visited course) page_size max_pages none [] (begin w)
            (no_progress-Healthy, refl)

      reported :
          (r : Option Raised × Scan (Option CourseSourceRecord) W)
          → Looped (TargetObserved course) max_pages (begin w) r
          → Outcome (LookupRaises course) (TargetScope course max_pages) (target_scope b course r)
      reported (o, s) ((h, k), n, c) =
          let (t, e, f, g) = after_raise-Trusted o s.progress s.world c in
          let (t', d, e', f') =
            not_observed-Comparable s.found (after_raise b o s.progress s.world).0 t in
          >>=-Outcome (LookupRaises course) (λ id. Unit {0}) (TargetScope course max_pages)
            (persisted b course (after_raise b o s.progress s.world).1) _
            (persisted-Outcome course (after_raise b o s.progress s.world).1)
            (λ id u. (
              subst (λ n. TargetObserved course n 0 s.found) (sym (f' ∙ f)) k,
              omega (arith, n, e, e'),
              scope_of-Trusted b "course_availability" id
                  (not_observed s.found (after_raise b o s.progress s.world).0)
                  (after_raise b o s.progress s.world).1 t',
              d,
            ))
