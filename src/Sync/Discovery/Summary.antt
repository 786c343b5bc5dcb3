-- ===== src/Sync/Discovery/Summary.antt =====
-- src/ntulearn_skill/sync/discovery.py: the scopes of `DiscoverySync.run`, and what it does about the
-- recorder's errors.
use ntulearn_skill.Prelude.{Bool-cases, ℕ, ◌≤◌, String, refl, inl, inr, Option, none, arith}
use ntulearn_skill.Core.Identifiers.{CourseId}
use ntulearn_skill.Client.Contracts.{SourceCapability, CapabilityState}
use ntulearn_skill.Client.Errors.{category_of, safe_source_error_category, Answer}
use ntulearn_skill.Client.Records.{ReadPurpose, AuthorizedReadSession}
use ntulearn_skill.Sync.Models.{ScopeResult}
use ntulearn_skill.Sync.Discovery.{
  Backend, is_supported, as_source_error, failed_scope, unsupported_scope, invalidate_if_expired,
}
use ntulearn_skill.Sync.Discovery.Run.{Bounds, courses_with, courses_if_supported, observe_courses}
use ntulearn_skill.Sync.Discovery.Observed.{Trusted, courses-observed}

-- A scope that is within its bound on pages, and that can be trusted when its coverage is complete.
abbrev pub IsSound : ℕ → ScopeResult → Type 0
IsSound max_pages scope = (scope.pages_seen ≤ max_pages) × Trusted scope

pub failed_scope-IsSound :
    {W : Type 0} (b : Backend W) (data_kind : String) (course : Option CourseId) (category : String)
    (w : W) (max_pages : ℕ)
    → IsSound max_pages (failed_scope b data_kind course category w)
unfolding failed_scope
failed_scope-IsSound b data_kind course category w max_pages = (omega arith, inl refl)

pub unsupported_scope-IsSound :
    {W : Type 0} (b : Backend W) (data_kind : String) (course : Option CourseId) (w : W)
    (max_pages : ℕ)
    → IsSound max_pages (unsupported_scope b data_kind course w)
unfolding unsupported_scope
unsupported_scope-IsSound b data_kind course w max_pages = (omega arith, inl refl)

module _ {W : Type 0} (b : Backend W) where
  pub observe_courses-IsSound :
      (bounds : Bounds) (w : W) → IsSound bounds.max_pages (observe_courses b bounds w).1
  unfolding observe_courses courses_if_supported courses_with
  observe_courses-IsSound bounds w = supported (b.capability SourceCapability.course_discovery w)
    where
      acquired :
          (a : Answer AuthorizedReadSession × W)
          → IsSound bounds.max_pages (courses_with b bounds a).1
      acquired (Answer.returned session, w) =
          let (o, n, t) = courses-observed b session bounds.page_size bounds.max_pages w in (n, t)
      acquired (Answer.raised r, w) =
          failed_scope-IsSound b "courses" none
            (safe_source_error_category (category_of (as_source_error r)))
            (invalidate_if_expired b (as_source_error r) w) bounds.max_pages

      supported :
          (a : Answer CapabilityState × W)
          → IsSound bounds.max_pages (courses_if_supported b bounds a).1
      supported (state, w) = elim (Bool-cases (is_supported state)) [
        | inl e ↦ rw e (acquired (b.acquire ReadPurpose.discovery w))
        | inr e ↦ rw e (unsupported_scope-IsSound b "courses" none w bounds.max_pages)
      ]
