-- ===== src/Sync/Discovery/Kept.antt =====
-- src/ntulearn_skill/sync/discovery.py: what every round of a paging loop keeps.
use ntulearn_skill.Prelude.{Bool-cases, ◌<◌, String, ◌≡◌, refl, ap, inl, inr, true, none, [], arith}
use ntulearn_skill.Core.Models.{Coverage, is_complete}
use ntulearn_skill.Client.Errors.{SourceError, Answer}
use ntulearn_skill.Sync.Models.{SyncWarning}
use ntulearn_skill.Sync.Discovery.{
  Progress, no_progress, partial, source_failure, merge_page_coverage,
}
use ntulearn_skill.Sync.Discovery.Paging.{finished}
use mathlib.Core.Path.{subst}

-- As long as the coverage is complete, nothing was reported.
abbrev pub Healthy : Progress → Type 0
Healthy p = is_complete p.coverage ≡ true → (p.failure_category ≡ none) × (p.warnings ≡ [])

-- What a complete coverage has to mean for a comparison of inventories.
abbrev pub Comparable : Progress → Type 0
Comparable p =
    is_complete p.coverage ≡ true
    → (p.pagination_complete ≡ true)
      × (p.failure_category ≡ none)
      × (p.warnings ≡ [])
      × (0 < p.pages_seen)

abbrev pub Ended : Progress → Type 0
Ended p = is_complete p.coverage ≡ true → p.pagination_complete ≡ true

pub no_progress-Healthy : Healthy no_progress
no_progress-Healthy e = (refl, refl)

pub partial-Healthy :
    (category : String) (w : SyncWarning) (p : Progress) → Healthy (partial category w p)
partial-Healthy category w p e = cc

pub partial-Comparable :
    (category : String) (w : SyncWarning) (p : Progress) → Comparable (partial category w p)
partial-Comparable category w p e = cc

pub source_failure-Comparable : (e : SourceError) (p : Progress) → Comparable (source_failure e p)
unfolding source_failure
source_failure-Comparable e p h = ground (arith)

pub finished-Comparable : (p : Progress) → Healthy p → 0 < p.pages_seen → Comparable (finished p)
finished-Comparable p h k e = let (f, w) = h e in (refl, f, w, k)

answer : Progress → Answer Progress → Progress
answer p (Answer.returned q) = q
answer p (Answer.raised r) = p

merged :
    (c : Coverage) (p : Progress)
    → Healthy p
    → let q = answer p (merge_page_coverage c p) in
      Healthy q
      × (q.pages_seen ≡ p.pages_seen)
      × (q.items_seen ≡ p.items_seen)
      × (q.resources_seen ≡ p.resources_seen)
unfolding merge_page_coverage answer
merged Coverage.complete p h = (h, refl, refl, refl)
merged Coverage.partial p h = ((λ e. cc), refl, refl, refl)
merged Coverage.unknown p h = elim (Bool-cases (is_complete p.coverage)) [
  | inl e ↦ rw e ((λ e. cc), refl, refl, refl)
  | inr e ↦ rw e (h, refl, refl, refl)
]
merged Coverage.stale p h = (h, refl, refl, refl)
merged Coverage.failed p h = (h, refl, refl, refl)

pub merge-Healthy :
    (c : Coverage) (p q : Progress)
    → merge_page_coverage c p ≡ Answer.returned q
    → Healthy p
    → Healthy q
      × (q.pages_seen ≡ p.pages_seen)
      × (q.items_seen ≡ p.items_seen)
      × (q.resources_seen ≡ p.resources_seen)
unfolding merge_page_coverage answer
merge-Healthy c p q e h =
    subst
      (λ q.
        Healthy q
        × (q.pages_seen ≡ p.pages_seen)
        × (q.items_seen ≡ p.items_seen)
        × (q.resources_seen ≡ p.resources_seen))
      (ap (answer p) e) (merged c p h)
