-- ===== src/Sync/Lifecycle/Effects.antt =====
-- What `ResourceInventoryReconciler.reconcile` (src/ntulearn_skill/sync/lifecycle.py) leaves behind once
-- its checks have passed.
use ntulearn_skill.Prelude.{All, ok, ℕ, ◌≡◌, refl, false, List, ◌∷◌, ◌++◌}
use ntulearn_skill.Core.Identifiers.{RemoteId, CourseId}
use ntulearn_skill.Sync.Models.{ScopeResult}
use ntulearn_skill.Sync.State.{ScopeKey}
use ntulearn_skill.Sync.Lifecycle.{
  LifecycleWarning, InventoryReconciliationResult, Observation, Tables, ResourceRow,
}
use ntulearn_skill.Sync.Lifecycle.Loop.{Progress, visit_all}
use ntulearn_skill.Sync.Lifecycle.Preservation.{
  AllKept, IsOmission, visit_all-Extends, visit_all-IsUncertain,
}
use ntulearn_skill.Sync.Lifecycle.Reconcile.{start, result_of, prepare, reconcile}
use ntulearn_skill.Sync.Lifecycle.Checks.{is_complete_comparable}

-- The loop's outcome for the rows and seen keys of an inventory.
abbrev outcome : ℕ → ScopeResult → ScopeKey → List ResourceRow → List ℕ → Tables → Progress
outcome run result scope rows seen t =
    visit_all (is_complete_comparable scope result) run result.observed_at seen rows (start t)

abbrev after : Progress → Tables → Tables
after p t = record t { resources = p.resources; observations = p.observations }

module _ (run : ℕ) (course : CourseId) (result : ScopeResult) (resources : List RemoteId)
    (scope : ScopeKey) (contents : List RemoteId) (t : Tables) (rows : List ResourceRow)
    (seen : List ℕ)
    (prepared : prepare run course result resources scope contents t ≡ ok (rows, seen)) where
  reconcile-ok :
      reconcile run course result resources scope contents t
      ≡ ok (
        result_of (is_complete_comparable scope result) (outcome run result scope rows seen t),
        after (outcome run result scope rows seen t) t,
      )
  unfolding reconcile
  reconcile-ok = rw prepared refl

  -- An inventory that passes the checks is reconciled. Each resource stays as it was, or becomes
  -- missing, and then its key is not among the seen ones and its removal was not confirmed; the
  -- observations stay, and those added behind them are of this run and time, as not observed or
  -- unknown.
  pub reconcile-AllKept :
      (summary : InventoryReconciliationResult) × (next : Tables) × (reconcile run course result
          resources scope contents t
        ≡ ok (summary, next))
      × AllKept seen t.resources next.resources
      × ((added : List Observation) × (next.observations ≡ t.observations ++ added)
          × All (IsOmission run result.observed_at) added)
  reconcile-AllKept =
      let comparable = is_complete_comparable scope result in
      let p = outcome run result scope rows seen t in
      let e = visit_all-Extends comparable run result.observed_at seen rows (start t) in
      (
        result_of comparable p,
        after p t,
        reconcile-ok,
        e.kept,
        (e.added, e.observations, e.omissions),
      )

-- An inventory that passes the checks but is not complete and comparable (a time window, partial
-- coverage, unfinished or no pages, a failure or a warning) is reconciled without a change to the
-- resources: none is marked missing, none is a candidate for removal, and the warnings begin with
-- the one for an incomplete inventory.
pub reconcile-incomplete :
    (run : ℕ) (course : CourseId) (result : ScopeResult) (resources : List RemoteId)
    (scope : ScopeKey) (contents : List RemoteId) (t : Tables) (rows : List ResourceRow)
    (seen : List ℕ)
    → prepare run course result resources scope contents t ≡ ok (rows, seen)
    → is_complete_comparable scope result ≡ false
    → (summary : InventoryReconciliationResult) × (next : Tables) × (reconcile run course result
          resources scope contents t
        ≡ ok (summary, next))
      × (next.resources ≡ t.resources)
      × (summary.resources_marked_missing ≡ 0)
      × (summary.removal_candidates ≡ 0)
      × ((codes : List LifecycleWarning) × (summary.warning_codes
            ≡ LifecycleWarning.incomplete_inventory_preserved ∷ codes))
reconcile-incomplete run course result resources scope contents t rows seen prepared partial =
    let p = visit_all false run result.observed_at seen rows (start t) in
    let u = visit_all-IsUncertain run result.observed_at seen rows (start t) in
    (
      result_of false p,
      after p t,
      rw (reconcile-ok run course result resources scope contents t rows seen prepared, partial)
          refl,
      u.resources,
      u.missing,
      u.candidates,
      (_, refl),
    )
