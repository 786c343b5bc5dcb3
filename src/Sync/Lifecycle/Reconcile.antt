-- ===== src/Sync/Lifecycle/Reconcile.antt =====
-- src/ntulearn_skill/sync/lifecycle.py: `ResourceInventoryReconciler.reconcile`, from its checks to its
-- result. One that raises has rolled its transaction back, so it returns no tables.
use ntulearn_skill.Prelude.{
  ltb, ◌==◌, if◌then◌else◌, length, contains, value_error, Result, ok, ◌>>=◌, ◌>>◌, raise_if, ℕ,
  Bool, true, false, not, Option, none, some, List, [], ◌∷◌, ◌++◌, map,
}
use ntulearn_skill.Core.Identifiers.{RemoteId, CourseId}
use ntulearn_skill.Sync.Models.{ScopeResult}
use ntulearn_skill.Sync.State.{ScopeKey}
use ntulearn_skill.Sync.Lifecycle.{
  LifecycleWarning, InventoryReconciliationResult, ContentNode, Resource, Observation, Tables,
  ResourceRow,
}
use ntulearn_skill.Sync.Lifecycle.Loop.{Progress, before, visit_all}
use ntulearn_skill.Sync.Lifecycle.Checks.{
  course_key, find_content, is_complete_comparable, owned_contents, owned_resources, typed_ids,
  validate_persisted_scope, validate_relationships, validate_scope,
}

-- The latest observation of a resource: by time, then run, then place in the table.
unfoldable pub latest : ℕ → Option Observation → List Observation → Option Observation
latest key best [] = best
latest key best (o ∷ os) =
    latest key
      (if o.resource_key == key
        then elim best [
          | none ↦ some o
          | some b ↦
              if before o.observed_at o.run_key b.observed_at b.run_key then some b else some o
        ]
        else best)
      os

abbrev pub row_of : Resource → Option ContentNode → Option Observation → ℕ → List ResourceRow
row_of r none o key = []
row_of r (some n) none key = []
row_of r (some n) (some o) key =
    if n.course_key == key
    then record {
      key = r.key;
      availability = r.availability;
      parent_availability = n.availability;
      evidence = o.evidence;
    }
      ∷ []
    else []

-- `_resources`: the resources of the course that have been observed, in the order of their keys.
unfoldable pub course_resources : ℕ → Tables → List Resource → List ResourceRow
unfolding find_content latest
course_resources key t [] = []
course_resources key t (r ∷ rs) =
    row_of r (find_content r.content_key t.contents) (latest r.key none t.observations) key
    ++ course_resources key t rs

abbrev pub warn : Bool → LifecycleWarning → List LifecycleWarning
warn true w = w ∷ []
warn false w = []

abbrev pub start : Tables → Progress
start t = record {
  resources = t.resources;
  observations = t.observations;
  missing = 0;
  uncertain = 0;
  candidates = 0;
  unavailable_parent = false;
}

abbrev pub result_of : Bool → Progress → InventoryReconciliationResult
result_of comparable p = record {
  resources_marked_missing = p.missing;
  uncertainty_observations = p.uncertain;
  removal_candidates = p.candidates;
  warning_codes =
      warn (not comparable) LifecycleWarning.incomplete_inventory_preserved
      ++ (warn p.unavailable_parent LifecycleWarning.unavailable_parent_preserved
          ++ warn (ltb 0 p.candidates) LifecycleWarning.removal_candidate);
}

-- What the checks of the arguments and of the tables leave for the loop: its rows and the seen keys.
unfoldable pub prepare :
    ℕ
    → CourseId
    → ScopeResult
    → List RemoteId
    → ScopeKey
    → List RemoteId
    → Tables
    → Result (List ResourceRow × List ℕ)
prepare run course result seen_resources scope seen_content t = do
  raise_if (run == 0) (value_error "run_key must be a positive integer")
  validate_scope course scope result
  resource_ids ← typed_ids seen_resources course.provider
  content_ids ← typed_ids seen_content course.provider
  raise_if (not (length content_ids == result.items_seen))
      (value_error "seen content does not match the scope item count")
  key ← course_key course t.courses
  raise_if (not (contains run t.runs)) (value_error "inventory sync run does not exist")
  validate_persisted_scope run key result t.scopes
  resources ← owned_resources resource_ids key t
  contents ← owned_contents content_ids key t
  validate_relationships resources contents
  ok (course_resources key t t.resources, map (λ (r : Resource). r.key) resources)

unfoldable pub reconcile :
    ℕ
    → CourseId
    → ScopeResult
    → List RemoteId
    → ScopeKey
    → List RemoteId
    → Tables
    → Result (InventoryReconciliationResult × Tables)
reconcile run course result seen_resources scope seen_content t = do
  (rows, seen) ← prepare run course result seen_resources scope seen_content t
  let comparable = is_complete_comparable scope result
  let p = visit_all comparable run result.observed_at seen rows (start t)
  ok (result_of comparable p, record t { resources = p.resources; observations = p.observations })
