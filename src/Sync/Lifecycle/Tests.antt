-- ===== src/Sync/Lifecycle/Tests.antt =====
-- A concrete course inventory, for the theorems on src/ntulearn_skill/sync/lifecycle.py.
use ntulearn_skill.Prelude.{
  All, ok, ℕ, String, ◌≡◌, refl, true, false, none, some, List, [], ◌∷◌, ◌++◌,
}
use ntulearn_skill.Core.Models.{Availability, Coverage, ObservationStatus, FetchDecision}
use ntulearn_skill.Core.Identifiers.{RemoteId}
use ntulearn_skill.Sync.Models.{ScopeResult}
use ntulearn_skill.Sync.Lifecycle.{
  LifecycleWarning, InventoryReconciliationResult, Evidence, Observation, Tables, ResourceRow,
}
use ntulearn_skill.Sync.Lifecycle.Loop.{is_skipped, visit_all}
use ntulearn_skill.Sync.Lifecycle.Preservation.{AllKept, IsOmission}
use ntulearn_skill.Sync.Lifecycle.Replay.{is_passed, visit_all_idem}
use ntulearn_skill.Sync.Lifecycle.Marking.{is_settled, visit_all-settled}
use ntulearn_skill.Sync.Lifecycle.Reconcile.{latest, course_resources, start, prepare, reconcile}
use ntulearn_skill.Sync.Lifecycle.Checks.{
  validate_scope, is_complete_comparable, typed_ids, course_key, validate_persisted_scope,
  find_content, resource_by_id, content_by_id, owned_resources, owned_contents,
  validate_relationships,
}
use ntulearn_skill.Sync.Lifecycle.Effects.{reconcile-AllKept, reconcile-incomplete}
use ntulearn_skill.Sync.State.Tests.{scope_of}

abbrev id : String → RemoteId
id value = record { provider = "ntulearn"; value = value }

abbrev evidence : Evidence
evidence = record {
  original_filename = "notes.pdf";
  sanitized_metadata = "{}";
  metadata_fingerprint = "f";
  candidate_modified_at = none;
  candidate_revision = none;
}

abbrev observed : ℕ → Observation
observed key = record {
  resource_key = key;
  run_key = 1;
  status = ObservationStatus.observed;
  evidence = evidence;
  availability = Availability.active;
  observed_at = 100;
  fetch_decision = FetchDecision.deferred;
  version_key = none;
}

-- Two resources under one content node, both observed by the first run.
abbrev tables : Tables
tables = record {
  courses = record { key = 1; id = id "_1_1" } ∷ [];
  runs = 1 ∷ 2 ∷ [];
  scopes = [];
  contents =
      record { key = 1; id = id "_2_1"; course_key = 1; availability = Availability.active } ∷ [];
  resources =
      record { key = 1; id = id "a"; content_key = 1; availability = Availability.active }
      ∷ record { key = 2; id = id "b"; content_key = 1; availability = Availability.active }
      ∷ [];
  observations = observed 1 ∷ observed 2 ∷ [];
}

abbrev scope_result : Coverage → ScopeResult
scope_result coverage = record {
  provider = "ntulearn";
  course_id = some (id "_1_1");
  data_kind = "content";
  coverage = coverage;
  pages_seen = 1;
  items_seen = 1;
  pagination_complete = true;
  failure_category = none;
  warnings = [];
  observed_at = 200;
}

abbrev row : ℕ → ResourceRow
row key = record {
  key = key;
  availability = Availability.active;
  parent_availability = Availability.active;
  evidence = evidence;
}

abbrev rows : List ResourceRow
rows = row 1 ∷ row 2 ∷ []

-- The second run sees the first resource only.
prepared :
    (coverage : Coverage)
    → prepare 2
        (id "_1_1")
        (scope_result coverage)
        (id "a" ∷ [])
        (scope_of "content")
        (id "_2_1" ∷ [])
        tables
      ≡ ok (rows, 1 ∷ [])
unfolding prepare validate_scope typed_ids course_key validate_persisted_scope owned_resources
    owned_contents validate_relationships course_resources resource_by_id find_content content_by_id
    latest
prepared coverage = refl

reconcile-AllKept_example :
    (summary : InventoryReconciliationResult) × (next : Tables) × (reconcile 2
        (id "_1_1")
        (scope_result Coverage.complete)
        (id "a" ∷ [])
        (scope_of "content")
        (id "_2_1" ∷ [])
        tables
      ≡ ok (summary, next))
    × AllKept (1 ∷ []) tables.resources next.resources
    × ((added : List Observation) × (next.observations ≡ tables.observations ++ added)
        × All (IsOmission 2 200) added)
reconcile-AllKept_example =
    reconcile-AllKept 2 (id "_1_1") (scope_result Coverage.complete) (id "a" ∷ [])
      (scope_of "content") (id "_2_1" ∷ []) tables rows (1 ∷ []) (prepared Coverage.complete)

not_comparable : is_complete_comparable (scope_of "content") (scope_result Coverage.partial) ≡ false
unfolding is_complete_comparable
not_comparable = refl

reconcile-incomplete_example :
    (summary : InventoryReconciliationResult) × (next : Tables) × (reconcile 2
        (id "_1_1")
        (scope_result Coverage.partial)
        (id "a" ∷ [])
        (scope_of "content")
        (id "_2_1" ∷ [])
        tables
      ≡ ok (summary, next))
    × (next.resources ≡ tables.resources)
    × (summary.resources_marked_missing ≡ 0)
    × (summary.removal_candidates ≡ 0)
    × ((codes : List LifecycleWarning) × (summary.warning_codes
          ≡ LifecycleWarning.incomplete_inventory_preserved ∷ codes))
reconcile-incomplete_example =
    reconcile-incomplete 2 (id "_1_1") (scope_result Coverage.partial) (id "a" ∷ [])
      (scope_of "content") (id "_2_1" ∷ []) tables rows (1 ∷ []) (prepared Coverage.partial)
      not_comparable

visit_all_idem_example :
    visit_all true 2 200 (1 ∷ []) rows (visit_all true 2 200 (1 ∷ []) rows (start tables))
    ≡ visit_all true 2 200 (1 ∷ []) rows (start tables)
visit_all_idem_example = visit_all_idem true 2 200 (1 ∷ []) rows (start tables)

unseen : is_passed true 2 200 (1 ∷ []) (start tables) (row 2) ≡ false
unfolding is_skipped
unseen = refl

visit_all-settled_example :
    All
      (λ r.
        is_settled 2 2 200
          (visit_all true 2 200 (1 ∷ []) (row 2 ∷ []) (start tables)).observations
          r
        ≡ true)
      (visit_all true 2 200 (1 ∷ []) (row 2 ∷ []) (start tables)).resources
visit_all-settled_example = visit_all-settled 2 200 (1 ∷ []) (row 2) [] (start tables) unseen refl
