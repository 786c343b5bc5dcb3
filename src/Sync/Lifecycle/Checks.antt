-- ===== src/Sync/Lifecycle/Checks.antt =====
-- src/ntulearn_skill/sync/lifecycle.py: the checks of `ResourceInventoryReconciler.reconcile`. Checks of
-- types hold by the types here.
use ntulearn_skill.Prelude.{
  ltb, ◌==◌, if◌then◌else◌, is_none, length, any, contains, value_error, Result, ok, err, ◌>>=◌,
  ◌>>◌, raise_if, ℕ, String, Bool, true, false, ◌&&◌, ◌||◌, not, Option, none, some, List, [], ◌∷◌,
  ◌==ₛ◌,
}
use ntulearn_skill.Core.Models.{Coverage, is_complete}
use ntulearn_skill.Core.Identifiers.{RemoteId, CourseId, same_id}
use ntulearn_skill.Sync.Models.{ScopeResult}
use ntulearn_skill.Sync.State.{ScopeKey}
use ntulearn_skill.Sync.Lifecycle.{Course, ContentNode, Resource, RecordedScope, Tables}

abbrev pub is_course : CourseId → Option CourseId → Bool
is_course course none = false
is_course course (some c) = same_id c course

-- `_validate_scope`; the types that it checks hold here by themselves.
unfoldable pub validate_scope : CourseId → ScopeKey → ScopeResult → Result (Unit {0})
validate_scope course scope result =
    raise_if
      (not (course.provider ==ₛ scope.provider)
        || not (is_course course scope.course_id)
        || not (scope.data_kind ==ₛ "content")
        || not (result.provider ==ₛ course.provider)
        || not (is_course course result.course_id)
        || not (result.data_kind ==ₛ "content"))
      (value_error "inventory scope does not match the course")

abbrev pub is_empty {ℓ} : {A : Type ℓ} → List A → Bool
is_empty [] = true
is_empty (_ ∷ _) = false

-- `_is_complete_comparable`
unfoldable pub is_complete_comparable : ScopeKey → ScopeResult → Bool
is_complete_comparable scope result =
    is_none scope.time_window
    && is_complete result.coverage
    && result.pagination_complete
    && ltb 0 result.pages_seen
    && is_none result.failure_category
    && is_empty result.warnings

abbrev pub unique : List RemoteId → Bool
unique [] = true
unique (x ∷ xs) = not (any (same_id x) xs) && unique xs

-- `_typed_ids`
unfoldable pub typed_ids : List RemoteId → String → Result (List RemoteId)
typed_ids values provider = do
  raise_if (ltb 100000 (length values))
      (value_error "inventory exceeds the configured entity bound")
  raise_if (any (λ v. not (v.provider ==ₛ provider)) values)
      (value_error "inventory identifiers use the wrong type or provider")
  raise_if (not (unique values)) (value_error "inventory identifiers must be unique")
  ok values

-- `_course_key`
unfoldable pub course_key : CourseId → List Course → Result ℕ
course_key course [] = err (value_error "inventory course has not been observed")
course_key course (c ∷ cs) = if same_id c.id course then ok c.key else course_key course cs

abbrev pub same_key? : Option ℕ → ℕ → Bool
same_key? none key = false
same_key? (some k) key = k == key

abbrev pub same_coverage : Coverage → Coverage → Bool
same_coverage Coverage.complete Coverage.complete = true
same_coverage Coverage.partial Coverage.partial = true
same_coverage Coverage.stale Coverage.stale = true
same_coverage Coverage.unknown Coverage.unknown = true
same_coverage Coverage.failed Coverage.failed = true
same_coverage _ _ = false

abbrev pub same_flag : Bool → Bool → Bool
same_flag true b = b
same_flag false b = not b

abbrev pub same_category : Option String → Option String → Bool
same_category none none = true
same_category (some a) (some b) = a ==ₛ b
same_category _ _ = false

abbrev pub scope_agrees : ℕ → ScopeResult → RecordedScope → Bool
scope_agrees key result row =
    (row.provider ==ₛ result.provider)
    && same_key? row.course_key key
    && not row.is_windowed
    && same_coverage row.coverage result.coverage
    && same_flag row.pagination_complete result.pagination_complete
    && (row.pages_seen == result.pages_seen)
    && (row.items_seen == result.items_seen)
    && same_category row.failure_category result.failure_category
    && (row.observed_at == result.observed_at)

-- `_validate_persisted_scope`: a run that recorded content scopes recorded this one.
unfoldable pub validate_persisted_scope :
    ℕ → ℕ → ScopeResult → List RecordedScope → Result (Unit {0})
validate_persisted_scope run key result scopes =
    raise_if
      (any (λ s. s.run_key == run) scopes
        && not (any (λ s. (s.run_key == run) && scope_agrees key result s) scopes))
      (value_error "inventory scope does not match the recorded sync run")

unfoldable pub find_content : ℕ → List ContentNode → Option ContentNode
find_content key [] = none
find_content key (n ∷ ns) = if n.key == key then some n else find_content key ns

abbrev pub content_in : ℕ → Option ContentNode → Bool
content_in key none = false
content_in key (some n) = n.course_key == key

unfoldable pub resource_by_id : RemoteId → List Resource → Option Resource
resource_by_id id [] = none
resource_by_id id (r ∷ rs) = if same_id r.id id then some r else resource_by_id id rs

unfoldable pub content_by_id : RemoteId → List ContentNode → Option ContentNode
content_by_id id [] = none
content_by_id id (n ∷ ns) = if same_id n.id id then some n else content_by_id id ns

-- `_validate_resource_ownership`: the seen resources, which belong to the course.
unfoldable pub owned_resources : List RemoteId → ℕ → Tables → Result (List Resource)
owned_resources [] key t = ok []
owned_resources (id ∷ ids) key t =
    let rest = owned_resources ids key t in
    elim (resource_by_id id t.resources) [
      | none ↦ err (value_error "seen resource does not belong to the inventory course")
      | some r ↦ do
        raise_if (not (content_in key (find_content r.content_key t.contents)))
            (value_error "seen resource does not belong to the inventory course")
        rs ← rest
        ok (r ∷ rs)
    ]

-- `_validate_content_ownership`: the keys of the seen content nodes, which belong to the course.
unfoldable pub owned_contents : List RemoteId → ℕ → Tables → Result (List ℕ)
owned_contents [] key t = ok []
owned_contents (id ∷ ids) key t =
    let rest = owned_contents ids key t in
    elim (content_by_id id t.contents) [
      | none ↦ err (value_error "seen content does not belong to the inventory course")
      | some n ↦ do
        raise_if (not (n.course_key == key))
            (value_error "seen content does not belong to the inventory course")
        ks ← rest
        ok (n.key ∷ ks)
    ]

-- `_validate_seen_relationships`
unfoldable pub validate_relationships : List Resource → List ℕ → Result (Unit {0})
validate_relationships resources contents =
    raise_if (any (λ (r : Resource). not (contains r.content_key contents)) resources)
      (value_error "seen resources require their parent content in the inventory")
