-- ===== src/Sync/Jobs/Planner.antt =====
-- src/ntulearn_skill/sync/jobs.py: `LocalJobPlanner`, the jobs of one resource version or of one
-- structured observation. `identity` is the SHA-256 of a JSON object (`_identity`); the rows that the
-- statements join are given as lists.
use ntulearn_skill.Prelude.{
  ltb, ◌==◌, if◌then◌else◌, value_error, Result, ok, ◌>>=◌, ◌>>◌, raise_if, ℕ, String, Bool, ◌&&◌,
  Option, none, some, List, [], ◌∷◌, ◌==ₛ◌,
}
use ntulearn_skill.Core.Models.{DateTime}
use ntulearn_skill.Parsers.Models.{ParserOptions, canonical_settings}
use ntulearn_skill.Sync.Jobs.{LocalJobKind, LocalJobRecord, Jobs}
use ntulearn_skill.Sync.Jobs.Queue.{schedule}
use ntulearn_skill.Sync.Jobs.Execution.{Contract, or_unsupported, required}
use ntulearn_skill.Prelude.Json.{JsonValue, JsonFields, ℤ}

pub record ResourceJobPlan : Type 0 where
  pub parse : LocalJobRecord
  pub index : LocalJobRecord
  pub extract : LocalJobRecord
  pub reconcile : LocalJobRecord

pub record ObservationJobPlan : Type 0 where
  pub extract : LocalJobRecord
  pub reconcile : LocalJobRecord

-- A resource version, with the course that owns it.
pub record VersionRow : Type 0 where
  pub version_key : ℕ
  pub is_verified : Bool
  pub sha256 : String
  pub file_format : String
  pub course_key : ℕ

-- A structured observation, with the course that owns its source object.
pub record ObservationRow : Type 0 where
  pub observation_key : ℕ
  pub observation_hash : String
  pub source_object_key : ℕ
  pub course_key : ℕ

-- The names and versions that a planner plans for.
pub record PlannerSettings : Type 0 where
  pub parser_for : String → Option Contract
  pub options : ParserOptions
  pub indexer_version : String
  pub extractor_name : String
  pub extractor_version : String
  pub extractor_settings_hash : String
  pub resolver_name : String
  pub resolver_version : String
  pub max_attempts : ℕ

abbrev pub with_text : String → String → JsonFields → JsonFields
with_text k s fields = JsonFields.field k (JsonValue.string s) fields

abbrev pub with_key : String → ℕ → JsonFields → JsonFields
with_key k n fields = JsonFields.field k (JsonValue.int (ℤ.pos n)) fields

unfoldable pub find_version : ℕ → List VersionRow → Option VersionRow
find_version key [] = none
find_version key (row ∷ rows) =
    if (row.version_key == key) && row.is_verified then some row else find_version key rows

unfoldable pub find_observation : ℕ → List ObservationRow → Option ObservationRow
find_observation key [] = none
find_observation key (row ∷ rows) =
    if row.observation_key == key then some row else find_observation key rows

-- `MIN(canonical.observation_key)` over the observations of the same source object and hash.
unfoldable pub canonical_key : ObservationRow → ℕ → List ObservationRow → ℕ
canonical_key o least [] = least
canonical_key o least (row ∷ rows) =
    canonical_key o
      (if (row.source_object_key == o.source_object_key)
          && (row.observation_hash ==ₛ o.observation_hash)
          && ltb row.observation_key least
        then row.observation_key
        else least)
      rows

module _ (settings_hash : ParserOptions → String) (identity : JsonFields → String)
    (s : PlannerSettings) (now : DateTime) where
  abbrev pub queue :
      LocalJobKind → String → JsonFields → Option ℕ → Jobs → Result (LocalJobRecord × Jobs)
  queue kind id payload depends_on rows =
      schedule settings_hash kind id payload depends_on s.max_attempts now rows

  unfoldable pub parse_identity : VersionRow → Contract → String
  parse_identity row parser = identity (
      with_text "kind" "parse" (
        with_key "version_key" row.version_key (
          with_text "resource_sha256" row.sha256 (
            JsonFields.field "parser"
              (JsonValue.object (
                with_text "name" parser.name (
                  with_text "version" parser.version
                    (with_text "engine_version" parser.engine_version JsonFields.end))))
              (with_text "settings_hash" (settings_hash s.options) JsonFields.end)))))

  unfoldable pub parse_payload : VersionRow → Contract → JsonFields
  parse_payload row parser = with_key "version_key" row.version_key (
      with_text "parser_name" parser.name (
        with_text "parser_version" parser.version (
          with_text "engine_version" parser.engine_version (
            with_text "settings_hash" (settings_hash s.options) (
              JsonFields.field "parser_settings" (JsonValue.object (canonical_settings s.options))
                JsonFields.end)))))

  unfoldable pub index_identity : String → String
  index_identity parse = identity (
      with_text "kind" "index" (
        with_text "parse_identity" parse
          (with_text "indexer_version" s.indexer_version JsonFields.end)))

  abbrev pub extractor_fields : JsonFields
  extractor_fields = with_text "extractor_name" s.extractor_name (
      with_text "extractor_version" s.extractor_version
        (with_text "extractor_settings_hash" s.extractor_settings_hash JsonFields.end))

  unfoldable pub extract_identity : String → String
  extract_identity parse =
      identity (with_text "kind" "extract" (with_text "parse_identity" parse extractor_fields))

  abbrev pub resolver_fields : JsonFields
  resolver_fields =
      with_text "resolver_name" s.resolver_name
        (with_text "resolver_version" s.resolver_version JsonFields.end)

  unfoldable pub reconcile_identity : String → ℕ → String → String
  reconcile_identity kind course_key extract = identity (
      with_text "kind" kind
        (with_key "course_key" course_key (with_text "extract_identity" extract resolver_fields)))

  -- The `plan` of `plan_resource`, for the row that was found.
  unfoldable pub plan_version : VersionRow → Jobs → Result (ResourceJobPlan × Jobs)
  unfolding parse_identity parse_payload index_identity extract_identity reconcile_identity
  plan_version row rows = do
    let parser = or_unsupported (s.parser_for row.file_format)
    let parse_id = parse_identity row parser
    let extract_id = extract_identity parse_id
    (parse, rows₁) ← queue LocalJobKind.parse parse_id (parse_payload row parser) none rows
    (index, rows₂) ←
        queue LocalJobKind.index (index_identity parse_id)
          (with_key "version_key" row.version_key
            (with_text "indexer_version" s.indexer_version JsonFields.end))
          (some parse.key) rows₁
    (extract, rows₃) ←
        queue LocalJobKind.extract extract_id
          (with_key "version_key" row.version_key extractor_fields) (some parse.key) rows₂
    (reconcile, rows₄) ←
        queue LocalJobKind.reconcile (reconcile_identity "reconcile" row.course_key extract_id)
          (with_key "course_key" row.course_key resolver_fields) (some extract.key) rows₃
    ok (record { parse = parse; index = index; extract = extract; reconcile = reconcile }, rows₄)

  unfoldable pub plan_resource : ℕ → List VersionRow → Jobs → Result (ResourceJobPlan × Jobs)
  unfolding plan_version find_version
  plan_resource key versions rows = do
    raise_if (key == 0) (value_error "version key must be positive")
    row ←
        required (find_version key versions)
          (value_error "verified resource version does not exist")
    plan_version row rows

  unfoldable pub observation_identity : ObservationRow → String
  observation_identity row = identity (
      with_text "kind" "extract_observation" (
        with_text "observation_hash" row.observation_hash
          (with_key "source_object_key" row.source_object_key extractor_fields)))

  -- The `plan` of `plan_observation`, for the row that was found.
  unfoldable pub plan_found :
      ObservationRow → List ObservationRow → Jobs → Result (ObservationJobPlan × Jobs)
  unfolding canonical_key observation_identity reconcile_identity
  plan_found row observations rows = do
    let extract_id = observation_identity row
    (extract, rows₁) ←
        queue LocalJobKind.extract extract_id
          (with_key "observation_key" (canonical_key row row.observation_key observations)
            extractor_fields)
          none rows
    (reconcile, rows₂) ←
        queue LocalJobKind.reconcile
          (reconcile_identity "reconcile_observation" row.course_key extract_id)
          (with_key "course_key" row.course_key resolver_fields) (some extract.key) rows₁
    ok (record { extract = extract; reconcile = reconcile }, rows₂)

  unfoldable pub plan_observation :
      ℕ → List ObservationRow → Jobs → Result (ObservationJobPlan × Jobs)
  unfolding plan_found find_observation
  plan_observation key observations rows = do
    raise_if (key == 0) (value_error "observation key must be positive")
    row ←
        required (find_observation key observations)
          (value_error "structured source observation does not exist")
    plan_found row observations rows
