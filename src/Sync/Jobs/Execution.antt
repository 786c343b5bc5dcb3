-- ===== src/Sync/Jobs/Execution.antt =====
-- src/ntulearn_skill/sync/jobs.py: `LocalJobRunner._execute`, against the services that do the work.
-- A service is an interface: it reads or changes a world, and returns or raises.
use ntulearn_skill.Prelude.{
  ◌==◌, if◌then◌else◌, is_some, Error, local_job_error, local_job_contract_mismatch, Result, ok,
  err, ◌>>=◌, ◌>>◌, raise_if, ℕ, String, Bool, false, ◌&&◌, ◌||◌, not, Option, none, some, [], ◌∷◌,
  ◌==ₛ◌,
}
use ntulearn_skill.Core.Identifiers.{CourseId}
use ntulearn_skill.Parsers.Models.{ParserOptions}
use ntulearn_skill.Sync.Jobs.{
  LocalJobKind, same_kind, is_succeeded, JobResult, LocalJobRecord, Jobs,
}
use ntulearn_skill.Sync.Jobs.Payload.{required_text, required_key, parser_options}
use ntulearn_skill.Sync.Jobs.Queue.{get_job}
use ntulearn_skill.Prelude.Json.{JsonValue, JsonFields, lookup}

-- Name, version and engine version of a parser.
pub record Contract : Type 0 where
  pub name : String
  pub version : String
  pub engine_version : String

abbrev pub same_contract : Contract → Contract → Bool
same_contract a b =
    (a.name ==ₛ b.name) && (a.version ==ₛ b.version) && (a.engine_version ==ₛ b.engine_version)

pub record ParsedDocument : Type 0 where
  pub key : ℕ
  pub is_failed : Bool
  pub contract : Contract
  pub settings_hash : String

pub record Services (W : Type 0) : Type 0 where
  pub file_format : ℕ → W → Result (Option String)
  pub parser_for : String → Option Contract
  pub parse_version : ℕ → ParserOptions → W → Result ParsedDocument × W
  pub indexer_version : String
  pub rebuild : W → Result ℕ × W
  pub extractor_name : String
  pub extractor_version : String
  pub extractor_settings_hash : String
  pub extract_resource_version : ℕ → ℕ → W → Result ℕ × W
  pub extract_observation : ℕ → W → Result ℕ × W
  pub resolver_name : String
  pub resolver_version : String
  pub find_course : ℕ → W → Result (Option CourseId)
  pub reconcile_course : CourseId → W → Result ℕ × W

abbrev pub mismatch : String → Error
mismatch message = local_job_contract_mismatch message

abbrev pub unsupported : Contract
unsupported = record { name = "unsupported"; version = "1"; engine_version = "none" }

abbrev pub or_unsupported : Option Contract → Contract
or_unsupported none = unsupported
or_unsupported (some c) = c

-- The name that a service's result is stored under.
abbrev pub named : String → ℕ → JobResult
named name value = (name, value) ∷ []

-- `return {name: call(...)}`
abbrev pub return_named : {W : Type 0} → String → Result ℕ × W → Result JobResult × W
return_named name (r, w) = (r >>= λ value. ok (named name value), w)

-- A step that changes no world, then one that may.
abbrev pub checked :
    {W A : Type 0} → Result A → (A → W → Result JobResult × W) → W → Result JobResult × W
checked (err e) f w = (err e, w)
checked (ok a) f w = f a w

abbrev pub required : {A : Type 0} → Option A → Error → Result A
required none e = err e
required (some a) e = ok a

module _ {W : Type 0} (settings_hash : ParserOptions → String) (services : Services W) where
  -- The parser that is installed for the version, if it is the one that was planned.
  unfoldable pub planned_parser : JsonFields → W → Result (ℕ × ParserOptions × Contract)
  planned_parser payload w = do
    version_key ← required_key payload "version_key"
    options ← parser_options settings_hash payload
    found ← services.file_format version_key w
    format ← required found (local_job_error "queued parser input is unavailable")
    name ← required_text payload "parser_name"
    version ← required_text payload "parser_version"
    engine ← required_text payload "engine_version"
    let planned : Contract = record { name = name; version = version; engine_version = engine }
    raise_if (not (same_contract (or_unsupported (services.parser_for format)) planned))
        (mismatch "queued parser contract is unavailable")
    ok (version_key, options, planned)

  -- The check of what the parser returned.
  unfoldable pub parsed_key : ParserOptions → Contract → ParsedDocument → Result JobResult
  parsed_key options planned document = do
    raise_if document.is_failed (local_job_error "parser returned a failed terminal result")
    raise_if
        (not (
          same_contract document.contract planned
          && (document.settings_hash ==ₛ settings_hash options)))
        (mismatch "parser result does not match the queued contract")
    ok (named "parse_key" document.key)

  unfoldable pub execute_parse : JsonFields → W → Result JobResult × W
  unfolding planned_parser parsed_key
  execute_parse payload w =
      checked (planned_parser payload w)
        (λ (version_key, options, planned) w'.
          let (r, w'') = services.parse_version version_key options w' in
          (r >>= parsed_key options planned, w''))
        w

  unfoldable pub execute_index : JsonFields → W → Result JobResult × W
  execute_index payload w =
      checked
        (do
          version ← required_text payload "indexer_version"
          raise_if (not (version ==ₛ services.indexer_version))
              (mismatch "queued indexer contract is unavailable"))
        (λ _ w'. return_named "source_generation" (services.rebuild w')) w

  -- `dependency.result["parse_key"]`, if that is the only entry and positive.
  abbrev pub parse_key_of : Option JobResult → Result ℕ
  parse_key_of none = err (mismatch "parser dependency result is unavailable")
  parse_key_of (some []) = err (mismatch "parser dependency result is unavailable")
  parse_key_of (some ((name, value) ∷ [])) = do
    raise_if (not (name ==ₛ "parse_key")) (mismatch "parser dependency result is unavailable")
    raise_if (value == 0) (mismatch "parser dependency result is invalid")
    ok value
  parse_key_of (some (_ ∷ _ ∷ _)) = err (mismatch "parser dependency result is unavailable")

  -- `_dependency_parse_key`
  unfoldable pub dependency_parse_key : LocalJobRecord → Jobs → Result ℕ
  dependency_parse_key job rows = do
    key ← required job.depends_on_job_key (mismatch "extraction job has no parser dependency")
    found ← get_job settings_hash key rows
    dependency ← required found (mismatch "parser dependency result is unavailable")
    raise_if
        (not (same_kind dependency.kind LocalJobKind.parse) || not (is_succeeded dependency.status))
        (mismatch "parser dependency result is unavailable")
    parse_key_of dependency.result

  abbrev pub is_text : Option JsonValue → String → Bool
  is_text none s = false
  is_text (some (JsonValue.string t)) s = t ==ₛ s
  is_text (some _) s = false

  abbrev pub check_extractor : JsonFields → Result (Unit {0})
  check_extractor payload = do
    name ← required_text payload "extractor_name"
    raise_if (not (name ==ₛ services.extractor_name))
        (mismatch "queued extractor contract is unavailable")
    version ← required_text payload "extractor_version"
    raise_if
        (not (version ==ₛ services.extractor_version)
          || not
              (is_text (lookup "extractor_settings_hash" payload) services.extractor_settings_hash))
        (mismatch "queued extractor contract is unavailable")

  abbrev pub extract_target : LocalJobRecord → Jobs → W → Result JobResult × W
  extract_target job rows w =
      if is_some (lookup "version_key" job.payload)
      then checked
          (do
            version_key ← required_key job.payload "version_key"
            parse_key ← dependency_parse_key job rows
            ok (version_key, parse_key))
          (λ (version_key, parse_key) w'.
            return_named "extraction_record_key"
              (services.extract_resource_version version_key parse_key w'))
          w
      else (if is_some (lookup "observation_key" job.payload)
          then checked (required_key job.payload "observation_key")
              (λ observation_key w'.
                return_named "extraction_record_key"
                  (services.extract_observation observation_key w'))
              w
          else (err (local_job_error "local extraction job payload is invalid"), w))

  unfoldable pub execute_extract : LocalJobRecord → Jobs → W → Result JobResult × W
  unfolding dependency_parse_key lookup
  execute_extract job rows w =
      checked (check_extractor job.payload) (λ _ w'. extract_target job rows w') w

  unfoldable pub execute_reconcile : JsonFields → W → Result JobResult × W
  execute_reconcile payload w =
      checked
        (do
          name ← required_text payload "resolver_name"
          raise_if (not (name ==ₛ services.resolver_name))
              (mismatch "queued resolver contract is unavailable")
          version ← required_text payload "resolver_version"
          raise_if (not (version ==ₛ services.resolver_version))
              (mismatch "queued resolver contract is unavailable")
          course_key ← required_key payload "course_key"
          found ← services.find_course course_key w
          required found (local_job_error "local job course no longer exists"))
        (λ course w'. return_named "reconciliation_run_key" (services.reconcile_course course w')) w

  -- `_execute`
  unfoldable pub execute : LocalJobRecord → Jobs → W → Result JobResult × W
  unfolding execute_parse execute_index execute_extract execute_reconcile
  execute job rows w = elim job.kind [
    | LocalJobKind.parse ↦ execute_parse job.payload w
    | LocalJobKind.index ↦ execute_index job.payload w
    | LocalJobKind.extract ↦ execute_extract job rows w
    | LocalJobKind.reconcile ↦ execute_reconcile job.payload w
  ]
