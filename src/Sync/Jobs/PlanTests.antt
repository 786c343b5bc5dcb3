-- ===== src/Sync/Jobs/PlanTests.antt =====
-- A concrete resource version that is planned (src/ntulearn_skill/sync/jobs.py).
use ntulearn_skill.Prelude.{
  ok, ℕ, ◌+◌, ◌<◌, String, ◌≡◌, refl, true, false, none, some, [], ◌∷◌, arith,
}
use ntulearn_skill.Core.Models.{DateTime, to_storage_time}
use ntulearn_skill.Sync.Jobs.{LocalJobKind, LocalJobStatus, JobRow, LocalJobRecord, Jobs}
use ntulearn_skill.Sync.Jobs.Payload.{required_key, parser_options, validate_payload}
use ntulearn_skill.Sync.Jobs.Queue.{
  find_key, find_identity, largest_key, from_row, insert_job, schedule, get_job,
}
use ntulearn_skill.Sync.Jobs.Execution.{
  Contract, ParsedDocument, Services, named, or_unsupported, execute_parse, dependency_parse_key,
}
use ntulearn_skill.Sync.Jobs.Planner.{
  ResourceJobPlan, VersionRow, PlannerSettings, parse_payload, plan_version,
}
use ntulearn_skill.Sync.Jobs.Planned.{parser_options-parse_payload, plan_version-depends_on}
use ntulearn_skill.Sync.Jobs.Claims.{record_of}
use ntulearn_skill.Sync.Jobs.Contracts.{
  IsInput, IsParse, execute_parse-IsInput, IsParse, dependency_parse_key-find_key,
}
use ntulearn_skill.Parsers.Models.{check_limits, ParserOptions, check_options, canonical_settings}
use ntulearn_skill.Sync.Jobs.Tests.{hash, digest}
use ntulearn_skill.Prelude.Json.{JsonFields, ℤ, encoded_length, same_fields}

abbrev options : ParserOptions
options = record {
  limits = record {
    maximum_input_bytes = ℤ.pos 1000;
    maximum_chunks = ℤ.pos 100;
    maximum_chunk_characters = ℤ.pos 500;
    maximum_total_characters = ℤ.pos 9000;
    maximum_archive_entries = ℤ.pos 50;
    maximum_archive_uncompressed_bytes = ℤ.pos 70000;
    maximum_content_stream_bytes = ℤ.pos 8000;
    maximum_structured_elements = ℤ.pos 600;
    maximum_nesting_depth = ℤ.pos 20;
  };
  low_text_character_threshold = ℤ.pos 24;
  drawing_operator_threshold = ℤ.pos 8;
  diagnostic_version = "stage-b-2";
}

abbrev pdf_parser : Contract
pdf_parser = record { name = "pypdf"; version = "2"; engine_version = "5" }

abbrev settings : PlannerSettings
settings = record {
  parser_for = λ format. some pdf_parser;
  options = options;
  indexer_version = "fts-1";
  extractor_name = "rules";
  extractor_version = "1";
  extractor_settings_hash = digest;
  resolver_name = "resolver";
  resolver_version = "1";
  max_attempts = 3;
}

abbrev version : VersionRow
version = record {
  version_key = 4;
  is_verified = true;
  sha256 = digest;
  file_format = "pdf";
  course_key = 2;
}

-- One identity for all: the jobs of one plan differ in their kinds.
abbrev identity : JsonFields → String
identity fields = digest

checked_limits : check_limits options.limits ≡ ok options.limits
unfolding check_limits
checked_limits = refl

checked_options : check_options options ≡ ok options
unfolding check_options
checked_options = refl

parser_options-parse_payload_example :
    parser_options hash
      (parse_payload hash identity settings (DateTime.aware 10) version pdf_parser)
    ≡ ok options
parser_options-parse_payload_example =
    parser_options-parse_payload hash identity settings (DateTime.aware 10) version pdf_parser
      checked_limits checked_options (omega arith) (omega arith)

-- The four jobs are planned on an empty table.
planned :
    (plan : ResourceJobPlan) × (rows : Jobs) × (plan_version hash identity settings
        (DateTime.aware 10)
        version
        []
      ≡ ok (plan, rows))
unfolding plan_version schedule validate_payload to_storage_time find_identity largest_key from_row
    encoded_length same_fields canonical_settings find_key insert_job
planned = (_, _, refl)

plan_version-depends_on_example :
    (planned.0.parse.depends_on_job_key ≡ none)
    × (planned.0.index.depends_on_job_key ≡ some planned.0.parse.key)
    × (planned.0.extract.depends_on_job_key ≡ some planned.0.parse.key)
    × (planned.0.reconcile.depends_on_job_key ≡ some planned.0.extract.key)
plan_version-depends_on_example =
    plan_version-depends_on hash identity settings (DateTime.aware 10) version [] planned.1
      planned.0 planned.2

abbrev document : ParsedDocument
document = record {
  key = 9;
  is_failed = false;
  contract = pdf_parser;
  settings_hash = hash options;
}

-- Services that count the parses.
abbrev services : Services ℕ
services = record {
  file_format = λ key w. ok (some "pdf");
  parser_for = λ format. some pdf_parser;
  parse_version = λ key o w. (ok document, w + 1);
  indexer_version = "fts-1";
  rebuild = λ w. (ok 1, w);
  extractor_name = "rules";
  extractor_version = "1";
  extractor_settings_hash = digest;
  extract_resource_version = λ key parse_key w. (ok 1, w);
  extract_observation = λ key w. (ok 1, w);
  resolver_name = "resolver";
  resolver_version = "1";
  find_course = λ key w. ok none;
  reconcile_course = λ course w. (ok 1, w);
}

abbrev planned_payload : JsonFields
planned_payload = parse_payload hash identity settings (DateTime.aware 10) version pdf_parser

executed : execute_parse hash services planned_payload 0 ≡ (ok (named "parse_key" 9), 1)
unfolding execute_parse parse_payload canonical_settings required_key parser_options
executed = refl

execute_parse-IsInput_example :
    (version_key : ℕ) × (o : ParserOptions) × (format : String) × (d : ParsedDocument) × IsInput
      hash services planned_payload 0 version_key o format
    × (services.parse_version version_key o 0 ≡ (ok d, 1))
    × IsParse hash o (or_unsupported (services.parser_for format)) d
    × (named "parse_key" 9 ≡ named "parse_key" d.key)
execute_parse-IsInput_example =
    execute_parse-IsInput hash services planned_payload 0 1 (named "parse_key" 9) executed

abbrev parse_job : JobRow
parse_job = record {
  key = 1;
  kind = LocalJobKind.parse;
  input_identity = digest;
  payload = planned_payload;
  result = some (named "parse_key" 9);
  depends_on = none;
  status = LocalJobStatus.succeeded;
  attempt_count = 1;
  max_attempts = 3;
  available_at = 10;
  lease_expires_at = none;
  worker_token = none;
  last_error_category = none;
  created_at = 10;
  updated_at = 12;
  started_at = some 11;
  completed_at = some 12;
}

abbrev extract_job : LocalJobRecord
extract_job = record (record_of parse_job) {
  key = 2;
  kind = LocalJobKind.extract;
  depends_on_job_key = some 1;
}

parsed_dependency : dependency_parse_key hash services extract_job (parse_job ∷ []) ≡ ok 9
unfolding dependency_parse_key get_job from_row validate_payload parse_payload canonical_settings
    find_key
parsed_dependency = refl

dependency_parse_key-find_key_example :
    (key : ℕ) × (row : JobRow) × (some 1 ≡ some key)
    × (find_key key (parse_job ∷ []) ≡ some row)
    × (row.kind ≡ LocalJobKind.parse)
    × (row.status ≡ LocalJobStatus.succeeded)
    × (row.result ≡ some (named "parse_key" 9))
    × (0 < 9)
dependency_parse_key-find_key_example =
    dependency_parse_key-find_key hash services extract_job (parse_job ∷ []) 9 parsed_dependency
