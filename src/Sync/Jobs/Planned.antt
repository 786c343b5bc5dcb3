-- ===== src/Sync/Jobs/Planned.antt =====
-- What `LocalJobPlanner` plans (src/ntulearn_skill/sync/jobs.py), as the runner reads it back.
use ntulearn_skill.Prelude.{
  text_length, one_of, ok, >>=-returns, ℕ, ◌≤◌, ◌<◌, String, ◌≡◌, refl, true, Option, none, some,
  [], ◌∷◌, arith, eq_iff,
}
use ntulearn_skill.Core.Models.{DateTime}
use ntulearn_skill.Sync.Jobs.{LocalJobKind, LocalJobRecord, Jobs}
use ntulearn_skill.Sync.Jobs.Payload.{limits_from, limit_keys, required_text, parser_options}
use ntulearn_skill.Sync.Jobs.Queue.{write_job, schedule}
use ntulearn_skill.Sync.Jobs.Execution.{Contract, or_unsupported}
use ntulearn_skill.Sync.Jobs.Planner.{
  ResourceJobPlan, VersionRow, PlannerSettings, with_text, with_key, queue, parse_identity,
  parse_payload, index_identity, extractor_fields, extract_identity, resolver_fields,
  reconcile_identity, plan_version,
}
use ntulearn_skill.Prelude.Json.{JsonFields, lookup, has_keys}
use ntulearn_skill.Parsers.Models.{
  ParserLimits, ParserOptions, check_limits, check_options, canonical_settings, as_settings,
}

limits_from-as_settings : (l : ParserLimits) → limits_from (as_settings l) ≡ ok l
unfolding limits_from as_settings lookup
limits_from-as_settings l = refl

has_limit_keys : (l : ParserLimits) → has_keys (as_settings l) limit_keys ≡ true
unfolding has_keys as_settings lookup
has_limit_keys l = refl

checked_version :
    (o : ParserOptions)
    → check_options o ≡ ok o
    → one_of o.diagnostic_version ("stage-b-1" ∷ "stage-b-2" ∷ []) ≡ true
unfolding check_options
checked_version o e = ground arith

-- The options that a plan writes into the payload of a parse job are the ones that the runner reads
-- from it, where they pass their own checks and their hash is a text of 1 to 200 characters.
pub parser_options-parse_payload :
    (settings_hash : ParserOptions → String) (identity : JsonFields → String) (s : PlannerSettings)
    (now : DateTime) (row : VersionRow) (parser : Contract)
    → check_limits s.options.limits ≡ ok s.options.limits
    → check_options s.options ≡ ok s.options
    → 0 < text_length (settings_hash s.options)
    → text_length (settings_hash s.options) ≤ 200
    → parser_options settings_hash (parse_payload settings_hash identity s now row parser)
      ≡ ok s.options
unfolding parser_options parse_payload canonical_settings lookup required_text
parser_options-parse_payload settings_hash identity s now row parser l o lo hi = ground (
  arith,
  l,
  o,
  checked_version s.options o,
  limits_from-as_settings s.options.limits,
  has_limit_keys s.options.limits,
  (eq_iff (settings_hash s.options) (settings_hash s.options)).1 refl,
)

schedule-depends_on :
    (settings_hash : ParserOptions → String) (kind : LocalJobKind) (identity : String)
    (payload : JsonFields) (depends_on : Option ℕ) (max_attempts : ℕ) (at : DateTime)
    (rows rows' : Jobs) (job : LocalJobRecord)
    → schedule settings_hash kind identity payload depends_on max_attempts at rows ≡ ok (job, rows')
    → job.depends_on_job_key ≡ depends_on
unfolding schedule write_job
schedule-depends_on settings_hash kind identity payload none most at rows rows' job e = ground arith
schedule-depends_on settings_hash kind identity payload (some k) most at rows rows' job e =
    ground arith

-- Where the planning of a resource version returns, its four jobs stand in the order of their
-- dependencies: parsing waits for nothing, indexing and extraction wait for the parsing,
-- reconciliation waits for the extraction.
pub plan_version-depends_on :
    (settings_hash : ParserOptions → String) (identity : JsonFields → String) (s : PlannerSettings)
    (now : DateTime) (row : VersionRow) (rows rows' : Jobs) (plan : ResourceJobPlan)
    → plan_version settings_hash identity s now row rows ≡ ok (plan, rows')
    → (plan.parse.depends_on_job_key ≡ none)
      × (plan.index.depends_on_job_key ≡ some plan.parse.key)
      × (plan.extract.depends_on_job_key ≡ some plan.parse.key)
      × (plan.reconcile.depends_on_job_key ≡ some plan.extract.key)
unfolding plan_version
plan_version-depends_on settings_hash identity s now row rows rows' plan e =
    let parser = or_unsupported (s.parser_for row.file_format) in
    let parse_id = parse_identity settings_hash identity s now row parser in
    let extract_id = extract_identity settings_hash identity s now parse_id in
    let q = queue settings_hash identity s now in
    let ((parse, rows₁), p, e₁) =
      >>=-returns
        (q LocalJobKind.parse parse_id (parse_payload settings_hash identity s now row parser) none
          rows)
        _ e in
    let ((index, rows₂), i, e₂) =
      >>=-returns
        (q LocalJobKind.index (index_identity settings_hash identity s now parse_id)
          (with_key "version_key" row.version_key
            (with_text "indexer_version" s.indexer_version JsonFields.end))
          (some parse.key) rows₁)
        _ e₁ in
    let ((extract, rows₃), x, e₃) =
      >>=-returns
        (q LocalJobKind.extract extract_id
          (with_key "version_key" row.version_key (extractor_fields settings_hash identity s now))
          (some parse.key) rows₂)
        _ e₂ in
    let ((reconcile, rows₄), r, e₄) =
      >>=-returns
        (q LocalJobKind.reconcile
          (reconcile_identity settings_hash identity s now "reconcile" row.course_key extract_id)
          (with_key "course_key" row.course_key (resolver_fields settings_hash identity s now))
          (some extract.key) rows₃)
        _ e₃ in
    ground (
      arith,
      e₄,
      schedule-depends_on settings_hash _ _ _ _ s.max_attempts now rows rows₁ parse p,
      schedule-depends_on settings_hash _ _ _ _ s.max_attempts now rows₁ rows₂ index i,
      schedule-depends_on settings_hash _ _ _ _ s.max_attempts now rows₂ rows₃ extract x,
      schedule-depends_on settings_hash _ _ _ _ s.max_attempts now rows₃ rows₄ reconcile r,
    )
