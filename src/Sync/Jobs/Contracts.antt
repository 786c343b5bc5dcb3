-- ===== src/Sync/Jobs/Contracts.antt =====
-- What a job that `LocalJobRunner` has executed without an error rests on
-- (src/ntulearn_skill/sync/jobs.py).
use ntulearn_skill.Prelude.{
  Option-cases, Error, Result, ok, raise_if, ◌>>◌, >>=-returns, Result-cases, ℕ, ◌<◌, String, ◌≡◌,
  refl, sym, ap, ◌∙◌, inl, inr, Bool, true, false, not, Option, none, some, [], ◌∷◌, arith, eq_iff,
}
use ntulearn_skill.Sync.Jobs.{
  LocalJobKind, LocalJobStatus, same_kind, is_succeeded, JobResult, JobRow, LocalJobRecord, Jobs,
}
use ntulearn_skill.Sync.Jobs.Queue.{find_key, from_row, get_job}
use ntulearn_skill.Sync.Jobs.Payload.{required_text, required_key, parser_options}
use ntulearn_skill.Sync.Jobs.Execution.{
  Contract, same_contract, ParsedDocument, Services, or_unsupported, named, required,
  planned_parser, parsed_key, execute_parse, parse_key_of, dependency_parse_key,
}
use ntulearn_skill.Parsers.Models.{ParserOptions}
use ntulearn_skill.Prelude.Json.{JsonFields, JsonValue, ℤ, lookup}
use mathlib.Core.Path.{subst}

-- The payload names this parser.
pub record IsNamed (payload : JsonFields) (c : Contract) : Type 0 where
  pub name : lookup "parser_name" payload ≡ some (JsonValue.string c.name)
  pub version : lookup "parser_version" payload ≡ some (JsonValue.string c.version)
  pub engine_version : lookup "engine_version" payload ≡ some (JsonValue.string c.engine_version)

-- What a parse job was run on: the version of the payload, whose file has a format, and whose
-- installed parser is the one that the payload names.
pub record IsInput {W : Type 0} (settings_hash : ParserOptions → String) (services : Services W)
    (payload : JsonFields) (w : W) (version_key : ℕ) (options : ParserOptions) (format : String)
    : Type 0 where
  pub version : lookup "version_key" payload ≡ some (JsonValue.int (ℤ.pos version_key))
  pub positive : 0 < version_key
  pub settings : parser_options settings_hash payload ≡ ok options
  pub stored : services.file_format version_key w ≡ ok (some format)
  pub installed : IsNamed payload (or_unsupported (services.parser_for format))

required_text-lookup :
    (payload : JsonFields) (key : String) {s : String}
    → required_text payload key ≡ ok s
    → lookup key payload ≡ some (JsonValue.string s)
unfolding required_text
required_text-lookup payload key e = ground arith

required_key-lookup :
    (payload : JsonFields) (key : String) {n : ℕ}
    → required_key payload key ≡ ok n
    → (lookup key payload ≡ some (JsonValue.int (ℤ.pos n))) × (0 < n)
unfolding required_key
required_key-lookup payload key e = (ground arith, ground arith)

same_contract-eq : (a b : Contract) → same_contract a b ≡ true → a ≡ b
same_contract-eq a b h =
    let n : a.name ≡ b.name = (eq_iff a.name b.name).0 (ground arith) in
    let v : a.version ≡ b.version = (eq_iff a.version b.version).0 (ground arith) in
    let e : a.engine_version ≡ b.engine_version =
      (eq_iff a.engine_version b.engine_version).0 (ground arith) in
    λ i. record { name = n i; version = v i; engine_version = e i }

required-some :
    {A : Type 0} (found : Option A) (e : Error) {a : A} → required found e ≡ ok a → found ≡ some a
required-some none e h = absurd (ground arith)
required-some (some x) e h = ground arith

raise_if-returns :
    {A : Type 0} (b : Bool) (raised : Error) (rest : Result A) {a : A}
    → (raise_if b raised >> rest) ≡ ok a
    → (b ≡ false) × (rest ≡ ok a)
raise_if-returns false raised rest h = (refl, h)
raise_if-returns true raised rest h = absurd (ground arith)

planned_parser-IsInput :
    {W : Type 0} (settings_hash : ParserOptions → String) (services : Services W)
    (payload : JsonFields) (w : W) (version_key : ℕ) (options : ParserOptions) (planned : Contract)
    → planned_parser settings_hash services payload w ≡ ok (version_key, options, planned)
    → (format : String) × IsInput settings_hash services payload w version_key options format
      × (planned ≡ or_unsupported (services.parser_for format))
unfolding planned_parser
planned_parser-IsInput settings_hash services payload w version_key options planned e =
    let (k, ke, e1) = >>=-returns (required_key payload "version_key") _ e in
    let (o, oe, e2) = >>=-returns (parser_options settings_hash payload) _ e1 in
    let (found, fe, e3) = >>=-returns (services.file_format k w) _ e2 in
    let (format, re, e4) = >>=-returns (required found _) _ e3 in
    let (n, ne, e5) = >>=-returns (required_text payload "parser_name") _ e4 in
    let (v, ve, e6) = >>=-returns (required_text payload "parser_version") _ e5 in
    let (g, ge, e7) = >>=-returns (required_text payload "engine_version") _ e6 in
    let named_contract : Contract = record { name = n; version = v; engine_version = g } in
    let installed = or_unsupported (services.parser_for format) in
    let (ce, e8) = raise_if-returns (not (same_contract installed named_contract)) _ _ e7 in
    let same : installed ≡ named_contract =
      same_contract-eq installed named_contract (ground (arith, ce)) in
    let kk : k ≡ version_key = ground (arith, e8) in
    let oo : o ≡ options = ground (arith, e8) in
    let pp : named_contract ≡ planned = ground (arith, e8) in
    let input : IsInput settings_hash services payload w k o format = record {
      version = (required_key-lookup payload "version_key" ke).0;
      positive = (required_key-lookup payload "version_key" ke).1;
      settings = oe;
      stored = fe ∙ ap ok (required-some found _ re);
      installed = subst (IsNamed payload) (sym same) (record {
        name = required_text-lookup payload "parser_name" ne;
        version = required_text-lookup payload "parser_version" ve;
        engine_version = required_text-lookup payload "engine_version" ge;
      });
    } in
    (
      format,
      subst (λ x. IsInput settings_hash services payload w x options format) kk
          (subst (λ x. IsInput settings_hash services payload w k x format) oo input),
      sym pp ∙ sym same,
    )

-- What the parse service returned: a document that has not failed, of the installed parser's name
-- and versions and of the settings.
pub record IsParse (settings_hash : ParserOptions → String) (options : ParserOptions)
    (installed : Contract) (document : ParsedDocument) : Type 0 where
  pub finished : document.is_failed ≡ false
  pub contract : document.contract ≡ installed
  pub settings : document.settings_hash ≡ settings_hash options

parsed_key-IsParse :
    {W : Type 0} (settings_hash : ParserOptions → String) (services : Services W)
    (options : ParserOptions) (planned : Contract) (document : ParsedDocument) (r : JobResult)
    → parsed_key settings_hash services options planned document ≡ ok r
    → IsParse settings_hash options planned document × (r ≡ named "parse_key" document.key)
unfolding parsed_key
parsed_key-IsParse settings_hash services options planned document r e = (
  record {
    finished = ground arith;
    contract = same_contract-eq document.contract planned (ground arith);
    settings = (eq_iff document.settings_hash (settings_hash options)).0 (ground arith);
  },
  ground arith,
)

-- A parse job that is executed without an error has called the parse service on the positive version
-- key and the options that its payload holds, with a parser installed for the format of that
-- version's file whose name, version and engine version are the ones that the payload names (or with
-- none, where the payload names the parser `unsupported`). The service returned a document that has
-- not failed, of that same name and those versions and of the settings of the options, and the key
-- of the document is the result.
pub execute_parse-IsInput :
    {W : Type 0} (settings_hash : ParserOptions → String) (services : Services W)
    (payload : JsonFields) (w w' : W) (r : JobResult)
    → execute_parse settings_hash services payload w ≡ (ok r, w')
    → (version_key : ℕ) × (options : ParserOptions) × (format : String)
      × (document : ParsedDocument) × IsInput settings_hash services payload w version_key options
          format
      × (services.parse_version version_key options w ≡ (ok document, w'))
      × IsParse settings_hash options (or_unsupported (services.parser_for format)) document
      × (r ≡ named "parse_key" document.key)
unfolding execute_parse
execute_parse-IsInput settings_hash services payload w w' r e =
    elim (Result-cases (planned_parser settings_hash services payload w)) [
      | inr (raised, p) ↦ absurd (ground (arith, p))
      | inl ((version_key, options, planned), p) ↦
          elim (Result-cases (services.parse_version version_key options w).0) [
            | inr (raised, q) ↦ absurd (ground (arith, p, q))
            | inl (document, q) ↦
                let k : parsed_key settings_hash services options planned document ≡ ok r =
                  ground (arith, p, q) in
                let (c, s) =
                  parsed_key-IsParse settings_hash services options planned document r k in
                let (format, input, same) =
                  planned_parser-IsInput settings_hash services payload w version_key options
                    planned p in
                (
                  version_key,
                  options,
                  format,
                  document,
                  input,
                  ground (arith, p, q),
                  subst (λ x. IsParse settings_hash options x document) same c,
                  s,
                )
          ]
    ]

same_kind-parse :
    (k : LocalJobKind) → same_kind k LocalJobKind.parse ≡ true → k ≡ LocalJobKind.parse
same_kind-parse k h = ground arith

is_succeeded-status : (s : LocalJobStatus) → is_succeeded s ≡ true → s ≡ LocalJobStatus.succeeded
is_succeeded-status s h = ground arith

parse_key_of-named :
    {W : Type 0} (settings_hash : ParserOptions → String) (services : Services W)
    (result : Option JobResult) (key : ℕ)
    → parse_key_of settings_hash services result ≡ ok key
    → (result ≡ some (named "parse_key" key)) × (0 < key)
parse_key_of-named settings_hash services none key h = absurd (ground arith)
parse_key_of-named settings_hash services (some []) key h = absurd (ground arith)
parse_key_of-named settings_hash services (some ((name, value) ∷ [])) key h =
    let same : name ≡ "parse_key" = (eq_iff name "parse_key").0 (ground arith) in
    let v : value ≡ key = ground arith in (rw (same, v) refl, ground arith)
parse_key_of-named settings_hash services (some (x ∷ y ∷ rest)) key h = absurd (ground arith)

-- The parse key that an extraction job gets is the result of a job of the table that parses, that
-- has succeeded, and that the extraction job depends on.
pub dependency_parse_key-find_key :
    {W : Type 0} (settings_hash : ParserOptions → String) (services : Services W)
    (job : LocalJobRecord) (rows : Jobs) (parse_key : ℕ)
    → dependency_parse_key settings_hash services job rows ≡ ok parse_key
    → (key : ℕ) × (row : JobRow) × (job.depends_on_job_key ≡ some key)
      × (find_key key rows ≡ some row)
      × (row.kind ≡ LocalJobKind.parse)
      × (row.status ≡ LocalJobStatus.succeeded)
      × (row.result ≡ some (named "parse_key" parse_key))
      × (0 < parse_key)
unfolding dependency_parse_key get_job from_row
dependency_parse_key-find_key settings_hash services job rows parse_key e =
    elim (Option-cases job.depends_on_job_key) [
      | inl none_set ↦ absurd (ground (arith, none_set))
      | inr (key, k) ↦ elim (Option-cases (find_key key rows)) [
        | inl missing ↦ absurd (ground (arith, k, missing))
        | inr (row, found) ↦
            let kind : same_kind row.kind LocalJobKind.parse ≡ true = ground (arith, k, found) in
            let status : is_succeeded row.status ≡ true = ground (arith, k, found) in
            let read : parse_key_of settings_hash services row.result ≡ ok parse_key =
              ground (arith, k, found) in
            let (result, positive) =
              parse_key_of-named settings_hash services row.result parse_key read in
            (
              key,
              row,
              k,
              found,
              same_kind-parse row.kind kind,
              is_succeeded-status row.status status,
              result,
              positive,
            )
      ]
    ]
