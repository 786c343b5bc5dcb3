-- ===== src/Sync/Jobs/Payload.antt =====
-- src/ntulearn_skill/sync/jobs.py: the checks of a job's payload.
use ntulearn_skill.Prelude.{
  ltb, leb, ◌==◌, if◌then◌else◌, is_some, all, codes, text_length, one_of, value_error, Result, ok,
  err, ◌>>=◌, ◌>>◌, raise_if, ℕ, String, Bool, ◌&&◌, ◌||◌, not, none, some, List, [], ◌∷◌, ◌==ₛ◌,
}
use ntulearn_skill.Parsers.Models.{ParserLimits, check_limits, ParserOptions, check_options}
use ntulearn_skill.Sync.Jobs.{LocalJobKind}
use ntulearn_skill.Prelude.Json.{JsonValue, JsonFields, ℤ, lookup, has_keys}

-- `_required_text`: a text of at most two hundred characters that is not empty.
unfoldable pub required_text : JsonFields → String → Result String
unfolding lookup
required_text payload key = elim (lookup key payload) [
  | none ↦ err (value_error "local job text spec is invalid")
  | some v ↦ elim v [
    | JsonValue.string s ↦
        if text_length s == 0 || ltb 200 (text_length s)
        then err (value_error "local job text spec is invalid")
        else ok s
    | _ ↦ err (value_error "local job text spec is invalid")
  ]
]

-- `_required_key`: a positive integer.
unfoldable pub required_key : JsonFields → String → Result ℕ
unfolding lookup
required_key payload key = elim (lookup key payload) [
  | none ↦ err (value_error "local job key spec is invalid")
  | some v ↦ elim v [
    | JsonValue.int n ↦ elim n [
      | ℤ.pos k ↦ if k == 0 then err (value_error "local job key spec is invalid") else ok k
      | ℤ.negsuc k ↦ err (value_error "local job key spec is invalid")
    ]
    | _ ↦ err (value_error "local job key spec is invalid")
  ]
]

-- `character in "0123456789abcdef"`
abbrev pub is_hex : ℕ → Bool
is_hex c = (leb 48 c && leb c 57) || (leb 97 c && leb c 102)

-- A lowercase SHA-256 text.
abbrev pub is_digest : String → Bool
is_digest s = (text_length s == 64) && all is_hex (codes s)

-- `_required_digest`
unfoldable pub required_digest : JsonFields → String → Result String
unfolding required_text
required_digest payload key = do
  value ← required_text payload key
  raise_if (not (is_digest value)) (value_error "local job digest spec is invalid")
  ok value

abbrev object_at : JsonFields → String → String → Result JsonFields
object_at fields key message = elim (lookup key fields) [
  | none ↦ err (value_error message)
  | some v ↦ elim v [ JsonValue.object inner ↦ ok inner | _ ↦ err (value_error message) ]
]

-- An integer that is no Boolean.
abbrev int_at : JsonFields → String → Result ℤ
int_at fields key = elim (lookup key fields) [
  | none ↦ err (value_error "local parser numeric spec is invalid")
  | some v ↦ elim v [
    | JsonValue.int n ↦ ok n
    | _ ↦ err (value_error "local parser numeric spec is invalid")
  ]
]

abbrev version_at : JsonFields → Result String
version_at diagnostics = elim (lookup "version" diagnostics) [
  | none ↦ err (value_error "local parser diagnostics spec is invalid")
  | some v ↦ elim v [
    | JsonValue.string s ↦
        if one_of s ("stage-b-1" ∷ "stage-b-2" ∷ [])
        then ok s
        else err (value_error "local parser diagnostics spec is invalid")
    | _ ↦ err (value_error "local parser diagnostics spec is invalid")
  ]
]

abbrev pub limit_keys : List String
limit_keys =
    "maximum_archive_entries" ∷ "maximum_archive_uncompressed_bytes" ∷ "maximum_chunk_characters"
    ∷ "maximum_chunks" ∷ "maximum_content_stream_bytes" ∷ "maximum_input_bytes"
    ∷ "maximum_nesting_depth" ∷ "maximum_structured_elements" ∷ "maximum_total_characters" ∷ []

-- `ParserLimits(**limits)`, once every value is an integer.
unfoldable pub limits_from : JsonFields → Result ParserLimits
limits_from f = do
  input ← int_at f "maximum_input_bytes"
  chunks ← int_at f "maximum_chunks"
  chunk_characters ← int_at f "maximum_chunk_characters"
  total ← int_at f "maximum_total_characters"
  entries ← int_at f "maximum_archive_entries"
  uncompressed ← int_at f "maximum_archive_uncompressed_bytes"
  stream ← int_at f "maximum_content_stream_bytes"
  elements ← int_at f "maximum_structured_elements"
  depth ← int_at f "maximum_nesting_depth"
  ok (record {
    maximum_input_bytes = input;
    maximum_chunks = chunks;
    maximum_chunk_characters = chunk_characters;
    maximum_total_characters = total;
    maximum_archive_entries = entries;
    maximum_archive_uncompressed_bytes = uncompressed;
    maximum_content_stream_bytes = stream;
    maximum_structured_elements = elements;
    maximum_nesting_depth = depth;
  })

-- `settings_hash` is the SHA-256 of the canonical settings, `ParserOptions.settings_hash`.
module _ (settings_hash : ParserOptions → String) where
  -- `_parser_options`: the numbers are all read before a constructor checks any of them.
  unfoldable pub parser_options : JsonFields → Result ParserOptions
  unfolding lookup has_keys limits_from required_text check_limits check_options
  parser_options payload = do
    settings ← object_at payload "parser_settings" "local parser settings spec is invalid"
    raise_if (not (has_keys settings ("diagnostics" ∷ "limits" ∷ [])))
        (value_error "local parser settings spec is invalid")
    diagnostics ← object_at settings "diagnostics" "local parser settings spec is invalid"
    limits ← object_at settings "limits" "local parser settings spec is invalid"
    raise_if
        (not (
          has_keys diagnostics
            ("drawing_operator_threshold" ∷ "low_text_character_threshold" ∷ "version" ∷ [])))
        (value_error "local parser diagnostics spec is invalid")
    version ← version_at diagnostics
    raise_if (not (has_keys limits limit_keys)) (value_error "local parser limits spec is invalid")
    values ← limits_from limits
    drawing ← int_at diagnostics "drawing_operator_threshold"
    low_text ← int_at diagnostics "low_text_character_threshold"
    checked ← check_limits values
    options ← check_options (record {
      limits = checked;
      low_text_character_threshold = low_text;
      drawing_operator_threshold = drawing;
      diagnostic_version = version;
    })
    hash ← required_text payload "settings_hash"
    raise_if (not (hash ==ₛ settings_hash options))
        (value_error "local parser settings hash does not match its spec")
    ok options

  abbrev target_key : JsonFields → String
  target_key payload =
      if is_some (lookup "version_key" payload) then "version_key" else "observation_key"

  abbrev checked_digest : JsonFields → Result (Unit {0})
  checked_digest payload =
      if is_some (lookup "extractor_settings_hash" payload)
      then (do digest ← required_digest payload "extractor_settings_hash"; ok tt)
      else ok tt

  -- `_validate_payload`
  unfoldable pub validate_payload : LocalJobKind → JsonFields → Result (Unit {0})
  unfolding lookup has_keys required_text required_key required_digest parser_options
  validate_payload LocalJobKind.parse payload = do
    raise_if
        (not (
          has_keys payload (
            "version_key" ∷ "parser_name" ∷ "parser_version" ∷ "engine_version" ∷ "settings_hash"
            ∷ "parser_settings" ∷ [])))
        (value_error "local parse job spec is invalid")
    version ← required_key payload "version_key"
    name ← required_text payload "parser_name"
    parser_version ← required_text payload "parser_version"
    engine ← required_text payload "engine_version"
    options ← parser_options payload
    ok tt
  validate_payload LocalJobKind.index payload = do
    raise_if (not (has_keys payload ("version_key" ∷ "indexer_version" ∷ [])))
        (value_error "local index job spec is invalid")
    version ← required_key payload "version_key"
    indexer ← required_text payload "indexer_version"
    ok tt
  validate_payload LocalJobKind.extract payload = do
    let target = target_key payload
    let legacy = target ∷ "extractor_name" ∷ "extractor_version" ∷ []
    raise_if
        (not (has_keys payload legacy || has_keys payload ("extractor_settings_hash" ∷ legacy)))
        (value_error "local extraction job spec is invalid")
    key ← required_key payload target
    name ← required_text payload "extractor_name"
    version ← required_text payload "extractor_version"
    checked_digest payload
  validate_payload LocalJobKind.reconcile payload = do
    raise_if (not (has_keys payload ("course_key" ∷ "resolver_name" ∷ "resolver_version" ∷ [])))
        (value_error "local reconciliation job spec is invalid")
    course ← required_key payload "course_key"
    name ← required_text payload "resolver_name"
    version ← required_text payload "resolver_version"
    ok tt
