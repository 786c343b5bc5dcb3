-- ===== src/Parsers/Models.antt =====
-- src/ntulearn_skill/parsers/models.py: the limits and options of a parser.
use ntulearn_skill.Prelude.{
  ◌==◌, any, one_of, value_error, Result, ok, ◌>>◌, raise_if, String, Bool, true, false, not, List,
  [], ◌∷◌,
}
use ntulearn_skill.Prelude.Json.{JsonValue, JsonFields, ℤ}

pub record ParserLimits : Type 0 where
  pub maximum_input_bytes : ℤ
  pub maximum_chunks : ℤ
  pub maximum_chunk_characters : ℤ
  pub maximum_total_characters : ℤ
  pub maximum_archive_entries : ℤ
  pub maximum_archive_uncompressed_bytes : ℤ
  pub maximum_content_stream_bytes : ℤ
  pub maximum_structured_elements : ℤ
  pub maximum_nesting_depth : ℤ

abbrev pub is_negative : ℤ → Bool
is_negative (ℤ.pos n) = false
is_negative (ℤ.negsuc n) = true

-- `value <= 0`
abbrev pub not_above_zero : ℤ → Bool
not_above_zero (ℤ.pos n) = n == 0
not_above_zero (ℤ.negsuc n) = true

-- The values, in the order of the fields.
unfoldable pub limit_values : ParserLimits → List ℤ
limit_values l =
    l.maximum_input_bytes ∷ l.maximum_chunks ∷ l.maximum_chunk_characters
    ∷ l.maximum_total_characters ∷ l.maximum_archive_entries ∷ l.maximum_archive_uncompressed_bytes
    ∷ l.maximum_content_stream_bytes ∷ l.maximum_structured_elements ∷ l.maximum_nesting_depth ∷ []

-- `ParserLimits.__post_init__`
unfoldable pub check_limits : ParserLimits → Result ParserLimits
unfolding limit_values
check_limits l = do
  raise_if (any not_above_zero (limit_values l)) (value_error "parser limits must be positive")
  ok l

abbrev pub number : ℤ → JsonValue
number n = JsonValue.int n

unfoldable pub as_settings : ParserLimits → JsonFields
as_settings l = JsonFields.field "maximum_archive_entries" (number l.maximum_archive_entries) (
    JsonFields.field "maximum_archive_uncompressed_bytes"
      (number l.maximum_archive_uncompressed_bytes)
      (JsonFields.field "maximum_chunk_characters" (number l.maximum_chunk_characters) (
        JsonFields.field "maximum_chunks" (number l.maximum_chunks) (
          JsonFields.field "maximum_content_stream_bytes" (number l.maximum_content_stream_bytes) (
            JsonFields.field "maximum_input_bytes" (number l.maximum_input_bytes) (
              JsonFields.field "maximum_nesting_depth" (number l.maximum_nesting_depth) (
                JsonFields.field "maximum_structured_elements"
                  (number l.maximum_structured_elements)
                  (JsonFields.field "maximum_total_characters" (number l.maximum_total_characters)
                    JsonFields.end))))))))

pub record ParserOptions : Type 0 where
  pub limits : ParserLimits
  pub low_text_character_threshold : ℤ
  pub drawing_operator_threshold : ℤ
  pub diagnostic_version : String

-- `ParserOptions.__post_init__`
unfoldable pub check_options : ParserOptions → Result ParserOptions
check_options o = do
  raise_if (is_negative o.low_text_character_threshold)
      (value_error "low-text threshold cannot be negative")
  raise_if (is_negative o.drawing_operator_threshold)
      (value_error "drawing-operator threshold cannot be negative")
  raise_if (not (one_of o.diagnostic_version ("stage-b-1" ∷ "stage-b-2" ∷ [])))
      (value_error "unsupported parser diagnostic version")
  ok o

unfoldable pub canonical_settings : ParserOptions → JsonFields
unfolding as_settings
canonical_settings o =
    JsonFields.field "diagnostics"
      (JsonValue.object (
        JsonFields.field "drawing_operator_threshold" (number o.drawing_operator_threshold) (
          JsonFields.field "low_text_character_threshold" (number o.low_text_character_threshold)
            (JsonFields.field "version" (JsonValue.string o.diagnostic_version) JsonFields.end))))
      (JsonFields.field "limits" (JsonValue.object (as_settings o.limits)) JsonFields.end)
