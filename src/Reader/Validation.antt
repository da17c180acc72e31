-- ===== src/Reader/Validation.antt =====
-- The validation of the authenticated fields in reader.py: version, schema, mandatory fields and
-- groups. A field keeps its place; its classification and the warnings are the result.
pub mod Bounds
pub mod Mandatory
pub mod Kept
use password_bonobo.Prelude.{
  ℕ, ◌+◌, ◌-◌, Bool, true, false, not, ◌&&◌, ◌||◌, Option, none, some, List, [], ◌∷◌, ◌++◌, length,
  all, any, ltb, leb, ◌==◌, ◌!=◌, if◌then◌else◌,
}
use password_bonobo.Prelude.Bytes.{Bytes, from_le}
use password_bonobo.Errors.{
  Error, Result, ok, raise, value_error, type_error, malformed_vault_error, invalid_field,
  missing_mandatory_field, unsupported_format_error, unsupported_version,
  unsupported_mandatory_content, resource_limit_error, max_decoded_text_bytes, ◌>>=◌, ◌>>◌,
  raise_if,
}
use password_bonobo.Constants.{
  FormatVersion, from_uint16, supported, ResourceLimits, max_decoded_text_bytes_ceiling,
}
use password_bonobo.CustomFields.{CustomField, parse_custom_fields}
use password_bonobo.Payloads.{FieldPayload, payload_length, iter_chunks}
use password_bonobo.Payloads.Chunks.{ChunkStream, end, fault, chunk}
use password_bonobo.Model.{
  RawField, SectionName, header, record_section, FieldClassification, unknown, malformed,
  PreservationWarning, PreservationWarningCode, unknown_field, duplicate_optional_field,
  malformed_optional_field,
}
use password_bonobo.Schema.{
  FieldSpec, FieldKind, text, FieldMultiplicity, single, multiple, MandatoryRole,
  attachment_required, passkey_required, is_mandatory, record_schema, lookup_header_spec,
  lookup_record_spec,
}
use password_bonobo.Schema.Values.{DecodedField, TypedValue, secret_buffer, decode_field}
use password_bonobo.Reader.Builder.{BuilderField, raw_field}
use password_bonobo.Reader.Version.{count_type}

-- `_field_spec`
abbrev pub field_spec : SectionName → ℕ → Option FieldSpec
field_spec header type_code = lookup_header_spec type_code
field_spec record_section type_code = lookup_record_spec type_code

abbrev section_warning :
    PreservationWarningCode → SectionName → Option ℕ → BuilderField → PreservationWarning
section_warning code section record_ordinal item = record {
  code = code;
  section = section;
  record_ordinal = record_ordinal;
  field_ordinal = item.ordinal;
  type_code = item.type_code;
}

-- `_decode_one`
abbrev decode_one : RawField → SectionName → Option ℕ → ResourceLimits → Result DecodedField
decode_one raw header record_ordinal limits =
    decode_field raw (lookup_header_spec raw.type_code) header none limits.max_decoded_text_bytes
decode_one raw record_section none limits = raise (malformed_vault_error invalid_field)
decode_one raw record_section (some ordinal) limits =
    decode_field raw (lookup_record_spec raw.type_code) record_section (some ordinal)
      limits.max_decoded_text_bytes

-- A field with the warnings that it gives.
abbrev Judged : Type 0
Judged = BuilderField × List PreservationWarning

-- `except (TypeError, ValueError)` around the parser of custom fields
abbrev or_malformed_custom :
    BuilderField → Option ℕ → List PreservationWarning → Result (List CustomField) → Result Judged
or_malformed_custom item record_ordinal warnings (ok fields) = ok (item, warnings)
or_malformed_custom item record_ordinal warnings (raise value_error) = ok (
  record item { classification = malformed },
  warnings ++ (section_warning malformed_optional_field record_section record_ordinal item ∷ []),
)
or_malformed_custom item record_ordinal warnings (raise type_error) = ok (
  record item { classification = malformed },
  warnings ++ (section_warning malformed_optional_field record_section record_ordinal item ∷ []),
)
or_malformed_custom item record_ordinal warnings (raise e) = raise e

-- `_validate_custom_projection`, on a custom text field of a record
abbrev validate_custom_projection :
    TypedValue → BuilderField → SectionName → Option ℕ → List PreservationWarning → Result Judged
validate_custom_projection (secret_buffer content) item record_section (some ordinal) warnings =
    if item.type_code == 0x30
    then or_malformed_custom item (some ordinal) warnings
        (parse_custom_fields content max_decoded_text_bytes_ceiling)
    else ok (item, warnings)
validate_custom_projection value item section record_ordinal warnings = ok (item, warnings)

-- The decoding of a known field.
unfoldable pub judge_decoded :
    SectionName
    → Option ℕ
    → ResourceLimits
    → BuilderField
    → List PreservationWarning
    → Result Judged
judge_decoded section record_ordinal limits item warnings = do
  decoded ← decode_one (raw_field item) section record_ordinal limits
  elim decoded.warning [
    | none ↦ validate_custom_projection decoded.value item section record_ordinal warnings
    | some warning ↦
        validate_custom_projection decoded.value (record item { classification = malformed })
          section record_ordinal (warnings ++ (warning ∷ []))
  ]

-- The bytes that a field counts for in the budget of decoded text.
abbrev pub text_bytes : FieldKind → ℕ → ℕ
text_bytes text count = count
text_bytes _ count = 0

abbrev is_text : FieldKind → Bool
is_text text = true
is_text _ = false

abbrev is_single : FieldMultiplicity → Bool
is_single single = true
is_single multiple = false

-- A known field, given the codes that were seen before it and the bytes decoded so far.
unfoldable pub judge_known :
    FieldSpec
    → SectionName
    → Option ℕ
    → FormatVersion
    → ResourceLimits
    → List ℕ
    → ℕ
    → BuilderField
    → Result Judged
judge_known spec section record_ordinal version limits seen decoded_total item = do
  raise_if (ltb version.value spec.since.value)
      (unsupported_format_error unsupported_mandatory_content)
  let repeated = any (λ t. t == item.type_code) seen && is_single spec.multiplicity
  raise_if (repeated && is_mandatory spec.mandatory_role) (malformed_vault_error invalid_field)
  raise_if
      (is_text spec.kind
        && ltb (limits.max_decoded_text_bytes - decoded_total) (payload_length item.payload))
      (resource_limit_error max_decoded_text_bytes)
  judge_decoded section record_ordinal limits item (
      if repeated
      then section_warning duplicate_optional_field section record_ordinal item ∷ []
      else [])

-- What the validation of a sequence returns: the classified fields, the warnings in order, and
-- the decoded bytes.
pub record Validated : Type 0 where
  pub fields : List BuilderField
  pub warnings : List PreservationWarning
  pub decoded_total : ℕ

abbrev pub joined : Judged → Validated → Validated
joined judged v = record {
  fields = judged.0 ∷ v.fields;
  warnings = judged.1 ++ v.warnings;
  decoded_total = v.decoded_total;
}

-- The loop of `_validate_field_sequence`; `seen` stands for the dictionary of occurrences.
unfoldable pub validate_sequence :
    SectionName
    → Option ℕ
    → FormatVersion
    → ResourceLimits
    → List ℕ
    → ℕ
    → List BuilderField
    → Result Validated
validate_sequence section record_ordinal version limits seen decoded_total [] =
    ok (record { fields = []; warnings = []; decoded_total = decoded_total })
validate_sequence section record_ordinal version limits seen decoded_total (item ∷ items) =
    elim (field_spec section item.type_code) [
      | none ↦
          validate_sequence section record_ordinal version limits seen decoded_total items >>= λ v.
          ok (
            joined
              (
                record item { classification = unknown },
                section_warning unknown_field section record_ordinal item ∷ [],
              )
              v)
      | some spec ↦
          judge_known spec section record_ordinal version limits seen decoded_total item
          >>= λ judged.
              validate_sequence section record_ordinal version limits (item.type_code ∷ seen)
                (decoded_total + text_bytes spec.kind (payload_length item.payload)) items
              >>= λ v. ok (joined judged v)
    ]

-- `_validate_record_mandatory`: UUID, title and password.
unfoldable pub validate_record_mandatory : List BuilderField → Result (Unit {0})
validate_record_mandatory fields = do
  raise_if (count_type 0x01 fields != 1) (malformed_vault_error missing_mandatory_field)
  raise_if (count_type 0x03 fields != 1) (malformed_vault_error missing_mandatory_field)
  raise_if (count_type 0x06 fields != 1) (malformed_vault_error missing_mandatory_field)
  ok tt

abbrev has_role : MandatoryRole → MandatoryRole → Bool
has_role attachment_required attachment_required = true
has_role passkey_required passkey_required = true
has_role _ _ = false

-- The codes of the record schema that have this role.
abbrev required : MandatoryRole → List (ℕ × FieldSpec) → List ℕ
required role [] = []
required role ((code, spec) ∷ rows) =
    if has_role role spec.mandatory_role then code ∷ required role rows else required role rows

abbrev pub present : List BuilderField → ℕ → Bool
present fields type_code = any (λ item. item.type_code == type_code) fields

abbrev has_between : ℕ → ℕ → List BuilderField → Bool
has_between low high fields = any (λ item. leb low item.type_code && leb item.type_code high) fields

-- `_validate_conditional_groups`
unfoldable pub validate_conditional_groups : List BuilderField → Result (Unit {0})
validate_conditional_groups fields = do
  raise_if
      (has_between 0x25 0x29 fields
        && not (all (present fields) (required attachment_required record_schema)))
      (malformed_vault_error missing_mandatory_field)
  raise_if
      (has_between 0x2A 0x2F fields
        && not (all (present fields) (required passkey_required record_schema)))
      (malformed_vault_error missing_mandatory_field)
  ok tt

-- Whether the last field is the end marker.
abbrev ends_with_marker : List BuilderField → Bool
ends_with_marker [] = false
ends_with_marker (item ∷ []) = item.type_code == 0xFF
ends_with_marker (item ∷ next ∷ items) = ends_with_marker (next ∷ items)

pub record ValidatedRecords : Type 0 where
  pub records : List (List BuilderField)
  pub warnings : List PreservationWarning
  pub decoded_total : ℕ

-- The loop over the records.
unfoldable pub validate_records :
    FormatVersion → ResourceLimits → ℕ → ℕ → List (List BuilderField) → Result ValidatedRecords
validate_records version limits ordinal decoded_total [] =
    ok (record { records = []; warnings = []; decoded_total = decoded_total })
validate_records version limits ordinal decoded_total (fields ∷ records) = do
  raise_if (not (ends_with_marker fields)) (malformed_vault_error missing_mandatory_field)
  v ← validate_sequence record_section (some ordinal) version limits [] decoded_total fields
  validate_record_mandatory v.fields
  validate_conditional_groups v.fields
  rest ← validate_records version limits (ordinal + 1) v.decoded_total records
  ok (record {
    records = v.fields ∷ rest.records;
    warnings = v.warnings ++ rest.warnings;
    decoded_total = rest.decoded_total;
  })

-- `_validate_schema_fields`: the classified header and records, with the warnings.
unfoldable pub validate_schema_fields :
    List BuilderField
    → List (List BuilderField)
    → FormatVersion
    → ResourceLimits
    → Result (Validated × ValidatedRecords)
validate_schema_fields header_fields records version limits = do
  raise_if (not (ends_with_marker header_fields)) (malformed_vault_error missing_mandatory_field)
  h ← validate_sequence header none version limits [] 0 header_fields
  r ← validate_records version limits 0 h.decoded_total records
  ok (h, r)
