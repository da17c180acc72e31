-- ===== src/Model/Documents.antt =====
-- `documents_equal_exact` of model.py, and `_field_sequences_equal`. The documents are open.
pub mod Laws
use password_bonobo.Prelude.{
  ℕ, Bool, true, false, not, ◌&&◌, ◌||◌, Option, none, some, List, [], ◌∷◌, length, ◌==◌, ◌!=◌,
  if◌then◌else◌,
}
use password_bonobo.Errors.{Result, ok, raise, value_error, ◌>>=◌, ◌>>◌, raise_if}
use password_bonobo.Constants.{FormatVersion}
use password_bonobo.Payloads.{payload_length, chunk_size_rejected}
use password_bonobo.Model.{
  FieldClassification, understood, unknown, malformed, RawField, RawRecord, VaultDocument,
  PreservationWarning, PreservationWarningCode, malformed_optional_field, duplicate_optional_field,
  unknown_field, SectionName, header, record_section,
}
use password_bonobo.Model.Equality.{payloads_equal}

abbrev pub same_classification : FieldClassification → FieldClassification → Bool
same_classification understood understood = true
same_classification unknown unknown = true
same_classification malformed malformed = true
same_classification _ _ = false

abbrev same_code : PreservationWarningCode → PreservationWarningCode → Bool
same_code malformed_optional_field malformed_optional_field = true
same_code duplicate_optional_field duplicate_optional_field = true
same_code unknown_field unknown_field = true
same_code _ _ = false

abbrev same_section : SectionName → SectionName → Bool
same_section header header = true
same_section record_section record_section = true
same_section _ _ = false

abbrev same_option : Option ℕ → Option ℕ → Bool
same_option none none = true
same_option (some a) (some b) = a == b
same_option _ _ = false

abbrev same_warning : PreservationWarning → PreservationWarning → Bool
same_warning a b =
    same_code a.code b.code
    && same_section a.section b.section
    && same_option a.record_ordinal b.record_ordinal
    && (a.field_ordinal == b.field_ordinal)
    && (a.type_code == b.type_code)

pub same_warnings : List PreservationWarning → List PreservationWarning → Bool
same_warnings [] [] = true
same_warnings (a ∷ xs) (b ∷ ys) = same_warning a b && same_warnings xs ys
same_warnings _ _ = false

abbrev pub same_shape : RawField → RawField → Bool
same_shape a b =
    (a.type_code == b.type_code)
    && (a.ordinal == b.ordinal)
    && same_classification a.classification b.classification
    && (payload_length a.payload == payload_length b.payload)

-- The loop of `_field_sequences_equal` over sequences of one length
pub fields_equal : List RawField → List RawField → ℕ → Result Bool
fields_equal (a ∷ xs) (b ∷ ys) chunk_size =
    let tail = fields_equal xs ys chunk_size in
    let here =
      payloads_equal a.payload b.payload chunk_size >>= λ equal. if equal then tail else ok false in
    if same_shape a b then here else ok false
fields_equal _ _ chunk_size = ok true

-- `_field_sequences_equal`
pub field_sequences_equal : List RawField → List RawField → ℕ → Result Bool
unfolding fields_equal
field_sequences_equal xs ys chunk_size =
    if length xs != length ys then ok false else fields_equal xs ys chunk_size

-- The loop of `documents_equal_exact` over the records
pub records_equal : List RawRecord → List RawRecord → ℕ → Result Bool
unfolding field_sequences_equal
records_equal (a ∷ xs) (b ∷ ys) chunk_size =
    let tail = records_equal xs ys chunk_size in
    let here = field_sequences_equal a.fields b.fields chunk_size >>= λ equal.
    if equal then tail else ok false in
    if a.ordinal == b.ordinal then here else ok false
records_equal _ _ chunk_size = ok true

abbrev pub same_frame : VaultDocument → VaultDocument → Bool
same_frame a b =
    (a.version.value == b.version.value)
    && same_warnings a.warnings b.warnings
    && (length a.header_fields == length b.header_fields)
    && (length a.records == length b.records)

-- The sections of documents that agree in version, warnings and counts.
pub sections_equal : VaultDocument → VaultDocument → ℕ → Result Bool
unfolding records_equal
sections_equal a b chunk_size = do
  headers ← field_sequences_equal a.header_fields b.header_fields chunk_size
  if headers then records_equal a.records b.records chunk_size else ok false

-- `documents_equal_exact`
unfoldable pub documents_equal_exact : VaultDocument → VaultDocument → ℕ → Result Bool
unfolding sections_equal same_warnings
documents_equal_exact a b chunk_size = do
  raise_if (chunk_size_rejected chunk_size) value_error
  if same_frame a b then sections_equal a b chunk_size else ok false
