-- ===== src/Schema/Fields.antt =====
-- The raw fields of schema.py: `decode_record_field`, `encode_record_field`,
-- `encode_new_record_field` and `ensure_fields_representable`. The tests of Python types and the
-- wiping of the encoded bytes are not modelled.
pub mod Types
use password_bonobo.Prelude.{
  ℕ, Bool, true, false, not, ◌||◌, Option, none, some, List, [], ◌∷◌, length, any, ltb, ◌==◌, ◌!=◌,
  if◌then◌else◌,
}
use password_bonobo.Errors.{
  Result, ok, raise, value_error, incompatible_export_error, unrepresentable_field,
  target_version_unsupported, ◌>>=◌, ◌>>◌, raise_if,
}
use password_bonobo.Constants.{FormatVersion, supported}
use password_bonobo.Payloads.{inline, payload_length}
use password_bonobo.Model.{RawField, SectionName, header, record_section, FieldClassification}
use password_bonobo.Schema.{
  FieldSpec, FieldKind, opaque, empty, lookup_header_spec, lookup_record_spec,
}
use password_bonobo.Schema.Values.{TypedValue, DecodedField, decode_field, encode_value}

-- `decode_record_field`
abbrev pub decode_record_field : RawField → ℕ → ℕ → Result DecodedField
decode_record_field raw record_ordinal max_decoded_bytes =
    decode_field raw (lookup_record_spec raw.type_code) record_section (some record_ordinal)
      max_decoded_bytes

abbrev pub is_opaque_or_empty : FieldKind → Bool
is_opaque_or_empty opaque = true
is_opaque_or_empty empty = true
is_opaque_or_empty _ = false

abbrev pub not_editable : FieldSpec → Bool
not_editable spec = not spec.editable || is_opaque_or_empty spec.kind

abbrev equals_fixed : Option ℕ → ℕ → Bool
equals_fixed none n = false
equals_fixed (some fixed) n = fixed == n

-- The width of `_encode_field`: the source's own, where several are allowed.
abbrev wire_width : FieldSpec → List ℕ → ℕ → Result (Option ℕ)
wire_width spec [] source_length = ok spec.fixed_length
wire_width spec (n ∷ ns) source_length =
    if equals_fixed spec.fixed_length source_length || any (λ m. m == source_length) (n ∷ ns)
    then ok (some source_length)
    else raise value_error

-- `_encode_field`
abbrev pub encode_field : RawField → FieldSpec → TypedValue → Result RawField
encode_field raw spec value = do
  raise_if (not_editable spec) value_error
  width ← wire_width spec spec.alternate_lengths (payload_length raw.payload)
  content ← encode_value spec spec.kind width value
  ok (record {
    type_code = raw.type_code;
    payload = inline content;
    ordinal = raw.ordinal;
    classification = raw.classification;
  })

encode_known : RawField → Option FieldSpec → TypedValue → Result RawField
encode_known raw none value = raise value_error
encode_known raw (some spec) value = encode_field raw spec value

-- `encode_record_field`
unfoldable pub encode_record_field : RawField → TypedValue → Result RawField
unfolding encode_known
encode_record_field raw value = encode_known raw (lookup_record_spec raw.type_code) value

-- `encode_new_record_field`, for a type of this specification
unfoldable pub encode_new_record_field :
    ℕ → FieldSpec → TypedValue → ℕ → FieldClassification → Result RawField
encode_new_record_field field_type spec value ordinal classification = do
  raise_if (not_editable spec) value_error
  content ← encode_value spec spec.kind spec.fixed_length value
  ok (record {
    type_code = field_type;
    payload = inline content;
    ordinal = ordinal;
    classification = classification;
  })

abbrev lookup_spec : SectionName → ℕ → Option FieldSpec
lookup_spec header type_code = lookup_header_spec type_code
lookup_spec record_section type_code = lookup_record_spec type_code

abbrev unrepresentable : Option FieldSpec → FormatVersion → Bool
unrepresentable none target = true
unrepresentable (some spec) target = ltb target.value spec.since.value

abbrev ensure_all : List RawField → SectionName → FormatVersion → Result (Unit {0})
ensure_all [] section target = ok tt
ensure_all (raw ∷ raws) section target =
    if unrepresentable (lookup_spec section raw.type_code) target
    then raise (incompatible_export_error unrepresentable_field)
    else ensure_all raws section target

-- `ensure_fields_representable`
unfoldable pub ensure_fields_representable :
    List RawField → SectionName → FormatVersion → Result (Unit {0})
ensure_fields_representable raws section target = do
  raise_if (not (supported target)) (incompatible_export_error target_version_unsupported)
  ensure_all raws section target
