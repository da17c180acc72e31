-- ===== src/Schema/Values.antt =====
-- `_decode_field` and `_encode_value` of schema.py. A text is kept as its UTF-8 bytes, a UUID as its
-- sixteen bytes, and a secret buffer as its content.
pub mod RoundTrip
use password_bonobo.Prelude.{
  ℕ, zero, ◌+◌, ◌-◌, ◌*◌, ◌^◌, Bool, true, false, not, ◌&&◌, ◌||◌, Option, none, some, List, [],
  ◌∷◌, ◌++◌, length, take, drop, any, ltb, leb, ◌==◌, ◌!=◌, if◌then◌else◌, bit_and,
}
use password_bonobo.Prelude.Bytes.{Bytes, from_le, to_le}
use password_bonobo.Errors.{
  Error, Result, ok, raise, value_error, type_error, malformed_vault_error, invalid_field,
  resource_limit_error, max_decoded_text_bytes, ◌>>=◌, ◌>>◌, raise_if,
}
use password_bonobo.Constants.{
  FormatVersion, from_uint16, max_io_chunk_bytes, max_decoded_text_bytes_ceiling,
}
use password_bonobo.CustomFields.{starts_with_bom}
use password_bonobo.CustomFields.Utf8.{is_utf8}
use password_bonobo.Payloads.{FieldPayload, payload_length, iter_chunks}
use password_bonobo.Payloads.Chunks.{ChunkStream, end, fault, chunk}
use password_bonobo.Model.{
  RawField, SectionName, PreservationWarning, PreservationWarningCode, unknown_field,
  malformed_optional_field,
}
use password_bonobo.Schema.{
  FieldKind, uuid, text, time, uint32, uint16, uint8, binary, opaque, empty, FieldSpec,
  MandatoryRole, optional, header_required, record_required, attachment_required, passkey_required,
  terminator, is_secret, is_mandatory, SecretClassification, secret, public, potentially_secret,
}

-- `TypedValue`
pub data TypedValue : Type 0 where
  none_value : TypedValue
  integer : ℕ → TypedValue
  version : FormatVersion → TypedValue
  uuid_value : Bytes → TypedValue
  string : Bytes → TypedValue
  secret_buffer : Bytes → TypedValue
  bytes_value : Bytes → TypedValue

pub record DecodedField : Type 0 where
  pub raw : RawField
  pub value : TypedValue
  pub warning : Option PreservationWarning

abbrev is_required : MandatoryRole → Bool
is_required optional = false
is_required terminator = false
is_required header_required = true
is_required record_required = true
is_required attachment_required = true
is_required passkey_required = true

abbrev is_time : FieldKind → Bool
is_time time = true
is_time _ = false

abbrev other_than : Option ℕ → ℕ → Bool
other_than none count = false
other_than (some fixed) count = count != fixed

-- `_length_is_malformed`
abbrev pub length_is_malformed : ℕ → FieldSpec → Bool
length_is_malformed count spec =
    if is_time spec.kind && spec.allow_historical_time && (count == 8)
    then false
    else if any (λ n. n == count) spec.alternate_lengths
    then false
    else if other_than spec.fixed_length count
    then true
    else is_required spec.mandatory_role && (count == 0)

-- `_warning`
abbrev warning_of :
    RawField → SectionName → Option ℕ → PreservationWarningCode → PreservationWarning
warning_of raw section record_ordinal code = record {
  code = code;
  section = section;
  record_ordinal = record_ordinal;
  field_ordinal = raw.ordinal;
  type_code = raw.type_code;
}

-- `_handle_malformed`
abbrev handle_malformed : RawField → FieldSpec → SectionName → Option ℕ → Result DecodedField
handle_malformed raw spec section record_ordinal =
    if is_mandatory spec.mandatory_role
    then raise (malformed_vault_error invalid_field)
    else ok (record {
      raw = raw;
      value = none_value;
      warning = some (warning_of raw section record_ordinal malformed_optional_field);
    })

-- The loop of `_materialize` over the chunks.
unfoldable pub materialize_loop : ℕ → Bytes → ChunkStream → Result Bytes
materialize_loop declared sofar end =
    if length sofar != declared then raise value_error else ok sofar
materialize_loop declared sofar (fault e) = raise e
materialize_loop declared sofar (chunk c cs) =
    let rest = materialize_loop declared (sofar ++ c) cs in
    if ltb declared (length (sofar ++ c)) then raise value_error else rest

-- `_materialize`
abbrev materialize : RawField → ℕ → Result Bytes
materialize raw maximum = do
  raise_if (not (ltb 0 maximum && leb maximum max_decoded_text_bytes_ceiling)) value_error
  raise_if (ltb maximum (payload_length raw.payload)) (resource_limit_error max_decoded_text_bytes)
  materialize_loop (payload_length raw.payload) [] (iter_chunks raw.payload max_io_chunk_bytes)

-- `_validate_utf8`
abbrev validate_utf8 : Bytes → Result (Unit {0})
validate_utf8 content = do
  raise_if (starts_with_bom content) value_error
  raise_if (not (is_utf8 content)) value_error
  ok tt

-- `_decode_historical_time`, with the value so far
abbrev decode_historical_time : ℕ → Bytes → Result ℕ
decode_historical_time value [] = ok value
decode_historical_time value (c ∷ cs) =
    if leb 0x30 c && leb c 0x39
    then decode_historical_time (value * 16 + (c - 0x30)) cs
    else if leb 0x41 c && leb c 0x46
    then decode_historical_time (value * 16 + (c - 0x41 + 10)) cs
    else if leb 0x61 c && leb c 0x66
    then decode_historical_time (value * 16 + (c - 0x61 + 10)) cs
    else raise value_error

-- `data[8] & 0xC0 != 0x80`, on sixteen bytes
abbrev is_rfc4122 : Bytes → Bool
is_rfc4122 content = bit_and (from_le (take 1 (drop 8 content))) 0xC0 == 0x80

abbrev decode_integer : ℕ → Bytes → Result TypedValue
decode_integer type_code content =
    if type_code == 0x00
    then (from_uint16 (from_le content) >>= λ v. ok (version v))
    else ok (integer (from_le content))

-- `_decode_materialized`
abbrev decode_materialized : ℕ → FieldSpec → FieldKind → Bytes → Result TypedValue
decode_materialized type_code spec empty content = ok none_value
decode_materialized type_code spec uuid content = do
  raise_if ((length content != 16) || not (is_rfc4122 content)) value_error
  ok (uuid_value content)
decode_materialized type_code spec text content = do
  validate_utf8 content
  ok (if is_secret spec.secrecy then secret_buffer content else string content)
decode_materialized type_code spec time content =
    if (length content == 8) && spec.allow_historical_time
    then (decode_historical_time 0 content >>= λ t. ok (integer t))
    else ok (integer (from_le content))
decode_materialized type_code spec uint8 content = decode_integer type_code content
decode_materialized type_code spec uint16 content = decode_integer type_code content
decode_materialized type_code spec uint32 content = decode_integer type_code content
decode_materialized type_code spec binary content =
    ok (if is_secret spec.secrecy then secret_buffer content else bytes_value content)
decode_materialized type_code spec opaque content = raise value_error

-- `except (UnicodeDecodeError, ValueError): return _handle_malformed(...)`
abbrev or_malformed :
    RawField → FieldSpec → SectionName → Option ℕ → Result TypedValue → Result DecodedField
or_malformed raw spec section record_ordinal (ok value) =
    ok (record { raw = raw; value = value; warning = none })
or_malformed raw spec section record_ordinal (raise value_error) =
    handle_malformed raw spec section record_ordinal
or_malformed raw spec section record_ordinal (raise e) = raise e

abbrev is_opaque : FieldKind → Bool
is_opaque opaque = true
is_opaque _ = false

-- `_decode_field`
unfoldable pub decode_field :
    RawField → Option FieldSpec → SectionName → Option ℕ → ℕ → Result DecodedField
decode_field raw none section record_ordinal max_decoded_bytes = ok (record {
  raw = raw;
  value = none_value;
  warning = some (warning_of raw section record_ordinal unknown_field);
})
decode_field raw (some spec) section record_ordinal max_decoded_bytes =
    if length_is_malformed (payload_length raw.payload) spec
    then handle_malformed raw spec section record_ordinal
    else if is_opaque spec.kind
    then ok (record { raw = raw; value = none_value; warning = none })
    else (do
      content ← materialize raw max_decoded_bytes
      or_malformed raw spec section record_ordinal
          (decode_materialized raw.type_code spec spec.kind content))

abbrev encode_integer : Option ℕ → ℕ → Result Bytes
encode_integer none n = raise value_error
encode_integer (some width) n =
    if ltb n (2 ^ (width * 8)) then ok (to_le width n) else raise value_error

abbrev encode_text : FieldSpec → Bytes → Result Bytes
encode_text spec content = do
  validate_utf8 content
  raise_if (is_mandatory spec.mandatory_role && (length content == 0)) value_error
  ok content

-- A `str` is refused for a secret field.
abbrev encode_string : SecretClassification → FieldSpec → Bytes → Result Bytes
encode_string secret spec content = raise type_error
encode_string public spec content = encode_text spec content
encode_string potentially_secret spec content = encode_text spec content

abbrev encode_binary : Option ℕ → Bytes → Result Bytes
encode_binary fixed_length content =
    if other_than fixed_length (length content) then raise value_error else ok content

-- `_encode_value`
unfoldable pub encode_value : FieldSpec → FieldKind → Option ℕ → TypedValue → Result Bytes
encode_value spec uuid wire_width (uuid_value content) =
    if is_rfc4122 content then ok content else raise value_error
encode_value spec uuid wire_width value = raise value_error
encode_value spec text wire_width (secret_buffer content) = encode_text spec content
encode_value spec text wire_width (string content) = encode_string spec.secrecy spec content
encode_value spec text wire_width value = raise type_error
encode_value spec time wire_width (integer n) = encode_integer wire_width n
encode_value spec time wire_width value = raise type_error
encode_value spec uint8 wire_width (integer n) = encode_integer wire_width n
encode_value spec uint8 wire_width value = raise type_error
encode_value spec uint16 wire_width (integer n) = encode_integer wire_width n
encode_value spec uint16 wire_width value = raise type_error
encode_value spec uint32 wire_width (integer n) = encode_integer wire_width n
encode_value spec uint32 wire_width value = raise type_error
encode_value spec binary wire_width (secret_buffer content) =
    if is_secret spec.secrecy then encode_binary spec.fixed_length content else raise type_error
encode_value spec binary wire_width (bytes_value content) =
    if is_secret spec.secrecy then raise type_error else encode_binary spec.fixed_length content
encode_value spec binary wire_width value = raise type_error
encode_value spec opaque wire_width value = raise value_error
encode_value spec empty wire_width value = raise value_error
