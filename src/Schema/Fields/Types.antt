-- ===== src/Schema/Fields/Types.antt =====
-- A field that schema.py encodes keeps its type, or has the one that was asked for.
use password_bonobo.Prelude.{ℕ, ◌≡◌, sym, ap, Option, none, some}
use password_bonobo.Prelude.Bytes.{Bytes}
use password_bonobo.Errors.{ok, value_error, raise-neq-ok, ok-injective, passed, first_part, ◌>>=◌}
use password_bonobo.Payloads.{inline, payload_length}
use password_bonobo.Model.{RawField, FieldClassification}
use password_bonobo.Schema.{FieldSpec, lookup_record_spec}
use password_bonobo.Schema.Values.{TypedValue, encode_value}
use password_bonobo.Schema.Fields.{
  not_editable, wire_width, encode_known, encode_record_field, encode_new_record_field,
}

-- A new field has the type, and the encoded value as its content.
pub encode_new_record_field-content :
    (t : ℕ) (spec : FieldSpec) (value : TypedValue) (ordinal : ℕ) (c : FieldClassification)
    (encoded : RawField)
    → encode_new_record_field t spec value ordinal c ≡ ok encoded
    → (content : Bytes) × (encode_value spec spec.kind spec.fixed_length value ≡ ok content)
      × (record { type_code = t; payload = inline content; ordinal = ordinal; classification = c }
          ≡ encoded)
unfolding encode_new_record_field
encode_new_record_field-content t spec value ordinal c encoded e =
    let (_, e1) = passed (not_editable spec) value_error _ e in
    let (content, e2, e3) =
      first_part (encode_value spec spec.kind spec.fixed_length value)
        (λ content. ok (record {
          type_code = t;
          payload = inline content;
          ordinal = ordinal;
          classification = c;
        }))
        e1 in
    (content, e2, ok-injective e3)

pub encode_new_record_field-type :
    (t : ℕ) (spec : FieldSpec) (value : TypedValue) (ordinal : ℕ) (c : FieldClassification)
    (encoded : RawField)
    → encode_new_record_field t spec value ordinal c ≡ ok encoded
    → encoded.type_code ≡ t
encode_new_record_field-type t spec value ordinal c encoded e =
    let (content, _, same) = encode_new_record_field-content t spec value ordinal c encoded e in
    ap (λ m. m.type_code) (sym same)

encode_known-type :
    (raw : RawField) (spec : Option FieldSpec) (value : TypedValue) (encoded : RawField)
    → encode_known raw spec value ≡ ok encoded
    → encoded.type_code ≡ raw.type_code
unfolding encode_known
encode_known-type raw none value encoded e = absurd (raise-neq-ok e)
encode_known-type raw (some spec) value encoded e =
    let (_, e1) = passed (not_editable spec) value_error _ e in
    let (width, _, e2) =
      first_part (wire_width spec spec.alternate_lengths (payload_length raw.payload))
        (λ width. encode_value spec spec.kind width value >>= λ content. ok (record {
          type_code = raw.type_code;
          payload = inline content;
          ordinal = raw.ordinal;
          classification = raw.classification;
        }))
        e1 in
    let (content, _, e3) =
      first_part (encode_value spec spec.kind width value)
        (λ content. ok (record {
          type_code = raw.type_code;
          payload = inline content;
          ordinal = raw.ordinal;
          classification = raw.classification;
        }))
        e2 in
    ap (λ m. m.type_code) (sym (ok-injective e3))

pub encode_record_field-type :
    (raw : RawField) (value : TypedValue) (encoded : RawField)
    → encode_record_field raw value ≡ ok encoded
    → encoded.type_code ≡ raw.type_code
unfolding encode_record_field
encode_record_field-type raw value encoded e =
    encode_known-type raw (lookup_record_spec raw.type_code) value encoded e
