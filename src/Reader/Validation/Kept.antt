-- ===== src/Reader/Validation/Kept.antt =====
-- The validation of reader.py keeps every field where it is: only classifications change.
use password_bonobo.Prelude.{
  ℕ, ◌+◌, ◌≡◌, sym, ap, ap₂, subst, ◌∙◌, not, any, Option, none, some, List, [], ◌∷◌, ◌++◌, map,
  inl, inr, Bool-cases, Option-cases, ◌==◌, ◌&&◌, ltb, ◌-◌, if◌then◌else◌, arith,
}
use password_bonobo.Errors.{
  malformed_vault_error, missing_mandatory_field, Result, ok, Result-cases, raise-neq-ok,
  ok-injective, passed, first_part,
}
use password_bonobo.Constants.{FormatVersion, ResourceLimits}
use password_bonobo.CustomFields.{CustomField}
use password_bonobo.Payloads.{FieldPayload, payload_length}
use password_bonobo.Model.{
  SectionName, header, record_section, PreservationWarning, malformed, duplicate_optional_field,
}
use password_bonobo.Schema.{FieldSpec, is_mandatory}
use password_bonobo.Schema.Values.{
  TypedValue, secret_buffer, none_value, integer, uuid_value, string, bytes_value,
}
use password_bonobo.Reader.Builder.{BuilderField, raw_field}
use password_bonobo.Reader.Validation.{
  Validated, ValidatedRecords, Judged, is_single, is_text, section_warning, field_spec, decode_one,
  or_malformed_custom, validate_custom_projection, judge_decoded, judge_known, text_bytes,
  validate_sequence, validate_records, validate_record_mandatory, validate_conditional_groups,
  ends_with_marker, validate_schema_fields,
}

-- A field without its classification.
abbrev pub place : BuilderField → ℕ × FieldPayload × ℕ
place item = (item.type_code, item.payload, item.ordinal)

custom_place :
    (item : BuilderField) (record_ordinal : Option ℕ) (warnings : List PreservationWarning)
    (r : Result (List CustomField)) (judged : Judged)
    → or_malformed_custom item record_ordinal warnings r ≡ ok judged
    → place judged.0 ≡ place item
custom_place item record_ordinal warnings r judged h = ground arith

projected_place :
    (value : TypedValue) (item : BuilderField) (section : SectionName) (record_ordinal : Option ℕ)
    (warnings : List PreservationWarning) (judged : Judged)
    → validate_custom_projection value item section record_ordinal warnings ≡ ok judged
    → place judged.0 ≡ place item
projected_place (secret_buffer content) item record_section (some ordinal) warnings judged h =
    elim (Bool-cases (item.type_code == 0x30)) [
      | inl t ↦ custom_place item (some ordinal) warnings _ judged (rw t at h)
      | inr t ↦ ap (λ j. place j.0) (sym (ok-injective (rw t at h)))
    ]
projected_place (secret_buffer content) item record_section none warnings judged h =
    ap (λ j. place j.0) (sym (ok-injective h))
projected_place (secret_buffer content) item header record_ordinal warnings judged h =
    ap (λ j. place j.0) (sym (ok-injective h))
projected_place none_value item section record_ordinal warnings judged h =
    ap (λ j. place j.0) (sym (ok-injective h))
projected_place (integer n) item section record_ordinal warnings judged h =
    ap (λ j. place j.0) (sym (ok-injective h))
projected_place (TypedValue.version v) item section record_ordinal warnings judged h =
    ap (λ j. place j.0) (sym (ok-injective h))
projected_place (uuid_value b) item section record_ordinal warnings judged h =
    ap (λ j. place j.0) (sym (ok-injective h))
projected_place (string b) item section record_ordinal warnings judged h =
    ap (λ j. place j.0) (sym (ok-injective h))
projected_place (bytes_value b) item section record_ordinal warnings judged h =
    ap (λ j. place j.0) (sym (ok-injective h))

judge_decoded-place :
    (section : SectionName) (record_ordinal : Option ℕ) (limits : ResourceLimits)
    (item : BuilderField) (warnings : List PreservationWarning) (judged : Judged)
    → judge_decoded section record_ordinal limits item warnings ≡ ok judged
    → place judged.0 ≡ place item
unfolding judge_decoded
judge_decoded-place section record_ordinal limits item warnings judged h =
    elim (Result-cases (decode_one (raw_field item) section record_ordinal limits)) [
      | inr (_, e) ↦ absurd (raise-neq-ok (rw e at h))
      | inl (decoded, e) ↦ elim (Option-cases decoded.warning) [
        | inl f ↦
            projected_place decoded.value item section record_ordinal warnings judged
              (rw (e, f) at h)
        | inr (warning, f) ↦
            projected_place decoded.value (record item { classification = malformed }) section
              record_ordinal (warnings ++ (warning ∷ [])) judged (rw (e, f) at h)
      ]
    ]

judge_known-place :
    (spec : FieldSpec) (section : SectionName) (record_ordinal : Option ℕ) (version : FormatVersion)
    (limits : ResourceLimits) (seen : List ℕ) (decoded_total : ℕ) (item : BuilderField)
    (judged : Judged)
    → judge_known spec section record_ordinal version limits seen decoded_total item ≡ ok judged
    → place judged.0 ≡ place item
unfolding judge_known
judge_known-place spec section record_ordinal version limits seen decoded_total item judged h =
    let repeated = any (λ t. t == item.type_code) seen && is_single spec.multiplicity in
    let late = ltb version.value spec.since.value in
    let twice = repeated && is_mandatory spec.mandatory_role in
    let long =
      is_text spec.kind
      && ltb (limits.max_decoded_text_bytes - decoded_total) (payload_length item.payload) in
    elim (Bool-cases late) [
      | inl a ↦ absurd (raise-neq-ok (rw a at h))
      | inr a ↦ elim (Bool-cases twice) [
        | inl b ↦ absurd (raise-neq-ok (rw (a, b) at h))
        | inr b ↦ elim (Bool-cases long) [
          | inl c ↦ absurd (raise-neq-ok (rw (a, b, c) at h))
          | inr c ↦
              judge_decoded-place section record_ordinal limits item
                (if repeated
                  then section_warning duplicate_optional_field section record_ordinal item ∷ []
                  else [])
                judged (rw (a, b, c) at h)
        ]
      ]
    ]

validate_sequence-place :
    (section : SectionName) (record_ordinal : Option ℕ) (version : FormatVersion)
    (limits : ResourceLimits) (seen : List ℕ) (decoded_total : ℕ) (items : List BuilderField)
    (v : Validated)
    → validate_sequence section record_ordinal version limits seen decoded_total items ≡ ok v
    → map place v.fields ≡ map place items
unfolding validate_sequence
validate_sequence-place section record_ordinal version limits seen decoded_total [] v h =
    sym (ap (λ w. map place w.fields) (ok-injective h))
validate_sequence-place section record_ordinal version limits seen decoded_total (item ∷ items) v
      h =
    elim (Option-cases (field_spec section item.type_code)) [
      | inl a ↦
          elim (Result-cases
            (validate_sequence section record_ordinal version limits seen decoded_total items)) [
              | inr (_, b) ↦ absurd (raise-neq-ok (rw (validate_sequence, a, b) at h))
              | inl (rest, b) ↦
                  sym (
                    ap (λ w. map place w.fields) (ok-injective (rw (validate_sequence, a, b) at h)))
                  ∙ ap (λ xs. place item ∷ xs)
                      (validate_sequence-place section record_ordinal version limits seen
                        decoded_total items rest b)
            ]
      | inr (spec, a) ↦
          elim (Result-cases
            (judge_known spec section record_ordinal version limits seen decoded_total item)) [
              | inr (_, b) ↦ absurd (raise-neq-ok (rw (validate_sequence, a, b) at h))
              | inl (judged, b) ↦
                  let total = decoded_total + text_bytes spec.kind (payload_length item.payload) in
                  elim (Result-cases (
                    validate_sequence section record_ordinal version limits (item.type_code ∷ seen)
                      total items)) [
                        | inr (_, c) ↦ absurd (raise-neq-ok (rw (validate_sequence, a, b, c) at h))
                        | inl (rest, c) ↦
                            sym (
                              ap (λ w. map place w.fields)
                                (ok-injective (rw (validate_sequence, a, b, c) at h)))
                            ∙ ap₂ (λ x xs. x ∷ xs)
                                (judge_known-place spec section record_ordinal version limits seen
                                  decoded_total item judged b)
                                (validate_sequence-place section record_ordinal version limits
                                  (item.type_code ∷ seen) total items rest c)
                      ]
            ]
    ]

validate_records-place :
    (version : FormatVersion) (limits : ResourceLimits) (ordinal decoded_total : ℕ)
    (records : List (List BuilderField)) (v : ValidatedRecords)
    → validate_records version limits ordinal decoded_total records ≡ ok v
    → map (map place) v.records ≡ map (map place) records
unfolding validate_records
validate_records-place version limits ordinal decoded_total [] v h =
    sym (ap (λ w. map (map place) w.records) (ok-injective h))
validate_records-place version limits ordinal decoded_total (fields ∷ records) v h =
    let (_, h1) =
      passed (not (ends_with_marker fields)) (malformed_vault_error missing_mandatory_field) _ h in
    let (one, a, h2) =
      first_part
        (validate_sequence record_section (some ordinal) version limits [] decoded_total fields) _
        h1 in
    let (_, b, h3) = first_part (validate_record_mandatory one.fields) _ h2 in
    let (_, c, h4) = first_part (validate_conditional_groups one.fields) _ h3 in
    let (rest, d, h5) =
      first_part (validate_records version limits (ordinal + 1) one.decoded_total records) _ h4 in
    sym (ap (λ w. map (map place) w.records) (ok-injective h5))
    ∙ ap₂ (λ x xs. x ∷ xs)
        (validate_sequence-place record_section (some ordinal) version limits [] decoded_total
          fields one a)
        (validate_records-place version limits (ordinal + 1) one.decoded_total records rest d)

-- Every field of the validated sections has the type, the payload and the ordinal it had.
pub validate_schema_fields-place :
    (header_fields : List BuilderField) (records : List (List BuilderField))
    (version : FormatVersion) (limits : ResourceLimits) (out : Validated × ValidatedRecords)
    → validate_schema_fields header_fields records version limits ≡ ok out
    → (map place out.0.fields ≡ map place header_fields)
      × (map (map place) out.1.records ≡ map (map place) records)
unfolding validate_schema_fields
validate_schema_fields-place header_fields records version limits out h =
    let (_, h1) =
      passed (not (ends_with_marker header_fields)) (malformed_vault_error missing_mandatory_field)
        _ h in
    let (one, a, h2) =
      first_part (validate_sequence header none version limits [] 0 header_fields) _ h1 in
    let (rest, b, h3) =
      first_part (validate_records version limits 0 one.decoded_total records) _ h2 in
    subst
      (λ o.
        (map place o.0.fields ≡ map place header_fields)
        × (map (map place) o.1.records ≡ map (map place) records))
      (ok-injective h3)
      (
        validate_sequence-place header none version limits [] 0 header_fields one a,
        validate_records-place version limits 0 one.decoded_total records rest b,
      )
