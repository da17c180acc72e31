-- ===== src/Reader/Validation/Bounds.antt =====
-- The budget of decoded text in the validation of reader.py.
use password_bonobo.Prelude.{
  ℕ, ◌+◌, ◌-◌, ◌≡◌, ◌≤◌, subst, false, not, ◌&&◌, inl, inr, Option, none, some, List, [], ◌∷◌, any,
  ltb, ◌==◌, Bool-cases, Option-cases, arith,
}
use password_bonobo.Errors.{ok, Result-cases, raise-neq-ok, ok-injective}
use password_bonobo.Constants.{FormatVersion, ResourceLimits}
use password_bonobo.Model.{SectionName, record_section, header}
use password_bonobo.Payloads.{payload_length}
use password_bonobo.Schema.{FieldSpec, FieldKind, is_mandatory}
use password_bonobo.Reader.Builder.{BuilderField}
use password_bonobo.Reader.Validation.{
  Judged, Validated, ValidatedRecords, field_spec, text_bytes, is_text, is_single, judge_known,
  validate_sequence, validate_record_mandatory, validate_conditional_groups, validate_records,
  validate_schema_fields, ends_with_marker,
}

-- The bytes of the text fields of a section.
abbrev pub text_size : Option FieldSpec → BuilderField → ℕ
text_size none item = 0
text_size (some spec) item = text_bytes spec.kind (payload_length item.payload)

abbrev pub text_total : SectionName → List BuilderField → ℕ
text_total section [] = 0
text_total section (item ∷ items) =
    text_size (field_spec section item.type_code) item + text_total section items

abbrev pub records_text : List (List BuilderField) → ℕ
records_text [] = 0
records_text (fields ∷ records) = text_total record_section fields + records_text records

text_fits :
    (kind : FieldKind) (limit total count : ℕ)
    → total ≤ limit
    → (is_text kind && ltb (limit - total) count) ≡ false
    → total + text_bytes kind count ≤ limit
text_fits kind limit total count h k = ground (arith, h, k)

judge_known-fits :
    (spec : FieldSpec) (section : SectionName) (record_ordinal : Option ℕ) (version : FormatVersion)
    (limits : ResourceLimits) (seen : List ℕ) (decoded_total : ℕ) (item : BuilderField)
    (judged : Judged)
    → judge_known spec section record_ordinal version limits seen decoded_total item ≡ ok judged
    → decoded_total ≤ limits.max_decoded_text_bytes
    → decoded_total + text_bytes spec.kind (payload_length item.payload)
      ≤ limits.max_decoded_text_bytes
unfolding judge_known
judge_known-fits spec section record_ordinal version limits seen decoded_total item judged h fits =
    elim (Bool-cases (ltb version.value spec.since.value)) [
      | inl a ↦ absurd (raise-neq-ok (rw a at h))
      | inr a ↦
          elim (Bool-cases (
            (any (λ t. t == item.type_code) seen && is_single spec.multiplicity)
            && is_mandatory spec.mandatory_role)) [
              | inl b ↦ absurd (raise-neq-ok (rw (a, b) at h))
              | inr b ↦
                  elim (Bool-cases (
                    is_text spec.kind
                    && ltb (limits.max_decoded_text_bytes - decoded_total)
                        (payload_length item.payload))) [
                          | inl c ↦ absurd (raise-neq-ok (rw (a, b, c) at h))
                          | inr c ↦
                              text_fits spec.kind limits.max_decoded_text_bytes decoded_total
                                (payload_length item.payload) fits c
                        ]
            ]
    ]

-- A total that grew by the text bytes and stayed within the limit.
record IsWithin (limits : ResourceLimits) (before added after : ℕ) : Type 0 where
  grown : after ≡ before + added
  bounded : after ≤ limits.max_decoded_text_bytes

validate_sequence-IsWithin :
    (section : SectionName) (record_ordinal : Option ℕ) (version : FormatVersion)
    (limits : ResourceLimits) (seen : List ℕ) (decoded_total : ℕ) (items : List BuilderField)
    (v : Validated)
    → validate_sequence section record_ordinal version limits seen decoded_total items ≡ ok v
    → decoded_total ≤ limits.max_decoded_text_bytes
    → IsWithin limits decoded_total (text_total section items) v.decoded_total
unfolding validate_sequence
validate_sequence-IsWithin section record_ordinal version limits seen decoded_total [] v h fits =
    subst (λ w. IsWithin limits decoded_total 0 w.decoded_total) (ok-injective h)
      (record { grown = omega arith; bounded = fits })
validate_sequence-IsWithin section record_ordinal version limits seen decoded_total (item ∷ items) v
      h fits =
    elim (Option-cases (field_spec section item.type_code)) [
      | inl a ↦
          elim (Result-cases
            (validate_sequence section record_ordinal version limits seen decoded_total items)) [
              | inr (_, b) ↦ absurd (raise-neq-ok (rw (validate_sequence, a, b) at h))
              | inl (rest, b) ↦
                  let more =
                    validate_sequence-IsWithin section record_ordinal version limits seen
                      decoded_total items rest b fits in
                  let size : text_size (field_spec section item.type_code) item ≡ 0 = rw a in
                  subst
                    (λ w.
                      IsWithin limits decoded_total (text_total section (item ∷ items))
                        w.decoded_total)
                    (ok-injective (rw (validate_sequence, a, b) at h))
                    (record { grown = omega (arith, more.grown, size); bounded = more.bounded })
            ]
      | inr (spec, a) ↦
          elim (Result-cases
            (judge_known spec section record_ordinal version limits seen decoded_total item)) [
              | inr (_, b) ↦ absurd (raise-neq-ok (rw (validate_sequence, a, b) at h))
              | inl (judged, b) ↦
                  let added = text_bytes spec.kind (payload_length item.payload) in
                  elim (Result-cases (
                    validate_sequence section record_ordinal version limits (item.type_code ∷ seen)
                      (decoded_total + added) items)) [
                        | inr (_, c) ↦ absurd (raise-neq-ok (rw (validate_sequence, a, b, c) at h))
                        | inl (rest, c) ↦
                            let now =
                              judge_known-fits spec section record_ordinal version limits seen
                                decoded_total item judged b fits in
                            let more =
                              validate_sequence-IsWithin section record_ordinal version limits
                                (item.type_code ∷ seen) (decoded_total + added) items rest c now in
                            let size : text_size (field_spec section item.type_code) item ≡ added =
                              rw a in
                            subst
                              (λ w.
                                IsWithin limits decoded_total (text_total section (item ∷ items))
                                  w.decoded_total)
                              (ok-injective (rw (validate_sequence, a, b, c) at h))
                              (record {
                                grown = omega (arith, more.grown, size);
                                bounded = more.bounded;
                              })
                      ]
            ]
    ]

validate_records-IsWithin :
    (version : FormatVersion) (limits : ResourceLimits) (ordinal decoded_total : ℕ)
    (records : List (List BuilderField)) (v : ValidatedRecords)
    → validate_records version limits ordinal decoded_total records ≡ ok v
    → decoded_total ≤ limits.max_decoded_text_bytes
    → IsWithin limits decoded_total (records_text records) v.decoded_total
unfolding validate_records
validate_records-IsWithin version limits ordinal decoded_total [] v h fits =
    subst (λ w. IsWithin limits decoded_total 0 w.decoded_total) (ok-injective h)
      (record { grown = omega arith; bounded = fits })
validate_records-IsWithin version limits ordinal decoded_total (fields ∷ records) v h fits =
    elim (Bool-cases (not (ends_with_marker fields))) [
      | inl a ↦ absurd (raise-neq-ok (rw a at h))
      | inr a ↦
          elim (Result-cases (
            validate_sequence record_section (some ordinal) version limits [] decoded_total
              fields)) [
                | inr (_, b) ↦ absurd (raise-neq-ok (rw (a, b) at h))
                | inl (one, b) ↦ elim (Result-cases (validate_record_mandatory one.fields)) [
                  | inr (_, c) ↦ absurd (raise-neq-ok (rw (a, b, c) at h))
                  | inl (_, c) ↦ elim (Result-cases (validate_conditional_groups one.fields)) [
                    | inr (_, d) ↦ absurd (raise-neq-ok (rw (a, b, c, d) at h))
                    | inl (_, d) ↦
                        elim (Result-cases (
                          validate_records version limits (ordinal + 1) one.decoded_total
                            records)) [
                              | inr (_, e) ↦ absurd (raise-neq-ok (rw (a, b, c, d, e) at h))
                              | inl (rest, e) ↦
                                  let first =
                                    validate_sequence-IsWithin record_section (some ordinal) version
                                      limits [] decoded_total fields one b fits in
                                  let more =
                                    validate_records-IsWithin version limits (ordinal + 1)
                                      one.decoded_total records rest e first.bounded in
                                  subst
                                    (λ w.
                                      IsWithin limits decoded_total
                                        (records_text (fields ∷ records)) w.decoded_total)
                                    (ok-injective (rw (a, b, c, d, e) at h))
                                    (record {
                                      grown = omega (arith, first.grown, more.grown);
                                      bounded = more.bounded;
                                    })
                            ]
                  ]
                ]
              ]
    ]

-- The text fields of a validated vault, of the header and of all records together, fit the budget
-- of decoded text.
pub validate_schema_fields-text :
    (header_fields : List BuilderField) (records : List (List BuilderField))
    (version : FormatVersion) (limits : ResourceLimits) (out : Validated × ValidatedRecords)
    → validate_schema_fields header_fields records version limits ≡ ok out
    → text_total header header_fields + records_text records ≤ limits.max_decoded_text_bytes
unfolding validate_schema_fields
validate_schema_fields-text header_fields records version limits out h =
    elim (Bool-cases (not (ends_with_marker header_fields))) [
      | inl a ↦ absurd (raise-neq-ok (rw a at h))
      | inr a ↦
          elim (Result-cases (validate_sequence header none version limits [] 0 header_fields)) [
            | inr (_, b) ↦ absurd (raise-neq-ok (rw (a, b) at h))
            | inl (first, b) ↦
                elim (Result-cases
                  (validate_records version limits 0 first.decoded_total records)) [
                    | inr (_, c) ↦ absurd (raise-neq-ok (rw (a, b, c) at h))
                    | inl (v, c) ↦
                        let one =
                          validate_sequence-IsWithin header none version limits [] 0 header_fields
                            first b (omega arith) in
                        let all_records =
                          validate_records-IsWithin version limits 0 first.decoded_total records v c
                            one.bounded in
                        omega (arith, one.grown, all_records.grown, all_records.bounded)
                  ]
          ]
    ]
