-- ===== src/Reader/Validation/Mandatory.antt =====
-- Every record that passed the validation of reader.py has its mandatory fields.
use password_bonobo.Prelude.{
  ℕ, suc, ◌+◌, ◌≡◌, sym, ap, subst, ◌∙◌, true, not, inl, inr, none, some, List, [], ◌∷◌, length,
  All, Bool-cases, arith,
}
use password_bonobo.Errors.{ok, Result-cases, raise-neq-ok, ok-injective}
use password_bonobo.Constants.{FormatVersion, ResourceLimits}
use password_bonobo.Model.{record_section, header}
use password_bonobo.Reader.Builder.{BuilderField}
use password_bonobo.Reader.Version.{count_type}
use password_bonobo.Reader.Validation.{
  Validated, ValidatedRecords, validate_sequence, validate_record_mandatory,
  validate_conditional_groups, validate_records, validate_schema_fields, ends_with_marker, present,
  has_between,
}

pub record HasPasskey (fields : List BuilderField) : Type 0 where
  pub credential_id : present fields 0x2A ≡ true
  pub relying_party_id : present fields 0x2B ≡ true
  pub user_handle : present fields 0x2C ≡ true
  pub algorithm_id : present fields 0x2D ≡ true
  pub private_key : present fields 0x2E ≡ true

-- One UUID, one title and one password; a media type beside any attachment field, and the five
-- required fields beside any passkey field.
pub record IsComplete (fields : List BuilderField) : Type 0 where
  pub uuid : count_type 0x01 fields ≡ 1
  pub title : count_type 0x03 fields ≡ 1
  pub password : count_type 0x06 fields ≡ 1
  pub attachment : has_between 0x25 0x29 fields ≡ true → present fields 0x26 ≡ true
  pub passkey : has_between 0x2A 0x2F fields ≡ true → HasPasskey fields

mandatory-once :
    (fields : List BuilderField)
    → validate_record_mandatory fields ≡ ok tt
    → (count_type 0x01 fields ≡ 1) × (count_type 0x03 fields ≡ 1) × (count_type 0x06 fields ≡ 1)
unfolding validate_record_mandatory
mandatory-once fields h = ground (arith, h)

groups-present :
    (fields : List BuilderField)
    → validate_conditional_groups fields ≡ ok tt
    → has_between 0x25 0x29 fields ≡ true
    → present fields 0x26 ≡ true
unfolding validate_conditional_groups
groups-present fields h k = ground (arith, h, k)

passkey-present :
    (fields : List BuilderField)
    → validate_conditional_groups fields ≡ ok tt
    → has_between 0x2A 0x2F fields ≡ true
    → HasPasskey fields
unfolding validate_conditional_groups
passkey-present fields h k = record {
  credential_id = ground (arith, h, k);
  relying_party_id = ground (arith, h, k);
  user_handle = ground (arith, h, k);
  algorithm_id = ground (arith, h, k);
  private_key = ground (arith, h, k);
}

fields-IsComplete :
    (fields : List BuilderField)
    → validate_record_mandatory fields ≡ ok tt
    → validate_conditional_groups fields ≡ ok tt
    → IsComplete fields
fields-IsComplete fields h k =
    let (uuid, title, password) = mandatory-once fields h in
    record {
      uuid = uuid;
      title = title;
      password = password;
      attachment = groups-present fields k;
      passkey = passkey-present fields k;
    }

validate_records-IsComplete :
    (version : FormatVersion) (limits : ResourceLimits) (ordinal decoded_total : ℕ)
    (records : List (List BuilderField)) (v : ValidatedRecords)
    → validate_records version limits ordinal decoded_total records ≡ ok v
    → (length v.records ≡ length records) × All IsComplete v.records
unfolding validate_records
validate_records-IsComplete version limits ordinal decoded_total [] v h =
    let same = ok-injective h in
    (ap (λ w. length w.records) (sym same), subst (λ w. All IsComplete w.records) same tt)
validate_records-IsComplete version limits ordinal decoded_total (fields ∷ records) v h =
    elim (Bool-cases (not (ends_with_marker fields))) [
      | inl a ↦ absurd (raise-neq-ok (rw a at h))
      | inr a ↦
          elim (Result-cases (
            validate_sequence record_section (some ordinal) version limits [] decoded_total
              fields)) [
                | inr (_, b) ↦ absurd (raise-neq-ok (rw (a, b) at h))
                | inl (one, b) ↦ elim (Result-cases (validate_record_mandatory one.fields)) [
                  | inr (_, c) ↦ absurd (raise-neq-ok (rw (a, b, c) at h))
                  | inl (_, c) ↦ elim (Result-cases (validate_conditional_groups one.fields)) [
                    | inr (_, d) ↦ absurd (raise-neq-ok (rw (a, b, c, d) at h))
                    | inl (_, d) ↦
                        elim (Result-cases (
                          validate_records version limits (ordinal + 1) one.decoded_total
                            records)) [
                              | inr (_, e) ↦ absurd (raise-neq-ok (rw (a, b, c, d, e) at h))
                              | inl (rest, e) ↦
                                  let (size, more) =
                                    validate_records-IsComplete version limits (ordinal + 1)
                                      one.decoded_total records rest e in
                                  let same = ok-injective (rw (a, b, c, d, e) at h) in
                                  (
                                    ap (λ w. length w.records) (sym same) ∙ ap suc size,
                                    subst (λ w. All IsComplete w.records) same
                                        (fields-IsComplete one.fields c d, more),
                                  )
                            ]
                  ]
                ]
              ]
    ]

-- A validated vault has as many records as before, and each has exactly one UUID, one title and one
-- password, a media type beside any attachment field, and the five required fields beside any
-- passkey field.
pub validate_schema_fields-IsComplete :
    (header_fields : List BuilderField) (records : List (List BuilderField))
    (version : FormatVersion) (limits : ResourceLimits) (out : Validated × ValidatedRecords)
    → validate_schema_fields header_fields records version limits ≡ ok out
    → (length out.1.records ≡ length records) × All IsComplete out.1.records
unfolding validate_schema_fields
validate_schema_fields-IsComplete header_fields records version limits out h =
    elim (Bool-cases (not (ends_with_marker header_fields))) [
      | inl a ↦ absurd (raise-neq-ok (rw a at h))
      | inr a ↦
          elim (Result-cases (validate_sequence header none version limits [] 0 header_fields)) [
            | inr (_, b) ↦ absurd (raise-neq-ok (rw (a, b) at h))
            | inl (first, b) ↦
                elim (Result-cases
                  (validate_records version limits 0 first.decoded_total records)) [
                    | inr (_, c) ↦ absurd (raise-neq-ok (rw (a, b, c) at h))
                    | inl (v, c) ↦
                        subst
                          (λ o. (length o.1.records ≡ length records) × All IsComplete o.1.records)
                          (ok-injective (rw (a, b, c) at h))
                          (validate_records-IsComplete version limits 0 first.decoded_total records
                            v c)
                  ]
          ]
    ]
