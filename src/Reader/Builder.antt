-- ===== src/Reader/Builder.antt =====
-- `_BuilderField` and `_QuarantinedBuilder` of reader.py: the fields that were decrypted and are
-- not authenticated yet. Ownership of the payloads is not modelled.
use password_bonobo.Prelude.{
  ℕ, zero, suc, ◌+◌, Bool, true, false, List, [], ◌∷◌, ◌++◌, map, length, ltb, ◌==◌, if◌then◌else◌,
}
use password_bonobo.Errors.{Result, ok, raise, malformed_vault_error, invalid_field}
use password_bonobo.Constants.{FormatVersion}
use password_bonobo.Payloads.{FieldPayload}
use password_bonobo.Model.{
  FieldClassification, understood, RawField, RawRecord, PreservationWarning, VaultDocument,
}

pub record BuilderField : Type 0 where
  pub type_code : ℕ
  pub payload : FieldPayload
  pub ordinal : ℕ
  pub classification : FieldClassification

pub record Builder : Type 0 where
  pub header : List BuilderField
  pub records : List (List BuilderField)

abbrev pub empty_builder : Builder
empty_builder = record { header = []; records = [] }

-- `target.append(_BuilderField(type_code, payload, len(target)))`
abbrev pub append_field : List BuilderField → ℕ → FieldPayload → List BuilderField
append_field target type_code payload =
    target
    ++ (record {
      type_code = type_code;
      payload = payload;
      ordinal = length target;
      classification = understood;
    }
        ∷ [])

-- The record of this index, with the field appended.
abbrev pub append_at : ℕ → ℕ → FieldPayload → List (List BuilderField) → List (List BuilderField)
append_at i type_code payload [] = []
append_at zero type_code payload (r ∷ rs) = append_field r type_code payload ∷ rs
append_at (suc i) type_code payload (r ∷ rs) = r ∷ append_at i type_code payload rs

-- `_record`: one new record may be opened behind the last.
abbrev pub opened : List (List BuilderField) → ℕ → List (List BuilderField)
opened records ordinal = if ordinal == length records then records ++ [] ∷ [] else records

-- `add_field`
unfoldable pub add_field : Builder → Bool → ℕ → ℕ → FieldPayload → Result Builder
add_field b true ordinal type_code payload =
    ok (record b { header = append_field b.header type_code payload })
add_field b false ordinal type_code payload =
    if ltb ordinal (length (opened b.records ordinal))
    then ok (record b { records = append_at ordinal type_code payload (opened b.records ordinal) })
    else raise (malformed_vault_error invalid_field)

-- `_raw_field`
abbrev pub raw_field : BuilderField → RawField
raw_field f = record {
  type_code = f.type_code;
  payload = f.payload;
  ordinal = f.ordinal;
  classification = f.classification;
}

-- The records, with handles from a number on that are issued here.
abbrev pub raw_records : ℕ → ℕ → List (List BuilderField) → List RawRecord
raw_records issued ordinal [] = []
raw_records issued ordinal (r ∷ rs) =
    record { fields = map raw_field r; ordinal = ordinal; handle = issued }
    ∷ raw_records (issued + 1) (ordinal + 1) rs

-- `build`
unfoldable pub build : ℕ → Builder → FormatVersion → List PreservationWarning → VaultDocument
build issued b version warnings = record {
  version = version;
  header_fields = map raw_field b.header;
  records = raw_records issued 0 b.records;
  revision = issued + length b.records;
  warnings = warnings;
}
