-- ===== src/Session/Protect.antt =====
-- `protect`, `unprotect` and `_change_protection` of session.py.
pub mod Kept
use password_bonobo.Prelude.{
  ℕ, Bool, true, false, not, Option, none, some, List, [], ◌∷◌, length, map, ltb, ◌==◌,
  if◌then◌else◌,
}
use password_bonobo.Errors.{Result, ok, raise, value_error, type_error, ◌>>=◌, ◌>>◌, raise_if}
use password_bonobo.Model.{RawField, RawRecord, VaultDocument}
use password_bonobo.Schema.{FieldSpec, lookup_record_spec}
use password_bonobo.Schema.Values.{integer}
use password_bonobo.Session.Fork.{PlannedField, kept, made}
use password_bonobo.Session.Edits.{
  matching, first_of, as_understood, encode_onto, insert_before_end,
}
use password_bonobo.Session.{
  VaultSession, RecordView, ChangeKind, protect_change, unprotect_change, Plan, require_mutable,
  find_record, is_protected, with_fields, run_plan,
}

-- `tuple(replacement if raw is matching[0] else raw for raw in record.fields)`, where one field has
-- the type
pub in_place : RawField → List RawField → List PlannedField
in_place replacement [] = []
in_place replacement (raw ∷ raws) =
    (if raw.type_code == 0x15 then made replacement else kept raw) ∷ in_place replacement raws

pub place_protected : RawField → Option RawField → List RawField → List PlannedField
unfolding in_place
place_protected replacement (some found) fields = in_place replacement fields
place_protected replacement none fields =
    insert_before_end (made replacement ∷ []) (map kept fields)

-- `tuple(raw for raw in record.fields if raw.type_code != RecordFieldType.PROTECTED)`
pub without_protected : List RawField → List PlannedField
without_protected [] = []
without_protected (raw ∷ raws) =
    let rest = without_protected raws in if raw.type_code == 0x15 then rest else kept raw ∷ rest

abbrev too_old : VaultDocument → Option FieldSpec → Bool
too_old document none = true
too_old document (some spec) = ltb document.version.value spec.since.value

abbrev encode_flag : Option FieldSpec → Option RawField → ℕ → Result RawField
encode_flag none raw ordinal = raise type_error
encode_flag (some spec) raw ordinal = encode_onto 0x15 spec raw (integer 1) ordinal

-- The fields of `_change_protection`
pub protected_fields : VaultDocument → RawRecord → Bool → Result (List PlannedField)
unfolding place_protected without_protected
protected_fields document r false = do
  raise_if (ltb 1 (length (matching 0x15 r.fields))) value_error
  ok (without_protected r.fields)
protected_fields document r true = do
  raise_if (ltb 1 (length (matching 0x15 r.fields))) value_error
  raise_if (too_old document (lookup_record_spec 0x15)) value_error
  encoded ←
      encode_flag (lookup_record_spec 0x15) (first_of (matching 0x15 r.fields)) (length r.fields)
  ok (place_protected (as_understood encoded) (first_of (matching 0x15 r.fields)) r.fields)

abbrev pub change_kind : Bool → ChangeKind
change_kind true = protect_change
change_kind false = unprotect_change

-- The plan of `protect` and `unprotect`, by the flag that the record is to have.
pub plan_protection : VaultSession → ℕ → ℕ → Bool → Result Plan
unfolding protected_fields
plan_protection s handle expected_revision flag = do
  require_mutable s expected_revision
  r ← find_record s.document handle
  protected ← is_protected r
  raise_if (if flag then protected else not protected) value_error
  fields ← protected_fields s.document r flag
  ok (record {
    planned = with_fields handle fields s.document.records;
    kind = change_kind flag;
    handle = handle;
  })

-- `protect`
unfoldable pub protect : VaultSession → ℕ → ℕ → Result RecordView × VaultSession
unfolding plan_protection
protect s handle expected_revision = run_plan s (plan_protection s handle expected_revision true)

-- `unprotect`
unfoldable pub unprotect : VaultSession → ℕ → ℕ → Result RecordView × VaultSession
unfolding plan_protection
unprotect s handle expected_revision = run_plan s (plan_protection s handle expected_revision false)
