-- ===== src/Session/Edits.antt =====
-- The plans of session.py for the fields of records: `_edited_fields` with `_encode_edit`,
-- `_new_record_fields`, `_change_protection` and `_insert_before_end`. The payloads that a failed
-- plan closes, and the secrets that a plan closes, are not modelled.
pub mod Kept
pub mod Replace
pub mod Loops
pub mod Planned
pub mod Laws
pub mod Outcome
use password_bonobo.Prelude.{
  ℕ, ◌+◌, Bool, true, false, not, ◌&&◌, ◌||◌, Option, none, some, List, [], ◌∷◌, ◌++◌, length, map,
  any, ltb, ◌==◌, ◌!=◌, if◌then◌else◌,
}
use password_bonobo.Prelude.Bytes.{Bytes}
use password_bonobo.Errors.{Result, ok, raise, value_error, type_error, ◌>>=◌, ◌>>◌, raise_if}
use password_bonobo.Constants.{FormatVersion}
use password_bonobo.Payloads.{inline}
use password_bonobo.Model.{RawField, RawRecord, VaultDocument, understood}
use password_bonobo.Schema.{
  FieldSpec, FieldKind, uuid, text, time, uint32, uint16, uint8, binary, opaque, empty, is_secret,
  is_mandatory, lookup_record_spec,
}
use password_bonobo.Schema.Values.{TypedValue, string, secret_buffer, bytes_value, integer}
use password_bonobo.Schema.Fields.{is_opaque_or_empty, encode_record_field, encode_new_record_field}
use password_bonobo.Session.Fork.{PlannedField, kept, made, raw_of}

-- `RecordEdit`: texts as their UTF-8 bytes, secrets as their content.
pub data RecordEdit : Type 0 where
  set_text_field set_secret_field set_bytes_field : ℕ → Bytes → RecordEdit
  set_uint32_field set_time_field : ℕ → ℕ → RecordEdit
  remove_field : ℕ → RecordEdit

abbrev pub field_type : RecordEdit → ℕ
field_type (set_text_field t v) = t
field_type (set_secret_field t v) = t
field_type (set_bytes_field t v) = t
field_type (set_uint32_field t v) = t
field_type (set_time_field t v) = t
field_type (remove_field t) = t

abbrev is_text : FieldKind → Bool
is_text text = true
is_text _ = false

abbrev is_binary : FieldKind → Bool
is_binary binary = true
is_binary _ = false

abbrev is_uint32 : FieldKind → Bool
is_uint32 uint32 = true
is_uint32 _ = false

abbrev is_time : FieldKind → Bool
is_time time = true
is_time _ = false

-- The fields of a type in a record.
abbrev pub matching : ℕ → List RawField → List RawField
matching type_code [] = []
matching type_code (raw ∷ raws) =
    let rest = matching type_code raws in if raw.type_code == type_code then raw ∷ rest else rest

-- The first field, if there is one.
abbrev pub first_of : List RawField → Option RawField
first_of [] = none
first_of (raw ∷ raws) = some raw

-- The value of an edit that sets a field, under the specification; `none` for a removal.
abbrev edit_value : FieldSpec → Option RawField → RecordEdit → Result (Option TypedValue)
edit_value spec raw (remove_field t) = do
  raise_if (is_mandatory spec.mandatory_role) value_error
  if (elim raw [ none ↦ true | some r ↦ false ]) then raise value_error else ok none
edit_value spec raw (set_text_field t v) = do
  raise_if (not (is_text spec.kind) || is_secret spec.secrecy) type_error
  ok (some (string v))
edit_value spec raw (set_secret_field t v) = do
  raise_if (not (is_text spec.kind || is_binary spec.kind) || not (is_secret spec.secrecy))
      type_error
  ok (some (secret_buffer v))
edit_value spec raw (set_bytes_field t v) = do
  raise_if (not (is_binary spec.kind) || is_secret spec.secrecy) type_error
  ok (some (bytes_value v))
edit_value spec raw (set_uint32_field t v) = do
  raise_if (not (is_uint32 spec.kind)) type_error
  ok (some (integer v))
edit_value spec raw (set_time_field t v) = do
  raise_if (not (is_time spec.kind)) type_error
  ok (some (integer v))

-- The encoded field with the classification of a field that the session wrote.
abbrev pub as_understood : RawField → RawField
as_understood raw = record {
  type_code = raw.type_code;
  payload = raw.payload;
  ordinal = raw.ordinal;
  classification = understood;
}

abbrev pub encode_onto : ℕ → FieldSpec → Option RawField → TypedValue → ℕ → Result RawField
encode_onto t spec (some raw) value ordinal = encode_record_field raw value
encode_onto t spec none value ordinal = encode_new_record_field t spec value ordinal understood

abbrev encode_value_of :
    VaultDocument → ℕ → FieldSpec → Option RawField → Option TypedValue → Result (Option RawField)
encode_value_of document t spec raw none = ok none
encode_value_of document t spec raw (some value) = do
  raise_if (ltb document.version.value spec.since.value) value_error
  encoded ← encode_onto t spec raw value (length document.records)
  ok (some (as_understood encoded))

-- `_encode_edit`, for a type of this specification
abbrev encode_known_edit :
    VaultDocument → RecordEdit → Option RawField → Option FieldSpec → Result (Option RawField)
encode_known_edit document edit raw none = raise type_error
encode_known_edit document edit raw (some spec) = do
  raise_if (is_opaque_or_empty spec.kind || not spec.editable) value_error
  value ← edit_value spec raw edit
  encode_value_of document (field_type edit) spec raw value

-- `_encode_edit`
pub encode_edit : VaultDocument → RecordEdit → Option RawField → Result (Option RawField)
encode_edit document edit raw =
    encode_known_edit document edit raw (lookup_record_spec (field_type edit))

-- The dictionary `replacements`, in the order of the edits; `none` removes a field.
abbrev pub Replacements : Type 0
Replacements = List (ℕ × Option RawField)

-- The loop of `_edited_fields` over the edits.
pub plan_edits : VaultDocument → RawRecord → List ℕ → List RecordEdit → Result Replacements
unfolding encode_edit
plan_edits document r field_types [] = ok []
plan_edits document r field_types (edit ∷ edits) = do
  raise_if (any (λ t. t == field_type edit) field_types) value_error
  raise_if (ltb 1 (length (matching (field_type edit) r.fields))) value_error
  replacement ← encode_edit document edit (first_of (matching (field_type edit) r.fields))
  rest ← plan_edits document r (field_type edit ∷ field_types) edits
  ok ((field_type edit, replacement) ∷ rest)

-- `replacements.get(...)` and what is left after `replacements.pop(...)`
pub replacement_of : Replacements → ℕ → Option (Option RawField)
replacement_of [] t = none
replacement_of ((u, r) ∷ rs) t = if u == t then some r else replacement_of rs t

pub without : Replacements → ℕ → Replacements
without [] t = []
without ((u, r) ∷ rs) t = if u == t then rs else (u, r) ∷ without rs t

abbrev replaced_by : RawField → Option (Option RawField) → List PlannedField
replaced_by raw none = kept raw ∷ []
replaced_by raw (some none) = []
replaced_by raw (some (some replacement)) = made replacement ∷ []

-- The loop over the fields of the record, and the replacements that are left.
pub replace_fields : Replacements → List RawField → List PlannedField × Replacements
unfolding replacement_of without
replace_fields rs [] = ([], rs)
replace_fields rs (raw ∷ raws) =
    let rest = replace_fields (without rs raw.type_code) raws in
    (replaced_by raw (replacement_of rs raw.type_code) ++ rest.0, rest.1)

abbrev added : Replacements → List PlannedField
added [] = []
added ((t, none) ∷ rs) = added rs
added ((t, some raw) ∷ rs) = made raw ∷ added rs

-- `_insert_before_end`, and the loop of `_edited_fields` that inserts at the terminator
pub insert_before_end : List PlannedField → List PlannedField → List PlannedField
insert_before_end new [] = new
insert_before_end new (f ∷ fs) =
    if (raw_of f).type_code == 0xFF then new ++ (f ∷ fs) else f ∷ insert_before_end new fs

-- `_edited_fields`
unfoldable pub edited_fields :
    VaultDocument → RawRecord → List RecordEdit → Result (List PlannedField)
unfolding plan_edits replace_fields insert_before_end
edited_fields document r edits = do
  replacements ← plan_edits document r [] edits
  let planned = replace_fields replacements r.fields
  ok (insert_before_end (added planned.1) planned.0)
