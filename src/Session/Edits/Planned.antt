-- ===== src/Session/Edits/Planned.antt =====
-- The replacements that `_edited_fields` of session.py plans: one for each edit, of its type.
use password_bonobo.Prelude.{
  ℕ, ◌≡◌, refl, sym, ap, ◌∙◌, not, ◌||◌, Option, none, some, List, [], ◌∷◌, length, ltb, ◌==◌, inl,
  inr, Bool-cases, arith,
}
use password_bonobo.Errors.{ok, value_error, raise-neq-ok, ok-injective, passed, first_part, ◌>>=◌}
use password_bonobo.Model.{RawField, RawRecord, VaultDocument, understood}
use password_bonobo.Schema.{FieldSpec, lookup_record_spec}
use password_bonobo.Schema.Values.{TypedValue}
use password_bonobo.Schema.Fields.{is_opaque_or_empty}
use password_bonobo.Schema.Fields.Types.{encode_record_field-type, encode_new_record_field-type}
use password_bonobo.Session.Edits.{
  RecordEdit, field_type, matching, first_of, as_understood, encode_onto, encode_value_of,
  edit_value, encode_known_edit, encode_edit,
}

first_of-matching :
    (t : ℕ) (raws : List RawField) (raw : RawField)
    → first_of (matching t raws) ≡ some raw
    → raw.type_code ≡ t
first_of-matching t [] raw e = cc
first_of-matching t (r ∷ rs) raw e = elim (Bool-cases (r.type_code == t)) [
  | inl it ↦
      let same : some r ≡ some raw = rw it at e in
      let same' : r ≡ raw = cc in rw (← same') (ground arith)
  | inr other ↦ first_of-matching t rs raw (rw other at e)
]

encode_onto-type :
    (t : ℕ) (spec : FieldSpec) (raw : Option RawField) (value : TypedValue) (ordinal : ℕ)
    (encoded : RawField)
    → ((r : RawField) → raw ≡ some r → r.type_code ≡ t)
    → encode_onto t spec raw value ordinal ≡ ok encoded
    → encoded.type_code ≡ t
encode_onto-type t spec none value ordinal encoded h e =
    encode_new_record_field-type t spec value ordinal understood encoded e
encode_onto-type t spec (some r) value ordinal encoded h e =
    encode_record_field-type r value encoded e ∙ h r refl

encode_value_of-type :
    (document : VaultDocument) (t : ℕ) (spec : FieldSpec) (raw : Option RawField)
    (value : Option TypedValue) (new : RawField)
    → ((r : RawField) → raw ≡ some r → r.type_code ≡ t)
    → encode_value_of document t spec raw value ≡ ok (some new)
    → new.type_code ≡ t
encode_value_of-type document t spec raw none new h e = cc
encode_value_of-type document t spec raw (some value) new h e =
    let (_, e1) =
      passed (ltb document.version.value spec.since.value) value_error
        (encode_onto t spec raw value (length document.records) >>= λ m.
          ok (some (as_understood m)))
        e in
    let (encoded, e2, e3) =
      first_part (encode_onto t spec raw value (length document.records))
        (λ m. ok (some (as_understood m))) e1 in
    let same : some (as_understood encoded) ≡ some new = ok-injective e3 in
    let same' : as_understood encoded ≡ new = cc in
    ap (λ m. m.type_code) (sym same')
    ∙ encode_onto-type t spec raw value (length document.records) encoded h e2

encode_known_edit-type :
    (document : VaultDocument) (edit : RecordEdit) (raw : Option RawField) (spec : Option FieldSpec)
    (new : RawField)
    → ((r : RawField) → raw ≡ some r → r.type_code ≡ field_type edit)
    → encode_known_edit document edit raw spec ≡ ok (some new)
    → new.type_code ≡ field_type edit
encode_known_edit-type document edit raw none new h e = absurd (raise-neq-ok e)
encode_known_edit-type document edit raw (some spec) new h e =
    let (_, e1) =
      passed (is_opaque_or_empty spec.kind || not spec.editable) value_error
        (edit_value spec raw edit >>= λ value.
          encode_value_of document (field_type edit) spec raw value)
        e in
    let (value, _, e2) =
      first_part (edit_value spec raw edit)
        (λ value. encode_value_of document (field_type edit) spec raw value) e1 in
    encode_value_of-type document (field_type edit) spec raw value new h e2

-- The field that an edit makes has the edit's type.
pub encode_edit-type :
    (document : VaultDocument) (r : RawRecord) (edit : RecordEdit) (new : RawField)
    → encode_edit document edit (first_of (matching (field_type edit) r.fields)) ≡ ok (some new)
    → new.type_code ≡ field_type edit
unfolding encode_edit
encode_edit-type document r edit new e =
    encode_known_edit-type document edit (first_of (matching (field_type edit) r.fields))
      (lookup_record_spec (field_type edit)) new (first_of-matching (field_type edit) r.fields) e
