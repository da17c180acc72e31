-- ===== src/Session/Create.antt =====
-- `NewRecord` and `_new_record_fields` of session.py.
use password_bonobo.Prelude.{ℕ, List, [], ◌∷◌, ◌++◌, length}
use password_bonobo.Prelude.Bytes.{Bytes}
use password_bonobo.Errors.{Result, ok, raise, type_error, ◌>>=◌}
use password_bonobo.Prelude.{Option, none, some}
use password_bonobo.Payloads.{inline}
use password_bonobo.Model.{RawField, understood}
use password_bonobo.Schema.{FieldSpec, lookup_record_spec}
use password_bonobo.Schema.Values.{TypedValue, string, secret_buffer}
use password_bonobo.Schema.Fields.{encode_new_record_field}

pub record NewRecord : Type 0 where
  pub uuid : Bytes
  pub title : Bytes
  pub password : Bytes
  pub username : Bytes
  pub group : Bytes
  pub url : Bytes

abbrev new_field : ℕ → Bytes → ℕ → RawField
new_field type_code content ordinal = record {
  type_code = type_code;
  payload = inline content;
  ordinal = ordinal;
  classification = understood;
}

abbrev encode_known_new : ℕ → Option FieldSpec → TypedValue → ℕ → Result RawField
encode_known_new t none value ordinal = raise type_error
encode_known_new t (some spec) value ordinal =
    encode_new_record_field t spec value ordinal understood

-- The next field of the record.
append_field : List RawField → ℕ → TypedValue → Result (List RawField)
append_field fields t value = do
  raw ← encode_known_new t (lookup_record_spec t) value (length fields)
  ok (fields ++ (raw ∷ []))

-- A text that is empty has no field.
optional_field : List RawField → ℕ → Bytes → Result (List RawField)
unfolding append_field
optional_field fields t [] = ok fields
optional_field fields t (b ∷ bs) = append_field fields t (string (b ∷ bs))

-- `_new_record_fields`: group, title, user name, password and URL behind the UUID.
unfoldable pub new_record_fields : NewRecord → Result (List RawField)
unfolding append_field optional_field
new_record_fields new = do
  with_group ← optional_field (new_field 0x01 new.uuid 0 ∷ []) 0x02 new.group
  with_title ← append_field with_group 0x03 (string new.title)
  with_username ← optional_field with_title 0x04 new.username
  with_password ← append_field with_username 0x06 (secret_buffer new.password)
  with_url ← optional_field with_password 0x0D new.url
  ok (with_url ++ (new_field 0xFF [] (length with_url) ∷ []))
