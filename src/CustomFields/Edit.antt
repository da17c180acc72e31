-- ===== src/CustomFields/Edit.antt =====
-- `replace_custom_value` of custom_fields.py, on a value as bytes.
use password_bonobo.Prelude.{
  ℕ, ◌+◌, ◌-◌, ◌/◌, ◌%◌, Bool, true, false, Option, none, some, List, [], ◌∷◌, ◌++◌, length, leb,
  ltb, ◌==◌, if◌then◌else◌,
}
use password_bonobo.Prelude.Bytes.{Bytes, bytes_eq}
use password_bonobo.Errors.{
  Result, ok, raise, value_error, runtime_error, secret_closed_error, ◌>>=◌, ◌>>◌, raise_if,
}
use password_bonobo.CustomFields.{
  CustomProperty, CustomField, custom_property, optional_property_by_id, validate_property_value,
}

abbrev hex_digit : ℕ → ℕ
hex_digit n = if leb n 9 then 0x30 + n else 0x61 + (n - 10)

-- f"{n:02x}" and f"{n:04x}", for numbers of that width.
abbrev pub hex2 : ℕ → Bytes
hex2 n = hex_digit (n / 16 % 16) ∷ hex_digit (n % 16) ∷ []

abbrev pub hex4 : ℕ → Bytes
hex4 n = hex_digit (n / 4096 % 16) ∷ hex_digit (n / 256 % 16) ∷ hex2 n

-- `_new_property`
abbrev pub new_property : ℕ → Bytes → Result CustomProperty
new_property property_id value =
    custom_property property_id ((hex2 property_id ++ hex4 (length value)) ++ value)

-- `CustomProperty.retain`
abbrev pub retain_property : CustomProperty → Result CustomProperty
retain_property item = custom_property item.property_id item.encoded

abbrev pub retain_properties : List CustomProperty → Result (List CustomProperty)
retain_properties [] = ok []
retain_properties (item ∷ items) = do
  retained ← retain_property item
  rest ← retain_properties items
  ok (retained ∷ rest)

-- `CustomField(...)`
abbrev pub custom_field : List CustomProperty → Bytes → Bool → Bool → Result CustomField
custom_field properties name sensitive separator_after = do
  raise_if (length name == 0) value_error
  ok (record {
    properties = properties;
    name = name;
    sensitive = sensitive;
    separator_after = separator_after;
    closed = false;
  })

-- `CustomField.retain`
abbrev pub retain : CustomField → Result CustomField
retain field = do
  raise_if field.closed runtime_error
  properties ← retain_properties field.properties
  custom_field properties field.name field.sensitive field.separator_after

abbrev pub sensitivity_value : Bool → Bytes
sensitivity_value true = 0x31 ∷ []
sensitivity_value false = 0x30 ∷ []

-- The value, and a sensitivity behind it when one is asked for and the field has none.
abbrev pub new_values : Bytes → Option Bool → Bool → Result (List CustomProperty)
new_values replacement (some sensitive) false = do
  value ← new_property 0x02 replacement
  flag ← new_property 0x03 (sensitivity_value sensitive)
  ok (value ∷ flag ∷ [])
new_values replacement (some sensitive) true = do
  value ← new_property 0x02 replacement
  ok (value ∷ [])
new_values replacement none has_sensitivity = do
  value ← new_property 0x02 replacement
  ok (value ∷ [])

-- `CustomProperty.retain` in a field whose owners are closed, or not.
abbrev pub retain_owned : Bool → CustomProperty → Result CustomProperty
retain_owned closed item = do raise_if closed secret_closed_error; retain_property item

-- What replaces one property.
abbrev pub replaced :
    Bool → Bytes → Option Bool → Bool → CustomProperty → Result (List CustomProperty)
replaced closed replacement (some sensitive) has_sensitivity item =
    if item.property_id == 0x02
    then new_values replacement (some sensitive) has_sensitivity
    else if item.property_id == 0x03
    then (do flag ← new_property 0x03 (sensitivity_value sensitive); ok (flag ∷ []))
    else (do retained ← retain_owned closed item; ok (retained ∷ []))
replaced closed replacement none has_sensitivity item =
    if item.property_id == 0x02
    then new_values replacement none has_sensitivity
    else (do retained ← retain_owned closed item; ok (retained ∷ []))

-- The loop of `_replace_one_field`.
abbrev pub replace_properties :
    Bool → Bytes → Option Bool → Bool → List CustomProperty → Result (List CustomProperty)
replace_properties closed replacement sensitive has_sensitivity [] = ok []
replace_properties closed replacement sensitive has_sensitivity (item ∷ items) = do
  first ← replaced closed replacement sensitive has_sensitivity item
  rest ← replace_properties closed replacement sensitive has_sensitivity items
  ok (first ++ rest)

abbrev pub is_some {ℓ} : {A : Type ℓ} → Option A → Bool
is_some none = false
is_some (some a) = true

abbrev pub or_else : Option Bool → Bool → Bool
or_else none b = b
or_else (some a) b = a

-- `_replace_one_field`
abbrev pub replace_one_field : CustomField → Bytes → Option Bool → Result CustomField
replace_one_field field replacement sensitive = do
  properties ←
      replace_properties field.closed replacement sensitive
        (is_some (optional_property_by_id field.properties 0x03)) field.properties
  custom_field properties field.name (or_else sensitive field.sensitive) field.separator_after

-- The loop of `replace_custom_value`; `found` as in the source.
abbrev pub replace_loop :
    Bytes → Bytes → Option Bool → Bool → List CustomField → Result (List CustomField)
replace_loop name replacement sensitive found [] = if found then ok [] else raise value_error
replace_loop name replacement sensitive found (field ∷ fields) =
    if bytes_eq field.name name
    then (do
      raise_if found value_error
      edited ← replace_one_field field replacement sensitive
      rest ← replace_loop name replacement sensitive true fields
      ok (edited ∷ rest))
    else (do
      retained ← retain field
      rest ← replace_loop name replacement sensitive found fields
      ok (retained ∷ rest))

unfoldable pub replace_custom_value :
    List CustomField → Bytes → Bytes → Option Bool → Result (List CustomField)
replace_custom_value fields name value sensitive = do
  raise_if (length name == 0) value_error
  raise_if (ltb 0xFFFF (length value)) value_error
  validate_property_value value
  replace_loop name value sensitive false fields
