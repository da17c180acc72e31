-- ===== src/CustomFields.antt =====
-- src/bonobo_core/passwordsafe/custom_fields.py: the grammar of custom text fields. A name is kept
-- as its UTF-8 bytes. Wiping and the ownership of the property buffers are not modelled.
pub mod Utf8
pub mod Lossless
pub mod Fuel
pub mod Edit
pub mod Keeps
pub mod Replace
pub mod RoundTrip
use password_bonobo.Prelude.{
  ℕ, zero, suc, ◌+◌, ◌-◌, ◌*◌, ◌/◌, ◌%◌, Bool, true, false, not, ◌&&◌, ◌||◌, Option, none, some,
  List, [], ◌∷◌, ◌++◌, length, take, drop, slice, all, any, ltb, leb, ◌==◌, ◌!=◌, if◌then◌else◌,
}
use password_bonobo.Prelude.Bytes.{Bytes, bytes_eq}
use password_bonobo.Errors.{
  Result, ok, raise, value_error, runtime_error, incompatible_export_error,
  target_version_unsupported, unrepresentable_field, ◌>>=◌, ◌>>◌, raise_if,
}
use password_bonobo.Constants.{FormatVersion, supported, max_decoded_text_bytes_ceiling}
use Utf8.{is_utf8}

-- `_SEPARATOR`
abbrev pub separator : Bytes
separator = 0x30 ∷ 0x30 ∷ 0x30 ∷ 0x30 ∷ 0x30 ∷ 0x30 ∷ []

abbrev lower_hex_digit : ℕ → Result ℕ
lower_hex_digit character =
    if leb 0x30 character && leb character 0x39
    then ok (character - 0x30)
    else if leb 0x61 character && leb character 0x66
    then ok (character - 0x61 + 10)
    else raise value_error

-- The loop of `_parse_lower_hex`, with the value so far.
abbrev parse_lower_hex : ℕ → Bytes → Result ℕ
parse_lower_hex value [] = ok value
parse_lower_hex value (character ∷ characters) =
    lower_hex_digit character >>= λ digit. parse_lower_hex (value * 16 + digit) characters

abbrev pub starts_with_bom : Bytes → Bool
starts_with_bom (a ∷ b ∷ c ∷ rest) = (a == 0xEF) && (b == 0xBB) && (c == 0xBF)
starts_with_bom _ = false

-- `_validate_property_value`
abbrev validate_property_value : Bytes → Result (Unit {0})
validate_property_value value = do
  raise_if (starts_with_bom value) value_error
  raise_if (not (is_utf8 value)) value_error
  ok tt

pub record CustomProperty : Type 0 where
  pub property_id : ℕ
  pub value_length : ℕ
  pub encoded : Bytes

-- `_validate_complete_property_encoding`
abbrev validate_complete : ℕ → Bytes → Result ℕ
validate_complete property_id encoded = do
  raise_if (ltb (length encoded) 6) value_error
  observed_id ← parse_lower_hex 0 (take 2 encoded)
  value_length ← parse_lower_hex 0 (slice 2 6 encoded)
  raise_if ((observed_id != property_id) || (value_length != length encoded - 6)) value_error
  validate_property_value (drop 6 encoded)
  ok value_length

-- `CustomProperty(property_id, encoded)`
abbrev custom_property : ℕ → Bytes → Result CustomProperty
custom_property property_id encoded = do
  raise_if (not (leb 1 property_id && leb property_id 0xFF)) value_error
  value_length ← validate_complete property_id encoded
  ok (record { property_id = property_id; value_length = value_length; encoded = encoded })

-- `_copy_value`
abbrev pub value_of : CustomProperty → Bytes
value_of property = drop 6 property.encoded

pub record CustomField : Type 0 where
  pub properties : List CustomProperty
  pub name : Bytes
  pub sensitive : Bool
  pub separator_after : Bool
  pub closed : Bool

-- `_optional_property_by_id`
abbrev pub optional_property_by_id : List CustomProperty → ℕ → Option CustomProperty
optional_property_by_id [] property_id = none
optional_property_by_id (item ∷ items) property_id =
    if item.property_id == property_id then some item else optional_property_by_id items property_id

-- `_property_by_id`
abbrev property_by_id : List CustomProperty → ℕ → Result CustomProperty
property_by_id properties property_id = elim (optional_property_by_id properties property_id) [
  | none ↦ raise value_error
  | some item ↦ ok item
]

-- The value of the sensitivity property, which must be "0" or "1".
abbrev sensitivity : Option CustomProperty → Result Bool
sensitivity none = ok false
sensitivity (some item) =
    if bytes_eq (value_of item) (0x31 ∷ [])
    then ok true
    else if bytes_eq (value_of item) (0x30 ∷ [])
    then ok false
    else raise value_error

-- The name of a field with these properties: it has a value, and no field before has the name.
abbrev checked_name : List CustomProperty → List Bytes → Result Bytes
checked_name properties names = do
  name_property ← property_by_id properties 0x01
  value_property ← property_by_id properties 0x02
  raise_if (name_property.value_length == 0) value_error
  raise_if (not (is_utf8 (value_of name_property))) value_error
  raise_if (bytes_eq (value_of name_property) [] || any (bytes_eq (value_of name_property)) names)
      value_error
  ok (value_of name_property)

-- `_finish_field`, on the names of the fields before.
abbrev finish_field : List CustomProperty → List Bytes → Bool → Result CustomField
finish_field properties names separator_after = do
  name ← checked_name properties names
  sensitive ← sensitivity (optional_property_by_id properties 0x03)
  ok (record {
    properties = properties;
    name = name;
    sensitive = sensitive;
    separator_after = separator_after;
    closed = false;
  })

-- The variables of the parser's loop.
pub record Parsing : Type 0 where
  pub fields : List CustomField
  pub properties : List CustomProperty
  pub names : List Bytes
  pub identifiers : List ℕ

-- `_is_separator`, at the head of what is left of the source.
abbrev is_separator : Bytes → Bool
is_separator source = leb 6 (length source) && all (λ b. b == 0x30) (take 6 source)

-- A round that meets a separator: the field is finished.
abbrev read_separator : Parsing → Bytes → Result (Bytes × Parsing)
read_separator p source = do
  raise_if (length p.properties == 0) value_error
  field ← finish_field p.properties p.names true
  ok (
    drop 6 source,
    record {
      fields = p.fields ++ (field ∷ []);
      properties = [];
      names = p.names ++ (field.name ∷ []);
      identifiers = [];
    },
  )

-- The header at the head of the source: a new identifier, and the length of a value that is there.
abbrev property_header : List ℕ → Bytes → Result (ℕ × ℕ)
property_header identifiers source = do
  raise_if (ltb (length source) 6) value_error
  property_id ← parse_lower_hex 0 (take 2 source)
  value_length ← parse_lower_hex 0 (slice 2 6 source)
  raise_if (property_id == 0) value_error
  raise_if (any (λ i. i == property_id) identifiers) value_error
  raise_if (ltb (length source - 6) value_length) value_error
  validate_property_value (slice 6 (6 + value_length) source)
  ok (property_id, value_length)

-- A round that meets a property.
abbrev read_property : Parsing → Bytes → Result (Bytes × Parsing)
read_property p source = do
  (property_id, value_length) ← property_header p.identifiers source
  property ← custom_property property_id (take (6 + value_length) source)
  ok (
    drop (6 + value_length) source,
    record p {
      properties = p.properties ++ (property ∷ []);
      identifiers = property_id ∷ p.identifiers;
    },
  )

abbrev parse_round : Parsing → Bytes → Result (Bytes × Parsing)
parse_round p source =
    if is_separator source then read_separator p source else read_property p source

-- `while offset < len(source):`. The fuel is the number of bytes: a round consumes six at least.
unfoldable pub parse_loop : ℕ → Parsing → Bytes → Result Parsing
parse_loop fuel p [] = ok p
parse_loop zero p (b ∷ bs) = raise runtime_error
parse_loop (suc fuel) p (b ∷ bs) = parse_round p (b ∷ bs) >>= λ next. parse_loop fuel next.1 next.0

-- The fields, the last one finished without a separator.
abbrev finish_last : Parsing → Result (List CustomField)
finish_last p =
    if length p.properties == 0
    then ok p.fields
    else (do field ← finish_field p.properties p.names false; ok (p.fields ++ (field ∷ [])))

unfoldable pub parse_custom_fields : Bytes → ℕ → Result (List CustomField)
parse_custom_fields encoded max_bytes = do
  raise_if (not (ltb 0 max_bytes && leb max_bytes max_decoded_text_bytes_ceiling)) value_error
  raise_if ((length encoded == 0) || ltb max_bytes (length encoded)) value_error
  p ←
      parse_loop (length encoded)
        (record { fields = []; properties = []; names = []; identifiers = [] }) encoded
  fields ← finish_last p
  raise_if (length fields == 0) value_error
  ok fields

abbrev pub encoded_properties : List CustomProperty → Bytes
encoded_properties [] = []
encoded_properties (item ∷ items) = item.encoded ++ encoded_properties items

-- The loop of `_encode_custom_fields_owned`.
abbrev encode_loop : List CustomField → Result Bytes
encode_loop [] = ok []
encode_loop (field ∷ fields) = do
  raise_if field.closed runtime_error
  raise_if (ltb 0 (length fields) && not field.separator_after) value_error
  rest ← encode_loop fields
  ok (
      encoded_properties field.properties
      ++ ((if field.separator_after then separator else []) ++ rest))

unfoldable pub encode_custom_fields : List CustomField → Result Bytes
encode_custom_fields fields = encode_loop fields

-- `ensure_custom_fields_representable`
abbrev ensure_custom_fields_representable : List CustomField → FormatVersion → Result (Unit {0})
ensure_custom_fields_representable fields target_version = do
  raise_if (not (supported target_version)) (incompatible_export_error target_version_unsupported)
  raise_if (ltb 0 (length fields) && ltb target_version.value 0x0311)
      (incompatible_export_error unrepresentable_field)
  ok tt
