-- ===== src/Tests/Custom.antt =====
-- Custom fields that are parsed, encoded and edited.
use password_bonobo.Prelude.{ℕ, ◌≡◌, refl, true, false, [], ◌∷◌, ◌++◌, arith}
use password_bonobo.Prelude.Bytes.{Bytes}
use password_bonobo.Errors.{ok}
use password_bonobo.CustomFields.{
  CustomProperty, CustomField, Parsing, separator, parse_loop, parse_custom_fields,
  encode_custom_fields,
}
use password_bonobo.CustomFields.RoundTrip.{encode_custom_fields-parse}
use password_bonobo.CustomFields.Fuel.{parse_loop-fuel}

-- "01" "0001" "a"
abbrev named_a : Bytes
named_a = b'0' ∷ b'1' ∷ b'0' ∷ b'0' ∷ b'0' ∷ b'1' ∷ b'a' ∷ []

-- "02" "0002" "xy"
abbrev valued_xy : Bytes
valued_xy = b'0' ∷ b'2' ∷ b'0' ∷ b'0' ∷ b'0' ∷ b'2' ∷ b'x' ∷ b'y' ∷ []

-- "7f" "0000", of an unknown kind
abbrev unknown : Bytes
unknown = b'7' ∷ b'f' ∷ b'0' ∷ b'0' ∷ b'0' ∷ b'0' ∷ []

-- "02" "0001" "z" and "03" "0001" "1"
abbrev valued_z : Bytes
valued_z = b'0' ∷ b'2' ∷ b'0' ∷ b'0' ∷ b'0' ∷ b'1' ∷ b'z' ∷ []

abbrev flagged : Bytes
flagged = b'0' ∷ b'3' ∷ b'0' ∷ b'0' ∷ b'0' ∷ b'1' ∷ b'1' ∷ []

abbrev source : Bytes
source = named_a ++ (unknown ++ (valued_xy ++ separator))

abbrev property : ℕ → ℕ → Bytes → CustomProperty
property i n e = record { property_id = i; value_length = n; encoded = e }

abbrev field_a : CustomField
field_a = record {
  properties = property 1 1 named_a ∷ property 0x7F 0 unknown ∷ property 2 2 valued_xy ∷ [];
  name = b'a' ∷ [];
  sensitive = false;
  separator_after = true;
  closed = false;
}

abbrev edited_a : CustomField
edited_a = record {
  properties =
      property 1 1 named_a
      ∷ property 0x7F 0 unknown
      ∷ property 2 1 valued_z
      ∷ property 3 1 flagged
      ∷ [];
  name = b'a' ∷ [];
  sensitive = true;
  separator_after = true;
  closed = false;
}

source_parses : parse_custom_fields source 4096 ≡ ok (field_a ∷ [])
unfolding parse_custom_fields parse_loop
source_parses = refl

encode_custom_fields-parse_example : encode_custom_fields (field_a ∷ []) ≡ ok source
encode_custom_fields-parse_example =
    encode_custom_fields-parse source 4096 (field_a ∷ []) source_parses

abbrev start_parsing : Parsing
start_parsing = record { fields = []; properties = []; names = []; identifiers = [] }

parse_loop-fuel_example : parse_loop 40 start_parsing source ≡ parse_loop 27 start_parsing source
parse_loop-fuel_example = parse_loop-fuel 40 27 start_parsing source (omega arith) (omega arith)
