-- ===== src/Tests/Values.antt =====
-- A typed value that is encoded and decoded.
use password_bonobo.Prelude.{ℕ, arith, ◌≡◌, ◌≢◌, refl, true, false, some, [], ◌∷◌}
use password_bonobo.Prelude.Bytes.{Bytes}
use password_bonobo.Errors.{ok}
use password_bonobo.Schema.{FieldSpec, uint32, single, public, optional}
use password_bonobo.Schema.Values.{integer, encode_value}
use password_bonobo.Schema.Values.RoundTrip.{
  DecodesTo, uint32_edit, decode_materialized-encode_value,
}

-- The specification of the password expiry interval.
abbrev interval_spec : FieldSpec
interval_spec = record {
  kind = uint32;
  since = record { value = 0x0304 };
  multiplicity = single;
  secrecy = public;
  mandatory_role = optional;
  editable = true;
  fixed_length = some 4;
  alternate_lengths = [];
  allow_historical_time = false;
}

abbrev interval_bytes : Bytes
interval_bytes = 0x2C ∷ 0x01 ∷ 0 ∷ 0 ∷ []

interval_encodes : encode_value interval_spec uint32 (some 4) (integer 300) ≡ ok interval_bytes
unfolding encode_value
interval_encodes = refl

abbrev interval_code : ℕ
interval_code = 0x11

interval_type : interval_code ≢ 0
interval_type = ground arith

decode_materialized-encode_value_example :
    DecodesTo 0x11 interval_spec uint32 interval_bytes (integer 300)
decode_materialized-encode_value_example =
    decode_materialized-encode_value 0x11 interval_spec uint32 (some 4) (integer 300) interval_bytes
      interval_type (uint32_edit (some 4) 300) interval_encodes
