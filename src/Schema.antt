-- ===== src/Schema.antt =====
-- src/bonobo_core/passwordsafe/schema.py: the official fields, and their typed values.
pub mod Values
pub mod Fields
use password_bonobo.Prelude.{
  ℕ, Bool, true, false, Option, none, some, List, [], ◌∷◌, ◌==◌, if◌then◌else◌,
}
use password_bonobo.Constants.{FormatVersion}

pub data FieldKind : Type 0 where
  uuid text time uint32 uint16 uint8 binary opaque empty : FieldKind

pub data FieldMultiplicity : Type 0 where
  single multiple : FieldMultiplicity

pub data SecretClassification : Type 0 where
  public secret potentially_secret : SecretClassification

pub data MandatoryRole : Type 0 where
  optional header_required record_required attachment_required passkey_required terminator :
      MandatoryRole

pub record FieldSpec : Type 0 where
  pub kind : FieldKind
  pub since : FormatVersion
  pub multiplicity : FieldMultiplicity
  pub secrecy : SecretClassification
  pub mandatory_role : MandatoryRole
  pub editable : Bool
  pub fixed_length : Option ℕ
  pub alternate_lengths : List ℕ
  pub allow_historical_time : Bool

-- The properties `secret` and `mandatory` of `FieldSpec`
abbrev pub is_secret : SecretClassification → Bool
is_secret public = false
is_secret secret = true
is_secret potentially_secret = true

abbrev pub is_mandatory : MandatoryRole → Bool
is_mandatory optional = false
is_mandatory header_required = true
is_mandatory record_required = true
is_mandatory attachment_required = true
is_mandatory passkey_required = true
is_mandatory terminator = true

-- `_spec`, with its defaults
abbrev spec : FieldKind → ℕ → FieldSpec
spec kind since = record {
  kind = kind;
  since = record { value = since };
  multiplicity = single;
  secrecy = public;
  mandatory_role = optional;
  editable = true;
  fixed_length = none;
  alternate_lengths = [];
  allow_historical_time = false;
}

-- The values of `HeaderFieldType` and `RecordFieldType` with their specifications.
abbrev pub header_schema : List (ℕ × FieldSpec)
header_schema =
    (
      0x00,
      record (spec uint16 0x0300) {
        mandatory_role = header_required;
        editable = false;
        fixed_length = some 2;
      },
    )
    ∷ (0x01, record (spec uuid 0x0300) { editable = false; fixed_length = some 16 })
    ∷ (0x02, spec text 0x0300)
    ∷ (0x03, spec text 0x0301)
    ∷ (0x04, record (spec time 0x0300) { fixed_length = some 4; allow_historical_time = true })
    ∷ (0x05, spec text 0x0300)
    ∷ (0x06, spec text 0x0300)
    ∷ (0x07, spec text 0x0302)
    ∷ (0x08, spec text 0x0302)
    ∷ (0x09, spec text 0x0302)
    ∷ (0x0A, spec text 0x0302)
    ∷ (0x0B, spec text 0x0305)
    ∷ (0x0C, record (spec opaque 0x0300) { secrecy = potentially_secret; editable = false })
    ∷ (0x0D, record (spec opaque 0x0300) { secrecy = potentially_secret; editable = false })
    ∷ (0x0E, record (spec opaque 0x0300) { secrecy = potentially_secret; editable = false })
    ∷ (0x0F, spec text 0x0307)
    ∷ (0x10, spec text 0x030A)
    ∷ (0x11, record (spec text 0x030B) { multiplicity = multiple })
    ∷ (0x12, record (spec binary 0x030C) { secrecy = secret; fixed_length = some 20 })
    ∷ (0x13, record (spec time 0x030E) { fixed_length = some 4; allow_historical_time = true })
    ∷ (
      0xFF,
      record (spec empty 0x0300) {
        mandatory_role = terminator;
        editable = false;
        fixed_length = some 0;
      },
    )
    ∷ []

abbrev pub record_schema : List (ℕ × FieldSpec)
record_schema =
    (
      0x01,
      record (spec uuid 0x0300) {
        mandatory_role = record_required;
        editable = false;
        fixed_length = some 16;
      },
    )
    ∷ (0x02, spec text 0x0300)
    ∷ (0x03, record (spec text 0x0300) { mandatory_role = record_required })
    ∷ (0x04, spec text 0x0300)
    ∷ (0x05, record (spec text 0x0300) { secrecy = potentially_secret })
    ∷ (0x06, record (spec text 0x0300) { secrecy = secret; mandatory_role = record_required })
    ∷ (0x07, record (spec time 0x0300) { fixed_length = some 4 })
    ∷ (0x08, record (spec time 0x0300) { fixed_length = some 4 })
    ∷ (0x09, record (spec time 0x0300) { fixed_length = some 4 })
    ∷ (0x0A, record (spec time 0x0300) { fixed_length = some 4 })
    ∷ (
      0x0B,
      record (spec opaque 0x0300) {
        secrecy = potentially_secret;
        editable = false;
        fixed_length = some 4;
      },
    )
    ∷ (0x0C, record (spec time 0x0300) { fixed_length = some 4 })
    ∷ (0x0D, spec text 0x0300)
    ∷ (0x0E, spec text 0x0300)
    ∷ (0x0F, record (spec text 0x0300) { secrecy = secret })
    ∷ (0x10, spec text 0x0302)
    ∷ (0x11, record (spec uint32 0x0304) { fixed_length = some 4 })
    ∷ (0x12, spec text 0x0305)
    ∷ (0x13, record (spec uint16 0x0305) { fixed_length = some 2 })
    ∷ (0x14, spec text 0x0306)
    ∷ (0x15, record (spec uint8 0x0308) { fixed_length = some 1 })
    ∷ (0x16, spec text 0x0309)
    ∷ (0x17, record (spec uint16 0x0309) { fixed_length = some 2 })
    ∷ (0x18, spec text 0x030A)
    ∷ (0x19, record (spec uint32 0x030D) { fixed_length = some 4 })
    ∷ (
      0x1A,
      record (spec opaque 0x030D) {
        secrecy = potentially_secret;
        editable = false;
        fixed_length = some 16;
      },
    )
    ∷ (0x1B, record (spec binary 0x030D) { secrecy = secret })
    ∷ (0x1C, record (spec text 0x030D) { secrecy = secret })
    ∷ (0x1D, record (spec text 0x030D) { secrecy = secret })
    ∷ (0x1E, record (spec text 0x030D) { secrecy = secret })
    ∷ (0x1F, record (spec text 0x030D) { secrecy = secret })
    ∷ (0x20, record (spec text 0x030D) { secrecy = potentially_secret })
    ∷ (0x21, record (spec uint8 0x030E) { fixed_length = some 1 })
    ∷ (0x22, record (spec uint8 0x030E) { fixed_length = some 1 })
    ∷ (0x23, record (spec uint8 0x030E) { fixed_length = some 1 })
    ∷ (0x24, record (spec time 0x030E) { fixed_length = some 4; alternate_lengths = 5 ∷ [] })
    ∷ (0x25, record (spec opaque 0x030F) { secrecy = potentially_secret; editable = false })
    ∷ (
      0x26,
      record (spec opaque 0x030F) {
        secrecy = potentially_secret;
        mandatory_role = attachment_required;
        editable = false;
      },
    )
    ∷ (0x27, record (spec opaque 0x030F) { secrecy = potentially_secret; editable = false })
    ∷ (
      0x28,
      record (spec opaque 0x030F) {
        secrecy = potentially_secret;
        editable = false;
        fixed_length = some 4;
      },
    )
    ∷ (0x29, record (spec opaque 0x030F) { secrecy = potentially_secret; editable = false })
    ∷ (
      0x2A,
      record (spec opaque 0x0310) {
        secrecy = potentially_secret;
        mandatory_role = passkey_required;
        editable = false;
      },
    )
    ∷ (
      0x2B,
      record (spec opaque 0x0310) {
        secrecy = potentially_secret;
        mandatory_role = passkey_required;
        editable = false;
      },
    )
    ∷ (
      0x2C,
      record (spec opaque 0x0310) {
        secrecy = potentially_secret;
        mandatory_role = passkey_required;
        editable = false;
      },
    )
    ∷ (
      0x2D,
      record (spec opaque 0x0310) {
        secrecy = potentially_secret;
        mandatory_role = passkey_required;
        editable = false;
        fixed_length = some 4;
      },
    )
    ∷ (
      0x2E,
      record (spec opaque 0x0310) {
        secrecy = potentially_secret;
        mandatory_role = passkey_required;
        editable = false;
      },
    )
    ∷ (
      0x2F,
      record (spec opaque 0x0310) {
        secrecy = potentially_secret;
        mandatory_role = passkey_required;
        editable = false;
        fixed_length = some 4;
      },
    )
    ∷ (0x30, record (spec text 0x0311) { secrecy = potentially_secret; editable = false })
    ∷ (
      0xDF,
      record (spec opaque 0x0300) {
        multiplicity = multiple;
        secrecy = potentially_secret;
        editable = false;
      },
    )
    ∷ (
      0xFF,
      record (spec empty 0x0300) {
        mandatory_role = terminator;
        editable = false;
        fixed_length = some 0;
      },
    )
    ∷ []

abbrev lookup : List (ℕ × FieldSpec) → ℕ → Option FieldSpec
lookup [] type_code = none
lookup ((code, spec) ∷ rows) type_code =
    if code == type_code then some spec else lookup rows type_code

-- `_lookup_header_spec`
abbrev pub lookup_header_spec : ℕ → Option FieldSpec
lookup_header_spec = lookup header_schema

-- `_lookup_record_spec`
abbrev pub lookup_record_spec : ℕ → Option FieldSpec
lookup_record_spec = lookup record_schema
