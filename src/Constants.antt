-- ===== src/Constants.antt =====
-- src/bonobo_core/passwordsafe/constants.py: the format's constants, versions and budgets.
pub mod Laws
use password_bonobo.Prelude.{
  ℕ, ◌+◌, ◌*◌, ◌^◌, Bool, ◌&&◌, ◌||◌, not, [], ◌∷◌, ltb, leb, if◌then◌else◌,
}
use password_bonobo.Prelude.Bytes.{Bytes, to_le}
use password_bonobo.Errors.{Result, ok, raise, value_error}

abbrev pub file_tag : Bytes
file_tag = b'P' ∷ b'W' ∷ b'S' ∷ b'3' ∷ []

abbrev pub eof_marker : Bytes
eof_marker =
    b'P' ∷ b'W' ∷ b'S' ∷ b'3' ∷ b'-' ∷ b'E' ∷ b'O' ∷ b'F' ∷ b'P' ∷ b'W' ∷ b'S' ∷ b'3' ∷ b'-' ∷ b'E'
    ∷ b'O' ∷ b'F' ∷ []

abbrev pub block_bytes : ℕ
block_bytes = 16

abbrev pub salt_bytes : ℕ
salt_bytes = 32

abbrev pub key_check_bytes : ℕ
key_check_bytes = 32

abbrev pub wrapped_key_blocks : ℕ
wrapped_key_blocks = 4

abbrev pub wrapped_key_bytes : ℕ
wrapped_key_bytes = wrapped_key_blocks * block_bytes

abbrev pub iv_bytes : ℕ
iv_bytes = block_bytes

abbrev pub hmac_bytes : ℕ
hmac_bytes = 32

abbrev pub field_header_bytes : ℕ
field_header_bytes = 5

abbrev pub minimum_iterations : ℕ
minimum_iterations = 262144

abbrev pub max_iterations_ceiling : ℕ
max_iterations_ceiling = 10000000

abbrev pub max_records_ceiling : ℕ
max_records_ceiling = 1000000

abbrev pub max_fields_ceiling : ℕ
max_fields_ceiling = 2000000

abbrev pub max_encrypted_file_bytes_ceiling : ℕ
max_encrypted_file_bytes_ceiling = 2 ^ 32 + 1048576

abbrev pub max_inline_payload_bytes_ceiling : ℕ
max_inline_payload_bytes_ceiling = 1048576

abbrev pub max_decoded_text_bytes_ceiling : ℕ
max_decoded_text_bytes_ceiling = 16777216

abbrev pub max_io_chunk_bytes : ℕ
max_io_chunk_bytes = 65536

-- The dataclass `FormatVersion`; values come from `from_uint16`.
pub record FormatVersion : Type 0 where
  pub value : ℕ

-- `FormatVersion.from_uint16`, with the constructor's own check of the same range.
unfoldable pub from_uint16 : ℕ → Result FormatVersion
from_uint16 value = if leb value 0xFFFF then ok (record { value = value }) else raise value_error

unfoldable pub to_bytes : FormatVersion → Bytes
to_bytes version = to_le 2 version.value

unfoldable pub supported : FormatVersion → Bool
supported version = leb 0x0300 version.value && leb version.value 0x0311

abbrev pub current_format_version : FormatVersion
current_format_version = record { value = 0x0311 }

pub record ResourceLimits : Type 0 where
  pub max_iterations : ℕ
  pub max_records : ℕ
  pub max_fields : ℕ
  pub max_inline_payload_bytes : ℕ
  pub max_decoded_text_bytes : ℕ
  pub io_chunk_bytes : ℕ
  pub max_encrypted_file_bytes : ℕ

-- `not 0 < value <= ceiling`
abbrev pub outside : ℕ → ℕ → Bool
outside value ceiling = not (ltb 0 value && leb value ceiling)

-- The loop of `ResourceLimits.__post_init__` over its seven rows.
unfoldable pub check_limits : ResourceLimits → Result ResourceLimits
check_limits l =
    if outside l.max_iterations max_iterations_ceiling
      || outside l.max_records max_records_ceiling
      || outside l.max_fields max_fields_ceiling
      || outside l.max_inline_payload_bytes max_inline_payload_bytes_ceiling
      || outside l.max_decoded_text_bytes max_decoded_text_bytes_ceiling
      || outside l.io_chunk_bytes max_io_chunk_bytes
      || outside l.max_encrypted_file_bytes max_encrypted_file_bytes_ceiling
    then raise value_error
    else ok l

-- `ResourceLimits()`
abbrev pub default_limits : ResourceLimits
default_limits = record {
  max_iterations = max_iterations_ceiling;
  max_records = max_records_ceiling;
  max_fields = max_fields_ceiling;
  max_inline_payload_bytes = max_inline_payload_bytes_ceiling;
  max_decoded_text_bytes = max_decoded_text_bytes_ceiling;
  io_chunk_bytes = max_io_chunk_bytes;
  max_encrypted_file_bytes = max_encrypted_file_bytes_ceiling;
}
