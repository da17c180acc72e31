-- ===== src/Reader/Envelope.antt =====
-- `_read_envelope` of reader.py: the fixed prefix and suffix around the encrypted fields.
pub mod Laws
use password_bonobo.Prelude.{
  ℕ, ◌+◌, ◌-◌, ◌%◌, Bool, not, ◌||◌, length, slice, take, drop, ltb, leb, ◌==◌, ◌!=◌,
}
use password_bonobo.Prelude.Bytes.{Bytes, bytes_eq, from_le}
use password_bonobo.Errors.{
  Result, ok, malformed_vault_error, invalid_envelope, resource_limit_error, max_iterations,
  integrity_error, unexpected_eof, ◌>>=◌, ◌>>◌, raise_if,
}
use password_bonobo.Constants.{file_tag, eof_marker, ResourceLimits}
use password_bonobo.Snapshots.{EncryptedSnapshot, size, read_at}

-- `_FIXED_PREFIX_BYTES`: tag, salt, iterations, password check, wrapped keys and IV.
abbrev pub fixed_prefix_bytes : ℕ
fixed_prefix_bytes = 4 + 32 + 4 + 32 + 64 + 16

-- `_FIXED_SUFFIX_BYTES`: end marker and HMAC.
abbrev pub fixed_suffix_bytes : ℕ
fixed_suffix_bytes = 16 + 32

abbrev pub minimum_file_bytes : ℕ
minimum_file_bytes = fixed_prefix_bytes + 16 + fixed_suffix_bytes

pub record Envelope : Type 0 where
  pub salt : Bytes
  pub iterations : ℕ
  pub password_check : Bytes
  pub wrapped_keys : Bytes
  pub iv : Bytes
  pub encrypted_offset : ℕ
  pub encrypted_length : ℕ
  pub stored_hmac : Bytes

pub read_envelope : EncryptedSnapshot → ResourceLimits → Result Envelope
read_envelope snapshot limits = do
  raise_if (ltb (size snapshot) minimum_file_bytes) (malformed_vault_error invalid_envelope)
  prefix ← read_at snapshot 0 fixed_prefix_bytes
  raise_if (not (bytes_eq (take 4 prefix) file_tag)) (malformed_vault_error invalid_envelope)
  let iterations = from_le (slice 36 40 prefix)
  raise_if (iterations == 0) (malformed_vault_error invalid_envelope)
  raise_if (ltb limits.max_iterations iterations) (resource_limit_error max_iterations)
  let encrypted_length = size snapshot - fixed_prefix_bytes - fixed_suffix_bytes
  raise_if (leb encrypted_length 0 || (encrypted_length % 16 != 0))
      (malformed_vault_error invalid_envelope)
  suffix ← read_at snapshot (size snapshot - fixed_suffix_bytes) fixed_suffix_bytes
  raise_if (not (bytes_eq (take 16 suffix) eof_marker)) (integrity_error unexpected_eof)
  ok (record {
    salt = slice 4 36 prefix;
    iterations = iterations;
    password_check = slice 40 72 prefix;
    wrapped_keys = slice 72 136 prefix;
    iv = slice 136 152 prefix;
    encrypted_offset = fixed_prefix_bytes;
    encrypted_length = encrypted_length;
    stored_hmac = drop 16 suffix;
  })
