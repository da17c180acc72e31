-- ===== src/Reader/Open.antt =====
-- `open_snapshot`, `_open_snapshot_locked` and `_publish_authenticated_snapshot` of reader.py:
-- password check, key unwrapping, decryption, the comparison of the HMAC, and behind it the
-- validation, the document and the hardened key. The manifest, a digest of the document, and the
-- owners of the keys are not modelled.
use password_bonobo.Prelude.{ℕ, not, ◌&&◌, ◌++◌, Option, none, some, ltb, leb, if◌then◌else◌}
use password_bonobo.Prelude.Bytes.{Bytes, bytes_eq}
use password_bonobo.Errors.{
  Error, Result, ok, raise, value_error, type_error, runtime_error, overflow_error, os_error,
  payload_closed_error, secret_closed_error, snapshot_closed_error, malformed_vault_error,
  invalid_envelope, authentication_error, password_check_failed, integrity_error, hmac_mismatch,
  resource_limit_error, max_encrypted_file_bytes, ◌>>=◌, ◌>>◌, raise_if,
}
use password_bonobo.Constants.{ResourceLimits, minimum_iterations}
use password_bonobo.Crypto.Interface.{TwofishBackend, Digests}
use password_bonobo.Crypto.Keys.{VaultKeys, stretch_passphrase, unwrap_vault_keys}
use password_bonobo.Snapshots.{EncryptedSnapshot, size}
use password_bonobo.Reader.Envelope.{Envelope, read_envelope}
use password_bonobo.Model.{VaultDocument}
use password_bonobo.Reader.Builder.{Builder, build}
use password_bonobo.Reader.Fields.{decrypt_fields}
use password_bonobo.Reader.Version.{validate_version_fields}
use password_bonobo.Reader.Validation.{validate_schema_fields}

-- What stands authenticated when the HMAC was compared.
pub record Authenticated : Type 0 where
  pub envelope : Envelope
  pub derived_key : Bytes
  pub keys : VaultKeys
  pub builder : Builder

-- What an opened vault holds: its keys, its document, and the key for a hardened save.
pub record OpenedSnapshot : Type 0 where
  pub authenticated : Authenticated
  pub document : VaultDocument
  pub hardened_key : Option Bytes

-- The `except` branches: an exception that is no `PasswordSafeError` becomes a malformed envelope.
abbrev pub masked : Error → Error
masked value_error = malformed_vault_error invalid_envelope
masked type_error = malformed_vault_error invalid_envelope
masked runtime_error = malformed_vault_error invalid_envelope
masked overflow_error = malformed_vault_error invalid_envelope
masked os_error = malformed_vault_error invalid_envelope
masked payload_closed_error = malformed_vault_error invalid_envelope
masked secret_closed_error = malformed_vault_error invalid_envelope
masked snapshot_closed_error = malformed_vault_error invalid_envelope
masked e = e

abbrev pub quarantined {ℓ} : {A : Type ℓ} → Result A → Result A
quarantined (ok a) = ok a
quarantined (raise e) = raise (masked e)

module _ (backend : TwofishBackend) (digests : Digests) where
  unfoldable pub authenticate : EncryptedSnapshot → Bytes → ResourceLimits → Result Authenticated
  authenticate snapshot passphrase limits = do
    envelope ← read_envelope snapshot limits
    derived ← stretch_passphrase digests passphrase envelope.salt envelope.iterations limits
    raise_if (not (bytes_eq (digests.sha256 derived) envelope.password_check))
        (authentication_error password_check_failed)
    keys ← unwrap_vault_keys backend derived envelope.wrapped_keys
    (builder, mac) ← decrypt_fields backend digests snapshot envelope keys limits
    raise_if (not (bytes_eq mac envelope.stored_hmac)) (integrity_error hmac_mismatch)
    ok (record { envelope = envelope; derived_key = derived; keys = keys; builder = builder })

  -- The key for a later save, when the file was stretched with fewer iterations than new files are.
  unfoldable pub harden : Envelope → Bytes → ResourceLimits → Result (Option Bytes)
  harden envelope passphrase limits =
      if ltb envelope.iterations minimum_iterations && leb minimum_iterations limits.max_iterations
      then (do
        key ← stretch_passphrase digests passphrase envelope.salt minimum_iterations limits
        ok (some key))
      else ok none

  -- What follows the comparison of the HMAC; identities are issued from a number on.
  unfoldable pub publish_authenticated :
      ℕ → Bytes → ResourceLimits → Authenticated → Result OpenedSnapshot
  publish_authenticated issued passphrase limits a = do
    version ← validate_version_fields a.builder.header limits
    (h, r) ← validate_schema_fields a.builder.header a.builder.records version limits
    hardened ← harden a.envelope passphrase limits
    ok (record {
      authenticated = a;
      document =
          build issued (record { header = h.fields; records = r.records }) version
            (h.warnings ++ r.warnings);
      hardened_key = hardened;
    })

  unfoldable pub open_snapshot :
      ℕ → EncryptedSnapshot → Bytes → ResourceLimits → Result OpenedSnapshot
  open_snapshot issued snapshot passphrase limits = do
    raise_if (ltb limits.max_encrypted_file_bytes (size snapshot))
        (resource_limit_error max_encrypted_file_bytes)
    quarantined (
        authenticate snapshot passphrase limits >>= λ a.
        publish_authenticated issued passphrase limits a)
