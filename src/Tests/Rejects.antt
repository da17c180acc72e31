-- ===== src/Tests/Rejects.antt =====
-- The small vault with another HMAC or without its version field, and a vault whose password check
-- belongs to another key.
use password_bonobo.Prelude.{ℕ, some, ◌≡◌, ◌≢◌, refl, ap, [], ◌∷◌, ◌++◌, join, replicate, arith}
use password_bonobo.Prelude.Bytes.{Bytes}
use password_bonobo.Errors.{
  raise, authentication_error, password_check_failed, integrity_error, hmac_mismatch, ok,
  malformed_vault_error, missing_mandatory_field,
}
use password_bonobo.Snapshots.{snapshot_of}
use password_bonobo.Reader.Envelope.Laws.{file_bytes}
use password_bonobo.Reader.Open.{open_snapshot, authenticate}
use password_bonobo.Reader.Fields.Rebuild.{marker}
use password_bonobo.Model.{VaultDocument}
use password_bonobo.Writer.{write_candidate}
use password_bonobo.RoundTrip.{CanWrite, authenticated, layout_of}
use password_bonobo.RoundTrip.Rejects.{
  first_type, open_snapshot-unversioned, with_hmac, open_snapshot-wrong_passphrase,
  open_snapshot-wrong_hmac,
}
use password_bonobo.Tests.World.{
  mask_backend, mask_backend_works, length_digests, length_digests_work, masked_block,
  counting_source, counting_source_works, small_limits,
}
use password_bonobo.Tests.Vault.{
  raw, small_contents, small_document, header_contents, record_contents, small-CanWrite,
  small_material, small_material_fits, passphrase, small_keys, small_keys_are, small_iv,
  small_iv_is,
}
use password_bonobo.Tests.Parts.{small_layout, small_layout_fits}

first : Bytes → ℕ
first [] = 0
first (b ∷ bs) = b

other_check : length_digests.sha256 (replicate 32 32) ≢ small_layout.password_check
unfolding first
other_check e = let heads : 32 ≡ 2 = ap first e in absurd (omega (arith, heads))

open_snapshot-wrong_passphrase_example :
    open_snapshot mask_backend length_digests 7
      (snapshot_of (file_bytes small_layout))
      passphrase
      small_limits
    ≡ raise (authentication_error password_check_failed)
open_snapshot-wrong_passphrase_example =
    open_snapshot-wrong_passphrase mask_backend length_digests small_layout 2 small_limits 7
      passphrase (replicate 32 32) small_layout_fits (omega arith) (omega arith) (omega arith)
      (omega arith) small_material_fits.derived other_check

other_hmac :
    length_digests.hmac_sha256 small_keys.hmac_key (join (header_contents ++ join record_contents))
    ≢ replicate 32 1
unfolding first
other_hmac e = let heads : 34 ≡ 1 = ap first e in absurd (omega (arith, heads))

open_snapshot-wrong_hmac_example :
    open_snapshot mask_backend length_digests 7
      (snapshot_of (
        file_bytes (
          with_hmac
            (layout_of mask_backend mask_backend_works length_digests length_digests_work
              counting_source counting_source_works small_document
              (header_contents ++ join record_contents)
              small_material
              small_keys
              small_iv
              0)
            (replicate 32 1))))
      passphrase
      small_limits
    ≡ raise (integrity_error hmac_mismatch)
open_snapshot-wrong_hmac_example =
    open_snapshot-wrong_hmac mask_backend mask_backend_works length_digests length_digests_work
      counting_source counting_source_works small_limits small_document header_contents
      record_contents small_material passphrase small_keys small_iv 0 7 (replicate 32 1)
      small-CanWrite small_material_fits small_keys_are small_iv_is refl other_hmac

-- The small vault without its version field.
abbrev bare_document : VaultDocument
bare_document = record {
  version = small_document.version;
  header_fields = raw 0xFF [] 1 ∷ [];
  records = small_document.records;
  revision = 1;
  warnings = [];
}

bare-CanWrite : CanWrite small_limits bare_document ([] ∷ []) record_contents
bare-CanWrite = record {
  contents = small_contents.1;
  short = small-CanWrite.short.1;
  header = marker (raw 0xFF [] 1) refl;
  records = small-CanWrite.records;
  record_count = omega arith;
  field_count = omega arith;
  file_size = omega arith;
}

bare_first : first_type bare_document.header_fields ≢ some 0
bare_first e = absurd (ground (arith, e))

open_snapshot-unversioned_example :
    (candidate : Bytes) × (write_candidate mask_backend length_digests counting_source small_limits
        bare_document small_material small_keys small_iv 0
      ≡ ok candidate)
    × (authenticate mask_backend length_digests (snapshot_of candidate) passphrase small_limits
        ≡ ok (
            authenticated length_digests
              (λ k. masked_block)
              bare_document
              ([] ∷ [])
              record_contents
              small_material
              small_keys
              small_iv))
    × (open_snapshot mask_backend length_digests 7 (snapshot_of candidate) passphrase small_limits
        ≡ raise (malformed_vault_error missing_mandatory_field))
open_snapshot-unversioned_example =
    open_snapshot-unversioned mask_backend mask_backend_works length_digests length_digests_work
      counting_source counting_source_works small_limits bare_document ([] ∷ []) record_contents
      small_material passphrase small_keys small_iv 0 7 bare-CanWrite small_material_fits
      small_keys_are small_iv_is bare_first
