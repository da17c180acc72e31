-- ===== src/Tests/Parts.antt =====
-- The theorems of the parts, applied to the small vault and to small inputs.
use password_bonobo.Prelude.{
  ◌↔◌, ◌≡◌, ◌≤◌, refl, true, false, none, some, List, [], ◌∷◌, ◌++◌, length, join, replicate, ◌||◌,
  arith,
}
use password_bonobo.Prelude.Bytes.{Bytes, from_le}
use password_bonobo.Errors.{
  ok, raise, value_error, runtime_error, secret_closed_error, malformed_vault_error, invalid_field,
  ◌>>=◌, ◌>>◌, raise_if,
}
use password_bonobo.Constants.{current_format_version, from_uint16, to_bytes, check_limits}
use password_bonobo.Constants.Laws.{IsApproved, check_limits-IsApproved, from_uint16-to_bytes}
use password_bonobo.Crypto.Interface.{TwofishKey}
use password_bonobo.Crypto.Authenticator.{update, digest}
use password_bonobo.Crypto.Authenticator.Laws.{fed_with, digest_terminal}
use password_bonobo.Crypto.Cbc.{Cbc, encrypt, decrypt}
use password_bonobo.Crypto.Cbc.FailClosed.{IsWiped, encrypt_fail_closed, decrypt_fail_closed}
use password_bonobo.Crypto.Cbc.Chain.{chain}
use password_bonobo.Crypto.Keys.{stretch_passphrase, wrap_vault_keys, unwrap_vault_keys}
use password_bonobo.Crypto.Keys.RoundTrip.{wrapped_form, unwrap-wrap}
use password_bonobo.Crypto.Keys.Stretch.{digest_power, stretch_passphrase-eq-digest_power}
use password_bonobo.Payloads.{inline, iter_chunks}
use password_bonobo.Payloads.Chunks.{Streams}
use password_bonobo.Payloads.Inline.{iter_chunks-inline}
use password_bonobo.RoundTrip.{authenticated}
use password_bonobo.Snapshots.{snapshot_of}
use password_bonobo.Model.{iter_fields}
use password_bonobo.Writer.Size.{candidate_size-length}
use password_bonobo.Writer.{candidate_size, fixed_candidate_bytes, encrypt_bytes, write_candidate}
use password_bonobo.Writer.Feed.{Wire, sink, feed, encrypt_bytes-eq-feed}
use password_bonobo.Writer.Document.{
  frames, frames_blocks, candidate_of, write_candidate-eq-candidate_of,
}
use password_bonobo.Reader.Envelope.{Envelope, read_envelope}
use password_bonobo.Reader.Envelope.Laws.{Layout, HasSizes, file_bytes, read_envelope-file_bytes}
use password_bonobo.Reader.Fields.{decrypt_fields, last_record_open}
use password_bonobo.Reader.Fields.Sections.{place_all, no_sections}
use password_bonobo.Reader.Fields.Document.{decrypt_fields-frames}
use password_bonobo.Tests.World.{
  mask_backend, mask_key, mask_cipher, masked_block, length_digests, length_digests_work,
  counting_source, counting_source_works, small_limits, replicate-AreBytes,
}
use password_bonobo.Tests.Vault.{
  small_document, header_contents, record_contents, small_contents, small-CanWrite, small_material,
  passphrase, small_keys, small_keys_are, small_iv, small_iv_is,
}

abbrev small_cs : List Bytes
small_cs = header_contents ++ join record_contents

abbrev small_wrapped : Bytes
small_wrapped = wrapped_form masked_block small_keys

unwrap-wrap_example :
    (wrap_vault_keys mask_backend (replicate 32 32) small_keys ≡ ok small_wrapped)
    × (length small_wrapped ≡ 64)
    × (unwrap_vault_keys mask_backend (replicate 32 32) small_wrapped ≡ ok small_keys)
unwrap-wrap_example =
    unwrap-wrap mask_backend (replicate 32 32) small_keys mask_cipher refl small_keys_are

write_candidate-eq-candidate_of_example :
    write_candidate mask_backend length_digests counting_source small_limits small_document
      small_material small_keys small_iv 0
    ≡ ok (
        candidate_of masked_block length_digests counting_source 0 small_document small_cs
          small_material small_wrapped small_keys small_iv)
write_candidate-eq-candidate_of_example =
    write_candidate-eq-candidate_of counting_source counting_source_works mask_backend
      length_digests small_limits small_document small_cs small_material small_keys small_wrapped
      small_iv 0 mask_cipher refl
      (unwrap-wrap mask_backend (replicate 32 32) small_keys mask_cipher refl small_keys_are).0 refl
      refl small_iv_is (omega arith) small_contents

abbrev empty_wire : Wire
empty_wire = record { written = []; previous = small_iv; pending = 1 ∷ 2 ∷ [] }

encrypt_bytes-eq-feed_example :
    encrypt_bytes 20 (sink mask_key empty_wire) (replicate 20 5)
    ≡ ok (sink mask_key (feed masked_block empty_wire (replicate 20 5)))
encrypt_bytes-eq-feed_example =
    encrypt_bytes-eq-feed mask_cipher 20 empty_wire (replicate 20 5)
      (record {
        previous = small_iv_is;
        waiting = omega arith;
        bytes = (omega arith, (omega arith, tt));
      })
      (replicate-AreBytes 20 5 (omega arith)) (omega arith)

abbrev pub small_layout : Layout
small_layout = record {
  salt = replicate 32 1;
  iterations = 2;
  password_check = replicate 32 2;
  wrapped_keys = replicate 64 3;
  iv = replicate 16 4;
  ciphertext = replicate 32 5;
  stored_hmac = replicate 32 6;
}

pub small_layout_fits : HasSizes small_layout 2
small_layout_fits = record {
  salt = refl;
  iterations = omega arith;
  password_check = refl;
  wrapped_keys = refl;
  iv = refl;
  ciphertext = refl;
  stored_hmac = refl;
}

read_envelope-file_bytes_example :
    read_envelope (snapshot_of (file_bytes small_layout)) small_limits
    ≡ ok (record {
      salt = replicate 32 1;
      iterations = 2;
      password_check = replicate 32 2;
      wrapped_keys = replicate 64 3;
      iv = replicate 16 4;
      encrypted_offset = 152;
      encrypted_length = 32;
      stored_hmac = replicate 32 6;
    })
read_envelope-file_bytes_example =
    read_envelope-file_bytes small_layout 2 small_layout_fits small_limits (omega arith)
      (omega arith) (omega arith)

abbrev small_envelope : Envelope
small_envelope =
    (authenticated length_digests (λ k. masked_block) small_document header_contents record_contents
      small_material small_keys small_iv).envelope

abbrev small_ciphertext : Bytes
small_ciphertext =
    chain masked_block small_iv (frames_blocks small_cs)
      (frames counting_source 0 (iter_fields small_document) small_cs)

decrypt_fields-frames_example :
    decrypt_fields mask_backend length_digests
      (snapshot_of (replicate 152 0 ++ (small_ciphertext ++ [])))
      small_envelope
      small_keys
      small_limits
    ≡ (place_all small_limits no_sections (iter_fields small_document) small_cs >>= λ y.
        raise_if
          (y.header || last_record_open y.builder.records)
          (malformed_vault_error invalid_field)
        >> ok (y.builder, length_digests.hmac_sha256 small_keys.hmac_key (join small_cs)))
decrypt_fields-frames_example =
    decrypt_fields-frames mask_cipher mask_backend length_digests counting_source
      counting_source_works (replicate 152 0 ++ (small_ciphertext ++ [])) [] small_envelope
      small_keys small_limits 0 3 (iter_fields small_document) small_cs refl refl refl small_iv_is
      small_contents small-CanWrite.short refl refl

-- A key whose cipher fails.
abbrev broken_key : TwofishKey
broken_key = record {
  encrypt_block = λ b. raise value_error;
  decrypt_block = λ b. raise value_error;
}

abbrev broken : Cbc
broken = record { closed = false; key = some broken_key; previous = small_iv }

abbrev wiped : Cbc
wiped = record { closed = true; key = none; previous = replicate 16 0 }

encrypt_fails : encrypt broken small_iv ≡ (raise value_error, wiped)
unfolding encrypt
encrypt_fails = refl

decrypt_fails : decrypt broken small_iv ≡ (raise value_error, wiped)
unfolding decrypt
decrypt_fails = refl

encrypt_fail_closed_example :
    IsWiped broken (encrypt broken small_iv).1
    × (encrypt (encrypt broken small_iv).1 [] ≡ (raise runtime_error, (encrypt broken small_iv).1))
encrypt_fail_closed_example =
    encrypt_fail_closed broken small_iv [] value_error refl refl (λ i. (encrypt_fails i).0)

decrypt_fail_closed_example :
    IsWiped broken (decrypt broken small_iv).1
    × (decrypt (decrypt broken small_iv).1 [] ≡ (raise runtime_error, (decrypt broken small_iv).1))
decrypt_fail_closed_example =
    decrypt_fail_closed broken small_iv [] value_error refl refl (λ i. (decrypt_fails i).0)

iter_chunks-inline_example : Streams 3 (iter_chunks (inline (replicate 7 1)) 3) (replicate 7 1)
iter_chunks-inline_example = iter_chunks-inline (replicate 7 1) 3 (omega arith) (omega arith)

digest_terminal_example :
    (update (digest length_digests (fed_with small_iv [])).1 small_iv ≡ raise secret_closed_error)
    × ((digest length_digests (digest length_digests (fed_with small_iv [])).1).0
        ≡ raise secret_closed_error)
digest_terminal_example = digest_terminal length_digests (fed_with small_iv []) small_iv

check_limits-IsApproved_example :
    check_limits small_limits ≡ ok small_limits
    ↔ (small_limits ≡ small_limits) × IsApproved small_limits
check_limits-IsApproved_example = check_limits-IsApproved small_limits small_limits

current_version : from_uint16 785 ≡ ok current_format_version
unfolding from_uint16
current_version = refl

from_uint16-to_bytes_example :
    from_uint16 (from_le (to_bytes current_format_version)) ≡ ok current_format_version
from_uint16-to_bytes_example = from_uint16-to_bytes 785 current_format_version current_version

stretch_passphrase-eq-digest_power_example :
    stretch_passphrase length_digests passphrase small_material.salt 2 small_limits
    ≡ ok (digest_power length_digests 2 (length_digests.sha256 (passphrase ++ small_material.salt)))
stretch_passphrase-eq-digest_power_example =
    stretch_passphrase-eq-digest_power length_digests passphrase small_material.salt 2 small_limits
      length_digests_work refl (omega arith) (omega arith)

abbrev small_candidate : Bytes
small_candidate =
    candidate_of masked_block length_digests counting_source 0 small_document small_cs
      small_material small_wrapped small_keys small_iv

small_size : candidate_size small_limits fixed_candidate_bytes (iter_fields small_document) ≡ ok 328
unfolding candidate_size
small_size = refl

candidate_size-length_example : (length small_candidate ≡ 328) × (328 ≤ 65536)
candidate_size-length_example =
    candidate_size-length length_digests counting_source small_limits small_document small_cs
      small_material small_keys small_wrapped small_iv 0 3 328 mask_cipher length_digests_work
      counting_source_works refl refl small_iv_is small_contents (omega arith) small_size
