-- ===== src/Tests/Vault.antt =====
-- A small vault, its contents and its key material.
use password_bonobo.Prelude.{ℕ, ◌<◌, refl, List, [], ◌∷◌, ◌++◌, length, join, replicate, arith}
use password_bonobo.Prelude.Bytes.{Bytes, AreBytes}
use password_bonobo.Constants.{current_format_version}
use password_bonobo.Crypto.Cbc.Laws.{IsBlock}
use password_bonobo.Crypto.Keys.{VaultKeys, stretch_passphrase, iterate_digest, derived_key}
use password_bonobo.Crypto.Keys.RoundTrip.{AreKeys}
use password_bonobo.Payloads.{inline}
use password_bonobo.Payloads.Inline.{iter_chunks-inline}
use password_bonobo.Model.{RawField, VaultDocument, understood, iter_fields}
use password_bonobo.Writer.{Material}
use password_bonobo.Writer.Fields.{HasContent}
use password_bonobo.Writer.Document.{HaveContents}
use password_bonobo.Reader.Fields.Rebuild.{marker, field}
use password_bonobo.RoundTrip.{CanWrite, IsMaterial}
use password_bonobo.Tests.World.{length_digests, small_limits, replicate-AreBytes}

abbrev pub raw : ℕ → Bytes → ℕ → RawField
raw t c ordinal = record {
  type_code = t;
  payload = inline c;
  ordinal = ordinal;
  classification = understood;
}

abbrev pub uuid : Bytes
uuid = replicate 16 0x80

abbrev title : Bytes
title = b'w' ∷ b'e' ∷ b'b' ∷ []

abbrev password : Bytes
password = replicate 13 b'p'

abbrev pub small_document : VaultDocument
small_document = record {
  version = current_format_version;
  header_fields = raw 0 (0x11 ∷ 0x03 ∷ []) 0 ∷ raw 0xFF [] 1 ∷ [];
  records =
      record {
        fields = raw 0x01 uuid 0 ∷ raw 0x03 title 1 ∷ raw 0x06 password 2 ∷ raw 0xFF [] 3 ∷ [];
        ordinal = 0;
        handle = 0;
      }
      ∷ [];
  revision = 1;
  warnings = [];
}

abbrev pub header_contents : List Bytes
header_contents = (0x11 ∷ 0x03 ∷ []) ∷ [] ∷ []

abbrev pub record_contents : List (List Bytes)
record_contents = (uuid ∷ title ∷ password ∷ [] ∷ []) ∷ []

content_of :
    (t : ℕ) (c : Bytes) (ordinal : ℕ)
    → t < 256
    → length c < 256
    → AreBytes c
    → HasContent 3 (raw t c ordinal) c
content_of t c ordinal h k a = record {
  streams = iter_chunks-inline c 3 (omega arith) (omega arith);
  declared = refl;
  fits = omega arith;
  bytes = a;
  type_byte = h;
}

pub small_contents :
    HaveContents 3 (iter_fields small_document) (header_contents ++ join record_contents)
small_contents = (
  content_of 0 (0x11 ∷ 0x03 ∷ []) 0 (omega arith) (omega arith) (omega arith, (omega arith, tt)),
  (
    content_of 0xFF [] 1 (omega arith) (omega arith) tt,
    (
      content_of 0x01 uuid 0 (omega arith) (omega arith) (replicate-AreBytes 16 0x80 (omega arith)),
      (
        content_of 0x03 title 1 (omega arith) (omega arith)
            (omega arith, (omega arith, (omega arith, tt))),
        (
          content_of 0x06 password 2 (omega arith) (omega arith)
              (replicate-AreBytes 13 b'p' (omega arith)),
          (content_of 0xFF [] 3 (omega arith) (omega arith) tt, tt),
        ),
      ),
    ),
  ),
)

pub small-CanWrite : CanWrite small_limits small_document header_contents record_contents
small-CanWrite = record {
  contents = small_contents;
  short =
      (omega arith, (omega arith, (omega arith, (omega arith, (omega arith, (omega arith, tt))))));
  header = field (raw 0 (0x11 ∷ 0x03 ∷ []) 0) _ (ground arith) (marker (raw 0xFF [] 1) refl);
  records = (
    field (raw 0x01 uuid 0) _ (ground arith) (
        field (raw 0x03 title 1) _ (ground arith)
          (field (raw 0x06 password 2) _ (ground arith) (marker (raw 0xFF [] 3) refl))),
    tt,
  );
  record_count = omega arith;
  field_count = omega arith;
  file_size = omega arith;
}

abbrev pub small_material : Material
small_material = record { salt = replicate 32 1; iterations = 2; derived_key = replicate 32 32 }

abbrev pub passphrase : Bytes
passphrase = b'o' ∷ b'k' ∷ []

pub small_material_fits : IsMaterial length_digests small_limits passphrase small_material
unfolding stretch_passphrase iterate_digest derived_key
small_material_fits = record { fits = omega arith; derived = refl }

abbrev pub small_keys : VaultKeys
small_keys = record { content_key = replicate 32 7; hmac_key = replicate 32 9 }

pub small_keys_are : AreKeys small_keys
small_keys_are = record {
  content_size = refl;
  hmac_size = refl;
  content_bytes = replicate-AreBytes 32 7 (omega arith);
  hmac_bytes_are = replicate-AreBytes 32 9 (omega arith);
}

abbrev pub small_iv : Bytes
small_iv = replicate 16 3

pub small_iv_is : IsBlock small_iv
small_iv_is = record { size = refl; bytes = replicate-AreBytes 16 3 (omega arith) }
