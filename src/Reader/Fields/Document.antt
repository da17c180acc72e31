-- ===== src/Reader/Fields/Document.antt =====
-- `_decrypt_fields` of reader.py on the ciphertext of a whole document.
use password_bonobo.Prelude.{
  ℕ, ◌+◌, ◌*◌, ◌/◌, ◌≡◌, ◌≤◌, ap, inl, inr, ◌||◌, List, [], ◌++◌, length, drop, join, arith,
}
use password_bonobo.Prelude.Bytes.{Bytes}
use password_bonobo.Errors.{
  ok, Result-cases, ◌>>=◌, ◌>>◌, raise_if, malformed_vault_error, invalid_field,
}
use password_bonobo.Constants.{ResourceLimits, hmac_bytes, block_bytes}
use password_bonobo.Snapshots.{snapshot_of}
use password_bonobo.Crypto.Interface.{
  TwofishKey, TwofishBackend, Digests, IsBlockCipher, RandomSource, IsRandomSource,
}
use password_bonobo.Crypto.Authenticator.Laws.{new-fed_with, digest-fed_with}
use password_bonobo.Crypto.Cbc.Laws.{IsBlock, start-eq-running}
use password_bonobo.Crypto.Cbc.Chain.{chain}
use password_bonobo.Crypto.Keys.{VaultKeys}
use password_bonobo.Model.{RawField, VaultDocument, iter_fields}
use password_bonobo.Writer.Document.{HaveContents, frames, frames_blocks}
use password_bonobo.Reader.Envelope.{Envelope}
use password_bonobo.Reader.Fields.{decrypt_fields, last_record_open}
use password_bonobo.Reader.Fields.Sections.{place_all, no_sections}
use password_bonobo.Reader.Fields.Stream.{AreShort, read_fields-frames}
use password_bonobo.Reader.Fields.Rebuild.{IsSection, read_back}
use password_bonobo.Reader.Fields.Records.{
  AreSections, read_back_records, place_all-document, last_record_closed,
}

blocks_of : (total n : ℕ) → total ≡ 0 + n * 16 → total / block_bytes ≡ n
blocks_of total n h = omega arith

module _ {k : TwofishKey} {enc : Bytes → Bytes} (cipher : IsBlockCipher k enc)
    (backend : TwofishBackend) (digests : Digests) (random : RandomSource)
    (src : IsRandomSource random) where
  -- A stream that is the encrypted frames of short fields, whatever their types, is read into what
  -- the section parser makes of the contents, its errors included, and the digest of the contents.
  pub decrypt_fields-frames :
      (file after : Bytes) (envelope : Envelope) (keys : VaultKeys) (limits : ResourceLimits)
      (calls bound : ℕ) (raws : List RawField) (cs : List Bytes)
      → backend.key keys.content_key ≡ ok k
      → length keys.content_key ≡ hmac_bytes
      → length keys.hmac_key ≡ hmac_bytes
      → IsBlock envelope.iv
      → HaveContents bound raws cs
      → AreShort limits cs
      → envelope.encrypted_length ≡ 0 + frames_blocks cs * 16
      → drop (envelope.encrypted_offset + 0) file
        ≡ chain enc envelope.iv (frames_blocks cs) (frames random calls raws cs) ++ after
      → decrypt_fields backend digests (snapshot_of file) envelope keys limits ≡ (
          place_all limits no_sections raws cs >>= λ y.
          raise_if
            (y.header || last_record_open y.builder.records)
            (malformed_vault_error invalid_field)
          >> ok (y.builder, digests.hmac_sha256 keys.hmac_key (join cs)))
  unfolding decrypt_fields
  decrypt_fields-frames file after envelope keys limits calls bound raws cs e hc hm v h s total
        here =
      rw
        (
          new-fed_with keys.hmac_key hm,
          start-eq-running backend k keys.content_key envelope.iv e hc v,
          blocks_of envelope.encrypted_length (frames_blocks cs) total,
          read_fields-frames cipher backend digests random src (frames_blocks cs) file after
              envelope keys limits no_sections 0 envelope.iv keys.hmac_key [] calls bound raws cs v
              h s (omega arith) total here,
        )
        (elim (Result-cases (place_all limits no_sections raws cs)) [
          | inl (y, a) ↦ rw a (
              ap
                (λ mac.
                  raise_if (y.header || last_record_open y.builder.records)
                    (malformed_vault_error invalid_field)
                  >> (mac >>= λ m. ok (y.builder, m)))
                (digest-fed_with digests keys.hmac_key (join cs)))
          | inr (_, a) ↦ rw a
        ])

  -- A document of marked sections of short fields is read back whole, with the digest of its
  -- contents.
  pub decrypt_fields-document :
      (file after : Bytes) (envelope : Envelope) (keys : VaultKeys) (limits : ResourceLimits)
      (calls bound : ℕ) (document : VaultDocument) (hcs : List Bytes) (css : List (List Bytes))
      → backend.key keys.content_key ≡ ok k
      → length keys.content_key ≡ hmac_bytes
      → length keys.hmac_key ≡ hmac_bytes
      → IsBlock envelope.iv
      → HaveContents bound (iter_fields document) (hcs ++ join css)
      → AreShort limits (hcs ++ join css)
      → IsSection document.header_fields hcs
      → AreSections document.records css
      → length document.records ≤ limits.max_records
      → length (iter_fields document) ≤ limits.max_fields
      → envelope.encrypted_length ≡ 0 + frames_blocks (hcs ++ join css) * 16
      → drop (envelope.encrypted_offset + 0) file
        ≡ chain enc envelope.iv
            (frames_blocks (hcs ++ join css))
            (frames random calls (iter_fields document) (hcs ++ join css))
          ++ after
      → decrypt_fields backend digests (snapshot_of file) envelope keys limits
        ≡ ok (
          record {
            header = read_back 0 document.header_fields hcs;
            records = read_back_records document.records css;
          },
          digests.hmac_sha256 keys.hmac_key (join (hcs ++ join css)),
        )
  decrypt_fields-document file after envelope keys limits calls bound document hcs css e hc hm v h s
        hs rs room fits total here =
      rw (
        decrypt_fields-frames file after envelope keys limits calls bound (iter_fields document)
            (hcs ++ join css) e hc hm v h s total here,
        place_all-document limits document hcs css hs rs room fits,
        last_record_closed document.records css rs,
      )
