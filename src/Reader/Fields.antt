-- ===== src/Reader/Fields.antt =====
-- `_consume_field_payload` and `_decrypt_fields` of reader.py: the frames of the encrypted stream.
pub mod Frames
pub mod Consume
pub mod Sections
pub mod Round
pub mod Stream
pub mod Rebuild
pub mod Records
pub mod Document
use password_bonobo.Prelude.{
  ℕ, zero, suc, ◌+◌, ◌-◌, ◌*◌, ◌/◌, min, Bool, true, false, not, ◌&&◌, ◌||◌, Option, none, some,
  List, [], ◌∷◌, ◌++◌, length, take, drop, slice, ltb, leb, ◌==◌, ◌!=◌, if◌then◌else◌,
}
use password_bonobo.Prelude.Bytes.{Bytes, bytes_eq, from_le}
use password_bonobo.Errors.{
  Error, Result, ok, raise, runtime_error, malformed_vault_error, invalid_field,
  resource_limit_error, max_records, max_fields, ◌>>=◌, ◌>>◌, raise_if,
}
use password_bonobo.Constants.{block_bytes, field_header_bytes, ResourceLimits}
use password_bonobo.Crypto.Interface.{TwofishBackend, Digests}
use password_bonobo.Crypto.Cbc.{Cbc, start, decrypt}
use password_bonobo.Crypto.Keys.{VaultKeys}
use password_bonobo.Crypto.Authenticator
use password_bonobo.Crypto.Authenticator.{FieldAuthenticator}
use password_bonobo.Snapshots.{EncryptedSnapshot, read_at}
use password_bonobo.Payloads.{FieldPayload, inline, deferred, iter_chunks}
use password_bonobo.Payloads.Chunks.{ChunkStream, end, fault, chunk}
use password_bonobo.Payloads.Span.{EncryptedSpan, padded, check_span, check_range}
use password_bonobo.Reader.Envelope.{Envelope}
use password_bonobo.Reader.Builder.{Builder, BuilderField, empty_builder, add_field}

-- The chunks that the verification of a deferred payload joins.
pub collect : Bytes → ChunkStream → Result Bytes
collect sofar end = ok sofar
collect sofar (fault e) = raise e
collect sofar (chunk c cs) = collect (sofar ++ c) cs

-- What the loop over the blocks of one field carries.
pub record Consumed : Type 0 where
  pub cbc : Cbc
  pub authenticator : FieldAuthenticator
  pub content : Bytes

-- `while block_offset < ciphertext_length:`, by the number of blocks left, from `position` on.
pub consume_blocks : ℕ → EncryptedSnapshot → ℕ → ℕ → Consumed → Result Consumed
consume_blocks zero snapshot position payload_length c = ok c
consume_blocks (suc blocks) snapshot position payload_length c = do
  ciphertext ← read_at snapshot position block_bytes
  plaintext ← (decrypt c.cbc ciphertext).0
  let payload = take (min (payload_length - length c.content) block_bytes) plaintext
  authenticator ← Authenticator.update c.authenticator payload
  consume_blocks blocks snapshot (position + block_bytes) payload_length (record {
    cbc = (decrypt c.cbc ciphertext).1;
    authenticator = authenticator;
    content = c.content ++ payload;
  })

-- The variables of `_decrypt_fields`.
pub record State : Type 0 where
  pub header : Bool
  pub record_ordinal : ℕ
  pub field_count : ℕ
  pub position : ℕ
  pub previous_block : Bytes
  pub cbc : Cbc
  pub authenticator : FieldAuthenticator
  pub builder : Builder

-- The end of a round: the marker of type 0xFF ends the header, then a record.
pub close_section : State → ℕ → ResourceLimits → Result State
close_section s type_code limits =
    if type_code == 0xFF
    then (if s.header then ok (record s { header = false }) else do
      raise_if (ltb limits.max_records (s.record_ordinal + 1)) (resource_limit_error max_records)
      ok (record s { record_ordinal = s.record_ordinal + 1 }))
    else ok s

-- `records[-1][-1].type_code`
abbrev last_type : List BuilderField → ℕ → ℕ
last_type [] t = t
last_type (f ∷ fs) t = last_type fs f.type_code

abbrev pub last_record_open : List (List BuilderField) → Bool
last_record_open [] = false
last_record_open (r ∷ []) = last_type r 0 != 0xFF
last_record_open (r ∷ s ∷ rs) = last_record_open (s ∷ rs)

module _ (backend : TwofishBackend) (digests : Digests) where
  -- The deferred payload of a span, read back and compared before it is returned.
  defer : EncryptedSnapshot → EncryptedSpan → Bytes → ResourceLimits → Result FieldPayload
  defer snapshot span content limits = do
    checked ← check_span span
    ranged ← check_range snapshot checked
    let payload = deferred backend snapshot ranged
    observed ← collect [] (iter_chunks payload limits.io_chunk_bytes)
    raise_if
        ((length observed != span.payload_length)
          || not (bytes_eq (digests.sha256 observed) (digests.sha256 content)))
        (malformed_vault_error invalid_field)
    ok payload

  -- `_consume_field_payload`: the payload, with the decryptor and authenticator behind it. The
  -- content of a field that is too long to keep is joined here only for its digest.
  pub consume_field_payload :
      EncryptedSnapshot
      → VaultKeys
      → Consumed
      → Bytes
      → EncryptedSpan
      → ResourceLimits
      → Result (FieldPayload × Consumed)
  consume_field_payload snapshot keys c first_plaintext span limits = do
    let first =
        slice field_header_bytes
          (field_header_bytes + min span.payload_length (block_bytes - field_header_bytes))
          first_plaintext
    authenticator ← Authenticator.update c.authenticator first
    consumed ←
        consume_blocks ((span.ciphertext_length - 1) / block_bytes) snapshot
          (span.ciphertext_offset + block_bytes) span.payload_length
          (record { cbc = c.cbc; authenticator = authenticator; content = first })
    raise_if (length consumed.content != span.payload_length) (malformed_vault_error invalid_field)
    payload ←
        if leb span.payload_length limits.max_inline_payload_bytes
        then ok (inline consumed.content)
        else defer snapshot span consumed.content limits
    ok (payload, consumed)

  -- A round of `_decrypt_fields`: one frame.
  pub read_field : EncryptedSnapshot → Envelope → VaultKeys → ResourceLimits → State → Result State
  read_field snapshot envelope keys limits s = do
    raise_if (not s.header && leb limits.max_records s.record_ordinal)
        (resource_limit_error max_records)
    let remaining = envelope.encrypted_length - s.position
    raise_if (ltb remaining block_bytes) (malformed_vault_error invalid_field)
    let offset = envelope.encrypted_offset + s.position
    first_ciphertext ← read_at snapshot offset block_bytes
    first_plaintext ← (decrypt s.cbc first_ciphertext).0
    let count = from_le (take 4 first_plaintext)
    let type_code = from_le (slice 4 5 first_plaintext)
    let padded_length = padded (field_header_bytes + count)
    raise_if (ltb remaining padded_length) (malformed_vault_error invalid_field)
    raise_if (ltb limits.max_fields (s.field_count + 1)) (resource_limit_error max_fields)
    raise_if ((type_code == 0xFF) && (count != 0)) (malformed_vault_error invalid_field)
    (payload, consumed) ←
        consume_field_payload snapshot keys
          (record {
            cbc = (decrypt s.cbc first_ciphertext).1;
            authenticator = s.authenticator;
            content = [];
          })
          first_plaintext
          (record {
            content_key = keys.content_key;
            previous_block = s.previous_block;
            ciphertext_offset = offset;
            ciphertext_length = padded_length;
            frame_offset = field_header_bytes;
            payload_length = count;
          })
          limits
    builder ← add_field s.builder s.header s.record_ordinal type_code payload
    previous_block ←
        read_at snapshot (envelope.encrypted_offset + (s.position + padded_length) - block_bytes)
          block_bytes
    close_section
        (record {
          header = s.header;
          record_ordinal = s.record_ordinal;
          field_count = s.field_count + 1;
          position = s.position + padded_length;
          previous_block = previous_block;
          cbc = consumed.cbc;
          authenticator = consumed.authenticator;
          builder = builder;
        })
        type_code limits

  -- `while ciphertext_position < envelope.encrypted_length:`. The fuel is the number of blocks: a
  -- frame has one at least.
  pub read_fields :
      ℕ → EncryptedSnapshot → Envelope → VaultKeys → ResourceLimits → State → Result State
  read_fields zero snapshot envelope keys limits s =
      if ltb s.position envelope.encrypted_length then raise runtime_error else ok s
  read_fields (suc fuel) snapshot envelope keys limits s =
      elim (ltb s.position envelope.encrypted_length) [
        | true ↦ read_field snapshot envelope keys limits s >>= λ next.
            read_fields fuel snapshot envelope keys limits next
        | false ↦ ok s
      ]

  -- `_decrypt_fields`: the builder and the computed HMAC.
  pub decrypt_fields :
      EncryptedSnapshot → Envelope → VaultKeys → ResourceLimits → Result (Builder × Bytes)
  decrypt_fields snapshot envelope keys limits = do
    authenticator ← Authenticator.new keys.hmac_key
    cbc ← start backend keys.content_key envelope.iv
    s ←
        read_fields (envelope.encrypted_length / block_bytes) snapshot envelope keys limits
          (record {
            header = true;
            record_ordinal = 0;
            field_count = 0;
            position = 0;
            previous_block = envelope.iv;
            cbc = cbc;
            authenticator = authenticator;
            builder = empty_builder;
          })
    raise_if (s.header || last_record_open s.builder.records) (malformed_vault_error invalid_field)
    mac ← (Authenticator.digest digests s.authenticator).0
    ok (s.builder, mac)
