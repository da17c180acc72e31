-- ===== src/Writer.antt =====
-- src/bonobo_core/passwordsafe/writer.py: the serialization of a document to an authenticated
-- candidate. The output file takes what it is given; a failed write discards the candidate, so
-- a step returns its exception alone.
pub mod Feed
pub mod Fields
pub mod Document
pub mod Size
use password_bonobo.Prelude.{
  ℕ, zero, suc, ◌+◌, ◌-◌, ◌*◌, ◌%◌, ◌^◌, min, Bool, List, [], ◌∷◌, ◌++◌, length, take, drop, ltb,
  ◌==◌, ◌!=◌, if◌then◌else◌,
}
use password_bonobo.Prelude.Bytes.{Bytes, to_le}
use password_bonobo.Errors.{
  Error, Result, ok, raise, value_error, overflow_error, runtime_error, resource_limit_error,
  max_encrypted_file_bytes, ◌>>=◌, ◌>>◌, raise_if,
}
use password_bonobo.Constants.{
  file_tag, eof_marker, block_bytes, field_header_bytes, ResourceLimits,
}
use password_bonobo.Crypto.Interface.{TwofishBackend, RandomSource, Digests}
use password_bonobo.Crypto.Cbc.{Cbc, start, encrypt}
use password_bonobo.Crypto.Keys.{VaultKeys, wrap_vault_keys}
use password_bonobo.Crypto.Authenticator
use password_bonobo.Crypto.Authenticator.{FieldAuthenticator}
use password_bonobo.Payloads.{FieldPayload, payload_length, iter_chunks}
use password_bonobo.Payloads.Chunks.{ChunkStream, end, fault, chunk}
use password_bonobo.Payloads.Span.{padded}
use password_bonobo.Model.{RawField, VaultDocument, iter_fields}

-- The output so far, the encryptor, and the bytes that wait for their block to fill.
pub record Sink : Type 0 where
  pub written : Bytes
  pub cbc : Cbc
  pub pending : Bytes

-- The end of a round of `_encrypt_bytes`: a full block is encrypted and written.
drain : Sink → Result Sink
drain s =
    if length s.pending == block_bytes
    then (do
      block ← (encrypt s.cbc s.pending).0
      ok (record { written = s.written ++ block; cbc = (encrypt s.cbc s.pending).1; pending = [] }))
    else ok s

-- `_encrypt_bytes`. The fuel is the number of bytes: a round copies one at least.
pub encrypt_bytes : ℕ → Sink → Bytes → Result Sink
unfolding drain
encrypt_bytes fuel s [] = ok s
encrypt_bytes zero s (b ∷ bs) = raise runtime_error
encrypt_bytes (suc fuel) s (b ∷ bs) =
    let copied = min (block_bytes - length s.pending) (length (b ∷ bs)) in
    do
      drained ← drain (record s { pending = s.pending ++ take copied (b ∷ bs) })
      encrypt_bytes fuel drained (drop copied (b ∷ bs))

-- What the loop over the chunks carries.
pub record Progress : Type 0 where
  pub sink : Sink
  pub authenticator : FieldAuthenticator
  pub observed : ℕ

-- `for chunk in raw_field.payload.iter_chunks(...)`, with the declared length.
pub write_chunks : ℕ → Progress → ChunkStream → Result Progress
write_chunks declared p end = ok p
write_chunks declared p (fault e) = raise e
write_chunks declared p (chunk c cs) = do
  raise_if (length c == 0) value_error
  raise_if (ltb declared (p.observed + length c)) value_error
  authenticator ← Authenticator.update p.authenticator c
  sink ← encrypt_bytes (length c) p.sink c
  write_chunks declared
      (record { sink = sink; authenticator = authenticator; observed = p.observed + length c }) cs

-- `(-(FIELD_HEADER_BYTES + length)) % BLOCK_BYTES`
abbrev pub padding_length : ℕ → ℕ
padding_length count = (16 - (field_header_bytes + count) % 16) % 16

pub record Output : Type 0 where
  pub written : Bytes
  pub cbc : Cbc
  pub authenticator : FieldAuthenticator
  pub calls : ℕ

-- `_write_field`, on the declared length, the type, the chunks and the padding: the five bytes of
-- the header, whose length must fit four of them, the content, and the padding.
pub write_frame : Output → ℕ → ℕ → ChunkStream → Bytes → Result Output
write_frame out count type_code chunks padding =
    let frame_header = to_le 4 count ++ type_code ∷ [] in
    do
      raise_if (ltb 0xFFFFFFFF count) overflow_error
      head ←
          encrypt_bytes (length frame_header)
            (record { written = out.written; cbc = out.cbc; pending = [] }) frame_header
      body ←
          write_chunks count
            (record { sink = head; authenticator = out.authenticator; observed = 0 }) chunks
      raise_if (body.observed != count) value_error
      raise_if (length padding != padding_length count) value_error
      tail ← encrypt_bytes (length padding) body.sink padding
      raise_if (length tail.pending != 0) value_error
      ok (record {
        written = tail.written;
        cbc = tail.cbc;
        authenticator = body.authenticator;
        calls = out.calls + 1;
      })

-- `_write_field` on a field. It takes the next bytes of the random source as padding.
pub write_field : RandomSource → ResourceLimits → Output → RawField → Result Output
unfolding write_frame
write_field random limits out raw =
    write_frame out (payload_length raw.payload) raw.type_code
      (iter_chunks raw.payload limits.io_chunk_bytes)
      (random out.calls (padding_length (payload_length raw.payload)))

-- The loop over the document's fields.
pub write_fields : RandomSource → ResourceLimits → Output → List RawField → Result Output
write_fields random limits out [] = ok out
write_fields random limits out (raw ∷ raws) = do
  next ← write_field random limits out raw
  write_fields random limits next raws

-- `_SerializationMaterial`
pub record Material : Type 0 where
  pub salt : Bytes
  pub iterations : ℕ
  pub derived_key : Bytes

module _ (backend : TwofishBackend) (digests : Digests) (random : RandomSource) where
  -- `_write_candidate`; `calls` counts the draws from the random source before it.
  pub write_candidate :
      ResourceLimits → VaultDocument → Material → VaultKeys → Bytes → ℕ → Result Bytes
  write_candidate limits document material keys iv calls = do
    raise_if (ltb 0xFFFFFFFF material.iterations) overflow_error
    wrapped ← wrap_vault_keys backend material.derived_key keys
    let prefix =
        file_tag
        ++ (material.salt
            ++ (to_le 4 material.iterations
                ++ (digests.sha256 material.derived_key ++ (wrapped ++ iv))))
    authenticator ← Authenticator.new keys.hmac_key
    cbc ← start backend keys.content_key iv
    out ←
        write_fields random limits
          (record { written = prefix; cbc = cbc; authenticator = authenticator; calls = calls })
          (iter_fields document)
    mac ← (Authenticator.digest digests out.authenticator).0
    ok (out.written ++ (eof_marker ++ mac))

-- `_FIXED_CANDIDATE_BYTES`
abbrev pub fixed_candidate_bytes : ℕ
fixed_candidate_bytes = 4 + 32 + 4 + 32 + 64 + 16 + 16 + 32

-- The loop of `_validate_document` that sums the sizes of the frames.
unfoldable pub candidate_size : ResourceLimits → ℕ → List RawField → Result ℕ
candidate_size limits total [] = ok total
candidate_size limits total (raw ∷ raws) =
    let frame = padded (field_header_bytes + payload_length raw.payload) in
    do
      raise_if (ltb 0xFFFFFFFF (payload_length raw.payload))
          (resource_limit_error max_encrypted_file_bytes)
      raise_if (ltb (limits.max_encrypted_file_bytes - total) frame)
          (resource_limit_error max_encrypted_file_bytes)
      candidate_size limits (total + frame) raws
