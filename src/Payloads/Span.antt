-- ===== src/Payloads/Span.antt =====
-- `EncryptedSpan`, and the decryption by `EncryptedSpanPayload._stream_chunks` (payloads.py).
use password_bonobo.Prelude.{
  true, false, ℕ, zero, suc, ◌+◌, ◌-◌, ◌*◌, ◌/◌, ◌%◌, min, [], ◌∷◌, ◌++◌, ◌||◌, length, slice, drop,
  take, ltb, ◌==◌, ◌!=◌, if◌then◌else◌,
}
use password_bonobo.Prelude.Bytes.{Bytes}
use password_bonobo.Errors.{Result, ok, raise, value_error, runtime_error, ◌>>◌, raise_if}
use password_bonobo.Constants.{block_bytes, hmac_bytes, field_header_bytes}
use password_bonobo.Snapshots.{EncryptedSnapshot, size, read_at, outside_span}
use password_bonobo.Crypto.Interface.{TwofishBackend}
use password_bonobo.Crypto.Cbc.{Cbc, start, decrypt}
use password_bonobo.Payloads.Chunks.{ChunkStream, end, fault, chunk}

pub record EncryptedSpan : Type 0 where
  pub content_key : Bytes
  pub previous_block : Bytes
  pub ciphertext_offset : ℕ
  pub ciphertext_length : ℕ
  pub frame_offset : ℕ
  pub payload_length : ℕ

-- `((n + BLOCK_BYTES - 1) // BLOCK_BYTES) * BLOCK_BYTES`
abbrev pub padded : ℕ → ℕ
padded n = (n + 15) / 16 * 16

-- `EncryptedSpan.__post_init__`
unfoldable pub check_span : EncryptedSpan → Result EncryptedSpan
check_span span = do
  raise_if (length span.previous_block != block_bytes) value_error
  raise_if (span.frame_offset != field_header_bytes) value_error
  raise_if (ltb 0xFFFFFFFF span.payload_length) value_error
  raise_if
      (span.ciphertext_length == 0
        || span.ciphertext_length % block_bytes != 0
        || span.ciphertext_length != padded (span.frame_offset + span.payload_length))
      value_error
  raise_if (length span.content_key != hmac_bytes) value_error
  ok span

-- The checks of `EncryptedSpanPayload.__init__`
unfoldable pub check_range : EncryptedSnapshot → EncryptedSpan → Result EncryptedSpan
check_range snapshot span = do
  raise_if (outside_span span.ciphertext_offset span.ciphertext_length (size snapshot)) value_error
  ok span

-- The inner loop on the bytes of one block: they fill the output, which is yielded when it is
-- full. `rest` goes on with the output that is left. The fuel is the number of bytes.
pub fill : ℕ → ℕ → Bytes → Bytes → (Bytes → ChunkStream) → ChunkStream
fill fuel chunk_size output [] rest = rest output
fill zero chunk_size output (b ∷ bs) rest = fault runtime_error
fill (suc fuel) chunk_size output (b ∷ bs) rest =
    let copied = min (chunk_size - length output) (length (b ∷ bs)) in
    let output' = output ++ take copied (b ∷ bs) in
    let full = chunk output' (fill fuel chunk_size [] (drop copied (b ∷ bs)) rest) in
    let more = fill fuel chunk_size output' (drop copied (b ∷ bs)) rest in
    if length output' == chunk_size then full else more

-- The last, short chunk.
abbrev pub flush : Bytes → ChunkStream
flush [] = end
flush (b ∷ bs) = chunk (b ∷ bs) end

-- `while remaining:`, from the block at `position` on. `start` is the frame offset in the first
-- block. The fuel is the number of bytes that remain: every block has one of them.
pub stream_loop : ℕ → EncryptedSnapshot → ℕ → ℕ → ℕ → ℕ → Cbc → Bytes → ChunkStream
stream_loop zero snapshot chunk_size start remaining position cbc output =
    if remaining == 0 then flush output else fault runtime_error
stream_loop (suc fuel) snapshot chunk_size start remaining position cbc output =
    elim (remaining == 0) [
      | true ↦ flush output
      | false ↦ elim (read_at snapshot position block_bytes) [
        | raise e ↦ fault e
        | ok ciphertext ↦ elim ((decrypt cbc ciphertext).0) [
          | raise e ↦ fault e
          | ok plaintext ↦
              let available = min (block_bytes - start) remaining in
              fill available chunk_size output (slice start (start + available) plaintext)
                (λ output'.
                  stream_loop fuel snapshot chunk_size 0 (remaining - available)
                    (position + block_bytes) ((decrypt cbc ciphertext).1) output')
        ]
      ]
    ]

-- `EncryptedSpanPayload._stream_chunks`
pub stream_chunks : TwofishBackend → EncryptedSnapshot → EncryptedSpan → ℕ → ChunkStream
stream_chunks backend snapshot span chunk_size =
    elim (start backend span.content_key span.previous_block) [
      | raise e ↦ fault e
      | ok cbc ↦
          stream_loop span.payload_length snapshot chunk_size span.frame_offset span.payload_length
            span.ciphertext_offset cbc []
    ]
