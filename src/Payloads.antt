-- ===== src/Payloads.antt =====
-- src/bonobo_core/passwordsafe/payloads.py: a payload is a buffer or an authenticated span of
-- the snapshot. A stream of chunks ends, or breaks off with an exception.
pub mod Chunks
pub mod Span
pub mod Inline
use password_bonobo.Prelude.{ℕ, ◌+◌, Bool, not, ◌&&◌, length, ltb, leb, if◌then◌else◌}
use password_bonobo.Prelude.Bytes.{Bytes}
use password_bonobo.Errors.{value_error}
use password_bonobo.Constants.{max_io_chunk_bytes}
use password_bonobo.Snapshots.{EncryptedSnapshot}
use password_bonobo.Crypto.Interface.{TwofishBackend}
use Chunks.{ChunkStream, fault, slices}
use Span.{EncryptedSpan, stream_chunks}

-- The implementations of the protocol `FieldPayload`.
pub data FieldPayload : Type 0 where
  inline : Bytes → FieldPayload
  deferred : TwofishBackend → EncryptedSnapshot → EncryptedSpan → FieldPayload

-- The property `length`
abbrev pub payload_length : FieldPayload → ℕ
payload_length (inline content) = length content
payload_length (deferred backend snapshot span) = span.payload_length

-- `_validate_chunk_size`
abbrev pub chunk_size_rejected : ℕ → Bool
chunk_size_rejected chunk_size = not (ltb 0 chunk_size && leb chunk_size max_io_chunk_bytes)

unfoldable pub open_chunks : FieldPayload → ℕ → ChunkStream
open_chunks (inline content) chunk_size = slices (length content) chunk_size content
open_chunks (deferred backend snapshot span) chunk_size =
    stream_chunks backend snapshot span chunk_size

-- `iter_chunks` of `InlinePayload` and of `EncryptedSpanPayload`, while open
unfoldable pub iter_chunks : FieldPayload → ℕ → ChunkStream
unfolding open_chunks
iter_chunks payload chunk_size =
    if chunk_size_rejected chunk_size then fault value_error else open_chunks payload chunk_size
