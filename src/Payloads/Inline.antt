-- ===== src/Payloads/Inline.antt =====
-- `InlinePayload.iter_chunks` of payloads.py.
use password_bonobo.Prelude.{ℕ, ◌≤◌, ◌<◌, ◌≡◌, length, arith, false, subst, sym}
use native.Mathlib.Nat.{le_refl}
use password_bonobo.Prelude.Bytes.{Bytes}
use password_bonobo.Constants.{max_io_chunk_bytes}
use password_bonobo.Payloads.{inline, iter_chunks, open_chunks, chunk_size_rejected}
use password_bonobo.Payloads.Chunks.{Streams, slices, slices-Streams}

accepted : (n : ℕ) → 0 < n → n ≤ max_io_chunk_bytes → chunk_size_rejected n ≡ false
accepted n h k = ground arith

-- An open inline payload streams its content: no chunk is empty or above the chunk size, and
-- joined they are the content.
pub iter_chunks-inline :
    (content : Bytes) (n : ℕ)
    → 0 < n
    → n ≤ max_io_chunk_bytes
    → Streams n (iter_chunks (inline content) n) content
unfolding iter_chunks open_chunks
iter_chunks-inline content n h k =
    let e : iter_chunks (inline content) n ≡ slices (length content) n content =
      rw (accepted n h k) in
    subst (λ s. Streams n s content) (sym e)
      (slices-Streams (length content) n content h (le_refl (length content)))
