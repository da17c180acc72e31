-- ===== src/Payloads/Chunks.antt =====
-- Streams of chunks, and the slices that `InlinePayload.iter_chunks` yields (payloads.py).
use password_bonobo.Prelude.{
  ℕ, zero, suc, ◌≤◌, ◌<◌, ◌≡◌, sym, [], ◌∷◌, ◌++◌, length, take, drop, arith, take-append-drop,
  length-take, length-drop,
}
use password_bonobo.Prelude.Bytes.{Bytes}
use password_bonobo.Errors.{Error}

pub data ChunkStream : Type 0 where
  end : ChunkStream
  fault : Error → ChunkStream
  chunk : Bytes → ChunkStream → ChunkStream

-- `for offset in range(0, len(view), chunk_size): yield view[offset:offset + chunk_size]`.
-- The fuel is the number of bytes: every slice takes one at least.
unfoldable pub slices : ℕ → ℕ → Bytes → ChunkStream
slices fuel chunk_size [] = end
slices zero chunk_size (b ∷ bs) = end
slices (suc fuel) chunk_size (b ∷ bs) =
    let rest = slices fuel chunk_size (drop chunk_size (b ∷ bs)) in
    chunk (take chunk_size (b ∷ bs)) rest

-- A stream that ends, yields no empty chunk, none above the bound, and has this content.
pub data Streams (bound : ℕ) : ChunkStream → Bytes → Type 0 where
  ends : Streams bound end []
  yields :
      (c rest : Bytes) {cs : ChunkStream}
      → 0 < length c
      → length c ≤ bound
      → Streams bound cs rest
      → (content : Bytes) → content ≡ c ++ rest
      → Streams bound (chunk c cs) content

-- The slices are within the bound, and joined they are the content, in order.
pub slices-Streams :
    (fuel n : ℕ) (content : Bytes)
    → 0 < n
    → length content ≤ fuel
    → Streams n (slices fuel n content) content
unfolding slices
slices-Streams fuel n [] h k = ends
slices-Streams zero n (b ∷ bs) h k = absurd (omega arith)
slices-Streams (suc fuel) n (b ∷ bs) h k =
    yields (take n (b ∷ bs)) (drop n (b ∷ bs)) (omega (arith, length-take n (b ∷ bs)))
      (omega (arith, length-take n (b ∷ bs)))
      (slices-Streams fuel n (drop n (b ∷ bs)) h (omega (arith, length-drop n (b ∷ bs)))) (b ∷ bs)
      (sym (take-append-drop n (b ∷ bs)))
