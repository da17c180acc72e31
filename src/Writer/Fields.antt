-- ===== src/Writer/Fields.antt =====
-- `_write_field` of writer.py: the frame of one field, and the frames of a document's fields.
use password_bonobo.Prelude.{
  ℕ, ◌+◌, ◌*◌, ◌/◌, ◌≡◌, ◌≤◌, ◌<◌, refl, sym, ap, subst, ◌∙◌, append-nil, All-append_left,
  All-append_right, false, [], ◌∷◌, ◌++◌, append_assoc, length, arith, ltb, ◌==◌, ◌!=◌,
  length-append, All-append,
}
use native.Mathlib.Nat.{le_refl, add-zero}
use password_bonobo.Prelude.Bytes.{Bytes, AreBytes, to_le, length-to_le, to_le-AreBytes}
use password_bonobo.Errors.{ok}
use password_bonobo.Constants.{ResourceLimits}
use password_bonobo.Crypto.Interface.{TwofishKey, IsBlockCipher, RandomSource, IsRandomSource}
use password_bonobo.Crypto.Authenticator.Laws.{fed_with, update-fed_with}
use password_bonobo.Crypto.Cbc.Laws.{IsBlock, running}
use password_bonobo.Crypto.Cbc.Chain.{chain, chain_last, Fills}
use password_bonobo.Payloads.{payload_length, iter_chunks}
use password_bonobo.Payloads.Chunks.{ChunkStream, Streams, ends, yields}
use password_bonobo.Model.{RawField}
use password_bonobo.Writer.{
  Progress, Output, write_chunks, padding_length, write_frame, write_field,
}
use password_bonobo.Writer.Feed.{
  Wire, sink, feed, feed-append, feed_blocks, IsReady, feed-IsReady, encrypt_bytes-eq-feed,
}

-- A field whose payload streams this content, of the declared length, below the chunk bound.
pub record HasContent (bound : ℕ) (raw : RawField) (content : Bytes) : Type 0 where
  pub streams : Streams bound (iter_chunks raw.payload bound) content
  pub declared : payload_length raw.payload ≡ length content
  pub fits : length content < 4294967296
  pub bytes : AreBytes content
  pub type_byte : raw.type_code < 256

-- The plaintext of a field's frame: length, type, content and padding.
abbrev pub frame : ℕ → Bytes → Bytes → Bytes
frame type_code content padding =
    (to_le 4 (length content) ++ type_code ∷ []) ++ (content ++ padding)

-- The number of blocks of the frame of a content.
abbrev pub frame_blocks : ℕ → ℕ
frame_blocks count = (5 + count + 15) / 16

pub length-padding : (count : ℕ) → 5 + count + padding_length count ≡ frame_blocks count * 16
length-padding count = omega arith

pub frame-Fills :
    (type_code : ℕ) (content padding : Bytes)
    → type_code < 256
    → AreBytes content
    → AreBytes padding
    → length padding ≡ padding_length (length content)
    → Fills (frame_blocks (length content)) (frame type_code content padding)
frame-Fills t content padding h a b e = record {
  size = omega (
    arith,
    length-append (to_le 4 (length content) ++ t ∷ []) (content ++ padding),
    length-append (to_le 4 (length content)) (t ∷ []),
    length-to_le 4 (length content),
    length-append content padding,
    length-padding (length content),
  );
  bytes =
      All-append (λ b. b < 256) (to_le 4 (length content) ++ t ∷ []) (content ++ padding)
        (All-append (λ b. b < 256) (to_le 4 (length content)) (t ∷ [])
          (to_le-AreBytes 4 (length content)) (h, tt))
        (All-append (λ b. b < 256) content padding a b);
}

nonempty : (c : Bytes) → 0 < length c → (length c == 0) ≡ false
nonempty c h = ground arith

within :
    (declared observed : ℕ) (c : Bytes)
    → observed + length c ≤ declared
    → ltb declared (observed + length c) ≡ false
within declared observed c h = ground arith

fits_header :
    (content : Bytes) → length content < 4294967296 → ltb 0xFFFFFFFF (length content) ≡ false
fits_header content h = ground arith

whole : (n : ℕ) → ((0 + n) != n) ≡ false
whole n = ground arith

same_length : (xs : Bytes) (n : ℕ) → length xs ≡ n → (length xs != n) ≡ false
same_length xs n h = ground arith

-- Progress on a wire under a key.
abbrev progress : TwofishKey → Bytes → Wire → Bytes → ℕ → Progress
progress k key w message observed = record {
  sink = sink k w;
  authenticator = fed_with key message;
  observed = observed;
}

same_progress :
    (k : TwofishKey) (key : Bytes) {w v : Wire} {m n : Bytes} {o p : ℕ}
    → w ≡ v
    → m ≡ n
    → o ≡ p
    → ok (progress k key w m o) ≡ ok (progress k key v n p)
same_progress k key e f g = λ i. ok (progress k key (e i) (f i) (g i))

-- The output of the writer under a key, with nothing waiting.
abbrev pub output : TwofishKey → Bytes → Bytes → Bytes → Bytes → ℕ → Output
output k key written previous message calls = record {
  written = written;
  cbc = running k previous;
  authenticator = fed_with key message;
  calls = calls;
}

module _ {k : TwofishKey} {enc : Bytes → Bytes} (cipher : IsBlockCipher k enc) where
  -- The chunk loop feeds the content to the wire and to the authenticator, whatever the chunks.
  write_chunks-eq-feed :
      {bound : ℕ} {cs : ChunkStream} (declared : ℕ) (key message : Bytes) (observed : ℕ) (w : Wire)
      (content : Bytes)
      → Streams bound cs content
      → IsReady w
      → AreBytes content
      → observed + length content ≤ declared
      → write_chunks declared
          (record { sink = sink k w; authenticator = fed_with key message; observed = observed })
          cs
        ≡ ok (record {
          sink = sink k (feed enc w content);
          authenticator = fed_with key (message ++ content);
          observed = observed + length content;
        })
  unfolding write_chunks
  write_chunks-eq-feed declared key message observed w content ends r a h =
      same_progress k key refl (sym (append-nil message)) (sym (add-zero observed))
  write_chunks-eq-feed declared key message observed w content (yields c rest pos below s _ e) r a
        h =
      let bytes : AreBytes (c ++ rest) = subst AreBytes e a in
      let size : length content ≡ length c + length rest = ap length e ∙ length-append c rest in
      rw
        (
          nonempty c pos,
          within declared observed c (omega (arith, size)),
          update-fed_with key message c,
          encrypt_bytes-eq-feed cipher (length c) w c r
              (All-append_left (λ b. b < 256) c rest bytes) (le_refl (length c)),
        )
        (write_chunks-eq-feed declared key (message ++ c) (observed + length c) (feed enc w c) rest
            s (feed-IsReady cipher w c r (All-append_left (λ b. b < 256) c rest bytes))
            (All-append_right (λ b. b < 256) c rest bytes) (omega (arith, size))
          ∙ same_progress k key (sym (feed-append enc w c rest) ∙ ap (feed enc w) (sym e))
              (append_assoc message c rest ∙ ap (λ b. message ++ b) (sym e)) (omega (arith, size)))

  frame-eq-feed :
      (written previous : Bytes) (type_code : ℕ) (content padding : Bytes)
      → type_code < 256
      → AreBytes content
      → AreBytes padding
      → length padding ≡ padding_length (length content)
      → let n = frame_blocks (length content) in
        let plain = frame type_code content padding in
        let start : Wire = record { written = written; previous = previous; pending = [] } in
        feed enc
          (feed enc (feed enc start (to_le 4 (length content) ++ type_code ∷ [])) content)
          padding
        ≡ record {
          written = written ++ chain enc previous n plain;
          previous = chain_last enc previous n plain;
          pending = [];
        }
  frame-eq-feed written previous type_code content padding t a b e =
      let start : Wire = record { written = written; previous = previous; pending = [] } in
      let head : Bytes = to_le 4 (length content) ++ type_code ∷ [] in
      sym (feed-append enc (feed enc start head) content padding)
      ∙ sym (feed-append enc start head (content ++ padding))
      ∙ feed_blocks enc (frame_blocks (length content)) written previous _
          (frame-Fills type_code content padding t a b e).size

  write_frame-eq-chain :
      (key written previous message : Bytes) (calls type_code : ℕ) (cs : ChunkStream) {bound : ℕ}
      (content padding : Bytes)
      → IsBlock previous
      → Streams bound cs content
      → length content < 4294967296
      → type_code < 256
      → AreBytes content
      → AreBytes padding
      → length padding ≡ padding_length (length content)
      → let n = frame_blocks (length content) in
        let plain = frame type_code content padding in
        write_frame
          (output k key written previous message calls)
          (length content)
          type_code
          cs
          padding
        ≡ ok (
            output k key
              (written ++ chain enc previous n plain)
              (chain_last enc previous n plain)
              (message ++ content)
              (calls + 1))
  unfolding write_frame
  write_frame-eq-chain key written previous message calls type_code cs content padding p s f t a b
        e =
      let start : Wire = record { written = written; previous = previous; pending = [] } in
      let head : Bytes = to_le 4 (length content) ++ type_code ∷ [] in
      let ready : IsReady start = record { previous = p; waiting = omega arith; bytes = tt } in
      let head_bytes : AreBytes head =
        All-append (λ b. b < 256) (to_le 4 (length content)) (type_code ∷ [])
          (to_le-AreBytes 4 (length content)) (t, tt) in
      let ready' = feed-IsReady cipher start head ready head_bytes in
      let ready'' = feed-IsReady cipher (feed enc start head) content ready' a in
      rw (
        fits_header content f,
        encrypt_bytes-eq-feed cipher 5 start head ready head_bytes (omega arith),
        write_chunks-eq-feed (length content) key message 0 (feed enc start head) content s ready' a
            (omega arith),
        whole (length content),
        same_length padding (padding_length (length content)) e,
        encrypt_bytes-eq-feed cipher (length padding) (feed enc (feed enc start head) content)
            padding ready'' b (le_refl (length padding)),
        frame-eq-feed written previous type_code content padding t a b e,
      )

  -- A field is written as the ciphertext of its frame, and its content is authenticated.
  pub write_field-eq-chain :
      (random : RandomSource) (limits : ResourceLimits) (key written previous message : Bytes)
      (calls : ℕ) (raw : RawField) (content : Bytes)
      → IsRandomSource random
      → IsBlock previous
      → HasContent limits.io_chunk_bytes raw content
      → let padding = random calls (padding_length (length content)) in
        let n = frame_blocks (length content) in
        let plain = frame raw.type_code content padding in
        write_field random limits (output k key written previous message calls) raw
        ≡ ok (
            output k key
              (written ++ chain enc previous n plain)
              (chain_last enc previous n plain)
              (message ++ content)
              (calls + 1))
  unfolding write_field
  write_field-eq-chain random limits key written previous message calls raw content src p c =
      ap
        (λ n.
          write_frame (output k key written previous message calls) n raw.type_code
            (iter_chunks raw.payload limits.io_chunk_bytes) (random calls (padding_length n)))
        c.declared
      ∙ write_frame-eq-chain key written previous message calls raw.type_code _ content _ p
          c.streams c.fits c.type_byte c.bytes (src.bytes-AreBytes calls _)
          (src.length-bytes calls _)
