-- ===== src/Reader/Fields/Consume.antt =====
-- `_consume_field_payload` of reader.py on the frame of a short field.
use password_bonobo.Prelude.{
  ℕ, ◌+◌, ◌-◌, ◌/◌, ◌≡◌, ◌≤◌, min, refl, ap, ◌∙◌, true, false, [], ◌++◌, append_assoc, length, take,
  drop, slice, leb, ◌!=◌, arith, take-append_eq, take-split,
}
use password_bonobo.Prelude.Bytes.{Bytes}
use password_bonobo.Errors.{ok}
use password_bonobo.Constants.{ResourceLimits, block_bytes, field_header_bytes}
use password_bonobo.Snapshots.{snapshot_of}
use password_bonobo.Crypto.Interface.{TwofishKey, TwofishBackend, Digests, IsBlockCipher}
use password_bonobo.Crypto.Authenticator.Laws.{update-fed_with}
use password_bonobo.Crypto.Cbc.Laws.{IsBlock}
use password_bonobo.Crypto.Cbc.Chain.{chain, chain_last, Fills}
use password_bonobo.Crypto.Keys.{VaultKeys}
use password_bonobo.Payloads.{inline}
use password_bonobo.Payloads.Span.{EncryptedSpan, padded}
use password_bonobo.Writer.Fields.{frame, frame_blocks}
use password_bonobo.Reader.Fields.{consume_field_payload}
use password_bonobo.Reader.Fields.Frames.{consumed, consume_blocks-chain}

-- The content's part of the first block.
abbrev first_part : Bytes → Bytes → Bytes
first_part content padding = take (min (length content) 11) (take 11 (content ++ padding))

-- The content is its part of the first block and what the blocks behind it hold.
parts_join :
    (content padding : Bytes)
    → first_part content padding
        ++ take
            (length content - length (first_part content padding))
            (drop 11 (content ++ padding))
      ≡ content
parts_join content padding =
    take-split 11 (length content) (content ++ padding)
    ∙ take-append_eq (length content) content padding refl

first_slice :
    (type_code : ℕ) (content padding : Bytes)
    → slice field_header_bytes
        (field_header_bytes + min (length content) (block_bytes - field_header_bytes))
        (take 16 (frame type_code content padding))
      ≡ first_part content padding
first_slice type_code content padding =
    ap (λ n. take n (take 11 (content ++ padding))) {y = min (length content) 11} (omega arith)

blocks_behind : (n : ℕ) → (padded (5 + n) - 1) / 16 ≡ frame_blocks n - 1
blocks_behind n = omega arith

observed_whole : (n : ℕ) → (n != n) ≡ false
observed_whole n = ground arith

kept_inline : {n m : ℕ} → n ≤ m → leb n m ≡ true
kept_inline h = ground arith

module _ {k : TwofishKey} {enc : Bytes → Bytes} (cipher : IsBlockCipher k enc)
    (backend : TwofishBackend) (digests : Digests) where
  pub consume_field_payload-eq-inline :
      (file after c : Bytes) (keys : VaultKeys) (limits : ResourceLimits) (type_code : ℕ)
      (key message content padding : Bytes) (span : EncryptedSpan)
      → IsBlock c
      → Fills (frame_blocks (length content) - 1) (drop 11 (content ++ padding))
      → length content ≤ limits.max_inline_payload_bytes
      → span.payload_length ≡ length content
      → span.ciphertext_length ≡ padded (5 + length content)
      → drop (span.ciphertext_offset + 16) file
        ≡ chain enc c (frame_blocks (length content) - 1) (drop 11 (content ++ padding)) ++ after
      → consume_field_payload backend digests
          (snapshot_of file)
          keys
          (consumed k c key message [])
          (take 16 (frame type_code content padding))
          span
          limits
        ≡ ok (
          inline content,
          consumed k
              (chain_last enc c (frame_blocks (length content) - 1) (drop 11 (content ++ padding)))
              key
              (message ++ content)
              content,
        )
  unfolding consume_field_payload
  consume_field_payload-eq-inline file after c keys limits type_code key message content padding
        span p f small declared size e =
      let first = first_part content padding in
      let rest = drop 11 (content ++ padding) in
      let m = length content - length first in
      rw (
        declared,
        size,
        first_slice type_code content padding,
        update-fed_with key message first,
        blocks_behind (length content),
        consume_blocks-chain cipher (frame_blocks (length content) - 1) file after c rest
            (span.ciphertext_offset + 16) (length content) key (message ++ first) first p f e,
        append_assoc message first (take m rest),
        parts_join content padding,
        observed_whole (length content),
        kept_inline small,
      )
