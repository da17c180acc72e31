-- ===== src/Reader/Fields/Round.antt =====
-- A round of `_decrypt_fields` of reader.py on a frame: it is the section parser's step.
use password_bonobo.Prelude.{
  ℕ, ◌+◌, ◌-◌, ◌*◌, ◌≡◌, ◌≤◌, ◌<◌, refl, sym, ap, ◌∙◌, false, not, ◌&&◌, inl, inr, ◌++◌,
  append_assoc, length, take, drop, slice, ltb, leb, ◌==◌, ◌!=◌, arith, Bool-cases,
}
use password_bonobo.Prelude.Bytes.{Bytes, AreBytes, from_le, from_le-to_le}
use password_bonobo.Errors.{ok, ◌>>=◌, Result-cases}
use password_bonobo.Constants.{ResourceLimits, block_bytes, field_header_bytes}
use password_bonobo.Snapshots.{snapshot_of, read_at}
use password_bonobo.Crypto.Interface.{TwofishKey, TwofishBackend, Digests, IsBlockCipher}
use password_bonobo.Crypto.Cbc.Laws.{IsBlock, chained, chained-IsBlock, decrypt-running}
use password_bonobo.Crypto.Cbc.Chain.{chain, chain_last, chain_last-IsBlock, Fills}
use password_bonobo.Crypto.Cbc.Ends.{
  chain_first, chain_last_first, init_blocks, head-IsBlock, blocks_behind,
}
use password_bonobo.Crypto.Keys.{VaultKeys}
use password_bonobo.Payloads.{inline}
use password_bonobo.Payloads.Span.{padded}
use password_bonobo.Writer.{padding_length}
use password_bonobo.Writer.Fields.{frame, frame_blocks, frame-Fills}
use password_bonobo.Reader.Envelope.{Envelope}
use password_bonobo.Reader.Builder.{add_field}
use password_bonobo.Reader.Fields.{read_field}
use password_bonobo.Reader.Fields.Frames.{read_at-eq-ok, drop-behind}
use password_bonobo.Reader.Fields.Consume.{consume_field_payload-eq-inline}
use password_bonobo.Reader.Fields.Sections.{
  Sections, after_field, place, state_of, close_section-eq-closed_section,
}

count_part :
    (type_code : ℕ) (content padding : Bytes)
    → length content < 4294967296
    → from_le (take 4 (take 16 (frame type_code content padding))) ≡ length content
count_part type_code content padding h = from_le-to_le 4 (length content) h

type_part :
    (type_code : ℕ) (content padding : Bytes)
    → from_le (slice 4 5 (take 16 (frame type_code content padding))) ≡ type_code
type_part type_code content padding = omega arith

-- A frame whose ciphertext stands at an offset of the file.
pub record IsFrame (type_code : ℕ) (content padding : Bytes) : Type 0 where
  pub type_byte : type_code < 256
  pub bytes : AreBytes content
  pub padding_bytes : AreBytes padding
  pub padding_size : length padding ≡ padding_length (length content)
  pub fits : length content < 4294967296

block_left :
    (total position n : ℕ)
    → position + frame_blocks n * 16 ≤ total
    → ltb (total - position) block_bytes ≡ false
block_left total position n h = ground arith

frame_left :
    (total position n : ℕ)
    → position + frame_blocks n * 16 ≤ total
    → ltb (total - position) (padded (field_header_bytes + n)) ≡ false
frame_left total position n h = ground arith

module _ {k : TwofishKey} {enc : Bytes → Bytes} (cipher : IsBlockCipher k enc)
    (backend : TwofishBackend) (digests : Digests) where
  -- The chain value behind the frame, read back from the file.
  read_last :
      (n : ℕ) (file after previous plain : Bytes) (offset last_offset : ℕ)
      → 0 < n
      → IsBlock previous
      → Fills n plain
      → drop offset file ≡ chain enc previous n plain ++ after
      → last_offset ≡ offset + (n - 1) * 16
      → read_at (snapshot_of file) last_offset block_bytes ≡ ok (chain_last enc previous n plain)
  read_last n file after previous plain offset last_offset h p f e at =
      let last = chain_last enc previous n plain in
      let (init, whole, size) = init_blocks cipher n previous plain h p f in
      let here : drop offset file ≡ init ++ (last ++ after) =
        e ∙ ap (λ b. b ++ after) whole ∙ append_assoc init last after in
      ap (λ o. read_at (snapshot_of file) o block_bytes) at
      ∙ read_at-eq-ok file last after (offset + (n - 1) * 16) 16
          (drop-behind file init (last ++ after) offset ((n - 1) * 16) here size)
          (chain_last-IsBlock cipher n previous plain p f).size (omega arith) (omega arith)

  -- A round on a frame that stands in the file is the section parser's step on its content.
  pub read_field-frame :
      (file after : Bytes) (envelope : Envelope) (keys : VaultKeys) (limits : ResourceLimits)
      (x : Sections) (position : ℕ) (previous key message : Bytes) (type_code : ℕ)
      (content padding : Bytes)
      → IsBlock previous
      → IsFrame type_code content padding
      → length content ≤ limits.max_inline_payload_bytes
      → let n = frame_blocks (length content) in
        let plain = frame type_code content padding in
        position + n * 16 ≤ envelope.encrypted_length
        → drop (envelope.encrypted_offset + position) file ≡ chain enc previous n plain ++ after
        → read_field backend digests
            (snapshot_of file)
            envelope
            keys
            limits
            (state_of k key x position previous message)
          ≡ (place limits x type_code content >>= λ y. ok (
              state_of k key y
                (position + n * 16)
                (chain_last enc previous n plain)
                (message ++ content)))
  unfolding read_field
  read_field-frame file after envelope keys limits x position previous key message type_code content
        padding p f small inside e =
      let n = frame_blocks (length content) in
      let plain = frame type_code content padding in
      let c = chained enc previous (take 16 plain) in
      let rest = chain enc c (n - 1) (drop 16 plain) in
      let offset = envelope.encrypted_offset + position in
      let fills =
        frame-Fills type_code content padding f.type_byte f.bytes f.padding_bytes f.padding_size in
      let here : drop offset file ≡ c ++ (rest ++ after) =
        e
        ∙ ap (λ b. b ++ after) (chain_first enc n previous plain (omega arith))
        ∙ append_assoc c rest after in
      let is =
        chained-IsBlock cipher (take 16 plain) previous (head-IsBlock n plain (omega arith) fills)
          p in
      let last = chain_last enc previous n plain in
      elim (Bool-cases (not x.header && leb limits.max_records x.record_ordinal)) [
        | inl h ↦ rw h
        | inr h ↦
            rw
              (
                h,
                block_left envelope.encrypted_length position (length content) inside,
                read_at-eq-ok file c (rest ++ after) offset 16 here is.size (omega arith)
                    (omega arith),
                decrypt-running cipher (take 16 plain) previous
                    (head-IsBlock n plain (omega arith) fills) p,
                count_part type_code content padding f.fits,
                type_part type_code content padding,
                frame_left envelope.encrypted_length position (length content) inside,
              )
              (elim (Bool-cases (ltb limits.max_fields (x.field_count + 1))) [
                | inl g ↦ rw g
                | inr g ↦ rw g (elim (Bool-cases ((type_code == 0xFF) && (length content != 0))) [
                  | inl t ↦ rw t
                  | inr t ↦
                      rw
                        (
                          t,
                          consume_field_payload-eq-inline cipher backend digests file after c keys
                              limits type_code key message content padding
                              (record {
                                content_key = keys.content_key;
                                previous_block = previous;
                                ciphertext_offset = offset;
                                ciphertext_length = padded (field_header_bytes + length content);
                                frame_offset = field_header_bytes;
                                payload_length = length content;
                              })
                              is (blocks_behind n plain (omega arith) fills) small refl refl
                              (drop-behind file c (rest ++ after) offset 16 here is.size),
                        )
                        (rw
                          (
                            sym (chain_last_first enc n previous plain (omega arith)),
                            read_last n file after previous plain offset
                                (envelope.encrypted_offset
                                  + (position + padded (field_header_bytes + length content))
                                  - block_bytes)
                                (omega arith) p fills e (omega arith),
                          )
                          (elim (Result-cases (
                            add_field x.builder x.header x.record_ordinal type_code
                              (inline content))) [
                                | inl (b, a) ↦ rw a (
                                    close_section-eq-closed_section k key (after_field x b)
                                      (position + n * 16) last (message ++ content) type_code
                                      limits)
                                | inr (_, a) ↦ rw a
                              ]))
                ])
              ])
      ]
