-- ===== src/Reader/Fields/Stream.antt =====
-- The loop of `_decrypt_fields` of reader.py over the frames that `_write_field` wrote.
use password_bonobo.Prelude.{
  ℕ, zero, suc, ◌+◌, ◌*◌, ◌≡◌, ◌≤◌, ◌<◌, refl, sym, ap, ap₂, ◌∙◌, true, false, inl, inr, List, [],
  ◌∷◌, ◌++◌, append_assoc, append-nil, length, drop, join, ltb, All, arith,
}
use password_bonobo.Prelude.Bytes.{Bytes}
use password_bonobo.Errors.{ok, ◌>>=◌, Result-cases}
use password_bonobo.Constants.{ResourceLimits}
use password_bonobo.Snapshots.{snapshot_of}
use password_bonobo.Crypto.Interface.{
  TwofishKey, TwofishBackend, Digests, IsBlockCipher, RandomSource, IsRandomSource,
}
use password_bonobo.Crypto.Cbc.Laws.{IsBlock}
use password_bonobo.Crypto.Cbc.Chain.{
  chain, chain_last, chain_last-IsBlock, chain-append, chain_last-append, length-chain,
}
use password_bonobo.Crypto.Keys.{VaultKeys}
use password_bonobo.Model.{RawField}
use password_bonobo.Writer.{padding_length}
use password_bonobo.Writer.Fields.{HasContent, frame, frame_blocks, frame-Fills}
use password_bonobo.Writer.Document.{HaveContents, frames, frames_blocks}
use password_bonobo.Reader.Envelope.{Envelope}
use password_bonobo.Reader.Fields.{read_fields}
use password_bonobo.Reader.Fields.Frames.{drop-behind}
use password_bonobo.Reader.Fields.Round.{IsFrame, read_field-frame}
use password_bonobo.Reader.Fields.Sections.{Sections, place, place_all, state_of}

-- Contents that the reader keeps in memory.
abbrev pub AreShort : ResourceLimits → List Bytes → Type 0
AreShort limits = All (λ c. length c ≤ limits.max_inline_payload_bytes)

same_state :
    (k : TwofishKey) (key : Bytes) (y : Sections) {p q : ℕ} {a b m n : Bytes}
    → p ≡ q
    → a ≡ b
    → m ≡ n
    → ok (state_of k key y p a m) ≡ ok (state_of k key y q b n)
same_state k key y e f g = λ i. ok (state_of k key y (e i) (f i) (g i))

at_end : (position total : ℕ) → total ≡ position + 0 → ltb position total ≡ false
at_end position total h = ground arith

before_end : (position total n : ℕ) → total ≡ position + n * 16 → 0 < n → ltb position total ≡ true
before_end position total n h pos = ground arith

module _ {k : TwofishKey} {enc : Bytes → Bytes} (cipher : IsBlockCipher k enc)
    (backend : TwofishBackend) (digests : Digests) (random : RandomSource)
    (src : IsRandomSource random) where
  padded-IsFrame :
      {bound : ℕ} (calls : ℕ) (raw : RawField) (c : Bytes)
      → HasContent bound raw c
      → IsFrame raw.type_code c (random calls (padding_length (length c)))
  padded-IsFrame calls raw c h = record {
    type_byte = h.type_byte;
    bytes = h.bytes;
    padding_bytes = src.bytes-AreBytes calls _;
    padding_size = src.length-bytes calls _;
    fits = h.fits;
  }

  pub read_fields-frames :
      (fuel : ℕ) (file after : Bytes) (envelope : Envelope) (keys : VaultKeys)
      (limits : ResourceLimits) (x : Sections) (position : ℕ) (previous key message : Bytes)
      (calls bound : ℕ) (raws : List RawField) (cs : List Bytes)
      → IsBlock previous
      → HaveContents bound raws cs
      → AreShort limits cs
      → frames_blocks cs ≤ fuel
      → envelope.encrypted_length ≡ position + frames_blocks cs * 16
      → let plain = frames random calls raws cs in
        drop (envelope.encrypted_offset + position) file
          ≡ chain enc previous (frames_blocks cs) plain ++ after
        → read_fields backend digests fuel
            (snapshot_of file)
            envelope
            keys
            limits
            (state_of k key x position previous message)
          ≡ (place_all limits x raws cs >>= λ y. ok (
              state_of k key y envelope.encrypted_length
                (chain_last enc previous (frames_blocks cs) plain)
                (message ++ join cs)))
  unfolding read_fields
  read_fields-frames zero file after envelope keys limits x position previous key message calls
        bound [] [] p h s enough total e =
      rw (read_fields, at_end position envelope.encrypted_length total)
        (same_state k key x (omega (arith, total)) refl (sym (append-nil message)))
  read_fields-frames (suc fuel) file after envelope keys limits x position previous key message
        calls bound [] [] p h s enough total e =
      rw (read_fields, at_end position envelope.encrypted_length total)
        (same_state k key x (omega (arith, total)) refl (sym (append-nil message)))
  read_fields-frames fuel file after envelope keys limits x position previous key message calls
        bound [] (c ∷ cs) p h s enough total e =
      absurd h
  read_fields-frames fuel file after envelope keys limits x position previous key message calls
        bound (raw ∷ raws) [] p h s enough total e =
      absurd h
  read_fields-frames zero file after envelope keys limits x position previous key message calls
        bound (raw ∷ raws) (c ∷ cs) p h s enough total e =
      absurd (omega arith)
  read_fields-frames (suc fuel) file after envelope keys limits x position previous key message
        calls bound (raw ∷ raws) (c ∷ cs) p h s enough total e =
      let n = frame_blocks (length c) in
      let f = padded-IsFrame calls raw c h.0 in
      let one = frame raw.type_code c (random calls (padding_length (length c))) in
      let fills =
        frame-Fills raw.type_code c _ f.type_byte f.bytes f.padding_bytes f.padding_size in
      let rest = frames random (calls + 1) raws cs in
      let c1 = chain enc previous n one in
      let last = chain_last enc previous n one in
      let c2 = chain enc last (frames_blocks cs) rest in
      let here : drop (envelope.encrypted_offset + position) file ≡ c1 ++ (c2 ++ after) =
        e
        ∙ ap (λ b. b ++ after) (chain-append enc n (frames_blocks cs) previous one rest fills.size)
        ∙ append_assoc c1 c2 after in
      rw
        (
          read_fields,
          before_end position envelope.encrypted_length (n + frames_blocks cs) total (omega arith),
          read_field-frame cipher backend digests file (c2 ++ after) envelope keys limits x position
              previous key message raw.type_code c _ p f s.0 (omega (arith, total)) here,
        )
        (elim (Result-cases (place limits x raw.type_code c)) [
          | inl (y, a) ↦ rw a (
              read_fields-frames fuel file after envelope keys limits y (position + n * 16) last key
                (message ++ c) (calls + 1) bound raws cs
                (chain_last-IsBlock cipher n previous one p fills) h.1 s.1 (omega arith)
                (omega (arith, total))
                (ap (λ o. drop o file) {y = envelope.encrypted_offset + position + n * 16}
                    (omega arith)
                  ∙ drop-behind file c1 (c2 ++ after) (envelope.encrypted_offset + position)
                      (n * 16) here (length-chain cipher n previous one p fills))
              ∙ ap₂
                  (λ d m. place_all limits y raws cs >>= λ z.
                    ok (state_of k key z envelope.encrypted_length d m))
                  (sym (chain_last-append enc n (frames_blocks cs) previous one rest fills.size))
                  (append_assoc message c (join cs)))
          | inr (_, a) ↦ rw a
        ])
