-- ===== src/Writer/Document.antt =====
-- `_write_candidate` of writer.py on a whole document: the bytes of the candidate.
use password_bonobo.Prelude.{
  false, ℕ, ◌+◌, ◌≡◌, ◌<◌, refl, sym, ap, ◌∙◌, List, [], ◌∷◌, ◌++◌, append_assoc, append-nil,
  length, join, arith, ltb, length-append, All-append,
}
use native.Mathlib.Nat.{add-zero}
use password_bonobo.Prelude.Bytes.{Bytes, to_le}
use password_bonobo.Errors.{ok}
use password_bonobo.Constants.{file_tag, eof_marker, hmac_bytes, ResourceLimits}
use password_bonobo.Crypto.Interface.{
  TwofishKey, TwofishBackend, IsBlockCipher, RandomSource, IsRandomSource, Digests,
}
use password_bonobo.Crypto.Authenticator.Laws.{new-fed_with, digest-fed_with}
use password_bonobo.Crypto.Keys.{VaultKeys, wrap_vault_keys}
use password_bonobo.Crypto.Cbc.Laws.{IsBlock, start-eq-running}
use password_bonobo.Crypto.Cbc.Chain.{
  chain, chain_last, Fills, chain_last-IsBlock, chain-append, chain_last-append,
}
use password_bonobo.Model.{RawField, VaultDocument, iter_fields}
use password_bonobo.Writer.{Material, padding_length, write_fields, write_candidate}
use password_bonobo.Writer.Fields.{
  HasContent, frame, frame_blocks, frame-Fills, output, write_field-eq-chain,
}

-- The fields have these contents, one for each.
abbrev pub HaveContents : ℕ → List RawField → List Bytes → Type 0
HaveContents bound [] [] = Unit
HaveContents bound [] (c ∷ cs) = ⊥
HaveContents bound (raw ∷ raws) [] = ⊥
HaveContents bound (raw ∷ raws) (c ∷ cs) = HasContent bound raw c × HaveContents bound raws cs

-- The frames of the fields, with the padding that the random source gives from call `calls` on.
abbrev pub frames : RandomSource → ℕ → List RawField → List Bytes → Bytes
frames random calls (raw ∷ raws) (c ∷ cs) =
    frame raw.type_code c (random calls (padding_length (length c)))
    ++ frames random (calls + 1) raws cs
frames random calls [] cs = []
frames random calls (raw ∷ raws) [] = []

abbrev pub frames_blocks : List Bytes → ℕ
frames_blocks [] = 0
frames_blocks (c ∷ cs) = frame_blocks (length c) + frames_blocks cs

same_output :
    (k : TwofishKey) (key : Bytes) {w w' p p' m m' : Bytes} {c c' : ℕ}
    → w ≡ w'
    → p ≡ p'
    → m ≡ m'
    → c ≡ c'
    → ok (output k key w p m c) ≡ ok (output k key w' p' m' c')
same_output k key e f g h = λ i. ok (output k key (e i) (f i) (g i) (h i))

module _ (random : RandomSource) (src : IsRandomSource random) where
  one-Fills :
      {bound : ℕ} (calls : ℕ) (raw : RawField) (c : Bytes)
      → HasContent bound raw c
      → Fills
          (frame_blocks (length c))
          (frame raw.type_code c (random calls (padding_length (length c))))
  one-Fills calls raw c h =
      frame-Fills raw.type_code c _ h.type_byte h.bytes (src.bytes-AreBytes calls _)
        (src.length-bytes calls _)

  pub frames-Fills :
      (bound calls : ℕ) (raws : List RawField) (cs : List Bytes)
      → HaveContents bound raws cs
      → Fills (frames_blocks cs) (frames random calls raws cs)
  frames-Fills bound calls [] [] h = record { size = omega arith; bytes = tt }
  frames-Fills bound calls [] (c ∷ cs) h = absurd h
  frames-Fills bound calls (raw ∷ raws) [] h = absurd h
  frames-Fills bound calls (raw ∷ raws) (c ∷ cs) h =
      let one = one-Fills calls raw c h.0 in
      let more = frames-Fills bound (calls + 1) raws cs h.1 in
      let padded_frame = frame raw.type_code c (random calls (padding_length (length c))) in
      let rest = frames random (calls + 1) raws cs in
      record {
        size = omega (arith, length-append padded_frame rest, one.size, more.size);
        bytes = All-append (λ b. b < 256) padded_frame rest one.bytes more.bytes;
      }

  module _ {k : TwofishKey} {enc : Bytes → Bytes} (cipher : IsBlockCipher k enc) where
    pub write_fields-eq-chain :
        (limits : ResourceLimits) (key written previous message : Bytes) (calls : ℕ)
        (raws : List RawField) (cs : List Bytes)
        → IsBlock previous
        → HaveContents limits.io_chunk_bytes raws cs
        → let n = frames_blocks cs in
          let plain = frames random calls raws cs in
          write_fields random limits (output k key written previous message calls) raws
          ≡ ok (
              output k key
                (written ++ chain enc previous n plain)
                (chain_last enc previous n plain)
                (message ++ join cs)
                (calls + length raws))
    unfolding write_fields
    write_fields-eq-chain limits key written previous message calls [] [] p h =
        same_output k key (sym (append-nil written)) refl (sym (append-nil message))
          (sym (add-zero calls))
    write_fields-eq-chain limits key written previous message calls [] (c ∷ cs) p h = absurd h
    write_fields-eq-chain limits key written previous message calls (raw ∷ raws) [] p h = absurd h
    write_fields-eq-chain limits key written previous message calls (raw ∷ raws) (c ∷ cs) p h =
        let padding = random calls (padding_length (length c)) in
        let one = frame raw.type_code c padding in
        let fills = one-Fills calls raw c h.0 in
        let c1 = chain enc previous (frame_blocks (length c)) one in
        let last = chain_last enc previous (frame_blocks (length c)) one in
        let rest = frames random (calls + 1) raws cs in
        rw
          (write_field-eq-chain cipher random limits key written previous message calls raw c src p
            h.0)
          (write_fields-eq-chain limits key (written ++ c1) last (message ++ c) (calls + 1) raws cs
              (chain_last-IsBlock cipher (frame_blocks (length c)) previous one p fills) h.1
            ∙ same_output k key
                (append_assoc written c1 _
                  ∙ ap (λ x. written ++ x)
                      (sym (
                        chain-append enc (frame_blocks (length c)) (frames_blocks cs) previous one
                          rest fills.size)))
                (sym (
                  chain_last-append enc (frame_blocks (length c)) (frames_blocks cs) previous one
                    rest fills.size))
                (append_assoc message c (join cs)) (omega arith))

fits_iterations :
    (material : Material)
    → material.iterations < 4294967296
    → ltb 0xFFFFFFFF material.iterations ≡ false
fits_iterations material h = ground arith

-- The fixed prefix of a candidate.
abbrev pub prefix_of : Digests → Material → Bytes → Bytes → Bytes
prefix_of digests material wrapped iv =
    file_tag
    ++ (material.salt
        ++ (to_le 4 material.iterations
            ++ (digests.sha256 material.derived_key ++ (wrapped ++ iv))))

-- The bytes of a candidate: prefix, ciphertext, end marker and HMAC.
abbrev pub candidate_of :
    (Bytes → Bytes)
    → Digests
    → RandomSource
    → ℕ
    → VaultDocument
    → List Bytes
    → Material
    → Bytes
    → VaultKeys
    → Bytes
    → Bytes
candidate_of enc digests random calls document cs material wrapped keys iv =
    (prefix_of digests material wrapped iv
      ++ chain enc iv (frames_blocks cs) (frames random calls (iter_fields document) cs))
    ++ (eof_marker ++ digests.hmac_sha256 keys.hmac_key (join cs))

module _ (random : RandomSource) (src : IsRandomSource random) where
  -- With a working cipher, keys that were wrapped, a 16-byte vector, an iteration count of 32 bits
  -- and payloads that stream their contents, writing does not fail, and the candidate is the
  -- document's bytes: tag, salt, iterations, password check, wrapped keys, vector, chained blocks
  -- of all frames, end marker and HMAC.
  pub write_candidate-eq-candidate_of :
      (backend : TwofishBackend) (digests : Digests) {k : TwofishKey} {enc : Bytes → Bytes}
      (limits : ResourceLimits) (document : VaultDocument) (cs : List Bytes) (material : Material)
      (keys : VaultKeys) (wrapped iv : Bytes) (calls : ℕ)
      → IsBlockCipher k enc
      → backend.key keys.content_key ≡ ok k
      → wrap_vault_keys backend material.derived_key keys ≡ ok wrapped
      → length keys.content_key ≡ hmac_bytes
      → length keys.hmac_key ≡ hmac_bytes
      → IsBlock iv
      → material.iterations < 4294967296
      → HaveContents limits.io_chunk_bytes (iter_fields document) cs
      → write_candidate backend digests random limits document material keys iv calls
        ≡ ok (candidate_of enc digests random calls document cs material wrapped keys iv)
  unfolding write_candidate
  write_candidate-eq-candidate_of backend digests {k = k} {enc = enc} limits document cs material
        keys wrapped iv calls cipher e wrap hc hm v small h =
      rw (
        fits_iterations material small,
        wrap,
        new-fed_with keys.hmac_key hm,
        start-eq-running backend k keys.content_key iv e hc v,
        write_fields-eq-chain random src cipher limits keys.hmac_key
            (prefix_of digests material wrapped iv) iv [] calls (iter_fields document) cs v h,
        digest-fed_with digests keys.hmac_key (join cs),
      )
