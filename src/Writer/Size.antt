-- ===== src/Writer/Size.antt =====
-- `_validate_document` of writer.py: the size of the candidate, before it is written.
use password_bonobo.Prelude.{
  ℕ, ◌+◌, ◌-◌, ◌*◌, ◌≡◌, ◌≤◌, ap, inl, inr, List, [], ◌∷◌, ◌++◌, length, join, ltb, Bool-cases,
  arith, length-append,
}
use password_bonobo.Prelude.Bytes.{Bytes, to_le}
use password_bonobo.Errors.{ok, raise-neq-ok, ok-injective}
use password_bonobo.Constants.{
  ResourceLimits, salt_bytes, wrapped_key_bytes, field_header_bytes, eof_marker,
}
use password_bonobo.Crypto.Interface.{
  TwofishKey, IsBlockCipher, Digests, AreDigests, RandomSource, IsRandomSource,
}
use password_bonobo.Crypto.Cbc.Laws.{IsBlock}
use password_bonobo.Crypto.Cbc.Chain.{chain, length-chain}
use password_bonobo.Crypto.Keys.{VaultKeys}
use password_bonobo.Payloads.{payload_length}
use password_bonobo.Payloads.Span.{padded}
use password_bonobo.Model.{RawField, VaultDocument, iter_fields}
use password_bonobo.Writer.{Material, candidate_size, fixed_candidate_bytes}
use password_bonobo.Writer.Fields.{frame_blocks}
use password_bonobo.Writer.Document.{
  HaveContents, frames, frames_blocks, frames-Fills, prefix_of, candidate_of,
}

-- The sum is the size of the frames, and it stays within the limit.
candidate_size-frames :
    (limits : ResourceLimits) (bound total n : ℕ) (raws : List RawField) (cs : List Bytes)
    → HaveContents bound raws cs
    → candidate_size limits total raws ≡ ok n
    → total ≤ limits.max_encrypted_file_bytes
    → (n ≡ total + frames_blocks cs * 16) × (n ≤ limits.max_encrypted_file_bytes)
unfolding candidate_size
candidate_size-frames limits bound total n [] [] h e fits =
    let same = ok-injective e in (omega (arith, same), omega (arith, same))
candidate_size-frames limits bound total n [] (c ∷ cs) h e fits = absurd h
candidate_size-frames limits bound total n (raw ∷ raws) [] h e fits = absurd h
candidate_size-frames limits bound total n (raw ∷ raws) (c ∷ cs) h e fits =
    elim (Bool-cases (ltb 0xFFFFFFFF (payload_length raw.payload))) [
      | inl a ↦ absurd (raise-neq-ok (rw a at e))
      | inr a ↦
          let framed = padded (field_header_bytes + payload_length raw.payload) in
          elim (Bool-cases (ltb (limits.max_encrypted_file_bytes - total) framed)) [
            | inl b ↦ absurd (raise-neq-ok (rw (a, b) at e))
            | inr b ↦
                let size : framed ≡ frame_blocks (length c) * 16 =
                  ap (λ m. padded (field_header_bytes + m)) h.0.declared in
                let room : total + framed ≤ limits.max_encrypted_file_bytes =
                  ground (arith, b, fits) in
                let (sum, within) =
                  candidate_size-frames limits bound (total + framed) n raws cs h.1 (rw (a, b) at e)
                    room in
                (omega (arith, sum, size), within)
          ]
    ]

length-prefix_of :
    (digests : Digests) (material : Material) (wrapped iv : Bytes)
    → AreDigests digests
    → length material.salt ≡ salt_bytes
    → length wrapped ≡ wrapped_key_bytes
    → IsBlock iv
    → length (prefix_of digests material wrapped iv) ≡ 152
length-prefix_of digests material wrapped iv d s w v =
    let check = digests.sha256 material.derived_key in
    omega (
      arith,
      length-append material.salt (to_le 4 material.iterations ++ (check ++ (wrapped ++ iv))),
      length-append check (wrapped ++ iv),
      length-append wrapped iv,
      s,
      w,
      v.size,
      d.length-sha256 material.derived_key,
    )

-- The size that is computed before writing is the size of the candidate, and within the limit.
pub candidate_size-length :
    {k : TwofishKey} {enc : Bytes → Bytes} (digests : Digests) (random : RandomSource)
    (limits : ResourceLimits) (document : VaultDocument) (cs : List Bytes) (material : Material)
    (keys : VaultKeys) (wrapped iv : Bytes) (calls bound n : ℕ)
    → IsBlockCipher k enc
    → AreDigests digests
    → IsRandomSource random
    → length material.salt ≡ salt_bytes
    → length wrapped ≡ wrapped_key_bytes
    → IsBlock iv
    → HaveContents bound (iter_fields document) cs
    → fixed_candidate_bytes ≤ limits.max_encrypted_file_bytes
    → candidate_size limits fixed_candidate_bytes (iter_fields document) ≡ ok n
    → (length (candidate_of enc digests random calls document cs material wrapped keys iv) ≡ n)
      × (n ≤ limits.max_encrypted_file_bytes)
candidate_size-length {enc = enc} digests random limits document cs material keys wrapped iv calls
      bound n cipher d src s w v h fixed e =
    let prefix = prefix_of digests material wrapped iv in
    let plain = frames random calls (iter_fields document) cs in
    let ciphertext = chain enc iv (frames_blocks cs) plain in
    let mac = digests.hmac_sha256 keys.hmac_key (join cs) in
    let (sum, within) =
      candidate_size-frames limits bound fixed_candidate_bytes n (iter_fields document) cs h e
        fixed in
    (
      omega (
        arith,
        length-append (prefix ++ ciphertext) (eof_marker ++ mac),
        length-append prefix ciphertext,
        length-prefix_of digests material wrapped iv d s w v,
        length-chain cipher (frames_blocks cs) iv plain v
            (frames-Fills random src bound calls (iter_fields document) cs h),
        d.length-hmac keys.hmac_key (join cs),
        sum,
      ),
      within,
    )
