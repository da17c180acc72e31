-- ===== src/Reader/Fields/Frames.antt =====
-- The reads of `_consume_field_payload` in reader.py over ciphertext that stands in the snapshot.
use password_bonobo.Prelude.{
  ℕ, zero, suc, ◌+◌, ◌-◌, ◌≡◌, ◌≤◌, ◌<◌, min, sym, ap, ◌∙◌, [], ◌∷◌, ◌++◌, append_assoc, append-nil,
  length, take, drop, arith, length-append, length-drop, take-append_eq, drop-append_eq, drop-drop,
  take-split, take_nil,
}
use password_bonobo.Prelude.Bytes.{Bytes}
use password_bonobo.Errors.{ok}
use password_bonobo.Constants.{max_io_chunk_bytes}
use password_bonobo.Snapshots.{snapshot_of, read_at, read_at-eq-take}
use password_bonobo.Crypto.Interface.{TwofishKey, IsBlockCipher}
use password_bonobo.Crypto.Authenticator.Laws.{fed_with, update-fed_with}
use password_bonobo.Crypto.Cbc.Laws.{IsBlock, chained, running, decrypt-running}
use password_bonobo.Crypto.Cbc.Chain.{
  chain, chain_last, Fills, first-IsBlock, rest-Fills, link-IsBlock,
}
use password_bonobo.Reader.Fields.{Consumed, consume_blocks}

-- A bounded read where these bytes stand.
pub read_at-eq-ok :
    (content middle after : Bytes) (offset count : ℕ)
    → drop offset content ≡ middle ++ after
    → length middle ≡ count
    → 0 < count
    → count ≤ max_io_chunk_bytes
    → read_at (snapshot_of content) offset count ≡ ok middle
read_at-eq-ok content middle after offset count e h pos small =
    let size : length content - offset ≡ length middle + length after =
      sym (length-drop offset content) ∙ ap length e ∙ length-append middle after in
    read_at-eq-take content offset count (omega (arith, size)) small
    ∙ ap (λ b. ok (take count b)) e
    ∙ ap ok (take-append_eq count middle after h)

-- What stands behind it.
pub drop-behind :
    (content middle after : Bytes) (offset count : ℕ)
    → drop offset content ≡ middle ++ after
    → length middle ≡ count
    → drop (offset + count) content ≡ after
drop-behind content middle after offset count e h =
    sym (drop-drop count offset content) ∙ ap (drop count) e ∙ drop-append_eq count middle after h

abbrev pub consumed : TwofishKey → Bytes → Bytes → Bytes → Bytes → Consumed
consumed k previous key message content = record {
  cbc = running k previous;
  authenticator = fed_with key message;
  content = content;
}

same_consumed :
    (k : TwofishKey) (previous key : Bytes) {m n a b : Bytes}
    → m ≡ n
    → a ≡ b
    → ok (consumed k previous key m a) ≡ ok (consumed k previous key n b)
same_consumed k previous key e f = λ i. ok (consumed k previous key (e i) (f i))

-- A chunk, then the rest, on both accumulators.
join_taken :
    (declared : ℕ) (base content plain : Bytes)
    → let taken = take (min (declared - length content) 16) (take 16 plain) in
      (base ++ taken) ++ take (declared - length (content ++ taken)) (drop 16 plain)
      ≡ base ++ take (declared - length content) plain
join_taken declared base content plain =
    let taken = take (min (declared - length content) 16) (take 16 plain) in
    append_assoc base taken _
    ∙ ap (λ n. base ++ (taken ++ take n (drop 16 plain)))
        (omega (arith, length-append content taken))
    ∙ ap (λ b. base ++ b) (take-split 16 (declared - length content) plain)

module _ {k : TwofishKey} {enc : Bytes → Bytes} (cipher : IsBlockCipher k enc) where
  -- The loop over the blocks decrypts the chain, and keeps the declared part of the plaintext.
  pub consume_blocks-chain :
      (n : ℕ) (file after previous plain : Bytes) (position declared : ℕ)
      (key message content : Bytes)
      → IsBlock previous
      → Fills n plain
      → drop position file ≡ chain enc previous n plain ++ after
      → consume_blocks n
          (snapshot_of file)
          position
          declared
          (consumed k previous key message content)
        ≡ ok (
            consumed k
              (chain_last enc previous n plain)
              key
              (message ++ take (declared - length content) plain)
              (content ++ take (declared - length content) plain))
  unfolding consume_blocks
  consume_blocks-chain zero file after previous [] position declared key message content p f e =
      rw (take_nil (declared - length content), append-nil message, append-nil content)
  consume_blocks-chain zero file after previous (x ∷ xs) position declared key message content p f
        e =
      absurd (omega (arith, f.size))
  consume_blocks-chain (suc n) file after previous plain position declared key message content p f
        e =
      let block = take 16 plain in
      let c = chained enc previous block in
      let rest = chain enc c n (drop 16 plain) in
      let here : drop position file ≡ c ++ (rest ++ after) = e ∙ append_assoc c rest after in
      let is = link-IsBlock cipher n previous plain p f in
      let taken = take (min (declared - length content) 16) block in
      rw
        (
          read_at-eq-ok file c (rest ++ after) position 16 here is.size (omega arith) (omega arith),
          decrypt-running cipher block previous (first-IsBlock n plain f) p,
          update-fed_with key message taken,
        )
        (consume_blocks-chain n file after c (drop 16 plain) (position + 16) declared key
            (message ++ taken) (content ++ taken) is (rest-Fills n plain f)
            (drop-behind file c (rest ++ after) position 16 here is.size)
          ∙ same_consumed k (chain_last enc c n (drop 16 plain)) key
              (join_taken declared message content plain)
              (join_taken declared content content plain))
