-- ===== src/Writer/Feed.antt =====
-- `_encrypt_bytes` of writer.py copies runs of bytes; the reference takes one byte at a time.
use password_bonobo.Prelude.{
  ℕ, zero, suc, ◌+◌, ◌-◌, ◌*◌, ◌≡◌, ◌≤◌, ◌<◌, refl, sym, ap, ◌∙◌, inl, inr, true, false, [], ◌∷◌,
  ◌++◌, append_assoc, append-nil, length, take, drop, arith, min, ◌==◌, if◌then◌else◌, Bool-cases,
  take-append-drop, length-append, length-take, length-drop, All-append, All-take, All-drop,
}
use password_bonobo.Prelude.Bytes.{Bytes, AreBytes}
use password_bonobo.Errors.{ok, ◌>>=◌}
use password_bonobo.Crypto.Interface.{TwofishKey, IsBlockCipher}
use password_bonobo.Crypto.Cbc.Laws.{IsBlock, chained, running, chained-IsBlock, encrypt-running}
use password_bonobo.Crypto.Cbc.Chain.{chain, chain_last}
use password_bonobo.Writer.{Sink, drain, encrypt_bytes}

-- A sink whose encryptor runs under a key.
pub record Wire : Type 0 where
  pub written : Bytes
  pub previous : Bytes
  pub pending : Bytes

abbrev pub sink : TwofishKey → Wire → Sink
sink k w = record { written = w.written; cbc = running k w.previous; pending = w.pending }

-- One byte: it waits, or it completes a block, which is encrypted.
pub push : (Bytes → Bytes) → Wire → ℕ → Wire
push enc w b =
    if length (w.pending ++ b ∷ []) == 16
    then record {
      written = w.written ++ chained enc w.previous (w.pending ++ b ∷ []);
      previous = chained enc w.previous (w.pending ++ b ∷ []);
      pending = [];
    }
    else record w { pending = w.pending ++ b ∷ [] }

abbrev pub feed : (Bytes → Bytes) → Wire → Bytes → Wire
feed enc w [] = w
feed enc w (b ∷ bs) = feed enc (push enc w b) bs

-- Feeding in two parts is feeding the whole.
pub feed-append :
    (enc : Bytes → Bytes) (w : Wire) (xs ys : Bytes)
    → feed enc w (xs ++ ys) ≡ feed enc (feed enc w xs) ys
feed-append enc w [] ys = refl
feed-append enc w (x ∷ xs) ys = feed-append enc (push enc w x) xs ys

-- A wire in order: fewer than sixteen bytes wait.
pub record IsReady (w : Wire) : Type 0 where
  pub previous : IsBlock w.previous
  pub waiting : length w.pending < 16
  pub bytes : AreBytes w.pending

-- Bytes that complete no block wait.
feed_waits :
    (enc : Bytes → Bytes) (w : Wire) (xs : Bytes)
    → length w.pending + length xs < 16
    → feed enc w xs ≡ record w { pending = w.pending ++ xs }
unfolding push
feed_waits enc w [] h = rw append-nil
feed_waits enc w (x ∷ xs) h =
    let shorter : (length (w.pending ++ x ∷ []) == 16) ≡ false =
      ground (arith, length-append w.pending (x ∷ [])) in
    rw shorter (
      feed_waits enc (record w { pending = w.pending ++ x ∷ [] }) xs
        (omega (arith, length-append w.pending (x ∷ [])))
      ∙ ap (λ p. record w { pending = p }) (append_assoc w.pending (x ∷ []) xs))

-- Bytes that complete a block exactly are encrypted with what waited.
feed_completes :
    (enc : Bytes → Bytes) (w : Wire) (x : ℕ) (xs : Bytes)
    → length w.pending + length (x ∷ xs) ≡ 16
    → feed enc w (x ∷ xs) ≡ record {
      written = w.written ++ chained enc w.previous (w.pending ++ x ∷ xs);
      previous = chained enc w.previous (w.pending ++ x ∷ xs);
      pending = [];
    }
unfolding push
feed_completes enc w x [] h =
    let full : (length (w.pending ++ x ∷ []) == 16) ≡ true =
      ground (arith, length-append w.pending (x ∷ [])) in
    rw full
feed_completes enc w x (y ∷ ys) h =
    let shorter : (length (w.pending ++ x ∷ []) == 16) ≡ false =
      ground (arith, length-append w.pending (x ∷ [])) in
    rw shorter (
      feed_completes enc (record w { pending = w.pending ++ x ∷ [] }) y ys
        (omega (arith, length-append w.pending (x ∷ [])))
      ∙ ap
          (λ p. record {
            written = w.written ++ chained enc w.previous p;
            previous = chained enc w.previous p;
            pending = [];
          })
          (append_assoc w.pending (x ∷ []) (y ∷ ys)))

full-IsBlock :
    (p xs : Bytes) → AreBytes p → AreBytes xs → length p + length xs ≡ 16 → IsBlock (p ++ xs)
full-IsBlock p xs a b h = record {
  size = omega (arith, length-append p xs);
  bytes = All-append (λ b. b < 256) p xs a b;
}

module _ {k : TwofishKey} {enc : Bytes → Bytes} (cipher : IsBlockCipher k enc) where
  push-IsReady : (w : Wire) (b : ℕ) → IsReady w → b < 256 → IsReady (push enc w b)
  unfolding push
  push-IsReady w b r h = elim (Bool-cases (length (w.pending ++ b ∷ []) == 16)) [
    | inl full ↦ rw full (record {
      previous =
          chained-IsBlock cipher (w.pending ++ b ∷ []) w.previous
            (full-IsBlock w.pending (b ∷ []) r.bytes (h, tt)
              (ground (arith, length-append w.pending (b ∷ []))))
            r.previous;
      waiting = omega arith;
      bytes = tt;
    })
    | inr more ↦ rw more (record {
      previous = r.previous;
      waiting = ground (arith, r.waiting, length-append w.pending (b ∷ []));
      bytes = All-append (λ b. b < 256) w.pending (b ∷ []) r.bytes (h, tt);
    })
  ]

  pub feed-IsReady : (w : Wire) (bs : Bytes) → IsReady w → AreBytes bs → IsReady (feed enc w bs)
  feed-IsReady w [] r h = r
  feed-IsReady w (b ∷ bs) r h = feed-IsReady (push enc w b) bs (push-IsReady w b r h.0) h.1

  drain-feed :
      (w : Wire) (x : ℕ) (xs : Bytes)
      → IsReady w
      → AreBytes (x ∷ xs)
      → length w.pending + length (x ∷ xs) ≤ 16
      → drain (record (sink k w) { pending = w.pending ++ x ∷ xs })
        ≡ ok (sink k (feed enc w (x ∷ xs)))
  unfolding drain
  drain-feed w x xs r a h = elim (Bool-cases (length (w.pending ++ x ∷ xs) == 16)) [
    | inl full ↦
        let complete : length w.pending + length (x ∷ xs) ≡ 16 =
          ground (arith, length-append w.pending (x ∷ xs)) in
        rw full (
          rw
            (encrypt-running cipher (w.pending ++ x ∷ xs) w.previous
              (full-IsBlock w.pending (x ∷ xs) r.bytes a complete) r.previous)
            (ap (λ w. ok (sink k w)) (sym (feed_completes enc w x xs complete))))
    | inr more ↦ rw more (
        ap (λ w. ok (sink k w))
          (sym (feed_waits enc w (x ∷ xs) (ground (arith, length-append w.pending (x ∷ xs))))))
  ]

  -- One round, of `suc n` bytes, given the rounds behind it.
  round_feed :
      (fuel n : ℕ) (w : Wire) (b : ℕ) (bs : Bytes)
      → IsReady w
      → AreBytes (b ∷ bs)
      → length w.pending + length (take (suc n) (b ∷ bs)) ≤ 16
      → length bs ≤ fuel
      → ((v : Wire) (rest : Bytes)
          → IsReady v
          → AreBytes rest
          → length rest ≤ fuel
          → encrypt_bytes fuel (sink k v) rest ≡ ok (sink k (feed enc v rest)))
      → (drain (record (sink k w) { pending = w.pending ++ take (suc n) (b ∷ bs) }) >>= λ drained.
          encrypt_bytes fuel drained (drop (suc n) (b ∷ bs)))
        ≡ ok (sink k (feed enc w (b ∷ bs)))
  round_feed fuel n w b bs r a fits h later =
      let taken : AreBytes (b ∷ take n bs) = (a.0, All-take (λ b. b < 256) n bs a.1) in
      rw (drain-feed w b (take n bs) r taken fits) (
        later (feed enc w (b ∷ take n bs)) (drop n bs) (feed-IsReady w (b ∷ take n bs) r taken)
          (All-drop (λ b. b < 256) n bs a.1) (omega (arith, length-drop n bs))
        ∙ ap (λ v. ok (sink k v))
            (sym (feed-append enc w (b ∷ take n bs) (drop n bs))
              ∙ ap (λ c. feed enc w (b ∷ c)) (take-append-drop n bs)))

  -- With a working cipher the copying loop does not fail, and it leaves what the reference,
  -- which takes one byte at a time, leaves.
  pub encrypt_bytes-eq-feed :
      (fuel : ℕ) (w : Wire) (content : Bytes)
      → IsReady w
      → AreBytes content
      → length content ≤ fuel
      → encrypt_bytes fuel (sink k w) content ≡ ok (sink k (feed enc w content))
  unfolding encrypt_bytes
  encrypt_bytes-eq-feed fuel w [] r a h = refl
  encrypt_bytes-eq-feed zero w (b ∷ bs) r a h = absurd (omega arith)
  encrypt_bytes-eq-feed (suc fuel) w (b ∷ bs) r a h =
      let n : ℕ = min (16 - length w.pending) (length (b ∷ bs)) - 1 in
      let copied : min (16 - length w.pending) (length (b ∷ bs)) ≡ suc n =
        omega (arith, r.waiting) in
      rw copied (
        round_feed fuel n w b bs r a (omega (arith, r.waiting, length-take n bs)) (omega arith)
          (encrypt_bytes-eq-feed fuel))

feed_block :
    (enc : Bytes → Bytes) (written previous block : Bytes)
    → length block ≡ 16
    → feed enc (record { written = written; previous = previous; pending = [] }) block ≡ record {
      written = written ++ chained enc previous block;
      previous = chained enc previous block;
      pending = [];
    }
feed_block enc written previous [] h = absurd (omega arith)
feed_block enc written previous (x ∷ xs) h =
    feed_completes enc (record { written = written; previous = previous; pending = [] }) x xs
      (omega arith)

-- Whole blocks are written as the chain of their ciphertexts, and nothing waits.
pub feed_blocks :
    (enc : Bytes → Bytes) (n : ℕ) (written previous plain : Bytes)
    → length plain ≡ n * 16
    → feed enc (record { written = written; previous = previous; pending = [] }) plain ≡ record {
      written = written ++ chain enc previous n plain;
      previous = chain_last enc previous n plain;
      pending = [];
    }
feed_blocks enc zero written previous [] h = rw append-nil
feed_blocks enc zero written previous (x ∷ xs) h = absurd (omega arith)
feed_blocks enc (suc n) written previous plain h =
    let block = take 16 plain in
    let rest = drop 16 plain in
    let c = chained enc previous block in
    ap (feed enc (record { written = written; previous = previous; pending = [] }))
      (sym (take-append-drop 16 plain))
    ∙ feed-append enc _ block rest
    ∙ ap (λ w. feed enc w rest)
        (feed_block enc written previous block (omega (arith, length-take 16 plain)))
    ∙ feed_blocks enc n (written ++ c) c rest (omega (arith, length-drop 16 plain))
    ∙ ap (λ o. record { written = o; previous = chain_last enc c n rest; pending = [] })
        (append_assoc written c (chain enc c n rest))
