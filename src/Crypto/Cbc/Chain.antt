-- ===== src/Crypto/Cbc/Chain.antt =====
-- The ciphertext of whole blocks under a chain value, as a plain recursion: what both
-- transformers of crypto.py are to agree on.
use password_bonobo.Prelude.{
  add-suc_left, length_nil, All-append, ◌<◌, ℕ, zero, suc, ◌+◌, ◌*◌, ◌≡◌, sym, ap₂, ◌∙◌, [], ◌++◌,
  append_assoc, length, take, drop, arith, take-append_le, drop-append_le, length-append,
  length-take, length-drop, All-take, All-drop,
}
use password_bonobo.Prelude.Bytes.{Bytes, AreBytes}
use native.Mathlib.Nat.{zero-add}
use password_bonobo.Crypto.Interface.{TwofishKey, IsBlockCipher}
use password_bonobo.Crypto.Cbc.Laws.{IsBlock, chained, chained-IsBlock}

-- `n` blocks of `plain`, encrypted after the chain value `previous`.
abbrev pub chain : (Bytes → Bytes) → Bytes → ℕ → Bytes → Bytes
chain enc previous zero plain = []
chain enc previous (suc n) plain =
    chained enc previous (take 16 plain)
    ++ chain enc (chained enc previous (take 16 plain)) n (drop 16 plain)

-- The chain value behind them: the last ciphertext block.
abbrev pub chain_last : (Bytes → Bytes) → Bytes → ℕ → Bytes → Bytes
chain_last enc previous zero plain = previous
chain_last enc previous (suc n) plain =
    chain_last enc (chained enc previous (take 16 plain)) n (drop 16 plain)

-- Bytes that fill `n` blocks.
pub record Fills (n : ℕ) (plain : Bytes) : Type 0 where
  pub size : length plain ≡ n * 16
  pub bytes : AreBytes plain

pub first-IsBlock : (n : ℕ) (plain : Bytes) → Fills (suc n) plain → IsBlock (take 16 plain)
first-IsBlock n plain f = record {
  size = omega (arith, length-take 16 plain, f.size);
  bytes = All-take (λ b. b < 256) 16 plain f.bytes;
}

pub rest-Fills : (n : ℕ) (plain : Bytes) → Fills (suc n) plain → Fills n (drop 16 plain)
rest-Fills n plain f = record {
  size = omega (arith, length-drop 16 plain, f.size);
  bytes = All-drop (λ b. b < 256) 16 plain f.bytes;
}

module _ {k : TwofishKey} {enc : Bytes → Bytes} (cipher : IsBlockCipher k enc) where
  pub link-IsBlock :
      (n : ℕ) (previous plain : Bytes)
      → IsBlock previous
      → Fills (suc n) plain
      → IsBlock (chained enc previous (take 16 plain))
  link-IsBlock n previous plain p f =
      chained-IsBlock cipher (take 16 plain) previous (first-IsBlock n plain f) p

  pub chain_last-IsBlock :
      (n : ℕ) (previous plain : Bytes)
      → IsBlock previous
      → Fills n plain
      → IsBlock (chain_last enc previous n plain)
  chain_last-IsBlock zero previous plain p f = p
  chain_last-IsBlock (suc n) previous plain p f =
      chain_last-IsBlock n _ (drop 16 plain) (link-IsBlock n previous plain p f)
        (rest-Fills n plain f)

  pub length-chain :
      (n : ℕ) (previous plain : Bytes)
      → IsBlock previous
      → Fills n plain
      → length (chain enc previous n plain) ≡ n * 16
  length-chain zero previous plain p f = omega arith
  length-chain (suc n) previous plain p f =
      let c = chained enc previous (take 16 plain) in
      omega (
        arith,
        length-append c (chain enc c n (drop 16 plain)),
        (link-IsBlock n previous plain p f).size,
        length-chain n c (drop 16 plain) (link-IsBlock n previous plain p f) (rest-Fills n plain f),
      )

  pub chain-AreBytes :
      (n : ℕ) (previous plain : Bytes)
      → IsBlock previous
      → Fills n plain
      → AreBytes (chain enc previous n plain)
  chain-AreBytes zero previous plain p f = tt
  chain-AreBytes (suc n) previous plain p f =
      All-append (λ b. b < 256) _ _ (link-IsBlock n previous plain p f).bytes
        (chain-AreBytes n _ (drop 16 plain) (link-IsBlock n previous plain p f)
          (rest-Fills n plain f))

-- The chain over two runs of whole blocks.
pub chain-append :
    (enc : Bytes → Bytes) (n m : ℕ) (previous a b : Bytes)
    → length a ≡ n * 16
    → chain enc previous (n + m) (a ++ b)
      ≡ chain enc previous n a ++ chain enc (chain_last enc previous n a) m b
chain-append enc zero m previous a b h = rw (length_nil a (omega arith), zero-add m)
chain-append enc (suc n) m previous a b h =
    rw (add-suc_left n m, take-append_le 16 a b (omega arith), drop-append_le 16 a b (omega arith))
      (rw
        (chain-append enc n m (chained enc previous (take 16 a)) (drop 16 a) b
          (omega (arith, length-drop 16 a)))
        (sym (append_assoc (chained enc previous (take 16 a)) _ _)))

pub chain_last-append :
    (enc : Bytes → Bytes) (n m : ℕ) (previous a b : Bytes)
    → length a ≡ n * 16
    → chain_last enc previous (n + m) (a ++ b) ≡ chain_last enc (chain_last enc previous n a) m b
chain_last-append enc zero m previous a b h = rw (length_nil a (omega arith), zero-add m)
chain_last-append enc (suc n) m previous a b h = rw (add-suc_left n m) (
    ap₂ (λ t d. chain_last enc (chained enc previous t) (n + m) d)
      (take-append_le 16 a b (omega arith)) (drop-append_le 16 a b (omega arith))
    ∙ chain_last-append enc n m (chained enc previous (take 16 a)) (drop 16 a) b
        (omega (arith, length-drop 16 a)))
