-- ===== src/Crypto/Cbc/Ends.antt =====
-- The two ends of a ciphertext chain: its first block, and its last, which is the next chain value.
use password_bonobo.Prelude.{
  ℕ, zero, suc, ◌-◌, ◌*◌, ◌≡◌, ◌<◌, sym, ap, ◌∙◌, [], ◌++◌, append_assoc, append-nil, length, take,
  drop, arith, length-append,
}
use password_bonobo.Prelude.Bytes.{Bytes}
use password_bonobo.Crypto.Interface.{TwofishKey, IsBlockCipher}
use password_bonobo.Crypto.Cbc.Laws.{IsBlock, chained}
use password_bonobo.Crypto.Cbc.Chain.{
  chain, chain_last, Fills, first-IsBlock, link-IsBlock, rest-Fills,
}

pub chain_first :
    (enc : Bytes → Bytes) (n : ℕ) (previous plain : Bytes)
    → 0 < n
    → let c = chained enc previous (take 16 plain) in
      chain enc previous n plain ≡ c ++ chain enc c (n - 1) (drop 16 plain)
chain_first enc zero previous plain h = absurd (omega arith)
chain_first enc (suc n) previous plain h =
    let c = chained enc previous (take 16 plain) in
    ap (λ m. c ++ chain enc c m (drop 16 plain)) (omega arith)

pub chain_last_first :
    (enc : Bytes → Bytes) (n : ℕ) (previous plain : Bytes)
    → 0 < n
    → chain_last enc previous n plain
      ≡ chain_last enc (chained enc previous (take 16 plain)) (n - 1) (drop 16 plain)
chain_last_first enc zero previous plain h = absurd (omega arith)
chain_last_first enc (suc n) previous plain h =
    ap (λ m. chain_last enc (chained enc previous (take 16 plain)) m (drop 16 plain)) {x = n}
      {y = suc n - 1} (omega arith)

pub head-IsBlock : (n : ℕ) (plain : Bytes) → 0 < n → Fills n plain → IsBlock (take 16 plain)
head-IsBlock zero plain h f = absurd (omega arith)
head-IsBlock (suc n) plain h f = first-IsBlock n plain f

pub blocks_behind : (n : ℕ) (plain : Bytes) → 0 < n → Fills n plain → Fills (n - 1) (drop 16 plain)
blocks_behind zero plain h f = absurd (omega arith)
blocks_behind (suc n) plain h f =
    let r = rest-Fills n plain f in record { size = omega (arith, r.size); bytes = r.bytes }

module _ {k : TwofishKey} {enc : Bytes → Bytes} (cipher : IsBlockCipher k enc) where
  -- The blocks before the last one.
  pub chain_init :
      (n : ℕ) (previous plain : Bytes)
      → IsBlock previous
      → Fills (suc n) plain
      → (init : Bytes) × (chain enc previous (suc n) plain
          ≡ init ++ chain_last enc previous (suc n) plain)
        × (length init ≡ n * 16)
  chain_init zero previous plain p f = ([], append-nil _, omega arith)
  chain_init (suc n) previous plain p f =
      let c = chained enc previous (take 16 plain) in
      let is = link-IsBlock cipher (suc n) previous plain p f in
      let (init, e, size) = chain_init n c (drop 16 plain) is (rest-Fills (suc n) plain f) in
      (
        c ++ init,
        ap (λ b. c ++ b) e ∙ sym (append_assoc c init _),
        omega (arith, length-append c init, is.size, size),
      )

  pub init_blocks :
      (n : ℕ) (previous plain : Bytes)
      → 0 < n
      → IsBlock previous
      → Fills n plain
      → (init : Bytes) × (chain enc previous n plain ≡ init ++ chain_last enc previous n plain)
        × (length init ≡ (n - 1) * 16)
  init_blocks zero previous plain h p f = absurd (omega arith)
  init_blocks (suc n) previous plain h p f =
      let (init, e, size) = chain_init n previous plain p f in (init, e, omega (arith, size))
