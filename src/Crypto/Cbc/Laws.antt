-- ===== src/Crypto/Cbc/Laws.antt =====
-- The two CBC transformers as state machines (crypto.py, `CbcEncryptor` and `CbcDecryptor`).
use password_bonobo.Prelude.{◌≡◌, refl, false, some, length, arith}
use password_bonobo.Prelude.Bytes.{Bytes, AreBytes}
use password_bonobo.Errors.{ok}
use password_bonobo.Constants.{block_bytes, hmac_bytes}
use password_bonobo.Crypto.Interface.{TwofishKey, TwofishBackend, IsBlockCipher}
use password_bonobo.Crypto.Cbc.{Cbc, start, xor_block, encrypt, decrypt}
use password_bonobo.Crypto.Cbc.Xor.{length-xor_block, xor_block-AreBytes, xor_block_cancel}

-- A block: sixteen bytes.
pub record IsBlock (b : Bytes) : Type 0 where
  pub size : length b ≡ block_bytes
  pub bytes : AreBytes b

-- A transformer that is open under a key, with a block as its chain value.
abbrev pub running : TwofishKey → Bytes → Cbc
running k previous = record { closed = false; key = some k; previous = previous }

-- The ciphertext block of a plaintext block after a chain value.
abbrev pub chained : (Bytes → Bytes) → Bytes → Bytes → Bytes
chained enc previous block = enc (xor_block block previous)

pub start-eq-running :
    (backend : TwofishBackend) (k : TwofishKey) (content_key iv : Bytes)
    → backend.key content_key ≡ ok k
    → length content_key ≡ hmac_bytes
    → IsBlock iv
    → start backend content_key iv ≡ ok (running k iv)
unfolding start
start-eq-running backend k content_key iv e h v = rw (v.size, h, e) refl

module _ {k : TwofishKey} {enc : Bytes → Bytes} (cipher : IsBlockCipher k enc) where
  xor-IsBlock :
      (block previous : Bytes)
      → IsBlock block
      → IsBlock previous
      → IsBlock (xor_block block previous)
  xor-IsBlock block previous b p = record {
    size = omega (arith, length-xor_block block previous, b.size);
    bytes = xor_block-AreBytes block previous b.bytes p.bytes;
  }

  pub chained-IsBlock :
      (block previous : Bytes)
      → IsBlock block
      → IsBlock previous
      → IsBlock (chained enc previous block)
  chained-IsBlock block previous b p =
      let x = xor-IsBlock block previous b p in
      record {
        size = cipher.length-enc _ x.bytes x.size;
        bytes = cipher.enc-AreBytes _ x.bytes x.size;
      }

  pub encrypt-running :
      (block previous : Bytes)
      → IsBlock block
      → IsBlock previous
      → encrypt (running k previous) block
        ≡ (ok (chained enc previous block), running k (chained enc previous block))
  unfolding encrypt
  encrypt-running block previous b p =
      let x = xor-IsBlock block previous b p in
      rw (b.size, cipher.encrypts _ x.bytes x.size)
        (ground (arith, (chained-IsBlock block previous b p).size))

  pub decrypt-running :
      (block previous : Bytes)
      → IsBlock block
      → IsBlock previous
      → decrypt (running k previous) (chained enc previous block)
        ≡ (ok block, running k (chained enc previous block))
  unfolding decrypt
  decrypt-running block previous b p =
      let x = xor-IsBlock block previous b p in
      rw ((chained-IsBlock block previous b p).size, cipher.decrypts _ x.bytes x.size)
        (ground (arith, length-xor_block block previous, b.size, xor_block_cancel block previous))
