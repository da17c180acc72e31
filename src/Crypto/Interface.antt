-- ===== src/Crypto/Interface.antt =====
-- The protocols `TwofishKey`, `TwofishBackend` and `RandomSource` of crypto.py, the digests that
-- the code takes from hashlib and hmac, and what the code relies on in them.
use password_bonobo.Prelude.{ℕ, ◌≡◌}
use password_bonobo.Prelude.{length}
use password_bonobo.Prelude.Bytes.{Bytes, AreBytes}
use password_bonobo.Errors.{Result, ok}
use password_bonobo.Constants.{block_bytes, hmac_bytes}

pub record TwofishKey : Type 0 where
  pub encrypt_block : Bytes → Result Bytes
  pub decrypt_block : Bytes → Result Bytes

-- `backend.key(key_material)`
pub record TwofishBackend : Type 0 where
  pub key : Bytes → Result TwofishKey

-- `random.bytes(n)`, at its i-th call.
abbrev pub RandomSource : Type 0
RandomSource = ℕ → ℕ → Bytes

pub record Digests : Type 0 where
  pub sha256 : Bytes → Bytes
  pub hmac_sha256 : Bytes → Bytes → Bytes

-- A key's cipher on one block: it does not fail, maps blocks to blocks, and decryption undoes it.
pub record IsBlockCipher (k : TwofishKey) (enc : Bytes → Bytes) : Type 0 where
  pub encrypts : (b : Bytes) → AreBytes b → length b ≡ block_bytes → k.encrypt_block b ≡ ok (enc b)
  pub length-enc : (b : Bytes) → AreBytes b → length b ≡ block_bytes → length (enc b) ≡ block_bytes
  pub enc-AreBytes : (b : Bytes) → AreBytes b → length b ≡ block_bytes → AreBytes (enc b)
  pub decrypts : (b : Bytes) → AreBytes b → length b ≡ block_bytes → k.decrypt_block (enc b) ≡ ok b

-- A backend gives such a cipher for every 32-byte key.
pub record IsBackend (b : TwofishBackend) (keys : Bytes → TwofishKey) (enc : Bytes → Bytes → Bytes)
    : Type 0 where
  pub gives : (k : Bytes) → length k ≡ hmac_bytes → b.key k ≡ ok (keys k)
  pub ciphers : (k : Bytes) → length k ≡ hmac_bytes → IsBlockCipher (keys k) (enc k)

-- Digests are 32 bytes long.
pub record AreDigests (d : Digests) : Type 0 where
  pub length-sha256 : (m : Bytes) → length (d.sha256 m) ≡ hmac_bytes
  pub sha256-AreBytes : (m : Bytes) → AreBytes (d.sha256 m)
  pub length-hmac : (k m : Bytes) → length (d.hmac_sha256 k m) ≡ hmac_bytes
  pub hmac-AreBytes : (k m : Bytes) → AreBytes (d.hmac_sha256 k m)

-- A source returns exactly the number of bytes that it is asked for.
pub record IsRandomSource (r : RandomSource) : Type 0 where
  pub length-bytes : (i n : ℕ) → length (r i n) ≡ n
  pub bytes-AreBytes : (i n : ℕ) → AreBytes (r i n)
