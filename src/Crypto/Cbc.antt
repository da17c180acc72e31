-- ===== src/Crypto/Cbc.antt =====
-- `CbcEncryptor` and `CbcDecryptor` of crypto.py. A call returns its result beside the state that
-- it leaves: a bad block leaves it as it was, and a fault of the backend closes it.
pub mod Xor
pub mod Laws
pub mod FailClosed
pub mod Chain
pub mod Ends
use password_bonobo.Prelude.{
  ℕ, zero, suc, Bool, true, false, Option, none, some, [], ◌∷◌, length, replicate, ◌!=◌, bit_xor,
  if◌then◌else◌,
}
use password_bonobo.Prelude.Bytes.{Bytes}
use password_bonobo.Errors.{
  Result, ok, raise, Error, value_error, runtime_error, ◌>>=◌, raise_if, ◌>>◌,
}
use password_bonobo.Constants.{block_bytes, hmac_bytes}
use password_bonobo.Crypto.Interface.{TwofishKey, TwofishBackend}

-- The state of both transformers: `_closed`, `_key` and `_previous`.
pub record Cbc : Type 0 where
  pub closed : Bool
  pub key : Option TwofishKey
  pub previous : Bytes

-- The constructor, the same for both transformers.
pub start : TwofishBackend → Bytes → Bytes → Result Cbc
start backend content_key iv = do
  raise_if (length iv != block_bytes) value_error
  raise_if (length content_key != hmac_bytes) value_error
  key ← backend.key content_key
  ok (record { closed = false; key = some key; previous = iv })

-- The chain value is wiped and the key dropped.
pub close : Cbc → Cbc
close c =
    if c.closed
    then c
    else record { closed = true; key = none; previous = replicate (length c.previous) 0 }

-- `left[index] ^ right[index]` for the indices of a block.
abbrev pub xor_block : Bytes → Bytes → Bytes
xor_block [] ys = []
xor_block (x ∷ xs) [] = x ∷ xs
xor_block (x ∷ xs) (y ∷ ys) = bit_xor x y ∷ xor_block xs ys

-- The `except` branch: close, and raise the fault on.
fault : Cbc → Error → Result Bytes × Cbc
unfolding close
fault c e = (raise e, close c)

-- What follows the backend's call, when it returned a block of its own.
finish_encrypt : Cbc → Result Bytes → Result Bytes × Cbc
unfolding fault
finish_encrypt c (raise e) = fault c e
finish_encrypt c (ok encrypted) =
    if length encrypted != block_bytes
    then fault c value_error
    else (ok encrypted, record c { previous = encrypted })

finish_decrypt : Cbc → Bytes → Result Bytes → Result Bytes × Cbc
unfolding fault
finish_decrypt c current (raise e) = fault c e
finish_decrypt c current (ok plaintext) =
    if length plaintext != block_bytes
    then fault c value_error
    else (ok (xor_block plaintext c.previous), record c { previous = current })

with_encrypt_key : Cbc → Bytes → Option TwofishKey → Result Bytes × Cbc
unfolding finish_encrypt fault
with_encrypt_key c mixed none = fault c runtime_error
with_encrypt_key c mixed (some key) = finish_encrypt c (key.encrypt_block mixed)

with_decrypt_key : Cbc → Bytes → Option TwofishKey → Result Bytes × Cbc
unfolding finish_decrypt fault
with_decrypt_key c current none = fault c runtime_error
with_decrypt_key c current (some key) = finish_decrypt c current (key.decrypt_block current)

-- `CbcEncryptor.transform`
unfoldable pub encrypt : Cbc → Bytes → Result Bytes × Cbc
unfolding with_encrypt_key
encrypt c block =
    if c.closed
    then (raise runtime_error, c)
    else if length block != block_bytes
    then (raise value_error, c)
    else with_encrypt_key c (xor_block block c.previous) c.key

-- `CbcDecryptor.transform`
unfoldable pub decrypt : Cbc → Bytes → Result Bytes × Cbc
unfolding with_decrypt_key
decrypt c block =
    if c.closed
    then (raise runtime_error, c)
    else if length block != block_bytes
    then (raise value_error, c)
    else with_decrypt_key c block c.key
