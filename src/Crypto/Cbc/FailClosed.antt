-- ===== src/Crypto/Cbc/FailClosed.antt =====
-- What a fault leaves behind in a CBC transformer (crypto.py, the `except` branches).
use password_bonobo.Prelude.{◌≡◌, true, false, none, length, replicate, arith}
use password_bonobo.Prelude.Bytes.{Bytes}
use password_bonobo.Errors.{raise, Error, runtime_error}
use password_bonobo.Constants.{block_bytes}
use password_bonobo.Crypto.Cbc.{Cbc, close, encrypt, decrypt}

-- Closed, with the key dropped and the chain value overwritten by zeros.
pub record IsWiped (before after : Cbc) : Type 0 where
  pub closed : after.closed ≡ true
  pub key : after.key ≡ none
  pub previous : after.previous ≡ replicate (length before.previous) 0

close-IsWiped : (c : Cbc) → c.closed ≡ false → IsWiped c (close c)
unfolding close
close-IsWiped c h = ground arith

encrypt-IsWiped :
    (c : Cbc) (block : Bytes) (e : Error)
    → length block ≡ block_bytes
    → c.closed ≡ false
    → (encrypt c block).0 ≡ raise e
    → IsWiped c (encrypt c block).1
unfolding encrypt
encrypt-IsWiped c block e n h r = ground arith

decrypt-IsWiped :
    (c : Cbc) (block : Bytes) (e : Error)
    → length block ≡ block_bytes
    → c.closed ≡ false
    → (decrypt c block).0 ≡ raise e
    → IsWiped c (decrypt c block).1
unfolding decrypt
decrypt-IsWiped c block e n h r = ground arith

closed_refuses :
    (c : Cbc) (block : Bytes)
    → c.closed ≡ true
    → (encrypt c block ≡ (raise runtime_error, c)) × (decrypt c block ≡ (raise runtime_error, c))
unfolding encrypt decrypt
closed_refuses c block h = ground arith

-- A call on a full block that fails in an open encryptor wipes it, and from then on every call
-- raises and changes nothing.
pub encrypt_fail_closed :
    (c : Cbc) (block next : Bytes) (e : Error)
    → c.closed ≡ false
    → length block ≡ block_bytes
    → (encrypt c block).0 ≡ raise e
    → IsWiped c (encrypt c block).1
      × (encrypt (encrypt c block).1 next ≡ (raise runtime_error, (encrypt c block).1))
encrypt_fail_closed c block next e h n r =
    let w = encrypt-IsWiped c block e n h r in (w, (closed_refuses _ next w.closed).0)

-- A call on a full block that fails in an open decryptor wipes it, and from then on every call
-- raises and changes nothing.
pub decrypt_fail_closed :
    (c : Cbc) (block next : Bytes) (e : Error)
    → c.closed ≡ false
    → length block ≡ block_bytes
    → (decrypt c block).0 ≡ raise e
    → IsWiped c (decrypt c block).1
      × (decrypt (decrypt c block).1 next ≡ (raise runtime_error, (decrypt c block).1))
decrypt_fail_closed c block next e h n r =
    let w = decrypt-IsWiped c block e n h r in (w, (closed_refuses _ next w.closed).1)
