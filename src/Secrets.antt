-- ===== src/Secrets.antt =====
-- src/bonobo_core/passwordsafe/secrets.py: `SecretBuffer` and, in Lease, `SecretLease`. A bytearray
-- is an address in a store, so that an owner, its views and the caller's own name for the bytes
-- share them; a view is the address that was borrowed.
pub mod Lease
pub mod Cells
pub mod Steps
pub mod Wiped
use password_bonobo.Prelude.{
  ℕ, zero, suc, Bool, true, false, List, [], ◌∷◌, ◌++◌, length, replicate, if◌then◌else◌,
}
use password_bonobo.Prelude.Bytes.{Bytes}
use password_bonobo.Errors.{Result, ok, raise, secret_closed_error}

abbrev pub Store : Type 0
Store = List Bytes

-- The bytes that stand at an address, none where there is no bytearray.
unfoldable pub contents : Store → ℕ → Bytes
contents [] address = []
contents (cell ∷ cells) zero = cell
contents (cell ∷ cells) (suc address) = contents cells address

-- `self._data[:] = b"\x00" * len(self._data)`
unfoldable pub wipe : Store → ℕ → Store
wipe [] address = []
wipe (cell ∷ cells) zero = replicate (length cell) 0 ∷ cells
wipe (cell ∷ cells) (suc address) = cell ∷ wipe cells address

pub record SecretBuffer : Type 0 where
  pub data_at : ℕ
  pub closed : Bool

-- `SecretBuffer.take_ownership`
unfoldable pub take_ownership : ℕ → SecretBuffer
take_ownership address = record { data_at = address; closed = false }

-- `SecretBuffer.from_bytes`: a new bytearray.
unfoldable pub from_bytes : Store → Bytes → Store × SecretBuffer
unfolding take_ownership
from_bytes store content = (store ++ (content ∷ []), take_ownership (length store))

-- `SecretBuffer.borrow`
unfoldable pub borrow : SecretBuffer → Result ℕ
borrow s = if s.closed then raise secret_closed_error else ok s.data_at

-- `SecretBuffer.close`, which is also `__exit__`.
unfoldable pub close : Store → SecretBuffer → Store × SecretBuffer
close store s =
    if s.closed
    then (store, s)
    else (wipe store s.data_at, record { data_at = s.data_at; closed = true })

-- `SecretBuffer.__enter__`
pub enter : SecretBuffer → Result SecretBuffer
enter s = if s.closed then raise secret_closed_error else ok s
