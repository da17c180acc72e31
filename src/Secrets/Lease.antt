-- ===== src/Secrets/Lease.antt =====
-- `SecretLease` of secrets.py. The construction token and the tests of Python types are not
-- modelled.
pub mod Separate
use password_bonobo.Prelude.{ℕ, ◌≡◌, refl, Bool, not, ◌&&◌, ◌++◌, ◌∷◌, [], length, ltb, leb}
use password_bonobo.Prelude.Bytes.{Bytes}
use password_bonobo.Errors.{Result, ok, value_error, secret_closed_error, ◌>>◌, ◌>>=◌, raise_if}
use password_bonobo.Secrets.{Store, SecretBuffer, contents, borrow, close, take_ownership}

abbrev pub max_secret_lease_bytes : ℕ
max_secret_lease_bytes = 1048576

pub record SecretLease : Type 0 where
  pub secret : SecretBuffer

-- The construction: a copy of the content, which the lease owns.
unfoldable pub construct : Store → Bytes → Store × SecretLease
unfolding take_ownership
construct store content =
    (store ++ (content ∷ []), record { secret = take_ownership (length store) })

pub construct-eq :
    (store : Store) (content : Bytes)
    → construct store content
      ≡ (store ++ (content ∷ []), record { secret = take_ownership (length store) })
unfolding construct
construct-eq store content = refl

-- `_validate_lease_bound`
abbrev pub bad_lease_bound : ℕ → Bool
bad_lease_bound max_bytes = not (ltb 0 max_bytes && leb max_bytes max_secret_lease_bytes)

-- `SecretLease.from_bytes`
pub lease_from_bytes : Store → Bytes → ℕ → Result (Store × SecretLease)
unfolding construct
lease_from_bytes store content max_bytes = do
  raise_if (bad_lease_bound max_bytes) value_error
  raise_if (ltb max_bytes (length content)) value_error
  ok (construct store content)

-- `SecretLease.copy_of`
unfoldable pub copy_of : Store → SecretBuffer → ℕ → Result (Store × SecretLease)
unfolding construct
copy_of store source max_bytes = do
  raise_if (bad_lease_bound max_bytes) value_error
  view ← borrow source
  raise_if (ltb max_bytes (length (contents store view))) value_error
  ok (construct store (contents store view))

-- `SecretLease.close`, which is also `__exit__`: the copy is wiped, whatever its source is.
abbrev pub lease_close : Store → SecretLease → Store × SecretLease
lease_close store l = ((close store l.secret).0, record { secret = (close store l.secret).1 })

-- `SecretLease.borrow`
abbrev lease_borrow : SecretLease → Result ℕ
lease_borrow l = borrow l.secret

-- `SecretLease.__enter__`
abbrev lease_enter : SecretLease → Result SecretLease
lease_enter l = raise_if l.secret.closed secret_closed_error >> ok l
