-- ===== src/Secrets/Steps.antt =====
-- The lives of the owners of secrets.py: which stores and owners a process reaches, and what stands
-- in the store then.
use password_bonobo.Prelude.{ℕ, ◌<◌, ◌≡◌, List, [], ◌∷◌, ◌++◌, length}
use password_bonobo.Prelude.Bytes.{Bytes}
use password_bonobo.Errors.{ok}
use password_bonobo.Secrets.{Store, SecretBuffer, take_ownership, from_bytes, close}
use password_bonobo.Secrets.Lease.{SecretLease, lease_from_bytes, copy_of}

pub record Process : Type 0 where
  pub store : Store
  pub owners : List SecretBuffer

-- The owner that an operation returned joins the others.
abbrev joined : List SecretBuffer → Store × SecretBuffer → Process
joined owners made = record { store = made.0; owners = made.1 ∷ owners }

abbrev leased : List SecretBuffer → Store × SecretLease → Process
leased owners made = record { store = made.0; owners = made.1.secret ∷ owners }

-- An owner that is closed stands where it stood.
abbrev after_close : Store × SecretBuffer → List SecretBuffer → List SecretBuffer → Process
after_close made before after = record { store = made.0; owners = before ++ (made.1 ∷ after) }

-- A step: the caller makes a bytearray, an owner or a lease is made, or any owner is closed.
pub data Step : Process → Process → Type 0 where
  bytearray :
      {p : Process} (content : Bytes)
      → Step p (record { store = p.store ++ (content ∷ []); owners = p.owners })
  adopt :
      {p : Process} (address : ℕ)
      → address < length p.store
      → Step p (joined p.owners (p.store, take_ownership address))
  copy : {p : Process} (content : Bytes) → Step p (joined p.owners (from_bytes p.store content))
  lease :
      {p : Process} (content : Bytes) (max_bytes : ℕ) (made : Store × SecretLease)
      → lease_from_bytes p.store content max_bytes ≡ ok made
      → Step p (leased p.owners made)
  lease_copy :
      {p : Process} (source : SecretBuffer) (max_bytes : ℕ) (made : Store × SecretLease)
      → copy_of p.store source max_bytes ≡ ok made
      → Step p (leased p.owners made)
  closing :
      {store : Store} (before : List SecretBuffer) (owner : SecretBuffer)
      (after : List SecretBuffer)
      → Step
          (record { store = store; owners = before ++ (owner ∷ after) })
          (after_close (close store owner) before after)

pub data Reachable : Process → Type 0 where
  start : Reachable (record { store = []; owners = [] })
  step : {p q : Process} → Reachable p → Step p q → Reachable q
