-- ===== src/Tests/Secrets.antt =====
-- An owner of three bytes, a lease that copies it, and the owner closed.
use password_bonobo.Prelude.{◌≡◌, refl, true, false, [], ◌∷◌, arith}
use password_bonobo.Prelude.Bytes.{Bytes}
use password_bonobo.Errors.{ok, raise, secret_closed_error}
use password_bonobo.Secrets.{
  Store, SecretBuffer, borrow, close, contents, from_bytes, take_ownership, wipe,
}
use password_bonobo.Secrets.Lease.{SecretLease, construct, copy_of}
use password_bonobo.Secrets.Lease.Separate.{IsSeparate, copy_of-IsSeparate}
use password_bonobo.Secrets.Steps.{Process, Reachable, start, step, copy, lease_copy, closing}
use password_bonobo.Secrets.Wiped.{AreSafe, reachable-AreSafe}

abbrev secret_bytes : Bytes
secret_bytes = 7 ∷ 8 ∷ 9 ∷ []

abbrev held : Store
held = secret_bytes ∷ []

abbrev owner_of_held : SecretBuffer
owner_of_held = record { data_at = 0; closed = false }

abbrev lease_of_held : SecretLease
lease_of_held = record { secret = record { data_at = 1; closed = false } }

abbrev copied : Store × SecretLease
copied = (secret_bytes ∷ secret_bytes ∷ [], lease_of_held)

copy_runs : copy_of held owner_of_held 16 ≡ ok copied
unfolding copy_of construct borrow contents take_ownership
copy_runs = refl

close_runs :
    close copied.0 owner_of_held
    ≡ ((0 ∷ 0 ∷ 0 ∷ []) ∷ secret_bytes ∷ [], record { data_at = 0; closed = true })
unfolding close wipe
close_runs = refl

borrow_refused : borrow (record { data_at = 0; closed = true }) ≡ raise secret_closed_error
unfolding borrow
borrow_refused = refl

copy_of-IsSeparate_example : IsSeparate held owner_of_held copied
copy_of-IsSeparate_example = copy_of-IsSeparate held owner_of_held 16 copied (omega arith) copy_runs

abbrev with_owner : Process
with_owner = record { store = held; owners = owner_of_held ∷ [] }

abbrev with_lease : Process
with_lease = record { store = copied.0; owners = lease_of_held.secret ∷ owner_of_held ∷ [] }

abbrev with_closed : Process
with_closed = record {
  store = (close copied.0 owner_of_held).0;
  owners = lease_of_held.secret ∷ (close copied.0 owner_of_held).1 ∷ [];
}

with_owner_is : Reachable with_owner
unfolding from_bytes take_ownership
with_owner_is = step start (copy secret_bytes)

with_lease_is : Reachable with_lease
with_lease_is = step with_owner_is (lease_copy owner_of_held 16 copied copy_runs)

with_closed_is : Reachable with_closed
with_closed_is = step with_lease_is (closing (lease_of_held.secret ∷ []) owner_of_held [])

reachable-AreSafe_example : AreSafe with_closed
reachable-AreSafe_example = reachable-AreSafe with_closed_is
