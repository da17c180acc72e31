-- ===== src/Crypto/Authenticator/Laws.antt =====
-- The authenticator is a digest of the bytes that it was fed, in order (crypto.py).
use password_bonobo.Prelude.{◌≡◌, refl, some, [], ◌++◌, length}
use password_bonobo.Prelude.Bytes.{Bytes}
use password_bonobo.Errors.{ok, raise, secret_closed_error}
use password_bonobo.Constants.{hmac_bytes}
use password_bonobo.Crypto.Interface.{Digests}
use password_bonobo.Crypto.Authenticator.{FieldAuthenticator, new, update, digest}

-- An authenticator that is open, with the bytes it was fed.
abbrev pub fed_with : Bytes → Bytes → FieldAuthenticator
fed_with key message = record { key = key; fed = some message }

pub new-fed_with : (key : Bytes) → length key ≡ hmac_bytes → new key ≡ ok (fed_with key [])
unfolding new
new-fed_with key h = rw h

pub update-fed_with :
    (key message payload : Bytes)
    → update (fed_with key message) payload ≡ ok (fed_with key (message ++ payload))
unfolding update
update-fed_with key message payload = refl

pub digest-fed_with :
    (d : Digests) (key message : Bytes)
    → (digest d (fed_with key message)).0 ≡ ok (d.hmac_sha256 key message)
unfolding digest
digest-fed_with d key message = refl

-- Once it gave its digest an authenticator takes no more bytes, and gives no other digest.
pub digest_terminal :
    (d : Digests) (a : FieldAuthenticator) (payload : Bytes)
    → (update (digest d a).1 payload ≡ raise secret_closed_error)
      × ((digest d (digest d a).1).0 ≡ raise secret_closed_error)
unfolding update digest
digest_terminal d a payload = (refl, refl)
