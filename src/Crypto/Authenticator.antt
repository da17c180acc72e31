-- ===== src/Crypto/Authenticator.antt =====
-- `FieldAuthenticator` of crypto.py: the bytes fed so far, or nothing once it is closed.
pub mod Laws
use password_bonobo.Prelude.{Option, none, some, [], ◌++◌, length, ◌!=◌, if◌then◌else◌}
use password_bonobo.Prelude.Bytes.{Bytes}
use password_bonobo.Errors.{Result, ok, raise, value_error, secret_closed_error}
use password_bonobo.Constants.{hmac_bytes}
use password_bonobo.Crypto.Interface.{Digests}

pub record FieldAuthenticator : Type 0 where
  pub key : Bytes
  pub fed : Option Bytes

pub new : Bytes → Result FieldAuthenticator
new hmac_key =
    if length hmac_key != hmac_bytes
    then raise value_error
    else ok (record { key = hmac_key; fed = some [] })

feed : FieldAuthenticator → Bytes → Option Bytes → Result FieldAuthenticator
feed a payload none = raise secret_closed_error
feed a payload (some sofar) = ok (record a { fed = some (sofar ++ payload) })

pub update : FieldAuthenticator → Bytes → Result FieldAuthenticator
unfolding feed
update a payload = feed a payload a.fed

finish : Digests → Bytes → Option Bytes → Result Bytes
finish d key none = raise secret_closed_error
finish d key (some message) = ok (d.hmac_sha256 key message)

-- The digest is terminal: the authenticator is closed after it, whatever came of it.
pub digest : Digests → FieldAuthenticator → Result Bytes × FieldAuthenticator
unfolding finish
digest d a = (finish d a.key a.fed, record a { fed = none })
