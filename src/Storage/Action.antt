-- ===== src/Storage/Action.antt =====
-- What storage.py does on a state: it raises or returns, and leaves the state that it has reached.
pub mod Laws
use password_bonobo.Prelude.{Bool, true, false}
use password_bonobo.Errors.{Error, Result, ok, raise}

abbrev pub Action : Type 0 → Type 0 → Type 0
Action S A = S → Result A × S

abbrev pub pure : {S A : Type 0} → A → Action S A
pure a s = (ok a, s)

abbrev pub fail : {S A : Type 0} → Error → Action S A
fail e s = (raise e, s)

abbrev pub continue : {S A B : Type 0} → (A → Action S B) → Result A × S → Result B × S
continue next (ok a, s) = next a s
continue next (raise e, s) = (raise e, s)

infixl 5 ◌>>=◌ ◌>>◌
unfoldable pub ◌>>=◌ : {S A B : Type 0} → Action S A → (A → Action S B) → Action S B
(m >>= next) s = continue next (m s)

abbrev pub ◌>>◌ : {S B : Type 0} → Action S (Unit {0}) → Action S B → Action S B
first >> second = first >>= λ done. second

-- `if b: raise e`
abbrev pub fail_if : {S : Type 0} → Bool → Error → Action S (Unit {0})
fail_if false e s = (ok tt, s)
fail_if true e s = (raise e, s)

abbrev pub from_result : {S A : Type 0} → Result A → Action S A
from_result r s = (r, s)

abbrev pub change : {S : Type 0} → (S → S) → Action S (Unit {0})
change f s = (ok tt, f s)

abbrev pub get : {S : Type 0} → Action S S
get s = (ok s, s)

abbrev pub handled : {S A : Type 0} → (Error → Action S A) → Result A × S → Result A × S
handled handler (ok a, s) = (ok a, s)
handled handler (raise e, s) = handler e s

-- `try: m` with its `except` clauses.
unfoldable pub attempt : {S A : Type 0} → Action S A → (Error → Action S A) → Action S A
attempt m handler s = handled handler (m s)
