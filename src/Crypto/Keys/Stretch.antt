-- ===== src/Crypto/Keys/Stretch.antt =====
-- `stretch_passphrase` of crypto.py.
use password_bonobo.Prelude.{
  ℕ, zero, suc, false, ◌≡◌, ◌≤◌, ◌++◌, refl, ap, ◌∙◌, length, leb, ◌!=◌, not, ◌&&◌, arith,
}
use password_bonobo.Prelude.Bytes.{Bytes}
use password_bonobo.Errors.{ok}
use password_bonobo.Constants.{ResourceLimits, hmac_bytes, salt_bytes}
use password_bonobo.Crypto.Interface.{Digests, AreDigests}
use password_bonobo.Crypto.Keys.{stretch_passphrase, derived_key, iterate_digest}

-- A derived key is 32 bytes long, and the salt and the iteration count were within their bounds.
pub stretch_passphrase-size :
    (digests : Digests) (passphrase salt : Bytes) (iterations : ℕ) (limits : ResourceLimits)
    (derived : Bytes)
    → stretch_passphrase digests passphrase salt iterations limits ≡ ok derived
    → (length derived ≡ hmac_bytes)
      × (length salt ≡ salt_bytes)
      × (1 ≤ iterations)
      × (iterations ≤ limits.max_iterations)
unfolding stretch_passphrase derived_key
stretch_passphrase-size digests passphrase salt iterations limits derived h = ground arith

-- SHA-256 applied this many times.
unfoldable pub digest_power : Digests → ℕ → Bytes → Bytes
digest_power d zero content = content
digest_power d (suc n) content = d.sha256 (digest_power d n content)

digest_power-sha256 :
    (d : Digests) (n : ℕ) (content : Bytes)
    → digest_power d n (d.sha256 content) ≡ d.sha256 (digest_power d n content)
unfolding digest_power
digest_power-sha256 d zero content = refl
digest_power-sha256 d (suc n) content = ap d.sha256 (digest_power-sha256 d n content)

iterate_digest-eq :
    (d : Digests) (n : ℕ) (content : Bytes) → iterate_digest d n content ≡ digest_power d n content
unfolding iterate_digest digest_power
iterate_digest-eq d zero content = refl
iterate_digest-eq d (suc n) content =
    iterate_digest-eq d n (d.sha256 content) ∙ digest_power-sha256 d n content

length-digest_power :
    (d : Digests)
    → AreDigests d
    → (n : ℕ) (content : Bytes) → length (digest_power d n (d.sha256 content)) ≡ hmac_bytes
unfolding digest_power
length-digest_power d h zero content = h.length-sha256 content
length-digest_power d h (suc n) content = h.length-sha256 _

-- With digests of 32 bytes, a salt of 32 bytes and a number of iterations from 1 to the limit, the
-- derived key is SHA-256 of the passphrase followed by the salt, to which SHA-256 is applied that
-- number of times again.
pub stretch_passphrase-eq-digest_power :
    (digests : Digests) (passphrase salt : Bytes) (iterations : ℕ) (limits : ResourceLimits)
    → AreDigests digests
    → length salt ≡ 32
    → 1 ≤ iterations
    → iterations ≤ limits.max_iterations
    → stretch_passphrase digests passphrase salt iterations limits
      ≡ ok (digest_power digests iterations (digests.sha256 (passphrase ++ salt)))
unfolding stretch_passphrase derived_key
stretch_passphrase-eq-digest_power digests passphrase salt iterations limits dig size pos within =
    let inside : not (leb 1 iterations && leb iterations limits.max_iterations) ≡ false =
      ground arith in
    let salted : (length salt != salt_bytes) ≡ false = ground arith in
    let same = iterate_digest-eq digests iterations (digests.sha256 (passphrase ++ salt)) in
    let sized : (length (digest_power digests iterations (digests.sha256 (passphrase ++ salt)))
          != hmac_bytes)
        ≡ false =
      ground (arith, length-digest_power digests dig iterations (passphrase ++ salt)) in
    rw (inside, salted, same, sized)
