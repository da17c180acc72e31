-- ===== src/Crypto/Keys.antt =====
-- `DerivedKey`, `VaultKeys`, `stretch_passphrase`, `wrap_vault_keys` and `unwrap_vault_keys` of
-- crypto.py. Wiping of the temporary buffers is not modelled.
pub mod RoundTrip
pub mod Stretch
use password_bonobo.Prelude.{
  ℕ, zero, suc, ◌*◌, List, [], ◌∷◌, ◌++◌, ◌||◌, length, slice, join, ◌!=◌, leb, not, ◌&&◌,
  if◌then◌else◌,
}
use password_bonobo.Prelude.Bytes.{Bytes}
use password_bonobo.Errors.{
  Result, ok, raise, value_error, resource_limit_error, max_iterations, ◌>>=◌, ◌>>◌, raise_if,
}
use password_bonobo.Constants.{
  block_bytes, hmac_bytes, salt_bytes, wrapped_key_bytes, ResourceLimits,
}
use password_bonobo.Crypto.Interface.{TwofishBackend, Digests}

-- `DerivedKey(data)`
unfoldable pub derived_key : Bytes → Result Bytes
derived_key data_bytes =
    if length data_bytes != hmac_bytes then raise value_error else ok data_bytes

pub record VaultKeys : Type 0 where
  pub content_key : Bytes
  pub hmac_key : Bytes

-- `VaultKeys(content_key, hmac_key)` on two distinct bytearrays.
pub vault_keys : Bytes → Bytes → Result VaultKeys
vault_keys content hmac =
    if length content != hmac_bytes || length hmac != hmac_bytes
    then raise value_error
    else ok (record { content_key = content; hmac_key = hmac })

-- The loop over `range(iterations)`.
unfoldable pub iterate_digest : Digests → ℕ → Bytes → Bytes
iterate_digest d zero stretched = stretched
iterate_digest d (suc n) stretched = iterate_digest d n (d.sha256 stretched)

unfoldable pub stretch_passphrase : Digests → Bytes → Bytes → ℕ → ResourceLimits → Result Bytes
unfolding iterate_digest derived_key
stretch_passphrase d passphrase salt iterations limits = do
  raise_if (not (leb 1 iterations && leb iterations limits.max_iterations))
      (resource_limit_error max_iterations)
  raise_if (length salt != salt_bytes) value_error
  derived_key (iterate_digest d iterations (d.sha256 (passphrase ++ salt)))

-- One block through the cipher, with the check on what the backend returned.
abbrev checked : Result Bytes → Result Bytes
checked m = do block ← m; if length block != block_bytes then raise value_error else ok block

map_blocks : (Bytes → Result Bytes) → List Bytes → Result (List Bytes)
map_blocks f [] = ok []
map_blocks f (b ∷ bs) = do block ← checked (f b); rest ← map_blocks f bs; ok (block ∷ rest)

-- The two 16-byte halves of a key.
abbrev halves : Bytes → List Bytes
halves source = slice 0 block_bytes source ∷ slice block_bytes (2 * block_bytes) source ∷ []

-- The four blocks of the wrapped keys.
abbrev quarters : Bytes → List Bytes
quarters w =
    slice 0 block_bytes w
    ∷ slice block_bytes (2 * block_bytes) w
    ∷ slice (2 * block_bytes) (3 * block_bytes) w
    ∷ slice (3 * block_bytes) (4 * block_bytes) w
    ∷ []

pub wrap_vault_keys : TwofishBackend → Bytes → VaultKeys → Result Bytes
unfolding map_blocks
wrap_vault_keys backend derived keys = do
  cipher ← backend.key derived
  blocks ← map_blocks cipher.encrypt_block (halves keys.content_key ++ halves keys.hmac_key)
  ok (join blocks)

-- Blocks 0 and 1 go to the content key, blocks 2 and 3 to the HMAC key.
destinations : List Bytes → Result VaultKeys
unfolding vault_keys
destinations (a ∷ b ∷ c ∷ d ∷ []) = vault_keys (a ++ b) (c ++ d)
destinations _ = raise value_error

pub unwrap_vault_keys : TwofishBackend → Bytes → Bytes → Result VaultKeys
unfolding map_blocks destinations
unwrap_vault_keys backend derived wrapped = do
  raise_if (length wrapped != wrapped_key_bytes) value_error
  cipher ← backend.key derived
  blocks ← map_blocks cipher.decrypt_block (quarters wrapped)
  destinations blocks
