-- ===== src/Storage/Recovery.antt =====
-- The recovery artifacts of storage.py: `_create_recovery`, the slot files, `_commit_recovery`.
pub mod Laws
use password_bonobo.Prelude.{
  ℕ, zero, suc, Bool, true, false, not, ◌&&◌, ◌||◌, Option, none, some, List, [], ◌∷◌, ◌++◌, length,
  ◌==◌, ◌!=◌, ltb, if◌then◌else◌,
}
use password_bonobo.Prelude.Bytes.{Bytes, bytes_eq}
use password_bonobo.Errors.{
  Error, os_error, file_exists_error, file_not_found_error, storage_error, publication_failed,
  verification_failed, preparation_failed, value_error,
}
use password_bonobo.Storage.Evidence.{FileBaseline, RecoveryRevision}
use password_bonobo.Storage.Slots.{
  RecoverySlot, is_digest, parse_slot, encode_slot, max_slot_identifiers, hex_digest_length,
}
use password_bonobo.Storage.Action.{
  Action, pure, fail, ◌>>=◌, ◌>>◌, fail_if, from_result, attempt, get,
}
use password_bonobo.Storage.Files.{
  World, File, Store, hit, recovery_write, recovery_sync, token_hex, random_bytes, hexdigest,
  create_file, open_file, unlink, rename, link, capture_regular_file, open_child, copy_to,
  write_file, same_baseline, remove_if_same,
}

-- `_RECOVERY_NAME_ATTEMPTS`
abbrev pub recovery_name_attempts : ℕ
recovery_name_attempts = 32

-- `_RECOVERY_NONCE_BYTES`
abbrev pub recovery_nonce_bytes : ℕ
recovery_nonce_bytes = 32

-- `_RecoveryArtifact`
pub record RecoveryArtifact : Type 0 where
  pub revision : RecoveryRevision
  pub baseline : FileBaseline

-- `directory / name`
unfoldable pub child : Bytes → Bytes → Bytes
child directory name = directory ++ (47 ∷ name)

-- ".bonobo-"
abbrev pub bonobo_prefix : Bytes
bonobo_prefix = 46 ∷ 98 ∷ 111 ∷ 110 ∷ 111 ∷ 98 ∷ 111 ∷ 45 ∷ []

-- ".recovery"
abbrev recovery_suffix : Bytes
recovery_suffix = 46 ∷ 114 ∷ 101 ∷ 99 ∷ 111 ∷ 118 ∷ 101 ∷ 114 ∷ 121 ∷ []

-- ".slot"
abbrev slot_suffix : Bytes
slot_suffix = 46 ∷ 115 ∷ 108 ∷ 111 ∷ 116 ∷ []

-- ".bonobo-recovery-"
abbrev recovery_slot_prefix : Bytes
recovery_slot_prefix = bonobo_prefix ++ (114 ∷ 101 ∷ 99 ∷ 111 ∷ 118 ∷ 101 ∷ 114 ∷ 121 ∷ 45 ∷ [])

-- `_recovery_slot_name`
abbrev pub recovery_slot_name : Bytes → Bytes
recovery_slot_name locator = recovery_slot_prefix ++ locator ++ slot_suffix

-- `_vault_locator`
unfoldable pub vault_locator : Store → Bytes → Bytes
vault_locator store path = hexdigest store (store.resolve path)

-- `_recovery_revision`
abbrev pub recovery_revision : Bytes → FileBaseline → RecoveryRevision
recovery_revision name baseline = record {
  identifier = name;
  created_ns = baseline.modified_ns;
  size = baseline.size;
  sha256 = baseline.sha256;
}

-- `with suppress(...): unlink`
abbrev pub unlink_if_there : Bytes → Action World (Unit {0})
unlink_if_there path = attempt (unlink path) (λ e. pure tt)

-- The part of `_create_recovery` under `try`, for the identifier of a nonce.
pub copy_recovery : Store → Bytes → FileBaseline → Bytes → Bytes → Action World RecoveryArtifact
copy_recovery store destination baseline identifier temporary = do
  create_file temporary
  hit recovery_write
  file ← open_child destination
  copy_to file temporary
  hit recovery_sync
  observed ← capture_regular_file store temporary
  fail_if (observed.size != baseline.size || not (bytes_eq observed.sha256 baseline.sha256))
      (storage_error verification_failed)
  link temporary (child store.recovery_directory identifier)
  unlink temporary
  published ← capture_regular_file store (child store.recovery_directory identifier)
  fail_if (not (same_baseline published observed)) (storage_error verification_failed)
  pure (record { revision = recovery_revision identifier published; baseline = published })

abbrev is_file_exists : Error → Bool
is_file_exists file_exists_error = true
is_file_exists e = false

-- The `except` clauses of an attempt: a name that exists is followed by the next attempt.
abbrev next_attempt : Bytes → Action World RecoveryArtifact → Error → Action World RecoveryArtifact
next_attempt temporary rest e =
    unlink_if_there temporary >> (if is_file_exists e then rest else fail e)

-- `_create_recovery`
unfoldable pub create_recovery :
    Store → Bytes → FileBaseline → Bytes → ℕ → Action World RecoveryArtifact
unfolding copy_recovery
create_recovery store destination baseline locator zero = fail (storage_error publication_failed)
create_recovery store destination baseline locator (suc attempts) =
    let rest = create_recovery store destination baseline locator attempts in
    do
      nonce ← random_bytes store recovery_nonce_bytes
      fail_if (length nonce != recovery_nonce_bytes) (storage_error publication_failed)
      token ← token_hex store
      let identifier = hexdigest store (locator ++ nonce)
      let temporary = child store.recovery_directory (bonobo_prefix ++ token ++ recovery_suffix)
      attempt (copy_recovery store destination baseline identifier temporary)
          (next_attempt temporary rest)

abbrev slot_path : Store → Bytes → Bytes
slot_path store locator = child store.recovery_directory (recovery_slot_name locator)

abbrev missing_slot : Error → Action World (Option File)
missing_slot file_not_found_error = pure none
missing_slot e = fail e

abbrev slot_in : Option File → Action World (Option RecoverySlot)
slot_in none = pure none
slot_in (some file) = do slot ← from_result (parse_slot file.content); pure (some slot)

-- `_read_recovery_slot`
unfoldable pub read_recovery_slot : Store → Bytes → Action World (Option RecoverySlot)
read_recovery_slot store locator = do
  found ← attempt (open_file (slot_path store locator) >>= λ file. pure (some file)) missing_slot
  slot_in found

-- `_write_recovery_slot`
unfoldable pub write_recovery_slot : Store → Bytes → RecoverySlot → Action World (Unit {0})
write_recovery_slot store locator slot = do
  token ← token_hex store
  let temporary = child store.recovery_directory (bonobo_prefix ++ token ++ slot_suffix)
  attempt
      (do
        create_file temporary
        write_file temporary (encode_slot slot)
        rename temporary (slot_path store locator))
      (λ e. unlink_if_there temporary >> fail e)

abbrev slot_not_restored : Error → Action World Bool
slot_not_restored os_error = pure false
slot_not_restored file_exists_error = pure false
slot_not_restored file_not_found_error = pure false
slot_not_restored (storage_error reason) = pure false
slot_not_restored e = fail e

abbrev previous_slot_restored : Store → Bytes → Option RecoverySlot → Action World (Unit {0})
previous_slot_restored store locator none = unlink_if_there (slot_path store locator)
previous_slot_restored store locator (some previous) = write_recovery_slot store locator previous

-- `_restore_recovery_slot`
unfoldable pub restore_recovery_slot : Store → Bytes → Option RecoverySlot → Action World Bool
restore_recovery_slot store locator previous =
    attempt (previous_slot_restored store locator previous >> pure true) slot_not_restored

-- `_recovery_artifact`
unfoldable pub recovery_artifact : Store → Bytes → Action World RecoveryArtifact
recovery_artifact store identifier = do
  fail_if (not (is_digest identifier)) (storage_error verification_failed)
  baseline ← capture_regular_file store (child store.recovery_directory identifier)
  pure (record { revision = recovery_revision identifier baseline; baseline = baseline })

abbrev not_cleaned : Error → Action World Bool
not_cleaned file_not_found_error = pure false
not_cleaned (storage_error reason) = pure true
not_cleaned e = fail e

-- The loop of `_commit_recovery`: whether the removal of an obsolete artifact failed.
unfoldable pub remove_obsolete : Store → List Bytes → Bool → Action World Bool
unfolding recovery_artifact
remove_obsolete store [] cleanup_failed = pure cleanup_failed
remove_obsolete store (identifier ∷ identifiers) cleanup_failed = do
  failed ←
      attempt
        (do
          artifact ← recovery_artifact store identifier
          removed ←
              remove_if_same store (child store.recovery_directory identifier) artifact.baseline
          pure (not removed))
        not_cleaned
  remove_obsolete store identifiers (failed || cleanup_failed)

-- `_commit_recovery`
unfoldable pub commit_recovery :
    Store → Bytes → RecoveryArtifact → RecoverySlot → Action World (Unit {0})
unfolding remove_obsolete
commit_recovery store locator recovery transaction_slot = do
  cleanup_failed ← remove_obsolete store transaction_slot.obsolete false
  fail_if cleanup_failed (storage_error publication_failed)
  write_recovery_slot store locator
      (record { current = recovery.revision.identifier; obsolete = [] })

-- The `except` clause of `_recovery_is_visible`
abbrev unreadable : Error → Action World Bool
unreadable os_error = fail (storage_error preparation_failed)
unreadable file_exists_error = fail (storage_error preparation_failed)
unreadable file_not_found_error = fail (storage_error preparation_failed)
unreadable value_error = fail (storage_error preparation_failed)
unreadable e = fail e

-- `_recovery_is_visible`
unfoldable pub recovery_is_visible : Store → Bytes → Bytes → Action World Bool
unfolding read_recovery_slot
recovery_is_visible store locator identifier =
    attempt
      (do
        slot ← read_recovery_slot store locator
        pure (elim slot [ none ↦ false | some s ↦ bytes_eq s.current identifier ]))
      unreadable
