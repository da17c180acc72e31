-- ===== src/Storage/Operations.antt =====
-- The operations of `LocalVaultStore` in storage.py. A candidate of the writer is its path and its
-- digest.
use password_bonobo.Prelude.{
  Bool, true, false, not, ◌&&◌, Option, none, some, List, [], ◌∷◌, map, ◌==◌, if◌then◌else◌,
}
use password_bonobo.Prelude.Bytes.{Bytes, bytes_eq}
use password_bonobo.Errors.{
  Error, Result, ok, raise, storage_error, preparation_failed, verification_failed,
  file_not_found_error,
}
use password_bonobo.Storage.Evidence.{FileBaseline, RecoveryRevision}
use password_bonobo.Storage.Slots.{RecoverySlot}
use password_bonobo.Storage.Action.{Action, pure, fail, ◌>>=◌, ◌>>◌, fail_if, attempt}
use password_bonobo.Storage.Files.{World, Store, capture_regular_file}
use password_bonobo.Storage.Recovery.{
  child, vault_locator, read_recovery_slot, recovery_artifact, recovery_is_visible,
}
use password_bonobo.Storage.Publish.{Validator, split_path}
use password_bonobo.Storage.Publish.Settle.{Outcome, failed, publish_source}

pub record EncryptedCandidate : Type 0 where
  pub path : Bytes
  pub sha256 : Bytes

abbrev not_captured : Error → Action World FileBaseline
not_captured (storage_error reason) = fail (storage_error reason)
not_captured e = fail (storage_error preparation_failed)

-- `capture`
pub capture : Store → Bytes → Action World FileBaseline
unfolding capture_regular_file
capture store path = attempt (capture_regular_file store path) not_captured

-- `publish`
unfoldable pub publish :
    Store → Bytes → EncryptedCandidate → FileBaseline → Validator → World → Outcome × World
unfolding publish_source
publish store destination candidate baseline validator w =
    publish_source store
      (record {
        destination = destination;
        source = candidate.path;
        expected_sha256 = candidate.sha256;
        baseline = some baseline;
        consume_source = true;
        selected_recovery = none;
        validator = validator;
      })
      w

-- `publish_new`
unfoldable pub publish_new :
    Store → Bytes → EncryptedCandidate → Validator → World → Outcome × World
unfolding publish_source
publish_new store destination candidate validator w =
    publish_source store
      (record {
        destination = destination;
        source = candidate.path;
        expected_sha256 = candidate.sha256;
        baseline = none;
        consume_source = true;
        selected_recovery = none;
        validator = validator;
      })
      w

abbrev no_slot : Error → Action World (List RecoveryRevision)
no_slot (storage_error reason) = pure []
no_slot e = fail e

abbrev revision_of : Store → Option RecoverySlot → Action World (List RecoveryRevision)
revision_of store none = pure []
revision_of store (some slot) = do
  artifact ← recovery_artifact store slot.current
  pure (artifact.revision ∷ [])

-- `available_recovery`
pub available_recovery : Store → Bytes → Action World (List RecoveryRevision)
unfolding read_recovery_slot recovery_artifact
available_recovery store destination =
    attempt
      (read_recovery_slot store (vault_locator store destination) >>= λ slot.
        revision_of store slot)
      no_slot

abbrev same_revision : RecoveryRevision → RecoveryRevision → Bool
same_revision a b =
    bytes_eq a.identifier b.identifier
    && (a.created_ns == b.created_ns)
    && (a.size == b.size)
    && bytes_eq a.sha256 b.sha256

abbrev not_selected : Error → Action World (Unit {0})
not_selected file_not_found_error = fail (storage_error verification_failed)
not_selected e = fail e

-- The checks of `restore` on the selected recovery.
abbrev check_selected : Store → Bytes → RecoveryRevision → Action World (Unit {0})
check_selected store destination recovery = do
  same ←
      attempt
        (do
          artifact ← recovery_artifact store recovery.identifier
          pure (same_revision artifact.revision recovery))
        (λ e. not_selected e >> pure false)
  visible ←
      (if same
        then recovery_is_visible store (vault_locator store destination) recovery.identifier
        else pure false)
  fail_if (not visible) (storage_error verification_failed)

abbrev publish_selected :
    Store
    → Bytes
    → RecoveryRevision
    → FileBaseline
    → Validator
    → Result (Unit {0}) × World
    → Outcome × World
publish_selected store destination recovery baseline validator (raise e, w) = (failed e, w)
publish_selected store destination recovery baseline validator (ok done, w) =
    publish_source store
      (record {
        destination = destination;
        source = child store.recovery_directory recovery.identifier;
        expected_sha256 = recovery.sha256;
        baseline = some baseline;
        consume_source = false;
        selected_recovery = some recovery;
        validator = validator;
      })
      w

-- `restore`
unfoldable pub restore :
    Store → Bytes → RecoveryRevision → FileBaseline → Validator → World → Outcome × World
unfolding publish_source recovery_artifact recovery_is_visible
restore store destination recovery baseline validator w =
    publish_selected store destination recovery baseline validator
      (check_selected store destination recovery w)

-- `pending_candidates`
pub pending_candidates : World → List Bytes
unfolding split_path
pending_candidates w = map (λ entry. (split_path entry.0).1) w.pending
