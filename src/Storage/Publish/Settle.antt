-- ===== src/Storage/Publish/Settle.antt =====
-- The `finally` clause of `_publish_source` of storage.py, and what it raises or returns.
use password_bonobo.Prelude.{
  Bool, true, false, not, ◌&&◌, ◌||◌, Option, none, some, ◌==◌, if◌then◌else◌,
}
use password_bonobo.Prelude.Bytes.{Bytes}
use password_bonobo.Errors.{
  Error, Result, ok, raise, storage_error, publication_failed, verification_failed, value_error,
  operation_error, external_modification, authentication_error, integrity_error,
  malformed_vault_error, unsupported_format_error, incompatible_export_error, resource_limit_error,
  crypto_backend_error,
}
use password_bonobo.Storage.Evidence.{FileBaseline, PublishedFile}
use password_bonobo.Storage.Slots.{is_digest}
use password_bonobo.Storage.Action.{Action, pure, ◌>>=◌, ◌>>◌, attempt, get, change}
use password_bonobo.Storage.Files.{
  World, Store, hit, cleanup, open_file, unlink, capture_anchor_child, remove_if_same,
}
use password_bonobo.Storage.Recovery.{RecoveryArtifact, child, vault_locator, restore_recovery_slot}
use password_bonobo.Storage.Transaction.{Staged, Transaction, started, act, note_result}
use password_bonobo.Storage.Publish.{Request, body, is_staged, published_file, pop_pending}

-- `_CommittedPublicationError` carries the evidence.
pub data Outcome : Type 0 where
  returned committed : PublishedFile → Outcome
  failed : Error → Outcome

abbrev pub is_none {ℓ} : {A : Type ℓ} → Option A → Bool
is_none none = true
is_none (some a) = false

-- The evidence of a destination that was replaced before a later step failed.
abbrev pub find_evidence : Store → Request → Staged → Action Transaction (Unit {0})
find_evidence store q staged = do
  observed ← act (capture_anchor_child store q.destination)
  t ← get
  if is_staged q staged observed
      then change (note_result (published_file q.destination observed t.progress.new_recovery))
      else pure tt

abbrev pub evidence_of : Store → Request → Option Staged → Action Transaction (Unit {0})
evidence_of store q none = pure tt
evidence_of store q (some staged) = attempt (find_evidence store q staged) (λ e. pure tt)

abbrev pub recover_evidence : Store → Request → Action Transaction (Unit {0})
recover_evidence store q t =
    if t.progress.replaced && is_none t.progress.result
    then evidence_of store q t.progress.staged t
    else (ok tt, t)

-- `remove_if_same` of the anchor, on the staged file.
abbrev pub remove_child : Staged → Action World Bool
remove_child staged =
    attempt
      (do
        named ← open_file staged.path
        if named.inode == staged.identity then (unlink staged.path >> pure true) else pure false)
      (λ e. pure false)

abbrev pub removed_staged : Option Staged → Bool → Action World Bool
removed_staged none replaced = pure false
removed_staged (some staged) true = pure false
removed_staged (some staged) false = do
  removed ← remove_child staged
  pop_pending staged.path
  pure (not removed)

abbrev pub removed_recovery :
    Store → Bytes → Transaction → Option RecoveryArtifact → Action World Bool
removed_recovery store destination t none = pure false
removed_recovery store destination t (some recovery) =
    if is_none t.progress.result && not t.progress.replaced
    then (do
      restored ←
          restore_recovery_slot store (vault_locator store destination) t.progress.previous_slot
      removed ←
          remove_if_same store (child store.recovery_directory recovery.revision.identifier)
            recovery.baseline
      pure (not restored || not removed))
    else pure false

-- `else` of the fault of `cleanup`, which is the only one that the stage raises.
abbrev pub removed_unless : Store → Request → FileBaseline → Bool → Action World Bool
removed_unless store q baseline true = pure true
removed_unless store q baseline false = do
  removed ← remove_if_same store q.source baseline
  pure (not removed)

abbrev pub removed_source : Store → Request → Option FileBaseline → Action World Bool
removed_source store q none = pure false
removed_source store q (some baseline) =
    if q.consume_source
    then attempt (hit cleanup >> pure false) (λ e. pure true) >>= removed_unless store q baseline
    else pure false

-- The `finally` clause; the result tells whether a cleanup failed.
unfoldable pub clean_up : Store → Request → Action Transaction Bool
unfolding act hit open_file unlink capture_anchor_child remove_if_same restore_recovery_slot
clean_up store q = do
  recover_evidence store q
  t ← get
  staged_failed ← act (removed_staged t.progress.staged t.progress.replaced)
  recovery_failed ← act (removed_recovery store q.destination t t.progress.new_recovery)
  source_failed ← act (removed_source store q t.progress.source_baseline)
  pure (staged_failed || recovery_failed || source_failed)

-- What an error of the transaction is raised as.
abbrev pub raised_as : Error → Error
raised_as (storage_error reason) = storage_error reason
raised_as (operation_error external_modification) = operation_error external_modification
raised_as (operation_error reason) = storage_error verification_failed
raised_as (authentication_error reason) = storage_error verification_failed
raised_as (integrity_error reason) = storage_error verification_failed
raised_as (malformed_vault_error reason) = storage_error verification_failed
raised_as (unsupported_format_error reason) = storage_error verification_failed
raised_as (incompatible_export_error reason) = storage_error verification_failed
raised_as (resource_limit_error reason) = storage_error verification_failed
raised_as (crypto_backend_error reason) = storage_error verification_failed
raised_as e = storage_error publication_failed

abbrev pub after_failure : Error → Bool → Option PublishedFile → Outcome
after_failure e true (some published) = committed published
after_failure e true none = failed (raised_as e)
after_failure e false result = failed (raised_as e)

abbrev pub after_success : Option PublishedFile → Outcome
after_success none = failed (storage_error publication_failed)
after_success (some published) = returned published

-- An error of the `finally` clause itself is raised as it is.
abbrev pub conclude : Result (Unit {0}) → Result Bool → Transaction → Outcome
conclude failure (raise e) t = failed e
conclude (raise e) (ok cleanup_failed) t = after_failure e t.progress.replaced t.progress.result
conclude (ok done) (ok false) t = after_success t.progress.result
conclude (ok done) (ok true) t =
    after_failure (storage_error publication_failed) t.progress.replaced t.progress.result

abbrev pub settle : Result (Unit {0}) → Result Bool × Transaction → Outcome × World
settle failure (cleaned, t) = (conclude failure cleaned t, t.world)

abbrev pub run_body : Store → Request → Result (Unit {0}) × Transaction → Outcome × World
run_body store q (failure, t) = settle failure (clean_up store q t)

-- `_publish_source`
unfoldable pub publish_source : Store → Request → World → Outcome × World
unfolding body clean_up
publish_source store q w =
    if is_digest q.expected_sha256
    then run_body store q (body store q (started w))
    else (failed value_error, w)
