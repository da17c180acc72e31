-- ===== src/Storage/Publish.antt =====
-- The body of `_publish_source` of storage.py, with `_stage_candidate`. The anchor and the descriptor
-- of the staged file stand for their paths.
pub mod Laws
pub mod Settle
use password_bonobo.Prelude.{
  ℕ, Bool, true, false, not, ◌&&◌, ◌||◌, Option, none, some, List, [], ◌∷◌, ◌++◌, length, ◌==◌,
  ◌!=◌, any, if◌then◌else◌,
}
use password_bonobo.Prelude.Bytes.{Bytes, bytes_eq}
use password_bonobo.Errors.{
  Error, Result, ok, raise, file_exists_error, file_not_found_error, os_error, storage_error,
  publication_failed, preparation_failed, verification_failed, operation_error,
  external_modification, authentication_error, integrity_error, malformed_vault_error,
  unsupported_format_error, incompatible_export_error, resource_limit_error, crypto_backend_error,
  injected_storage_fault_error,
}
use password_bonobo.Storage.Evidence.{FileBaseline, RecoveryRevision, PublishedFile}
use password_bonobo.Storage.Slots.{RecoverySlot, transaction_recovery_slot}
use password_bonobo.Storage.Action.{
  Action, pure, fail, ◌>>=◌, ◌>>◌, fail_if, from_result, attempt, get, change,
}
use password_bonobo.Storage.Files.{
  World, File, Store, hit, create, permission, write, file_sync, reopen, compare, lock,
  baseline_recheck, replace, directory_sync, published_verification, cleanup, token_hex,
  create_file, open_file, unlink, rename, link, capture_regular_file, capture_open_descriptor,
  capture_anchor_child, open_child, copy_to, same_baseline, remove_if_same, with_pending,
}
use password_bonobo.Storage.Transaction.{
  Staged, Progress, Transaction, started, act, note_source, note_staged, note_slot, note_recovery,
  note_replaced, note_result,
}
use password_bonobo.Storage.Recovery.{
  RecoveryArtifact, child, bonobo_prefix, vault_locator, recovery_name_attempts, create_recovery,
  read_recovery_slot, write_recovery_slot, restore_recovery_slot, commit_recovery,
  recovery_artifact, recovery_is_visible, recovery_revision,
}

-- `self._pending.pop(path, None)`
abbrev without_pending : Bytes → List (Bytes × FileBaseline) → List (Bytes × FileBaseline)
without_pending path [] = []
without_pending path ((p, b) ∷ rest) =
    let others = without_pending path rest in if bytes_eq p path then others else (p, b) ∷ others

abbrev pub pop_pending : Bytes → Action World (Unit {0})
pop_pending path = change (λ w. with_pending (without_pending path w.pending) w)

-- The parent of a path, and its last name.
unfoldable pub split_path : Bytes → Bytes × Bytes
split_path [] = ([], [])
split_path (c ∷ cs) =
    let rest = split_path cs in
    if any (λ b. b == 47) cs
    then (c ∷ rest.0, rest.1)
    else if c == 47
    then ([], cs)
    else ([], c ∷ cs)

-- ".publish"
abbrev publish_suffix : Bytes
publish_suffix = 46 ∷ 112 ∷ 117 ∷ 98 ∷ 108 ∷ 105 ∷ 115 ∷ 104 ∷ []

-- ".lock"
abbrev lock_suffix : Bytes
lock_suffix = 46 ∷ 108 ∷ 111 ∷ 99 ∷ 107 ∷ []

unfoldable pub staged_path : Bytes → Bytes → Bytes
unfolding split_path
staged_path destination token =
    child (split_path destination).0 (bonobo_prefix ++ token ++ publish_suffix)

-- A name that exists makes `create_persistent` return `None`.
abbrev pub not_created : Error → Action World (Unit {0})
not_created file_exists_error = fail (storage_error preparation_failed)
not_created e = fail e

-- The part of `_stage_candidate` behind the creation of the file.
abbrev pub fill_staged : Store → Bytes → Bytes → Action World Staged
fill_staged store source path = do
  hit permission
  hit write
  file ← open_file source
  copy_to file path
  hit file_sync
  copied ← open_child path
  baseline ← capture_open_descriptor store copied
  change (λ w. with_pending ((path, baseline) ∷ w.pending) w)
  pure (record { path = path; identity = copied.inode; baseline = baseline })

-- `_stage_candidate`
pub stage_candidate : Store → Bytes → Bytes → Action World Staged
unfolding staged_path
stage_candidate store destination source = do
  hit create
  token ← token_hex store
  attempt (create_file (staged_path destination token)) not_created
  attempt (fill_staged store source (staged_path destination token))
      (λ e. attempt (unlink (staged_path destination token)) (λ f. pure tt) >> fail e)

-- `_open_publication_destination`
abbrev pub open_publication_destination : Bytes → Action World (Unit {0})
open_publication_destination destination =
    fail_if (length (split_path destination).1 == 0) (storage_error preparation_failed)

-- What a validator finds of the content of the file at the path that it is given.
abbrev pub Validator : Type 0
Validator = Bytes → Result (Unit {0})

abbrev pub validate : Validator → Bytes → Action World (Unit {0})
validate validator path = do file ← open_file path; from_result (validator file.content)

-- The destination is captured, and differs from its baseline if it was modified.
abbrev pub recheck_baseline : Store → Bytes → FileBaseline → Action World (Unit {0})
recheck_baseline store destination baseline = do
  observed ← capture_anchor_child store destination
  fail_if (not (same_baseline observed baseline)) (operation_error external_modification)

-- What is done for a baseline: the recovery artifact, and the slot of the transaction.
pub recover :
    Store
    → Bytes
    → Option FileBaseline
    → Option RecoveryRevision
    → Action Transaction (Option RecoverySlot)
unfolding act read_recovery_slot create_recovery write_recovery_slot vault_locator
recover store destination none selected = pure none
recover store destination (some baseline) selected =
    let locator = vault_locator store destination in
    do
      act (recheck_baseline store destination baseline)
      previous ← act (read_recovery_slot store locator)
      change (note_slot previous)
      recovery ← act (create_recovery store destination baseline locator recovery_name_attempts)
      change (note_recovery recovery)
      slot ← from_result (transaction_recovery_slot recovery.revision.identifier previous selected)
      act (write_recovery_slot store locator slot)
      act (recheck_baseline store destination baseline)
      pure (some slot)

-- The staged file is the one that was staged.
abbrev pub recheck_staged : Store → Staged → Action World (Unit {0})
recheck_staged store staged = do
  observed ← capture_anchor_child store staged.path
  fail_if (not (same_baseline observed staged.baseline)) (storage_error verification_failed)

-- `open_child_for_replace`, and the identity and evidence of what it opened.
abbrev pub retain_staged : Store → Staged → Action World (Unit {0})
retain_staged store staged = do
  file ← open_child staged.path
  fail_if (file.inode != staged.identity) (storage_error verification_failed)
  observed ← capture_open_descriptor store file
  fail_if (not (same_baseline observed staged.baseline)) (storage_error verification_failed)

abbrev lock_found : Bytes → Option File → Action World (Unit {0})
lock_found path none = create_file path
lock_found path (some file) = pure tt

-- `_destination_lock`: the lock file is there from then on.
pub lock_destination : Store → Bytes → Action World (Unit {0})
unfolding create_file vault_locator
lock_destination store destination w =
    let path = child store.working_directory (vault_locator store destination ++ lock_suffix) in
    lock_found path (w.files path) w

-- What a publication is asked for.
pub record Request : Type 0 where
  pub destination : Bytes
  pub source : Bytes
  pub expected_sha256 : Bytes
  pub baseline : Option FileBaseline
  pub consume_source : Bool
  pub selected_recovery : Option RecoveryRevision
  pub validator : Validator

-- The body of the transaction up to the replacement: the staged file, and the slot.
pub prepare : Store → Request → Action Transaction (Staged × Option RecoverySlot)
unfolding act hit stage_candidate recover
prepare store q = do
  source ← act (capture_regular_file store q.source)
  change (note_source source)
  fail_if (not (bytes_eq source.sha256 q.expected_sha256)) (storage_error verification_failed)
  act (open_publication_destination q.destination)
  staged ← act (stage_candidate store q.destination q.source)
  change (note_staged staged)
  fail_if (not (bytes_eq staged.baseline.sha256 q.expected_sha256))
      (storage_error verification_failed)
  act (hit reopen)
  act (validate q.validator staged.path)
  act (hit compare)
  act (recheck_staged store staged)
  act (retain_staged store staged)
  act (hit lock)
  act (lock_destination store q.destination)
  act (hit baseline_recheck)
  slot ← recover store q.destination q.baseline q.selected_recovery
  act (recheck_staged store staged)
  act (hit replace)
  pure (staged, slot)

-- The named child is the staged file.
abbrev pub recheck_identity : Staged → Action World (Unit {0})
recheck_identity staged = do
  named ← open_file staged.path
  fail_if (named.inode != staged.identity) (storage_error publication_failed)

abbrev already_there : Error → Action World (Unit {0})
already_there file_exists_error = fail (operation_error external_modification)
already_there e = fail e

-- `publish_new_child` where there is no baseline, and `replace_child`
pub put_in_place : Bytes → Staged → Option FileBaseline → Action World (Unit {0})
put_in_place destination staged none = do
  recheck_identity staged
  attempt (link staged.path destination) already_there
  unlink staged.path
put_in_place destination staged (some baseline) = do
  recheck_identity staged
  rename staged.path destination

-- The evidence of the publication.
abbrev pub published_file : Bytes → FileBaseline → Option RecoveryArtifact → PublishedFile
published_file destination baseline recovery = record {
  path = destination;
  size = baseline.size;
  sha256 = baseline.sha256;
  baseline = baseline;
  recovery = elim recovery [ none ↦ none | some artifact ↦ some artifact.revision ];
}

-- The captured destination is what was staged.
abbrev pub is_staged : Request → Staged → FileBaseline → Bool
is_staged q staged observed =
    bytes_eq observed.sha256 q.expected_sha256 && (observed.size == staged.baseline.size)

abbrev pub commit_new :
    Store → Bytes → Option RecoveryArtifact → Option RecoverySlot → Action World (Unit {0})
commit_new store locator none slot = pure tt
commit_new store locator (some recovery) none = pure tt
commit_new store locator (some recovery) (some slot) = commit_recovery store locator recovery slot

-- The body of the transaction behind the replacement.
pub finish : Store → Request → Staged → Option RecoverySlot → Action Transaction (Unit {0})
unfolding act hit vault_locator commit_recovery
finish store q staged slot = do
  act (pop_pending staged.path)
  act (hit directory_sync)
  act (hit published_verification)
  observed ← act (capture_anchor_child store q.destination)
  fail_if (not (is_staged q staged observed)) (storage_error verification_failed)
  t ← get
  act (commit_new store (vault_locator store q.destination) t.progress.new_recovery slot)
  change (note_result (published_file q.destination observed t.progress.new_recovery))

-- The body of `_publish_source` under `try`.
pub body : Store → Request → Action Transaction (Unit {0})
unfolding act prepare put_in_place finish
body store q = do
  (staged, slot) ← prepare store q
  act (put_in_place q.destination staged q.baseline)
  change note_replaced
  finish store q staged slot
