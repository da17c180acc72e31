-- ===== src/Storage/Recovery/Laws.antt =====
-- The recovery artifacts and slots of storage.py leave a file outside the recovery directory as it
-- was.
use password_bonobo.Prelude.{
  ℕ, zero, suc, ◌≡◌, refl, Bool, true, false, Option, none, some, List, [], ◌∷◌, if◌then◌else◌,
  arith,
}
use password_bonobo.Prelude.Bytes.{Bytes, bytes_eq}
use password_bonobo.Errors.{Error}
use password_bonobo.Storage.Evidence.{FileBaseline}
use password_bonobo.Storage.Slots.{RecoverySlot}
use password_bonobo.Storage.Action.{Action, fail}
use password_bonobo.Storage.Files.{World, File, Store}
use password_bonobo.Storage.Files.Laws.{
  Leaves, then-Leaves, attempt-Leaves, check-Leaves, hit-Leaves, token_hex-Leaves,
  random_bytes-Leaves, open_file-Leaves, open_child-Leaves, capture_regular_file-Leaves,
  create_file-Leaves, write_file-Leaves, unlink-Leaves, copy_to-Leaves, remove_if_same-Leaves,
  link-Leaves, rename-Leaves,
}
use password_bonobo.Storage.Recovery.{
  RecoveryArtifact, child, unlink_if_there, copy_recovery, next_attempt, create_recovery,
  is_file_exists, missing_slot, slot_in, read_recovery_slot, write_recovery_slot, slot_not_restored,
  previous_slot_restored, restore_recovery_slot, recovery_artifact, not_cleaned, remove_obsolete,
  commit_recovery,
}

module _ (store : Store) (d : Bytes)
    (apart : (name : Bytes) → bytes_eq (child store.recovery_directory name) d ≡ false) where
  unlink_if_there-Leaves :
      (name : Bytes) → Leaves d (unlink_if_there (child store.recovery_directory name))
  unlink_if_there-Leaves name = attempt-Leaves d _ _ (unlink-Leaves d _ (apart name)) (λ e w. refl)

  copy_recovery-Leaves :
      (destination : Bytes) (baseline : FileBaseline) (identifier name : Bytes)
      → Leaves d (
          copy_recovery store destination baseline identifier (child store.recovery_directory name))
  unfolding copy_recovery
  copy_recovery-Leaves destination baseline identifier name =
      then-Leaves d _ _ (create_file-Leaves d _ (apart name)) (λ u.
        then-Leaves d _ _ (hit-Leaves d _) (λ u. then-Leaves d _ _ (open_child-Leaves d _) (λ file.
          then-Leaves d _ _ (copy_to-Leaves d _ (apart name) file) (λ u.
            then-Leaves d _ _ (hit-Leaves d _) (λ u.
              then-Leaves d _ _ (capture_regular_file-Leaves d _ _) (λ observed.
                then-Leaves d _ _ (check-Leaves d _ _) (λ u.
                  then-Leaves d _ _ (link-Leaves d _ _ (apart identifier)) (λ u.
                    then-Leaves d _ _ (unlink-Leaves d _ (apart name)) (λ u.
                      then-Leaves d _ _ (capture_regular_file-Leaves d _ _)
                        (λ published. then-Leaves d _ _ (check-Leaves d _ _) (λ u w. refl)))))))))))

  next_attempt-Leaves :
      (name : Bytes) (rest : Action World RecoveryArtifact)
      → Leaves d rest
      → (e : Error) → Leaves d (next_attempt (child store.recovery_directory name) rest e)
  next_attempt-Leaves name rest h e =
      then-Leaves d _ _ (unlink_if_there-Leaves name) (λ u. again (is_file_exists e))
    where
      again : (exists : Bool) → Leaves d (if exists then rest else fail e)
      again true w = h w
      again false w = refl

  pub create_recovery-Leaves :
      (destination : Bytes) (baseline : FileBaseline) (locator : Bytes) (attempts : ℕ)
      → Leaves d (create_recovery store destination baseline locator attempts)
  unfolding create_recovery
  create_recovery-Leaves destination baseline locator zero w = refl
  create_recovery-Leaves destination baseline locator (suc attempts) w =
      then-Leaves d _ _ (random_bytes-Leaves d _ _)
        (λ nonce. then-Leaves d _ _ (check-Leaves d _ _) (λ u.
          then-Leaves d _ _ (token_hex-Leaves d _) (λ token.
            attempt-Leaves d _ _ (copy_recovery-Leaves destination baseline _ _) (
              next_attempt-Leaves _ _
                (create_recovery-Leaves destination baseline locator attempts)))))
        w

  slot_in-Leaves : (found : Option File) → Leaves d (slot_in found)
  slot_in-Leaves none w = refl
  slot_in-Leaves (some file) w = then-Leaves d _ _ (λ w. refl) (λ slot w. refl) w

  missing_slot-Leaves : (e : Error) → Leaves d (missing_slot e)
  missing_slot-Leaves e w = ground arith

  pub read_recovery_slot-Leaves : (locator : Bytes) → Leaves d (read_recovery_slot store locator)
  unfolding read_recovery_slot
  read_recovery_slot-Leaves locator =
      then-Leaves d _ _
        (attempt-Leaves d _ _ (then-Leaves d _ _ (open_file-Leaves d _) (λ file w. refl))
          missing_slot-Leaves)
        slot_in-Leaves

  pub write_recovery_slot-Leaves :
      (locator : Bytes) (slot : RecoverySlot) → Leaves d (write_recovery_slot store locator slot)
  unfolding write_recovery_slot
  write_recovery_slot-Leaves locator slot = then-Leaves d _ _ (token_hex-Leaves d _) (λ token.
      attempt-Leaves d _ _
        (then-Leaves d _ _ (create_file-Leaves d _ (apart _)) (λ u.
          then-Leaves d _ _ (write_file-Leaves d _ (apart _) _)
            (λ u. rename-Leaves d _ _ (apart _) (apart _))))
        (λ e. then-Leaves d _ _ (unlink_if_there-Leaves _) (λ u w. refl)))

  previous_slot_restored-Leaves :
      (locator : Bytes) (previous : Option RecoverySlot)
      → Leaves d (previous_slot_restored store locator previous)
  previous_slot_restored-Leaves locator none w = unlink_if_there-Leaves _ w
  previous_slot_restored-Leaves locator (some slot) w = write_recovery_slot-Leaves locator slot w

  slot_not_restored-Leaves : (e : Error) → Leaves d (slot_not_restored e)
  slot_not_restored-Leaves e w = ground arith

  pub restore_recovery_slot-Leaves :
      (locator : Bytes) (previous : Option RecoverySlot)
      → Leaves d (restore_recovery_slot store locator previous)
  unfolding restore_recovery_slot
  restore_recovery_slot-Leaves locator previous =
      attempt-Leaves d _ _
        (then-Leaves d _ _ (previous_slot_restored-Leaves locator previous) (λ u w. refl))
        slot_not_restored-Leaves

  recovery_artifact-Leaves : (identifier : Bytes) → Leaves d (recovery_artifact store identifier)
  unfolding recovery_artifact
  recovery_artifact-Leaves identifier =
      then-Leaves d _ _ (check-Leaves d _ _)
        (λ u. then-Leaves d _ _ (capture_regular_file-Leaves d _ _) (λ baseline w. refl))

  not_cleaned-Leaves : (e : Error) → Leaves d (not_cleaned e)
  not_cleaned-Leaves e w = ground arith

  remove_obsolete-Leaves :
      (identifiers : List Bytes) (failed : Bool)
      → Leaves d (remove_obsolete store identifiers failed)
  unfolding remove_obsolete
  remove_obsolete-Leaves [] failed w = refl
  remove_obsolete-Leaves (x ∷ xs) failed w =
      then-Leaves d _ _
        (attempt-Leaves d _ _
          (then-Leaves d _ _ (recovery_artifact-Leaves x) (λ artifact.
            then-Leaves d _ _ (remove_if_same-Leaves d _ (apart x) _ _) (λ removed w. refl)))
          not_cleaned-Leaves)
        (λ f. remove_obsolete-Leaves xs _) w

  pub commit_recovery-Leaves :
      (locator : Bytes) (recovery : RecoveryArtifact) (slot : RecoverySlot)
      → Leaves d (commit_recovery store locator recovery slot)
  unfolding commit_recovery
  commit_recovery-Leaves locator recovery slot =
      then-Leaves d _ _ (remove_obsolete-Leaves slot.obsolete false) (λ failed.
        then-Leaves d _ _ (check-Leaves d _ _) (λ u. write_recovery_slot-Leaves locator _))
