-- ===== src/Storage/Publish/Laws/Prepare.antt =====
-- `_publish_source` of storage.py up to the replacement: what was checked.
use password_bonobo.Prelude.{◌≡◌, subst, Bool, true, false, Option, none, some}
use password_bonobo.Prelude.Bytes.{Bytes, bytes_eq}
use password_bonobo.Errors.{Error, Result, ok, raise, operation_error, external_modification}
use password_bonobo.Storage.Evidence.{FileBaseline, RecoveryRevision}
use password_bonobo.Storage.Slots.{RecoverySlot, transaction_recovery_slot}
use password_bonobo.Storage.Action.{Action, fail_if, change, from_result}
use password_bonobo.Storage.Action.Laws.{Meets, Triple, bind-Triple}
use password_bonobo.Storage.Files.{World, File, Store}
use password_bonobo.Storage.Files.Laws.{Leaves}
use password_bonobo.Storage.Recovery.{
  RecoveryArtifact, vault_locator, recovery_name_attempts, read_recovery_slot, create_recovery,
  write_recovery_slot,
}
use password_bonobo.Storage.Publish.Laws.Check.{
  IsFile, BaselineMet, check_file-Leaves, check_file-after,
}
use password_bonobo.Storage.Recovery.Laws.{
  create_recovery-Leaves, read_recovery_slot-Leaves, write_recovery_slot-Leaves,
}
use password_bonobo.Storage.Transaction.{
  Staged, Progress, Transaction, act, note_slot, note_recovery,
}
use password_bonobo.Storage.Publish.{Request, recover, recheck_baseline}
use password_bonobo.Storage.Publish.Laws.{
  IsVaultPath, Condition, AtPath, IsQuiet, act-Triple, always,
}

-- A staged file, of the expected digest, and nothing replaced.
pub record IsStaged (d : Bytes) (before : Option File) (expected : Bytes) (staged : Staged)
    (f : Option File) (p : Progress) : Type 0 where
  pub quiet : IsQuiet d before f p
  pub known : p.staged ≡ some staged
  pub sha256 : bytes_eq staged.baseline.sha256 expected ≡ true

-- What holds when the file is about to be replaced.
pub record IsPrepared (store : Store) (q : Request) (before : Option File) (staged : Staged)
    (t : Transaction) : Type 0 where
  pub ready :
      IsStaged q.destination before q.expected_sha256 staged
        (t.world.files q.destination)
        t.progress
  pub file : IsFile store (t.world.files staged.path) staged.baseline
  pub baseline : BaselineMet store before q.baseline

pub drop_left :
    {A : Type 0} (X : A → Transaction → Type 0) (P Q : Transaction → Type 0)
    (r : Result A × Transaction)
    → Meets (λ a t. X a t × P t) Q r
    → Meets (λ a. P) Q r
drop_left X P Q (ok a, t) h = h.1
drop_left X P Q (raise e, t) h = h

-- A condition that does not speak of the state.
pub given :
    {A : Type 0} (X : Type 0) (P : Transaction → Type 0) (m : Action Transaction A)
    (R : A → Transaction → Type 0) (Q : Transaction → Type 0)
    → (X → Triple P m R Q)
    → Triple (λ t. X × P t) m R Q
given X P m R Q h t k = h k.0 t k.1

pub check_step :
    (P Q : Transaction → Type 0) (b : Bool) (e : Error)
    → ((t : Transaction) → P t → Q t)
    → Triple P (fail_if b e) (λ u. P) Q
check_step P Q true e h t k = h t k
check_step P Q false e h t k = k

pub change-Triple :
    (d : Bytes) (K L : Condition) (Q : Transaction → Type 0) (f : Transaction → Transaction)
    → ((t : Transaction) → AtPath d K t → AtPath d L (f t))
    → Triple (AtPath d K) (change f) (λ u. AtPath d L) Q
change-Triple d K L Q f h t k = h t k

module _ (store : Store) (q : Request) (before : Option File)
    (h : IsVaultPath store q.destination) where
  abbrev d : Bytes
  d = q.destination

  abbrev pub Quiet : Transaction → Type 0
  Quiet = AtPath d (IsQuiet d before)

  abbrev pub Ready : Staged → Transaction → Type 0
  Ready staged = AtPath d (IsStaged d before q.expected_sha256 staged)

  -- Steps that leave the destination, before and behind the staging.
  pub Quiet-step :
      {A : Type 0} (m : Action World A) → Leaves d m → Triple Quiet (act m) (λ a. Quiet) Quiet
  Quiet-step m k t c = drop_left _ _ _ (act m t) (
      act-Triple d (IsQuiet d before) (IsQuiet d before) m (λ a w. Unit {0}) k (always m)
        (λ f p x. x) t c)

  pub Ready-giving :
      {A : Type 0} (staged : Staged) (m : Action World A) (R : A → World → Type 0)
      → Leaves d m
      → ((w : World) → Meets R (λ v. Unit {0}) (m w))
      → Triple (Ready staged) (act m) (λ a t. R a t.world × Ready staged t) Quiet
  Ready-giving staged m R k g =
      act-Triple d (IsStaged d before q.expected_sha256 staged) (IsQuiet d before) m R k g
        (λ f p x. x.quiet)

  pub Ready-step :
      {A : Type 0} (staged : Staged) (m : Action World A)
      → Leaves d m
      → Triple (Ready staged) (act m) (λ a. Ready staged) Quiet
  Ready-step staged m k t c =
      drop_left _ _ _ (act m t) (Ready-giving staged m (λ a w. Unit {0}) k (always m) t c)

  recheck_baseline-giving :
      (staged : Staged) (b : FileBaseline)
      → Triple
          (Ready staged)
          (act (recheck_baseline store d b))
          (λ u t. IsFile store before (b) × Ready staged t)
          Quiet
  recheck_baseline-giving staged b t c = go (act (recheck_baseline store d b) t) (
      Ready-giving staged (recheck_baseline store d b) (λ u v. IsFile store (v.files d) b)
        (check_file-Leaves store d b _ d) (check_file-after store d b _) t c)
    where
      go :
          (r : Result (Unit {0}) × Transaction)
          → Meets (λ u t. IsFile store (t.world.files d) b × Ready staged t) Quiet r
          → Meets (λ u t. IsFile store before b × Ready staged t) Quiet r
      go (ok u, t) k = (subst (λ f. IsFile store f b) k.1.quiet.file k.0, k.1)
      go (raise e, t) k = k

  slot_step :
      (staged : Staged) (r : Result RecoverySlot)
      → Triple (Ready staged) (from_result r) (λ slot. Ready staged) Quiet
  slot_step staged (ok slot) t k = k
  slot_step staged (raise e) t k = k.quiet

  note_slot-Ready :
      (staged : Staged) (slot : Option RecoverySlot) (t : Transaction)
      → Ready staged t
      → Ready staged (note_slot slot t)
  note_slot-Ready staged slot t k = record {
    quiet = record {
      file = k.quiet.file;
      replaced = k.quiet.replaced;
      staged = k.quiet.staged;
      unnoted = k.quiet.unnoted;
    };
    known = k.known;
    sha256 = k.sha256;
  }

  note_recovery-Ready :
      (staged : Staged) (recovery : RecoveryArtifact) (t : Transaction)
      → Ready staged t
      → Ready staged (note_recovery recovery t)
  note_recovery-Ready staged recovery t k = record {
    quiet = record {
      file = k.quiet.file;
      replaced = k.quiet.replaced;
      staged = k.quiet.staged;
      unnoted = k.quiet.unnoted;
    };
    known = k.known;
    sha256 = k.sha256;
  }

  -- The recovery leaves the destination, and it was found to be the baseline.
  pub recover-Triple :
      (staged : Staged) (baseline : Option FileBaseline) (selected : Option RecoveryRevision)
      → Triple
          (Ready staged)
          (recover store d baseline selected)
          (λ slot t. BaselineMet store before baseline × Ready staged t)
          Quiet
  unfolding recover
  recover-Triple staged none selected t k = (tt, k)
  recover-Triple staged (some b) selected t k =
      bind-Triple _ _ _ _ _ _
        (Ready-step staged (recheck_baseline store d b)
          (check_file-Leaves store d b (operation_error external_modification) d))
        (λ u.
          bind-Triple _ _ _ _ _ _
            (Ready-step staged (read_recovery_slot store (vault_locator store d))
              (read_recovery_slot-Leaves store d h.recovery (vault_locator store d)))
            (λ previous.
              bind-Triple _ _ _ (λ u. Ready staged) _ _ (λ t k. note_slot-Ready staged previous t k)
                (λ u.
                  bind-Triple _ _ _ _ _ _
                    (Ready-step staged
                      (create_recovery store d b (vault_locator store d) recovery_name_attempts)
                      (create_recovery-Leaves store d h.recovery d b (vault_locator store d)
                        recovery_name_attempts))
                    (λ recovery.
                      bind-Triple _ _ _ (λ u. Ready staged) _ _
                        (λ t k. note_recovery-Ready staged recovery t k)
                        (λ u.
                          bind-Triple _ _ _ (λ slot. Ready staged) _ _
                            (slot_step staged (
                              transaction_recovery_slot recovery.revision.identifier previous
                                selected))
                            (λ slot.
                              bind-Triple _ _ _ _ _ _
                                (Ready-step staged
                                  (write_recovery_slot store (vault_locator store d) slot)
                                  (write_recovery_slot-Leaves store d h.recovery
                                    (vault_locator store d) slot))
                                (λ u.
                                  bind-Triple _ _ _ _ _ _ (recheck_baseline-giving staged b)
                                    (λ u t k. k))))))))
        t k
