-- ===== src/Storage/Publish/Laws/Cleanup.antt =====
-- The `finally` clause of `_publish_source` of storage.py: it leaves the destination, and it finds
-- the evidence of a file that was replaced.
use password_bonobo.Prelude.{
  ◌≡◌, refl, sym, subst, Bool, true, false, not, ◌&&◌, ◌||◌, Option, none, some, ◌==◌,
  if◌then◌else◌,
}
use password_bonobo.Prelude.Bytes.{bytes_eq}
use password_bonobo.Errors.{ok}
use password_bonobo.Storage.Evidence.{FileBaseline}
use password_bonobo.Storage.Action.{Action, ◌>>=◌, ◌>>◌, pure, attempt}
use password_bonobo.Storage.Action.Laws.{Meets, Triple, bind-Triple}
use password_bonobo.Storage.Files.{File, Store, hit, cleanup, unlink, remove_if_same}
use password_bonobo.Storage.Files.Laws.{
  Leaves, then-Leaves, attempt-Leaves, hit-Leaves, open_file-Leaves, unlink-Leaves,
  remove_if_same-Leaves,
}
use password_bonobo.Storage.Recovery.{RecoveryArtifact, child, vault_locator, restore_recovery_slot}
use password_bonobo.Storage.Recovery.Laws.{restore_recovery_slot-Leaves}
use password_bonobo.Storage.Transaction.{Staged, Transaction, act}
use password_bonobo.Storage.Publish.{Request}
use password_bonobo.Storage.Publish.Settle.{
  evidence_of, recover_evidence, removed_staged, removed_recovery, removed_source, removed_unless,
  clean_up, is_none,
}
use password_bonobo.Storage.Publish.Laws.{IsVaultPath, StagedApart}
use password_bonobo.Storage.Publish.Laws.Prepare.{Quiet, Quiet-step}

module _ (store : Store) (q : Request) (h : IsVaultPath store q.destination)
    (apart : bytes_eq q.source q.destination ≡ false) where
  removed_when-Leaves :
      (staged : Staged) (same : Bool)
      → bytes_eq staged.path q.destination ≡ false
      → Leaves q.destination (if same then (unlink staged.path >> pure true) else pure false)
  removed_when-Leaves staged true k w =
      then-Leaves q.destination _ _ (unlink-Leaves q.destination staged.path k) (λ u w. refl) w
  removed_when-Leaves staged false k w = refl

  removed_staged-Leaves :
      (staged : Option Staged) (replaced : Bool)
      → StagedApart q.destination staged
      → Leaves q.destination (removed_staged staged replaced)
  removed_staged-Leaves none replaced k w = refl
  removed_staged-Leaves (some staged) true k w = refl
  removed_staged-Leaves (some staged) false k w =
      let d = q.destination in
      then-Leaves d _ _
        (attempt-Leaves d _ _
          (then-Leaves d _ _ (open_file-Leaves d staged.path)
            (λ named. removed_when-Leaves staged (named.inode == staged.identity) k))
          (λ e w. refl))
        (λ removed. then-Leaves d _ _ (λ w. refl) (λ u w. refl)) w

  removed_recovery-Leaves :
      (t : Transaction) (recovery : Option RecoveryArtifact)
      → Leaves q.destination (removed_recovery store q.destination t recovery)
  removed_recovery-Leaves t none w = refl
  removed_recovery-Leaves t (some recovery) w =
      go (is_none t.progress.result && not t.progress.replaced) w
    where
      go :
          (b : Bool)
          → Leaves q.destination (
              if b
              then (do
                restored ←
                    restore_recovery_slot store
                      (vault_locator store q.destination)
                      t.progress.previous_slot
                removed ←
                    remove_if_same store
                      (child store.recovery_directory recovery.revision.identifier)
                      recovery.baseline
                pure (not restored || not removed))
              else pure false)
      go true w =
          let d = q.destination in
          then-Leaves d _ _
            (restore_recovery_slot-Leaves store d h.recovery (vault_locator store d)
              t.progress.previous_slot)
            (λ restored.
              then-Leaves d _ _
                (remove_if_same-Leaves d _ (h.recovery recovery.revision.identifier) store
                  recovery.baseline)
                (λ removed w. refl))
            w
      go false w = refl

  pub removed_source-Leaves :
      (baseline : Option FileBaseline) → Leaves q.destination (removed_source store q baseline)
  removed_source-Leaves none w = refl
  removed_source-Leaves (some baseline) w = go q.consume_source w
    where
      unless : (faulted : Bool) → Leaves q.destination (removed_unless store q baseline faulted)
      unless true w = refl
      unless false w =
          then-Leaves q.destination _ _ (remove_if_same-Leaves q.destination _ apart store baseline)
            (λ removed w. refl) w

      go :
          (consume : Bool)
          → Leaves q.destination (
              if consume
              then attempt (hit cleanup >> pure false) (λ e. pure true)
                >>= removed_unless store q baseline
              else pure false)
      go true w =
          let d = q.destination in
          then-Leaves d _ _
            (attempt-Leaves d _ _ (then-Leaves d _ _ (hit-Leaves d cleanup) (λ u w. refl))
              (λ e w. refl))
            unless w
      go false w = refl

  -- The steps behind the evidence, for the variables as they are then.
  abbrev pub remove_all : Transaction → Action Transaction Bool
  remove_all a = do
    staged_failed ← act (removed_staged a.progress.staged a.progress.replaced)
    recovery_failed ← act (removed_recovery store q.destination a a.progress.new_recovery)
    source_failed ← act (removed_source store q a.progress.source_baseline)
    pure (staged_failed || recovery_failed || source_failed)

  module _ (before : Option File) where
    evidence-Quiet :
        Triple
          (Quiet store q before h)
          (recover_evidence store q)
          (λ u. Quiet store q before h)
          (Quiet store q before h)
    evidence-Quiet t k =
        subst
          (λ b.
            Meets (λ u. Quiet store q before h) (Quiet store q before h)
              (if b && is_none t.progress.result
                then evidence_of store q t.progress.staged t
                else (ok tt, t)))
          (sym k.replaced) k

    -- Where nothing was replaced, the destination stays.
    pub clean_up-Quiet :
        Triple
          (Quiet store q before h)
          (clean_up store q)
          (λ b. Quiet store q before h)
          (Quiet store q before h)
    unfolding clean_up
    clean_up-Quiet = bind-Triple _ _ _ _ _ _ evidence-Quiet (λ u.
        bind-Triple _ _ _ (λ a t. Quiet store q before h a × Quiet store q before h t) _ _
          (λ t k. (k, k)) (λ a t k. removed_quiet a k.0 t k.1))
      where
        removed_quiet :
            (a : Transaction)
            → Quiet store q before h a
            → Triple
                (Quiet store q before h)
                (remove_all a)
                (λ b. Quiet store q before h)
                (Quiet store q before h)
        removed_quiet a k =
            bind-Triple _ _ _ _ _ _
              (Quiet-step store q before h (removed_staged a.progress.staged a.progress.replaced)
                (removed_staged-Leaves a.progress.staged a.progress.replaced k.staged))
              (λ s.
                bind-Triple _ _ _ _ _ _
                  (Quiet-step store q before h
                    (removed_recovery store q.destination a a.progress.new_recovery)
                    (removed_recovery-Leaves a a.progress.new_recovery))
                  (λ r.
                    bind-Triple _ _ _ _ _ _
                      (Quiet-step store q before h
                        (removed_source store q a.progress.source_baseline)
                        (removed_source-Leaves a.progress.source_baseline))
                      (λ c t k. k)))
