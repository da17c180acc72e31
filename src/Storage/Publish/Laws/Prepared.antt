-- ===== src/Storage/Publish/Laws/Prepared.antt =====
-- `_publish_source` of storage.py up to the replacement: every step leaves the destination.
use password_bonobo.Prelude.{◌≡◌, refl, subst, sym, false, Option, none, some, arith, ◌++◌}
use password_bonobo.Prelude.Bytes.{Bytes, bytes_eq}
use password_bonobo.Errors.{Result, ok, raise, storage_error, verification_failed}
use password_bonobo.Storage.Evidence.{FileBaseline}
use password_bonobo.Storage.Slots.{RecoverySlot}
use password_bonobo.Storage.Action.{Action, ◌>>=◌, ◌>>◌, pure}
use password_bonobo.Storage.Action.Laws.{Meets, Triple, bind-Triple, fail_if-Triple}
use password_bonobo.Storage.Files.{
  World, File, Store, hit, reopen, compare, lock, baseline_recheck, replace, capture_regular_file,
}
use password_bonobo.Storage.Files.Laws.{
  Leaves, then-Leaves, check-Leaves, hit-Leaves, open_file-Leaves, open_child-Leaves,
  capture_open-Leaves, capture_regular_file-Leaves, create_file-Leaves,
}
use password_bonobo.Storage.Recovery.{child, vault_locator}
use password_bonobo.Storage.Transaction.{
  Staged, Transaction, act, on_result, note_source, note_staged,
}
use password_bonobo.Storage.Publish.{
  Request, Validator, prepare, recover, recheck_staged, retain_staged, validate, lock_destination,
  lock_found, lock_suffix, stage_candidate, open_publication_destination,
}
use password_bonobo.Storage.Publish.Laws.{
  IsVaultPath, IsQuiet, act-Triple, stage_candidate-Leaves, stage_candidate-Gives,
}
use password_bonobo.Storage.Publish.Laws.Check.{IsFile, check_file-Leaves, check_file-after}
use password_bonobo.Storage.Publish.Laws.Prepare.{
  IsStaged, IsPrepared, Quiet, Ready, given, check_step, Quiet-step, Ready-giving, Ready-step,
  recover-Triple,
}

validate-Leaves :
    (d : Bytes) (validator : Validator) (path : Bytes) → Leaves d (validate validator path)
validate-Leaves d validator path = then-Leaves d _ _ (open_file-Leaves d path) (λ file w. refl)

retain-Leaves :
    (d : Bytes) (store : Store) (staged : Staged) → Leaves d (retain_staged store staged)
retain-Leaves d store staged = then-Leaves d _ _ (open_child-Leaves d staged.path) (λ file.
    then-Leaves d _ _ (check-Leaves d _ _)
      (λ u. then-Leaves d _ _ (capture_open-Leaves d store file) (λ observed. check-Leaves d _ _)))

module _ (store : Store) (q : Request) (before : Option File)
    (h : IsVaultPath store q.destination) where
  lock_found-Leaves :
      (name : Bytes) (found : Option File)
      → Leaves q.destination (lock_found (child store.working_directory name) found)
  lock_found-Leaves name none w = create_file-Leaves q.destination _ (h.working name) w
  lock_found-Leaves name (some file) w = refl

  lock_destination-Leaves : Leaves q.destination (lock_destination store q.destination)
  unfolding lock_destination
  lock_destination-Leaves w =
      let name = vault_locator store q.destination ++ lock_suffix in
      lock_found-Leaves name (w.files (child store.working_directory name)) w

  -- The last fault stage does not change a file.
  hit_last :
      (staged : Staged)
      → Triple
          (λ t.
            IsFile store (t.world.files staged.path) staged.baseline
            × Ready store q before h staged t)
          (act (hit replace))
          (λ u t.
            IsFile store (t.world.files staged.path) staged.baseline
            × Ready store q before h staged t)
          (Quiet store q before h)
  unfolding act
  hit_last staged t k =
      go (hit replace t.world) (hit-Leaves staged.path replace t.world)
        (hit-Leaves q.destination replace t.world)
    where
      go :
          (r : Result (Unit {0}) × World)
          → r.1.files staged.path ≡ t.world.files staged.path
          → r.1.files q.destination ≡ t.world.files q.destination
          → Meets
              (λ u t.
                IsFile store (t.world.files staged.path) staged.baseline
                × Ready store q before h staged t)
              (Quiet store q before h)
              (on_result t.progress r)
      go (ok u, w) a b = (
        subst (λ f. IsFile store f staged.baseline) (sym a) k.0,
        subst (λ f. IsStaged q.destination before q.expected_sha256 staged f t.progress) (sym b)
            k.1,
      )
      go (raise e, w) a b = subst (λ f. IsQuiet q.destination before f t.progress) (sym b) k.1.quiet

  -- The steps behind the staging, up to the recovery, and from it.
  abbrev from_recovery : Staged → Action Transaction (Staged × Option RecoverySlot)
  from_recovery staged = do
    slot ← recover store q.destination q.baseline q.selected_recovery
    act (recheck_staged store staged)
    act (hit replace)
    pure (staged, slot)

  abbrev Prepared : Staged × Option RecoverySlot → Transaction → Type 0
  Prepared p = IsPrepared store q before p.0

  from_recovery-Triple :
      (staged : Staged)
      → Triple
          (Ready store q before h staged)
          (from_recovery staged)
          Prepared
          (Quiet store q before h)
  from_recovery-Triple staged =
      bind-Triple _ _ _ _ _ _
        (recover-Triple store q before h staged q.baseline q.selected_recovery)
        (λ slot. given _ _ _ Prepared (Quiet store q before h) (λ met.
          bind-Triple _ _ _ _ Prepared _
            (Ready-giving store q before h staged (recheck_staged store staged)
              (λ u w. IsFile store (w.files staged.path) staged.baseline)
              (check_file-Leaves store staged.path staged.baseline
                (storage_error verification_failed) q.destination)
              (check_file-after store staged.path staged.baseline
                (storage_error verification_failed)))
            (λ u.
              bind-Triple _ _ _ _ Prepared _ (hit_last staged)
                (λ u t k. record { ready = k.1; file = k.0; baseline = met }))))

  abbrev from_staging : Staged → Action Transaction (Staged × Option RecoverySlot)
  from_staging staged = do
    act (hit reopen)
    act (validate q.validator staged.path)
    act (hit compare)
    act (recheck_staged store staged)
    act (retain_staged store staged)
    act (hit lock)
    act (lock_destination store q.destination)
    act (hit baseline_recheck)
    from_recovery staged

  from_staging-Triple :
      (staged : Staged)
      → Triple
          (Ready store q before h staged)
          (from_staging staged)
          Prepared
          (Quiet store q before h)
  from_staging-Triple staged =
      let d = q.destination in
      bind-Triple _ _ _ _ _ _
        (Ready-step store q before h staged (hit reopen) (hit-Leaves d reopen))
        (λ u.
          bind-Triple _ _ _ _ _ _
            (Ready-step store q before h staged (validate q.validator staged.path)
              (validate-Leaves d q.validator staged.path))
            (λ u.
              bind-Triple _ _ _ _ _ _
                (Ready-step store q before h staged (hit compare) (hit-Leaves d compare))
                (λ u.
                  bind-Triple _ _ _ _ _ _
                    (Ready-step store q before h staged (recheck_staged store staged) (
                      check_file-Leaves store staged.path staged.baseline
                        (storage_error verification_failed) d))
                    (λ u.
                      bind-Triple _ _ _ _ _ _
                        (Ready-step store q before h staged (retain_staged store staged)
                          (retain-Leaves d store staged))
                        (λ u.
                          bind-Triple _ _ _ _ _ _
                            (Ready-step store q before h staged (hit lock) (hit-Leaves d lock))
                            (λ u.
                              bind-Triple _ _ _ _ _ _
                                (Ready-step store q before h staged (lock_destination store d)
                                  lock_destination-Leaves)
                                (λ u.
                                  bind-Triple _ _ _ _ _ _
                                    (Ready-step store q before h staged (hit baseline_recheck)
                                      (hit-Leaves d baseline_recheck))
                                    (λ u. from_recovery-Triple staged))))))))

  abbrev Known : Staged → Transaction → Type 0
  Known staged t = Quiet store q before h t × (t.progress.staged ≡ some staged)

  note_staged-Known :
      (staged : Staged) (t : Transaction)
      → bytes_eq staged.path q.destination ≡ false
      → Quiet store q before h t
      → Known staged (note_staged staged t)
  note_staged-Known staged t apart k =
      (record { file = k.file; replaced = k.replaced; staged = apart; unnoted = k.unnoted }, refl)

  note_source-Quiet :
      (baseline : FileBaseline) (t : Transaction)
      → Quiet store q before h t
      → Quiet store q before h (note_source baseline t)
  note_source-Quiet baseline t k = record {
    file = k.file;
    replaced = k.replaced;
    staged = k.staged;
    unnoted = k.unnoted;
  }

  -- Whatever raises before the replacement leaves the destination; else the staged file is the
  -- expected one, and the destination was the baseline.
  pub prepare-Triple :
      Triple (Quiet store q before h) (prepare store q) Prepared (Quiet store q before h)
  unfolding prepare
  prepare-Triple =
      let d = q.destination in
      bind-Triple _ _ _ _ _ _
        (Quiet-step store q before h (capture_regular_file store q.source)
          (capture_regular_file-Leaves d store q.source))
        (λ source.
          bind-Triple _ _ _ (λ u. Quiet store q before h) _ _ (λ t k. note_source-Quiet source t k)
            (λ u. bind-Triple _ _ _ _ _ _ (check_step _ _ _ _ (λ t k. k)) (λ u.
              bind-Triple _ _ _ _ _ _
                (Quiet-step store q before h (open_publication_destination d) (check-Leaves d _ _))
                (λ u.
                  bind-Triple _ _ _ _ _ _
                    (act-Triple d (IsQuiet d before) (IsQuiet d before)
                      (stage_candidate store d q.source)
                      (λ staged w. bytes_eq staged.path d ≡ false)
                      (stage_candidate-Leaves store d q.source h)
                      (stage_candidate-Gives store d q.source h) (λ f p k. k))
                    (λ staged.
                      bind-Triple _ _ _ (λ u. Known staged) _ _
                        (λ t k. note_staged-Known staged t k.0 k.1)
                        (λ u.
                          bind-Triple _ _ _ _ _ _ (fail_if-Triple (Known staged) _ _ _ (λ t k. k.0))
                            (λ u t k. from_staging-Triple staged t (record {
                              quiet = k.1.0;
                              known = k.1.1;
                              sha256 = ground (arith, k.0);
                            }))))))))
