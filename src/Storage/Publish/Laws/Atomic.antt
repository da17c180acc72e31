-- ===== src/Storage/Publish/Laws/Atomic.antt =====
-- `_publish_source` of storage.py as a whole: the destination is what it was, or it is the candidate.
use password_bonobo.Prelude.{
  ◌≡◌, refl, sym, subst, Bool, true, false, Option, some, inl, inr, Bool-cases,
}
use password_bonobo.Prelude.Bytes.{bytes_eq}
use password_bonobo.Errors.{Error, Result, ok, raise, storage_error, publication_failed}
use password_bonobo.Storage.Evidence.{PublishedFile}
use password_bonobo.Storage.Slots.{is_digest}
use password_bonobo.Storage.Action.Laws.{Meets}
use password_bonobo.Storage.Files.{World, File, Store}
use password_bonobo.Storage.Transaction.{Staged, Transaction, started}
use password_bonobo.Storage.Publish.{Request, body}
use password_bonobo.Storage.Publish.Settle.{
  Outcome, returned, committed, failed, clean_up, publish_source, run_body, settle, after_failure,
  after_success,
}
use password_bonobo.Storage.Publish.Laws.{IsVaultPath}
use password_bonobo.Storage.Publish.Laws.Prepare.{Quiet}
use password_bonobo.Storage.Publish.Laws.Finish.{HasEvidence, Done, Noted}
use password_bonobo.Storage.Publish.Laws.Cleanup.{clean_up-Quiet}
use password_bonobo.Storage.Publish.Laws.Replaced.{Never, clean_up-Noted}
use password_bonobo.Storage.Publish.Laws.Body.{
  IsExpected, IsPublication, Placed, Ended, quiet, done, body-Triple,
}

-- A publication that is returned, or reported as committed, took place on what was expected; one
-- that failed left the destination.
abbrev pub IsAtomic : Store → Request → Option File → Outcome × World → Type 0
IsAtomic store q before (returned p, w) = IsPublication store q before p w
IsAtomic store q before (committed p, w) = IsPublication store q before p w
IsAtomic store q before (failed e, w) = w.files q.destination ≡ before

module _ (store : Store) (q : Request) (h : IsVaultPath store q.destination)
    (apart : bytes_eq q.source q.destination ≡ false) where
  IsPublication-of :
      (before : Option File) (stage : Staged) (file : File) (t : Transaction) (p : PublishedFile)
      → Done store q stage file t
      → t.progress.result ≡ some p
      → IsExpected store before q.baseline
      → IsPublication store q before p t.world
  IsPublication-of before stage file t p k e x = record {
    file = file;
    there = k.there;
    evidence = subst (HasEvidence store q file) e k.result;
    expected = x;
  }

  -- What is concluded from a body that failed where nothing was replaced.
  concluded-Quiet :
      (before : Option File) (e : Error) (r : Result Bool × Transaction)
      → Meets (λ b. Quiet store q before h) (Quiet store q before h) r
      → IsAtomic store q before (settle (raise e) r)
  concluded-Quiet before e (ok b, t) k =
      subst (λ b. IsAtomic store q before (after_failure e b t.progress.result, t.world))
        (sym k.replaced) k.file
  concluded-Quiet before e (raise x, t) k = k.file

  -- What is concluded where the staged file was put in place.
  concluded-Noted :
      (before : Option File) (stage : Staged) (file : File) (failure : Result (Unit {0}))
      → IsExpected store before q.baseline
      → (r : Result Bool × Transaction) → Meets (λ b. Noted store q stage file) Never r
      → IsAtomic store q before (settle failure r)
  concluded-Noted before stage file failure x (raise e, t) k = absurd k
  concluded-Noted before stage file (ok u) x (ok false, t) (k, (p, e)) =
      subst (λ o. IsAtomic store q before (after_success o, t.world)) (sym e)
        (IsPublication-of before stage file t p k e x)
  concluded-Noted before stage file (ok u) x (ok true, t) (k, (p, e)) =
      subst
        (λ b.
          IsAtomic store q before
            (after_failure (storage_error publication_failed) b t.progress.result, t.world))
        (sym k.replaced)
        (subst
          (λ o.
            IsAtomic store q before
              (after_failure (storage_error publication_failed) true o, t.world))
          (sym e) (IsPublication-of before stage file t p k e x))
  concluded-Noted before stage file (raise failure) x (ok b, t) (k, (p, e)) =
      subst (λ b. IsAtomic store q before (after_failure failure b t.progress.result, t.world))
        (sym k.replaced)
        (subst (λ o. IsAtomic store q before (after_failure failure true o, t.world)) (sym e)
          (IsPublication-of before stage file t p k e x))

  settled :
      (before : Option File) (r : Result (Unit {0}) × Transaction)
      → Meets
          (λ u. Placed store q h apart before (λ stage file. Noted store q stage file))
          (Ended store q h apart before)
          r
      → IsAtomic store q before (run_body store q r)
  settled before (ok u, t) k =
      concluded-Noted before k.stage k.file (ok u) k.expected (clean_up store q t)
        (clean_up-Noted store q k.stage k.file h apart t k.holds.0)
  settled before (raise e, t) (quiet k) =
      concluded-Quiet before e (clean_up store q t) (clean_up-Quiet store q h apart before t k)
  settled before (raise e, t) (done k) =
      concluded-Noted before k.stage k.file (raise e) k.expected (clean_up store q t)
        (clean_up-Noted store q k.stage k.file h apart t k.holds)

  -- At whatever stage a fault is armed, a publication to a path outside the store's directories,
  -- from another file, is all or nothing. If it returns, or reports that it committed, the file at
  -- the destination has the expected digest, the evidence is of that file, and the file before was
  -- captured as the baseline, or there was none where no baseline was given. If it fails, the
  -- destination has the file of before, or none.
  pub publish_source-IsAtomic :
      (w : World) → IsAtomic store q (w.files q.destination) (publish_source store q w)
  unfolding publish_source
  publish_source-IsAtomic w = elim (Bool-cases (is_digest q.expected_sha256)) [
    | inr e ↦ rw e refl
    | inl e ↦ rw e (
        settled (w.files q.destination) (body store q (started w)) (
          body-Triple store q h apart (w.files q.destination) (started w)
            (record { file = refl; replaced = refl; staged = tt; unnoted = refl })))
  ]
