-- ===== src/Storage/Publish/Laws/Replaced.antt =====
-- The `finally` clause of `_publish_source` of storage.py behind a replacement: it does not raise,
-- and the evidence is there.
use password_bonobo.Prelude.{
  ◌≡◌, refl, sym, subst, Bool, true, false, not, ◌&&◌, Option, none, some, if◌then◌else◌, arith,
}
use password_bonobo.Prelude.Bytes.{bytes_eq, bytes_eq_refl}
use password_bonobo.Errors.{Result, ok, raise}
use password_bonobo.Storage.Evidence.{FileBaseline, PublishedFile}
use password_bonobo.Storage.Action.{Action, ◌>>=◌, ◌>>◌, pure, attempt, handled, continue}
use password_bonobo.Storage.Action.Laws.{Meets, Triple, bind-Triple}
use password_bonobo.Storage.Files.{World, File, Store, hit, cleanup, baseline_of}
use password_bonobo.Storage.Files.Laws.{Leaves, remove_if_same-returns}
use password_bonobo.Storage.Recovery.{RecoveryArtifact}
use password_bonobo.Storage.Transaction.{Staged, Transaction, act, on_result, note_result}
use password_bonobo.Storage.Publish.{Request, is_staged, published_file}
use password_bonobo.Storage.Publish.Settle.{
  find_evidence, evidence_of, recover_evidence, removed_staged, removed_recovery, removed_source,
  removed_unless, clean_up, is_none,
}
use password_bonobo.Storage.Publish.Laws.{IsVaultPath}
use password_bonobo.Storage.Publish.Laws.Cleanup.{removed_source-Leaves, remove_all}
use password_bonobo.Storage.Publish.Laws.Finish.{
  IsDone, Done, Noted, done-IsEvidence, capture-done, note_result-Done,
}

-- No state: the action does not raise.
abbrev pub Never : {S : Type 0} → S → Type 0
Never s = ⊥

Never-attempt :
    {A : Type 0} (m : Action World A) (a : A) (w : World)
    → Meets (λ b v. Unit {0}) Never (attempt m (λ e. pure a) w)
unfolding attempt
Never-attempt {A = A} m a w = go (m w)
  where
    go : (r : Result A × World) → Meets (λ b v. Unit {0}) Never (handled (λ e. pure a) r)
    go (ok b, v) = tt
    go (raise e, v) = tt

removed_staged-Never :
    (staged : Option Staged) (replaced : Bool) (w : World)
    → replaced ≡ true
    → removed_staged staged replaced w ≡ (ok false, w)
removed_staged-Never none replaced w k = refl
removed_staged-Never (some staged) true w k = refl
removed_staged-Never (some staged) false w k = absurd (let e : false ≡ true = k in cc)

module _ (store : Store) (q : Request) (stage : Staged) (file : File) where
  removed_recovery-Never :
      (t : Transaction) (recovery : Option RecoveryArtifact) (w : World)
      → t.progress.replaced ≡ true
      → removed_recovery store q.destination t recovery w ≡ (ok false, w)
  removed_recovery-Never t none w k = refl
  removed_recovery-Never t (some recovery) w k =
      let no : (is_none t.progress.result && not t.progress.replaced) ≡ false = ground (arith, k) in
      rw no

  removed_source-Never :
      (baseline : Option FileBaseline) (w : World)
      → Meets (λ b v. Unit {0}) Never (removed_source store q baseline w)
  unfolding ◌>>=◌
  removed_source-Never none w = tt
  removed_source-Never (some baseline) w = go q.consume_source
    where
      unless :
          (faulted : Bool) (v : World)
          → Meets (λ b u. Unit {0}) Never (removed_unless store q baseline faulted v)
      unless true v = tt
      unless false v =
          let (b, u, e) = remove_if_same-returns store q.source baseline v in
          subst (λ r. Meets (λ b u. Unit {0}) Never (continue (λ removed. pure (not removed)) r))
            (sym e) tt

      go :
          (consume : Bool)
          → Meets
              (λ b v. Unit {0})
              Never
              ((if consume
                  then attempt (hit cleanup >> pure false) (λ e. pure true)
                    >>= removed_unless store q baseline
                  else pure false)
                w)
      go true =
          bind-Triple (λ v. Unit {0}) (attempt (hit cleanup >> pure false) (λ e. pure true))
            (removed_unless store q baseline) (λ b v. Unit {0}) (λ b v. Unit {0}) Never
            (λ v k. Never-attempt _ true v) (λ b v k. unless b v) w tt
      go false = tt

  -- A step of the world that does not raise, and leaves the destination.
  Noted-step :
      {A : Type 0} (m : Action World A)
      → Leaves q.destination m
      → ((w : World) → Meets (λ b v. Unit {0}) Never (m w))
      → Triple (Noted store q stage file) (act m) (λ a. Noted store q stage file) Never
  unfolding act
  Noted-step {A = A} m leaves never t k = go (m t.world) (leaves t.world) (never t.world)
    where
      go :
          (r : Result A × World)
          → r.1.files q.destination ≡ t.world.files q.destination
          → Meets (λ b v. Unit {0}) Never r
          → Meets (λ a. Noted store q stage file) Never (on_result t.progress r)
      go (ok a, w) e n = (subst (λ f. IsDone store q stage file f t.progress) (sym e) k.0, k.1)
      go (raise x, w) e n = n

  -- The evidence is found where it was not noted.
  found :
      (t : Transaction)
      → Done store q stage file t
      → find_evidence store q stage t ≡ (
        ok tt,
        note_result
            (published_file q.destination (baseline_of store file) t.progress.new_recovery)
            t,
      )
  unfolding ◌>>=◌ act
  found t k =
      let e = done-IsEvidence store q stage file none k.same k.sha256 in
      let yes : is_staged q stage (baseline_of store file) ≡ true =
        ground (arith, k.same, bytes_eq_refl q.expected_sha256, e.observed) in
      rw (capture-done store q stage file t.world k.there k.small, yes)

  evidence_found :
      (t : Transaction) (staged : Option Staged)
      → staged ≡ some stage
      → Done store q stage file t
      → Meets (λ u. Noted store q stage file) Never (evidence_of store q staged t)
  unfolding attempt
  evidence_found t none e k = absurd (let bad : none ≡ some stage = e in cc)
  evidence_found t (some s) e k =
      let p = published_file q.destination (baseline_of store file) t.progress.new_recovery in
      let same : s ≡ stage = cc in
      subst
        (λ z.
          Meets (λ u. Noted store q stage file) Never
            (handled (λ e. pure tt) (find_evidence store q z t)))
        (sym same)
        (subst (λ r. Meets (λ u. Noted store q stage file) Never (handled (λ e. pure tt) r))
          (sym (found t k))
          (
            note_result-Done store q stage file p t
                (done-IsEvidence store q stage file t.progress.new_recovery k.same k.sha256) k,
            (p, refl),
          ))

  evidence-Done :
      Triple
        (Done store q stage file)
        (recover_evidence store q)
        (λ u. Noted store q stage file)
        Never
  evidence-Done t k = go t.progress.result refl
    where
      go :
          (result : Option PublishedFile)
          → t.progress.result ≡ result
          → Meets
              (λ u. Noted store q stage file)
              Never
              (if t.progress.replaced && is_none result
                then evidence_of store q t.progress.staged t
                else (ok tt, t))
      go none e =
          subst
            (λ b.
              Meets (λ u. Noted store q stage file) Never
                (if b && true then evidence_of store q t.progress.staged t else (ok tt, t)))
            (sym k.replaced) (evidence_found t t.progress.staged k.known k)
      go (some p) e =
          subst
            (λ b.
              Meets (λ u. Noted store q stage file) Never
                (if b && false then evidence_of store q t.progress.staged t else (ok tt, t)))
            (sym k.replaced) (k, (p, e))

  returns :
      {A : Type 0} (m : Action World A) (a : A)
      → ((w : World) → m w ≡ (ok a, w))
      → Triple (Noted store q stage file) (act m) (λ b. Noted store q stage file) Never
  unfolding act
  returns m a e t k =
      subst (λ r. Meets (λ b. Noted store q stage file) Never (on_result t.progress r))
        (sym (e t.world)) k

  -- Where the staged file was put in place, the evidence is noted, and nothing raises.
  pub clean_up-Noted :
      IsVaultPath store q.destination
      → bytes_eq q.source q.destination ≡ false
      → Triple (Done store q stage file) (clean_up store q) (λ b. Noted store q stage file) Never
  unfolding clean_up
  clean_up-Noted h apart = bind-Triple _ _ _ _ _ _ evidence-Done (λ u.
      bind-Triple _ _ _ (λ a t. Noted store q stage file a × Noted store q stage file t) _ _
        (λ t k. (k, k)) (λ a t k. removed a k.0 t k.1))
    where
      removed :
          (a : Transaction)
          → Noted store q stage file a
          → Triple
              (Noted store q stage file)
              (remove_all store q h apart a)
              (λ b. Noted store q stage file)
              Never
      removed a k =
          bind-Triple _ _ _ _ _ _
            (returns (removed_staged a.progress.staged a.progress.replaced) false
              (λ w. removed_staged-Never a.progress.staged a.progress.replaced w k.0.replaced))
            (λ s.
              bind-Triple _ _ _ _ _ _
                (returns (removed_recovery store q.destination a a.progress.new_recovery) false
                  (λ w. removed_recovery-Never a a.progress.new_recovery w k.0.replaced))
                (λ r.
                  bind-Triple _ _ _ _ _ _
                    (Noted-step (removed_source store q a.progress.source_baseline)
                      (removed_source-Leaves store q h apart a.progress.source_baseline)
                      (removed_source-Never a.progress.source_baseline))
                    (λ c t k. k)))
