-- ===== src/Storage/Publish/Laws/Finish.antt =====
-- `_publish_source` of storage.py behind the replacement: the destination is the staged file.
use password_bonobo.Prelude.{◌≡◌, refl, sym, subst, ◌∙◌, true, false, Option, none, some, arith}
use password_bonobo.Prelude.Bytes.{bytes_eq, bytes_eq→eq}
use password_bonobo.Errors.{Result, ok, raise}
use password_bonobo.Storage.Evidence.{FileBaseline, PublishedFile}
use password_bonobo.Storage.Slots.{RecoverySlot}
use password_bonobo.Storage.Action.{Action, ◌>>=◌}
use password_bonobo.Storage.Action.Laws.{Meets, Triple, bind-Triple}
use password_bonobo.Storage.Files.{
  World, File, Store, hit, directory_sync, published_verification, baseline_of, same_baseline,
  too_large, open_child, capture_open_descriptor, capture_anchor_child,
}
use password_bonobo.Storage.Files.Laws.{Leaves, hit-Leaves}
use password_bonobo.Storage.Recovery.{RecoveryArtifact, vault_locator}
use password_bonobo.Storage.Recovery.Laws.{commit_recovery-Leaves}
use password_bonobo.Storage.Transaction.{Staged, Progress, Transaction, act, note_result}
use password_bonobo.Storage.Publish.{Request, finish, published_file, commit_new, pop_pending}
use password_bonobo.Storage.Publish.Laws.{IsVaultPath, AtPath, act-Triple, always}
use password_bonobo.Storage.Publish.Laws.Prepare.{check_step, drop_left}

-- The evidence of the file that stands at the destination.
pub record IsEvidence (store : Store) (q : Request) (file : File) (p : PublishedFile) : Type 0 where
  pub path : p.path ≡ q.destination
  pub baseline : p.baseline ≡ baseline_of store file
  pub size : p.size ≡ (baseline_of store file).size
  pub sha256 : p.sha256 ≡ q.expected_sha256
  pub observed : (baseline_of store file).sha256 ≡ q.expected_sha256

abbrev pub HasEvidence : Store → Request → File → Option PublishedFile → Type 0
HasEvidence store q file none = Unit {0}
HasEvidence store q file (some p) = IsEvidence store q file p

-- The staged file was put in place.
pub record IsDone (store : Store) (q : Request) (stage : Staged) (file : File) (f : Option File)
    (p : Progress) : Type 0 where
  pub there : f ≡ some file
  pub replaced : p.replaced ≡ true
  pub known : p.staged ≡ some stage
  pub small : too_large file ≡ false
  pub same : same_baseline (baseline_of store file) stage.baseline ≡ true
  pub sha256 : bytes_eq stage.baseline.sha256 q.expected_sha256 ≡ true
  pub result : HasEvidence store q file p.result

add_left :
    {A : Type 0} (X : Type 0) (P Q : Transaction → Type 0)
    → X
    → (r : Result A × Transaction) → Meets (λ a. P) Q r
    → Meets (λ a t. X × P t) Q r
add_left X P Q x (ok a, t) h = (x, h)
add_left X P Q x (raise e, t) h = h

module _ (store : Store) (q : Request) (stage : Staged) (file : File) where
  abbrev pub Done : Transaction → Type 0
  Done = AtPath q.destination (IsDone store q stage file)

  -- The evidence that is found agrees with what was staged.
  pub done-IsEvidence :
      (recovery : Option RecoveryArtifact)
      → same_baseline (baseline_of store file) stage.baseline ≡ true
      → bytes_eq stage.baseline.sha256 q.expected_sha256 ≡ true
      → IsEvidence store q file (published_file q.destination (baseline_of store file) recovery)
  done-IsEvidence recovery same sha =
      let a : bytes_eq (baseline_of store file).sha256 stage.baseline.sha256 ≡ true =
        ground (arith, same) in
      let b : (baseline_of store file).sha256 ≡ q.expected_sha256 =
        bytes_eq→eq (baseline_of store file).sha256 stage.baseline.sha256 a
        ∙ bytes_eq→eq stage.baseline.sha256 q.expected_sha256 sha in
      record { path = refl; baseline = refl; size = refl; sha256 = b; observed = b }

  -- A capture of the destination gives the evidence of the file.
  pub capture-done :
      (w : World)
      → w.files q.destination ≡ some file
      → too_large file ≡ false
      → capture_anchor_child store q.destination w ≡ (ok (baseline_of store file), w)
  unfolding capture_anchor_child open_child capture_open_descriptor ◌>>=◌
  capture-done w there small = rw (there, small) refl

  Done-giving :
      {A : Type 0} (m : Action World A) (R : A → World → Type 0)
      → Leaves q.destination m
      → ((w : World) → Meets R (λ v. Unit {0}) (m w))
      → Triple Done (act m) (λ a t. R a t.world × Done t) Done
  Done-giving m R k g =
      act-Triple q.destination (IsDone store q stage file) (IsDone store q stage file) m R k g
        (λ f p x. x)

  Done-step :
      {A : Type 0} (m : Action World A)
      → Leaves q.destination m
      → Triple Done (act m) (λ a. Done) Done
  Done-step m k t c = drop_left _ _ _ (act m t) (Done-giving m (λ a w. Unit {0}) k (always m) t c)

  commit_new-Leaves :
      IsVaultPath store q.destination
      → (recovery : Option RecoveryArtifact) (slot : Option RecoverySlot)
      → Leaves q.destination (commit_new store (vault_locator store q.destination) recovery slot)
  commit_new-Leaves h none slot w = refl
  commit_new-Leaves h (some recovery) none w = refl
  commit_new-Leaves h (some recovery) (some slot) w =
      commit_recovery-Leaves store q.destination h.recovery (vault_locator store q.destination)
        recovery slot w

  capture_step :
      Triple Done
        (act (capture_anchor_child store q.destination))
        (λ observed t. (observed ≡ baseline_of store file) × Done t)
        Done
  unfolding act
  capture_step t k = rw (capture-done t.world k.there k.small) (refl, k)

  pub note_result-Done :
      (p : PublishedFile) (t : Transaction)
      → IsEvidence store q file p
      → Done t
      → Done (note_result p t)
  note_result-Done p t e k = record {
    there = k.there;
    replaced = k.replaced;
    known = k.known;
    small = k.small;
    same = k.same;
    sha256 = k.sha256;
    result = e;
  }

  commit_step :
      IsVaultPath store q.destination
      → (observed : FileBaseline) (recovery : Option RecoveryArtifact) (slot : Option RecoverySlot)
      → Triple
          (λ t. (observed ≡ baseline_of store file) × Done t)
          (act (commit_new store (vault_locator store q.destination) recovery slot))
          (λ u t. (observed ≡ baseline_of store file) × Done t)
          Done
  commit_step h observed recovery slot t k =
      let m = commit_new store (vault_locator store q.destination) recovery slot in
      add_left (observed ≡ baseline_of store file) Done Done k.0 (act m t)
        (Done-step m (commit_new-Leaves h recovery slot) t k.1)

  -- The evidence was noted.
  abbrev pub Noted : Transaction → Type 0
  Noted t = Done t × ((p : PublishedFile) × (t.progress.result ≡ some p))

  -- Whatever raises behind the replacement, the staged file stands at the destination.
  pub finish-Triple :
      IsVaultPath store q.destination
      → (slot : Option RecoverySlot) → Triple Done (finish store q stage slot) (λ u. Noted) Done
  unfolding finish
  finish-Triple h slot =
      let d = q.destination in
      bind-Triple _ _ _ _ _ _ (Done-step (pop_pending stage.path) (λ w. refl)) (λ u.
        bind-Triple _ _ _ _ _ _ (Done-step (hit directory_sync) (hit-Leaves d directory_sync)) (λ u.
          bind-Triple _ _ _ _ _ _
            (Done-step (hit published_verification) (hit-Leaves d published_verification))
            (λ u. bind-Triple _ _ _ _ _ _ capture_step (λ observed.
              bind-Triple _ _ _ _ _ _ (check_step _ _ _ _ (λ t k. k.1)) (λ u.
                bind-Triple _ _ _ (λ a t. (observed ≡ baseline_of store file) × Done t) _ _
                  (λ t k. k)
                  (λ a.
                    bind-Triple _ _ _ (λ u t. (observed ≡ baseline_of store file) × Done t) _ _
                      (commit_step h observed a.progress.new_recovery slot)
                      (λ u t k.
                        let p = published_file d observed a.progress.new_recovery in
                        (
                          note_result-Done p t
                              (subst
                                (λ b.
                                  IsEvidence store q file
                                    (published_file d b a.progress.new_recovery))
                                (sym k.0)
                                (done-IsEvidence a.progress.new_recovery k.1.same k.1.sha256))
                              k.1,
                          (p, refl),
                        ))))))))
