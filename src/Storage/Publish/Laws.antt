-- ===== src/Storage/Publish/Laws.antt =====
-- `_publish_source` of storage.py up to the replacement: the destination is what it was, and the
-- candidate that is staged has the expected digest.
pub mod Place
pub mod Check
pub mod Prepare
pub mod Prepared
pub mod Finish
pub mod Cleanup
pub mod Replaced
pub mod Body
pub mod Atomic
use password_bonobo.Prelude.{
  ◌≡◌, refl, sym, subst, arith, ◌∙◌, Bool, true, false, Option, none, some,
}
use password_bonobo.Prelude.Bytes.{Bytes, bytes_eq}
use password_bonobo.Errors.{Error, Result, ok, raise}
use password_bonobo.Storage.Evidence.{FileBaseline}
use password_bonobo.Storage.Action.{Action, ◌>>=◌, continue, pure, attempt, handled}
use password_bonobo.Storage.Action.Laws.{Meets, Triple, bind-Triple, attempt-Triple}
use password_bonobo.Storage.Files.{World, File, Store, same_baseline, too_large, baseline_of}
use password_bonobo.Storage.Files.Laws.{
  Leaves, then-Leaves, attempt-Leaves, check-Leaves, hit-Leaves, token_hex-Leaves, open_file-Leaves,
  open_child-Leaves, capture_open-Leaves, create_file-Leaves, unlink-Leaves, copy_to-Leaves,
}
use password_bonobo.Storage.Recovery.{child}
use password_bonobo.Storage.Transaction.{Staged, Progress, Transaction, act, on_result}
use password_bonobo.Storage.Publish.{staged_path, fill_staged, stage_candidate, not_created}

-- The store's own directories are not those of the vault, and a staged name is not the vault's.
pub record IsVaultPath (store : Store) (d : Bytes) : Type 0 where
  pub recovery : (name : Bytes) → bytes_eq (child store.recovery_directory name) d ≡ false
  pub working : (name : Bytes) → bytes_eq (child store.working_directory name) d ≡ false
  pub staging : (token : Bytes) → bytes_eq (staged_path d token) d ≡ false

abbrev pub StagedApart : Bytes → Option Staged → Type 0
StagedApart d none = Unit {0}
StagedApart d (some staged) = bytes_eq staged.path d ≡ false

-- A condition on the file at the destination and on the local variables.
abbrev pub Condition : Type 1
Condition = Option File → Progress → Type 0

abbrev pub AtPath : Bytes → Condition → Transaction → Type 0
AtPath d K t = K (t.world.files d) t.progress

-- Nothing was replaced.
pub record IsQuiet (d : Bytes) (before f : Option File) (p : Progress) : Type 0 where
  pub file : f ≡ before
  pub replaced : p.replaced ≡ false
  pub staged : StagedApart d p.staged
  pub unnoted : p.result ≡ none

-- An action of the world that leaves the destination keeps what holds of it.
pub act-Triple :
    {A : Type 0} (d : Bytes) (K L : Condition) (m : Action World A) (R : A → World → Type 0)
    → Leaves d m
    → ((w : World) → Meets R (λ v. Unit {0}) (m w))
    → ((f : Option File) (p : Progress) → K f p → L f p)
    → Triple (AtPath d K) (act m) (λ a t. R a t.world × AtPath d K t) (AtPath d L)
unfolding act
act-Triple {A = A} d K L m R h k weaker t c = go (m t.world) (h t.world) (k t.world)
  where
    go :
        (r : Result A × World)
        → r.1.files d ≡ t.world.files d
        → Meets R (λ v. Unit {0}) r
        → Meets (λ a u. R a u.world × AtPath d K u) (AtPath d L) (on_result t.progress r)
    go (ok a, w) e x = (x, subst (λ f. K f t.progress) (sym e) c)
    go (raise x, w) e y = weaker (w.files d) t.progress (subst (λ f. K f t.progress) (sym e) c)

pub always :
    {A : Type 0} (m : Action World A) (w : World) → Meets (λ a v. Unit {0}) (λ v. Unit {0}) (m w)
always {A = A} m w = go (m w)
  where
    go : (r : Result A × World) → Meets (λ a v. Unit {0}) (λ v. Unit {0}) r
    go (ok a, v) = tt
    go (raise e, v) = tt

module _ (store : Store) (d source : Bytes) (h : IsVaultPath store d) where
  not_created-Leaves : (e : Error) → Leaves d (not_created e)
  not_created-Leaves e w = ground arith

  fill_staged-Leaves :
      (path : Bytes) → bytes_eq path d ≡ false → Leaves d (fill_staged store source path)
  fill_staged-Leaves path apart = then-Leaves d _ _ (hit-Leaves d _) (λ u.
      then-Leaves d _ _ (hit-Leaves d _) (λ u. then-Leaves d _ _ (open_file-Leaves d _) (λ file.
        then-Leaves d _ _ (copy_to-Leaves d _ apart file) (λ u.
          then-Leaves d _ _ (hit-Leaves d _) (λ u.
            then-Leaves d _ _ (open_child-Leaves d _) (λ copied.
              then-Leaves d _ _ (capture_open-Leaves d _ _)
                (λ baseline. then-Leaves d _ _ (λ w. refl) (λ u w. refl))))))))

  pub stage_candidate-Leaves : Leaves d (stage_candidate store d source)
  unfolding stage_candidate
  stage_candidate-Leaves = then-Leaves d _ _ (hit-Leaves d _) (λ u.
      then-Leaves d _ _ (token_hex-Leaves d _) (λ token.
        then-Leaves d _ _
          (attempt-Leaves d _ _ (create_file-Leaves d _ (h.staging token)) not_created-Leaves)
          (λ u. attempt-Leaves d _ _ (fill_staged-Leaves _ (h.staging token)) (λ e.
            then-Leaves d _ _
              (attempt-Leaves d _ _ (unlink-Leaves d _ (h.staging token)) (λ f w. refl))
              (λ u w. refl)))))

-- A condition on the result alone.
abbrev pub Gives : {A : Type 0} → (A → Type 0) → Action World A → Type 0
Gives R m = (w : World) → Meets (λ a v. R a) (λ v. Unit {0}) (m w)

pub then-Gives :
    {A B : Type 0} (R : B → Type 0) (m : Action World A) (next : A → Action World B)
    → ((a : A) → Gives R (next a))
    → Gives R (m >>= next)
unfolding ◌>>=◌
then-Gives {A = A} R m next k w = go (m w)
  where
    go : (r : Result A × World) → Meets (λ b v. R b) (λ v. Unit {0}) (continue next r)
    go (ok a, u) = k a u
    go (raise x, u) = tt

pub attempt-Gives :
    {A : Type 0} (R : A → Type 0) (m : Action World A) (handler : Error → Action World A)
    → Gives R m
    → ((e : Error) → Gives R (handler e))
    → Gives R (attempt m handler)
unfolding attempt
attempt-Gives {A = A} R m handler h k w = go (m w) (h w)
  where
    go :
        (r : Result A × World)
        → Meets (λ a v. R a) (λ v. Unit {0}) r
        → Meets (λ a v. R a) (λ v. Unit {0}) (handled handler r)
    go (ok a, u) e = e
    go (raise x, u) e = k x u

-- The staged file is not the destination.
module _ (store : Store) (d source : Bytes) (h : IsVaultPath store d) where
  pub stage_candidate-Gives :
      Gives (λ staged. bytes_eq staged.path d ≡ false) (stage_candidate store d source)
  unfolding stage_candidate
  stage_candidate-Gives = then-Gives _ _ _ (λ u. then-Gives _ _ _ (λ token. then-Gives _ _ _ (λ u.
      attempt-Gives _ _ _
        (then-Gives _ _ _ (λ u. then-Gives _ _ _ (λ u. then-Gives _ _ _ (λ file.
          then-Gives _ _ _ (λ u. then-Gives _ _ _ (λ u. then-Gives _ _ _ (λ copied.
            then-Gives _ _ _ (λ baseline. then-Gives _ _ _ (λ u w. h.staging token)))))))))
        (λ e. then-Gives _ _ _ (λ u w. tt)))))
