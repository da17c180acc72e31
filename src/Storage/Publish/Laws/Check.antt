-- ===== src/Storage/Publish/Laws/Check.antt =====
-- A file that is captured again in storage.py, and what the check gives.
use password_bonobo.Prelude.{
  ◌≡◌, refl, sym, subst, true, false, not, Option, none, some, inl, inr, Bool-cases, Option-cases,
}
use password_bonobo.Prelude.Bytes.{Bytes}
use password_bonobo.Errors.{Error, Result, ok, raise}
use password_bonobo.Storage.Evidence.{FileBaseline}
use password_bonobo.Storage.Action.{Action, ◌>>=◌, fail_if}
use password_bonobo.Storage.Action.Laws.{Meets}
use password_bonobo.Storage.Files.{
  World, File, Store, same_baseline, too_large, baseline_of, open_child, capture_open_descriptor,
  capture_anchor_child,
}
use password_bonobo.Storage.Files.Laws.{
  Leaves, then-Leaves, check-Leaves, capture_anchor_child-Leaves,
}

-- A file that was captured as the baseline.
pub record IsFile (store : Store) (found : Option File) (baseline : FileBaseline) : Type 0 where
  pub file : File
  pub there : found ≡ some file
  pub small : too_large file ≡ false
  pub same : same_baseline (baseline_of store file) baseline ≡ true

abbrev pub BaselineMet : Store → Option File → Option FileBaseline → Type 0
BaselineMet store found none = Unit {0}
BaselineMet store found (some baseline) = IsFile store found baseline

-- A check of the file at a path against a baseline that passes.
module _ (store : Store) (path : Bytes) (baseline : FileBaseline) (e : Error) where
  abbrev pub check_file : Action World (Unit {0})
  check_file = do
    observed ← capture_anchor_child store path
    fail_if (not (same_baseline observed baseline)) e

  pub check_file-Leaves : (d : Bytes) → Leaves d check_file
  check_file-Leaves d =
      then-Leaves d _ _ (capture_anchor_child-Leaves d _ _) (λ observed. check-Leaves d _ _)

  pub check_file-IsFile :
      (w : World)
      → Meets (λ u v. IsFile store (w.files path) baseline) (λ v. Unit {0}) (check_file w)
  unfolding ◌>>=◌ capture_anchor_child open_child capture_open_descriptor
  check_file-IsFile w = elim (Option-cases (w.files path)) [
    | inl k ↦ rw k tt
    | inr (f, k) ↦ elim (Bool-cases (too_large f)) [
      | inl l ↦ rw (k, l) tt
      | inr l ↦ elim (Bool-cases (same_baseline (baseline_of store f) baseline)) [
        | inl m ↦ rw (k, l, m) (record { file = f; there = refl; small = l; same = m })
        | inr m ↦ rw (k, l, m) tt
      ]
    ]
  ]

  pub check_file-after :
      (w : World)
      → Meets (λ u v. IsFile store (v.files path) baseline) (λ v. Unit {0}) (check_file w)
  check_file-after w = go (check_file w) (check_file-Leaves path w) (check_file-IsFile w)
    where
      go :
          (r : Result (Unit {0}) × World)
          → r.1.files path ≡ w.files path
          → Meets (λ u v. IsFile store (w.files path) baseline) (λ v. Unit {0}) r
          → Meets (λ u v. IsFile store (v.files path) baseline) (λ v. Unit {0}) r
      go (ok u, v) same h = subst (λ f. IsFile store f baseline) (sym same) h
      go (raise x, v) same h = tt
