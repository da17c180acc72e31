-- ===== src/Storage/Publish/Laws/Place.antt =====
-- `publish_new_child` and `replace_child` of storage.py: the staged file is the destination's, or
-- nothing was done.
use password_bonobo.Prelude.{
  ◌≡◌, refl, false, Option, none, some, [], ◌∷◌, ◌!=◌, inl, inr, Bool-cases, Option-cases, arith,
}
use password_bonobo.Prelude.Bytes.{Bytes, bytes_eq, bytes_eq_refl}
use password_bonobo.Errors.{Result, ok, raise}
use password_bonobo.Storage.Evidence.{FileBaseline}
use password_bonobo.Storage.Action.{◌>>=◌, attempt}
use password_bonobo.Storage.Files.{World, File, open_file, link, unlink, rename}
use password_bonobo.Storage.Transaction.{Staged}
use password_bonobo.Storage.Publish.{put_in_place}

pub bytes_eq_swap : (xs ys : Bytes) → bytes_eq xs ys ≡ false → bytes_eq ys xs ≡ false
bytes_eq_swap [] [] h = h
bytes_eq_swap [] (y ∷ ys) h = refl
bytes_eq_swap (x ∷ xs) [] h = refl
bytes_eq_swap (x ∷ xs) (y ∷ ys) h = ground (arith, h, bytes_eq_swap xs ys)

abbrev pub NoneBefore : Option File → Option FileBaseline → Type 0
NoneBefore found none = found ≡ none
NoneBefore found (some baseline) = Unit {0}

-- What the replacement gives, from the world before it.
abbrev pub IsPlaced :
    Bytes → Staged → Option FileBaseline → World → Result (Unit {0}) × World → Type 0
IsPlaced d staged baseline w (ok done, v) =
    (f : File) × (w.files staged.path ≡ some f)
    × (v.files d ≡ some f)
    × NoneBefore (w.files d) baseline
IsPlaced d staged baseline w (raise e, v) = v.files d ≡ w.files d

module _ (d : Bytes) (staged : Staged) (apart : bytes_eq staged.path d ≡ false) (w : World) where
  pub put_in_place-IsPlaced :
      (baseline : Option FileBaseline)
      → IsPlaced d staged baseline w (put_in_place d staged baseline w)
  unfolding put_in_place ◌>>=◌ attempt open_file link unlink rename
  put_in_place-IsPlaced none = elim (Option-cases (w.files staged.path)) [
    | inl e ↦ rw e refl
    | inr (f, e) ↦ elim (Bool-cases (f.inode != staged.identity)) [
      | inl k ↦ rw (e, k) refl
      | inr k ↦ elim (Option-cases (w.files d)) [
        | inl n ↦
            rw (e, k, e, n, bytes_eq_swap staged.path d apart, e, apart, bytes_eq_refl d)
              (f, e, refl, n)
        | inr (g, n) ↦ rw (e, k, e, n) refl
      ]
    ]
  ]
  put_in_place-IsPlaced (some b) = elim (Option-cases (w.files staged.path)) [
    | inl e ↦ rw e refl
    | inr (f, e) ↦ elim (Bool-cases (f.inode != staged.identity)) [
      | inl k ↦ rw (e, k) refl
      | inr k ↦ rw (e, k, e, apart, bytes_eq_refl d) (f, e, refl, tt)
    ]
  ]
