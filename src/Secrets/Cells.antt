-- ===== src/Secrets/Cells.antt =====
-- The store of bytearrays of secrets.py: what a wipe changes and what it leaves.
use password_bonobo.Prelude.{
  ℕ, zero, suc, ◌<◌, ◌≡◌, ◌≢◌, refl, ap, [], ◌∷◌, ◌++◌, length, replicate, All, arith,
}
use password_bonobo.Prelude.Bytes.{Bytes}
use password_bonobo.Secrets.{Store, contents, wipe}

pub AllZero : Bytes → Type 0
AllZero content = All (λ b. b ≡ 0) content

replicate-AllZero : (n : ℕ) → AllZero (replicate n 0)
unfolding AllZero
replicate-AllZero zero = tt
replicate-AllZero (suc n) = (refl, replicate-AllZero n)

-- A new bytearray stands behind the ones there are.
pub contents-append :
    (cells more : Store) (n : ℕ) → n < length cells → contents (cells ++ more) n ≡ contents cells n
unfolding contents
contents-append [] more n h = absurd (omega (arith, h))
contents-append (cell ∷ cells) more zero h = refl
contents-append (cell ∷ cells) more (suc n) h = contents-append cells more n (omega (arith, h))

pub contents-new :
    (cells : Store) (content : Bytes) → contents (cells ++ (content ∷ [])) (length cells) ≡ content
unfolding contents
contents-new [] content = refl
contents-new (cell ∷ cells) content = contents-new cells content

pub length-wipe : (cells : Store) (n : ℕ) → length (wipe cells n) ≡ length cells
unfolding wipe
length-wipe [] n = refl
length-wipe (cell ∷ cells) zero = refl
length-wipe (cell ∷ cells) (suc n) = ap suc (length-wipe cells n)

pub contents-wipe : (cells : Store) (n : ℕ) → AllZero (contents (wipe cells n) n)
unfolding contents wipe AllZero
contents-wipe [] n = tt
contents-wipe (cell ∷ cells) zero = replicate-AllZero (length cell)
contents-wipe (cell ∷ cells) (suc n) = contents-wipe cells n

pub contents-wipe_other :
    (cells : Store) (n m : ℕ) → n ≢ m → contents (wipe cells n) m ≡ contents cells m
unfolding contents wipe
contents-wipe_other [] n m h = refl
contents-wipe_other (cell ∷ cells) zero zero h = absurd (h refl)
contents-wipe_other (cell ∷ cells) zero (suc m) h = refl
contents-wipe_other (cell ∷ cells) (suc n) zero h = refl
contents-wipe_other (cell ∷ cells) (suc n) (suc m) h =
    contents-wipe_other cells n m (λ e. h (ap suc e))

-- What is wiped stays wiped, whatever is wiped next.
pub contents-wipe_zero :
    (cells : Store) (n m : ℕ) → AllZero (contents cells m) → AllZero (contents (wipe cells n) m)
unfolding contents wipe AllZero
contents-wipe_zero [] n m h = tt
contents-wipe_zero (cell ∷ cells) zero zero h = replicate-AllZero (length cell)
contents-wipe_zero (cell ∷ cells) zero (suc m) h = h
contents-wipe_zero (cell ∷ cells) (suc n) zero h = h
contents-wipe_zero (cell ∷ cells) (suc n) (suc m) h = contents-wipe_zero cells n m h
