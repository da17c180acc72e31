-- ===== src/Prelude/Bits.antt =====
-- Exclusive or at variables: it cancels, and it keeps a byte a byte.
use Prim.Native.Nat.{
  ℕ, zero, suc, ◌+◌, ◌*◌, ◌/◌, ◌%◌, ◌^◌, ◌≤◌, ◌<◌, digits, differ, bit_xor, bit_xor-bitwise,
}
use mathlib.Core.Path.{◌≡◌, refl}
use native.Mathlib.Nat.{pow-suc}
use native.Mathlib.Omega.{arith}

differ_digits : (x y : ℕ) → x < 2 → y < 2 → differ x y ≡ (x + y) % 2
differ_digits zero zero p q = refl
differ_digits zero (suc zero) p q = refl
differ_digits (suc zero) zero p q = refl
differ_digits (suc zero) (suc zero) p q = refl
differ_digits (suc (suc x)) y p q = absurd (omega arith)
differ_digits zero (suc (suc y)) p q = absurd (omega arith)
differ_digits (suc zero) (suc (suc y)) p q = absurd (omega arith)

-- Exclusive or digit by digit, with fuel.
abbrev xor_digits : ℕ → ℕ → ℕ → ℕ
xor_digits = digits (λ d. d) differ

-- Any fuel that covers the first number gives the same digits.
xor_digits_fuel : (x y f g : ℕ) → (x ≤ f) × (x ≤ g) → xor_digits f x y ≡ xor_digits g x y
xor_digits_fuel (suc x) y (suc f) (suc g) h =
    let half = xor_digits_fuel (suc x / 2) (y / 2) f g (omega (arith, h.0), omega (arith, h.1)) in
    rw half
xor_digits_fuel (suc x) y f zero h = absurd (omega (arith, h.1))
xor_digits_fuel (suc x) y zero g h = absurd (omega (arith, h.0))
xor_digits_fuel zero y zero zero h = refl
xor_digits_fuel zero y zero (suc g) h = refl
xor_digits_fuel zero y (suc f) zero h = refl
xor_digits_fuel zero y (suc f) (suc g) h = refl

pub bit_xor_step : (a b : ℕ) → bit_xor a b ≡ bit_xor (a / 2) (b / 2) * 2 + (a % 2 + b % 2) % 2
bit_xor_step zero b = simp bit_xor-bitwise (omega arith)
bit_xor_step (suc a) b = simp bit_xor-bitwise (
    omega (
      arith,
      xor_digits_fuel (suc a / 2) (b / 2) a (suc a / 2) (omega arith, omega arith),
      differ_digits (suc a % 2) (b % 2) (omega arith) (omega arith),
    ))

xor_cancel_fuel : (n a b : ℕ) → a ≤ n → b ≤ n → bit_xor (bit_xor a b) b ≡ a
xor_cancel_fuel zero zero zero p q = refl
xor_cancel_fuel zero (suc a) b p q = absurd (omega arith)
xor_cancel_fuel zero zero (suc b) p q = absurd (omega arith)
xor_cancel_fuel (suc n) a b p q = omega (
  arith,
  bit_xor_step (bit_xor a b) b,
  halved,
  xor_cancel_fuel n (a / 2) (b / 2) (omega arith) (omega arith),
  bit_xor_step a b,
)
  where
    half : bit_xor a b / 2 ≡ bit_xor (a / 2) (b / 2)
    half = omega (arith, bit_xor_step a b)

    halved : bit_xor (bit_xor a b / 2) (b / 2) ≡ bit_xor (bit_xor (a / 2) (b / 2)) (b / 2)
    halved = rw half

-- Exclusive or with the same number twice gives the first number back.
pub bit_xor_cancel : (a b : ℕ) → bit_xor (bit_xor a b) b ≡ a
bit_xor_cancel a b = xor_cancel_fuel (a + b) a b (omega arith) (omega arith)

pub bit_xor-lt-pow : (k a b : ℕ) → a < 2 ^ k → b < 2 ^ k → bit_xor a b < 2 ^ k
bit_xor-lt-pow zero zero zero p q = omega arith
bit_xor-lt-pow zero (suc a) b p q = absurd (omega arith)
bit_xor-lt-pow zero zero (suc b) p q = absurd (omega arith)
bit_xor-lt-pow (suc k) a b p q = omega (
  arith,
  pow-suc 2 k,
  bit_xor_step a b,
  bit_xor-lt-pow k (a / 2) (b / 2) (omega (arith, pow-suc 2 k)) (omega (arith, pow-suc 2 k)),
)

pub bit_xor-lt_byte : (a b : ℕ) → a < 256 → b < 256 → bit_xor a b < 256
bit_xor-lt_byte a b p q = bit_xor-lt-pow 8 a b p q
