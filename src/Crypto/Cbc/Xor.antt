-- ===== src/Crypto/Cbc/Xor.antt =====
-- The exclusive or of two blocks (crypto.py, both `transform` methods).
use password_bonobo.Prelude.{
  ◌≡◌, refl, ap₂, [], ◌∷◌, length, arith, bit_xor_cancel, bit_xor-lt_byte,
}
use password_bonobo.Prelude.Bytes.{Bytes, AreBytes}
use password_bonobo.Crypto.Cbc.{xor_block}

pub length-xor_block : (xs ys : Bytes) → length (xor_block xs ys) ≡ length xs
length-xor_block [] ys = refl
length-xor_block (x ∷ xs) [] = refl
length-xor_block (x ∷ xs) (y ∷ ys) = omega (arith, length-xor_block xs ys)

pub xor_block-AreBytes : (xs ys : Bytes) → AreBytes xs → AreBytes ys → AreBytes (xor_block xs ys)
xor_block-AreBytes [] ys h k = tt
xor_block-AreBytes (x ∷ xs) [] h k = h
xor_block-AreBytes (x ∷ xs) (y ∷ ys) h k =
    (bit_xor-lt_byte x y h.0 k.0, xor_block-AreBytes xs ys h.1 k.1)

pub xor_block_cancel : (xs ys : Bytes) → xor_block (xor_block xs ys) ys ≡ xs
xor_block_cancel [] ys = refl
xor_block_cancel (x ∷ xs) [] = refl
xor_block_cancel (x ∷ xs) (y ∷ ys) =
    ap₂ (λ b bs. b ∷ bs) (bit_xor_cancel x y) (xor_block_cancel xs ys)
