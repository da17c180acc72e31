-- ===== src/CustomFields/Utf8.antt =====
-- Whether Python's `bytes.decode("utf-8", errors="strict")` accepts a byte string: the well-formed
-- sequences of the Unicode standard, with the ranges of the second byte.
use password_bonobo.Prelude.{
  ℕ, zero, suc, Bool, true, false, ◌&&◌, Option, none, some, [], ◌∷◌, ltb, leb, ◌==◌, if◌then◌else◌,
}
use password_bonobo.Prelude.Bytes.{Bytes}

-- What a first byte asks for: the number of bytes behind it, and the range of the next one.
abbrev lead : ℕ → Option (ℕ × ℕ × ℕ)
lead b =
    if ltb b 0x80
    then some (0, 0x80, 0xBF)
    else if ltb b 0xC2
    then none
    else if ltb b 0xE0
    then some (1, 0x80, 0xBF)
    else if b == 0xE0
    then some (2, 0xA0, 0xBF)
    else if b == 0xED
    then some (2, 0x80, 0x9F)
    else if ltb b 0xF0
    then some (2, 0x80, 0xBF)
    else if b == 0xF0
    then some (3, 0x90, 0xBF)
    else if ltb b 0xF4
    then some (3, 0x80, 0xBF)
    else if b == 0xF4
    then some (3, 0x80, 0x8F)
    else none

-- `n` continuation bytes are due, the next of them in this range.
abbrev continues : ℕ → ℕ → ℕ → Bytes → Bool
continues zero low high [] = true
continues (suc n) low high [] = false
continues zero low high (b ∷ bs) = elim (lead b) [
  | none ↦ false
  | some (n, l, h) ↦ continues n l h bs
]
continues (suc n) low high (b ∷ bs) = (leb low b && leb b high) && continues n 0x80 0xBF bs

abbrev pub is_utf8 : Bytes → Bool
is_utf8 = continues 0 0x80 0xBF
