-- ===== src/Storage/Slots/Lines.antt =====
-- The lines of a slot file of storage.py: `splitlines` of what was joined by line feeds.
use password_bonobo.Prelude.{
  ℕ, Bool, ◌*◌, ◌+◌, ◌≡◌, refl, ap, ◌∙◌, sym, true, false, List, [], ◌∷◌, ◌++◌, length, all, All,
  ltb, ◌==◌, append-nil, append_assoc, length-append, arith,
}
use password_bonobo.Prelude.Bytes.{Bytes}
use password_bonobo.Storage.Slots.{
  is_lower_hex, ends_line, split_lines, encode_lines, hex_digest_length,
}

-- A list of 64 lower hexadecimal digits.
abbrev pub AreDigits : Bytes → Type 0
AreDigits = All (λ c. is_lower_hex c ≡ true)

pub all-AreDigits : (cs : Bytes) → all is_lower_hex cs ≡ true → AreDigits cs
all-AreDigits [] h = tt
all-AreDigits (c ∷ cs) h = (ground (arith, h), all-AreDigits cs (ground (arith, h)))

digit_stays : (c : ℕ) → is_lower_hex c ≡ true → ends_line c ≡ false
digit_stays c h = ground arith

digit_not_return : (c : ℕ) → is_lower_hex c ≡ true → (c == 13) ≡ false
digit_not_return c h = ground arith

line_end :
    (cs line rest : Bytes)
    → AreDigits cs
    → split_lines false line (cs ++ (10 ∷ rest)) ≡ (line ++ cs) ∷ split_lines false [] rest
unfolding split_lines
line_end [] line rest h = ap (λ l. l ∷ split_lines false [] rest) (sym (append-nil line))
line_end (c ∷ cs) line rest h = rw (
  digit_stays c h.0,
  digit_not_return c h.0,
  line_end cs (line ++ (c ∷ [])) rest h.1,
  append_assoc line (c ∷ []) cs,
)

-- Lines of digits that were joined are split again.
pub split_lines-encode :
    (ls : List Bytes) → All AreDigits ls → split_lines false [] (encode_lines ls) ≡ ls
unfolding encode_lines split_lines
split_lines-encode [] h = refl
split_lines-encode (l ∷ ls) h =
    line_end l [] (encode_lines ls) h.0 ∙ ap (λ rest. l ∷ rest) (split_lines-encode ls h.1)

all-append :
    (p : ℕ → Bool) (xs ys : Bytes) → all p xs ≡ true → all p ys ≡ true → all p (xs ++ ys) ≡ true
all-append p [] ys h k = k
all-append p (x ∷ xs) ys h k = ground (arith, h, all-append p xs ys, k)

digit_ascii : (c : ℕ) → is_lower_hex c ≡ true → ltb c 128 ≡ true
digit_ascii c h = ground arith

digits_ascii : (cs : Bytes) → AreDigits cs → all (λ c. ltb c 128) cs ≡ true
digits_ascii [] h = refl
digits_ascii (c ∷ cs) h = rw (digit_ascii c h.0, digits_ascii cs h.1)

pub encode_lines_ascii :
    (ls : List Bytes) → All AreDigits ls → all (λ c. ltb c 128) (encode_lines ls) ≡ true
unfolding encode_lines
encode_lines_ascii [] h = refl
encode_lines_ascii (l ∷ ls) h =
    all-append (λ c. ltb c 128) l (10 ∷ encode_lines ls) (digits_ascii l h.0)
      (encode_lines_ascii ls h.1)

pub length-encode_lines :
    (ls : List Bytes)
    → All (λ l. length l ≡ hex_digest_length) ls
    → length (encode_lines ls) ≡ (hex_digest_length + 1) * length ls
unfolding encode_lines
length-encode_lines [] h = refl
length-encode_lines (l ∷ ls) h =
    omega (arith, length-append l (10 ∷ encode_lines ls), length-encode_lines ls h.1, h.0)
