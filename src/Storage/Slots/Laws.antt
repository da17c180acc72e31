-- ===== src/Storage/Slots/Laws.antt =====
-- The recovery slots of storage.py: a slot that was written is read again, and the slot of a
-- transaction keeps every older artifact.
pub mod Collect
pub mod Transaction
use password_bonobo.Prelude.{
  ℕ, ◌*◌, ◌+◌, ◌≡◌, ◌≤◌, ◌<◌, refl, ap, ◌∙◌, sym, true, false, not, Bool, Option, none, some, List,
  [], ◌∷◌, ◌++◌, length, all, All, any, ltb, ◌==◌, ◌&&◌, arith,
}
use password_bonobo.Prelude.Bytes.{Bytes, bytes_eq}
use password_bonobo.Errors.{
  Result, ok, raise, storage_error, verification_failed, publication_failed, passed, ok-injective,
}
use password_bonobo.Storage.Slots.{
  RecoverySlot, is_lower_hex, is_digest, are_distinct, slot_of, parse_slot, encode_slot,
  encode_lines, split_lines, hex_digest_length, max_slot_identifiers,
}
use password_bonobo.Storage.Slots.Lines.{
  AreDigits, all-AreDigits, split_lines-encode, encode_lines_ascii, length-encode_lines,
}

-- The artifacts of a slot are named by distinct digests, 64 at most.
pub record IsSlot (slot : RecoverySlot) : Type 0 where
  pub digests : all is_digest (slot.current ∷ slot.obsolete) ≡ true
  pub distinct : are_distinct (slot.current ∷ slot.obsolete) ≡ true
  pub few : length (slot.current ∷ slot.obsolete) ≤ max_slot_identifiers

digest_digits : (l : Bytes) → is_digest l ≡ true → AreDigits l
digest_digits l h = all-AreDigits l (ground (arith, h))

digests_digits : (ls : List Bytes) → all is_digest ls ≡ true → All AreDigits ls
digests_digits [] h = tt
digests_digits (l ∷ ls) h =
    (digest_digits l (ground (arith, h)), digests_digits ls (ground (arith, h)))

digests_long :
    (ls : List Bytes) → all is_digest ls ≡ true → All (λ l. length l ≡ hex_digest_length) ls
digests_long [] h = tt
digests_long (l ∷ ls) h = (ground (arith, h), digests_long ls (ground (arith, h)))

slot_of-ok : (slot : RecoverySlot) → IsSlot slot → slot_of (slot.current ∷ slot.obsolete) ≡ ok slot
slot_of-ok slot h =
    let few : ltb max_slot_identifiers (length (slot.current ∷ slot.obsolete)) ≡ false =
      ground (arith, h.few) in
    rw (few, h.distinct, h.digests)

-- The slot that is read from the file of a slot is the one that was written, when its
-- identifiers are distinct digests, 64 at most.
pub parse_slot-encode :
    (slot : RecoverySlot) → IsSlot slot → parse_slot (encode_slot slot) ≡ ok slot
unfolding parse_slot encode_slot
parse_slot-encode slot h =
    let ls = slot.current ∷ slot.obsolete in
    let long = length-encode_lines ls (digests_long ls h.digests) in
    let some_bytes : (length (encode_lines ls) == 0) ≡ false = ground (arith, long) in
    let few : ltb (max_slot_identifiers * (hex_digest_length + 1)) (length (encode_lines ls))
        ≡ false =
      ground (arith, long, h.few) in
    let digits = digests_digits ls h.digests in
    rw (some_bytes, few, encode_lines_ascii ls digits, split_lines-encode ls digits)
      (slot_of-ok slot h)
