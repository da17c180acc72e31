-- ===== src/Storage/Slots.antt =====
-- The recovery slots of storage.py: `_RecoverySlot`, the text of a slot file that
-- `_write_recovery_slot` writes and `_read_recovery_slot` reads, and `_transaction_recovery_slot`.
pub mod Lines
pub mod Laws
use password_bonobo.Prelude.{
  ℕ, ◌*◌, ◌+◌, Bool, true, false, not, ◌&&◌, ◌||◌, Option, none, some, List, [], ◌∷◌, ◌++◌, length,
  ltb, leb, ◌==◌, ◌!=◌, any, all, if◌then◌else◌,
}
use password_bonobo.Prelude.Bytes.{Bytes, bytes_eq}
use password_bonobo.Errors.{
  Result, ok, raise, storage_error, verification_failed, publication_failed, ◌>>=◌, ◌>>◌, raise_if,
}
use password_bonobo.Storage.Evidence.{RecoveryRevision}

-- `_HEX_DIGEST_LENGTH`
abbrev pub hex_digest_length : ℕ
hex_digest_length = 64

-- `_MAX_SLOT_IDENTIFIERS`
abbrev pub max_slot_identifiers : ℕ
max_slot_identifiers = 64

-- `_RecoverySlot`
pub record RecoverySlot : Type 0 where
  pub current : Bytes
  pub obsolete : List Bytes

-- `character in "0123456789abcdef"`
abbrev pub is_lower_hex : ℕ → Bool
is_lower_hex c = (leb 48 c && leb c 57) || (leb 97 c && leb c 102)

-- `_validate_digest`
abbrev pub is_digest : Bytes → Bool
is_digest value = (length value == hex_digest_length) && all is_lower_hex value

-- The characters below 128 at which `str.splitlines` ends a line.
abbrev pub ends_line : ℕ → Bool
ends_line c = (leb 10 c && leb c 13) || (leb 28 c && leb c 30)

abbrev last_line : Bytes → List Bytes
last_line [] = []
last_line (c ∷ cs) = (c ∷ cs) ∷ []

-- `splitlines()`, after the characters of the current line; `after_return` tells whether the
-- character before was a carriage return, with which a line feed is one end.
unfoldable pub split_lines : Bool → Bytes → Bytes → List Bytes
split_lines after_return line [] = last_line line
split_lines after_return line (c ∷ cs) =
    let joined = after_return && (c == 10) in
    (if joined then [] else if ends_line c then line ∷ [] else [])
    ++ split_lines (c == 13) (if joined then line else if ends_line c then [] else line ++ (c ∷ []))
        cs

-- `len(set(identifiers)) == len(identifiers)`
abbrev pub are_distinct : List Bytes → Bool
are_distinct [] = true
are_distinct (identifier ∷ identifiers) =
    not (any (bytes_eq identifier) identifiers) && are_distinct identifiers

abbrev pub slot_of : List Bytes → Result RecoverySlot
slot_of [] = raise (storage_error verification_failed)
slot_of (current ∷ obsolete) = do
  raise_if (ltb max_slot_identifiers (length (current ∷ obsolete)))
      (storage_error verification_failed)
  raise_if (not (are_distinct (current ∷ obsolete))) (storage_error verification_failed)
  raise_if (not (all is_digest (current ∷ obsolete))) (storage_error verification_failed)
  ok (record { current = current; obsolete = obsolete })

-- The content of a slot file, as `_read_recovery_slot` takes it.
unfoldable pub parse_slot : Bytes → Result RecoverySlot
parse_slot payload = do
  raise_if (length payload == 0) (storage_error verification_failed)
  raise_if (ltb (max_slot_identifiers * (hex_digest_length + 1)) (length payload))
      (storage_error verification_failed)
  raise_if (not (all (λ c. ltb c 128) payload)) (storage_error verification_failed)
  slot_of (split_lines false [] payload)

-- `"\n".join(...) + "\n"`
unfoldable pub encode_lines : List Bytes → Bytes
encode_lines [] = []
encode_lines (line ∷ lines) = line ++ (10 ∷ encode_lines lines)

-- The payload of `_write_recovery_slot`
unfoldable pub encode_slot : RecoverySlot → Bytes
encode_slot slot = encode_lines (slot.current ∷ slot.obsolete)

-- `obsolete[identifier] = None`
abbrev pub insert_key : Bytes → List Bytes → List Bytes
insert_key identifier keys =
    if any (bytes_eq identifier) keys then keys else keys ++ (identifier ∷ [])

-- The loop of `_transaction_recovery_slot`
unfoldable pub collect : Bytes → List Bytes → List Bytes → List Bytes
collect current keys [] = keys
collect current keys (identifier ∷ identifiers) =
    collect current (if bytes_eq identifier current then keys else insert_key identifier keys)
      identifiers

abbrev pub collected : Bytes → Option RecoverySlot → List Bytes
collected current none = []
collected current (some previous) = collect current [] (previous.current ∷ previous.obsolete)

abbrev pub with_selected : List Bytes → Option RecoverySlot → Option RecoveryRevision → List Bytes
with_selected keys previous none = keys
with_selected keys none (some selected) = keys
with_selected keys (some previous) (some selected) =
    if any (bytes_eq selected.identifier) keys then insert_key selected.identifier keys else keys

-- `_transaction_recovery_slot`
unfoldable pub transaction_recovery_slot :
    Bytes → Option RecoverySlot → Option RecoveryRevision → Result RecoverySlot
transaction_recovery_slot current previous selected =
    let obsolete = with_selected (collected current previous) previous selected in
    do
      raise_if (ltb max_slot_identifiers (length obsolete + 1)) (storage_error publication_failed)
      ok (record { current = current; obsolete = obsolete })
