-- ===== src/Storage/Slots/Laws/Transaction.antt =====
-- `_transaction_recovery_slot` of storage.py: what the slot of a transaction names.
use password_bonobo.Prelude.{
  ◌+◌, ◌≡◌, refl, sym, subst, true, false, Option, none, some, [], ◌∷◌, length, ltb, arith,
}
use password_bonobo.Prelude.Bytes.{Bytes, bytes_eq}
use password_bonobo.Errors.{ok, storage_error, publication_failed, passed, ok-injective}
use password_bonobo.Storage.Evidence.{RecoveryRevision}
use password_bonobo.Storage.Slots.{
  RecoverySlot, is_digest, max_slot_identifiers, collected, with_selected,
  transaction_recovery_slot,
}
use password_bonobo.Storage.Slots.Laws.{IsSlot}
use password_bonobo.Storage.Slots.Laws.Collect.{
  In, AreKeys, collect-AreKeys, collect-In, with_selected-eq,
}

-- The slot that was read, if there was one.
pub data AreKept (current : Bytes) (t : RecoverySlot) : Option RecoverySlot → Type 0 where
  none_before : t.obsolete ≡ [] → AreKept current t none
  all_kept :
      (p : RecoverySlot)
      → ((x : Bytes) → bytes_eq x current ≡ false → In x (p.current ∷ p.obsolete) → In x t.obsolete)
      → AreKept current t (some p)

collected-AreKeys :
    (current : Bytes) (previous : Option RecoverySlot)
    → ((p : RecoverySlot) → previous ≡ some p → IsSlot p)
    → AreKeys current (collected current previous)
collected-AreKeys current none h = record { others = refl; distinct = refl; digests = refl }
collected-AreKeys current (some p) h =
    collect-AreKeys current (p.current ∷ p.obsolete) []
      (record { others = refl; distinct = refl; digests = refl }) (h p refl).digests

collected-AreKept :
    (current : Bytes) (previous : Option RecoverySlot) (t : RecoverySlot)
    → collected current previous ≡ t.obsolete
    → AreKept current t previous
collected-AreKept current none t e = none_before (sym e)
collected-AreKept current (some p) t e = all_kept p (λ x other inside.
    subst (In x) e (collect-In current x (p.current ∷ p.obsolete) [] other inside))

-- The slot that a transaction writes is one that can be read again: its identifiers are distinct
-- digests, 64 at most, when the new one is a digest and the slot before was one that can be read.
-- The new artifact is the current one, and every other one that was named before is kept as
-- obsolete.
pub transaction_recovery_slot-IsSlot :
    (current : Bytes) (previous : Option RecoverySlot) (selected : Option RecoveryRevision)
    (t : RecoverySlot)
    → is_digest current ≡ true
    → ((p : RecoverySlot) → previous ≡ some p → IsSlot p)
    → transaction_recovery_slot current previous selected ≡ ok t
    → IsSlot t × (t.current ≡ current) × AreKept current t previous
unfolding transaction_recovery_slot
transaction_recovery_slot-IsSlot current previous selected t digest h e =
    let keys = with_selected (collected current previous) previous selected in
    let same : keys ≡ collected current previous =
      with_selected-eq (collected current previous) previous selected in
    let (few, e1) =
      passed (ltb max_slot_identifiers (length keys + 1)) (storage_error publication_failed)
        (ok (record { current = current; obsolete = keys })) e in
    let k = subst (AreKeys current) (sym same) (collected-AreKeys current previous h) in
    let slot : RecoverySlot = record { current = current; obsolete = keys } in
    subst (λ u. IsSlot u × (u.current ≡ current) × AreKept current u previous) (ok-injective e1)
      (
        record {
          digests = ground (arith, digest, k.digests);
          distinct = ground (arith, k.others, k.distinct);
          few = ground (arith, few);
        },
        refl,
        collected-AreKept current previous slot (sym same),
      )
