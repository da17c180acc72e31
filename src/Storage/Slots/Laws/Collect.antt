-- ===== src/Storage/Slots/Laws/Collect.antt =====
-- `_transaction_recovery_slot` of storage.py: the dictionary of the obsolete artifacts.
use password_bonobo.Prelude.{
  ◌≡◌, refl, ap, subst, ◌∙◌, sym, true, false, Option, none, some, List, [], ◌∷◌, ◌++◌, all, any,
  ◌||◌, inl, inr, Bool-cases, arith,
}
use password_bonobo.Prelude.Bytes.{Bytes, bytes_eq, bytes_eq→eq, bytes_eq_refl}
use password_bonobo.Storage.Evidence.{RecoveryRevision}
use password_bonobo.Storage.Slots.{
  RecoverySlot, is_digest, are_distinct, insert_key, collect, with_selected,
}

-- `identifier in identifiers`
abbrev pub In : Bytes → List Bytes → Type 0
In identifier identifiers = any (bytes_eq identifier) identifiers ≡ true

bytes_eq_comm : (xs ys : Bytes) → bytes_eq xs ys ≡ false → bytes_eq ys xs ≡ false
bytes_eq_comm [] [] h = h
bytes_eq_comm [] (y ∷ ys) h = refl
bytes_eq_comm (x ∷ xs) [] h = refl
bytes_eq_comm (x ∷ xs) (y ∷ ys) h = ground (arith, h, bytes_eq_comm xs ys)

any-snoc :
    (x y : Bytes) (ys : List Bytes)
    → any (bytes_eq x) (ys ++ (y ∷ [])) ≡ (any (bytes_eq x) ys || bytes_eq x y)
any-snoc x y [] = ground arith
any-snoc x y (z ∷ ys) = ground (arith, any-snoc x y ys)

are_distinct-snoc :
    (xs : List Bytes) (x : Bytes)
    → are_distinct xs ≡ true
    → any (bytes_eq x) xs ≡ false
    → are_distinct (xs ++ (x ∷ [])) ≡ true
are_distinct-snoc [] x h k = refl
are_distinct-snoc (y ∷ xs) x h k =
    ground (arith, h, k, any-snoc y x xs, bytes_eq_comm x y, are_distinct-snoc xs x)

all-snoc :
    (xs : List Bytes) (x : Bytes)
    → all is_digest xs ≡ true
    → is_digest x ≡ true
    → all is_digest (xs ++ (x ∷ [])) ≡ true
all-snoc [] x h k = ground (arith, k)
all-snoc (y ∷ xs) x h k = ground (arith, h, k, all-snoc xs x)

-- Keys that are distinct digests, other than the current one.
pub record AreKeys (current : Bytes) (keys : List Bytes) : Type 0 where
  pub others : any (bytes_eq current) keys ≡ false
  pub distinct : are_distinct keys ≡ true
  pub digests : all is_digest keys ≡ true

insert_key-AreKeys :
    (current identifier : Bytes) (keys : List Bytes)
    → AreKeys current keys
    → is_digest identifier ≡ true
    → bytes_eq identifier current ≡ false
    → AreKeys current (insert_key identifier keys)
insert_key-AreKeys current identifier keys h digest other =
    elim (Bool-cases (any (bytes_eq identifier) keys)) [
      | inl e ↦ rw e h
      | inr e ↦ rw e (record {
        others = ground (
          arith,
          any-snoc current identifier keys,
          h.others,
          bytes_eq_comm identifier current other,
        );
        distinct = are_distinct-snoc keys identifier h.distinct e;
        digests = all-snoc keys identifier h.digests digest;
      })
    ]

insert_key-In : (x : Bytes) (keys : List Bytes) → In x (insert_key x keys)
insert_key-In x keys = elim (Bool-cases (any (bytes_eq x) keys)) [
  | inl e ↦ rw (e, e)
  | inr e ↦ rw (e, any-snoc x x keys, bytes_eq_refl x, e)
]

insert_key_keeps : (x y : Bytes) (keys : List Bytes) → In x keys → In x (insert_key y keys)
insert_key_keeps x y keys h = elim (Bool-cases (any (bytes_eq y) keys)) [
  | inl e ↦ rw (e, h)
  | inr e ↦ rw (e, any-snoc x y keys, h)
]

module _ (current : Bytes) where
  pub collect-AreKeys :
      (identifiers keys : List Bytes)
      → AreKeys current keys
      → all is_digest identifiers ≡ true
      → AreKeys current (collect current keys identifiers)
  unfolding collect
  collect-AreKeys [] keys h k = h
  collect-AreKeys (x ∷ xs) keys h k = elim (Bool-cases (bytes_eq x current)) [
    | inl e ↦ rw e (collect-AreKeys xs keys h (ground (arith, k)))
    | inr e ↦ rw e (
        collect-AreKeys xs (insert_key x keys)
          (insert_key-AreKeys current x keys h (ground (arith, k)) e) (ground (arith, k)))
  ]

  pub collect_keeps :
      (x : Bytes) (identifiers keys : List Bytes)
      → In x keys
      → In x (collect current keys identifiers)
  unfolding collect
  collect_keeps x [] keys h = h
  collect_keeps x (y ∷ ys) keys h = elim (Bool-cases (bytes_eq y current)) [
    | inl e ↦ rw e (collect_keeps x ys keys h)
    | inr e ↦ rw e (collect_keeps x ys (insert_key y keys) (insert_key_keeps x y keys h))
  ]

  pub collect-In :
      (x : Bytes) (identifiers keys : List Bytes)
      → bytes_eq x current ≡ false
      → In x identifiers
      → In x (collect current keys identifiers)
  unfolding collect
  collect-In x [] keys other h = absurd (let e : false ≡ true = h in cc)
  collect-In x (y ∷ ys) keys other h = elim (Bool-cases (bytes_eq x y)) [
    | inl e ↦
        let same : y ≡ x = sym (bytes_eq→eq x y e) in
        let apart : bytes_eq y current ≡ false = ap (λ z. bytes_eq z current) same ∙ other in
        rw apart (
          collect_keeps x ys (insert_key y keys)
            (subst (λ z. In x (insert_key z keys)) (sym same) (insert_key-In x keys)))
    | inr e ↦
        let rest : In x ys = ground (arith, h, e) in
        elim (Bool-cases (bytes_eq y current)) [
          | inl f ↦ rw f (collect-In x ys keys other rest)
          | inr f ↦ rw f (collect-In x ys (insert_key y keys) other rest)
        ]
  ]

-- A key that is inserted again changes nothing.
pub with_selected-eq :
    (keys : List Bytes) (previous : Option RecoverySlot) (selected : Option RecoveryRevision)
    → with_selected keys previous selected ≡ keys
with_selected-eq keys previous none = refl
with_selected-eq keys none (some selected) = refl
with_selected-eq keys (some previous) (some selected) =
    elim (Bool-cases (any (bytes_eq selected.identifier) keys)) [ inl e ↦ rw e | inr e ↦ rw e ]
