-- ===== src/Model/Documents/Laws.antt =====
-- What `documents_equal_exact` of model.py has compared when it returns true.
use password_bonobo.Prelude.{
  ℕ, ◌≡◌, Bool, true, false, List, [], ◌∷◌, length, ◌==◌, ◌!=◌, inl, inr, Bool-cases, arith,
}
use password_bonobo.Errors.{Result, ok, Result-cases, raise-neq-ok}
use password_bonobo.Payloads.{chunk_size_rejected}
use password_bonobo.Model.{RawField, RawRecord, VaultDocument}
use password_bonobo.Model.Equality.{payloads_equal}
use password_bonobo.Model.Documents.{
  same_shape, same_frame, same_warnings, fields_equal, field_sequences_equal, records_equal,
  sections_equal, documents_equal_exact,
}

-- Fields with one type, ordinal and classification, and payloads that were found equal.
abbrev pub SameFields : ℕ → List RawField → List RawField → Type 0
SameFields n [] [] = Unit
SameFields n [] (b ∷ ys) = ⊥
SameFields n (a ∷ xs) [] = ⊥
SameFields n (a ∷ xs) (b ∷ ys) =
    (same_shape a b ≡ true) × (payloads_equal a.payload b.payload n ≡ ok true) × SameFields n xs ys

abbrev pub SameRecords : ℕ → List RawRecord → List RawRecord → Type 0
SameRecords n [] [] = Unit
SameRecords n [] (b ∷ ys) = ⊥
SameRecords n (a ∷ xs) [] = ⊥
SameRecords n (a ∷ xs) (b ∷ ys) =
    (a.ordinal ≡ b.ordinal) × SameFields n a.fields b.fields × SameRecords n xs ys

-- Documents that were found equal; handles and revisions do not count.
pub record AreEqual (n : ℕ) (a b : VaultDocument) : Type 0 where
  pub version : a.version.value ≡ b.version.value
  pub warnings : same_warnings a.warnings b.warnings ≡ true
  pub header : SameFields n a.header_fields b.header_fields
  pub records : SameRecords n a.records b.records

not_true : {C : Type 0} → ◌≡◌ {A = Result Bool} (ok false) (ok true) → C
not_true h = cc

fields_equal-SameFields :
    (n : ℕ) (xs ys : List RawField)
    → length xs ≡ length ys
    → fields_equal xs ys n ≡ ok true
    → SameFields n xs ys
unfolding fields_equal
fields_equal-SameFields n [] [] k h = tt
fields_equal-SameFields n [] (b ∷ ys) k h = absurd (omega (arith, k))
fields_equal-SameFields n (a ∷ xs) [] k h = absurd (omega (arith, k))
fields_equal-SameFields n (a ∷ xs) (b ∷ ys) k h = elim (Bool-cases (same_shape a b)) [
  | inr other ↦ not_true (rw other at h)
  | inl shape ↦ elim (Result-cases (payloads_equal a.payload b.payload n)) [
    | inr (_, e) ↦ absurd (raise-neq-ok (rw (shape, e) at h))
    | inl (false, e) ↦ not_true (rw (shape, e) at h)
    | inl (true, e) ↦
        (shape, e, fields_equal-SameFields n xs ys (omega (arith, k)) (rw (shape, e) at h))
  ]
]

sequences-SameFields :
    (n : ℕ) (xs ys : List RawField) → field_sequences_equal xs ys n ≡ ok true → SameFields n xs ys
unfolding field_sequences_equal
sequences-SameFields n xs ys h = elim (Bool-cases (length xs != length ys)) [
  | inl other ↦ not_true (rw other at h)
  | inr same ↦ fields_equal-SameFields n xs ys (ground arith) (rw same at h)
]

records_equal-SameRecords :
    (n : ℕ) (xs ys : List RawRecord)
    → length xs ≡ length ys
    → records_equal xs ys n ≡ ok true
    → SameRecords n xs ys
unfolding records_equal
records_equal-SameRecords n [] [] k h = tt
records_equal-SameRecords n [] (b ∷ ys) k h = absurd (omega (arith, k))
records_equal-SameRecords n (a ∷ xs) [] k h = absurd (omega (arith, k))
records_equal-SameRecords n (a ∷ xs) (b ∷ ys) k h = elim (Bool-cases (a.ordinal == b.ordinal)) [
  | inr other ↦ not_true (rw other at h)
  | inl same ↦ elim (Result-cases (field_sequences_equal a.fields b.fields n)) [
    | inr (_, e) ↦ absurd (raise-neq-ok (rw (same, e) at h))
    | inl (false, e) ↦ not_true (rw (same, e) at h)
    | inl (true, e) ↦ (
      ground arith,
      sequences-SameFields n a.fields b.fields e,
      records_equal-SameRecords n xs ys (omega (arith, k)) (rw (same, e) at h),
    )
  ]
]

sections-SameRecords :
    (n : ℕ) (a b : VaultDocument)
    → length a.records ≡ length b.records
    → sections_equal a b n ≡ ok true
    → SameFields n a.header_fields b.header_fields × SameRecords n a.records b.records
unfolding sections_equal
sections-SameRecords n a b k h =
    elim (Result-cases (field_sequences_equal a.header_fields b.header_fields n)) [
      | inr (_, e) ↦ absurd (raise-neq-ok (rw e at h))
      | inl (false, e) ↦ not_true (rw e at h)
      | inl (true, e) ↦ (
        sequences-SameFields n a.header_fields b.header_fields e,
        records_equal-SameRecords n a.records b.records k (rw e at h),
      )
    ]

-- Documents that compare equal have one version, the same warnings, and section by section the
-- same fields in order, with payloads that compare equal.
pub documents_equal_exact-AreEqual :
    (n : ℕ) (a b : VaultDocument) → documents_equal_exact a b n ≡ ok true → AreEqual n a b
unfolding documents_equal_exact
documents_equal_exact-AreEqual n a b h = elim (Bool-cases (chunk_size_rejected n)) [
  | inl bad ↦ absurd (raise-neq-ok (rw bad at h))
  | inr good ↦ elim (Bool-cases (same_frame a b)) [
    | inr other ↦ not_true (rw (good, other) at h)
    | inl frame ↦
        let sections = sections-SameRecords n a b (ground arith) (rw (good, frame) at h) in
        record {
          version = ground arith;
          warnings = ground arith;
          header = sections.0;
          records = sections.1;
        }
  ]
]
