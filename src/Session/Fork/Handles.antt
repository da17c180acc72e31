-- ===== src/Session/Fork/Handles.antt =====
-- The handles of `VaultDocument.create` (model.py) are distinct.
use password_bonobo.Prelude.{
  ℕ, suc, ◌+◌, ◌≤◌, ◌≡◌, ◌<◌, refl, ap, false, List, [], ◌∷◌, length, any, ◌==◌, All, arith, inl,
  inr, Bool-cases,
}
use password_bonobo.Model.{RawRecord}
use password_bonobo.Session.Fork.{PlannedRecord, place_records, distinct_records}
use password_bonobo.Session.Fork.Places.{AreDistinct, AreOrdered}

abbrev pub AreBelow : ℕ → List RawRecord → Type 0
AreBelow issued rs = All (λ r. r.handle < issued) rs

none_is : (n : ℕ) (hs : List ℕ) → All (λ h. h < n) hs → any (λ h. h == n) hs ≡ false
none_is n [] b = refl
none_is n (h ∷ hs) b = ground (arith, none_is n hs b.1)

above : (n : ℕ) (hs : List ℕ) → All (λ h. h < n) hs → All (λ h. h < n + 1) hs
above n [] b = tt
above n (h ∷ hs) b = (omega arith, above n hs b.1)

above_records : (n m : ℕ) (rs : List RawRecord) → n ≤ m → AreBelow n rs → AreBelow m rs
above_records n m [] h b = tt
above_records n m (r ∷ rs) h b = (omega arith, above_records n m rs h b.1)

-- Whatever the handles of the plan are, those of the document are distinct.
pub distinct_records-AreDistinct :
    (issued : ℕ) (handles : List ℕ) (rs : List RawRecord)
    → All (λ h. h < issued) handles
    → AreBelow issued rs
    → AreDistinct handles (distinct_records issued handles rs)
unfolding distinct_records
distinct_records-AreDistinct issued handles [] hs bs = tt
distinct_records-AreDistinct issued handles (r ∷ rs) hs bs =
    elim (Bool-cases (any (λ h. h == r.handle) handles)) [
      | inl again ↦ rw again (
        none_is issued handles hs,
        distinct_records-AreDistinct (issued + 1) (issued ∷ handles) rs
            (omega arith, above issued handles hs)
            (above_records issued (issued + 1) rs (omega arith) bs.1),
      )
      | inr new ↦
          rw new (new, distinct_records-AreDistinct issued (r.handle ∷ handles) rs (bs.0, hs) bs.1)
    ]

pub distinct_records-AreBelow :
    (issued : ℕ) (handles : List ℕ) (rs : List RawRecord)
    → AreBelow issued rs
    → AreBelow (issued + length rs) (distinct_records issued handles rs)
unfolding distinct_records
distinct_records-AreBelow issued handles [] bs = tt
distinct_records-AreBelow issued handles (r ∷ rs) bs =
    elim (Bool-cases (any (λ h. h == r.handle) handles)) [
      | inl again ↦ rw again (
        omega arith,
        above_records (issued + 1 + length rs) (issued + suc (length rs))
            (distinct_records (issued + 1) (issued ∷ handles) rs) (omega arith)
            (distinct_records-AreBelow (issued + 1) (issued ∷ handles) rs
              (above_records issued (issued + 1) rs (omega arith) bs.1)),
      )
      | inr new ↦ rw new (
        omega (arith, bs.0),
        above_records (issued + length rs) (issued + suc (length rs))
            (distinct_records issued (r.handle ∷ handles) rs) (omega arith)
            (distinct_records-AreBelow issued (r.handle ∷ handles) rs bs.1),
      )
    ]

pub place_records-AreBelow :
    (issued n : ℕ) (ps : List PlannedRecord)
    → All (λ p. p.handle < issued) ps
    → AreBelow issued (place_records n ps)
unfolding place_records
place_records-AreBelow issued n [] b = tt
place_records-AreBelow issued n (p ∷ ps) b = (b.0, place_records-AreBelow issued (n + 1) ps b.1)

pub length-place_records :
    (n : ℕ) (ps : List PlannedRecord) → length (place_records n ps) ≡ length ps
unfolding place_records
length-place_records n [] = refl
length-place_records n (p ∷ ps) = ap suc (length-place_records (n + 1) ps)

-- A new handle does not touch the order.
pub distinct_records-AreOrdered :
    (issued : ℕ) (handles : List ℕ) (n : ℕ) (rs : List RawRecord)
    → AreOrdered n rs
    → AreOrdered n (distinct_records issued handles rs)
unfolding distinct_records
distinct_records-AreOrdered issued handles n [] h = tt
distinct_records-AreOrdered issued handles n (r ∷ rs) h =
    elim (Bool-cases (any (λ g. g == r.handle) handles)) [
      | inl again ↦
          rw again
            (h.0, h.1, distinct_records-AreOrdered (issued + 1) (issued ∷ handles) (n + 1) rs h.2)
      | inr new ↦
          rw new (h.0, h.1, distinct_records-AreOrdered issued (r.handle ∷ handles) (n + 1) rs h.2)
    ]
