-- ===== src/Session/Fork/Places.antt =====
-- Where `_fork_document` of session.py puts the fields of a plan, and what is left where it was.
use password_bonobo.Prelude.{ℕ, ◌+◌, ◌≡◌, refl, ap, false, List, [], ◌∷◌, map, any, ◌==◌, arith}
use password_bonobo.Model.{RawField, RawRecord}
use password_bonobo.Session.Fork.{
  PlannedField, kept, PlannedRecord, place_fields, place_records, distinct_records,
}

-- The ordinals are the places.
abbrev pub ArePlaced : ℕ → List RawField → Type 0
ArePlaced n [] = Unit
ArePlaced n (f ∷ fs) = (f.ordinal ≡ n) × ArePlaced (n + 1) fs

abbrev pub AreOrdered : ℕ → List RawRecord → Type 0
AreOrdered n [] = Unit
AreOrdered n (r ∷ rs) = (r.ordinal ≡ n) × ArePlaced 0 r.fields × AreOrdered (n + 1) rs

-- No handle occurs twice, or among the handles seen.
abbrev pub AreDistinct : List ℕ → List RawRecord → Type 0
AreDistinct handles [] = Unit
AreDistinct handles (r ∷ rs) =
    (any (λ h. h == r.handle) handles ≡ false) × AreDistinct (r.handle ∷ handles) rs

pub place_fields-ArePlaced : (n : ℕ) (fs : List PlannedField) → ArePlaced n (place_fields n fs)
unfolding place_fields
place_fields-ArePlaced n [] = tt
place_fields-ArePlaced n (f ∷ fs) = (refl, place_fields-ArePlaced (n + 1) fs)

pub place_records-AreOrdered : (n : ℕ) (ps : List PlannedRecord) → AreOrdered n (place_records n ps)
unfolding place_records
place_records-AreOrdered n [] = tt
place_records-AreOrdered n (p ∷ ps) =
    (refl, place_fields-ArePlaced 0 p.fields, place_records-AreOrdered (n + 1) ps)

-- Fields that are kept and stand at their places stay as they are.
pub place_fields_kept :
    (n : ℕ) (fs : List RawField) → ArePlaced n fs → place_fields n (map kept fs) ≡ fs
unfolding place_fields
place_fields_kept n [] h = refl
place_fields_kept n (f ∷ fs) h = ground (arith, place_fields_kept (n + 1) fs h.1)

-- Records with distinct handles keep them.
pub distinct_records-eq :
    (issued : ℕ) (handles : List ℕ) (rs : List RawRecord)
    → AreDistinct handles rs
    → distinct_records issued handles rs ≡ rs
unfolding distinct_records
distinct_records-eq issued handles [] h = refl
distinct_records-eq issued handles (r ∷ rs) h =
    rw h.0 (ap (λ t. r ∷ t) (distinct_records-eq issued (r.handle ∷ handles) rs h.1))
