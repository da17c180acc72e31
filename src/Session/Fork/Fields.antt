-- ===== src/Session/Fork/Fields.antt =====
-- The fields of a forked document in session.py, by their places.
use password_bonobo.Prelude.{
  ℕ, zero, suc, ◌+◌, ◌≡◌, refl, ap, ◌∙◌, Option, none, some, List, [], ◌∷◌, any, ◌==◌, arith, inl,
  inr, Bool-cases, Option-cases,
}
use password_bonobo.Model.{RawField, RawRecord}
use password_bonobo.Session.Fork.{
  PlannedField, kept, made, raw_of, PlannedRecord, Coordinates, Location, place_fields,
  place_records, distinct_records,
}

-- The field at a place.
abbrev pub get_elem? {ℓ} : {A : Type ℓ} → List A → ℕ → Option A
get_elem? [] i = none
get_elem? (x ∷ xs) zero = some x
get_elem? (x ∷ xs) (suc i) = get_elem? xs i

abbrev pub field_at : List RawRecord → ℕ → ℕ → Option RawField
field_at [] i j = none
field_at (r ∷ rs) zero j = get_elem? r.fields j
field_at (r ∷ rs) (suc i) j = field_at rs i j

-- The planned field at a place, with the ordinal that its record had in the document.
abbrev with_ordinal : ℕ → Option PlannedField → Option (ℕ × PlannedField)
with_ordinal ordinal none = none
with_ordinal ordinal (some f) = some (ordinal, f)

abbrev pub planned_at : List PlannedRecord → ℕ → ℕ → Option (ℕ × PlannedField)
planned_at [] i j = none
planned_at (p ∷ ps) zero j = with_ordinal p.ordinal (get_elem? p.fields j)
planned_at (p ∷ ps) (suc i) j = planned_at ps i j

abbrev placed : RawField → ℕ → RawField
placed raw ordinal = record {
  type_code = raw.type_code;
  payload = raw.payload;
  ordinal = ordinal;
  classification = raw.classification;
}

get-place_fields :
    (n j : ℕ) (fs : List PlannedField) (f : PlannedField)
    → get_elem? fs j ≡ some f
    → get_elem? (place_fields n fs) j ≡ some (placed (raw_of f) (n + j))
unfolding place_fields
get-place_fields n j [] f h = cc
get-place_fields n zero (g ∷ fs) f h =
    let same : g ≡ f = cc in rw same (ap (λ m. some (placed (raw_of f) m)) (omega arith))
get-place_fields n (suc j) (g ∷ fs) f h =
    get-place_fields (n + 1) j fs f h ∙ ap (λ m. some (placed (raw_of f) m)) (omega arith)

pub field_at-place_records :
    (n i j : ℕ) (ps : List PlannedRecord) (o : ℕ) (f : PlannedField)
    → planned_at ps i j ≡ some (o, f)
    → field_at (place_records n ps) i j ≡ some (placed (raw_of f) j)
unfolding place_records
field_at-place_records n i j [] o f h = cc
field_at-place_records n zero j (p ∷ ps) o f h = elim (Option-cases (get_elem? p.fields j)) [
  | inl no_field ↦ let e : with_ordinal p.ordinal none ≡ some (o, f) = rw no_field at h in cc
  | inr (g, e) ↦
      let e' : with_ordinal p.ordinal (some g) ≡ some (o, f) = rw e at h in
      let same : g ≡ f = cc in
      get-place_fields 0 j p.fields f (e ∙ ap some same)
      ∙ ap (λ m. some (placed (raw_of f) m)) (omega arith)
]
field_at-place_records n (suc i) j (p ∷ ps) o f h = field_at-place_records (n + 1) i j ps o f h

-- A new handle does not touch the fields.
pub field_at-distinct_records :
    (issued : ℕ) (handles : List ℕ) (rs : List RawRecord) (i j : ℕ)
    → field_at (distinct_records issued handles rs) i j ≡ field_at rs i j
unfolding distinct_records
field_at-distinct_records issued handles [] i j = refl
field_at-distinct_records issued handles (r ∷ rs) zero j =
    elim (Bool-cases (any (λ h. h == r.handle) handles)) [ inl again ↦ rw again | inr new ↦ rw new ]
field_at-distinct_records issued handles (r ∷ rs) (suc i) j =
    elim (Bool-cases (any (λ h. h == r.handle) handles)) [
      | inl again ↦ rw again (field_at-distinct_records (issued + 1) (issued ∷ handles) rs i j)
      | inr new ↦ rw new (field_at-distinct_records issued (r.handle ∷ handles) rs i j)
    ]

-- What holds of the field, if it is a kept one.
abbrev pub Kept : (RawField → Type 0) → PlannedField → Type 0
Kept P (kept raw) = P raw
Kept P (made raw) = Unit

-- A kept field with these coordinates stands in the plan at the location.
pub record StandsAt (ps : List PlannedRecord) (n : ℕ) (c : Coordinates) (l : Location)
    : Type 0 where
  pub index : ℕ
  pub raw : RawField
  pub location : l.0 ≡ n + index
  pub planned : planned_at ps index l.1 ≡ some (c.record_ordinal, kept raw)
  pub ordinal : raw.ordinal ≡ c.field_ordinal
  pub type_code : raw.type_code ≡ c.type_code
