-- ===== src/Session/Effects.antt =====
-- What the changes of session.py make of the records, against plain operations on lists.
use password_bonobo.Prelude.{
  ℕ, zero, suc, ◌+◌, ◌≡◌, refl, sym, ap, ap₂, subst, ◌∙◌, some, List, [], ◌∷◌, ◌++◌, length,
  add-suc_left, map, take, drop, ◌==◌, if◌then◌else◌, All, inl, inr, Bool-cases, arith,
}
use password_bonobo.Model.{RawField, RawRecord}
use password_bonobo.Session.Fork.{PlannedField, place_fields, place_records}
use password_bonobo.Session.Fork.Places.{ArePlaced, AreOrdered, place_fields_kept}
use password_bonobo.Session.Fork.Fields.{get_elem?}
use password_bonobo.Session.Origin.{append_snoc, length-snoc, get-behind}
use password_bonobo.Session.Counts.{count, count-append, count-split}
use password_bonobo.Session.{unchanged, with_fields, pop, insert_at}

-- The records at their places, with all else as it was.
abbrev pub renumber : ℕ → List RawRecord → List RawRecord
renumber n [] = []
renumber n (r ∷ rs) =
    record { fields = r.fields; ordinal = n; handle = r.handle } ∷ renumber (n + 1) rs

-- The records with other fields for one handle.
abbrev pub with_record : ℕ → List RawField → List RawRecord → List RawRecord
with_record handle fields [] = []
with_record handle fields (r ∷ rs) =
    (if r.handle == handle
      then record { fields = fields; ordinal = r.ordinal; handle = r.handle }
      else r)
    ∷ with_record handle fields rs

abbrev pub HaveOrder : List RawRecord → Type 0
HaveOrder rs = All (λ r. ArePlaced 0 r.fields) rs

pub AreOrdered-HaveOrder : (n : ℕ) (rs : List RawRecord) → AreOrdered n rs → HaveOrder rs
AreOrdered-HaveOrder n [] h = tt
AreOrdered-HaveOrder n (r ∷ rs) h = (h.1, AreOrdered-HaveOrder (n + 1) rs h.2)

pub place-unchanged :
    (n : ℕ) (rs : List RawRecord)
    → HaveOrder rs
    → place_records n (map unchanged rs) ≡ renumber n rs
unfolding place_records
place-unchanged n [] h = refl
place-unchanged n (r ∷ rs) h =
    ap₂ (λ fs more. record { fields = fs; ordinal = n; handle = r.handle } ∷ more)
      (place_fields_kept 0 r.fields h.0) (place-unchanged (n + 1) rs h.1)

pub place-with_fields :
    (n handle : ℕ) (fs : List PlannedField) (rs : List RawRecord)
    → AreOrdered n rs
    → place_records n (with_fields handle fs rs) ≡ with_record handle (place_fields 0 fs) rs
unfolding place_records
place-with_fields n handle fs [] h = refl
place-with_fields n handle fs (r ∷ rs) h =
    let rest = place-with_fields (n + 1) handle fs rs h.2 in
    elim (Bool-cases (r.handle == handle)) [
      | inl it ↦ rw it (
          ap₂
            (λ m more. record { fields = place_fields 0 fs; ordinal = m; handle = r.handle } ∷ more)
            (sym h.0) rest)
      | inr other ↦ rw other (
          ap₂ (λ m more. m ∷ more)
            (ap₂ (λ gs m. record { fields = gs; ordinal = m; handle = r.handle })
              (place_fields_kept 0 r.fields h.1) (sym h.0))
            rest)
    ]

-- The places and the handles of the records do not change their number.
pub count-renumber : (h n : ℕ) (rs : List RawRecord) → count h (renumber n rs) ≡ count h rs
count-renumber h n [] = refl
count-renumber h n (r ∷ rs) = omega (arith, count-renumber h (n + 1) rs)

pub count-with_record :
    (h handle : ℕ) (fields : List RawField) (rs : List RawRecord)
    → count h (with_record handle fields rs) ≡ count h rs
count-with_record h handle fields [] = refl
count-with_record h handle fields (r ∷ rs) = elim (Bool-cases (r.handle == handle)) [
  | inl it ↦ rw it (omega (arith, count-with_record h handle fields rs))
  | inr other ↦ rw other (omega (arith, count-with_record h handle fields rs))
]

pub count-insert_at :
    (h n : ℕ) (r : RawRecord) (rs : List RawRecord)
    → count h (insert_at n r rs) ≡ (if r.handle == h then 1 else 0) + count h rs
count-insert_at h n r rs =
    omega (arith, count-append h (take n rs) (r ∷ drop n rs), count-split h n rs)

pub count-pop :
    (h i : ℕ) (r : RawRecord) (rs : List RawRecord)
    → get_elem? rs i ≡ some r
    → (if r.handle == h then 1 else 0) + count h (pop i rs) ≡ count h rs
count-pop h i r [] e = cc
count-pop h zero r (x ∷ xs) e = let same : x ≡ r = cc in rw (← same) refl
count-pop h (suc i) r (x ∷ xs) e = rw (add-suc_left i 1) (omega (arith, count-pop h i r xs e))

stands_behind :
    (before rs : List RawRecord)
    → AreOrdered (length before) rs
    → All (λ r. get_elem? (before ++ rs) r.ordinal ≡ some r) rs
stands_behind before [] h = tt
stands_behind before (r ∷ rs) h = (
  ap (λ n. get_elem? (before ++ (r ∷ rs)) n) h.0 ∙ get-behind before r rs,
  subst (λ xs. All (λ q. get_elem? xs q.ordinal ≡ some q) rs) (sym (append_snoc before r rs))
      (stands_behind (before ++ (r ∷ [])) rs (rw (length-snoc before r) h.2)),
)

-- A record of an ordered document stands at its ordinal.
pub AreOrdered-stands :
    (rs : List RawRecord) → AreOrdered 0 rs → All (λ r. get_elem? rs r.ordinal ≡ some r) rs
AreOrdered-stands rs h = stands_behind [] rs h
