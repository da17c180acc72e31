-- ===== src/Session/Edits/Replace.antt =====
-- The two loops of `_edited_fields` in session.py, by the fields of one type.
use password_bonobo.Prelude.{
  ℕ, ◌≡◌, ◌≢◌, refl, ◌∙◌, Option, none, some, List, [], ◌∷◌, ◌++◌, map, append-nil, ◌==◌, inl, inr,
  Bool-cases, arith,
}
use password_bonobo.Model.{RawField}
use password_bonobo.Session.Fork.{PlannedField, raw_of}
use password_bonobo.Session.Edits.{
  matching, Replacements, replacement_of, without, insert_before_end,
}

-- The planned fields of a type.
abbrev pub planned_matching : ℕ → List PlannedField → List RawField
planned_matching t fs = matching t (map raw_of fs)

-- A replacement has the type that it is for.
abbrev pub AreTyped : Replacements → Type 0
AreTyped [] = Unit
AreTyped ((t, none) ∷ rs) = AreTyped rs
AreTyped ((t, some raw) ∷ rs) = (raw.type_code ≡ t) × AreTyped rs

-- No type has two replacements.
abbrev pub AreOnce : Replacements → Type 0
AreOnce [] = Unit
AreOnce ((t, r) ∷ rs) = (replacement_of rs t ≡ none) × AreOnce rs

-- What a replacement puts into the record.
abbrev pub listed : Option RawField → List RawField
listed none = []
listed (some raw) = raw ∷ []

pub planned_matching-append :
    (t : ℕ) (xs ys : List PlannedField)
    → planned_matching t (xs ++ ys) ≡ planned_matching t xs ++ planned_matching t ys
planned_matching-append t [] ys = refl
planned_matching-append t (f ∷ fs) ys = ground (arith, planned_matching-append t fs ys)

pub insert-planned_matching :
    (t : ℕ) (new fs : List PlannedField)
    → planned_matching t new ≡ []
    → planned_matching t (insert_before_end new fs) ≡ planned_matching t fs
unfolding insert_before_end
insert-planned_matching t new [] h = h
insert-planned_matching t new (f ∷ fs) h = elim (Bool-cases ((raw_of f).type_code == 0xFF)) [
  | inl terminator ↦ rw terminator (planned_matching-append t new (f ∷ fs) ∙ rw h)
  | inr before ↦ rw before (ground (arith, insert-planned_matching t new fs h))
]

pub insert-planned_matching_new :
    (t : ℕ) (new fs : List PlannedField)
    → planned_matching t fs ≡ []
    → planned_matching t (insert_before_end new fs) ≡ planned_matching t new
unfolding insert_before_end
insert-planned_matching_new t new [] h = refl
insert-planned_matching_new t new (f ∷ fs) h = elim (Bool-cases ((raw_of f).type_code == 0xFF)) [
  | inl terminator ↦
      rw terminator
        (planned_matching-append t new (f ∷ fs) ∙ rw h (append-nil (planned_matching t new)))
  | inr before ↦ rw before (ground (arith, insert-planned_matching_new t new fs))
]

-- Taking a replacement away leaves those of other types.
pub without-other :
    (rs : Replacements) (t u : ℕ) → u ≢ t → replacement_of (without rs u) t ≡ replacement_of rs t
unfolding replacement_of without
without-other [] t u h = refl
without-other ((v, r) ∷ rs) t u h = ground (arith, without-other rs t u h)

pub without-none :
    (rs : Replacements) (t u : ℕ)
    → replacement_of rs t ≡ none
    → replacement_of (without rs u) t ≡ none
unfolding replacement_of without
without-none [] t u h = refl
without-none ((v, r) ∷ rs) t u h = ground (arith, without-none rs t u)

pub without_self : (rs : Replacements) (t : ℕ) → AreOnce rs → replacement_of (without rs t) t ≡ none
unfolding replacement_of without
without_self [] t h = refl
without_self ((v, r) ∷ rs) t h = elim (Bool-cases (v == t)) [
  | inl it ↦ let same : v ≡ t = ground arith in rw it (rw (← same) h.0)
  | inr other ↦ rw (other, replacement_of, other) (without_self rs t h.1)
]

pub without-AreTyped : (rs : Replacements) (t : ℕ) → AreTyped rs → AreTyped (without rs t)
unfolding without
without-AreTyped [] t h = tt
without-AreTyped ((v, none) ∷ rs) t h = elim (Bool-cases (v == t)) [
  | inl it ↦ rw it h
  | inr other ↦ rw other (without-AreTyped rs t h)
]
without-AreTyped ((v, some raw) ∷ rs) t h = elim (Bool-cases (v == t)) [
  | inl it ↦ rw it h.1
  | inr other ↦ rw other (h.0, without-AreTyped rs t h.1)
]

pub without-AreOnce : (rs : Replacements) (t : ℕ) → AreOnce rs → AreOnce (without rs t)
unfolding without
without-AreOnce [] t h = tt
without-AreOnce ((v, r) ∷ rs) t h = elim (Bool-cases (v == t)) [
  | inl it ↦ rw it h.1
  | inr other ↦ rw other (without-none rs v t h.0, without-AreOnce rs t h.1)
]

-- A replacement has the type that it is found by.
pub replacement_of-type :
    (rs : Replacements) (t : ℕ) (raw : RawField)
    → AreTyped rs
    → replacement_of rs t ≡ some (some raw)
    → raw.type_code ≡ t
unfolding replacement_of
replacement_of-type [] t raw h e = cc
replacement_of-type ((v, none) ∷ rs) t raw h e = ground (arith, replacement_of-type rs t raw)
replacement_of-type ((v, some r) ∷ rs) t raw h e = ground (arith, replacement_of-type rs t raw)
