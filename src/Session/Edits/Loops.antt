-- ===== src/Session/Edits/Loops.antt =====
-- What the loops of `_edited_fields` in session.py leave of the fields of one type.
use password_bonobo.Prelude.{
  ℕ, ◌≡◌, ◌≢◌, refl, sym, ap, subst, ◌∙◌, Option, none, some, List, [], ◌∷◌, ◌++◌, ◌==◌, inl, inr,
  ◌⊎◌, Bool-cases, Option-cases, arith,
}
use password_bonobo.Model.{RawField}
use password_bonobo.Session.Edits.{
  matching, Replacements, replacement_of, without, replaced_by, replace_fields,
}
use password_bonobo.Session.Edits.Replace.{
  planned_matching, AreTyped, AreOnce, listed, planned_matching-append, without-other, without-none,
  without_self, without-AreTyped, without-AreOnce, replacement_of-type,
}

-- A field of another type is replaced by none of this type.
replaced_by-other :
    (rs : Replacements) (raw : RawField) (t : ℕ)
    → AreTyped rs
    → raw.type_code ≢ t
    → planned_matching t (replaced_by raw (replacement_of rs raw.type_code)) ≡ []
replaced_by-other rs raw t h other = elim (Option-cases (replacement_of rs raw.type_code)) [
  | inl e ↦ rw e (ground arith)
  | inr (none, e) ↦ rw e
  | inr (some new, e) ↦
      let same = replacement_of-type rs raw.type_code new h e in rw e (ground (arith, same))
]

matching-other :
    (raw : RawField) (raws : List RawField) (t : ℕ)
    → raw.type_code ≢ t
    → matching t (raw ∷ raws) ≡ matching t raws
matching-other raw raws t h = ground arith

matching-same :
    (raw : RawField) (raws : List RawField) (t : ℕ)
    → raw.type_code ≡ t
    → matching t (raw ∷ raws) ≡ raw ∷ matching t raws
matching-same raw raws t h = ground arith

type_cases : (raw : RawField) (t : ℕ) → (raw.type_code ≡ t) ⊎ (raw.type_code ≢ t)
type_cases raw t = elim (Bool-cases (raw.type_code == t)) [
  | inl it ↦ inl (ground arith)
  | inr other ↦ inr (λ e. ground arith)
]

-- A type that has no replacement keeps its fields.
pub replace_fields-unedited :
    (rs : Replacements) (raws : List RawField) (t : ℕ)
    → AreTyped rs
    → AreOnce rs
    → replacement_of rs t ≡ none
    → (planned_matching t (replace_fields rs raws).0 ≡ matching t raws)
      × (replacement_of (replace_fields rs raws).1 t ≡ none)
unfolding replace_fields
replace_fields-unedited rs [] t h k e = (refl, e)
replace_fields-unedited rs (raw ∷ raws) t h k e =
    let left = without rs raw.type_code in
    let rest =
      replace_fields-unedited left raws t (without-AreTyped rs raw.type_code h)
        (without-AreOnce rs raw.type_code k) (without-none rs t raw.type_code e) in
    let split =
      planned_matching-append t (replaced_by raw (replacement_of rs raw.type_code))
        (replace_fields left raws).0 in
    elim (type_cases raw t) [
      | inl it ↦
          let kept_it : replacement_of rs raw.type_code ≡ none = rw it e in
          (
            split
                ∙ ap
                    (λ m.
                      planned_matching t (replaced_by raw m)
                      ++ planned_matching t (replace_fields left raws).0)
                    kept_it
                ∙ ground (arith, rest.0, matching-same raw raws t it),
            rest.1,
          )
      | inr other ↦ (
        split
            ∙ ap (λ m. m ++ planned_matching t (replace_fields left raws).0)
                (replaced_by-other rs raw t h other)
            ∙ rest.0
            ∙ sym (matching-other raw raws t other),
        rest.1,
      )
    ]

-- A type that has a replacement, and no field in the record, keeps its replacement.
pub replace_fields-absent :
    (rs : Replacements) (raws : List RawField) (t : ℕ) (r : Option RawField)
    → AreTyped rs
    → AreOnce rs
    → replacement_of rs t ≡ some r
    → matching t raws ≡ []
    → (planned_matching t (replace_fields rs raws).0 ≡ [])
      × (replacement_of (replace_fields rs raws).1 t ≡ some r)
unfolding replace_fields
replace_fields-absent rs [] t r h k e m = (refl, e)
replace_fields-absent rs (raw ∷ raws) t r h k e m =
    let left = without rs raw.type_code in
    elim (type_cases raw t) [
      | inl it ↦
          let found : raw ∷ matching t raws ≡ [] = sym (matching-same raw raws t it) ∙ m in cc
      | inr other ↦
          let rest =
            replace_fields-absent left raws t r (without-AreTyped rs raw.type_code h)
              (without-AreOnce rs raw.type_code k) (without-other rs t raw.type_code other ∙ e)
              (sym (matching-other raw raws t other) ∙ m) in
          (
            planned_matching-append t (replaced_by raw (replacement_of rs raw.type_code))
                  (replace_fields left raws).0
                ∙ ap (λ n. n ++ planned_matching t (replace_fields left raws).0)
                    (replaced_by-other rs raw t h other)
                ∙ rest.0,
            rest.1,
          )
    ]

-- A replacement is the field of its type that it puts into the record.
replacement_listed :
    (rs : Replacements) (t : ℕ) (r : Option RawField) (raw : RawField)
    → AreTyped rs
    → replacement_of rs t ≡ some r
    → planned_matching t (replaced_by raw (some r)) ++ [] ≡ listed r
replacement_listed rs t none raw h e = refl
replacement_listed rs t (some new) raw h e = ground (arith, replacement_of-type rs t new h e)

-- A type that has a replacement, and one field in the record, has the replacement in its place.
pub replace_fields-present :
    (rs : Replacements) (raws : List RawField) (t : ℕ) (r : Option RawField) (found : RawField)
    → AreTyped rs
    → AreOnce rs
    → replacement_of rs t ≡ some r
    → matching t raws ≡ found ∷ []
    → (planned_matching t (replace_fields rs raws).0 ≡ listed r)
      × (replacement_of (replace_fields rs raws).1 t ≡ none)
unfolding replace_fields
replace_fields-present rs [] t r found h k e m = cc
replace_fields-present rs (raw ∷ raws) t r found h k e m =
    let left = without rs raw.type_code in
    let split =
      planned_matching-append t (replaced_by raw (replacement_of rs raw.type_code))
        (replace_fields left raws).0 in
    elim (type_cases raw t) [
      | inl it ↦
          let one : raw ∷ matching t raws ≡ found ∷ [] = sym (matching-same raw raws t it) ∙ m in
          let no_more : matching t raws ≡ [] = cc in
          let rest =
            replace_fields-unedited left raws t (without-AreTyped rs raw.type_code h)
              (without-AreOnce rs raw.type_code k)
              (subst (λ u. replacement_of (without rs u) t ≡ none) (sym it)
                (without_self rs t k)) in
          let here : replacement_of rs raw.type_code ≡ some r = rw it e in
          (
            split
                ∙ ap
                    (λ n.
                      planned_matching t (replaced_by raw n)
                      ++ planned_matching t (replace_fields left raws).0)
                    here
                ∙ ap (λ n. planned_matching t (replaced_by raw (some r)) ++ n) (rest.0 ∙ no_more)
                ∙ replacement_listed rs t r raw h e,
            rest.1,
          )
      | inr other ↦
          let rest =
            replace_fields-present left raws t r found (without-AreTyped rs raw.type_code h)
              (without-AreOnce rs raw.type_code k) (without-other rs t raw.type_code other ∙ e)
              (sym (matching-other raw raws t other) ∙ m) in
          (
            split
                ∙ ap (λ n. n ++ planned_matching t (replace_fields left raws).0)
                    (replaced_by-other rs raw t h other)
                ∙ rest.0,
            rest.1,
          )
    ]
