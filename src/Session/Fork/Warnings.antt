-- ===== src/Session/Fork/Warnings.antt =====
-- `_remap_warnings` of session.py: the warnings of a forked document.
use password_bonobo.Prelude.{
  ℕ, suc, ◌+◌, ◌≡◌, refl, sym, ap, ◌∙◌, true, some, List, [], ◌∷◌, ◌++◌, arith, inl, inr, ◌⊎◌,
  Bool-cases,
}
use password_bonobo.Model.{RawField}
use password_bonobo.Session.Fork.{
  PlannedField, kept, made, PlannedRecord, Coordinates, same_coordinates, Location, remapped_fields,
  remapped, locate,
}
use password_bonobo.Session.Fork.Fields.{get_elem?, StandsAt}

same_coordinates→eq : (c d : Coordinates) → same_coordinates c d ≡ true → c ≡ d
same_coordinates→eq c d h = ground arith

pub same_coordinates_refl : (c : Coordinates) → same_coordinates c c ≡ true
same_coordinates_refl c = ground arith

-- What is found among the fields of one record, or behind them.
locate-remapped_fields :
    (source r n : ℕ) (fs : List PlannedField) (rest : List (Coordinates × Location))
    (c : Coordinates) (l : Location)
    → locate (remapped_fields source r n fs ++ rest) c ≡ some l
    → ((j : ℕ) × (raw : RawField) × (l ≡ (r, n + j))
        × (get_elem? fs j ≡ some (kept raw))
        × (c ≡ record {
          record_ordinal = source;
          field_ordinal = raw.ordinal;
          type_code = raw.type_code;
        }))
      ⊎ (locate rest c ≡ some l)
unfolding locate remapped_fields
locate-remapped_fields source r n [] rest c l h = inr h
locate-remapped_fields source r n (made raw ∷ fs) rest c l h =
    elim (locate-remapped_fields source r (n + 1) fs rest c l h) [
      | inl (j, found, e, g, k) ↦ inl (suc j, found, e ∙ ap (λ m. (r, m)) (omega arith), g, k)
      | inr later ↦ inr later
    ]
locate-remapped_fields source r n (kept raw ∷ fs) rest c l h =
    let d : Coordinates = record {
      record_ordinal = source;
      field_ordinal = raw.ordinal;
      type_code = raw.type_code;
    } in
    elim (Bool-cases (same_coordinates d c)) [
      | inl same ↦
          let found : some (r, n) ≡ some l = rw same at h in
          let here : l ≡ (r, n) = cc in
          inl (
            0,
            raw,
            here ∙ ap (λ m. (r, m)) (omega arith),
            refl,
            sym (same_coordinates→eq d c same),
          )
      | inr other ↦
          let later : locate (remapped_fields source r (n + 1) fs ++ rest) c ≡ some l =
            rw other at h in
          elim (locate-remapped_fields source r (n + 1) fs rest c l later) [
            | inl (j, found, e, g, k) ↦ inl (suc j, found, e ∙ ap (λ m. (r, m)) (omega arith), g, k)
            | inr behind ↦ inr behind
          ]
    ]

stands_here :
    (p : PlannedRecord) (ps : List PlannedRecord) (n j : ℕ) (raw : RawField) (c : Coordinates)
    (l : Location)
    → l ≡ (n, 0 + j)
    → get_elem? p.fields j ≡ some (kept raw)
    → c ≡ record {
      record_ordinal = p.ordinal;
      field_ordinal = raw.ordinal;
      type_code = raw.type_code;
    }
    → StandsAt (p ∷ ps) n c l
stands_here p ps n j raw c l e g k = record {
  index = 0;
  raw = raw;
  location = ap (λ m. m.0) e ∙ omega arith;
  planned = rw k (let place : l.1 ≡ j = ap (λ m. m.1) e ∙ omega arith in rw (place, g));
  ordinal = sym (ap (λ m. m.field_ordinal) k);
  type_code = sym (ap (λ m. m.type_code) k);
}

-- A location that is found is that of a kept field with the coordinates.
pub locate-StandsAt :
    (n : ℕ) (ps : List PlannedRecord) (c : Coordinates) (l : Location)
    → locate (remapped n ps) c ≡ some l
    → StandsAt ps n c l
unfolding remapped locate
locate-StandsAt n [] c l h = cc
locate-StandsAt n (p ∷ ps) c l h =
    elim (locate-remapped_fields p.ordinal n 0 p.fields (remapped (n + 1) ps) c l h) [
      | inl (j, raw, e, g, k) ↦ stands_here p ps n j raw c l e g k
      | inr later ↦
          let s = locate-StandsAt (n + 1) ps c l later in
          record {
            index = suc s.index;
            raw = s.raw;
            location = omega (arith, s.location);
            planned = s.planned;
            ordinal = s.ordinal;
            type_code = s.type_code;
          }
    ]
