-- ===== src/Session/Edits/Kept.antt =====
-- The fields that an edit keeps are fields of the record (session.py).
use password_bonobo.Prelude.{
  ◌≡◌, subst, Option, none, some, List, [], ◌∷◌, map, ◌==◌, All, All-append, inl, inr, Bool-cases,
}
use password_bonobo.Errors.{ok, Result-cases, raise-neq-ok, ok-injective}
use password_bonobo.Model.{RawField, RawRecord, VaultDocument}
use password_bonobo.Session.Fork.{PlannedField, kept, made, raw_of}
use password_bonobo.Session.Fork.Fields.{Kept}
use password_bonobo.Session.Edits.{
  RecordEdit, Replacements, plan_edits, replacement_of, without, replaced_by, replace_fields, added,
  insert_before_end, edited_fields,
}

module _ (P : RawField → Type 0) where
  pub insert_before_end-Kept :
      (new fs : List PlannedField)
      → All (Kept P) new
      → All (Kept P) fs
      → All (Kept P) (insert_before_end new fs)
  unfolding insert_before_end
  insert_before_end-Kept new [] n h = n
  insert_before_end-Kept new (f ∷ fs) n h = elim (Bool-cases ((raw_of f).type_code == 0xFF)) [
    | inl terminator ↦ rw terminator (All-append (Kept P) new (f ∷ fs) n h)
    | inr before ↦ rw before (h.0, insert_before_end-Kept new fs n h.1)
  ]

  pub map-kept : (raws : List RawField) → All P raws → All (Kept P) (map kept raws)
  map-kept [] h = tt
  map-kept (raw ∷ raws) h = (h.0, map-kept raws h.1)

  pub map-made : (raws : List RawField) → All (Kept P) (map made raws)
  map-made [] = tt
  map-made (raw ∷ raws) = (tt, map-made raws)

  added-Kept : (rs : Replacements) → All (Kept P) (added rs)
  added-Kept [] = tt
  added-Kept ((t, none) ∷ rs) = added-Kept rs
  added-Kept ((t, some raw) ∷ rs) = (tt, added-Kept rs)

  replaced_by-Kept :
      (raw : RawField) (r : Option (Option RawField)) → P raw → All (Kept P) (replaced_by raw r)
  replaced_by-Kept raw none h = (h, tt)
  replaced_by-Kept raw (some none) h = tt
  replaced_by-Kept raw (some (some new)) h = (tt, tt)

  replace_fields-Kept :
      (rs : Replacements) (raws : List RawField)
      → All P raws
      → All (Kept P) (replace_fields rs raws).0
  unfolding replace_fields
  replace_fields-Kept rs [] h = tt
  replace_fields-Kept rs (raw ∷ raws) h =
      All-append (Kept P) (replaced_by raw (replacement_of rs raw.type_code))
        (replace_fields (without rs raw.type_code) raws).0
        (replaced_by-Kept raw (replacement_of rs raw.type_code) h.0)
        (replace_fields-Kept (without rs raw.type_code) raws h.1)

  pub edited_fields-Kept :
      (document : VaultDocument) (r : RawRecord) (edits : List RecordEdit) (fs : List PlannedField)
      → All P r.fields
      → edited_fields document r edits ≡ ok fs
      → All (Kept P) fs
  unfolding edited_fields
  edited_fields-Kept document r edits fs h e =
      elim (Result-cases (plan_edits document r [] edits)) [
        | inr (_, failed) ↦ absurd (raise-neq-ok (rw failed at e))
        | inl (rs, planned) ↦ subst (All (Kept P)) (ok-injective (rw planned at e)) (
            insert_before_end-Kept (added (replace_fields rs r.fields).1)
              (replace_fields rs r.fields).0 (added-Kept (replace_fields rs r.fields).1)
              (replace_fields-Kept rs r.fields h))
      ]
