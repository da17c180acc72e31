-- ===== src/Session/Protect/Kept.antt =====
-- The fields that `_change_protection` of session.py keeps are fields of the record.
use password_bonobo.Prelude.{
  ℕ, ◌≡◌, subst, Bool, true, false, not, Option, none, some, List, [], ◌∷◌, length, map, ltb, ◌==◌,
  if◌then◌else◌, All, inl, inr, Bool-cases,
}
use password_bonobo.Errors.{ok, Result-cases, raise-neq-ok, ok-injective}
use password_bonobo.Model.{RawField, RawRecord, VaultDocument}
use password_bonobo.Schema.{lookup_record_spec}
use password_bonobo.Session.Fork.{PlannedField, kept, made}
use password_bonobo.Session.Fork.Fields.{Kept}
use password_bonobo.Session.Edits.{matching, first_of, as_understood}
use password_bonobo.Session.Edits.Kept.{insert_before_end-Kept, map-kept}
use password_bonobo.Session.Protect.{
  in_place, place_protected, without_protected, protected_fields, encode_flag, too_old,
  plan_protection, change_kind,
}
use password_bonobo.Session.{
  VaultSession, Plan, require_mutable, find_record, find_in, is_protected, with_fields,
}

module _ (P : RawField → Type 0) where
  in_place-Kept :
      (new : RawField) (raws : List RawField) → All P raws → All (Kept P) (in_place new raws)
  unfolding in_place
  in_place-Kept new [] h = tt
  in_place-Kept new (raw ∷ raws) h = elim (Bool-cases (raw.type_code == 0x15)) [
    | inl it ↦ rw it (tt, in_place-Kept new raws h.1)
    | inr other ↦ rw other (h.0, in_place-Kept new raws h.1)
  ]

  without_protected-Kept :
      (raws : List RawField) → All P raws → All (Kept P) (without_protected raws)
  unfolding without_protected
  without_protected-Kept [] h = tt
  without_protected-Kept (raw ∷ raws) h = elim (Bool-cases (raw.type_code == 0x15)) [
    | inl it ↦ rw it (without_protected-Kept raws h.1)
    | inr other ↦ rw other (h.0, without_protected-Kept raws h.1)
  ]

  place_protected-Kept :
      (new : RawField) (found : Option RawField) (raws : List RawField)
      → All P raws
      → All (Kept P) (place_protected new found raws)
  unfolding place_protected
  place_protected-Kept new (some raw) raws h = in_place-Kept new raws h
  place_protected-Kept new none raws h =
      insert_before_end-Kept P (made new ∷ []) (map kept raws) (tt, tt) (map-kept P raws h)

  pub protected_fields-Kept :
      (document : VaultDocument) (r : RawRecord) (flag : Bool) (fs : List PlannedField)
      → All P r.fields
      → protected_fields document r flag ≡ ok fs
      → All (Kept P) fs
  unfolding protected_fields
  protected_fields-Kept document r false fs h e =
      elim (Bool-cases (ltb 1 (length (matching 0x15 r.fields)))) [
        | inl many ↦ absurd (raise-neq-ok (rw many at e))
        | inr one ↦
            subst (All (Kept P)) (ok-injective (rw one at e)) (without_protected-Kept r.fields h)
      ]
  protected_fields-Kept document r true fs h e =
      elim (Bool-cases (ltb 1 (length (matching 0x15 r.fields)))) [
        | inl many ↦ absurd (raise-neq-ok (rw many at e))
        | inr one ↦ elim (Bool-cases (too_old document (lookup_record_spec 0x15))) [
          | inl old ↦ absurd (raise-neq-ok (rw (one, old) at e))
          | inr new ↦
              elim (Result-cases (
                encode_flag (lookup_record_spec 0x15) (first_of (matching 0x15 r.fields))
                  (length r.fields))) [
                    | inr (_, failed) ↦ absurd (raise-neq-ok (rw (one, new, failed) at e))
                    | inl (raw, encoded) ↦
                        subst (All (Kept P)) (ok-injective (rw (one, new, encoded) at e)) (
                          place_protected-Kept (as_understood raw)
                            (first_of (matching 0x15 r.fields)) r.fields h)
                  ]
        ]
      ]

-- A plan that is made: the record was found, and its fields are those of the flag.
pub plan_protection-cases :
    (s : VaultSession) (handle expected_revision : ℕ) (flag : Bool) (p : Plan)
    → plan_protection s handle expected_revision flag ≡ ok p
    → (r : RawRecord) × (fs : List PlannedField) × (require_mutable s expected_revision ≡ ok tt)
      × (find_record s.document handle ≡ ok r)
      × (protected_fields s.document r flag ≡ ok fs)
      × (record {
        planned = with_fields handle fs s.document.records;
        kind = change_kind flag;
        handle = handle;
      }
          ≡ p)
unfolding plan_protection
plan_protection-cases s handle expected_revision flag p e =
    elim (Result-cases (require_mutable s expected_revision)) [
      | inr (_, e1) ↦ absurd (raise-neq-ok (rw e1 at e))
      | inl (tt, e1) ↦ elim (Result-cases (find_in s.document.records handle)) [
        | inr (_, e2) ↦ absurd (raise-neq-ok (rw (e1, e2) at e))
        | inl (r, e2) ↦ elim (Result-cases (is_protected r)) [
          | inr (_, e3) ↦ absurd (raise-neq-ok (rw (e1, e2, e3) at e))
          | inl (flagged, e3) ↦ elim (Bool-cases (if flag then flagged else not flagged)) [
            | inl e4 ↦ absurd (raise-neq-ok (rw (e1, e2, e3, e4) at e))
            | inr e4 ↦ elim (Result-cases (protected_fields s.document r flag)) [
              | inr (_, e5) ↦ absurd (raise-neq-ok (rw (e1, e2, e3, e4, e5) at e))
              | inl (fs, e5) ↦ (r, fs, e1, e2, e5, ok-injective (rw (e1, e2, e3, e4, e5) at e))
            ]
          ]
        ]
      ]
    ]
