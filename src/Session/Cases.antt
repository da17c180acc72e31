-- ===== src/Session/Cases.antt =====
-- The plans of session.py that are made: what they found, and what they are.
use password_bonobo.Prelude.{
  ℕ, ◌≡◌, ◌<◌, true, false, not, List, [], ◌∷◌, ◌++◌, length, map, ltb, ◌==◌, inl, inr, Bool-cases,
  arith,
}
use password_bonobo.Errors.{ok, raise-neq-ok, ok-injective, Result-cases}
use password_bonobo.Model.{RawField, RawRecord}
use password_bonobo.Session.Fork.{PlannedField, made}
use password_bonobo.Session.Edits.{RecordEdit, edited_fields}
use password_bonobo.Session.Create.{NewRecord, new_record_fields}
use password_bonobo.Session.{
  VaultSession, Plan, edit_change, add_change, move_change, delete_change, require_mutable, find_in,
  is_protected, unchanged, with_fields, others, pop, insert_at, plan_apply, plan_add, plan_move,
  plan_delete,
}

module _ (s : VaultSession) where
  pub record Applies (handle expected : ℕ) (edits : List RecordEdit) (p : Plan) : Type 0 where
    pub found : RawRecord
    pub fields : List PlannedField
    pub mutable : require_mutable s expected ≡ ok tt
    pub finds : find_in s.document.records handle ≡ ok found
    pub unprotected : is_protected found ≡ ok false
    pub edited : edited_fields s.document found edits ≡ ok fields
    pub plan :
        record {
          planned = with_fields handle fields s.document.records;
          kind = edit_change;
          handle = handle;
        }
        ≡ p

  pub plan_apply-Applies :
      (handle expected : ℕ) (edits : List RecordEdit) (p : Plan)
      → plan_apply s handle expected edits ≡ ok p
      → Applies handle expected edits p
  unfolding plan_apply
  plan_apply-Applies handle expected edits p e = elim (Result-cases (require_mutable s expected)) [
    | inr (_, e1) ↦ absurd (raise-neq-ok (rw e1 at e))
    | inl (tt, e1) ↦ elim (Result-cases (find_in s.document.records handle)) [
      | inr (_, e2) ↦ absurd (raise-neq-ok (rw (e1, e2) at e))
      | inl (r, e2) ↦ elim (Result-cases (is_protected r)) [
        | inr (_, e3) ↦ absurd (raise-neq-ok (rw (e1, e2, e3) at e))
        | inl (true, e3) ↦ absurd (raise-neq-ok (rw (e1, e2, e3) at e))
        | inl (false, e3) ↦ elim (Bool-cases (length edits == 0)) [
          | inl e4 ↦ absurd (raise-neq-ok (rw (e1, e2, e3, e4) at e))
          | inr e4 ↦ elim (Result-cases (edited_fields s.document r edits)) [
            | inr (_, e5) ↦ absurd (raise-neq-ok (rw (e1, e2, e3, e4, e5) at e))
            | inl (fs, e5) ↦ record {
              found = r;
              fields = fs;
              mutable = e1;
              finds = e2;
              unprotected = e3;
              edited = e5;
              plan = ok-injective (rw (e1, e2, e3, e4, e5) at e);
            }
          ]
        ]
      ]
    ]
  ]

  pub record Adds (new : NewRecord) (expected : ℕ) (p : Plan) : Type 0 where
    pub fields : List RawField
    pub mutable : require_mutable s expected ≡ ok tt
    pub made_of : new_record_fields new ≡ ok fields
    pub plan :
        record {
          planned =
              map unchanged s.document.records
              ++ (record {
                fields = map made fields;
                ordinal = length s.document.records;
                handle = s.issued;
              }
                  ∷ []);
          kind = add_change;
          handle = s.issued;
        }
        ≡ p

  pub plan_add-Adds :
      (new : NewRecord) (expected : ℕ) (p : Plan)
      → plan_add s new expected ≡ ok p
      → Adds new expected p
  unfolding plan_add
  plan_add-Adds new expected p e = elim (Result-cases (require_mutable s expected)) [
    | inr (_, e1) ↦ absurd (raise-neq-ok (rw e1 at e))
    | inl (tt, e1) ↦ elim (Result-cases (new_record_fields new)) [
      | inr (_, e2) ↦ absurd (raise-neq-ok (rw (e1, e2) at e))
      | inl (fields, e2) ↦ record {
        fields = fields;
        mutable = e1;
        made_of = e2;
        plan = ok-injective (rw (e1, e2) at e);
      }
    ]
  ]

  pub record Moves (handle expected ordinal : ℕ) (p : Plan) : Type 0 where
    pub found : RawRecord
    pub mutable : require_mutable s expected ≡ ok tt
    pub finds : find_in s.document.records handle ≡ ok found
    pub inside : ordinal < length s.document.records
    pub plan :
        record {
          planned = map unchanged (insert_at ordinal found (pop found.ordinal s.document.records));
          kind = move_change;
          handle = handle;
        }
        ≡ p

  pub plan_move-Moves :
      (handle expected ordinal : ℕ) (p : Plan)
      → plan_move s handle expected ordinal ≡ ok p
      → Moves handle expected ordinal p
  unfolding plan_move
  plan_move-Moves handle expected ordinal p e = elim (Result-cases (require_mutable s expected)) [
    | inr (_, e1) ↦ absurd (raise-neq-ok (rw e1 at e))
    | inl (tt, e1) ↦ elim (Result-cases (find_in s.document.records handle)) [
      | inr (_, e2) ↦ absurd (raise-neq-ok (rw (e1, e2) at e))
      | inl (r, e2) ↦ elim (Bool-cases (not (ltb ordinal (length s.document.records)))) [
        | inl e3 ↦ absurd (raise-neq-ok (rw (e1, e2, e3) at e))
        | inr e3 ↦ elim (Bool-cases (r.ordinal == ordinal)) [
          | inl e4 ↦ absurd (raise-neq-ok (rw (e1, e2, e3, e4) at e))
          | inr e4 ↦ record {
            found = r;
            mutable = e1;
            finds = e2;
            inside = ground (arith, e3);
            plan = ok-injective (rw (e1, e2, e3, e4) at e);
          }
        ]
      ]
    ]
  ]

  pub record Deletes (handle expected : ℕ) (p : Plan) : Type 0 where
    pub found : RawRecord
    pub mutable : require_mutable s expected ≡ ok tt
    pub finds : find_in s.document.records handle ≡ ok found
    pub unprotected : is_protected found ≡ ok false
    pub plan :
        record {
          planned = map unchanged (others handle s.document.records);
          kind = delete_change;
          handle = handle;
        }
        ≡ p

  pub plan_delete-Deletes :
      (handle expected : ℕ) (p : Plan)
      → plan_delete s handle expected ≡ ok p
      → Deletes handle expected p
  unfolding plan_delete
  plan_delete-Deletes handle expected p e = elim (Result-cases (require_mutable s expected)) [
    | inr (_, e1) ↦ absurd (raise-neq-ok (rw e1 at e))
    | inl (tt, e1) ↦ elim (Result-cases (find_in s.document.records handle)) [
      | inr (_, e2) ↦ absurd (raise-neq-ok (rw (e1, e2) at e))
      | inl (r, e2) ↦ elim (Result-cases (is_protected r)) [
        | inr (_, e3) ↦ absurd (raise-neq-ok (rw (e1, e2, e3) at e))
        | inl (true, e3) ↦ absurd (raise-neq-ok (rw (e1, e2, e3) at e))
        | inl (false, e3) ↦ record {
          found = r;
          mutable = e1;
          finds = e2;
          unprotected = e3;
          plan = ok-injective (rw (e1, e2, e3) at e);
        }
      ]
    ]
  ]
