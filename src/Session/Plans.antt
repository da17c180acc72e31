-- ===== src/Session/Plans.antt =====
-- What a plan of session.py rests on: a session that takes changes, and records of its document.
use password_bonobo.Prelude.{
  ℕ, ◌+◌, ◌≡◌, sym, ap, subst, ◌∙◌, Bool, List, [], ◌∷◌, length, map, take, drop, ◌==◌, All,
  All-append, All-take, All-drop, inl, inr, Bool-cases, arith,
}
use password_bonobo.Errors.{ok, raise-neq-ok}
use password_bonobo.Model.{RawRecord}
use password_bonobo.Session.Fork.{PlannedField}
use password_bonobo.Session.Fork.Places.{AreOrdered, AreDistinct}
use password_bonobo.Session.Fork.Handles.{AreBelow}
use password_bonobo.Session.Fork.Fields.{Kept}
use password_bonobo.Session.Edits.{RecordEdit}
use password_bonobo.Session.Edits.Kept.{edited_fields-Kept, map-kept, map-made}
use password_bonobo.Session.Create.{NewRecord}
use password_bonobo.Session.Protect.{plan_protection}
use password_bonobo.Session.Protect.Kept.{protected_fields-Kept, plan_protection-cases}
use password_bonobo.Session.Cases.{
  plan_apply-Applies, plan_add-Adds, plan_move-Moves, plan_delete-Deletes,
}
use password_bonobo.Session.Origin.{IsAt, IsFrom, IsOf, AreOrdered-IsOf}
use password_bonobo.Session.Find.{IsMutable, require_mutable-cases, find_in-All, find_in-only}
use password_bonobo.Session.{
  VaultSession, Plan, require_mutable, find_in, unchanged, with_fields, others, pop, insert_at,
  plan_apply, plan_add, plan_move, plan_delete,
}

-- What a session's document must be for its plans.
pub record HasRecords (s : VaultSession) : Type 0 where
  pub ordered : AreOrdered 0 s.document.records
  pub distinct : AreDistinct [] s.document.records
  pub below : AreBelow s.issued s.document.records

pub record IsPlanned (s : VaultSession) (expected_revision : ℕ) (p : Plan) : Type 0 where
  pub taken : IsMutable s expected_revision
  pub planned : All (IsFrom s.document.records (s.issued + 1)) p.planned

unchanged-IsFrom :
    (old : List RawRecord) (n : ℕ) (r : RawRecord) → IsOf old n r → IsFrom old (n + 1) (unchanged r)
unchanged-IsFrom old n r h = record {
  fields = map-kept (IsAt old r.ordinal) r.fields h.fields;
  handle = omega (arith, h.handle);
}

pub map-unchanged :
    (old : List RawRecord) (n : ℕ) (rs : List RawRecord)
    → All (IsOf old n) rs
    → All (IsFrom old (n + 1)) (map unchanged rs)
map-unchanged old n [] h = tt
map-unchanged old n (r ∷ rs) h = (unchanged-IsFrom old n r h.0, map-unchanged old n rs h.1)

with_fields-IsFrom :
    (old : List RawRecord) (n handle : ℕ) (found : RawRecord) (fs : List PlannedField)
    (rs : List RawRecord)
    → All (IsOf old n) rs
    → All (λ r. r.handle ≡ handle → r ≡ found) rs
    → All (Kept (IsAt old found.ordinal)) fs
    → All (IsFrom old (n + 1)) (with_fields handle fs rs)
with_fields-IsFrom old n handle found fs [] h only k = tt
with_fields-IsFrom old n handle found fs (r ∷ rs) h only k = (
  elim (Bool-cases (r.handle == handle)) [
    | inl it ↦
        let same : r ≡ found = only.0 (ground arith) in
        rw it (record {
          fields = subst (λ m. All (Kept (IsAt old m)) fs) (sym (ap (λ m. m.ordinal) same)) k;
          handle = omega (arith, h.0.handle);
        })
    | inr other ↦ rw other (unchanged-IsFrom old n r h.0)
  ],
  with_fields-IsFrom old n handle found fs rs h.1 only.1 k,
)

pub others-All {ℓ} :
    (P : RawRecord → Type ℓ) (handle : ℕ) (rs : List RawRecord)
    → All P rs
    → All P (others handle rs)
others-All P handle [] h = tt
others-All P handle (r ∷ rs) h = elim (Bool-cases (r.handle == handle)) [
  | inl it ↦ rw it (others-All P handle rs h.1)
  | inr other ↦ rw other (h.0, others-All P handle rs h.1)
]

pub moved-All {ℓ} :
    (P : RawRecord → Type ℓ) (records : List RawRecord) (handle ordinal : ℕ) (r : RawRecord)
    → All P records
    → find_in records handle ≡ ok r
    → All P (insert_at ordinal r (pop r.ordinal records))
moved-All P records handle ordinal r all e =
    let popped =
      All-append P (take r.ordinal records) (drop (r.ordinal + 1) records)
        (All-take P r.ordinal records all) (All-drop P (r.ordinal + 1) records all) in
    let found = find_in-All P records handle r all e in
    All-append P (take ordinal (pop r.ordinal records)) (r ∷ drop ordinal (pop r.ordinal records))
      (All-take P ordinal (pop r.ordinal records) popped)
      (found.0, All-drop P ordinal (pop r.ordinal records) popped)

module _ (s : VaultSession) (h : HasRecords s) where
  All-IsOf : All (IsOf s.document.records s.issued) s.document.records
  All-IsOf = AreOrdered-IsOf s.issued s.document.records h.ordered h.below

  replaced-IsFrom :
      (handle : ℕ) (found : RawRecord) (fs : List PlannedField)
      → find_in s.document.records handle ≡ ok found
      → All (Kept (IsAt s.document.records found.ordinal)) fs
      → All (IsFrom s.document.records (s.issued + 1)) (with_fields handle fs s.document.records)
  replaced-IsFrom handle found fs e k =
      with_fields-IsFrom s.document.records s.issued handle found fs s.document.records All-IsOf
        (find_in-only [] s.document.records handle found h.distinct e) k

  found_fields :
      (handle : ℕ) (found : RawRecord)
      → find_in s.document.records handle ≡ ok found
      → All (IsAt s.document.records found.ordinal) found.fields
  found_fields handle found e =
      let of_it =
        find_in-All (IsOf s.document.records s.issued) s.document.records handle found All-IsOf e in
      of_it.0.fields

  taken_by : (expected : ℕ) → require_mutable s expected ≡ ok tt → IsMutable s expected
  taken_by expected e = elim (require_mutable-cases s expected) [
    | inl (_, taken) ↦ taken
    | inr (_, failed) ↦ absurd (raise-neq-ok (sym failed ∙ e))
  ]

  pub plan_apply-IsPlanned :
      (handle expected : ℕ) (edits : List RecordEdit) (p : Plan)
      → plan_apply s handle expected edits ≡ ok p
      → IsPlanned s expected p
  plan_apply-IsPlanned handle expected edits p e =
      let a = plan_apply-Applies s handle expected edits p e in
      subst (IsPlanned s expected) a.plan (record {
        taken = taken_by expected a.mutable;
        planned = replaced-IsFrom handle a.found a.fields a.finds (
            edited_fields-Kept (IsAt s.document.records a.found.ordinal) s.document a.found edits
              a.fields (found_fields handle a.found a.finds) a.edited);
      })

  pub plan_protection-IsPlanned :
      (handle expected : ℕ) (flag : Bool) (p : Plan)
      → plan_protection s handle expected flag ≡ ok p
      → IsPlanned s expected p
  plan_protection-IsPlanned handle expected flag p e =
      let (r, fs, e1, e2, e3, e4) = plan_protection-cases s handle expected flag p e in
      subst (IsPlanned s expected) e4 (record {
        taken = taken_by expected e1;
        planned = replaced-IsFrom handle r fs e2 (
            protected_fields-Kept (IsAt s.document.records r.ordinal) s.document r flag fs
              (found_fields handle r e2) e3);
      })

  pub plan_add-IsPlanned :
      (new : NewRecord) (expected : ℕ) (p : Plan)
      → plan_add s new expected ≡ ok p
      → IsPlanned s expected p
  plan_add-IsPlanned new expected p e =
      let a = plan_add-Adds s new expected p e in
      subst (IsPlanned s expected) a.plan (record {
        taken = taken_by expected a.mutable;
        planned =
            All-append (IsFrom s.document.records (s.issued + 1)) (map unchanged s.document.records)
              _ (map-unchanged s.document.records s.issued s.document.records All-IsOf)
              (
                record {
                  fields = map-made (IsAt s.document.records (length s.document.records)) a.fields;
                  handle = omega arith;
                },
                tt,
              );
      })

  pub plan_move-IsPlanned :
      (handle expected ordinal : ℕ) (p : Plan)
      → plan_move s handle expected ordinal ≡ ok p
      → IsPlanned s expected p
  plan_move-IsPlanned handle expected ordinal p e =
      let a = plan_move-Moves s handle expected ordinal p e in
      subst (IsPlanned s expected) a.plan (record {
        taken = taken_by expected a.mutable;
        planned =
            map-unchanged s.document.records s.issued
              (insert_at ordinal a.found (pop a.found.ordinal s.document.records))
              (moved-All (IsOf s.document.records s.issued) s.document.records handle ordinal
                a.found All-IsOf a.finds);
      })

  pub plan_delete-IsPlanned :
      (handle expected : ℕ) (p : Plan)
      → plan_delete s handle expected ≡ ok p
      → IsPlanned s expected p
  plan_delete-IsPlanned handle expected p e =
      let a = plan_delete-Deletes s handle expected p e in
      subst (IsPlanned s expected) a.plan (record {
        taken = taken_by expected a.mutable;
        planned =
            map-unchanged s.document.records s.issued (others handle s.document.records)
              (others-All (IsOf s.document.records s.issued) handle s.document.records All-IsOf);
      })
