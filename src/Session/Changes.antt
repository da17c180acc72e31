-- ===== src/Session/Changes.antt =====
-- The changes of session.py that return, on the document that they leave.
use password_bonobo.Prelude.{
  ℕ, ◌+◌, ◌≡◌, ◌≤◌, ◌<◌, refl, sym, ap, subst, ◌∙◌, false, some, List, [], ◌∷◌, ◌++◌, length, map,
  arith,
}
use password_bonobo.Errors.{Result, ok, raise, raise-neq-ok}
use password_bonobo.Model.{RawRecord}
use password_bonobo.Session.Fork.{PlannedRecord, place_records, fork_document}
use password_bonobo.Session.Fork.Places.{ArePlaced, AreDistinct, distinct_records-eq}
use password_bonobo.Session.Fork.Fields.{get_elem?}
use password_bonobo.Session.Fork.Follow.{Follows, fork_document-Follows}
use password_bonobo.Session.Origin.{All-IsPlanOf}
use password_bonobo.Session.Find.{find_in-All, find_in-Between}
use password_bonobo.Session.Counts.{count, count-AreDistinct, count-others}
use password_bonobo.Session.Effects.{
  renumber, HaveOrder, AreOrdered-HaveOrder, place-unchanged, count-renumber, count-insert_at,
  count-pop, AreOrdered-stands,
}
use password_bonobo.Session.Cases.{plan_move-Moves, plan_delete-Deletes}
use password_bonobo.Session.Plans.{
  IsPlanned, plan_move-IsPlanned, plan_delete-IsPlanned, others-All, moved-All,
}
use password_bonobo.Session.Sound.{IsSound, records_of}
use password_bonobo.Session.{
  VaultSession, RecordView, ChangeKind, move_change, delete_change, Plan, commit, run_plan,
  run_unseen, find_in, is_protected, unchanged, others, pop, insert_at, move, delete, plan_move,
  plan_delete,
}

-- The session behind a change of this kind that leaves these records.
pub record IsRevised (s t : VaultSession) (kind : ChangeKind) (handle : ℕ)
    (plan : List PlannedRecord) (expected : List RawRecord) : Type 0 where
  pub records : t.document.records ≡ expected
  pub header : t.document.header_fields ≡ s.document.header_fields
  pub version : t.document.version ≡ s.document.version
  pub warnings :
      Follows s.document.records t.document.records plan s.document.warnings t.document.warnings
  pub changes :
      t.changes
      ≡ s.changes ++ (record { kind = kind; handle = handle; revision = t.document.revision } ∷ [])

run_plan-ok :
    (s t : VaultSession) (r : Result Plan) (v : RecordView)
    → run_plan s r ≡ (ok v, t)
    → (p : Plan) × (r ≡ ok p) × (commit s p ≡ t)
unfolding run_plan
run_plan-ok s t (raise e) v h = absurd (raise-neq-ok (ap (λ m. m.0) h))
run_plan-ok s t (ok p) v h = (p, refl, ap (λ m. m.1) h)

run_unseen-ok :
    (s t : VaultSession) (r : Result Plan)
    → run_unseen s r ≡ (ok tt, t)
    → (p : Plan) × (r ≡ ok p) × (commit s p ≡ t)
unfolding run_unseen
run_unseen-ok s t (raise e) h = absurd (raise-neq-ok (ap (λ m. m.0) h))
run_unseen-ok s t (ok p) h = (p, refl, ap (λ m. m.1) h)

-- A commit of a plan whose records have distinct handles.
commit-IsRevised :
    (s : VaultSession) (expected : ℕ) (p : Plan) (records : List RawRecord)
    → IsPlanned s expected p
    → place_records 0 p.planned ≡ records
    → AreDistinct [] records
    → IsRevised s (commit s p) p.kind p.handle p.planned records
unfolding commit fork_document
commit-IsRevised s expected p records k placed distinct = record {
  records =
      distinct_records-eq (s.issued + 1 + 1) [] (place_records 0 p.planned)
        (subst (AreDistinct []) (sym placed) distinct)
      ∙ placed;
  header = refl;
  version = refl;
  warnings =
      fork_document-Follows (s.issued + 1) s.document p.planned
        (All-IsPlanOf s.document.records (s.issued + 1) p.planned k.planned);
  changes = refl;
}

module _ (s t : VaultSession) (h : IsSound s) where
  renumber-IsRevised :
      (expected handle : ℕ) (rs : List RawRecord) (kind : ChangeKind) (p : Plan)
      → IsPlanned s expected p
      → record { planned = map unchanged rs; kind = kind; handle = handle } ≡ p
      → commit s p ≡ t
      → HaveOrder rs
      → ((g : ℕ) → count g rs ≤ count g s.document.records)
      → IsRevised s t kind handle (map unchanged rs) (renumber 0 rs)
  renumber-IsRevised expected handle rs kind p k same e order counts =
      let distinct : AreDistinct [] (renumber 0 rs) =
        count-AreDistinct s.document.records (renumber 0 rs) h.distinct
          (λ g. omega (arith, count-renumber g 0 rs, counts g)) in
      let plan : Plan = record { planned = map unchanged rs; kind = kind; handle = handle } in
      subst (λ u. IsRevised s u kind handle (map unchanged rs) (renumber 0 rs))
        (ap (commit s) same ∙ e)
        (commit-IsRevised s expected plan (renumber 0 rs)
          (subst (IsPlanned s expected) (sym same) k) (place-unchanged 0 rs order) distinct)

  moved-HaveOrder :
      (handle ordinal : ℕ) (found : RawRecord)
      → find_in s.document.records handle ≡ ok found
      → HaveOrder (insert_at ordinal found (pop found.ordinal s.document.records))
  moved-HaveOrder handle ordinal found e =
      moved-All (λ r. ArePlaced 0 r.fields) s.document.records handle ordinal found
        (AreOrdered-HaveOrder 0 s.document.records h.ordered) e

  -- In a session in order, a move that returns took the record from its place and put it at the
  -- new one; the others keep their order and their fields, the ordinals are the places, the header
  -- and the version stay, the warnings follow their fields, and the change is recorded with the
  -- new revision.
  pub move-IsRevised :
      (handle expected ordinal : ℕ) (v : RecordView)
      → move s handle expected ordinal ≡ (ok v, t)
      → (found : RawRecord) × (get_elem? s.document.records found.ordinal ≡ some found)
        × (found.handle ≡ handle)
        × (ordinal < length s.document.records)
        × IsRevised s t move_change handle
            (map unchanged (insert_at ordinal found (pop found.ordinal s.document.records)))
            (renumber 0 (insert_at ordinal found (pop found.ordinal s.document.records)))
  unfolding move
  move-IsRevised handle expected ordinal v e =
      let (p, made_plan, done) = run_plan-ok s t (plan_move s handle expected ordinal) v e in
      let a = plan_move-Moves s handle expected ordinal p made_plan in
      let records = s.document.records in
      let found =
        find_in-All (λ r. get_elem? records r.ordinal ≡ some r) records handle a.found
          (AreOrdered-stands records h.ordered) a.finds in
      (
        a.found,
        found.0,
        found.1,
        a.inside,
        renumber-IsRevised expected handle (insert_at ordinal a.found (pop a.found.ordinal records))
            move_change p (plan_move-IsPlanned s (records_of h) handle expected ordinal p made_plan)
            a.plan done (moved-HaveOrder handle ordinal a.found a.finds)
            (λ g. omega (
              arith,
              count-insert_at g ordinal a.found (pop a.found.ordinal records),
              count-pop g a.found.ordinal a.found records found.0,
            )),
      )

  -- In a session in order, a deletion that returns found a record with the handle that is not
  -- protected; the document has the records that stood before and behind it, in their order and with
  -- their fields, the ordinals are the places, the header and the version stay, the warnings follow
  -- their fields, and the change is recorded with the new revision.
  pub delete-IsRevised :
      (handle expected : ℕ)
      → delete s handle expected ≡ (ok tt, t)
      → (before : List RawRecord) × (found : RawRecord) × (after : List RawRecord)
        × (s.document.records ≡ before ++ (found ∷ after))
        × (found.handle ≡ handle)
        × (is_protected found ≡ ok false)
        × IsRevised s t delete_change handle
            (map unchanged (before ++ after))
            (renumber 0 (before ++ after))
  unfolding delete
  delete-IsRevised handle expected e =
      let (p, made_plan, done) = run_unseen-ok s t (plan_delete s handle expected) e in
      let a = plan_delete-Deletes s handle expected p made_plan in
      let records = s.document.records in
      let b = find_in-Between [] records handle a.found h.distinct a.finds in
      (
        b.before,
        a.found,
        b.after,
        b.split,
        b.has_handle,
        a.unprotected,
        subst (λ rs. IsRevised s t delete_change handle (map unchanged rs) (renumber 0 rs)) b.kept
            (renumber-IsRevised expected handle (others handle records) delete_change p
              (plan_delete-IsPlanned s (records_of h) handle expected p made_plan) a.plan done
              (others-All (λ r. ArePlaced 0 r.fields) handle records
                (AreOrdered-HaveOrder 0 records h.ordered))
              (λ g. count-others handle g records)),
      )
