-- ===== src/Session/Steps.antt =====
-- The steps of a session in session.py, and the sessions that are reached from an opened vault.
use password_bonobo.Prelude.{
  ℕ, ◌≤◌, ◌≡◌, refl, sym, ap, subst, ◌∙◌, Option, none, some, List, [], ◌⊎◌, inl, inr, arith,
}
use password_bonobo.Errors.{Result, ok, raise, ok-injective, passed, runtime_error}
use password_bonobo.Constants.{max_io_chunk_bytes}
use password_bonobo.Model.{VaultDocument}
use password_bonobo.Model.Documents.Laws.{AreEqual}
use password_bonobo.Session.Edits.{RecordEdit}
use password_bonobo.Session.Create.{NewRecord}
use password_bonobo.Session.Sources.{PublishedFile, SuspendedSession, OpenedVault}
use password_bonobo.Session.Protect.{protect, unprotect}
use password_bonobo.Session.Save.{
  prepare_save, finish_save, abort_save, finish_suspend, finish_pending_cleanup, lock,
  discard_and_lock, shut, frozen,
}
use password_bonobo.Session.Save.Laws.{
  saved, finish_save-saved, with_handles-AreOrdered, with_handles-AreDistinct,
  with_handles-AreBelow,
}
use password_bonobo.Session.Plans.{IsPlanned}
use password_bonobo.Session.Sound.{
  IsSound, commit-IsSound, SameRecords-AreOrdered, SameFields-ArePlaced,
}
use password_bonobo.Session.{
  VaultSession, Plan, commit, run_plan, run_unseen, is_some, apply, add, move, delete,
}

-- A call of an operation, on what it leaves: the session itself where it raises before a commit.
pub data Step (s : VaultSession) : VaultSession → Type 0 where
  applies :
      (handle expected : ℕ) (edits : List RecordEdit) → Step s (apply s handle expected edits).1
  adds : (new : NewRecord) (expected : ℕ) → Step s (add s new expected).1
  moves_to : (handle expected ordinal : ℕ) → Step s (move s handle expected ordinal).1
  deletes : (handle expected : ℕ) → Step s (delete s handle expected).1
  protects : (handle expected : ℕ) → Step s (protect s handle expected).1
  unprotects : (handle expected : ℕ) → Step s (unprotect s handle expected).1
  prepares : (d : VaultDocument) (t : VaultSession) → prepare_save s ≡ ok (d, t) → Step s t
  finishes :
      (opened : OpenedVault) (published : PublishedFile) (t : VaultSession)
      → finish_save s opened published ≡ ok t
      → Step s t
  aborts : (t : VaultSession) → abort_save s ≡ ok t → Step s t
  suspends : (t : VaultSession) → finish_suspend s ≡ ok t → Step s t
  cleans :
      (suspended : SuspendedSession) (t : VaultSession)
      → finish_pending_cleanup s suspended ≡ ok t
      → Step s t
  locks : (t : VaultSession) → lock s ≡ ok t → Step s t
  discards : (t : VaultSession) → discard_and_lock s ≡ ok t → Step s t

-- What a step keeps: the revision of before is the one of after, or no identity issued before is.
pub record Keeps (s t : VaultSession) : Type 0 where
  pub sound : IsSound t
  pub revision : (t.document.revision ≡ s.document.revision) ⊎ (s.issued ≤ t.document.revision)
  pub issued : s.issued ≤ t.issued

Keeps-self : (s : VaultSession) → IsSound s → Keeps s s
Keeps-self s h = record { sound = h; revision = inl refl; issued = omega arith }

commit-Keeps :
    (s : VaultSession) (expected : ℕ) (p : Plan)
    → IsSound s
    → IsPlanned s expected p
    → Keeps s (commit s p)
commit-Keeps s expected p h k =
    let kept = commit-IsSound s expected p h k in
    record {
      sound = kept.0;
      revision = inr (omega (arith, kept.1));
      issued = omega (arith, kept.0.revision, kept.1);
    }

pub run_plan-Keeps :
    (s : VaultSession) (expected : ℕ) (r : Result Plan)
    → IsSound s
    → ((p : Plan) → r ≡ ok p → IsPlanned s expected p)
    → Keeps s (run_plan s r).1
unfolding run_plan
run_plan-Keeps s expected (raise e) h k = Keeps-self s h
run_plan-Keeps s expected (ok p) h k = commit-Keeps s expected p h (k p refl)

frozen_current :
    (s : VaultSession) (snapshot : VaultDocument)
    → IsSound s
    → s.save_snapshot ≡ some snapshot
    → snapshot ≡ s.document
frozen_current s snapshot h e = elim h.frozen [ inl unfrozen ↦ cc | inr current ↦ cc ]

pub finish-Keeps :
    (s : VaultSession) (opened : OpenedVault) (published : PublishedFile) (t : VaultSession)
    → IsSound s
    → finish_save s opened published ≡ ok t
    → Keeps s t
finish-Keeps s opened published t h e =
    let (snapshot, p, same) = finish_save-saved s opened published t e in
    let current : snapshot ≡ s.document = frozen_current s snapshot h p.frozen in
    let equal : AreEqual max_io_chunk_bytes s.document opened.document =
      subst (λ d. AreEqual max_io_chunk_bytes d opened.document) current p.document in
    let records = opened.document.records in
    subst (Keeps s) (ap (λ d. saved s d opened published) (sym current) ∙ sym same) (record {
      sound = record {
        ordered = with_handles-AreOrdered 0 records s.document.records (
            SameRecords-AreOrdered max_io_chunk_bytes 0 s.document.records records equal.records
              h.ordered);
        distinct = with_handles-AreDistinct [] records s.document.records h.distinct;
        below = with_handles-AreBelow s.issued records s.document.records h.below;
        header =
            SameFields-ArePlaced max_io_chunk_bytes 0 s.document.header_fields
              opened.document.header_fields equal.header h.header;
        revision = h.revision;
        frozen = inl refl;
      };
      revision = inl refl;
      issued = omega arith;
    })

pub shut-Keeps : (s : VaultSession) → IsSound s → Keeps s (shut s)
shut-Keeps s h = record {
  sound = record {
    ordered = h.ordered;
    distinct = h.distinct;
    below = h.below;
    header = h.header;
    revision = h.revision;
    frozen = inl refl;
  };
  revision = inl refl;
  issued = omega arith;
}

pub run_unseen-Keeps :
    (s : VaultSession) (expected : ℕ) (r : Result Plan)
    → IsSound s
    → ((p : Plan) → r ≡ ok p → IsPlanned s expected p)
    → Keeps s (run_unseen s r).1
unfolding run_unseen
run_unseen-Keeps s expected (raise e) h k = Keeps-self s h
run_unseen-Keeps s expected (ok p) h k = commit-Keeps s expected p h (k p refl)

-- The session, frozen on its own document or not at all.
pub frozen-Keeps :
    (s : VaultSession) (snapshot : Option VaultDocument)
    → IsSound s
    → (snapshot ≡ none) ⊎ (snapshot ≡ some s.document)
    → Keeps s (frozen s snapshot)
frozen-Keeps s snapshot h k = record {
  sound = record {
    ordered = h.ordered;
    distinct = h.distinct;
    below = h.below;
    header = h.header;
    revision = h.revision;
    frozen = k;
  };
  revision = inl refl;
  issued = omega arith;
}

pub prepare-Keeps :
    (s t : VaultSession) (d : VaultDocument) → IsSound s → prepare_save s ≡ ok (d, t) → Keeps s t
unfolding prepare_save
prepare-Keeps s t d h e =
    let (_, e1) = passed s.locked runtime_error _ e in
    let (_, e2) = passed (is_some s.save_snapshot) runtime_error _ e1 in
    subst (Keeps s) (ap (λ m. m.1) (ok-injective e2))
      (frozen-Keeps s (some s.document) h (inr refl))
