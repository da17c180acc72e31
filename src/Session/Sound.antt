-- ===== src/Session/Sound.antt =====
-- The invariant of a session in session.py: its document is in order, its handles are distinct, and
-- a save in progress holds the current document.
use password_bonobo.Prelude.{
  ℕ, ◌+◌, ◌≡◌, ◌<◌, sym, subst, ◌∙◌, none, some, List, [], ◌∷◌, All, ◌⊎◌, inl, arith,
}
use password_bonobo.Model.{RawField, RawRecord}
use password_bonobo.Model.Documents.Laws.{SameFields, SameRecords}
use password_bonobo.Session.Fork.{place_records, distinct_records, fork_document}
use password_bonobo.Session.Fork.Places.{
  ArePlaced, AreOrdered, AreDistinct, place_records-AreOrdered,
}
use password_bonobo.Session.Fork.Handles.{
  AreBelow, distinct_records-AreDistinct, distinct_records-AreBelow, distinct_records-AreOrdered,
  place_records-AreBelow, length-place_records,
}
use password_bonobo.Session.Origin.{All-map}
use password_bonobo.Session.Plans.{HasRecords, IsPlanned}
use password_bonobo.Session.{VaultSession, Plan, commit}

pub record IsSound (s : VaultSession) : Type 0 where
  pub ordered : AreOrdered 0 s.document.records
  pub distinct : AreDistinct [] s.document.records
  pub below : AreBelow s.issued s.document.records
  pub header : ArePlaced 0 s.document.header_fields
  pub revision : s.document.revision < s.issued
  pub frozen : (s.save_snapshot ≡ none) ⊎ (s.save_snapshot ≡ some s.document)

abbrev pub records_of : {s : VaultSession} → IsSound s → HasRecords s
records_of h = record { ordered = h.ordered; distinct = h.distinct; below = h.below }

-- A commit keeps the invariant, and the new revision was not issued before.
pub commit-IsSound :
    (s : VaultSession) (expected_revision : ℕ) (p : Plan)
    → IsSound s
    → IsPlanned s expected_revision p
    → IsSound (commit s p) × (s.issued < (commit s p).document.revision)
unfolding commit fork_document
commit-IsSound s expected_revision p h k =
    let placed = place_records 0 p.planned in
    let handles : All (λ q. q.handle < s.issued + 2) p.planned =
      All-map (λ q f. omega (arith, f.handle)) p.planned k.planned in
    let below : AreBelow (s.issued + 2) placed =
      place_records-AreBelow (s.issued + 2) 0 p.planned handles in
    let issued : s.issued + 1 + 1 ≡ s.issued + 2 = omega arith in
    (
      record {
        ordered =
            distinct_records-AreOrdered (s.issued + 1 + 1) [] 0 placed
              (place_records-AreOrdered 0 p.planned);
        distinct = distinct_records-AreDistinct (s.issued + 1 + 1) [] placed tt (rw issued below);
        below =
            subst (λ n. AreBelow n (distinct_records (s.issued + 1 + 1) [] placed))
              (omega (arith, length-place_records 0 p.planned))
              (distinct_records-AreBelow (s.issued + 1 + 1) [] placed (rw issued below));
        header = h.header;
        revision = omega arith;
        frozen = inl k.taken.unfrozen;
      },
      omega arith,
    )

pub SameFields-ArePlaced :
    (n m : ℕ) (xs ys : List RawField) → SameFields n xs ys → ArePlaced m xs → ArePlaced m ys
SameFields-ArePlaced n m [] [] h o = tt
SameFields-ArePlaced n m [] (b ∷ ys) h o = elim h [ ]
SameFields-ArePlaced n m (a ∷ xs) [] h o = elim h [ ]
SameFields-ArePlaced n m (a ∷ xs) (b ∷ ys) h o =
    (ground (arith, h.0, o.0), SameFields-ArePlaced n (m + 1) xs ys h.2 o.1)

pub SameRecords-AreOrdered :
    (n m : ℕ) (xs ys : List RawRecord) → SameRecords n xs ys → AreOrdered m xs → AreOrdered m ys
SameRecords-AreOrdered n m [] [] h o = tt
SameRecords-AreOrdered n m [] (b ∷ ys) h o = elim h [ ]
SameRecords-AreOrdered n m (a ∷ xs) [] h o = elim h [ ]
SameRecords-AreOrdered n m (a ∷ xs) (b ∷ ys) h o = (
  sym h.0 ∙ o.0,
  SameFields-ArePlaced n 0 a.fields b.fields h.1 o.1,
  SameRecords-AreOrdered n (m + 1) xs ys h.2 o.2,
)
