-- ===== src/Session/Save/Laws.antt =====
-- `_finish_save` of session.py: what it has checked, and what the session is then.
use password_bonobo.Prelude.{
  ℕ, ◌+◌, ◌≡◌, refl, sym, ap, true, false, not, none, some, List, [], ◌∷◌, length, ◌!=◌, map, ◌⊎◌,
  Option, inl, inr, Bool-cases, Option-cases, arith,
}
use password_bonobo.Prelude.Bytes.{Bytes, bytes_eq, bytes_eq→eq}
use password_bonobo.Errors.{ok, Result-cases, raise-neq-ok, ok-injective}
use password_bonobo.Constants.{max_io_chunk_bytes}
use password_bonobo.Model.{RawRecord, VaultDocument}
use password_bonobo.Model.Documents.{documents_equal_exact}
use password_bonobo.Model.Documents.Laws.{SameRecords, AreEqual, documents_equal_exact-AreEqual}
use password_bonobo.Session.Fork.Places.{AreOrdered, AreDistinct}
use password_bonobo.Session.Fork.Handles.{AreBelow}
use password_bonobo.Session.Sources.{PublishedFile, OpenedVault}
use password_bonobo.Session.{VaultSession}
use password_bonobo.Session.Save.{finish_save, path_differs, with_handles, adopt_session_identity}

pub SameRecords-length :
    (n : ℕ) (xs ys : List RawRecord) → SameRecords n xs ys → length xs ≡ length ys
SameRecords-length n [] [] h = refl
SameRecords-length n [] (b ∷ ys) h = elim h [ ]
SameRecords-length n (a ∷ xs) [] h = elim h [ ]
SameRecords-length n (a ∷ xs) (b ∷ ys) h = omega (arith, SameRecords-length n xs ys h.2)

-- Records with the handles of others.
pub with_handles-AreOrdered :
    (m : ℕ) (rs sources : List RawRecord) → AreOrdered m rs → AreOrdered m (with_handles rs sources)
with_handles-AreOrdered m [] sources o = tt
with_handles-AreOrdered m (r ∷ rs) [] o = tt
with_handles-AreOrdered m (r ∷ rs) (s ∷ ss) o =
    (o.0, o.1, with_handles-AreOrdered (m + 1) rs ss o.2)

pub with_handles-AreDistinct :
    (seen : List ℕ) (rs sources : List RawRecord)
    → AreDistinct seen sources
    → AreDistinct seen (with_handles rs sources)
with_handles-AreDistinct seen [] sources d = tt
with_handles-AreDistinct seen (r ∷ rs) [] d = tt
with_handles-AreDistinct seen (r ∷ rs) (s ∷ ss) d =
    (d.0, with_handles-AreDistinct (s.handle ∷ seen) rs ss d.1)

pub with_handles-AreBelow :
    (n : ℕ) (rs sources : List RawRecord)
    → AreBelow n sources
    → AreBelow n (with_handles rs sources)
with_handles-AreBelow n [] sources b = tt
with_handles-AreBelow n (r ∷ rs) [] b = tt
with_handles-AreBelow n (r ∷ rs) (s ∷ ss) b = (b.0, with_handles-AreBelow n rs ss b.1)

-- The document of the published file with the identities of the frozen one.
abbrev pub adopted : VaultDocument → VaultDocument → VaultDocument
adopted document source = record {
  version = document.version;
  header_fields = document.header_fields;
  records = with_handles document.records source.records;
  revision = source.revision;
  warnings = document.warnings;
}

-- The session behind a save: clean, on the document that was read back.
abbrev pub saved : VaultSession → VaultDocument → OpenedVault → PublishedFile → VaultSession
saved s snapshot opened published = record {
  document = adopted opened.document snapshot;
  changes = [];
  save_snapshot = none;
  suspended = s.suspended;
  path = some published.path;
  baseline = some published.baseline;
  locked = false;
  issued = s.issued;
}

-- What a save that is finished has checked: a document was frozen, the session had no path or the
-- published one, and what was read back has the size, the digest and the document.
pub record IsPublished (s : VaultSession) (snapshot : VaultDocument) (opened : OpenedVault)
    (published : PublishedFile) : Type 0 where
  pub active : s.locked ≡ false
  pub frozen : s.save_snapshot ≡ some snapshot
  pub path : (s.path ≡ none) ⊎ (s.path ≡ some published.path)
  pub size : opened.snapshot_size ≡ published.size
  pub sha256 : opened.snapshot_sha256 ≡ published.sha256
  pub document : AreEqual max_io_chunk_bytes snapshot opened.document

-- The session behind a save: the fields of the document read back, the identities of the frozen one.
pub record IsSaved (s : VaultSession) (snapshot : VaultDocument) (opened : OpenedVault)
    (published : PublishedFile) (t : VaultSession) : Type 0 where
  pub fields : map (λ r. r.fields) t.document.records ≡ map (λ r. r.fields) opened.document.records
  pub ordinals :
      map (λ r. r.ordinal) t.document.records ≡ map (λ r. r.ordinal) opened.document.records
  pub handles : map (λ r. r.handle) t.document.records ≡ map (λ r. r.handle) snapshot.records
  pub header : t.document.header_fields ≡ opened.document.header_fields
  pub version : t.document.version ≡ opened.document.version
  pub warnings : t.document.warnings ≡ opened.document.warnings
  pub revision : t.document.revision ≡ snapshot.revision
  pub changes : t.changes ≡ []
  pub unfrozen : t.save_snapshot ≡ none
  pub path : t.path ≡ some published.path
  pub baseline : t.baseline ≡ some published.baseline
  pub suspended : t.suspended ≡ s.suspended
  pub active : t.locked ≡ false

same_bytes : (a b : Bytes) → not (bytes_eq a b) ≡ false → a ≡ b
same_bytes a b h = elim (Bool-cases (bytes_eq a b)) [
  | inl e ↦ bytes_eq→eq a b e
  | inr e ↦ absurd (let bad : true ≡ false = rw e at h in cc)
]

same_path :
    (path : Option Bytes) (published : Bytes)
    → path_differs path published ≡ false
    → (path ≡ none) ⊎ (path ≡ some published)
same_path none published h = inl refl
same_path (some path) published h = inr (ap some (sym (same_bytes published path h)))

module _ (s : VaultSession) (opened : OpenedVault) (published : PublishedFile)
    (t : VaultSession) where
  finish_compared :
      (snapshot : VaultDocument)
      → s.locked ≡ false
      → s.save_snapshot ≡ some snapshot
      → path_differs s.path published.path ≡ false
      → (opened.snapshot_size != published.size) ≡ false
      → not (bytes_eq opened.snapshot_sha256 published.sha256) ≡ false
      → finish_save s opened published ≡ ok t
      → IsPublished s snapshot opened published × (t ≡ saved s snapshot opened published)
  unfolding finish_save adopt_session_identity
  finish_compared snapshot e1 e2 e3 e4 e5 e =
      elim (Result-cases (documents_equal_exact snapshot opened.document max_io_chunk_bytes)) [
        | inr (_, e6) ↦ absurd (raise-neq-ok (rw (e1, e2, e3, e4, e5, e6) at e))
        | inl (false, e6) ↦ absurd (raise-neq-ok (rw (e1, e2, e3, e4, e5, e6) at e))
        | inl (true, e6) ↦
            let equal =
              documents_equal_exact-AreEqual max_io_chunk_bytes snapshot opened.document e6 in
            let counts : (length opened.document.records != length snapshot.records) ≡ false =
              ground (
                arith,
                SameRecords-length max_io_chunk_bytes snapshot.records opened.document.records
                    equal.records,
              ) in
            (
              record {
                active = e1;
                frozen = e2;
                path = same_path s.path published.path e3;
                size = ground (arith, e4);
                sha256 = same_bytes opened.snapshot_sha256 published.sha256 e5;
                document = equal;
              },
              sym (ok-injective (rw (e1, e2, e3, e4, e5, e6, counts) at e)),
            )
      ]

  -- The session that a finished save returns.
  pub finish_save-saved :
      finish_save s opened published ≡ ok t
      → (snapshot : VaultDocument) × IsPublished s snapshot opened published
        × (t ≡ saved s snapshot opened published)
  unfolding finish_save
  finish_save-saved e = elim (Bool-cases s.locked) [
    | inl e1 ↦ absurd (raise-neq-ok (rw e1 at e))
    | inr e1 ↦ elim (Option-cases s.save_snapshot) [
      | inl e2 ↦ absurd (raise-neq-ok (rw (e1, e2) at e))
      | inr (d, e2) ↦ elim (Bool-cases (path_differs s.path published.path)) [
        | inl e3 ↦ absurd (raise-neq-ok (rw (e1, e2, e3) at e))
        | inr e3 ↦ elim (Bool-cases (opened.snapshot_size != published.size)) [
          | inl e4 ↦ absurd (raise-neq-ok (rw (e1, e2, e3, e4) at e))
          | inr e4 ↦ elim (Bool-cases (not (bytes_eq opened.snapshot_sha256 published.sha256))) [
            | inl e5 ↦ absurd (raise-neq-ok (rw (e1, e2, e3, e4, e5) at e))
            | inr e5 ↦ let done = finish_compared d e1 e2 e3 e4 e5 e in (d, done.0, done.1)
          ]
        ]
      ]
    ]
  ]
