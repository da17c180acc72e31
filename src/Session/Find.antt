-- ===== src/Session/Find.antt =====
-- `_find_record` and `_require_mutable` of session.py, and the records of a handle.
use password_bonobo.Prelude.{
  ℕ, ◌≡◌, ◌≢◌, refl, sym, ap, ◌∙◌, ◌++◌, subst, true, false, none, List, [], ◌∷◌, any, ◌==◌, ◌!=◌,
  All, ◌⊎◌, inl, inr, Bool-cases, Option-cases, arith,
}
use password_bonobo.Errors.{
  Error, ok, raise, runtime_error, operation_error, stale_revision, raise-neq-ok, ok-injective,
}
use password_bonobo.Model.{RawRecord}
use password_bonobo.Session.Fork.Places.{AreDistinct}
use password_bonobo.Session.{VaultSession, require_mutable, find_in, others}

-- A found record has the handle, and what all records have.
pub find_in-All {ℓ} :
    (P : RawRecord → Type ℓ) (rs : List RawRecord) (handle : ℕ) (r : RawRecord)
    → All P rs
    → find_in rs handle ≡ ok r
    → P r × (r.handle ≡ handle)
find_in-All P [] handle r h e = absurd (raise-neq-ok e)
find_in-All P (x ∷ xs) handle r h e = elim (Bool-cases (x.handle == handle)) [
  | inl it ↦
      let same : x ≡ r = ok-injective (rw it at e) in
      subst (λ y. P y × (y.handle ≡ handle)) same (h.0, ground arith)
  | inr other ↦ find_in-All P xs handle r h.1 (rw other at e)
]

-- The records behind one that was seen have other handles.
others_differ :
    (seen : List ℕ) (rs : List RawRecord) (handle : ℕ)
    → any (λ h. h == handle) seen ≡ true
    → AreDistinct seen rs
    → All (λ r. r.handle ≢ handle) rs
others_differ seen [] handle s d = tt
others_differ seen (r ∷ rs) handle s d = (
  λ e.
      let one : any (λ h. h == handle) seen ≡ false =
        subst (λ m. any (λ h. h == m) seen ≡ false) e d.0 in
      cc,
  others_differ (r.handle ∷ seen) rs handle (ground arith) d.1,
)

none_is {ℓ} :
    (Q : RawRecord → Type ℓ) (rs : List RawRecord) (handle : ℕ)
    → All (λ r. r.handle ≢ handle) rs
    → All (λ r. r.handle ≡ handle → Q r) rs
none_is Q [] handle d = tt
none_is Q (r ∷ rs) handle d = (λ e. absurd (d.0 e), none_is Q rs handle d.1)

-- With distinct handles, the found record is the one that has the handle.
pub find_in-only :
    (seen : List ℕ) (rs : List RawRecord) (handle : ℕ) (found : RawRecord)
    → AreDistinct seen rs
    → find_in rs handle ≡ ok found
    → All (λ r. r.handle ≡ handle → r ≡ found) rs
find_in-only seen [] handle found d e = tt
find_in-only seen (r ∷ rs) handle found d e = elim (Bool-cases (r.handle == handle)) [
  | inl it ↦ (
    λ _. ok-injective (rw it at e),
    none_is (λ r'. r' ≡ found) rs handle
        (others_differ (r.handle ∷ seen) rs handle (ground arith) d.1),
  )
  | inr other ↦ (
    λ same. absurd (ground (arith, same, other)),
    find_in-only (r.handle ∷ seen) rs handle found d.1 (rw other at e),
  )
]

-- A session that takes a change at this revision.
pub record IsMutable (s : VaultSession) (expected_revision : ℕ) : Type 0 where
  pub active : s.locked ≡ false
  pub current : expected_revision ≡ s.document.revision
  pub unfrozen : s.save_snapshot ≡ none

-- A change is refused with an exception of its own, or the session takes it.
pub require_mutable-cases :
    (s : VaultSession) (expected_revision : ℕ)
    → ((require_mutable s expected_revision ≡ ok tt) × IsMutable s expected_revision)
      ⊎ ((e : Error) × (require_mutable s expected_revision ≡ raise e))
unfolding require_mutable
require_mutable-cases s expected_revision = elim (Bool-cases s.locked) [
  | inl locked ↦ inr (runtime_error, rw locked)
  | inr active ↦ elim (Bool-cases (expected_revision != s.document.revision)) [
    | inl stale ↦ inr (operation_error stale_revision, rw (active, stale))
    | inr current ↦ elim (Option-cases s.save_snapshot) [
      | inl unfrozen ↦ inl (
        rw (active, current, unfrozen),
        record { active = active; current = ground arith; unfrozen = unfrozen },
      )
      | inr (d, frozen) ↦ inr (runtime_error, rw (active, current, frozen))
    ]
  ]
]

-- A session in which the revision is another one refuses it.
pub require_mutable_stale :
    (s : VaultSession) (expected_revision : ℕ)
    → s.locked ≡ false
    → expected_revision ≢ s.document.revision
    → require_mutable s expected_revision ≡ raise (operation_error stale_revision)
unfolding require_mutable
require_mutable_stale s expected_revision active other =
    let differs : (expected_revision != s.document.revision) ≡ true = ground arith in
    rw (active, differs)

differ : (a b : ℕ) → a ≢ b → (a == b) ≡ false
differ a b h = ground arith

-- Where no record has the handle, all are kept.
keeps_every :
    (handle : ℕ) (rs : List RawRecord) → All (λ r. r.handle ≢ handle) rs → others handle rs ≡ rs
keeps_every handle [] d = refl
keeps_every handle (r ∷ rs) d =
    let differs : (r.handle == handle) ≡ false = differ r.handle handle d.0 in
    rw differs (ap (λ xs. r ∷ xs) (keeps_every handle rs d.1))

-- With distinct handles, the found record stands between the records that are kept.
pub record Between (rs : List RawRecord) (handle : ℕ) (found : RawRecord) : Type 0 where
  pub before : List RawRecord
  pub after : List RawRecord
  pub split : rs ≡ before ++ (found ∷ after)
  pub has_handle : found.handle ≡ handle
  pub kept : others handle rs ≡ before ++ after

pub find_in-Between :
    (seen : List ℕ) (rs : List RawRecord) (handle : ℕ) (found : RawRecord)
    → AreDistinct seen rs
    → find_in rs handle ≡ ok found
    → Between rs handle found
find_in-Between seen [] handle found d e = absurd (raise-neq-ok e)
find_in-Between seen (r ∷ rs) handle found d e = elim (Bool-cases (r.handle == handle)) [
  | inl it ↦
      let same : r ≡ found = ok-injective (rw it at e) in
      let rest = others_differ (r.handle ∷ seen) rs handle (ground arith) d.1 in
      record {
        before = [];
        after = rs;
        split = ap (λ x. x ∷ rs) same;
        has_handle = ap (λ x. x.handle) (sym same) ∙ ground (arith, it);
        kept = rw it (keeps_every handle rs rest);
      }
  | inr other ↦
      let b = find_in-Between (r.handle ∷ seen) rs handle found d.1 (rw other at e) in
      record {
        before = r ∷ b.before;
        after = b.after;
        split = ap (λ xs. r ∷ xs) b.split;
        has_handle = b.has_handle;
        kept = rw other (ap (λ xs. r ∷ xs) b.kept);
      }
]
