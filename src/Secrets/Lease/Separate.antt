-- ===== src/Secrets/Lease/Separate.antt =====
-- The separation of a lease of secrets.py from the owner it copies.
use password_bonobo.Prelude.{
  ℕ, ◌≤◌, ◌<◌, ◌≡◌, ◌≢◌, refl, sym, subst, ◌∙◌, false, Bool-cases, inl, inr, [], ◌∷◌, ◌++◌, length,
  ltb, arith,
}
use password_bonobo.Prelude.Bytes.{Bytes}
use password_bonobo.Errors.{ok, ok-injective, raise-neq-ok}
use password_bonobo.Secrets.{Store, SecretBuffer, contents, borrow, close, take_ownership}
use password_bonobo.Secrets.Cells.{contents-append, contents-new, contents-wipe_other}
use password_bonobo.Secrets.Lease.{
  SecretLease, construct, bad_lease_bound, max_secret_lease_bytes, lease_from_bytes, copy_of,
  lease_close,
}

small_bound : (n : ℕ) → bad_lease_bound n ≡ false → n ≤ max_secret_lease_bytes
small_bound n h = ground arith

within_bound : (n m : ℕ) → ltb n m ≡ false → m ≤ n
within_bound n m h = ground arith

-- A lease is made of a content that fits the bound, which is an approved one.
pub lease_from_bytes-made :
    (store : Store) (content : Bytes) (max_bytes : ℕ) (made : Store × SecretLease)
    → lease_from_bytes store content max_bytes ≡ ok made
    → (made ≡ construct store content)
      × (length content ≤ max_bytes)
      × (max_bytes ≤ max_secret_lease_bytes)
unfolding lease_from_bytes
lease_from_bytes-made store content max_bytes made h =
    elim (Bool-cases (bad_lease_bound max_bytes)) [
      | inl bad ↦ absurd (raise-neq-ok (rw bad at h))
      | inr good ↦ elim (Bool-cases (ltb max_bytes (length content))) [
        | inl long ↦ absurd (raise-neq-ok (rw (good, long) at h))
        | inr fits ↦ (
          sym (ok-injective (rw (good, fits) at h)),
          within_bound max_bytes (length content) fits,
          small_bound max_bytes good,
        )
      ]
    ]

-- A copy is a lease of the content of its source, which is open.
pub copy_of-eq-lease :
    (store : Store) (source : SecretBuffer) (max_bytes : ℕ) (made : Store × SecretLease)
    → copy_of store source max_bytes ≡ ok made
    → (source.closed ≡ false)
      × (lease_from_bytes store (contents store source.data_at) max_bytes ≡ ok made)
unfolding copy_of lease_from_bytes borrow
copy_of-eq-lease store source max_bytes made h = elim (Bool-cases source.closed) [
  | inl shut ↦ elim (Bool-cases (bad_lease_bound max_bytes)) [
    | inl bad ↦ absurd (raise-neq-ok (rw bad at h))
    | inr good ↦ absurd (raise-neq-ok (rw (good, shut) at h))
  ]
  | inr is_open ↦ (is_open, rw is_open at h)
]

-- What closing an owner does to the store: its own bytes are gone, the others stay.
pub contents-close_other :
    (store : Store) (owner : SecretBuffer) (m : ℕ)
    → owner.data_at ≢ m
    → contents (close store owner).0 m ≡ contents store m
unfolding close
contents-close_other store owner m h = elim (Bool-cases owner.closed) [
  | inl shut ↦ rw shut
  | inr is_open ↦ rw (is_open, contents-wipe_other store owner.data_at m h)
]

new_apart : {n m : ℕ} → n < m → n ≢ m
new_apart h e = absurd (omega (arith, h, e))

new_apart_left : {n m : ℕ} → n < m → m ≢ n
new_apart_left h e = absurd (omega (arith, h, e))

pub record IsSeparate (store : Store) (source : SecretBuffer) (made : Store × SecretLease)
    : Type 0 where
  pub is_open : (source.closed ≡ false) × (made.1.secret.closed ≡ false)
  pub copied : contents made.0 made.1.secret.data_at ≡ contents store source.data_at
  pub bounded : length (contents store source.data_at) ≤ max_secret_lease_bytes
  pub source_unchanged : contents made.0 source.data_at ≡ contents store source.data_at
  pub source_survives :
      contents (lease_close made.0 made.1).0 source.data_at ≡ contents store source.data_at
  pub lease_survives :
      contents (close made.0 source).0 made.1.secret.data_at ≡ contents store source.data_at

construct-IsSeparate :
    (store : Store) (source : SecretBuffer)
    → source.closed ≡ false
    → source.data_at < length store
    → length (contents store source.data_at) ≤ max_secret_lease_bytes
    → IsSeparate store source (construct store (contents store source.data_at))
unfolding construct take_ownership
construct-IsSeparate store source is_open inside bounded =
    let content : Bytes = contents store source.data_at in
    let kept : contents (store ++ (content ∷ [])) source.data_at ≡ content =
      contents-append store (content ∷ []) source.data_at inside in
    let new : contents (store ++ (content ∷ [])) (length store) ≡ content =
      contents-new store content in
    record {
      is_open = (is_open, refl);
      copied = new;
      bounded = bounded;
      source_unchanged = kept;
      source_survives =
          contents-close_other (store ++ (content ∷ [])) (take_ownership (length store))
            source.data_at (new_apart_left inside)
          ∙ kept;
      lease_survives =
          contents-close_other (store ++ (content ∷ [])) source (length store) (new_apart inside)
          ∙ new;
    }

-- A lease that is copied from an owner of a bytearray is a copy of its content, at most 1 MiB, of
-- an open owner; closing the lease leaves the owner's bytes, and closing the owner leaves the
-- lease's.
pub copy_of-IsSeparate :
    (store : Store) (source : SecretBuffer) (max_bytes : ℕ) (made : Store × SecretLease)
    → source.data_at < length store
    → copy_of store source max_bytes ≡ ok made
    → IsSeparate store source made
copy_of-IsSeparate store source max_bytes made inside h =
    let copied = copy_of-eq-lease store source max_bytes made h in
    let facts =
      lease_from_bytes-made store (contents store source.data_at) max_bytes made copied.1 in
    subst (IsSeparate store source) (sym facts.0)
      (construct-IsSeparate store source copied.0 inside (omega (arith, facts.1, facts.2)))
