-- ===== src/Secrets/Wiped.antt =====
-- The invariant of the owners of secrets.py: what is closed is wiped, and stays so.
use password_bonobo.Prelude.{
  ℕ, ◌<◌, ◌≡◌, sym, subst, ◌∙◌, true, false, Bool-cases, inl, inr, List, [], ◌∷◌, ◌++◌, length,
  length-append, All, All-append, All-append_left, All-append_right, arith,
}
use password_bonobo.Prelude.Bytes.{Bytes}
use password_bonobo.Secrets.{Store, SecretBuffer, contents, wipe, take_ownership, from_bytes, close}
use password_bonobo.Secrets.Lease.{SecretLease, construct-eq, lease_from_bytes}
use password_bonobo.Errors.{ok}
use password_bonobo.Secrets.Lease.Separate.{lease_from_bytes-made, copy_of-eq-lease}
use password_bonobo.Secrets.Cells.{
  AllZero, contents-append, contents-wipe, contents-wipe_zero, length-wipe,
}
use password_bonobo.Secrets.Steps.{
  Process, Step, Reachable, start, step, bytearray, adopt, copy, lease, lease_copy, closing,
}

-- An owner has a bytearray, and the bytes are zeros once it is closed.
pub record IsSafe (store : Store) (owner : SecretBuffer) : Type 0 where
  pub inside : owner.data_at < length store
  pub wiped : owner.closed ≡ true → AllZero (contents store owner.data_at)

All-map :
    {A : Type 0} {P Q : A → Type 0} (f : (a : A) → P a → Q a) (xs : List A) → All P xs → All Q xs
All-map f [] h = tt
All-map f (x ∷ xs) h = (f x h.0, All-map f xs h.1)

append-IsSafe :
    (store : Store) (content : Bytes) (owner : SecretBuffer)
    → IsSafe store owner
    → IsSafe (store ++ (content ∷ [])) owner
append-IsSafe store content owner safe = record {
  inside = omega (arith, safe.inside, length-append store (content ∷ []));
  wiped = λ shut.
      subst AllZero (sym (contents-append store (content ∷ []) owner.data_at safe.inside))
        (safe.wiped shut);
}

wipe-IsSafe :
    (store : Store) (n : ℕ) (owner : SecretBuffer)
    → IsSafe store owner
    → IsSafe (wipe store n) owner
wipe-IsSafe store n owner safe = record {
  inside = rw (length-wipe store n) safe.inside;
  wiped = λ shut. contents-wipe_zero store n owner.data_at (safe.wiped shut);
}

false-neq-true : {C : Type 0} → false ≡ true → C
false-neq-true h = cc

take_ownership-IsSafe : (store : Store) (n : ℕ) → n < length store → IsSafe store (take_ownership n)
unfolding take_ownership
take_ownership-IsSafe store n h = record { inside = h; wiped = λ e. false-neq-true e }

new-IsSafe :
    (store : Store) (content : Bytes)
    → IsSafe (store ++ (content ∷ [])) (take_ownership (length store))
new-IsSafe store content =
    take_ownership-IsSafe (store ++ (content ∷ [])) (length store)
      (omega (arith, length-append store (content ∷ [])))

-- Every owner of a process is safe.
pub AreSafe : Process → Type 0
AreSafe p = All (IsSafe p.store) p.owners

close-IsSafe :
    (store : Store) (closed owner : SecretBuffer)
    → IsSafe store owner
    → IsSafe (close store closed).0 owner
unfolding close
close-IsSafe store closed owner safe = elim (Bool-cases closed.closed) [
  | inl shut ↦ rw shut safe
  | inr is_open ↦ rw is_open (wipe-IsSafe store closed.data_at owner safe)
]

closed-IsSafe :
    (store : Store) (owner : SecretBuffer)
    → IsSafe store owner
    → IsSafe (close store owner).0 (close store owner).1
unfolding close
closed-IsSafe store owner safe = elim (Bool-cases owner.closed) [
  | inl shut ↦ rw shut (record { inside = safe.inside; wiped = λ e. safe.wiped shut })
  | inr is_open ↦ rw is_open (record {
    inside = rw (length-wipe store owner.data_at) safe.inside;
    wiped = λ e. contents-wipe store owner.data_at;
  })
]

-- A lease joins the owners.
leased-AreSafe :
    (store : Store) (owners : List SecretBuffer) (content : Bytes) (max_bytes : ℕ)
    (made : Store × SecretLease)
    → lease_from_bytes store content max_bytes ≡ ok made
    → All (IsSafe store) owners
    → AreSafe (record { store = made.0; owners = made.1.secret ∷ owners })
unfolding AreSafe
leased-AreSafe store owners content max_bytes made h safe =
    let same =
      (lease_from_bytes-made store content max_bytes made h).0 ∙ construct-eq store content in
    subst (λ m. All (IsSafe m.0) (m.1.secret ∷ owners)) (sym same)
      (new-IsSafe store content, All-map (append-IsSafe store content) owners safe)

-- A step keeps every owner safe.
pub next-AreSafe : {p q : Process} → Step p q → AreSafe p → AreSafe q
unfolding AreSafe from_bytes
next-AreSafe {p = p} (bytearray content) safe =
    All-map (append-IsSafe p.store content) p.owners safe
next-AreSafe {p = p} (adopt address h) safe = (take_ownership-IsSafe p.store address h, safe)
next-AreSafe {p = p} (copy content) safe =
    (new-IsSafe p.store content, All-map (append-IsSafe p.store content) p.owners safe)
next-AreSafe {p = p} (lease content max_bytes made h) safe =
    leased-AreSafe p.store p.owners content max_bytes made h safe
next-AreSafe {p = p} (lease_copy source max_bytes made h) safe =
    leased-AreSafe p.store p.owners (contents p.store source.data_at) max_bytes made
      (copy_of-eq-lease p.store source max_bytes made h).1 safe
next-AreSafe (closing {store = store} before owner after) safe =
    let front = All-append_left (IsSafe store) before (owner ∷ after) safe in
    let back = All-append_right (IsSafe store) before (owner ∷ after) safe in
    All-append (IsSafe (close store owner).0) before ((close store owner).1 ∷ after)
      (All-map (close-IsSafe store owner) before front)
      (closed-IsSafe store owner back.0, All-map (close-IsSafe store owner) after back.1)

-- In every state that a process reaches, by making and closing owners in any order, each owner has
-- a bytearray, and the bytes of each closed one are zeros.
pub reachable-AreSafe : {p : Process} → Reachable p → AreSafe p
unfolding AreSafe
reachable-AreSafe start = tt
reachable-AreSafe (step before next) = next-AreSafe next (reachable-AreSafe before)
