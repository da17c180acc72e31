-- ===== src/Session/Counts.antt =====
-- Distinct handles in session.py, by counting: the order of the records does not matter.
use password_bonobo.Prelude.{
  ℕ, zero, suc, ◌+◌, ◌≡◌, ◌≤◌, refl, Bool, true, false, List, [], ◌∷◌, ◌++◌, any, take, drop, ◌==◌,
  if◌then◌else◌, inl, inr, Bool-cases, arith,
}
use password_bonobo.Model.{RawRecord}
use password_bonobo.Session.Fork.Places.{AreDistinct}
use password_bonobo.Session.{others}

-- How often a handle occurs.
abbrev pub count : ℕ → List RawRecord → ℕ
count h [] = 0
count h (r ∷ rs) = (if r.handle == h then 1 else 0) + count h rs

pub count-append : (h : ℕ) (xs ys : List RawRecord) → count h (xs ++ ys) ≡ count h xs + count h ys
count-append h [] ys = omega arith
count-append h (x ∷ xs) ys = omega (arith, count-append h xs ys)

abbrev is_seen : ℕ → List ℕ → Bool
is_seen h seen = any (λ g. g == h) seen

counted :
    (seen : List ℕ) (rs : List RawRecord) (h : ℕ)
    → AreDistinct seen rs
    → (count h rs ≤ 1) × (is_seen h seen ≡ true → count h rs ≡ 0)
counted seen [] h d = (omega arith, λ e. refl)
counted seen (r ∷ rs) h d =
    let rest = counted (r.handle ∷ seen) rs h d.1 in
    elim (Bool-cases (r.handle == h)) [
      | inl it ↦
          let same : r.handle ≡ h = ground arith in
          let gone : count h rs ≡ 0 = rest.1 (ground arith) in
          let unseen : is_seen h seen ≡ false = rw (← same) d.0 in
          rw it (omega (arith, gone), λ e. absurd (cc))
      | inr other ↦ rw other (omega (arith, rest.0), λ e. omega (arith, rest.1 (ground (arith, e))))
    ]

distinct_of_counts :
    (seen : List ℕ) (rs : List RawRecord)
    → ((h : ℕ) → count h rs ≤ 1)
    → ((h : ℕ) → is_seen h seen ≡ true → count h rs ≡ 0)
    → AreDistinct seen rs
distinct_of_counts seen [] one none_seen = tt
distinct_of_counts seen (r ∷ rs) one none_seen = (
  elim (Bool-cases (is_seen r.handle seen)) [
    | inl again ↦ absurd (ground (arith, none_seen r.handle again))
    | inr new ↦ new
  ],
  distinct_of_counts (r.handle ∷ seen) rs (λ h. ground (arith, one h))
      (λ h e. ground (arith, one h, none_seen h, e)),
)

-- Records of which no handle occurs more often than in distinct ones are distinct.
pub count-AreDistinct :
    (rs qs : List RawRecord)
    → AreDistinct [] rs
    → ((h : ℕ) → count h qs ≤ count h rs)
    → AreDistinct [] qs
count-AreDistinct rs qs d le =
    distinct_of_counts [] qs (λ h. omega (arith, le h, (counted [] rs h d).0))
      (λ h e. absurd (let no : false ≡ true = e in cc))

pub count-others : (handle h : ℕ) (rs : List RawRecord) → count h (others handle rs) ≤ count h rs
count-others handle h [] = omega arith
count-others handle h (r ∷ rs) = elim (Bool-cases (r.handle == handle)) [
  | inl it ↦ rw it (omega (arith, count-others handle h rs))
  | inr other ↦ rw other (omega (arith, count-others handle h rs))
]

pub count-split :
    (h n : ℕ) (rs : List RawRecord) → count h (take n rs) + count h (drop n rs) ≡ count h rs
count-split h zero rs = omega arith
count-split h (suc n) [] = omega arith
count-split h (suc n) (r ∷ rs) = omega (arith, count-split h n rs)
