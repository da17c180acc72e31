-- ===== src/CustomFields/Fuel.antt =====
-- The parser's loop in custom_fields.py ends: a round leaves less of the source.
use password_bonobo.Prelude.{
  ℕ, zero, suc, ◌+◌, ◌≡◌, ◌≤◌, ◌<◌, refl, subst, true, inl, inr, [], ◌∷◌, length, take, drop, ◌==◌,
  Bool-cases, arith, length-drop,
}
use password_bonobo.Prelude.Bytes.{Bytes}
use password_bonobo.Errors.{ok, Result-cases, raise-neq-ok, ok-injective}
use password_bonobo.CustomFields.{
  Parsing, is_separator, property_header, finish_field, custom_property, parse_round, parse_loop,
}

shorter :
    (n : ℕ) (source : Bytes) → 0 < length source → length (drop (6 + n) source) < length source
shorter n source h = omega (arith, length-drop (6 + n) source)

parse_round-shorter :
    (p : Parsing) (source : Bytes) (next : Bytes × Parsing)
    → 0 < length source
    → parse_round p source ≡ ok next
    → length next.0 < length source
parse_round-shorter p source next pos h = elim (Bool-cases (is_separator source)) [
  | inl s ↦ elim (Bool-cases (length p.properties == 0)) [
    | inl e ↦ absurd (raise-neq-ok (rw (s, e) at h))
    | inr e ↦ elim (Result-cases (finish_field p.properties p.names true)) [
      | inr (_, f) ↦ absurd (raise-neq-ok (rw (s, e, f) at h))
      | inl (field, f) ↦
          subst (λ n. length n.0 < length source) (ok-injective (rw (s, e, f) at h))
            (shorter 0 source pos)
    ]
  ]
  | inr s ↦ elim (Result-cases (property_header p.identifiers source)) [
    | inr (_, e) ↦ absurd (raise-neq-ok (rw (s, e) at h))
    | inl ((property_id, n), e) ↦
        elim (Result-cases (custom_property property_id (take (6 + n) source))) [
          | inr (_, f) ↦ absurd (raise-neq-ok (rw (s, e, f) at h))
          | inl (property, f) ↦
              subst (λ m. length m.0 < length source) (ok-injective (rw (s, e, f) at h))
                (shorter n source pos)
        ]
  ]
]

-- Fuel for the length of the source is enough: the loop gives the same result on any fuel above
-- it, an exception of the parser included.
pub parse_loop-fuel :
    (fuel more : ℕ) (p : Parsing) (source : Bytes)
    → length source ≤ fuel
    → length source ≤ more
    → parse_loop fuel p source ≡ parse_loop more p source
unfolding parse_loop
parse_loop-fuel zero zero p [] h k = refl
parse_loop-fuel zero (suc m) p [] h k = refl
parse_loop-fuel (suc n) zero p [] h k = refl
parse_loop-fuel (suc n) (suc m) p [] h k = refl
parse_loop-fuel zero more p (b ∷ bs) h k = absurd (omega arith)
parse_loop-fuel (suc n) zero p (b ∷ bs) h k = absurd (omega arith)
parse_loop-fuel (suc n) (suc m) p (b ∷ bs) h k = elim (Result-cases (parse_round p (b ∷ bs))) [
  | inr (_, e) ↦ rw e
  | inl (next, e) ↦
      let less = parse_round-shorter p (b ∷ bs) next (omega arith) e in
      rw e (parse_loop-fuel n m next.1 next.0 (omega (arith, less)) (omega (arith, less)))
]
