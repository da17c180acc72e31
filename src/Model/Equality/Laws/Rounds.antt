-- ===== src/Model/Equality/Laws/Rounds.antt =====
-- `_payloads_equal` of model.py: a round of its loop, and the loop.
use password_bonobo.Prelude.{
  ℕ, ◌+◌, ◌≤◌, ◌<◌, ◌≡◌, refl, sym, ap, ap₂, ◌∙◌, Bool, true, false, ◌&&◌, [], ◌∷◌, ◌++◌, length,
  take, drop, min, ◌⊎◌, inl, inr, append_assoc, take-append-drop, length-take, length-drop, arith,
}
use password_bonobo.Prelude.Bytes.{Bytes, bytes_eq}
use password_bonobo.Model.Equality.{Side, weight, with_available}
use password_bonobo.Model.Equality.Laws.{IsLeft, left}

pub bytes_eq-append :
    (p q x y : Bytes)
    → length p ≡ length q
    → bytes_eq (p ++ x) (q ++ y) ≡ (bytes_eq p q && bytes_eq x y)
bytes_eq-append [] [] x y h = refl
bytes_eq-append [] (b ∷ q) x y h = absurd (omega (arith, h))
bytes_eq-append (a ∷ p) [] x y h = absurd (omega (arith, h))
bytes_eq-append (a ∷ p) (b ∷ q) x y h = ground (arith, bytes_eq-append p q x y (omega (arith, h)))

-- What a comparison gives: the verdict of the whole is that of the parts and of what is left.
pub record IsCompared (n : ℕ) (s t : Side) (x y : Bytes) (s' t' : Side) (same : Bool) : Type 0 where
  pub x' : Bytes
  pub y' : Bytes
  pub first : IsLeft n s' x'
  pub second : IsLeft n t' y'
  pub verdict : (same && bytes_eq x' y') ≡ bytes_eq x y
  pub fewer :
      (left s' + left t' < left s + left t)
      ⊎ ((s.done ≡ true) × (t.done ≡ true) × (left s' + left t' ≤ left s + left t))

abbrev pub Ready : Side → Type 0
Ready s = (s.done ≡ true) ⊎ ((s.done ≡ false) × (0 < length s.available))

module _ (n : ℕ) where
  -- A side without a part of its buffer.
  dropped :
      (s : Side) (x : Bytes) (m : ℕ)
      → IsLeft n s x
      → s.done ≡ false
      → (rest : Bytes) × IsLeft n
          (with_available s (drop m s.available))
          (drop m s.available ++ rest)
        × (x ≡ take m s.available ++ (drop m s.available ++ rest))
  dropped s x m h going = (
    h.rest,
    record {
      rest = h.rest;
      streams = h.streams;
      content = refl;
      counted = h.counted;
      ended = inl going;
    },
    h.content
        ∙ ap (λ a. a ++ h.rest) (sym (take-append-drop m s.available))
        ∙ append_assoc (take m s.available) (drop m s.available) h.rest,
  )

  pub emptied :
      (s : Side) (x : Bytes)
      → IsLeft n s x
      → s.done ≡ false
      → (rest : Bytes) × IsLeft n (with_available s []) rest
  emptied s x h going = (
    h.rest,
    record {
      rest = h.rest;
      streams = h.streams;
      content = refl;
      counted = h.counted;
      ended = inl going;
    },
  )

  pub left_going : (s : Side) → s.done ≡ false → left s ≡ length s.available + weight s.stream
  left_going s e = rw e refl

  -- Nothing is left of a side that is done.
  pub nothing_left :
      (s : Side) (x : Bytes) → IsLeft n s x → s.done ≡ true → (s.available ≡ []) × (x ≡ [])
  nothing_left s x h e = elim h.ended [
    | inl going ↦ absurd (let bad : true ≡ false = sym e ∙ going in cc)
    | inr (a, r) ↦ (a, h.content ∙ ap₂ (λ a r. a ++ r) a r)
  ]

  pub both_going :
      (s t : Side) (x y : Bytes)
      → IsLeft n s x
      → IsLeft n t y
      → (s.done ≡ false) × (0 < length s.available)
      → (t.done ≡ false) × (0 < length t.available)
      → let m = min (length s.available) (length t.available) in
        IsCompared n s t x y
          (with_available s (drop m s.available))
          (with_available t (drop m t.available))
          (bytes_eq (take m s.available) (take m t.available))
  both_going s t x y h k (s_going, s_more) (t_going, t_more) =
      let m = min (length s.available) (length t.available) in
      let (r, a, e) = dropped s x m h s_going in
      let (q, b, f) = dropped t y m k t_going in
      let sizes : length (take m s.available) ≡ length (take m t.available) =
        omega (arith, length-take m s.available, length-take m t.available) in
      record {
        x' = drop m s.available ++ r;
        y' = drop m t.available ++ q;
        first = a;
        second = b;
        verdict =
            sym (
              bytes_eq-append (take m s.available) (take m t.available) (drop m s.available ++ r)
                (drop m t.available ++ q) sizes)
            ∙ ap₂ bytes_eq (sym e) (sym f);
        fewer = inl (
            omega (
              arith,
              left_going s s_going,
              left_going t t_going,
              left_going (with_available s (drop m s.available)) s_going,
              left_going (with_available t (drop m t.available)) t_going,
              length-drop m s.available,
              length-drop m t.available,
              s_more,
              t_more,
            ));
      }
