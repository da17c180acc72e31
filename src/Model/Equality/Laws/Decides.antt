-- ===== src/Model/Equality/Laws/Decides.antt =====
-- `_payloads_equal` of model.py decides whether two payloads have one content.
use password_bonobo.Prelude.{
  ℕ, zero, suc, ◌+◌, ◌≤◌, ◌<◌, ◌≡◌, refl, sym, ap, ap₂, ◌∙◌, Bool, true, false, not, ◌&&◌, [], ◌∷◌,
  length, take, drop, min, if◌then◌else◌, ◌⊎◌, inl, inr, Bool-cases, length-append, arith,
}
use password_bonobo.Prelude.Bytes.{Bytes, bytes_eq}
use password_bonobo.Errors.{ok}
use password_bonobo.Payloads.{FieldPayload, payload_length, iter_chunks}
use password_bonobo.Payloads.Chunks.{Streams}
use password_bonobo.Model.Equality.{
  Side, is_empty, weight, compare_available, with_available, refill, round, equal_loop, verdict,
  side_of, payloads_equal,
}
use password_bonobo.Model.Equality.Laws.{IsLeft, left, refill-IsRefilled}
use password_bonobo.Model.Equality.Laws.Rounds.{
  IsCompared, Ready, both_going, emptied, left_going, nothing_left,
}

empty_of : (bs : Bytes) → bs ≡ [] → is_empty bs ≡ true
empty_of bs e = ap is_empty e

more_of : (bs : Bytes) → 0 < length bs → is_empty bs ≡ false
more_of [] h = absurd (omega arith)
more_of (b ∷ bs) h = refl

bytes_eq_nil : (x : Bytes) → 0 < length x → bytes_eq x [] ≡ false
bytes_eq_nil [] h = absurd (omega arith)
bytes_eq_nil (b ∷ x) h = refl

nil_bytes_eq : (x : Bytes) → 0 < length x → bytes_eq [] x ≡ false
nil_bytes_eq [] h = absurd (omega arith)
nil_bytes_eq (b ∷ x) h = refl

-- The branches of the comparison, by what its tests find.
abbrev picked : Side → Side → Bool → Bool → Bool → Bool → Side × Side × Bool
picked s t a b c d =
    let compared = min (length s.available) (length t.available) in
    if not a && not b
    then (
      with_available s (drop compared s.available),
      with_available t (drop compared t.available),
      bytes_eq (take compared s.available) (take compared t.available),
    )
    else if not a && d
    then (with_available s [], t, false)
    else if not b && c
    then (s, with_available t [], false)
    else (s, t, true)

picked_at :
    (s t : Side) (a b c d : Bool)
    → is_empty s.available ≡ a
    → is_empty t.available ≡ b
    → s.done ≡ c
    → t.done ≡ d
    → compare_available s t ≡ picked s t a b c d
unfolding compare_available
picked_at s t a b c d e1 e2 e3 e4 =
    ap₂ (λ a b. picked s t a b s.done t.done) e1 e2 ∙ ap₂ (λ c d. picked s t a b c d) e3 e4

module _ (n : ℕ) where
  long : (s : Side) (x : Bytes) → IsLeft n s x → 0 < length s.available → 0 < length x
  long s x h more = omega (arith, ap length h.content, length-append s.available h.rest, more)

  compare-IsCompared :
      (s t : Side) (x y : Bytes)
      → IsLeft n s x
      → IsLeft n t y
      → Ready s
      → Ready t
      → (s' : Side) × (t' : Side) × (same : Bool) × (compare_available s t ≡ (s', t', same))
        × IsCompared n s t x y s' t' same
  compare-IsCompared s t x y h k (inr a) (inr b) =
      let m = min (length s.available) (length t.available) in
      (
        with_available s (drop m s.available),
        with_available t (drop m t.available),
        bytes_eq (take m s.available) (take m t.available),
        picked_at s t false false false false (more_of s.available a.1) (more_of t.available b.1)
            a.0 b.0,
        both_going n s t x y h k a b,
      )
  compare-IsCompared s t x y h k (inr a) (inl b) =
      let (nothing, gone) = nothing_left n t y k b in
      let (r, l) = emptied n s x h a.0 in
      (
        with_available s [],
        t,
        false,
        picked_at s t false true false true (more_of s.available a.1) (empty_of t.available nothing)
            a.0 b,
        record {
          x' = r;
          y' = y;
          first = l;
          second = k;
          verdict = sym (ap (bytes_eq x) gone ∙ bytes_eq_nil x (long s x h a.1));
          fewer =
              inl (omega (arith, left_going n s a.0, left_going n (with_available s []) a.0, a.1));
        },
      )
  compare-IsCompared s t x y h k (inl a) (inr b) =
      let (nothing, gone) = nothing_left n s x h a in
      let (r, l) = emptied n t y k b.0 in
      (
        s,
        with_available t [],
        false,
        picked_at s t true false true false (empty_of s.available nothing) (more_of t.available b.1)
            a b.0,
        record {
          x' = x;
          y' = r;
          first = h;
          second = l;
          verdict = sym (ap (λ z. bytes_eq z y) gone ∙ nil_bytes_eq y (long t y k b.1));
          fewer =
              inl (omega (arith, left_going n t b.0, left_going n (with_available t []) b.0, b.1));
        },
      )
  compare-IsCompared s t x y h k (inl a) (inl b) =
      let (nothing, gone) = nothing_left n s x h a in
      let (nothing', gone') = nothing_left n t y k b in
      (
        s,
        t,
        true,
        picked_at s t true true true true (empty_of s.available nothing)
            (empty_of t.available nothing') a b,
        record {
          x' = x;
          y' = y;
          first = h;
          second = k;
          verdict = refl;
          fewer = inr (a, b, omega arith);
        },
      )

  -- A round of the loop, where the sides are not both done.
  record IsStep (s t : Side) (x y : Bytes) (e : Bool) : Type 0 where
    pub s' : Side
    pub t' : Side
    pub e' : Bool
    pub x' : Bytes
    pub y' : Bytes
    pub runs : round n s t e ≡ ok (s', t', e')
    pub first : IsLeft n s' x'
    pub second : IsLeft n t' y'
    pub verdict : (e' && bytes_eq x' y') ≡ (e && bytes_eq x y)
    pub fewer : left s' + left t' < left s + left t

  and_assoc : (a b c : Bool) → ((a && true && true && b) && c) ≡ (a && (b && c))
  and_assoc a b c = ground arith

  round_runs :
      (s t s1 t1 s2 t2 : Side) (e same : Bool)
      → refill n s ≡ ok (s1, true)
      → refill n t ≡ ok (t1, true)
      → compare_available s1 t1 ≡ (s2, t2, same)
      → round n s t e ≡ ok (s2, t2, e && true && true && same)
  unfolding round
  round_runs s t s1 t1 s2 t2 e same e1 e2 e3 = rw (e1, e2, e3)

  decreases :
      (s t s1 t1 s2 t2 : Side)
      → (left s1 < left s) ⊎ (s1 ≡ s)
      → (left t1 < left t) ⊎ (t1 ≡ t)
      → (left s2 + left t2 < left s1 + left t1)
        ⊎ ((s1.done ≡ true) × (t1.done ≡ true) × (left s2 + left t2 ≤ left s1 + left t1))
      → (s.done && t.done) ≡ false
      → left s2 + left t2 < left s + left t
  decreases s t s1 t1 s2 t2 (inl a) (inl b) c going = ground (arith, a, b, c)
  decreases s t s1 t1 s2 t2 (inl a) (inr b) c going = ground (arith, a, ap left b, c)
  decreases s t s1 t1 s2 t2 (inr a) (inl b) c going = ground (arith, ap left a, b, c)
  decreases s t s1 t1 s2 t2 (inr a) (inr b) (inl c) going = omega (arith, ap left a, ap left b, c)
  decreases s t s1 t1 s2 t2 (inr a) (inr b) (inr (c, d, f)) going =
      let s_done : s.done ≡ true = sym (ap (λ u. u.done) a) ∙ c in
      let t_done : t.done ≡ true = sym (ap (λ u. u.done) b) ∙ d in
      absurd (let bad : true ≡ false = sym (ap₂ ◌&&◌ s_done t_done) ∙ going in cc)

  round-IsStep :
      (s t : Side) (x y : Bytes) (e : Bool)
      → IsLeft n s x
      → IsLeft n t y
      → (s.done && t.done) ≡ false
      → IsStep s t x y e
  round-IsStep s t x y e h k going =
      let (s1, e1, a) = refill-IsRefilled n s x h in
      let (t1, e2, b) = refill-IsRefilled n t y k in
      let (s2, t2, same, e3, c) = compare-IsCompared s1 t1 x y a.holds b.holds a.ready b.ready in
      record {
        s' = s2;
        t' = t2;
        e' = e && true && true && same;
        x' = c.x';
        y' = c.y';
        runs = round_runs s t s1 t1 s2 t2 e same e1 e2 e3;
        first = c.first;
        second = c.second;
        verdict = and_assoc e same (bytes_eq c.x' c.y') ∙ ap (λ v. e && v) c.verdict;
        fewer = decreases s t s1 t1 s2 t2 a.fewer b.fewer c.fewer going;
      }

  loop_runs :
      (fuel : ℕ) (s t s1 t1 : Side) (e e1 : Bool)
      → (s.done && t.done) ≡ false
      → round n s t e ≡ ok (s1, t1, e1)
      → equal_loop (suc fuel) n s t e ≡ equal_loop fuel n s1 t1 e1
  unfolding equal_loop
  loop_runs fuel s t s1 t1 e e1 going runs = rw (going, runs)

  loop_ends :
      (fuel : ℕ) (s t : Side) (e : Bool)
      → (s.done && t.done) ≡ true
      → equal_loop (suc fuel) n s t e ≡ ok (verdict s t e)
  unfolding equal_loop
  loop_ends fuel s t e ended = rw ended

  counts : (s : Side) (x : Bytes) → IsLeft n s x → s.done ≡ true → s.observed ≡ s.declared
  counts s x h e = elim h.ended [
    | inl going ↦ absurd (let bad : true ≡ false = sym e ∙ going in cc)
    | inr (a, r) ↦ omega (arith, h.counted, ap length r)
  ]

  verdict_true :
      (s t : Side) (x y : Bytes) (e : Bool)
      → s.observed ≡ s.declared
      → t.observed ≡ t.declared
      → s.available ≡ []
      → t.available ≡ []
      → verdict s t e ≡ (e && true)
  verdict_true s t x y e c d a b = ground (arith, c, d, ap is_empty a, ap is_empty b)

  -- With enough fuel, the loop returns whether what is left is the same.
  pub equal_loop-eq :
      (fuel : ℕ) (s t : Side) (x y : Bytes) (e : Bool)
      → left s + left t < fuel
      → IsLeft n s x
      → IsLeft n t y
      → equal_loop fuel n s t e ≡ ok (e && bytes_eq x y)
  unfolding equal_loop
  equal_loop-eq zero s t x y e enough h k = absurd (omega (arith, enough))
  equal_loop-eq (suc fuel) s t x y e enough h k = elim (Bool-cases (s.done && t.done)) [
    | inr going ↦
        let r = round-IsStep s t x y e h k going in
        loop_runs fuel s t r.s' r.t' e r.e' going r.runs
        ∙ equal_loop-eq fuel r.s' r.t' r.x' r.y' r.e' (omega (arith, r.fewer, enough)) r.first
            r.second
        ∙ ap ok r.verdict
    | inl ended ↦
        let s_done : s.done ≡ true = ground (arith, ended) in
        let t_done : t.done ≡ true = ground (arith, ended) in
        let (nothing, gone) = nothing_left n s x h s_done in
        let (nothing', gone') = nothing_left n t y k t_done in
        loop_ends fuel s t e ended
        ∙ ap ok (
            verdict_true s t x y e (counts s x h s_done) (counts t y k t_done) nothing nothing'
            ∙ ap₂ (λ a b. e && bytes_eq a b) (sym gone) (sym gone'))
  ]

module _ (n : ℕ) (p q : FieldPayload) (x y : Bytes) where
  -- Two payloads that yield chunks of these contents within the bound, of the lengths that they
  -- declare, are compared to the end, and the result is whether the contents are the same.
  pub payloads_equal-eq :
      Streams n (iter_chunks p n) x
      → Streams n (iter_chunks q n) y
      → payload_length p ≡ length x
      → payload_length q ≡ length y
      → payloads_equal p q n ≡ ok (bytes_eq x y)
  unfolding payloads_equal
  payloads_equal-eq first second a b =
      equal_loop-eq n (1 + weight (iter_chunks p n) + weight (iter_chunks q n)) (side_of p n)
        (side_of q n) x y true (omega arith)
        (record {
          rest = x;
          streams = first;
          content = refl;
          counted = omega (arith, a);
          ended = inl refl;
        })
        (record {
          rest = y;
          streams = second;
          content = refl;
          counted = omega (arith, b);
          ended = inl refl;
        })
