-- ===== src/Model/Equality/Laws.antt =====
-- `_payloads_equal` of model.py: the refill of a buffer.
pub mod Rounds
pub mod Decides
use password_bonobo.Prelude.{
  ℕ, zero, suc, ◌+◌, ◌≤◌, ◌<◌, ◌≡◌, refl, sym, ap, ap₂, subst, ◌∙◌, Bool, true, false, not, ◌&&◌,
  List, [], ◌∷◌, ◌++◌, length, ltb, leb, if◌then◌else◌, ◌⊎◌, inl, inr, append-nil, length-append,
  arith,
}
use password_bonobo.Prelude.Bytes.{Bytes}
use password_bonobo.Errors.{Result, ok}
use password_bonobo.Payloads.Chunks.{ChunkStream, end, fault, chunk, Streams, ends, yields}
use password_bonobo.Model.Equality.{Side, is_empty, weight, refill, next_chunk}

-- A side whose buffer and stream have this content left, of the declared length in all.
pub record IsLeft (n : ℕ) (s : Side) (x : Bytes) : Type 0 where
  pub rest : Bytes
  pub streams : Streams n s.stream rest
  pub content : x ≡ s.available ++ rest
  pub counted : s.observed + length rest ≡ s.declared
  pub ended : (s.done ≡ false) ⊎ ((s.available ≡ []) × (rest ≡ []))

-- The chunks, bytes and ends that a side has left.
abbrev pub left : Side → ℕ
left s = elim s.done [ true ↦ 0 | false ↦ length s.available + weight s.stream ]

-- What a refill gives: the same content, and a buffer that is not empty or the end.
pub record IsRefilled (n : ℕ) (s t : Side) (x : Bytes) : Type 0 where
  pub holds : IsLeft n t x
  pub ready : (t.done ≡ true) ⊎ ((t.done ≡ false) × (0 < length t.available))
  pub fewer : (left t < left s) ⊎ (t ≡ s)

same_side :
    (s : Side)
    → s.done ≡ false
    → s.available ≡ []
    → record {
      stream = s.stream;
      available = [];
      done = false;
      observed = s.observed;
      declared = s.declared;
    }
      ≡ s
same_side s e1 e2 =
    ap₂
      (λ d a. record {
        stream = s.stream;
        available = a;
        done = d;
        observed = s.observed;
        declared = s.declared;
      })
      (sym e1) (sym e2)

module _ (n : ℕ) where
  refill_empty :
      (st : ChunkStream) (rest : Bytes) (o e : ℕ)
      → Streams n st rest
      → o + length rest ≡ e
      → (t : Side) × (refill n
            (record { stream = st; available = []; done = false; observed = o; declared = e })
          ≡ ok (t, true))
        × IsRefilled n
            (record { stream = st; available = []; done = false; observed = o; declared = e })
            t
            rest
  unfolding refill
  refill_empty st rest o e ends k = (
    record { stream = end; available = []; done = true; observed = o; declared = e },
    refl,
    record {
      holds = record {
        rest = [];
        streams = ends;
        content = refl;
        counted = k;
        ended = inr (refl, refl);
      };
      ready = inl refl;
      fewer = inl (omega arith);
    },
  )
  refill_empty st rest o e (yields c tail {cs = cs} positive bounded more content same) k =
      let sizes : length rest ≡ length c + length tail = ap length same ∙ length-append c tail in
      let fits : (ltb 0 (length c) && leb (length c) n) ≡ true =
        ground (arith, positive, bounded) in
      let within : ltb (e + n) (o + length c) ≡ false = ground (arith, sizes, k) in
      let inside : ltb e (o + length c) ≡ false = ground (arith, sizes, k) in
      (
        record { stream = cs; available = c; done = false; observed = o + length c; declared = e },
        rw (fits, within, inside),
        record {
          holds = record {
            rest = tail;
            streams = more;
            content = same;
            counted = omega (arith, sizes, k);
            ended = inl refl;
          };
          ready = inr (refl, positive);
          fewer = inl (omega arith);
        },
      )

  -- A refill of a side that has this content left.
  pub refill-IsRefilled :
      (s : Side) (x : Bytes)
      → IsLeft n s x
      → (t : Side) × (refill n s ≡ ok (t, true)) × IsRefilled n s t x
  unfolding refill
  refill-IsRefilled s x h = go s.done s.available refl refl
    where
      go :
          (d : Bool) (available : Bytes)
          → s.done ≡ d
          → s.available ≡ available
          → (t : Side) × (refill n s ≡ ok (t, true)) × IsRefilled n s t x
      go true available e1 e2 =
          (s, kept s.available, record { holds = h; ready = inl e1; fewer = inr refl })
        where
          kept :
              (bs : Bytes)
              → (if is_empty bs && not s.done then next_chunk n s s.stream else ok (s, true))
                ≡ ok (s, true)
          kept [] =
              subst (λ d. (if not d then next_chunk n s s.stream else ok (s, true)) ≡ ok (s, true))
                (sym e1) refl
          kept (b ∷ bs) = refl
      go false (b ∷ bs) e1 e2 = (
        s,
        subst
            (λ a.
              (if is_empty a && not s.done then next_chunk n s s.stream else ok (s, true))
              ≡ ok (s, true))
            (sym e2) refl,
        record { holds = h; ready = inr (e1, omega (arith, ap length e2)); fewer = inr refl },
      )
      go false [] e1 e2 =
          let fresh : Side = record {
            stream = s.stream;
            available = [];
            done = false;
            observed = s.observed;
            declared = s.declared;
          } in
          let same : fresh ≡ s = same_side s e1 e2 in
          let whole : h.rest ≡ x = sym (h.content ∙ ap (λ a. a ++ h.rest) e2) in
          subst (λ u. (t : Side) × (refill n u ≡ ok (t, true)) × IsRefilled n u t x) same
            (subst (λ y. (t : Side) × (refill n fresh ≡ ok (t, true)) × IsRefilled n fresh t y)
              whole (refill_empty s.stream h.rest s.observed s.declared h.streams h.counted))
