-- ===== src/CustomFields/RoundTrip.antt =====
-- `encode_custom_fields` undoes `parse_custom_fields` (custom_fields.py).
use password_bonobo.Prelude.{
  ℕ, zero, suc, ◌+◌, ◌≡◌, refl, sym, ap, ap₂, subst, ◌∙◌, Bool, true, false, not, ◌&&◌, ◌||◌, inl,
  inr, List, [], ◌∷◌, ◌++◌, append_assoc, append-nil, length, take, All, ltb, leb, ◌==◌,
  if◌then◌else◌, Bool-cases, arith, length_nil,
}
use password_bonobo.Prelude.Bytes.{Bytes}
use password_bonobo.Errors.{ok, Result-cases, raise-neq-ok, ok-injective}
use password_bonobo.Constants.{max_decoded_text_bytes_ceiling}
use password_bonobo.CustomFields.{
  CustomField, Parsing, separator, is_separator, property_header, finish_field, custom_property,
  parse_round, parse_loop, finish_last, parse_custom_fields, encoded_properties, encode_loop,
  encode_custom_fields,
}
use password_bonobo.CustomFields.Lossless.{
  fields_text, text, IsSeparated, fields_text-append, finish_field-eq-ok, custom_property-eq-ok,
  IsRound, separator-IsRound, property-IsRound,
}

parse_round-IsRound :
    (p : Parsing) (source : Bytes) (next : Bytes × Parsing)
    → parse_round p source ≡ ok next
    → IsRound p source next.0 next.1
parse_round-IsRound p source next h = elim (Bool-cases (is_separator source)) [
  | inl s ↦ elim (Bool-cases (length p.properties == 0)) [
    | inl e ↦ absurd (raise-neq-ok (rw (s, e) at h))
    | inr e ↦ elim (Result-cases (finish_field p.properties p.names true)) [
      | inr (_, f) ↦ absurd (raise-neq-ok (rw (s, e, f) at h))
      | inl (field, f) ↦
          subst (λ n. IsRound p source n.0 n.1) (ok-injective (rw (s, e, f) at h))
            (separator-IsRound p source field s f)
    ]
  ]
  | inr s ↦ elim (Result-cases (property_header p.identifiers source)) [
    | inr (_, e) ↦ absurd (raise-neq-ok (rw (s, e) at h))
    | inl ((property_id, n), e) ↦
        elim (Result-cases (custom_property property_id (take (6 + n) source))) [
          | inr (_, f) ↦ absurd (raise-neq-ok (rw (s, e, f) at h))
          | inl (property, f) ↦
              subst (λ m. IsRound p source m.0 m.1) (ok-injective (rw (s, e, f) at h))
                (property-IsRound p source (6 + n) (property_id ∷ p.identifiers) property
                  (custom_property-eq-ok property_id (take (6 + n) source) property f))
        ]
  ]
]

parse_loop-IsRound :
    (fuel : ℕ) (p : Parsing) (source : Bytes) (q : Parsing)
    → parse_loop fuel p source ≡ ok q
    → IsRound p source [] q
unfolding parse_loop
parse_loop-IsRound fuel p [] q h =
    subst (λ q'. IsRound p [] [] q') (ok-injective h) (record { moved = refl; separated = λ s. s })
parse_loop-IsRound zero p (b ∷ bs) q h = absurd (raise-neq-ok h)
parse_loop-IsRound (suc fuel) p (b ∷ bs) q h = elim (Result-cases (parse_round p (b ∷ bs))) [
  | inr (_, e) ↦ absurd (raise-neq-ok (rw e at h))
  | inl (next, e) ↦
      let first = parse_round-IsRound p (b ∷ bs) next e in
      let later = parse_loop-IsRound fuel next.1 next.0 q (rw e at h) in
      record {
        moved = later.moved ∙ first.moved;
        separated = λ s. later.separated (first.separated s);
      }
]

no_gap : (b : Bool) → (b && not true) ≡ false
no_gap true = refl
no_gap false = refl

encode_loop-separated :
    (fields : List CustomField)
    → All IsSeparated fields
    → encode_loop fields ≡ ok (fields_text fields)
encode_loop-separated [] h = refl
encode_loop-separated (f ∷ fs) h =
    rw (h.0.opened, h.0.separated, no_gap (ltb 0 (length fs)), encode_loop-separated fs h.1)
      (ap ok (sym (append_assoc (encoded_properties f.properties) separator (fields_text fs))))

encode_loop-last :
    (fields : List CustomField) (last : CustomField)
    → All IsSeparated fields
    → last.closed ≡ false
    → encode_loop (fields ++ (last ∷ [])) ≡ ok (fields_text (fields ++ (last ∷ [])))
encode_loop-last [] last h e = rw e (
    ap ok (
      sym (
        append_assoc (encoded_properties last.properties)
          (if last.separator_after then separator else []) [])))
encode_loop-last (f ∷ fs) last h e =
    rw
      (
        h.0.opened,
        h.0.separated,
        no_gap (ltb 0 (length (fs ++ (last ∷ [])))),
        encode_loop-last fs last h.1 e,
      )
      (ap ok (
        sym (
          append_assoc (encoded_properties f.properties) separator
            (fields_text (fs ++ (last ∷ []))))))

abbrev nothing_parsed : Parsing
nothing_parsed = record { fields = []; properties = []; names = []; identifiers = [] }

-- What the end of the parser returns, encoded.
finish_last-encode :
    (source : Bytes) (p : Parsing) (fields : List CustomField)
    → IsRound nothing_parsed source [] p
    → finish_last p ≡ ok fields
    → encode_loop fields ≡ ok source
finish_last-encode source p fields r h =
    let whole : text p ≡ source = sym (append-nil (text p)) ∙ r.moved in
    elim (Bool-cases (length p.properties == 0)) [
      | inl e ↦
          let none_left : p.properties ≡ [] = length_nil p.properties (ground (arith, e)) in
          let same : p.fields ≡ fields = ok-injective (rw e at h) in
          subst (λ fs. encode_loop fs ≡ ok source) same
            (encode_loop-separated p.fields (r.separated tt)
              ∙ ap ok (
                  sym (append-nil (fields_text p.fields))
                  ∙ ap (λ items. fields_text p.fields ++ encoded_properties items) (sym none_left)
                  ∙ whole))
      | inr e ↦ elim (Result-cases (finish_field p.properties p.names false)) [
        | inr (_, f) ↦ absurd (raise-neq-ok (rw (e, f) at h))
        | inl (last, f) ↦
            let (properties, after, opened) =
              finish_field-eq-ok p.properties p.names false last f in
            let same : p.fields ++ (last ∷ []) ≡ fields = ok-injective (rw (e, f) at h) in
            subst (λ fs. encode_loop fs ≡ ok source) same
              (encode_loop-last p.fields last (r.separated tt) opened
                ∙ ap ok (
                    fields_text-append p.fields last
                    ∙ ap (λ b. fields_text p.fields ++ b)
                        (ap₂ (λ items b. encoded_properties items ++ (if b then separator else []))
                            properties after
                          ∙ append-nil (encoded_properties p.properties))
                    ∙ whole))
      ]
    ]

-- Custom fields that were parsed are encoded to the bytes they were read from: order, unknown
-- properties and a trailing separator included.
pub encode_custom_fields-parse :
    (source : Bytes) (max_bytes : ℕ) (fields : List CustomField)
    → parse_custom_fields source max_bytes ≡ ok fields
    → encode_custom_fields fields ≡ ok source
unfolding parse_custom_fields encode_custom_fields
encode_custom_fields-parse source max_bytes fields h =
    elim (Bool-cases (not (ltb 0 max_bytes && leb max_bytes max_decoded_text_bytes_ceiling))) [
      | inl a ↦ absurd (raise-neq-ok (rw a at h))
      | inr a ↦ elim (Bool-cases ((length source == 0) || ltb max_bytes (length source))) [
        | inl b ↦ absurd (raise-neq-ok (rw (a, b) at h))
        | inr b ↦ elim (Result-cases (parse_loop (length source) nothing_parsed source)) [
          | inr (_, c) ↦ absurd (raise-neq-ok (rw (a, b, c) at h))
          | inl (p, c) ↦ elim (Result-cases (finish_last p)) [
            | inr (_, d) ↦ absurd (raise-neq-ok (rw (a, b, c, d) at h))
            | inl (found, d) ↦ elim (Bool-cases (length found == 0)) [
              | inl f ↦ absurd (raise-neq-ok (rw (a, b, c, d, f) at h))
              | inr f ↦
                  let same : found ≡ fields = ok-injective (rw (a, b, c, d, f) at h) in
                  subst (λ fs. encode_loop fs ≡ ok source) same
                    (finish_last-encode source p found
                      (parse_loop-IsRound (length source) nothing_parsed source p c) d)
            ]
          ]
        ]
      ]
    ]
