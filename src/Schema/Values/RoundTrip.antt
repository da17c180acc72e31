-- ===== src/Schema/Values/RoundTrip.antt =====
-- An encoded edit is decoded to the value of the edit (schema.py).
use password_bonobo.Prelude.{
  ℕ, zero, suc, ◌+◌, ◌*◌, ◌^◌, ◌≡◌, ◌≢◌, ◌<◌, refl, sym, ap, subst, ◌∙◌, false, ◌&&◌, inl, inr,
  Option, none, some, length, ltb, ◌==◌, ◌!=◌, Bool-cases, arith, add-suc_left,
}
use native.Mathlib.Nat.{pow-suc}
use password_bonobo.Prelude.Bytes.{Bytes, from_le, to_le, length-to_le, from_le-to_le}
use password_bonobo.Errors.{ok, Result-cases, raise-neq-ok, ok-injective}
use password_bonobo.Schema.{
  FieldKind, uuid, text, time, uint32, uint16, uint8, binary, FieldSpec, is_secret, is_mandatory,
  SecretClassification, secret, public, potentially_secret,
}
use password_bonobo.Schema.Values.{
  TypedValue, none_value, integer, version, uuid_value, string, secret_buffer, bytes_value,
  decode_materialized, decode_integer, encode_value, encode_integer, encode_text, encode_string,
  encode_binary, validate_utf8, is_rfc4122, other_than,
}

-- The value without its protection.
abbrev pub bare : TypedValue → TypedValue
bare none_value = none_value
bare (integer n) = integer n
bare (version v) = version v
bare (uuid_value c) = uuid_value c
bare (string c) = bytes_value c
bare (secret_buffer c) = bytes_value c
bare (bytes_value c) = bytes_value c

-- A value of the Python type that edits a field of the kind. A UUID has sixteen bytes, and eight
-- bytes of a time would be read as a historical time.
pub data IsEdit : FieldKind → Option ℕ → TypedValue → Type 0 where
  uuid_edit : (width : Option ℕ) (c : Bytes) → length c ≡ 16 → IsEdit uuid width (uuid_value c)
  text_edit : (width : Option ℕ) (c : Bytes) → IsEdit text width (string c)
  secret_text_edit : (width : Option ℕ) (c : Bytes) → IsEdit text width (secret_buffer c)
  time_edit : (w n : ℕ) → w ≢ 8 → IsEdit time (some w) (integer n)
  uint8_edit : (width : Option ℕ) (n : ℕ) → IsEdit uint8 width (integer n)
  uint16_edit : (width : Option ℕ) (n : ℕ) → IsEdit uint16 width (integer n)
  uint32_edit : (width : Option ℕ) (n : ℕ) → IsEdit uint32 width (integer n)
  binary_edit : (width : Option ℕ) (c : Bytes) → IsEdit binary width (bytes_value c)
  secret_binary_edit : (width : Option ℕ) (c : Bytes) → IsEdit binary width (secret_buffer c)

-- The value that is decoded from a content.
abbrev pub DecodesTo : ℕ → FieldSpec → FieldKind → Bytes → TypedValue → Type 0
DecodesTo type_code spec kind content value =
    (v : TypedValue) × (decode_materialized type_code spec kind content ≡ ok v)
    × (bare v ≡ bare value)

doubled : (k m : ℕ) → 2 ^ (suc k + m) ≡ 2 ^ (k + m) * 2
doubled k m = ap (λ e. 2 ^ e) (add-suc_left k m) ∙ pow-suc 2 (k + m)

byte_power : (m : ℕ) → 2 ^ (8 + m) ≡ 256 * 2 ^ m
byte_power m =
    let none_left : 2 ^ (0 + m) ≡ 2 ^ m = ap (λ e. 2 ^ e) {x = 0 + m} {y = m} (omega arith) in
    omega (
      arith,
      none_left,
      doubled 0 m,
      doubled 1 m,
      doubled 2 m,
      doubled 3 m,
      doubled 4 m,
      doubled 5 m,
      doubled 6 m,
      doubled 7 m,
    )

pow-bytes : (w : ℕ) → 2 ^ (w * 8) ≡ 256 ^ w
pow-bytes zero = refl
pow-bytes (suc w) =
    let split : suc w * 8 ≡ 8 + w * 8 = omega arith in
    ap (λ e. 2 ^ e) split ∙ omega (arith, byte_power (w * 8), pow-bytes w, pow-suc 256 w)

some-injective : {a b : ℕ} → some a ≡ some b → a ≡ b
some-injective h = cc

wire :
    (width : Option ℕ) (n : ℕ) (content : Bytes)
    → encode_integer width n ≡ ok content
    → (w : ℕ) × (width ≡ some w) × (length content ≡ w) × (from_le content ≡ n)
wire none n content h = absurd (raise-neq-ok h)
wire (some w) n content h = elim (Bool-cases (ltb n (2 ^ (w * 8)))) [
  | inr e ↦ absurd (raise-neq-ok (rw e at h))
  | inl e ↦
      let same : to_le w n ≡ content = ok-injective (rw e at h) in
      let fits : n < 256 ^ w = ground (arith, e, pow-bytes w) in
      (
        w,
        refl,
        ap length (sym same) ∙ length-to_le w n,
        ap from_le (sym same) ∙ from_le-to_le w n fits,
      )
]

decode_integer-ordinary :
    (type_code : ℕ) (content : Bytes)
    → type_code ≢ 0
    → decode_integer type_code content ≡ ok (integer (from_le content))
decode_integer-ordinary type_code content h =
    let other : (type_code == 0x00) ≡ false = ground arith in rw other

-- An integer kind.
integer_decodes :
    (type_code : ℕ) (spec : FieldSpec) (width : Option ℕ) (n : ℕ) (content : Bytes)
    → type_code ≢ 0
    → encode_integer width n ≡ ok content
    → decode_integer type_code content ≡ ok (integer n)
integer_decodes type_code spec width n content t h =
    let (w, _, _, e) = wire width n content h in
    decode_integer-ordinary type_code content t ∙ ap (λ m. ok (integer m)) e

text_decodes :
    (type_code : ℕ) (spec : FieldSpec) (c content : Bytes)
    → encode_text spec c ≡ ok content
    → DecodesTo type_code spec text content (string c)
text_decodes type_code spec c content h = elim (Result-cases (validate_utf8 c)) [
  | inr (_, e) ↦ absurd (raise-neq-ok (rw e at h))
  | inl (_, e) ↦ elim (Bool-cases (is_mandatory spec.mandatory_role && (length c == 0))) [
    | inl f ↦ absurd (raise-neq-ok (rw (e, f) at h))
    | inr f ↦
        let same : c ≡ content = ok-injective (rw (e, f) at h) in
        subst (λ b. DecodesTo type_code spec text b (string c)) same
          (elim (Bool-cases (is_secret spec.secrecy)) [
            | inl g ↦ (secret_buffer c, rw (e, g), refl)
            | inr g ↦ (string c, rw (e, g), refl)
          ])
  ]
]

binary_decodes :
    (type_code : ℕ) (spec : FieldSpec) (c content : Bytes)
    → encode_binary spec.fixed_length c ≡ ok content
    → DecodesTo type_code spec binary content (bytes_value c)
binary_decodes type_code spec c content h =
    elim (Bool-cases (other_than spec.fixed_length (length c))) [
      | inl e ↦ absurd (raise-neq-ok (rw e at h))
      | inr e ↦
          let same : c ≡ content = ok-injective (rw e at h) in
          subst (λ b. DecodesTo type_code spec binary b (bytes_value c)) same
            (elim (Bool-cases (is_secret spec.secrecy)) [
              | inl g ↦ (secret_buffer c, rw g, refl)
              | inr g ↦ (bytes_value c, rw g, refl)
            ])
    ]

uuid_decodes :
    (type_code : ℕ) (spec : FieldSpec) (width : Option ℕ) (c content : Bytes)
    → length c ≡ 16
    → encode_value spec uuid width (uuid_value c) ≡ ok content
    → DecodesTo type_code spec uuid content (uuid_value c)
unfolding encode_value
uuid_decodes type_code spec width c content size h = elim (Bool-cases (is_rfc4122 c)) [
  | inr e ↦ absurd (raise-neq-ok (rw e at h))
  | inl e ↦
      let same : c ≡ content = ok-injective (rw e at h) in
      let sized : (length c != 16) ≡ false = ground (arith, size) in
      subst (λ b. DecodesTo type_code spec uuid b (uuid_value c)) same
        (uuid_value c, rw (sized, e), refl)
]

time_decodes :
    (type_code : ℕ) (spec : FieldSpec) (w n : ℕ) (content : Bytes)
    → w ≢ 8
    → encode_integer (some w) n ≡ ok content
    → DecodesTo type_code spec time content (integer n)
time_decodes type_code spec w n content edit h =
    let (v, same, size, e) = wire (some w) n content h in
    let short : (length content == 8) ≡ false = ground (arith, size, edit, some-injective same) in
    (integer n, rw (short, e), refl)

plain_text :
    (secrecy : SecretClassification) (spec : FieldSpec) (c content : Bytes)
    → encode_string secrecy spec c ≡ ok content
    → encode_text spec c ≡ ok content
plain_text secret spec c content h = absurd (raise-neq-ok h)
plain_text public spec c content h = h
plain_text potentially_secret spec c content h = h

-- The content that an edit of a known field is encoded to is decoded, under the same specification,
-- to the value of the edit, up to its protection.
pub decode_materialized-encode_value :
    (type_code : ℕ) (spec : FieldSpec) (kind : FieldKind) (width : Option ℕ) (value : TypedValue)
    (content : Bytes)
    → type_code ≢ 0
    → IsEdit kind width value
    → encode_value spec kind width value ≡ ok content
    → DecodesTo type_code spec kind content value
unfolding encode_value
decode_materialized-encode_value t spec _ _ _ content nz (uuid_edit width c size) h =
    uuid_decodes t spec width c content size h
decode_materialized-encode_value t spec _ _ _ content nz (text_edit width c) h =
    text_decodes t spec c content (plain_text spec.secrecy spec c content h)
decode_materialized-encode_value t spec _ _ _ content nz (secret_text_edit width c) h =
    text_decodes t spec c content h
decode_materialized-encode_value t spec _ _ _ content nz (time_edit w n edit) h =
    time_decodes t spec w n content edit h
decode_materialized-encode_value t spec _ _ _ content nz (uint8_edit width n) h =
    (integer n, integer_decodes t spec width n content nz h, refl)
decode_materialized-encode_value t spec _ _ _ content nz (uint16_edit width n) h =
    (integer n, integer_decodes t spec width n content nz h, refl)
decode_materialized-encode_value t spec _ _ _ content nz (uint32_edit width n) h =
    (integer n, integer_decodes t spec width n content nz h, refl)
decode_materialized-encode_value t spec _ _ _ content nz (binary_edit width c) h =
    elim (Bool-cases (is_secret spec.secrecy)) [
      | inl e ↦ absurd (raise-neq-ok (rw e at h))
      | inr e ↦ binary_decodes t spec c content (rw e at h)
    ]
decode_materialized-encode_value t spec _ _ _ content nz (secret_binary_edit width c) h =
    elim (Bool-cases (is_secret spec.secrecy)) [
      | inl e ↦ binary_decodes t spec c content (rw e at h)
      | inr e ↦ absurd (raise-neq-ok (rw e at h))
    ]
