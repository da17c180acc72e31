-- ===== src/Reader/Version.antt =====
-- `_validate_version_fields` and `_materialize_exact` of reader.py.
use password_bonobo.Prelude.{
  ℕ, ◌+◌, ◌≡◌, ◌≤◌, ◌↔◌, sym, ap, ◌∙◌, leb, append-nil, append_assoc, length-append, false, true,
  not, inl, inr, List, [], ◌∷◌, ◌++◌, length, ltb, ◌==◌, ◌!=◌, if◌then◌else◌, Bool-cases, arith,
}
use password_bonobo.Prelude.Bytes.{Bytes, from_le}
use password_bonobo.Errors.{
  Result, ok, raise, malformed_vault_error, invalid_field, missing_mandatory_field,
  unsupported_format_error, unsupported_version, ◌>>=◌, ◌>>◌, raise_if, raise-neq-ok, passed,
  first_part, ok-injective,
}
use password_bonobo.Constants.{FormatVersion, from_uint16, supported, ResourceLimits}
use password_bonobo.Payloads.{payload_length, iter_chunks}
use password_bonobo.Payloads.Chunks.{ChunkStream, end, fault, chunk, Streams, ends, yields}
use password_bonobo.Reader.Builder.{BuilderField}

-- The loop of `_materialize_exact`
abbrev materialize_exact : ℕ → Bytes → ChunkStream → Result Bytes
materialize_exact declared sofar end =
    if length sofar != declared then raise (malformed_vault_error invalid_field) else ok sofar
materialize_exact declared sofar (fault e) = raise e
materialize_exact declared sofar (chunk c cs) =
    let rest = materialize_exact declared (sofar ++ c) cs in
    if ltb declared (length (sofar ++ c)) then raise (malformed_vault_error invalid_field) else rest

-- `sum(item.type_code == type_code for item in fields)`
abbrev pub count_type : ℕ → List BuilderField → ℕ
count_type type_code [] = 0
count_type type_code (item ∷ items) =
    if item.type_code == type_code
    then 1 + count_type type_code items
    else count_type type_code items

-- `_validate_version_fields`
unfoldable pub validate_version_fields : List BuilderField → ResourceLimits → Result FormatVersion
validate_version_fields [] limits = raise (malformed_vault_error missing_mandatory_field)
validate_version_fields (first ∷ rest) limits = do
  raise_if (first.type_code != 0x00) (malformed_vault_error missing_mandatory_field)
  raise_if (count_type 0x00 (first ∷ rest) != 1) (malformed_vault_error invalid_field)
  raise_if (payload_length first.payload != 2) (malformed_vault_error invalid_field)
  content ←
      materialize_exact (payload_length first.payload) []
        (iter_chunks first.payload limits.io_chunk_bytes)
  version ← from_uint16 (from_le content)
  raise_if (not (supported version)) (unsupported_format_error unsupported_version)
  ok version

-- What is materialized of a stream is the rest of its content, of the declared length in all.
materialize_exact-content :
    (bound declared : ℕ) (sofar content : Bytes) (stream : ChunkStream) (out : Bytes)
    → Streams bound stream content
    → materialize_exact declared sofar stream ≡ ok out
    → (out ≡ sofar ++ content) × (length out ≡ declared)
materialize_exact-content bound declared sofar _ _ out ends h =
    elim (Bool-cases (length sofar != declared)) [
      | inl t ↦ absurd (raise-neq-ok (rw t at h))
      | inr t ↦
          let same : sofar ≡ out = ok-injective (rw t at h) in
          (sym same ∙ sym (append-nil sofar), ap length (sym same) ∙ ground (arith, t))
    ]
materialize_exact-content bound declared sofar _ _ out (yields c rest {cs} pos le s content e) h =
    elim (Bool-cases (ltb declared (length (sofar ++ c)))) [
      | inl t ↦ absurd (raise-neq-ok (rw t at h))
      | inr t ↦
          let (same, size) =
            materialize_exact-content bound declared (sofar ++ c) rest cs out s (rw t at h) in
          (same ∙ append_assoc sofar c rest ∙ ap (λ x. sofar ++ x) (sym e), size)
    ]

materialize_exact-ok :
    (bound declared : ℕ) (sofar content : Bytes) (stream : ChunkStream)
    → Streams bound stream content
    → length sofar + length content ≡ declared
    → materialize_exact declared sofar stream ≡ ok (sofar ++ content)
materialize_exact-ok bound declared sofar _ _ ends size =
    let fits : (length sofar != declared) ≡ false = ground (arith, size) in
    rw fits (ap ok (sym (append-nil sofar)))
materialize_exact-ok bound declared sofar _ _ (yields c rest {cs} pos le s content e) size =
    let parts : length content ≡ length c + length rest = ap length e ∙ length-append c rest in
    let joined = length-append sofar c in
    let fits : ltb declared (length (sofar ++ c)) ≡ false = ground (arith, size, parts, joined) in
    rw fits (
      materialize_exact-ok bound declared (sofar ++ c) rest cs s
        (omega (arith, size, parts, joined))
      ∙ ap ok (append_assoc sofar c rest ∙ ap (λ x. sofar ++ x) (sym e)))

-- One version field stands first, declares and has two bytes, which are the version's number in
-- little-endian order, and the version is one from 3.0 to 3.17.
pub record IsVersioned (first : BuilderField) (rest : List BuilderField) (content : Bytes)
    (version : FormatVersion) : Type 0 where
  pub leads : first.type_code ≡ 0
  pub once : count_type 0 rest ≡ 0
  pub declared : payload_length first.payload ≡ 2
  pub size : length content ≡ 2
  pub value : version.value ≡ from_le content
  pub lowest : 768 ≤ version.value
  pub highest : version.value ≤ 785

version_of-IsVersioned :
    (n : ℕ) (version : FormatVersion)
    → (from_uint16 n >>= λ v.
        raise_if (not (supported v)) (unsupported_format_error unsupported_version) >> ok v)
      ≡ ok version
    → (version.value ≡ n) × (768 ≤ version.value) × (version.value ≤ 785)
unfolding from_uint16 supported
version_of-IsVersioned n version h = ground (arith, h)

version_of-ok :
    (n : ℕ) (version : FormatVersion)
    → version.value ≡ n
    → 768 ≤ version.value
    → version.value ≤ 785
    → (from_uint16 n >>= λ v.
        raise_if (not (supported v)) (unsupported_format_error unsupported_version) >> ok v)
      ≡ ok version
unfolding from_uint16 supported
version_of-ok n version e low high =
    let fits : leb n 0xFFFF ≡ true = ground arith in
    let above : leb 0x0300 n ≡ true = ground arith in
    let below : leb n 0x0311 ≡ true = ground arith in rw (fits, above, below, e)

-- For a first field whose payload streams a content: the header is accepted with a version exactly
-- when the first field is the only version field, declares and has two bytes, these are the
-- version's number in little-endian order, and the version is one from 0x0300 to 0x0311.
pub validate_version_fields-IsVersioned :
    (first : BuilderField) (rest : List BuilderField) (limits : ResourceLimits) (content : Bytes)
    (version : FormatVersion)
    → Streams limits.io_chunk_bytes (iter_chunks first.payload limits.io_chunk_bytes) content
    → validate_version_fields (first ∷ rest) limits ≡ ok version
      ↔ IsVersioned first rest content version
unfolding validate_version_fields
validate_version_fields-IsVersioned first rest limits content version s = (
  λ h.
      let (a, h1) =
        passed (first.type_code != 0x00) (malformed_vault_error missing_mandatory_field) _ h in
      let (b, h2) =
        passed (count_type 0x00 (first ∷ rest) != 1) (malformed_vault_error invalid_field) _ h1 in
      let (c, h3) =
        passed (payload_length first.payload != 2) (malformed_vault_error invalid_field) _ h2 in
      let (out, d, h4) =
        first_part
          (materialize_exact (payload_length first.payload) []
            (iter_chunks first.payload limits.io_chunk_bytes))
          _ h3 in
      let (same, size) =
        materialize_exact-content limits.io_chunk_bytes (payload_length first.payload) [] content
          (iter_chunks first.payload limits.io_chunk_bytes) out s d in
      let (value, low, high) = version_of-IsVersioned (from_le out) version h4 in
      let two : payload_length first.payload ≡ 2 = ground (arith, c) in
      record {
        leads = ground (arith, a);
        once = ground (arith, a, b);
        declared = two;
        size = ap length (sym same) ∙ size ∙ two;
        value = value ∙ ap from_le same;
        lowest = low;
        highest = high;
      },
  λ i.
      let a : (first.type_code != 0x00) ≡ false = ground (arith, i.leads) in
      let b : (count_type 0x00 (first ∷ rest) != 1) ≡ false = ground (arith, i.leads, i.once) in
      let c : (payload_length first.payload != 2) ≡ false = ground (arith, i.declared) in
      rw
        (
          a,
          b,
          c,
          materialize_exact-ok limits.io_chunk_bytes (payload_length first.payload) [] content
              (iter_chunks first.payload limits.io_chunk_bytes) s
              (omega (arith, i.size, i.declared)),
        )
        (version_of-ok (from_le content) version i.value i.lowest i.highest),
)
