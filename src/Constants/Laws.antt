-- ===== src/Constants/Laws.antt =====
-- What a version and a set of budgets promise once they are constructed (constants.py).
use password_bonobo.Prelude.{
  ℕ, ◌≤◌, ◌<◌, ◌≡◌, ◌↔◌, refl, sym, ap, ◌∙◌, Bool, true, false, ◌||◌, inl, inr, Bool-cases, arith,
}
use password_bonobo.Prelude.Bytes.{from_le}
use password_bonobo.Errors.{ok, raise-neq-ok, ok-injective}
use password_bonobo.Constants.{
  FormatVersion, from_uint16, to_bytes, ResourceLimits, check_limits, outside,
  max_iterations_ceiling, max_records_ceiling, max_fields_ceiling, max_inline_payload_bytes_ceiling,
  max_decoded_text_bytes_ceiling, max_io_chunk_bytes, max_encrypted_file_bytes_ceiling,
}

-- A version that is constructed from the two bytes of a version is that version.
pub from_uint16-to_bytes :
    (n : ℕ) (version : FormatVersion)
    → from_uint16 n ≡ ok version
    → from_uint16 (from_le (to_bytes version)) ≡ ok version
unfolding from_uint16 to_bytes
from_uint16-to_bytes n version h = ground arith

-- Every budget is positive, and within the ceiling that the code reviewers approved.
pub record IsApproved (l : ResourceLimits) : Type 0 where
  pub iterations_pos : 0 < l.max_iterations
  pub iterations_le : l.max_iterations ≤ 10000000
  pub records_pos : 0 < l.max_records
  pub records_le : l.max_records ≤ 1000000
  pub fields_pos : 0 < l.max_fields
  pub fields_le : l.max_fields ≤ 2000000
  pub inline_pos : 0 < l.max_inline_payload_bytes
  pub inline_le : l.max_inline_payload_bytes ≤ 1048576
  pub text_pos : 0 < l.max_decoded_text_bytes
  pub text_le : l.max_decoded_text_bytes ≤ 16777216
  pub chunk_pos : 0 < l.io_chunk_bytes
  pub chunk_le : l.io_chunk_bytes ≤ 65536
  pub file_pos : 0 < l.max_encrypted_file_bytes
  pub file_le : l.max_encrypted_file_bytes ≤ 4296015872

inside : (value ceiling : ℕ) → outside value ceiling ≡ false → (0 < value) × (value ≤ ceiling)
inside value ceiling h = (ground (arith, h), ground (arith, h))

not_outside : (value ceiling : ℕ) → 0 < value → value ≤ ceiling → outside value ceiling ≡ false
not_outside value ceiling h k = ground (arith, h, k)

neither : (a b : Bool) → (a || b) ≡ false → (a ≡ false) × (b ≡ false)
neither false b h = (refl, h)
neither true b h = absurd (let bad : true ≡ false = h in cc)

all_inside : (l m : ResourceLimits) → check_limits l ≡ ok m → (m ≡ l) × IsApproved l
unfolding check_limits
all_inside l m h =
    elim (Bool-cases (
      outside l.max_iterations max_iterations_ceiling
      || outside l.max_records max_records_ceiling
      || outside l.max_fields max_fields_ceiling
      || outside l.max_inline_payload_bytes max_inline_payload_bytes_ceiling
      || outside l.max_decoded_text_bytes max_decoded_text_bytes_ceiling
      || outside l.io_chunk_bytes max_io_chunk_bytes
      || outside l.max_encrypted_file_bytes max_encrypted_file_bytes_ceiling)) [
        | inl t ↦ absurd (raise-neq-ok (rw t at h))
        | inr t ↦
            let (t6, g) = neither _ _ t in
            let (t5, f) = neither _ _ t6 in
            let (t4, e) = neither _ _ t5 in
            let (t3, d) = neither _ _ t4 in
            let (t2, c) = neither _ _ t3 in
            let (a, b) = neither _ _ t2 in
            (
              sym (ok-injective (rw t at h)),
              record {
                iterations_pos = (inside _ _ a).0;
                iterations_le = (inside _ _ a).1;
                records_pos = (inside _ _ b).0;
                records_le = (inside _ _ b).1;
                fields_pos = (inside _ _ c).0;
                fields_le = (inside _ _ c).1;
                inline_pos = (inside _ _ d).0;
                inline_le = (inside _ _ d).1;
                text_pos = (inside _ _ e).0;
                text_le = (inside _ _ e).1;
                chunk_pos = (inside _ _ f).0;
                chunk_le = (inside _ _ f).1;
                file_pos = (inside _ _ g).0;
                file_le = (inside _ _ g).1;
              },
            )
      ]

approved_pass : (l : ResourceLimits) → IsApproved l → check_limits l ≡ ok l
unfolding check_limits
approved_pass l a =
    let b : outside l.max_iterations max_iterations_ceiling ≡ false =
      not_outside _ _ a.iterations_pos a.iterations_le in
    let c : outside l.max_records max_records_ceiling ≡ false =
      not_outside _ _ a.records_pos a.records_le in
    let d : outside l.max_fields max_fields_ceiling ≡ false =
      not_outside _ _ a.fields_pos a.fields_le in
    let e : outside l.max_inline_payload_bytes max_inline_payload_bytes_ceiling ≡ false =
      not_outside _ _ a.inline_pos a.inline_le in
    let f : outside l.max_decoded_text_bytes max_decoded_text_bytes_ceiling ≡ false =
      not_outside _ _ a.text_pos a.text_le in
    let g : outside l.io_chunk_bytes max_io_chunk_bytes ≡ false =
      not_outside _ _ a.chunk_pos a.chunk_le in
    let h : outside l.max_encrypted_file_bytes max_encrypted_file_bytes_ceiling ≡ false =
      not_outside _ _ a.file_pos a.file_le in
    rw (b, c, d, e, f, g, h)

-- The check of the budgets returns exactly the budgets that it was given, and only when each of the
-- seven is positive and within its ceiling.
pub check_limits-IsApproved :
    (l m : ResourceLimits) → check_limits l ≡ ok m ↔ (m ≡ l) × IsApproved l
check_limits-IsApproved l m = (all_inside l m, λ (same, a). approved_pass l a ∙ ap ok (sym same))
