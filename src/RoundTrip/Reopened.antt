-- ===== src/RoundTrip/Reopened.antt =====
-- The document of a vault that was written (writer.py) and opened (reader.py): its fields, and the
-- key for a hardened save.
use password_bonobo.Prelude.{
  ℕ, ◌+◌, ◌≡◌, refl, ap, ap₂, ◌∙◌, Option, none, some, leb, ◌&&◌, if◌then◌else◌, map, [], ◌∷◌, List,
  ◌++◌, ltb,
}
use password_bonobo.Prelude.Bytes.{Bytes}
use password_bonobo.Errors.{ok}
use password_bonobo.Constants.{FormatVersion, minimum_iterations, ResourceLimits}
use password_bonobo.Crypto.Interface.{Digests}
use password_bonobo.Crypto.Keys.Stretch.{digest_power}
use password_bonobo.Payloads.{FieldPayload, inline}
use password_bonobo.Model.{RawField, RawRecord, PreservationWarning, VaultDocument}
use password_bonobo.Reader.Builder.{BuilderField, build, raw_field, raw_records}
use password_bonobo.Reader.Version.{validate_version_fields}
use password_bonobo.Reader.Validation.{Validated, ValidatedRecords, validate_schema_fields}
use password_bonobo.Reader.Validation.Kept.{place, validate_schema_fields-place}
use password_bonobo.Reader.Fields.Rebuild.{read_back}
use password_bonobo.Reader.Fields.Records.{read_back_records}

-- The validation of the reader accepts what it reads back of a document.
pub record IsAccepted (limits : ResourceLimits) (document : VaultDocument) (hcs : List Bytes)
    (css : List (List Bytes)) (version : FormatVersion) (out : Validated × ValidatedRecords)
    : Type 0 where
  pub version_field :
      validate_version_fields (read_back 0 document.header_fields hcs) limits ≡ ok version
  pub schema :
      validate_schema_fields
        (read_back 0 document.header_fields hcs)
        (read_back_records document.records css)
        version
        limits
      ≡ ok out

-- The key for a hardened save: SHA-256 applied 262,144 times more, for a file of fewer iterations
-- and limits that allow as many.
abbrev pub hardened : Digests → ResourceLimits → Bytes → Bytes → ℕ → Option Bytes
hardened digests limits passphrase salt iterations =
    if ltb iterations minimum_iterations && leb minimum_iterations limits.max_iterations
    then some (digest_power digests minimum_iterations (digests.sha256 (passphrase ++ salt)))
    else none

-- A field as it was written: its type, its content in memory, and its place.
abbrev pub raw_place : RawField → ℕ × FieldPayload × ℕ
raw_place raw = (raw.type_code, raw.payload, raw.ordinal)

abbrev pub written : ℕ → List RawField → List Bytes → List (ℕ × FieldPayload × ℕ)
written ordinal (raw ∷ raws) (c ∷ cs) =
    (raw.type_code, inline c, ordinal) ∷ written (ordinal + 1) raws cs
written ordinal [] cs = []
written ordinal (raw ∷ raws) [] = []

abbrev pub written_records : List RawRecord → List (List Bytes) → List (List (ℕ × FieldPayload × ℕ))
written_records (r ∷ rs) (cs ∷ css) = written 0 r.fields cs ∷ written_records rs css
written_records [] css = []
written_records (r ∷ rs) [] = []

-- The document of an opened vault: the fields that were written, in every section.
pub record IsReopened (document : VaultDocument) (hcs : List Bytes) (css : List (List Bytes))
    (version : FormatVersion) (warnings : List PreservationWarning) (reopened : VaultDocument)
    : Type 0 where
  pub header : map raw_place reopened.header_fields ≡ written 0 document.header_fields hcs
  pub records :
      map (λ r. map raw_place r.fields) reopened.records ≡ written_records document.records css
  pub version_is : reopened.version ≡ version
  pub warnings_are : reopened.warnings ≡ warnings

read_back-written :
    (ordinal : ℕ) (raws : List RawField) (cs : List Bytes)
    → map place (read_back ordinal raws cs) ≡ written ordinal raws cs
read_back-written ordinal [] cs = refl
read_back-written ordinal (raw ∷ raws) [] = refl
read_back-written ordinal (raw ∷ raws) (c ∷ cs) =
    ap (λ xs. (raw.type_code, inline c, ordinal) ∷ xs) (read_back-written (ordinal + 1) raws cs)

read_back_records-written :
    (rs : List RawRecord) (css : List (List Bytes))
    → map (map place) (read_back_records rs css) ≡ written_records rs css
read_back_records-written [] css = refl
read_back_records-written (r ∷ rs) [] = refl
read_back_records-written (r ∷ rs) (cs ∷ css) =
    ap₂ (λ x xs. x ∷ xs) (read_back-written 0 r.fields cs) (read_back_records-written rs css)

raw_place-place : (fs : List BuilderField) → map raw_place (map raw_field fs) ≡ map place fs
raw_place-place [] = refl
raw_place-place (f ∷ fs) = ap (λ xs. place f ∷ xs) (raw_place-place fs)

raw_records-place :
    (issued ordinal : ℕ) (records : List (List BuilderField))
    → map (λ r. map raw_place r.fields) (raw_records issued ordinal records)
      ≡ map (map place) records
raw_records-place issued ordinal [] = refl
raw_records-place issued ordinal (r ∷ rs) =
    ap₂ (λ x xs. x ∷ xs) (raw_place-place r) (raw_records-place (issued + 1) (ordinal + 1) rs)

-- What is built of accepted fields.
pub build-IsReopened :
    (issued : ℕ) (limits : ResourceLimits) (document : VaultDocument) (hcs : List Bytes)
    (css : List (List Bytes)) (version : FormatVersion) (out : Validated × ValidatedRecords)
    → IsAccepted limits document hcs css version out
    → IsReopened document hcs css version (out.0.warnings ++ out.1.warnings) (
        build issued
          (record { header = out.0.fields; records = out.1.records })
          version
          (out.0.warnings ++ out.1.warnings))
unfolding build
build-IsReopened issued limits document hcs css version out accepted =
    let (headed, recorded) = validate_schema_fields-place _ _ version limits out accepted.schema in
    record {
      header =
          raw_place-place out.0.fields ∙ headed ∙ read_back-written 0 document.header_fields hcs;
      records =
          raw_records-place issued 0 out.1.records
          ∙ recorded
          ∙ read_back_records-written document.records css;
      version_is = refl;
      warnings_are = refl;
    }
