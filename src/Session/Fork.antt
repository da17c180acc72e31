-- ===== src/Session/Fork.antt =====
-- `_fork_document` of session.py, with `_retain_field` and `_remap_warnings`, and
-- `VaultDocument.create` of model.py. A retained payload has the content of its source, so the
-- leases of payloads are not seen here. Since the ordinals of a document are the places of its
-- records and fields, a field of it is known by its coordinates.
pub mod Places
pub mod Handles
pub mod Fields
pub mod Warnings
pub mod Follow
use password_bonobo.Prelude.{
  ℕ, ◌+◌, Bool, ◌&&◌, Option, none, some, List, [], ◌∷◌, ◌++◌, ◌==◌, any, length, if◌then◌else◌,
}
use password_bonobo.Model.{
  RawField, RawRecord, VaultDocument, PreservationWarning, SectionName, header, record_section,
}

-- A field of a planned record: one of the document, or one that an edit made.
pub data PlannedField : Type 0 where
  kept made : RawField → PlannedField

abbrev pub raw_of : PlannedField → RawField
raw_of (kept raw) = raw
raw_of (made raw) = raw

-- A `RawRecord` that is planned: its ordinal is the one that it had in the document.
pub record PlannedRecord : Type 0 where
  pub fields : List PlannedField
  pub ordinal : ℕ
  pub handle : ℕ

-- Record ordinal, field ordinal and type code.
pub record Coordinates : Type 0 where
  pub record_ordinal : ℕ
  pub field_ordinal : ℕ
  pub type_code : ℕ

abbrev pub same_coordinates : Coordinates → Coordinates → Bool
same_coordinates a b =
    (a.record_ordinal == b.record_ordinal)
    && (a.field_ordinal == b.field_ordinal)
    && (a.type_code == b.type_code)

abbrev pub Location : Type 0
Location = ℕ × ℕ

-- The fields of a record at their new ordinals.
pub place_fields : ℕ → List PlannedField → List RawField
place_fields field_ordinal [] = []
place_fields field_ordinal (f ∷ fs) =
    record {
      type_code = (raw_of f).type_code;
      payload = (raw_of f).payload;
      ordinal = field_ordinal;
      classification = (raw_of f).classification;
    }
    ∷ place_fields (field_ordinal + 1) fs

unfoldable pub place_records : ℕ → List PlannedRecord → List RawRecord
unfolding place_fields
place_records record_ordinal [] = []
place_records record_ordinal (p ∷ ps) =
    record { fields = place_fields 0 p.fields; ordinal = record_ordinal; handle = p.handle }
    ∷ place_records (record_ordinal + 1) ps

-- The dictionary `remapped`: where the fields of the document went.
pub remapped_fields : ℕ → ℕ → ℕ → List PlannedField → List (Coordinates × Location)
remapped_fields source record_ordinal field_ordinal [] = []
remapped_fields source record_ordinal field_ordinal (kept raw ∷ fs) =
    (
      record { record_ordinal = source; field_ordinal = raw.ordinal; type_code = raw.type_code },
      (record_ordinal, field_ordinal),
    )
    ∷ remapped_fields source record_ordinal (field_ordinal + 1) fs
remapped_fields source record_ordinal field_ordinal (made raw ∷ fs) =
    remapped_fields source record_ordinal (field_ordinal + 1) fs

pub remapped : ℕ → List PlannedRecord → List (Coordinates × Location)
unfolding remapped_fields
remapped record_ordinal [] = []
remapped record_ordinal (p ∷ ps) =
    remapped_fields p.ordinal record_ordinal 0 p.fields ++ remapped (record_ordinal + 1) ps

-- `remapped.get(...)`
pub locate : List (Coordinates × Location) → Coordinates → Option Location
locate [] c = none
locate ((d, l) ∷ entries) c = if same_coordinates d c then some l else locate entries c

pub moved : PreservationWarning → Option Location → List PreservationWarning
moved w none = []
moved w (some (record_ordinal, field_ordinal)) =
    record {
      code = w.code;
      section = record_section;
      record_ordinal = some record_ordinal;
      field_ordinal = field_ordinal;
      type_code = w.type_code;
    }
    ∷ []

pub remap_warning :
    List (Coordinates × Location)
    → PreservationWarning
    → SectionName
    → Option ℕ
    → List PreservationWarning
unfolding moved locate
remap_warning entries w header record_ordinal = w ∷ []
remap_warning entries w record_section none = []
remap_warning entries w record_section (some source) = moved w (
    locate entries (record {
      record_ordinal = source;
      field_ordinal = w.field_ordinal;
      type_code = w.type_code;
    }))

-- `_remap_warnings`
pub remap_warnings :
    List (Coordinates × Location) → List PreservationWarning → List PreservationWarning
unfolding remap_warning
remap_warnings entries [] = []
remap_warnings entries (w ∷ ws) =
    remap_warning entries w w.section w.record_ordinal ++ remap_warnings entries ws

-- The loop of `VaultDocument.create`: a handle that occurs again is replaced by a new one.
pub distinct_records : ℕ → List ℕ → List RawRecord → List RawRecord
distinct_records issued handles [] = []
distinct_records issued handles (r ∷ rs) =
    if any (λ h. h == r.handle) handles
    then record { fields = r.fields; ordinal = r.ordinal; handle = issued }
      ∷ distinct_records (issued + 1) (issued ∷ handles) rs
    else r ∷ distinct_records issued (r.handle ∷ handles) rs

-- `_fork_document`, the revision being the next identity.
unfoldable pub fork_document : ℕ → VaultDocument → List PlannedRecord → VaultDocument
unfolding place_records remapped remap_warnings distinct_records
fork_document issued document planned = record {
  version = document.version;
  header_fields = document.header_fields;
  records = distinct_records (issued + 1) [] (place_records 0 planned);
  revision = issued;
  warnings = remap_warnings (remapped 0 planned) document.warnings;
}
