-- ===== src/Model.antt =====
-- src/bonobo_core/passwordsafe/model.py: the ordered raw document. A handle or a revision token
-- is an identity that carries no data: a number, of which each is issued once.
pub mod Equality
pub mod Documents
use password_bonobo.Prelude.{ℕ, Option, List, [], ◌∷◌, ◌++◌}
use password_bonobo.Constants.{FormatVersion}
use password_bonobo.Payloads.{FieldPayload}

pub data FieldClassification : Type 0 where
  understood unknown malformed : FieldClassification

pub data PreservationWarningCode : Type 0 where
  malformed_optional_field duplicate_optional_field unknown_field : PreservationWarningCode

pub data SectionName : Type 0 where
  header record_section : SectionName

pub record PreservationWarning : Type 0 where
  pub code : PreservationWarningCode
  pub section : SectionName
  pub record_ordinal : Option ℕ
  pub field_ordinal : ℕ
  pub type_code : ℕ

pub record RawField : Type 0 where
  pub type_code : ℕ
  pub payload : FieldPayload
  pub ordinal : ℕ
  pub classification : FieldClassification

pub record RawRecord : Type 0 where
  pub fields : List RawField
  pub ordinal : ℕ
  pub handle : ℕ

pub record VaultDocument : Type 0 where
  pub version : FormatVersion
  pub header_fields : List RawField
  pub records : List RawRecord
  pub revision : ℕ
  pub warnings : List PreservationWarning

-- The fields of the records, in order.
abbrev pub record_fields : List RawRecord → List RawField
record_fields [] = []
record_fields (r ∷ rs) = r.fields ++ record_fields rs

-- `_iter_fields`, and `_iter_document_fields` of writer.py
abbrev pub iter_fields : VaultDocument → List RawField
iter_fields document = document.header_fields ++ record_fields document.records
