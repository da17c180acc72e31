-- ===== src/Tests/Validation.antt =====
-- The validation of the small vault's fields, and the small vault written and opened.
use password_bonobo.Prelude.{◌+◌, ◌≡◌, ◌≤◌, ◌↔◌, refl, List, [], ◌∷◌, length, All, arith}
use password_bonobo.Prelude.Bytes.{Bytes}
use password_bonobo.Errors.{ok}
use password_bonobo.Constants.{current_format_version, supported, from_uint16}
use password_bonobo.Model.{header, understood}
use password_bonobo.Payloads.{inline, iter_chunks, open_chunks}
use password_bonobo.Payloads.Inline.{iter_chunks-inline}
use password_bonobo.Payloads.Chunks.{slices, Streams}
use password_bonobo.Schema.Values.{decode_field, materialize_loop}
use password_bonobo.Reader.Builder.{BuilderField}
use password_bonobo.Reader.Fields.Rebuild.{read_back}
use password_bonobo.Reader.Fields.Records.{read_back_records}
use password_bonobo.Reader.Version.{
  validate_version_fields, IsVersioned, validate_version_fields-IsVersioned,
}
use password_bonobo.Reader.Validation.{
  Validated, ValidatedRecords, judge_decoded, judge_known, validate_sequence,
  validate_record_mandatory, validate_conditional_groups, validate_records, validate_schema_fields,
}
use password_bonobo.Reader.Validation.Mandatory.{IsComplete, validate_schema_fields-IsComplete}
use password_bonobo.Reader.Validation.Bounds.{text_total, records_text, validate_schema_fields-text}
use password_bonobo.Snapshots.{snapshot_of}
use password_bonobo.Writer.{write_candidate}
use password_bonobo.Reader.Open.{OpenedSnapshot, open_snapshot}
use password_bonobo.RoundTrip.{open_snapshot-write_candidate, authenticated}
use password_bonobo.RoundTrip.Reopened.{IsAccepted, IsReopened, hardened}
use password_bonobo.Tests.World.{
  mask_backend, mask_backend_works, masked_block, length_digests, length_digests_work,
  counting_source, counting_source_works, small_limits,
}
use password_bonobo.Tests.Vault.{
  small_document, header_contents, record_contents, small-CanWrite, small_material,
  small_material_fits, passphrase, small_keys, small_keys_are, small_iv, small_iv_is,
}

abbrev read_header : List BuilderField
read_header = read_back 0 small_document.header_fields header_contents

abbrev read_records : List (List BuilderField)
read_records = read_back_records small_document.records record_contents

abbrev valid_header : Validated
valid_header = record { fields = read_header; warnings = []; decoded_total = 0 }

abbrev valid_records : ValidatedRecords
valid_records = record { records = read_records; warnings = []; decoded_total = 16 }

small_version : validate_version_fields read_header small_limits ≡ ok current_format_version
unfolding validate_version_fields iter_chunks open_chunks slices from_uint16 supported
small_version = refl

small_schema :
    validate_schema_fields read_header read_records current_format_version small_limits
    ≡ ok (valid_header, valid_records)
unfolding validate_schema_fields validate_records validate_sequence judge_known judge_decoded
    decode_field materialize_loop iter_chunks open_chunks slices validate_record_mandatory
    validate_conditional_groups from_uint16
small_schema = refl

small-IsAccepted :
    IsAccepted small_limits small_document header_contents record_contents current_format_version
      (valid_header, valid_records)
small-IsAccepted = record { version_field = small_version; schema = small_schema }

open_snapshot-write_candidate_example :
    (candidate : Bytes) × (opened : OpenedSnapshot) × (write_candidate mask_backend length_digests
        counting_source small_limits small_document small_material small_keys small_iv 0
      ≡ ok candidate)
    × (open_snapshot mask_backend length_digests 7 (snapshot_of candidate) passphrase small_limits
        ≡ ok opened)
    × (opened.authenticated
        ≡ authenticated length_digests
            (λ k. masked_block)
            small_document
            header_contents
            record_contents
            small_material
            small_keys
            small_iv)
    × (opened.hardened_key
        ≡ hardened length_digests small_limits passphrase small_material.salt
            small_material.iterations)
    × IsReopened small_document header_contents record_contents current_format_version []
        opened.document
open_snapshot-write_candidate_example =
    open_snapshot-write_candidate mask_backend mask_backend_works length_digests length_digests_work
      counting_source counting_source_works small_limits small_document header_contents
      record_contents small_material passphrase small_keys small_iv 0 7 current_format_version
      (valid_header, valid_records) small-CanWrite small_material_fits small_keys_are small_iv_is
      small-IsAccepted

version-Streams : Streams 3 (iter_chunks (inline (0x11 ∷ 0x03 ∷ [])) 3) (0x11 ∷ 0x03 ∷ [])
version-Streams = iter_chunks-inline (0x11 ∷ 0x03 ∷ []) 3 (omega arith) (omega arith)

abbrev version_field : BuilderField
version_field = record {
  type_code = 0;
  payload = inline (0x11 ∷ 0x03 ∷ []);
  ordinal = 0;
  classification = understood;
}

abbrev end_field : BuilderField
end_field = record {
  type_code = 0xFF;
  payload = inline [];
  ordinal = 1;
  classification = understood;
}

validate_version_fields-IsVersioned_example :
    validate_version_fields (version_field ∷ end_field ∷ []) small_limits
      ≡ ok current_format_version
    ↔ IsVersioned version_field (end_field ∷ []) (0x11 ∷ 0x03 ∷ []) current_format_version
validate_version_fields-IsVersioned_example =
    validate_version_fields-IsVersioned version_field (end_field ∷ []) small_limits
      (0x11 ∷ 0x03 ∷ []) current_format_version version-Streams

validate_schema_fields-IsComplete_example :
    (length read_records ≡ length read_records) × All IsComplete read_records
validate_schema_fields-IsComplete_example =
    validate_schema_fields-IsComplete read_header read_records current_format_version small_limits
      (valid_header, valid_records) small_schema

validate_schema_fields-text_example :
    text_total header read_header + records_text read_records ≤ 4096
validate_schema_fields-text_example =
    validate_schema_fields-text read_header read_records current_format_version small_limits
      (valid_header, valid_records) small_schema
