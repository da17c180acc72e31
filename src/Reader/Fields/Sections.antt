-- ===== src/Reader/Fields/Sections.antt =====
-- The section parser inside `_decrypt_fields` of reader.py, without the cipher: what the frames of
-- a stream mean, as a function of their types and contents.
use password_bonobo.Prelude.{
  ℕ, ◌+◌, ◌≡◌, Bool, true, false, not, ◌&&◌, List, [], ◌∷◌, length, ltb, leb, ◌==◌, ◌!=◌,
  if◌then◌else◌, arith,
}
use password_bonobo.Prelude.Bytes.{Bytes}
use password_bonobo.Errors.{
  Result, ok, resource_limit_error, max_records, max_fields, malformed_vault_error, invalid_field,
  ◌>>=◌, ◌>>◌, raise_if,
}
use password_bonobo.Constants.{ResourceLimits}
use password_bonobo.Crypto.Interface.{TwofishKey}
use password_bonobo.Crypto.Authenticator.Laws.{fed_with}
use password_bonobo.Crypto.Cbc.Laws.{running}
use password_bonobo.Payloads.{inline}
use password_bonobo.Model.{RawField}
use password_bonobo.Reader.Builder.{Builder, empty_builder, add_field}
use password_bonobo.Reader.Fields.{State, close_section}

pub record Sections : Type 0 where
  pub header : Bool
  pub record_ordinal : ℕ
  pub field_count : ℕ
  pub builder : Builder

abbrev pub no_sections : Sections
no_sections = record { header = true; record_ordinal = 0; field_count = 0; builder = empty_builder }

abbrev pub after_field : Sections → Builder → Sections
after_field x builder = record x { field_count = x.field_count + 1; builder = builder }

abbrev closed_section : Sections → ℕ → ResourceLimits → Result Sections
closed_section x type_code limits =
    if type_code == 0xFF
    then (if x.header then ok (record x { header = false }) else do
      raise_if (ltb limits.max_records (x.record_ordinal + 1)) (resource_limit_error max_records)
      ok (record x { record_ordinal = x.record_ordinal + 1 }))
    else ok x

-- One field of this type and content.
abbrev pub place : ResourceLimits → Sections → ℕ → Bytes → Result Sections
place limits x type_code content = do
  raise_if (not x.header && leb limits.max_records x.record_ordinal)
      (resource_limit_error max_records)
  raise_if (ltb limits.max_fields (x.field_count + 1)) (resource_limit_error max_fields)
  raise_if ((type_code == 0xFF) && (length content != 0)) (malformed_vault_error invalid_field)
  builder ← add_field x.builder x.header x.record_ordinal type_code (inline content)
  closed_section (after_field x builder) type_code limits

-- The fields one after the other, each with its content.
abbrev pub place_all : ResourceLimits → Sections → List RawField → List Bytes → Result Sections
place_all limits x (raw ∷ raws) (c ∷ cs) =
    place limits x raw.type_code c >>= λ y. place_all limits y raws cs
place_all limits x [] cs = ok x
place_all limits x (raw ∷ raws) [] = ok x

-- The reader's variables between two frames: the sections, the position and the ciphertext block
-- before it, a running decryptor, and an authenticator that was fed the contents.
abbrev pub state_of : TwofishKey → Bytes → Sections → ℕ → Bytes → Bytes → State
state_of k key x position previous message = record {
  header = x.header;
  record_ordinal = x.record_ordinal;
  field_count = x.field_count;
  position = position;
  previous_block = previous;
  cbc = running k previous;
  authenticator = fed_with key message;
  builder = x.builder;
}

pub close_section-eq-closed_section :
    (k : TwofishKey) (key : Bytes) (x : Sections) (position : ℕ) (previous message : Bytes)
    (type_code : ℕ) (limits : ResourceLimits)
    → close_section (state_of k key x position previous message) type_code limits
      ≡ (closed_section x type_code limits >>= λ y. ok (state_of k key y position previous message))
unfolding close_section
close_section-eq-closed_section k key x position previous message type_code limits = ground arith
