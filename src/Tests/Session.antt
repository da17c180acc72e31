-- ===== src/Tests/Session.antt =====
-- A session on two records, one of them with a field that the schema does not know.
use password_bonobo.Prelude.{
  ◌++◌, ℕ, ◌≡◌, ◌≢◌, ◌<◌, refl, false, none, some, inl, List, [], ◌∷◌, length, map, All, replicate,
  arith,
}
use password_bonobo.Prelude.Bytes.{Bytes}
use password_bonobo.Errors.{ok}
use password_bonobo.Constants.{current_format_version}
use password_bonobo.Payloads.{inline}
use password_bonobo.Model.{
  RawField, RawRecord, VaultDocument, PreservationWarning, understood, unknown, unknown_field,
  record_section,
}
use password_bonobo.Schema.Values.{decode_field, materialize_loop, encode_value}
use password_bonobo.Schema.Fields.{encode_record_field, encode_new_record_field}
use password_bonobo.Payloads.{iter_chunks, open_chunks}
use password_bonobo.Payloads.Chunks.{slices}
use password_bonobo.Session.Fork.{PlannedField, kept, made, PlannedRecord, fork_document}
use password_bonobo.Session.Fork.Fields.{get_elem?}
use password_bonobo.Session.Effects.{renumber}
use password_bonobo.Session.Fork.Follow.{Follows, fork_document-Follows}
use password_bonobo.Session.Edits.{RecordEdit, set_text_field, edited_fields}
use password_bonobo.Session.Edits.Outcome.{IsEdited, edited_fields-IsEdited}
use password_bonobo.Session.Origin.{IsOf, AreOrdered-IsOf, All-IsPlanOf}
use password_bonobo.Session.Plans.{map-unchanged}
use password_bonobo.Session.Sound.{IsSound}
use password_bonobo.Session.Steps.{applies, deletes, Keeps}
use password_bonobo.Session.Reach.{here, after, Reach-Keeps, AllStale, Reach-AllStale}
use password_bonobo.Session.Changes.{IsRevised, move-IsRevised, delete-IsRevised}
use password_bonobo.Session.{
  VaultSession, RecordView, move_change, delete_change, require_mutable, is_protected, viewed,
  unchanged, commit, run_plan, run_unseen, apply, move, delete, pop, insert_at,
}

abbrev field : ℕ → Bytes → ℕ → RawField
field t content ordinal = record {
  type_code = t;
  payload = inline content;
  ordinal = ordinal;
  classification = understood;
}

abbrev uuid : Bytes
uuid = replicate 16 0x80

abbrev pub mail : RawRecord
mail = record {
  fields =
      field 0x01 uuid 0
      ∷ field 0x03 (b'm' ∷ []) 1
      ∷ field 0x06 (b'p' ∷ []) 2
      ∷ field 0xFF [] 3
      ∷ [];
  ordinal = 0;
  handle = 1;
}

abbrev pub bank : RawRecord
bank = record {
  fields =
      field 0x01 uuid 0
      ∷ field 0x03 (b'b' ∷ []) 1
      ∷ record {
        type_code = 0x99;
        payload = inline (1 ∷ []);
        ordinal = 2;
        classification = unknown;
      }
      ∷ field 0x06 (b'q' ∷ []) 3
      ∷ field 0xFF [] 4
      ∷ [];
  ordinal = 1;
  handle = 2;
}

abbrev unknown_warning : PreservationWarning
unknown_warning = record {
  code = unknown_field;
  section = record_section;
  record_ordinal = some 1;
  field_ordinal = 2;
  type_code = 0x99;
}

abbrev pub two_records : VaultDocument
two_records = record {
  version = current_format_version;
  header_fields = field 0x00 (0x11 ∷ 0x03 ∷ []) 0 ∷ field 0xFF [] 1 ∷ [];
  records = mail ∷ bank ∷ [];
  revision = 3;
  warnings = unknown_warning ∷ [];
}

abbrev pub opened_session : VaultSession
opened_session = record {
  document = two_records;
  changes = [];
  save_snapshot = none;
  suspended = none;
  path = none;
  baseline = none;
  locked = false;
  issued = 4;
}

pub opened-IsSound : IsSound opened_session
opened-IsSound = record {
  ordered = omega arith;
  distinct = (refl, (refl, tt));
  below = omega arith;
  header = omega arith;
  revision = omega arith;
  frozen = inl refl;
}

-- The records in the other order: the warning moves with the bank's field.
abbrev swapped : List PlannedRecord
swapped = map unchanged (bank ∷ mail ∷ [])

swapped_warning : (fork_document 5 two_records swapped).warnings ≡ (
    record {
      code = unknown_field;
      section = record_section;
      record_ordinal = some 0;
      field_ordinal = 2;
      type_code = 0x99;
    }
    ∷ [])
unfolding fork_document
swapped_warning = refl

both : All (IsOf two_records.records 4) two_records.records
both = AreOrdered-IsOf 4 two_records.records opened-IsSound.ordered opened-IsSound.below

fork_document-Follows_example :
    Follows two_records.records
      (fork_document 5 two_records swapped).records
      swapped
      two_records.warnings
      (fork_document 5 two_records swapped).warnings
fork_document-Follows_example = fork_document-Follows 5 two_records swapped (
    All-IsPlanOf two_records.records 5 swapped
      (map-unchanged two_records.records 4 (bank ∷ mail ∷ []) (both.1.0, (both.0, tt))))

-- The bank's title is set, and a user name is added.
abbrev new_title : List RecordEdit
new_title = set_text_field 0x03 (b'x' ∷ []) ∷ set_text_field 0x04 (b'u' ∷ []) ∷ []

abbrev edited_session : VaultSession
edited_session = (apply opened_session 2 3 new_title).1

abbrev edited_view : RecordView
edited_view = record {
  handle = 2;
  revision = 5;
  title = b'x' ∷ [];
  group = [];
  username = b'u' ∷ [];
  url = [];
  protected = false;
}

abbrev new_bank : List PlannedField
new_bank =
    kept (field 0x01 uuid 0)
    ∷ made (field 0x03 (b'x' ∷ []) 1)
    ∷ kept (record {
      type_code = 0x99;
      payload = inline (1 ∷ []);
      ordinal = 2;
      classification = unknown;
    })
    ∷ kept (field 0x06 (b'q' ∷ []) 3)
    ∷ made (field 0x04 (b'u' ∷ []) 2)
    ∷ kept (field 0xFF [] 4)
    ∷ []

edits_run : edited_fields two_records bank new_title ≡ ok new_bank
unfolding edited_fields encode_record_field encode_new_record_field encode_value
edits_run = refl

edited_fields-IsEdited_example : IsEdited two_records bank new_title new_bank
edited_fields-IsEdited_example =
    edited_fields-IsEdited two_records bank new_title new_bank edits_run

abbrev moved_session : VaultSession
moved_session = (move opened_session 2 3 0).1

abbrev moved_view : RecordView
moved_view = record {
  handle = 2;
  revision = 5;
  title = b'b' ∷ [];
  group = [];
  username = [];
  url = [];
  protected = false;
}

move_runs : move opened_session 2 3 0 ≡ (ok moved_view, moved_session)
unfolding move require_mutable is_protected decode_field materialize_loop iter_chunks open_chunks
    slices run_plan viewed commit fork_document
move_runs = refl

move-IsRevised_example :
    (found : RawRecord) × (get_elem? two_records.records found.ordinal ≡ some found)
    × (found.handle ≡ 2)
    × (0 < length two_records.records)
    × IsRevised opened_session moved_session move_change 2
        (map unchanged (insert_at 0 found (pop found.ordinal two_records.records)))
        (renumber 0 (insert_at 0 found (pop found.ordinal two_records.records)))
move-IsRevised_example =
    move-IsRevised opened_session moved_session opened-IsSound 2 3 0 moved_view move_runs

abbrev deleted_session : VaultSession
deleted_session = (delete opened_session 1 3).1

delete_runs : delete opened_session 1 3 ≡ (ok tt, deleted_session)
unfolding delete require_mutable is_protected run_unseen
delete_runs = refl

delete-IsRevised_example :
    (before : List RawRecord) × (found : RawRecord) × (after : List RawRecord)
    × (two_records.records ≡ before ++ (found ∷ after))
    × (found.handle ≡ 1)
    × (is_protected found ≡ ok false)
    × IsRevised opened_session deleted_session delete_change 1
        (map unchanged (before ++ after))
        (renumber 0 (before ++ after))
delete-IsRevised_example =
    delete-IsRevised opened_session deleted_session opened-IsSound 1 3 delete_runs

Reach-Keeps_example : Keeps opened_session edited_session
Reach-Keeps_example = Reach-Keeps opened-IsSound (after here (applies 2 3 new_title))

new_revision : edited_session.document.revision ≢ two_records.revision
unfolding apply require_mutable is_protected edited_fields encode_record_field
    encode_new_record_field encode_value decode_field materialize_loop iter_chunks open_chunks
    slices run_plan viewed commit fork_document
new_revision e = absurd (omega (arith, e))

still_active : (delete edited_session 1 5).1.locked ≡ false
unfolding apply delete run_unseen require_mutable is_protected edited_fields encode_record_field
    encode_new_record_field encode_value decode_field materialize_loop iter_chunks open_chunks
    slices run_plan viewed commit fork_document
still_active = refl

-- Revision 3 is stale behind the edit, also when the other record was deleted.
Reach-AllStale_example : AllStale (delete edited_session 1 5).1 3
Reach-AllStale_example =
    Reach-AllStale 3 opened-IsSound (applies 2 3 new_title) new_revision (after here (deletes 1 5))
      still_active (omega arith)
