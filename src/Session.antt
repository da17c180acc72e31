-- ===== src/Session.antt =====
-- src/bonobo_core/passwordsafe/session.py: `VaultSession`. An operation that raises before its
-- commit leaves the session as it was; one that raises behind it, in the view that it returns,
-- leaves the new document. Owners, retired resources and the lock of the threads are not modelled.
pub mod Fork
pub mod Edits
pub mod Create
pub mod Sources
pub mod Protect
pub mod Find
pub mod Origin
pub mod Cases
pub mod Plans
pub mod Sound
pub mod Steps
pub mod Reach
pub mod Counts
pub mod Effects
pub mod Changes
pub mod Save
use password_bonobo.Prelude.{
  ℕ, ◌+◌, Bool, true, false, not, ◌&&◌, ◌||◌, Option, none, some, List, [], ◌∷◌, ◌++◌, length, map,
  take, drop, ltb, leb, ◌==◌, ◌!=◌, if◌then◌else◌,
}
use password_bonobo.Prelude.Bytes.{Bytes}
use password_bonobo.Errors.{
  Result, ok, raise, value_error, type_error, runtime_error, operation_error, protected_record,
  stale_revision, unsaved_changes, ◌>>=◌, ◌>>◌, raise_if,
}
use password_bonobo.Constants.{max_decoded_text_bytes_ceiling}
use password_bonobo.Model.{RawField, RawRecord, VaultDocument, understood}
use password_bonobo.Schema.{FieldSpec, lookup_record_spec}
use password_bonobo.Schema.Values.{
  TypedValue, none_value, integer, version, uuid_value, string, secret_buffer, bytes_value,
}
use password_bonobo.Schema.Fields.{decode_record_field}
use Fork.{PlannedField, kept, made, PlannedRecord, fork_document}
use Edits.{
  RecordEdit, edited_fields, insert_before_end, matching, first_of, as_understood, encode_onto,
}
use Sources.{FileBaseline, PublishedFile, SuspendedSession, OpenedVault}
use Create.{NewRecord, new_record_fields}

pub data ChangeKind : Type 0 where
  add_change edit_change move_change delete_change protect_change unprotect_change : ChangeKind

pub record Change : Type 0 where
  pub kind : ChangeKind
  pub handle : ℕ
  pub revision : ℕ

pub record RecordView : Type 0 where
  pub handle : ℕ
  pub revision : ℕ
  pub title : Bytes
  pub group : Bytes
  pub username : Bytes
  pub url : Bytes
  pub protected : Bool

-- The session; `issued` is the next identity that a handle or a revision may take.
pub record VaultSession : Type 0 where
  pub document : VaultDocument
  pub changes : List Change
  pub save_snapshot : Option VaultDocument
  pub suspended : Option SuspendedSession
  pub path : Option Bytes
  pub baseline : Option FileBaseline
  pub locked : Bool
  pub issued : ℕ

abbrev nonzero : TypedValue → Bool
nonzero (integer n) = n != 0
nonzero none_value = false
nonzero (version v) = false
nonzero (uuid_value content) = false
nonzero (string content) = false
nonzero (secret_buffer content) = false
nonzero (bytes_value content) = false

abbrev text_or_empty : TypedValue → Bytes
text_or_empty (string content) = content
text_or_empty (integer n) = []
text_or_empty none_value = []
text_or_empty (version v) = []
text_or_empty (uuid_value content) = []
text_or_empty (secret_buffer content) = []
text_or_empty (bytes_value content) = []

abbrev decoded_flag : ℕ → Option RawField → Result Bool
decoded_flag ordinal none = ok false
decoded_flag ordinal (some raw) = do
  decoded ← decode_record_field raw ordinal max_decoded_text_bytes_ceiling
  ok (nonzero decoded.value)

-- `_is_protected`
unfoldable pub is_protected : RawRecord → Result Bool
is_protected r = decoded_flag r.ordinal (first_of (matching 0x15 r.fields))

abbrev decoded_text : ℕ → Option RawField → Result Bytes
decoded_text ordinal none = ok []
decoded_text ordinal (some raw) = do
  decoded ← decode_record_field raw ordinal max_decoded_text_bytes_ceiling
  ok (text_or_empty decoded.value)

-- `_public_text`
pub public_text : RawRecord → ℕ → Result Bytes
public_text r t = decoded_text r.ordinal (first_of (matching t r.fields))

-- `_view`
pub view : VaultDocument → RawRecord → Result RecordView
unfolding public_text is_protected
view document r = do
  title ← public_text r 0x03
  group ← public_text r 0x02
  username ← public_text r 0x04
  url ← public_text r 0x0D
  protected ← is_protected r
  ok (record {
    handle = r.handle;
    revision = document.revision;
    title = title;
    group = group;
    username = username;
    url = url;
    protected = protected;
  })

abbrev pub find_in : List RawRecord → ℕ → Result RawRecord
find_in [] handle = raise value_error
find_in (r ∷ rs) handle = let rest = find_in rs handle in if r.handle == handle then ok r else rest

-- `_find_record`
abbrev pub find_record : VaultDocument → ℕ → Result RawRecord
find_record document handle = find_in document.records handle

-- `_require_active`
abbrev pub require_active : VaultSession → Result (Unit {0})
require_active s = raise_if s.locked runtime_error

abbrev pub is_some {ℓ} : {A : Type ℓ} → Option A → Bool
is_some none = false
is_some (some a) = true

-- `_require_mutable`
unfoldable pub require_mutable : VaultSession → ℕ → Result (Unit {0})
require_mutable s expected_revision = do
  require_active s
  raise_if (expected_revision != s.document.revision) (operation_error stale_revision)
  raise_if (is_some s.save_snapshot) runtime_error

-- The record as it is, in a plan.
abbrev pub unchanged : RawRecord → PlannedRecord
unchanged r = record { fields = map kept r.fields; ordinal = r.ordinal; handle = r.handle }

-- `RawRecord(fields, item.ordinal, item.handle) if item.handle is handle else item`
abbrev pub with_fields : ℕ → List PlannedField → List RawRecord → List PlannedRecord
with_fields handle fields [] = []
with_fields handle fields (r ∷ rs) =
    (if r.handle == handle
      then record { fields = fields; ordinal = r.ordinal; handle = r.handle }
      else unchanged r)
    ∷ with_fields handle fields rs

-- What `_commit` takes: the planned records, the kind of the change, and the record's handle.
pub record Plan : Type 0 where
  pub planned : List PlannedRecord
  pub kind : ChangeKind
  pub handle : ℕ

-- `_commit`. The handles of new records were issued by the plan, one at most.
unfoldable pub commit : VaultSession → Plan → VaultSession
commit s p =
    let revised = fork_document (s.issued + 1) s.document p.planned in
    record {
      document = revised;
      changes =
          s.changes
          ++ (record { kind = p.kind; handle = p.handle; revision = revised.revision } ∷ []);
      save_snapshot = s.save_snapshot;
      suspended = s.suspended;
      path = s.path;
      baseline = s.baseline;
      locked = s.locked;
      issued = s.issued + 2 + length p.planned;
    }

-- `self._view(self._find_record(handle))`
unfoldable pub viewed : VaultSession → ℕ → Result RecordView
unfolding view
viewed s handle = do r ← find_record s.document handle; view s.document r

-- A plan that was made is committed, and the record is viewed.
unfoldable pub run_plan : VaultSession → Result Plan → Result RecordView × VaultSession
run_plan s (raise e) = (raise e, s)
run_plan s (ok p) = (viewed (commit s p) p.handle, commit s p)

-- The plan of `apply`
pub plan_apply : VaultSession → ℕ → ℕ → List RecordEdit → Result Plan
plan_apply s handle expected_revision edits = do
  require_mutable s expected_revision
  r ← find_record s.document handle
  protected ← is_protected r
  raise_if protected (operation_error protected_record)
  raise_if (length edits == 0) value_error
  fields ← edited_fields s.document r edits
  ok (record {
    planned = with_fields handle fields s.document.records;
    kind = edit_change;
    handle = handle;
  })

-- `apply`
unfoldable pub apply : VaultSession → ℕ → ℕ → List RecordEdit → Result RecordView × VaultSession
unfolding plan_apply
apply s handle expected_revision edits = run_plan s (plan_apply s handle expected_revision edits)

-- The plan of `add`; the new record's handle is the next identity.
pub plan_add : VaultSession → NewRecord → ℕ → Result Plan
plan_add s new expected_revision = do
  require_mutable s expected_revision
  fields ← new_record_fields new
  ok (record {
    planned =
        map unchanged s.document.records
        ++ (record {
          fields = map made fields;
          ordinal = length s.document.records;
          handle = s.issued;
        }
            ∷ []);
    kind = add_change;
    handle = s.issued;
  })

-- `add`
unfoldable pub add : VaultSession → NewRecord → ℕ → Result RecordView × VaultSession
unfolding plan_add
add s new expected_revision = run_plan s (plan_add s new expected_revision)

-- `planned.pop(ordinal)` and `planned.insert(new_ordinal, record)`
abbrev pub pop {ℓ} : {A : Type ℓ} → ℕ → List A → List A
pop n xs = take n xs ++ drop (n + 1) xs

abbrev pub insert_at {ℓ} : {A : Type ℓ} → ℕ → A → List A → List A
insert_at n x xs = take n xs ++ (x ∷ drop n xs)

-- The plan of `move`
pub plan_move : VaultSession → ℕ → ℕ → ℕ → Result Plan
plan_move s handle expected_revision new_ordinal = do
  require_mutable s expected_revision
  r ← find_record s.document handle
  raise_if (not (ltb new_ordinal (length s.document.records))) value_error
  raise_if (r.ordinal == new_ordinal) value_error
  ok (record {
    planned = map unchanged (insert_at new_ordinal r (pop r.ordinal s.document.records));
    kind = move_change;
    handle = handle;
  })

-- `move`
unfoldable pub move : VaultSession → ℕ → ℕ → ℕ → Result RecordView × VaultSession
unfolding plan_move
move s handle expected_revision new_ordinal =
    run_plan s (plan_move s handle expected_revision new_ordinal)

abbrev pub others : ℕ → List RawRecord → List RawRecord
others handle [] = []
others handle (r ∷ rs) =
    let rest = others handle rs in if r.handle == handle then rest else r ∷ rest

-- The plan of `delete`
pub plan_delete : VaultSession → ℕ → ℕ → Result Plan
plan_delete s handle expected_revision = do
  require_mutable s expected_revision
  r ← find_record s.document handle
  protected ← is_protected r
  raise_if protected (operation_error protected_record)
  ok (record {
    planned = map unchanged (others handle s.document.records);
    kind = delete_change;
    handle = handle;
  })

-- A plan that was made is committed, and no view is returned.
unfoldable pub run_unseen : VaultSession → Result Plan → Result (Unit {0}) × VaultSession
run_unseen s (raise e) = (raise e, s)
run_unseen s (ok p) = (ok tt, commit s p)

-- `delete`
unfoldable pub delete : VaultSession → ℕ → ℕ → Result (Unit {0}) × VaultSession
unfolding plan_delete
delete s handle expected_revision = run_unseen s (plan_delete s handle expected_revision)
