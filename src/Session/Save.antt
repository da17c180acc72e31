-- ===== src/Session/Save.antt =====
-- The lifetime of a session in session.py: its start, saving, suspending, resuming and locking.
-- Closing a resource does not fail here.
pub mod Laws
use password_bonobo.Prelude.{
  ℕ, ◌+◌, Bool, true, false, not, ◌&&◌, ◌||◌, Option, none, some, List, [], ◌∷◌, length, ◌==◌, ◌!=◌,
  if◌then◌else◌,
}
use password_bonobo.Prelude.Bytes.{Bytes, bytes_eq}
use password_bonobo.Errors.{
  Result, ok, raise, value_error, type_error, runtime_error, operation_error, unsaved_changes,
  payload_closed_error, ◌>>=◌, ◌>>◌, raise_if,
}
use password_bonobo.Constants.{max_io_chunk_bytes}
use password_bonobo.Model.{RawRecord, VaultDocument}
use password_bonobo.Model.Documents.{documents_equal_exact}
use password_bonobo.Session.Sources.{FileBaseline, PublishedFile, SuspendedSession, OpenedVault}
use password_bonobo.Session.{VaultSession, Change, require_active, is_some}

abbrev baseline_differs : OpenedVault → Option FileBaseline → Bool
baseline_differs opened none = false
baseline_differs opened (some b) =
    (opened.snapshot_size != b.size) || not (bytes_eq opened.snapshot_sha256 b.sha256)

-- A session that starts on a document, with the identities that are not issued yet.
abbrev started :
    OpenedVault → Option Bytes → Option FileBaseline → Option SuspendedSession → ℕ → VaultSession
started opened path baseline suspended issued = record {
  document = opened.document;
  changes = [];
  save_snapshot = none;
  suspended = suspended;
  path = path;
  baseline = baseline;
  locked = false;
  issued = issued;
}

-- `VaultSession.__init__`
unfoldable pub new_session :
    OpenedVault → Option Bytes → Option FileBaseline → ℕ → Result VaultSession
new_session opened path baseline issued =
    if (is_some path && not (is_some baseline)) || (not (is_some path) && is_some baseline)
    then raise type_error
    else if baseline_differs opened baseline
    then raise value_error
    else ok (started opened path baseline none issued)

-- `_resume`
unfoldable pub resume :
    OpenedVault → Bytes → FileBaseline → SuspendedSession → ℕ → Result VaultSession
resume opened path baseline suspended issued =
    if (opened.snapshot_size != suspended.size)
      || not (bytes_eq opened.snapshot_sha256 suspended.sha256)
      || not (bytes_eq baseline.sha256 suspended.source_sha256)
    then raise value_error
    else ok (started opened (some path) (some baseline) (some suspended) issued)

-- `dirty`
abbrev pub dirty : VaultSession → Bool
dirty s = not (length s.changes == 0) || is_some s.suspended

-- `revision`
unfoldable pub revision : VaultSession → Result ℕ
revision s = do require_active s; ok s.document.revision

-- The session with another frozen document.
abbrev pub frozen : VaultSession → Option VaultDocument → VaultSession
frozen s snapshot = record {
  document = s.document;
  changes = s.changes;
  save_snapshot = snapshot;
  suspended = s.suspended;
  path = s.path;
  baseline = s.baseline;
  locked = s.locked;
  issued = s.issued;
}

-- `_prepare_save`; a retained document is equal to its source.
unfoldable pub prepare_save : VaultSession → Result (VaultDocument × VaultSession)
prepare_save s = do
  require_active s
  raise_if (is_some s.save_snapshot) runtime_error
  ok (s.document, frozen s (some s.document))

-- `_export_snapshot`
unfoldable pub export_snapshot : VaultSession → Result VaultDocument
export_snapshot s = do
  require_active s
  raise_if (is_some s.save_snapshot) runtime_error
  ok s.document

abbrev snapshot_or_raise : Option VaultDocument → Result VaultDocument
snapshot_or_raise none = raise runtime_error
snapshot_or_raise (some snapshot) = ok snapshot

-- `_require_save_snapshot`
abbrev pub require_save_snapshot : VaultSession → Result VaultDocument
require_save_snapshot s = do require_active s; snapshot_or_raise s.save_snapshot

abbrev pub with_handles : List RawRecord → List RawRecord → List RawRecord
with_handles [] sources = []
with_handles (r ∷ rs) [] = []
with_handles (r ∷ rs) (source ∷ sources) =
    record { fields = r.fields; ordinal = r.ordinal; handle = source.handle }
    ∷ with_handles rs sources

-- `VaultDocument._adopt_session_identity`
unfoldable pub adopt_session_identity : VaultDocument → VaultDocument → Result VaultDocument
adopt_session_identity document source = do
  raise_if (length document.records != length source.records) value_error
  ok (record {
    version = document.version;
    header_fields = document.header_fields;
    records = with_handles document.records source.records;
    revision = source.revision;
    warnings = document.warnings;
  })

abbrev pub path_differs : Option Bytes → Bytes → Bool
path_differs none published = false
path_differs (some path) published = not (bytes_eq published path)

-- `_finish_save`
unfoldable pub finish_save : VaultSession → OpenedVault → PublishedFile → Result VaultSession
finish_save s opened published = do
  snapshot ← require_save_snapshot s
  raise_if (path_differs s.path published.path) value_error
  raise_if (opened.snapshot_size != published.size) value_error
  raise_if (not (bytes_eq opened.snapshot_sha256 published.sha256)) value_error
  equal ← documents_equal_exact snapshot opened.document max_io_chunk_bytes
  raise_if (not equal) value_error
  document ← adopt_session_identity opened.document snapshot
  ok (record {
    document = document;
    changes = [];
    save_snapshot = none;
    suspended = s.suspended;
    path = some published.path;
    baseline = some published.baseline;
    locked = s.locked;
    issued = s.issued;
  })

-- `_abort_save`
unfoldable pub abort_save : VaultSession → Result VaultSession
abort_save s = do snapshot ← require_save_snapshot s; ok (frozen s none)

-- `_close_resources`, and no frozen document
abbrev pub shut : VaultSession → VaultSession
shut s = record {
  document = s.document;
  changes = [];
  save_snapshot = none;
  suspended = s.suspended;
  path = s.path;
  baseline = s.baseline;
  locked = true;
  issued = s.issued;
}

-- `_finish_suspend`
unfoldable pub finish_suspend : VaultSession → Result VaultSession
finish_suspend s = do snapshot ← require_save_snapshot s; ok (shut s)

abbrev pub same_suspended : Option SuspendedSession → SuspendedSession → Bool
same_suspended none b = false
same_suspended (some a) b =
    bytes_eq a.identifier b.identifier
    && bytes_eq a.sha256 b.sha256
    && bytes_eq a.source_sha256 b.source_sha256
    && (a.size == b.size)

-- `_finish_pending_cleanup`
unfoldable pub finish_pending_cleanup : VaultSession → SuspendedSession → Result VaultSession
finish_pending_cleanup s suspended = do
  raise_if (not (same_suspended s.suspended suspended)) value_error
  ok (record {
    document = s.document;
    changes = s.changes;
    save_snapshot = s.save_snapshot;
    suspended = none;
    path = s.path;
    baseline = s.baseline;
    locked = s.locked;
    issued = s.issued;
  })

-- `lock`
unfoldable pub lock : VaultSession → Result VaultSession
lock s = do
  require_active s
  raise_if (is_some s.save_snapshot) runtime_error
  raise_if (not (length s.changes == 0)) (operation_error unsaved_changes)
  ok (shut s)

-- `discard_and_lock`
unfoldable pub discard_and_lock : VaultSession → Result VaultSession
discard_and_lock s = do require_active s; ok (shut s)
