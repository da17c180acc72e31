-- ===== src/Session/Sources.antt =====
-- What a session keeps of the files it stands for: the evidence of storage.py, `SuspendedSession`
-- of pending.py and `OpenedVault` of reader.py. A path and a digest are their bytes.
use password_bonobo.Prelude.{ℕ}
use password_bonobo.Prelude.Bytes.{Bytes}
use password_bonobo.Model.{VaultDocument}
pub use password_bonobo.Storage.Evidence.{FileBaseline, PublishedFile}

pub record SuspendedSession : Type 0 where
  pub identifier : Bytes
  pub sha256 : Bytes
  pub source_sha256 : Bytes
  pub size : ℕ

-- The document, and the size and digest of the snapshot it was read from.
pub record OpenedVault : Type 0 where
  pub document : VaultDocument
  pub snapshot_size : ℕ
  pub snapshot_sha256 : Bytes
