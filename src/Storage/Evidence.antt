-- ===== src/Storage/Evidence.antt =====
-- The evidence of storage.py: `FileBaseline`, `RecoveryRevision` and `PublishedFile`. A path and a
-- hexadecimal digest are their bytes. The checks of the constructors hold of captured files.
use password_bonobo.Prelude.{ℕ, Option}
use password_bonobo.Prelude.Bytes.{Bytes}

pub record FileBaseline : Type 0 where
  pub size : ℕ
  pub sha256 : Bytes
  pub modified_ns : ℕ
  pub device : Option ℕ
  pub inode : Option ℕ
  pub windows_file_id : Option ℕ

pub record RecoveryRevision : Type 0 where
  pub identifier : Bytes
  pub created_ns : ℕ
  pub size : ℕ
  pub sha256 : Bytes

pub record PublishedFile : Type 0 where
  pub path : Bytes
  pub size : ℕ
  pub sha256 : Bytes
  pub baseline : FileBaseline
  pub recovery : Option RecoveryRevision
