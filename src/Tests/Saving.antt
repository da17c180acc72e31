-- ===== src/Tests/Saving.antt =====
-- A save that is finished: the published file is read back, with handles and a revision of its own.
use password_bonobo.Prelude.{ℕ, none, some, [], ◌∷◌, replicate}
use password_bonobo.Model.{RawRecord}
use password_bonobo.Storage.Evidence.{FileBaseline, PublishedFile}
use password_bonobo.Session.Sources.{OpenedVault}
use password_bonobo.Session.{VaultSession}
use password_bonobo.Session.Save.{frozen}
use password_bonobo.Session.Save.Laws.{saved}
use password_bonobo.Tests.Session.{mail, bank, two_records, opened_session}

abbrev with_handle : ℕ → RawRecord → RawRecord
with_handle handle r = record { fields = r.fields; ordinal = r.ordinal; handle = handle }

abbrev read_back : OpenedVault
read_back = record {
  document = record {
    version = two_records.version;
    header_fields = two_records.header_fields;
    records = with_handle 21 mail ∷ with_handle 22 bank ∷ [];
    revision = 20;
    warnings = two_records.warnings;
  };
  snapshot_size = 900;
  snapshot_sha256 = replicate 64 97;
}

abbrev file : FileBaseline
file = record {
  size = 900;
  sha256 = replicate 64 97;
  modified_ns = 5;
  device = some 1;
  inode = some 2;
  windows_file_id = none;
}

abbrev published : PublishedFile
published = record {
  path = 47 ∷ 118 ∷ [];
  size = 900;
  sha256 = replicate 64 97;
  baseline = file;
  recovery = none;
}

abbrev saving : VaultSession
saving = frozen opened_session (some two_records)

abbrev after_save : VaultSession
after_save = saved saving two_records read_back published
