-- ===== src/Lib.antt =====
-- Password Bonobo's PasswordSafe core: a model of src/bonobo_core/passwordsafe with theorems.
--
-- A vault is a file: a fixed prefix with the salt, the iteration count, the password check, the
-- wrapped keys and the IV; the fields of the document, each in a frame that is padded to blocks,
-- encrypted as one CBC stream; and a suffix with the end marker and the HMAC of the contents.
-- The writer serializes a document to such a file; the reader checks the password, unwraps the
-- keys, decrypts the frames into a quarantined builder, compares the HMAC, validates the fields and
-- builds the document. A session holds an opened document; every change of it is a plan that is
-- carried out on a fork of the document, with a new revision, and a save freezes the document until
-- the file was read back. The local store publishes an encrypted candidate in place of a file that it
-- keeps as a recovery artifact; an action of it is a function from a state to a result and a state,
-- and a fault may be armed at any stage.
--
--   Constants      constants.py: format constants, FormatVersion, ResourceLimits
--   Errors         errors.py: the reasons, the errors, and a result type for code that may raise
--   Crypto         crypto.py: Cbc (CbcEncryptor, CbcDecryptor), Keys (stretch_passphrase,
--                  wrap_vault_keys, unwrap_vault_keys), Authenticator (FieldAuthenticator)
--   Snapshots      snapshots.py: EncryptedSnapshot.read_at
--   Payloads       payloads.py: InlinePayload, EncryptedSpanPayload and their chunk streams
--   Model          model.py: RawField, RawRecord, VaultDocument; Equality (_payloads_equal), Documents
--                  (documents_equal_exact)
--   Writer         writer.py: _encrypt_bytes, _write_field, _write_candidate, and the
--                  size that _validate_document computes
--   Reader         reader.py: Envelope (_read_envelope), Builder (_QuarantinedBuilder), Fields
--                  (_consume_field_payload, _decrypt_fields), Open (open_snapshot),
--                  Version and Validation (_validate_version_fields, _validate_schema_fields); Open goes on
--                  from the HMAC to the validation, the document and the hardened key
--   CustomFields   custom_fields.py: the grammar (parse_custom_fields, encode_custom_fields),
--                  Utf8, and Edit (replace_custom_value)
--   Schema         schema.py: the tables of the fields, Values (_decode_field, _encode_value), Fields
--                  (encode_record_field)
--   Storage        storage.py: Evidence (FileBaseline), Slots (_read_recovery_slot,
--                  _transaction_recovery_slot), Files (the file system), Recovery (_create_recovery,
--                  _commit_recovery), Publish (_publish_source up to its finally clause) with
--                  Settle (that clause), Operations (publish, publish_new, restore)
--   Session        session.py: Fork (_fork_document, _remap_warnings), Edits (_edited_fields), Create
--                  (_new_record_fields), Protect (_change_protection), Save (_prepare_save,
--                  _finish_save, lock); Session itself has VaultSession with apply, add, move, delete;
--                  Steps and Reach its lifetime
--   Secrets        secrets.py: SecretBuffer and Lease (SecretLease) over a store of bytearrays;
--                  Steps (the steps of a process)
--   RoundTrip      the writer and the reader together; Reopened: the document that
--                  is opened; Rejects: vaults that are not opened
--   Prelude        shared names, lists, bytes, tests; Tests: runs on small inputs
--
-- Code that may raise returns a Result; a state that an operation changes is passed and returned.
-- A transformer or authenticator that a failed call leaves behind is returned beside its error.
-- The Twofish backend, the digests of hashlib and hmac, and the random source are parameters
-- (Crypto.Interface); what the theorems ask of them is that a block cipher on 32-byte keys maps
-- blocks to blocks and is undone by decryption, that digests are 32 bytes, and that the source
-- returns as many bytes as it is asked for.
--
-- Loops that are not structural take fuel: _encrypt_bytes and the slices of a payload the number
-- of bytes left, since a round takes one at least; the frame loop of _decrypt_fields the number of
-- blocks, since a frame has one at least; the parser of custom fields the number of bytes;
-- _payloads_equal the chunks, bytes and ends that are left.
--
-- The names of recovery artifacts are tried 32 times, as the source does.
--
-- Not modelled: wiping and ownership of temporary buffers, the locks of the threads, short reads,
-- the manifest and the owners of an opened vault, the Windows branch of the store, other processes
-- that change files during a publication, pending.py but for what a session keeps of it,
-- service.py, the application and the desktop, which are layers above the core, and the backends and
-- build tools.
mod Prelude
pub mod Errors
pub mod Constants
pub mod Crypto
pub mod Snapshots
pub mod Payloads
pub mod Model
pub mod Writer
pub mod Reader
pub mod RoundTrip
pub mod Secrets
pub mod Storage
pub mod Session
pub mod CustomFields
pub mod Schema
mod Tests
