-- ===== src/Storage/Files.antt =====
-- The file system as storage.py uses it. A path is its bytes, and a descriptor stands for the path
-- it was opened at. No other process changes a file while an operation of the store runs, every
-- file is a regular one, and a directory stays what it was when it was opened; a call of the
-- operating system fails only for a missing, an existing or a too large file, or at the stage where
-- `StorageFaults` is armed.
pub mod Laws
use password_bonobo.Prelude.{
  ℕ, ◌+◌, ◌/◌, ◌%◌, Bool, true, false, not, ◌&&◌, Option, none, some, List, [], ◌∷◌, ◌++◌, length,
  ltb, ◌==◌, ◌!=◌, any, if◌then◌else◌,
}
use password_bonobo.Prelude.Bytes.{Bytes, bytes_eq}
use password_bonobo.Errors.{
  Error, Result, ok, raise, os_error, file_exists_error, file_not_found_error, storage_error,
  preparation_failed, injected_storage_fault_error,
}
use password_bonobo.Constants.{max_encrypted_file_bytes_ceiling}
use password_bonobo.Crypto.Interface.{Digests, RandomSource}
use password_bonobo.Storage.Evidence.{FileBaseline}
use password_bonobo.Storage.Action.{
  Action, pure, fail, continue, ◌>>=◌, ◌>>◌, fail_if, change, get, attempt, handled,
}

pub data StorageStage : Type 0 where
  create permission write file_sync reopen compare lock baseline_recheck : StorageStage
  recovery_write recovery_sync replace directory_sync published_verification : StorageStage
  cleanup : StorageStage

abbrev stage_number : StorageStage → ℕ
stage_number create = 0
stage_number permission = 1
stage_number write = 2
stage_number file_sync = 3
stage_number reopen = 4
stage_number compare = 5
stage_number lock = 6
stage_number baseline_recheck = 7
stage_number recovery_write = 8
stage_number recovery_sync = 9
stage_number replace = 10
stage_number directory_sync = 11
stage_number published_verification = 12
stage_number cleanup = 13

pub record File : Type 0 where
  pub content : Bytes
  pub inode : ℕ
  pub modified_ns : ℕ

abbrev pub Files : Type 0
Files = Bytes → Option File

-- What the store is built with: its directories, the random source, the tokens of the secrets
-- module, the digests, the resolution of a path, and the device of the files.
pub record Store : Type 0 where
  pub working_directory : Bytes
  pub recovery_directory : Bytes
  pub random : RandomSource
  pub token : ℕ → Bytes
  pub digests : Digests
  pub resolve : Bytes → Bytes
  pub device : ℕ

-- The files, the counters of inodes, times, random calls and tokens, the candidates that are
-- pending, and the armed stage.
pub record World : Type 0 where
  pub files : Files
  pub inodes : ℕ
  pub clock : ℕ
  pub randoms : ℕ
  pub tokens : ℕ
  pub pending : List (Bytes × FileBaseline)
  pub fault : Option StorageStage

abbrev pub with_files : Files → World → World
with_files files w = record {
  files = files;
  inodes = w.inodes + 1;
  clock = w.clock + 1;
  randoms = w.randoms;
  tokens = w.tokens;
  pending = w.pending;
  fault = w.fault;
}

abbrev pub with_pending : List (Bytes × FileBaseline) → World → World
with_pending pending w = record {
  files = w.files;
  inodes = w.inodes;
  clock = w.clock;
  randoms = w.randoms;
  tokens = w.tokens;
  pending = pending;
  fault = w.fault;
}

abbrev disarmed : World → World
disarmed w = record {
  files = w.files;
  inodes = w.inodes;
  clock = w.clock;
  randoms = w.randoms;
  tokens = w.tokens;
  pending = w.pending;
  fault = none;
}

abbrev hit_armed : StorageStage → Option StorageStage → Action World (Unit {0})
hit_armed stage none w = (ok tt, w)
hit_armed stage (some armed) w =
    if stage_number stage == stage_number armed
    then (raise injected_storage_fault_error, disarmed w)
    else (ok tt, w)

-- `StorageFaults._hit`
unfoldable pub hit : StorageStage → Action World (Unit {0})
hit stage w = hit_armed stage w.fault w

-- `secrets.token_hex(16)`
unfoldable pub token_hex : Store → Action World Bytes
token_hex store w = (
  ok (store.token w.tokens),
  record {
    files = w.files;
    inodes = w.inodes;
    clock = w.clock;
    randoms = w.randoms;
    tokens = w.tokens + 1;
    pending = w.pending;
    fault = w.fault;
  },
)

-- `self._random.bytes(count)`
unfoldable pub random_bytes : Store → ℕ → Action World Bytes
random_bytes store count w = (
  ok (store.random w.randoms count),
  record {
    files = w.files;
    inodes = w.inodes;
    clock = w.clock;
    randoms = w.randoms + 1;
    tokens = w.tokens;
    pending = w.pending;
    fault = w.fault;
  },
)

abbrev hex_digit : ℕ → ℕ
hex_digit n = if ltb n 10 then 48 + n else 87 + n

abbrev pub hex : Bytes → Bytes
hex [] = []
hex (b ∷ bs) = hex_digit (b / 16) ∷ hex_digit (b % 16) ∷ hex bs

-- `hashlib.sha256(content).hexdigest()`
unfoldable pub hexdigest : Store → Bytes → Bytes
hexdigest store content = hex (store.digests.sha256 content)

abbrev put : Bytes → Option File → Files → Files
put path file files other = if bytes_eq path other then file else files other

-- A file that must not be there yet: `O_CREAT | O_EXCL`.
abbrev make : Bytes → Option File → Action World (Unit {0})
make path none w = (
  ok tt,
  with_files
      (put path (some (record { content = []; inode = w.inodes; modified_ns = w.clock })) w.files)
      w,
)
make path (some file) w = (raise file_exists_error, w)

unfoldable pub create_file : Bytes → Action World (Unit {0})
create_file path w = make path (w.files path) w

abbrev open_found : Option File → Action World File
open_found none w = (raise file_not_found_error, w)
open_found (some file) w = (ok file, w)

-- `_open_regular_descriptor`
unfoldable pub open_file : Bytes → Action World File
open_file path w = open_found (w.files path) w

-- `_write_descriptor_bytes`, to a file that is empty.
unfoldable pub write_file : Bytes → Bytes → Action World (Unit {0})
unfolding open_file
write_file path content = do
  file ← open_file path
  change (λ w.
      with_files
        (put path (some (record { content = content; inode = file.inode; modified_ns = w.clock }))
          w.files)
        w)

-- `unlink`
unfoldable pub unlink : Bytes → Action World (Unit {0})
unfolding open_file
unlink path = do file ← open_file path; change (λ w. with_files (put path none w.files) w)

-- `os.replace`
unfoldable pub rename : Bytes → Bytes → Action World (Unit {0})
unfolding open_file
rename source destination = do
  file ← open_file source
  change (λ w. with_files (put source none (put destination (some file) w.files)) w)

abbrev look : Bytes → Action World (Option File)
look path w = (ok (w.files path), w)

abbrev link_to : File → Bytes → Option File → Action World (Unit {0})
link_to file path none w = (ok tt, with_files (put path (some file) w.files) w)
link_to file path (some other) w = (raise file_exists_error, w)

-- `os.link`
unfoldable pub link : Bytes → Bytes → Action World (Unit {0})
unfolding open_file
link source destination = do
  file ← open_file source
  other ← look destination
  link_to file destination other

unfoldable pub too_large : File → Bool
too_large file = ltb max_encrypted_file_bytes_ceiling (length file.content)

-- The evidence of a file on POSIX.
unfoldable pub baseline_of : Store → File → FileBaseline
unfolding hexdigest
baseline_of store file = record {
  size = length file.content;
  sha256 = hexdigest store file.content;
  modified_ns = file.modified_ns;
  device = some store.device;
  inode = some file.inode;
  windows_file_id = none;
}

-- `_capture_open_descriptor`
unfoldable pub capture_open_descriptor : Store → File → Action World FileBaseline
unfolding too_large baseline_of
capture_open_descriptor store file = do
  fail_if (too_large file) os_error
  pure (baseline_of store file)

-- What `_capture_regular_file` raises in place of an error: a missing file stays one.
abbrev capture_error : Error → Error
capture_error file_not_found_error = file_not_found_error
capture_error (storage_error reason) = storage_error reason
capture_error e = storage_error preparation_failed

-- `_capture_regular_file`
unfoldable pub capture_regular_file : Store → Bytes → Action World FileBaseline
unfolding open_file capture_open_descriptor
capture_regular_file store path =
    attempt (open_file path >>= λ file. capture_open_descriptor store file)
      (λ e. fail (capture_error e))

abbrev open_child_found : Option File → Action World File
open_child_found none w = (raise (storage_error preparation_failed), w)
open_child_found (some file) w = (ok file, w)

-- `open_child`, the child being known by its path, where `none` raises as its callers do.
unfoldable pub open_child : Bytes → Action World File
open_child path w = open_child_found (w.files path) w

-- `_capture_anchor_child`
unfoldable pub capture_anchor_child : Store → Bytes → Action World FileBaseline
unfolding open_child capture_open_descriptor
capture_anchor_child store path = do file ← open_child path; capture_open_descriptor store file

-- `_copy_descriptor_to_descriptor`
unfoldable pub copy_to : File → Bytes → Action World (Unit {0})
unfolding too_large write_file
copy_to file path = do fail_if (too_large file) os_error; write_file path file.content

abbrev same_number : Option ℕ → Option ℕ → Bool
same_number none none = true
same_number none (some b) = false
same_number (some a) none = false
same_number (some a) (some b) = a == b

-- The equality of two `FileBaseline`
abbrev pub same_baseline : FileBaseline → FileBaseline → Bool
same_baseline a b =
    (a.size == b.size)
    && bytes_eq a.sha256 b.sha256
    && (a.modified_ns == b.modified_ns)
    && same_number a.device b.device
    && same_number a.inode b.inode
    && same_number a.windows_file_id b.windows_file_id

-- The `except` clauses of `_remove_if_same`
abbrev removed_or_not : Error → Action World Bool
removed_or_not file_not_found_error = pure true
removed_or_not os_error = pure false
removed_or_not file_exists_error = pure false
removed_or_not (storage_error reason) = pure false
removed_or_not e = fail e

-- `_remove_if_same`
unfoldable pub remove_if_same : Store → Bytes → FileBaseline → Action World Bool
unfolding capture_regular_file unlink
remove_if_same store path baseline =
    attempt
      (do
        observed ← capture_regular_file store path
        if same_baseline observed baseline then (unlink path >> pure true) else pure false)
      removed_or_not
