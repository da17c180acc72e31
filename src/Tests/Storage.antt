-- ===== src/Tests/Storage.antt =====
-- A small file system for storage.py, and the slots of two artifacts.
use password_bonobo.Prelude.{
  ◌+◌, ◌≡◌, refl, subst, true, Option, none, some, [], ◌∷◌, replicate, if◌then◌else◌, arith,
}
use password_bonobo.Prelude.Bytes.{Bytes, bytes_eq}
use password_bonobo.Errors.{ok}
use password_bonobo.Storage.Slots.{
  RecoverySlot, parse_slot, encode_slot, collect, transaction_recovery_slot,
}
use password_bonobo.Storage.Slots.Laws.{IsSlot, parse_slot-encode}
use password_bonobo.Storage.Slots.Laws.Transaction.{AreKept, transaction_recovery_slot-IsSlot}
use password_bonobo.Storage.Files.{
  World, File, Files, Store, StorageStage, directory_sync, baseline_of, hexdigest,
}
use password_bonobo.Storage.Recovery.{child}
use password_bonobo.Storage.Publish.{Request, Validator, split_path, staged_path}
use password_bonobo.Storage.Publish.Settle.{publish_source}
use password_bonobo.Storage.Publish.Laws.{IsVaultPath}
use password_bonobo.Storage.Publish.Laws.Atomic.{IsAtomic, publish_source-IsAtomic}
use password_bonobo.Storage.Operations.{EncryptedCandidate}
use password_bonobo.Tests.World.{length_digests}

abbrev vault_path : Bytes
vault_path = 47 ∷ 118 ∷ []

abbrev candidate_path : Bytes
candidate_path = 47 ∷ 119 ∷ 47 ∷ 99 ∷ []

abbrev store : Store
store = record {
  working_directory = 47 ∷ 119 ∷ [];
  recovery_directory = 47 ∷ 114 ∷ [];
  random = λ i n. replicate n (i + 1);
  token = λ i. (97 + i) ∷ [];
  digests = length_digests;
  resolve = λ path. path;
  device = 7;
}

abbrev old_file : File
old_file = record { content = 1 ∷ []; inode = 1; modified_ns = 10 }

abbrev new_file : File
new_file = record { content = 2 ∷ 3 ∷ []; inode = 2; modified_ns = 20 }

abbrev files : Files
files path =
    if bytes_eq path vault_path
    then some old_file
    else if bytes_eq path candidate_path
    then some new_file
    else none

abbrev world : Option StorageStage → World
world fault = record {
  files = files;
  inodes = 3;
  clock = 30;
  randoms = 0;
  tokens = 0;
  pending = [];
  fault = fault;
}

abbrev candidate : EncryptedCandidate
candidate = record { path = candidate_path; sha256 = hexdigest store new_file.content }

abbrev accepts : Validator
accepts content = ok tt

abbrev request : Request
request = record {
  destination = vault_path;
  source = candidate_path;
  expected_sha256 = candidate.sha256;
  baseline = some (baseline_of store old_file);
  consume_source = true;
  selected_recovery = none;
  validator = accepts;
}

vault_path-IsVaultPath : IsVaultPath store vault_path
unfolding child staged_path split_path
vault_path-IsVaultPath = record {
  recovery = λ name. refl;
  working = λ name. refl;
  staging = λ token. refl;
}

publish_source-IsAtomic_example :
    IsAtomic store request
      (some old_file)
      (publish_source store request (world (some directory_sync)))
publish_source-IsAtomic_example =
    publish_source-IsAtomic store request vault_path-IsVaultPath refl (world (some directory_sync))

abbrev two_names : RecoverySlot
two_names = record { current = replicate 64 97; obsolete = replicate 64 98 ∷ [] }

two_names-IsSlot : IsSlot two_names
two_names-IsSlot = record { digests = refl; distinct = refl; few = omega arith }

parse_slot-encode_example : parse_slot (encode_slot two_names) ≡ ok two_names
parse_slot-encode_example = parse_slot-encode two_names two_names-IsSlot

abbrev third_name : Bytes
third_name = replicate 64 99

abbrev three_names : RecoverySlot
three_names = record { current = third_name; obsolete = replicate 64 97 ∷ replicate 64 98 ∷ [] }

transaction_of_two : transaction_recovery_slot third_name (some two_names) none ≡ ok three_names
unfolding transaction_recovery_slot collect
transaction_of_two = refl

only_two : (p : RecoverySlot) → some two_names ≡ some p → IsSlot p
only_two p e = subst (λ o. elim o [ none ↦ Unit {0} | some s ↦ IsSlot s ]) e two_names-IsSlot

transaction_recovery_slot-IsSlot_example :
    IsSlot three_names
    × (three_names.current ≡ third_name)
    × AreKept third_name three_names (some two_names)
transaction_recovery_slot-IsSlot_example =
    transaction_recovery_slot-IsSlot third_name (some two_names) none three_names refl only_two
      transaction_of_two
