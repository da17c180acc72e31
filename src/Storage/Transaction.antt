-- ===== src/Storage/Transaction.antt =====
-- The state of `_publish_source` of storage.py: the world, and the local variables that its `finally`
-- clause reads.
use password_bonobo.Prelude.{ℕ, Bool, true, false, Option, none, some}
use password_bonobo.Prelude.Bytes.{Bytes}
use password_bonobo.Errors.{Result}
use password_bonobo.Storage.Evidence.{FileBaseline, PublishedFile}
use password_bonobo.Storage.Slots.{RecoverySlot}
use password_bonobo.Storage.Action.{Action}
use password_bonobo.Storage.Files.{World}
use password_bonobo.Storage.Recovery.{RecoveryArtifact}

-- A staged file: its path, identity and evidence.
pub record Staged : Type 0 where
  pub path : Bytes
  pub identity : ℕ
  pub baseline : FileBaseline

-- The local variables that the `finally` clause reads.
pub record Progress : Type 0 where
  pub source_baseline : Option FileBaseline
  pub staged : Option Staged
  pub new_recovery : Option RecoveryArtifact
  pub previous_slot : Option RecoverySlot
  pub replaced : Bool
  pub result : Option PublishedFile

pub record Transaction : Type 0 where
  pub world : World
  pub progress : Progress

abbrev pub started : World → Transaction
started w = record {
  world = w;
  progress = record {
    source_baseline = none;
    staged = none;
    new_recovery = none;
    previous_slot = none;
    replaced = false;
    result = none;
  };
}

abbrev pub on_result : {A : Type 0} → Progress → Result A × World → Result A × Transaction
on_result progress (r, w) = (r, record { world = w; progress = progress })

-- An action of the world, in a transaction.
unfoldable pub act : {A : Type 0} → Action World A → Action Transaction A
act m t = on_result t.progress (m t.world)

abbrev pub note_source : FileBaseline → Transaction → Transaction
note_source baseline t = record {
  world = t.world;
  progress = record {
    source_baseline = some baseline;
    staged = t.progress.staged;
    new_recovery = t.progress.new_recovery;
    previous_slot = t.progress.previous_slot;
    replaced = t.progress.replaced;
    result = t.progress.result;
  };
}

abbrev pub note_staged : Staged → Transaction → Transaction
note_staged staged t = record {
  world = t.world;
  progress = record {
    source_baseline = t.progress.source_baseline;
    staged = some staged;
    new_recovery = t.progress.new_recovery;
    previous_slot = t.progress.previous_slot;
    replaced = t.progress.replaced;
    result = t.progress.result;
  };
}

abbrev pub note_slot : Option RecoverySlot → Transaction → Transaction
note_slot slot t = record {
  world = t.world;
  progress = record {
    source_baseline = t.progress.source_baseline;
    staged = t.progress.staged;
    new_recovery = t.progress.new_recovery;
    previous_slot = slot;
    replaced = t.progress.replaced;
    result = t.progress.result;
  };
}

abbrev pub note_recovery : RecoveryArtifact → Transaction → Transaction
note_recovery recovery t = record {
  world = t.world;
  progress = record {
    source_baseline = t.progress.source_baseline;
    staged = t.progress.staged;
    new_recovery = some recovery;
    previous_slot = t.progress.previous_slot;
    replaced = t.progress.replaced;
    result = t.progress.result;
  };
}

abbrev pub note_replaced : Transaction → Transaction
note_replaced t = record {
  world = t.world;
  progress = record {
    source_baseline = t.progress.source_baseline;
    staged = t.progress.staged;
    new_recovery = t.progress.new_recovery;
    previous_slot = t.progress.previous_slot;
    replaced = true;
    result = t.progress.result;
  };
}

abbrev pub note_result : PublishedFile → Transaction → Transaction
note_result published t = record {
  world = t.world;
  progress = record {
    source_baseline = t.progress.source_baseline;
    staged = t.progress.staged;
    new_recovery = t.progress.new_recovery;
    previous_slot = t.progress.previous_slot;
    replaced = t.progress.replaced;
    result = some published;
  };
}
