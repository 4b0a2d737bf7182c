-- ===== src/Acceptance/Setup/Tests.antt =====
-- A run that leaves no sidecar, and data that is appended to.
use rollup_starter.Common.{
  ℕ, ◌*◌, true, false, String, [], ◌∷◌, Option, none, some, ok, ◌≡◌, ◌≢◌, refl, ◌↔◌, arith,
}
use rollup_starter.Acceptance.Paths.{FilePath}
use rollup_starter.Acceptance.Plan.Versions.{
  RollupVersion, RecordedDataBounds, AcceptanceRunPlan, check_recorded,
}
use rollup_starter.Acceptance.Setup.{
  MockFiles, Disk, Failures, shm, wal, save_mock_data, copy_persistent_mock_data,
  validate_append_boundary,
}
use rollup_starter.Acceptance.Setup.MockData.{
  kept, copy_persistent_mock_data-eq-ok, copy_persistent_mock_data-save_mock_data,
}
use rollup_starter.Acceptance.Setup.Append.{validate_append_boundary_iff}

abbrev healthy : Failures
healthy = record { remove_fails = λ f. false; copy_fails = λ f. false; rename_fails = λ f. false }

abbrev files : Option String → Option String → MockFiles
files b w = record { base_file = b; shm_file = none; wal_file = w }

-- The write-ahead log of an earlier run is still there.
abbrev ran : Disk
ran = record { mock = files (some "new") none; persistent = files (some "old") (some "old log") }

abbrev saved : Disk
saved = record { mock = files none none; persistent = files (some "new") (some "old log") }

abbrev copied : Disk
copied = record {
  mock = files (some "new") (some "old log");
  persistent = files (some "new") (some "old log");
}

save_runs : save_mock_data healthy ran ≡ (ok tt, saved)
unfolding save_mock_data
save_runs = refl

copy_runs : copy_persistent_mock_data healthy saved ≡ (ok tt, copied)
unfolding copy_persistent_mock_data
copy_runs = refl

copy_persistent_mock_data-eq-ok_example :
    (copied.mock ≡ saved.persistent) × (copied.persistent ≡ saved.persistent)
copy_persistent_mock_data-eq-ok_example =
    copy_persistent_mock_data-eq-ok healthy saved copied copy_runs

copy_persistent_mock_data-save_mock_data_example :
    (ran.mock.base_file ≢ none)
    × (copied.mock.base_file ≡ ran.mock.base_file)
    × (copied.mock.shm_file
        ≡ kept (healthy.rename_fails shm) ran.mock.shm_file ran.persistent.shm_file)
    × (copied.mock.wal_file
        ≡ kept (healthy.rename_fails wal) ran.mock.wal_file ran.persistent.wal_file)
copy_persistent_mock_data-save_mock_data_example =
    copy_persistent_mock_data-save_mock_data healthy healthy ran saved copied save_runs copy_runs

abbrev bin : FilePath
bin = record { is_absolute = true; components = [] }

abbrev version : Option ℕ → ℕ → RollupVersion
version start stop = record {
  rollup_binary = bin;
  config_path = bin;
  migration_path = none;
  start_height = start;
  stop_height = some stop;
}

abbrev plan : AcceptanceRunPlan
plan = record {
  manager_binary = bin;
  manager_versions = version none 30 ∷ version (some 31) 60 ∷ [];
  soak_config = record { num_workers = 20; salt = 3; versions = []; safety_stop_blocks = 5 };
  recorded_data = none;
  blocks_per_version = 30;
}

abbrev bounds : RecordedDataBounds
bounds = record { last_slot_number = 33; end_rollup_height = 30 }

validate_append_boundary_iff_example :
    (validate_append_boundary (some bounds) plan ≡ ok tt) ↔ (30 ≡ 1 * 30)
unfolding check_recorded
validate_append_boundary_iff_example =
    validate_append_boundary_iff bounds plan (omega arith) (omega arith)
      (refl, refl, (refl, refl, tt)) refl
