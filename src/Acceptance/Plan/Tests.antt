-- ===== src/Acceptance/Plan/Tests.antt =====
-- Runs of the heights, the soak configuration and the extension of the last version.
use rollup_starter.Common.{
  ℕ, ◌+◌, ◌*◌, ◌≤◌, true, false, List, [], ◌∷◌, Option, none, some, map, ◌≡◌, ◌≢◌, refl, ◌↔◌,
  length, last?, map_some, String, arith,
}
use rollup_starter.Acceptance.Paths.{FilePath}
use rollup_starter.Acceptance.Plan.Versions.{
  RollupVersion, SoakManagerConfig, RecordedDataBounds, AcceptanceRunPlan, check_recorded, in_sync,
  migration_boundary_batch_counts, last_version_soak_config, extended, no_stop_height,
  extend_last_stop_height,
}
use rollup_starter.Acceptance.Plan.Targets.{BuildTarget, BuildTargets, default_build_targets}
use rollup_starter.Acceptance.Plan.Versions.Heights.{
  check_recorded_iff, migration_boundary_batch_counts-eq-stops,
}
use rollup_starter.Acceptance.Plan.Versions.Soak.{worker_of, last_version_soak_config-disjoint}
use rollup_starter.Acceptance.Plan.Versions.Extend.{extend_last_stop_height-append}

abbrev bin : FilePath
bin = record { is_absolute = true; components = [] }

abbrev version : Option ℕ → Option ℕ → RollupVersion
version start stop = record {
  rollup_binary = bin;
  config_path = bin;
  migration_path = none;
  start_height = start;
  stop_height = stop;
}

abbrev bounds : RecordedDataBounds
bounds = record { last_slot_number = 70; end_rollup_height = 60 }

check_recorded_iff_example :
    (check_recorded (some bounds) 3 30 ≡ in_sync)
    ↔ ((k : ℕ) × (3 ≤ k + 1) × (k ≤ 3) × (60 ≡ k * 30))
check_recorded_iff_example = check_recorded_iff bounds 3 30 (omega arith) (omega arith)

abbrev three : List RollupVersion
three = version none (some 30) ∷ version (some 31) (some 60) ∷ version (some 61) (some 90) ∷ []

abbrev soak : SoakManagerConfig
soak = record {
  num_workers = 20;
  salt = 3;
  versions = (bin, 30) ∷ (bin, 60) ∷ (bin, 90) ∷ [];
  safety_stop_blocks = 5;
}

abbrev plan : AcceptanceRunPlan
plan = record {
  manager_binary = bin;
  manager_versions = three;
  soak_config = soak;
  recorded_data = none;
  blocks_per_version = 30;
}

migration_boundary_batch_counts-eq-stops_example :
    map some (migration_boundary_batch_counts plan) ≡ some 30 ∷ some 60 ∷ []
migration_boundary_batch_counts-eq-stops_example =
    migration_boundary_batch_counts-eq-stops plan (omega arith)
      (refl, refl, (refl, refl, (refl, refl, tt)))

abbrev soak_of_last : SoakManagerConfig
soak_of_last = record {
  num_workers = 20;
  salt = 43;
  versions = (bin, 90) ∷ [];
  safety_stop_blocks = 5;
}

soak_runs : last_version_soak_config soak ≡ some soak_of_last
unfolding last_version_soak_config
soak_runs = refl

last_version_soak_config-disjoint_example :
    (last? soak.versions ≡ some (bin, 90))
    × (length soak_of_last.versions ≡ 1)
    × (soak_of_last.num_workers ≡ soak.num_workers)
    × (soak_of_last.safety_stop_blocks ≡ soak.safety_stop_blocks)
    × (soak_of_last.salt ≡ worker_of soak 2 0)
    × (worker_of soak 1 19 ≢ 43 + 0)
last_version_soak_config-disjoint_example =
    last_version_soak_config-disjoint soak soak_of_last 1 19 0 (omega arith) (omega arith)
      (omega arith) (omega arith) soak_runs

extend_last_stop_height-append_example :
    extend_last_stop_height (version none (some 30) ∷ version (some 31) (some 60) ∷ []) 10
    ≡ extended (version none (some 30) ∷ version (some 31) (some 70) ∷ [])
extend_last_stop_height-append_example =
    extend_last_stop_height-append (version none (some 30) ∷ []) (version (some 31) (some 60)) 60 10
      refl (omega arith)

extend_panics : extend_last_stop_height (version none none ∷ []) 10 ≡ no_stop_height
unfolding extend_last_stop_height
extend_panics = refl

abbrev target : String → BuildTarget
target name = record {
  package_name = none;
  bin = name;
  no_default_features = false;
  features = [];
  test_constants_manifest_dir = none;
}

abbrev defaults : BuildTargets
defaults = record {
  rollup = target "rollup";
  soak = some (target "soak");
  db_migration = none;
  mock_da = some (target "mock-da");
}

builds_targets :
    ((default_build_targets defaults).mock_da ≡ none)
    × (map_some (λ t. t.features) (default_build_targets defaults).soak
        ≡ some (default_build_targets defaults).rollup.features)
unfolding default_build_targets
builds_targets = (refl, refl)
