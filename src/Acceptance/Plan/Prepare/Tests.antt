-- ===== src/Acceptance/Plan/Prepare/Tests.antt =====
-- A run of the planning with one commit and the local head.
use rollup_starter.Common.{
  Bool, true, false, String, List, [], ◌∷◌, none, some, map, ok, length, ◌≡◌, refl, arith,
}
use rollup_starter.Acceptance.Paths.{FilePath}
use rollup_starter.Acceptance.Directories.{Directories}
use rollup_starter.Acceptance.Plan.Sources.{ResolvedVersion, load_version_sources, resolve_entry}
use rollup_starter.Acceptance.Plan.Sources.Laws.{IsResolved}
use rollup_starter.Acceptance.Plan.Versions.{
  AcceptanceRunPlan, RecordedDataBounds, check_recorded, in_sync, migration_boundary_batch_counts,
}
use rollup_starter.Acceptance.Plan.Versions.Heights.{Spans}
use rollup_starter.Acceptance.Plan.Targets.{
  BuildTarget, Artifacts, Tools, LocalBinaries, build_local_head_binaries, default_build_targets,
}
use rollup_starter.Acceptance.Plan.Parts.{any_local_migration}
use rollup_starter.Acceptance.Plan.Prepare.{
  prepare_acceptance_run_plan, remote_artifacts, check_data,
}
use rollup_starter.Acceptance.Plan.Prepare.Laws.{
  Matches, Fetched, BuiltFrom, prepare_acceptance_run_plan-Matches,
}
use rollup_starter.Acceptance.Plan.Prepare.Heights.{prepare_acceptance_run_plan-Spans}

abbrev path : String → FilePath
path name = record { is_absolute = true; components = name ∷ [] }

abbrev target : String → BuildTarget
target bin = record {
  package_name = none;
  bin = bin;
  no_default_features = false;
  features = [];
  test_constants_manifest_dir = none;
}

abbrev artifacts_of : List (String × Bool) → List Artifacts
artifacts_of [] = []
artifacts_of (c ∷ cs) =
    record {
      rollup_binary = path c.0;
      soak_binary = some (path "soak");
      db_migration_binary = none;
    }
    ∷ artifacts_of cs

abbrev tools : Tools
tools = record {
  IoError = String;
  YamlError = String;
  exists = λ p. true;
  is_file = λ p. true;
  read_to_string = λ p. ok "{password}";
  parse_spec = λ s. ok (
      record {
        version_id = "v0";
        vars_file = path "v0";
        migration_path = none;
        build_db_migration = false;
      }
      ∷ record {
        version_id = "v1";
        vars_file = path "v1";
        migration_path = none;
        build_db_migration = true;
      }
      ∷ []);
  parse_vars = λ s. ok "abc";
  create_dir_all = λ p. ok tt;
  write = λ p s. ok tt;
  canonicalize = λ p. ok p;
  upgrade_simulator_defaults = record {
    rollup = target "rollup";
    soak = some (target "soak");
    db_migration = some (target "migration");
    mock_da = none;
  };
  cargo = λ root t args. ok tt;
  cargo_target_dir = λ root t. root;
  prepare_artifacts = λ t cs. ok (artifacts_of cs);
  read_text_file_at_commit = λ c p. ok "old";
  build_rollup_manager_binary = λ p. ok p;
}

abbrev directories : Directories
directories = record {
  rollup_root = path "root";
  acceptance_test_dir = path "test";
  rollup_build_cache_dir = path "cache";
  manager_build_dir = path "manager";
  output_dir = path "out";
  rollup_data_path = path "data";
  snapshots_dir = path "snapshots";
  throughput_dir = path "throughput";
}

abbrev under : List String → FilePath
under cs = record { is_absolute = true; components = cs }

abbrev config_0 : FilePath
config_0 = under ("out" ∷ "versioned-configs" ∷ "config_0.toml" ∷ [])

abbrev config_1 : FilePath
config_1 = under ("out" ∷ "versioned-configs" ∷ "config_1.toml" ∷ [])

abbrev release : String → FilePath
release bin = under ("root" ∷ "release" ∷ bin ∷ [])

abbrev bounds : RecordedDataBounds
bounds = record { last_slot_number = 34; end_rollup_height = 30 }

abbrev plan : AcceptanceRunPlan
plan = record {
  manager_binary = path "manager";
  manager_versions =
      record {
        rollup_binary = path "abc";
        config_path = config_0;
        migration_path = none;
        start_height = none;
        stop_height = some 30;
      }
      ∷ record {
        rollup_binary = release "rollup";
        config_path = config_1;
        migration_path = some (release "migration");
        start_height = some 31;
        stop_height = some 60;
      }
      ∷ [];
  soak_config = record {
    num_workers = 20;
    salt = 3;
    versions = (path "soak", 30) ∷ (release "soak", 60) ∷ [];
    safety_stop_blocks = 5;
  };
  recorded_data = some bounds;
  blocks_per_version = 30;
}

abbrev written : List (FilePath × String)
written = (config_1, "secret") ∷ (config_0, "old") ∷ []

prepare_runs :
    prepare_acceptance_run_plan tools directories "secret" 30 (some bounds) [] ≡ (ok plan, written)
unfolding prepare_acceptance_run_plan resolve_entry remote_artifacts check_data
prepare_runs = refl

prepare_acceptance_run_plan-Matches_example :
    (rs : List ResolvedVersion) × (l : LocalBinaries) × (arts : List Artifacts)
    × (load_version_sources tools.read_to_string tools.parse_vars tools.exists tools.parse_spec
          (path "test")
        ≡ ok rs)
    × IsResolved rs
    × Matches directories 30 0 rs plan.manager_versions plan.soak_config.versions
    × Fetched tools rs arts
    × (build_local_head_binaries tools directories
          (default_build_targets tools.upgrade_simulator_defaults)
          (any_local_migration rs)
        ≡ ok l)
    × BuiltFrom tools l arts rs plan.manager_versions plan.soak_config.versions
    × (check_recorded (some bounds) (length rs) 30 ≡ in_sync)
    × (plan.recorded_data ≡ some bounds)
    × (plan.blocks_per_version ≡ 30)
prepare_acceptance_run_plan-Matches_example =
    prepare_acceptance_run_plan-Matches tools directories "secret" 30 (some bounds) plan [] written
      prepare_runs

prepare_acceptance_run_plan-Spans_example :
    Spans 30 0 plan.manager_versions
    × (map some (migration_boundary_batch_counts plan) ≡ some 30 ∷ [])
    × (map (λ v. v.stop_height) plan.manager_versions
        ≡ map (λ v. some v.1) plan.soak_config.versions)
prepare_acceptance_run_plan-Spans_example =
    prepare_acceptance_run_plan-Spans tools directories "secret" 30 (some bounds) plan [] written
      (omega arith) (omega arith) prepare_runs
