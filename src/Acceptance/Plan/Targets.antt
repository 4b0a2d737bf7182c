-- ===== src/Acceptance/Plan/Targets.antt =====
-- The build targets of scripts/acceptance-test/src/versioned_setup.rs: `default_build_targets`, and the
-- build at the local head. Cargo, the artifact builder, the file system and the YAML parser are the
-- record `Tools`.
use rollup_starter.Common.{
  Bool, true, false, String, List, [], ◌∷◌, ◌++◌, Option, none, some, Result, ok, ◌>>=◌, ◌>>◌,
  map_err, ok_or, ensure, if◌then◌else◌,
}
use rollup_starter.Common.Text.{join_with}
use rollup_starter.Acceptance.Paths.{FilePath, join, relative}
use rollup_starter.Acceptance.Directories.{Directories}
use rollup_starter.Acceptance.Plan.Sources.{VersionSpecEntry, SourceError}

-- `sov_versioned_artifact_builder::BuildTarget` and `BuildTargets`.
pub record BuildTarget : Type 0 where
  pub package_name : Option String
  pub bin : String
  pub no_default_features : Bool
  pub features : List String
  pub test_constants_manifest_dir : Option FilePath

pub record BuildTargets : Type 0 where
  pub rollup : BuildTarget
  pub soak : Option BuildTarget
  pub db_migration : Option BuildTarget
  pub mock_da : Option BuildTarget

-- The artifacts that the builder prepared for one commit.
pub record Artifacts : Type 0 where
  pub rollup_binary : FilePath
  pub soak_binary : Option FilePath
  pub db_migration_binary : Option FilePath

abbrev pub acceptance_test_features : List String
acceptance_test_features = "acceptance-testing" ∷ "mock_da" ∷ "mock_zkvm" ∷ []

abbrev pub db_migration_features : List String
db_migration_features = acceptance_test_features ++ "sov-migrations" ∷ []

abbrev pub constants_dir : Option FilePath
constants_dir =
    some (record { is_absolute = false; components = "scripts" ∷ "acceptance-test" ∷ [] })

-- An optional target with the harness's features and constants, and no others.
abbrev configure : List String → Option BuildTarget → Option BuildTarget
configure features none = none
configure features (some t) = some (record t {
  no_default_features = true;
  features = features;
  test_constants_manifest_dir = constants_dir;
})

-- The argument is `BuildTargets::upgrade_simulator_defaults()`.
unfoldable pub default_build_targets : BuildTargets → BuildTargets
default_build_targets defaults = record {
  rollup = record defaults.rollup {
    features = acceptance_test_features;
    test_constants_manifest_dir = constants_dir;
  };
  soak = configure acceptance_test_features defaults.soak;
  db_migration = configure db_migration_features defaults.db_migration;
  mock_da = none;
}

pub record Tools : Type 1 where
  pub IoError : Type 0
  pub YamlError : Type 0
  pub exists : FilePath → Bool
  pub is_file : FilePath → Bool
  pub read_to_string : FilePath → Result IoError String
  pub parse_spec : String → Result YamlError (List VersionSpecEntry)
  pub parse_vars : String → Result YamlError String
  pub create_dir_all : FilePath → Result IoError (Unit {0})
  pub write : FilePath → String → Result IoError (Unit {0})
  pub canonicalize : FilePath → Result IoError FilePath
  pub upgrade_simulator_defaults : BuildTargets
  -- A cargo command with these arguments, in the environment of the target, and its target folder.
  pub cargo : FilePath → BuildTarget → List String → Result IoError (Unit {0})
  pub cargo_target_dir : FilePath → BuildTarget → FilePath
  -- Builds the given commits, each with its flag for the migration, against the targets.
  pub prepare_artifacts : BuildTargets → List (String × Bool) → Result IoError (List Artifacts)
  pub read_text_file_at_commit : String → FilePath → Result IoError String
  pub build_rollup_manager_binary : FilePath → Result IoError FilePath

pub data PlanError (IoError YamlError : Type 0) : Type 0 where
  source : SourceError IoError YamlError → PlanError IoError YamlError
  io : IoError → PlanError IoError YamlError
  constants_missing : PlanError IoError YamlError
  no_soak_target : PlanError IoError YamlError
  no_migration_target : PlanError IoError YamlError
  binary_missing : FilePath → PlanError IoError YamlError
  data_out_of_sync : PlanError IoError YamlError
  data_division_by_zero : PlanError IoError YamlError
  no_artifacts : String → PlanError IoError YamlError
  no_soak_binary : String → PlanError IoError YamlError
  no_migration_binary : String → PlanError IoError YamlError
  migration_not_built : PlanError IoError YamlError

-- The arguments of the cargo command for a target.
pub cargo_args : BuildTarget → List String
unfolding join_with
cargo_args t =
    "build"
    ∷ "--release"
    ∷ (elim t.package_name as (λ _. List String) [ none ↦ [] | some p ↦ "--package" ∷ p ∷ [] ]
        ++ ("--bin" ∷ t.bin ∷ [])
        ++ (if t.no_default_features then "--no-default-features" ∷ [] else [])
        ++ (elim t.features as (λ _. List String) [
          | [] ↦ []
          | f ∷ fs ↦ "--features" ∷ join_with "," (f ∷ fs) ∷ []
        ]))

-- The binaries of the local head: rollup, soak, migration.
pub record LocalBinaries : Type 0 where
  pub rollup_bin : FilePath
  pub soak_bin : FilePath
  pub migration_bin : Option FilePath

module _ (tools : Tools) where
  open tools use {IoError, YamlError}

  abbrev pub Planned : Type 0 → Type 0
  Planned A = Result (PlanError IoError YamlError) A

  abbrev pub try : {A : Type 0} → Result IoError A → Planned A
  try r = map_err io r

  pub build_local_target : FilePath → BuildTarget → Planned FilePath
  unfolding cargo_args join
  build_local_target rollup_root target = do
    try (tools.cargo rollup_root target (cargo_args target))
    let binary =
        join (join (tools.cargo_target_dir rollup_root target) (relative "release"))
          (relative target.bin)
    ensure (tools.exists binary) (binary_missing binary)
    try (tools.canonicalize binary)

  build_migration : FilePath → BuildTargets → Bool → Planned (Option FilePath)
  unfolding build_local_target
  build_migration root targets false = ok none
  build_migration root targets true = do
    target ← ok_or targets.db_migration no_migration_target
    bin ← build_local_target root target
    ok (some bin)

  unfoldable pub build_local_head_binaries :
      Directories → BuildTargets → Bool → Planned LocalBinaries
  unfolding build_local_target build_migration
  build_local_head_binaries directories targets build_db_migration = do
    let constants = join directories.acceptance_test_dir (relative "constants.testing.toml")
    ensure (tools.is_file constants) constants_missing
    rollup_bin ← build_local_target directories.rollup_root targets.rollup
    soak_target ← ok_or targets.soak no_soak_target
    soak_bin ← build_local_target directories.rollup_root soak_target
    migration_bin ← build_migration directories.rollup_root targets build_db_migration
    ok (record { rollup_bin = rollup_bin; soak_bin = soak_bin; migration_bin = migration_bin })
