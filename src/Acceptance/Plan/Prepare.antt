-- ===== src/Acceptance/Plan/Prepare.antt =====
-- `prepare_acceptance_run_plan` of scripts/acceptance-test/src/versioned_setup.rs. The state is the
-- list of the config files that were written, the last one first.
pub mod Laws
pub mod Heights
mod Tests
use rollup_starter.Common.{
  ℕ, ◌+◌, Bool, true, false, String, List, [], ◌∷◌, Option, none, some, Result, ok, err, map_err,
  length,
}
use rollup_starter.Common.Exec.{Exec, pure, raise, lift, ◌>>=◌, ◌>>◌}
use rollup_starter.Common.Text.{◌<>◌, decimal}
use rollup_starter.Acceptance.Paths.{FilePath, join, relative}
use rollup_starter.Acceptance.Directories.{Directories}
use rollup_starter.Acceptance.Plan.Sources.{ResolvedVersion, load_version_sources}
use rollup_starter.Acceptance.Plan.Versions.{
  RollupVersion, SoakManagerConfig, RecordedDataBounds, AcceptanceRunPlan, start_height_of,
  stop_height_of, RecordedCheck, in_sync, out_of_sync, division_by_zero, check_recorded,
}
use rollup_starter.Acceptance.Plan.Targets.{
  Artifacts, BuildTargets, Tools, PlanError, source, data_out_of_sync, data_division_by_zero,
  LocalBinaries, try, default_build_targets, build_local_head_binaries,
}
use rollup_starter.Acceptance.Plan.Parts.{
  VersionParts, remote_commits, any_local_migration, version_parts, render_config_template,
}

-- The versions of the manager and the binaries of the soak runs, with their stop heights.
abbrev pub Versions : Type 0
Versions = List RollupVersion × List (FilePath × ℕ)

abbrev pub push : RollupVersion → FilePath × ℕ → Versions → Versions
push v s rest = (v ∷ rest.0, s ∷ rest.1)

pub config_path : Directories → ℕ → FilePath
unfolding join decimal
config_path directories idx =
    join (join directories.output_dir (relative "versioned-configs"))
      (relative ("config_" <> decimal idx <> ".toml"))

-- The two pushes at the end of the loop's body.
unfoldable pub push_version : Directories → ℕ → ℕ → VersionParts → Versions → Versions
unfolding stop_height_of start_height_of config_path
push_version directories blocks idx parts rest =
    push
      (record {
        rollup_binary = parts.rollup_binary;
        config_path = config_path directories idx;
        migration_path = parts.migration_path;
        start_height = start_height_of idx blocks;
        stop_height = some (stop_height_of idx blocks);
      })
      (parts.soak_binary, stop_height_of idx blocks) rest

abbrev pub soak_num_workers : ℕ
soak_num_workers = 20

abbrev pub soak_salt : ℕ
soak_salt = 3

abbrev pub soak_safety_stop_blocks : ℕ
soak_safety_stop_blocks = 5

module _ (tools : Tools) where
  open tools use {IoError, YamlError}

  abbrev pub Planning : Type 0 → Type 0
  Planning A = Exec (List (FilePath × String)) (PlanError IoError YamlError) A

  pub write : FilePath → String → Planning (Unit {0})
  write path contents written = elim (tools.write path contents) [
    | ok _ ↦ (ok tt, (path, contents) ∷ written)
    | err e ↦ (err (PlanError.io e), written)
  ]

  pub check_data : Option RecordedDataBounds → ℕ → ℕ → Planning (Unit {0})
  unfolding check_recorded
  check_data recorded_data num_versions blocks =
      elim (check_recorded recorded_data num_versions blocks) [
        | in_sync ↦ pure tt
        | out_of_sync ↦ raise data_out_of_sync
        | division_by_zero ↦ raise data_division_by_zero
      ]

  -- Artifacts are prepared only if there is a commit to prepare them for.
  pub remote_artifacts : BuildTargets → List ResolvedVersion → Planning (List Artifacts)
  remote_artifacts targets versions = elim (remote_commits versions) [
    | [] ↦ pure []
    | c ∷ cs ↦ lift (try tools (tools.prepare_artifacts targets (c ∷ cs)))
  ]

  module _ (directories : Directories) (password : String) (blocks : ℕ)
      (locals : LocalBinaries) where
    unfoldable pub plan_versions : ℕ → List Artifacts → List ResolvedVersion → Planning Versions
    unfolding push_version version_parts render_config_template config_path write
    plan_versions idx artifacts [] = pure ([], [])
    plan_versions idx artifacts (version ∷ versions) = do
      parts ← lift (version_parts tools directories locals artifacts version)
      let config = config_path directories idx
      write config (render_config_template parts.0.config_template password directories)
      rest ← plan_versions (idx + 1) parts.1 versions
      pure (push_version directories blocks idx parts.0 rest)

  unfoldable pub prepare_acceptance_run_plan :
      Directories → String → ℕ → Option RecordedDataBounds → Planning AcceptanceRunPlan
  unfolding load_version_sources default_build_targets build_local_head_binaries plan_versions
  prepare_acceptance_run_plan directories password blocks recorded_data = do
    lift (try tools (tools.create_dir_all directories.rollup_build_cache_dir))
    versions ← lift (
        map_err source (
          load_version_sources tools.read_to_string tools.parse_vars tools.exists tools.parse_spec
            directories.acceptance_test_dir))
    let targets = default_build_targets tools.upgrade_simulator_defaults
    artifacts ← remote_artifacts targets versions
    locals ←
        lift (build_local_head_binaries tools directories targets (any_local_migration versions))
    lift (
        try tools
          (tools.create_dir_all (join directories.output_dir (relative "versioned-configs"))))
    check_data recorded_data (length versions) blocks
    built ← plan_versions directories password blocks locals 0 artifacts versions
    manager ← lift (try tools (tools.build_rollup_manager_binary directories.manager_build_dir))
    pure (record {
      manager_binary = manager;
      manager_versions = built.0;
      soak_config = record {
        num_workers = soak_num_workers;
        salt = soak_salt;
        versions = built.1;
        safety_stop_blocks = soak_safety_stop_blocks;
      };
      recorded_data = recorded_data;
      blocks_per_version = blocks;
    })
