-- ===== src/Acceptance/Settings.antt =====
-- scripts/acceptance-test/src/config.rs: the run profile, the command line's common arguments and
-- the settings that they resolve to. The directories on disk are in StateDir.
use rollup_starter.Common.{ℕ, Bool, true, false, String, Option, none, some, if◌then◌else◌}
use rollup_starter.Acceptance.Paths.{FilePath}

pub data RunProfile : Type 0 where
  full short : RunProfile

unfoldable pub subdir : RunProfile → String
subdir full = "full"
subdir short = "short"

pub data ExistingRollupState : Type 0 where
  clobber error ignore : ExistingRollupState

abbrev pub default_postgres_container_name : String
default_postgres_container_name = "postgres-acceptance-test"

abbrev pub default_blocks_per_version : ℕ
default_blocks_per_version = 1000

abbrev pub default_full_slot_save_interval : ℕ
default_full_slot_save_interval = 25

abbrev pub short_blocks_per_version : ℕ
short_blocks_per_version = 30

abbrev pub short_full_slot_save_interval : ℕ
short_full_slot_save_interval = 5

pub record CommonArgs : Type 0 where
  pub short : Bool
  pub acceptance_data_dir : Option FilePath
  pub acceptance_throughput_dir : Option FilePath
  pub rollup_state_dir : Option FilePath
  pub on_existing_rollup_state : ExistingRollupState
  pub postgres_docker_container_name : Option String
  pub binary_cache_dir : Option FilePath

pub record ResolvedRunSettings : Type 0 where
  pub profile : RunProfile
  pub blocks_per_version : ℕ
  pub full_slot_save_interval : ℕ
  pub acceptance_data_dir : Option FilePath
  pub acceptance_throughput_dir : Option FilePath
  pub rollup_state_dir : Option FilePath
  pub on_existing_rollup_state : ExistingRollupState
  pub postgres_docker_container_name : String
  pub binary_cache_dir : Option FilePath

-- The pair of defaults that `from_common_args` picks for a profile.
profile_defaults : RunProfile → ℕ × ℕ
profile_defaults full = (default_blocks_per_version, default_full_slot_save_interval)
profile_defaults short = (short_blocks_per_version, short_full_slot_save_interval)

unfoldable pub from_common_args : CommonArgs → ResolvedRunSettings
unfolding profile_defaults
from_common_args args =
    let profile : RunProfile = if args.short then short else full in
    let (blocks, interval) = profile_defaults profile in
    record {
      profile = profile;
      blocks_per_version = blocks;
      full_slot_save_interval = interval;
      acceptance_data_dir = args.acceptance_data_dir;
      acceptance_throughput_dir = args.acceptance_throughput_dir;
      rollup_state_dir = args.rollup_state_dir;
      on_existing_rollup_state = args.on_existing_rollup_state;
      postgres_docker_container_name = elim args.postgres_docker_container_name [
        | none ↦ default_postgres_container_name
        | some name ↦ name
      ];
      binary_cache_dir = args.binary_cache_dir;
    }

unfoldable pub cleanup_rollup_state_on_success : ResolvedRunSettings → Bool
cleanup_rollup_state_on_success s = elim s.rollup_state_dir [ none ↦ true | some _ ↦ false ]
