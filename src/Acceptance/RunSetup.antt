-- ===== src/Acceptance/RunSetup.antt =====
-- scripts/acceptance-test/src/bin/setup.rs: the preparation of a setup run and the run itself, which generates
-- data from genesis or appends to recorded data. The comparison of two throughputs, which are
-- floating-point numbers, is given.
pub mod Laws
pub mod Passed
mod Tests
use rollup_starter.Common.{
  ℕ, ◌-◌, Bool, true, false, not, String, List, [], ◌∷◌, Option, none, some, Result, ok, err,
  if◌then◌else◌, map_err, ok_or, ensure, last?,
}
use rollup_starter.Common.Exec.{Exec, pure, raise, lift, ◌>>=◌, ◌>>◌}
use rollup_starter.Common.Codes.{Codes, codes}
use rollup_starter.Acceptance.Settings.{CommonArgs, ResolvedRunSettings, from_common_args}
use rollup_starter.Acceptance.Paths.{FilePath, join, relative}
use rollup_starter.Acceptance.Directories.{Directories}
use rollup_starter.Acceptance.Plan.Versions.{
  RollupVersion, SoakManagerConfig, RecordedDataBounds, AcceptanceRunPlan, last_version_soak_config,
}
use rollup_starter.Acceptance.Plan.Bounds.{Listing, BoundsError, recorded_data_bounds}
use rollup_starter.Acceptance.Plan.Targets.{Tools}
use rollup_starter.Acceptance.Slots.{Json, Files}
use rollup_starter.Acceptance.Setup.{
  Failures, SetupError, append_onto, copy_persistent_mock_data, save_mock_data, stop_of,
}
use rollup_starter.Acceptance.Setup.Manual.{ManualNode, do_manual_setup}
use rollup_starter.Acceptance.Shutdown.{Attempt, wait_for_endpoint}
use rollup_starter.Acceptance.Process.{ManagedRollupProcess, ProcessError}
use rollup_starter.Acceptance.Resync.{Node, Poll, resync_and_verify_slots}
use rollup_starter.Acceptance.Soak.{SoakRunOptions, SoakError, Event}
use rollup_starter.Acceptance.Soak.Teardown.{
  ThroughputReport, Task, StartError, TaskEnd, SoakRun, run_soak,
}
use rollup_starter.Acceptance.Session.{
  World, manual_failed, not_ready, no_soak_config, Running, Services, save_file,
  write_manager_config, spawn_rollup_manager, on_disk, clean_up, with_postgres, with_rollup,
  of_outcome,
}
use rollup_starter.Acceptance.RunTest.{
  PrepareError, bounds_failed, cache_config_failed, append_failed, Surroundings, Preparing,
  make_directories, prepare_state_dir, make_plan, height_or_zero,
}

pub record PreparedSetupRun : Type 0 where
  pub directories : Directories
  pub password : String
  pub plan : AcceptanceRunPlan
  pub settings : ResolvedRunSettings
  pub append_onto : Option RecordedDataBounds

module _ (json : Json) (as_u64 : json.Value → Option ℕ) (tools : Tools)
    (around : Surroundings tools.IoError) where
  -- Snapshots count only beside the persistent files of an earlier run.
  unfoldable pub recorded_beside :
      Bool → Result (PrepareError tools.IoError tools.YamlError) (Option RecordedDataBounds)
  unfolding recorded_data_bounds
  recorded_beside has_persistent_mock_da =
      if has_persistent_mock_da
      then map_err bounds_failed (recorded_data_bounds json as_u64 around.snapshots around.listing)
      else ok none

  -- The flags are whether the configuration of the cache could be written, and whether there are
  -- persistent files. The password is generated at random.
  unfoldable pub prepare_setup_run :
      String → CommonArgs → Bool → Bool → Preparing json as_u64 tools around PreparedSetupRun
  unfolding from_common_args make_directories prepare_state_dir recorded_beside make_plan
      append_onto
  prepare_setup_run password args can_write_cache_config has_persistent_mock_da = do
    let settings = from_common_args args
    directories ← make_directories json as_u64 tools around settings
    prepare_state_dir json as_u64 tools around settings
    lift (ensure can_write_cache_config cache_config_failed)
    recorded_data ← lift (recorded_beside has_persistent_mock_da)
    plan ←
        make_plan json as_u64 tools around directories password settings.blocks_per_version
          recorded_data
    onto ← lift (map_err append_failed (append_onto has_persistent_mock_da recorded_data plan))
    pure (record {
      directories = directories;
      password = password;
      plan = plan;
      settings = settings;
      append_onto = onto;
    })

-- The file of the throughput baseline, when it is read.
pub data Baseline : Type 0 where
  missing unreadable invalid : Baseline
  existing : ThroughputReport → Baseline

-- What the node, the tasks and the file system answer in a run.
pub record SetupAnswers : Type 0 where
  pub failures : Failures
  pub snapshots : Files
  pub node : Node
  pub polls : List Poll
  pub attempts : List Attempt
  -- The node as the manual setup finds it, and whether the snapshots can be written.
  pub manual_node : ManualNode
  pub writable : Bool
  pub startup : SoakManagerConfig → Result StartError (List Task)
  pub events : List Event
  pub tasks : List TaskEnd
  pub show : SoakError → String
  pub show_process : ProcessError → String
  pub baseline : Baseline
  -- Whether the first report's throughput exceeds the second's.
  pub exceeds : ThroughputReport → ThroughputReport → Bool

abbrev first_batch : Option ℕ → ℕ
first_batch none = 3
first_batch (some start_height) = start_height - 1

abbrev start_of : Option RollupVersion → Option ℕ
start_of none = none
start_of (some v) = v.start_height

-- What the soak run is started with.
pub record Generation : Type 0 where
  pub config : SoakManagerConfig
  pub backfill_start : Option ℕ
  pub snapshots : Files

module _ (json : Json) (services : Services) (a : SetupAnswers) where
  unfoldable pub should_overwrite_throughput : Baseline → ThroughputReport → Bool
  should_overwrite_throughput (existing old) new = a.exceeds new old
  should_overwrite_throughput missing new = true
  should_overwrite_throughput unreadable new = true
  should_overwrite_throughput invalid new = true

  -- `run_from_genesis_generation` up to the soak run.
  unfoldable pub from_genesis : PreparedSetupRun → Running Generation
  unfolding do_manual_setup
  from_genesis t = do
    lift (map_err manual_failed (do_manual_setup json a.writable a.manual_node a.snapshots).0)
    pure (record {
      config = t.plan.soak_config;
      backfill_start = none;
      snapshots = (do_manual_setup json a.writable a.manual_node a.snapshots).1;
    })

  -- `run_append_generation` up to the soak run.
  unfoldable pub append : PreparedSetupRun → Running Generation
  unfolding resync_and_verify_slots wait_for_endpoint last_version_soak_config
  append t = do
    synced ← lift (of_outcome (resync_and_verify_slots json a.snapshots t.plan a.node a.polls))
    lift (map_err not_ready (wait_for_endpoint a.attempts))
    config ← lift (ok_or (last_version_soak_config t.plan.soak_config) no_soak_config)
    pure (record { config = config; backfill_start = some synced.1; snapshots = a.snapshots })

  unfoldable pub generation : PreparedSetupRun → Running Generation
  unfolding from_genesis append
  generation t = elim t.append_onto as (λ _. Running Generation) [
    | none ↦ from_genesis t
    | some bounds ↦ append t
  ]

  abbrev pub soak_options : PreparedSetupRun → Option ℕ → SoakRunOptions
  soak_options t backfill_start = record {
    throughput_start_batch = first_batch (start_of (last? t.plan.manager_versions));
    rollup_stop_height = height_or_zero (stop_of (last? t.plan.manager_versions));
    full_slot_save_interval = t.settings.full_slot_save_interval;
    save_slot_snapshots = true;
    snapshot_backfill_start = backfill_start;
  }

  unfoldable pub soak :
      PreparedSetupRun → Generation → ManagedRollupProcess → SoakRun × ManagedRollupProcess
  unfolding run_soak
  soak t g p =
      run_soak json (soak_options t g.backfill_start) a.show a.show_process (a.startup g.config)
        a.events a.tasks g.snapshots p

  pub throughput_path : PreparedSetupRun → FilePath
  unfolding join
  throughput_path t = join t.directories.throughput_dir (relative "acceptance_throughput.json")

  unfoldable pub save_baseline : PreparedSetupRun → ThroughputReport → Running (Unit {0})
  unfolding should_overwrite_throughput save_file throughput_path
  save_baseline t report =
      if should_overwrite_throughput a.baseline report
      then save_file services (throughput_path t) (services.report_text report)
      else pure tt

  -- After the generation.
  unfoldable pub conclude : PreparedSetupRun → ThroughputReport → Running (Unit {0})
  unfolding save_baseline on_disk save_mock_data clean_up
  conclude t report = do
    save_baseline t report
    on_disk (save_mock_data a.failures)
    clean_up t.settings

  pub setup_config_path : PreparedSetupRun → FilePath
  unfolding join
  setup_config_path t = join t.directories.output_dir (relative "setup_manager_config.json")

  pub log_path : PreparedSetupRun → FilePath
  unfolding join
  log_path t = join t.directories.output_dir (relative "rollup.log")

  -- What runs while postgres is up.
  unfoldable pub setup_body : PreparedSetupRun → Running (Unit {0})
  unfolding write_manager_config spawn_rollup_manager with_rollup generation soak conclude
      setup_config_path log_path
  setup_body t = do
    write_manager_config services (setup_config_path t) t.plan.manager_versions
    p ←
        spawn_rollup_manager services t.plan.manager_binary (setup_config_path t) t.directories
          (some (log_path t))
    report ← with_rollup services p (generation t) (soak t)
    conclude t report

  -- The persistent files are restored to append to them.
  unfoldable pub restore : PreparedSetupRun → Running (Unit {0})
  unfolding on_disk copy_persistent_mock_data
  restore t = elim t.append_onto as (λ _. Running (Unit {0})) [
    | none ↦ pure tt
    | some bounds ↦ on_disk (copy_persistent_mock_data a.failures)
  ]

  unfoldable pub run_setup : PreparedSetupRun → Running (Unit {0})
  unfolding restore with_postgres setup_body
  run_setup t = do
    restore t
    with_postgres (codes t.settings.postgres_docker_container_name) (codes t.password)
        (setup_body t)
