-- ===== src/Acceptance/RunTest.antt =====
-- scripts/acceptance-test/src/main.rs: the preparation of a test run and the run itself, as chains of the
-- modelled components. The comparison of two throughputs, which are floating-point numbers, is given.
pub mod Laws
pub mod Passed
pub mod Tests
use rollup_starter.Common.{
  ℕ, Bool, true, false, not, String, List, [], ◌∷◌, Option, none, some, Result, ok, err,
  if◌then◌else◌, map_err, ok_or, last?,
}
use rollup_starter.Common.Exec.{Exec, pure, raise, lift, ◌>>=◌, ◌>>◌}
use rollup_starter.Common.Text.{◌<>◌}
use rollup_starter.Common.Codes.{Codes, codes}
use rollup_starter.Acceptance.Settings.{
  CommonArgs, RunProfile, full, short, ResolvedRunSettings, from_common_args,
}
use rollup_starter.Acceptance.Paths.{FilePath, join, relative}
use rollup_starter.Acceptance.Directories.{Directories, DirectoryError, from_settings}
use rollup_starter.Acceptance.StateDir.{PathState, StateDirError, prepare_rollup_state_dir}
use rollup_starter.Acceptance.Plan.Versions.{
  RollupVersion, SoakManagerConfig, RecordedDataBounds, AcceptanceRunPlan, Extended, extended,
  no_stop_height, extend_last_stop_height,
}
use rollup_starter.Acceptance.Plan.Bounds.{Listing, BoundsError, recorded_data_bounds}
use rollup_starter.Acceptance.Plan.Targets.{Tools, PlanError}
use rollup_starter.Acceptance.Plan.Prepare.{prepare_acceptance_run_plan}
use rollup_starter.Acceptance.Slots.{Json, Files}
use rollup_starter.Acceptance.Setup.{Failures, SetupError, copy_persistent_mock_data, stop_of}
use rollup_starter.Acceptance.Shutdown.{Attempt, wait_for_endpoint}
use rollup_starter.Acceptance.Process.{ManagedRollupProcess, ProcessError}
use rollup_starter.Acceptance.Resync.{Node, Poll, resync_and_verify_slots}
use rollup_starter.Acceptance.Soak.{SoakRunOptions, SoakError, Event}
use rollup_starter.Acceptance.Soak.Teardown.{
  ThroughputReport, Task, StartError, TaskEnd, SoakRun, run_soak,
}
use rollup_starter.Acceptance.Session.{
  World, SessionError, mock_failed, not_ready, no_soak_config, panicked, no_baseline,
  invalid_baseline, throughput_too_low, Running, Services, save_file, write_manager_config,
  spawn_rollup_manager, on_disk, clean_up, with_postgres, with_rollup, of_outcome,
}

pub record PreparedTestRun : Type 0 where
  pub directories : Directories
  pub password : String
  pub plan : AcceptanceRunPlan
  pub settings : ResolvedRunSettings
  pub throughput_check : Bool

-- What the preparation changes: the directories and config files that it made, and the state directory.
pub record Preparation : Type 0 where
  pub made : List FilePath
  pub state_dir : PathState
  pub configs : List (FilePath × String)

pub data PrepareError (IoError YamlError : Type 0) : Type 0 where
  directory_failed : DirectoryError IoError → PrepareError IoError YamlError
  state_dir_failed : StateDirError → PrepareError IoError YamlError
  bounds_failed : BoundsError → PrepareError IoError YamlError
  plan_failed : PlanError IoError YamlError → PrepareError IoError YamlError
  -- Of a setup only.
  cache_config_failed : PrepareError IoError YamlError
  append_failed : SetupError → PrepareError IoError YamlError

-- The file system's answers to the preparation, and where it runs.
pub record Surroundings (IoError : Type 0) : Type 0 where
  pub is_dir : FilePath → Result IoError Bool
  pub create_dir : FilePath → Result IoError (Unit {0})
  pub manifest_dir : FilePath
  pub cwd : FilePath
  pub can_create_state_dir : Bool
  pub snapshots : Files
  pub listing : Listing

module _ (json : Json) (as_u64 : json.Value → Option ℕ) (tools : Tools)
    (around : Surroundings tools.IoError) where
  abbrev pub Preparing : Type 0 → Type 0
  Preparing A = Exec Preparation (PrepareError tools.IoError tools.YamlError) A

  unfoldable pub make_directories : ResolvedRunSettings → Preparing Directories
  unfolding from_settings
  make_directories settings s =
      let (r, made) =
        from_settings around.is_dir around.create_dir settings around.manifest_dir around.cwd
          s.made in
      (map_err directory_failed r, record s { made = made })

  unfoldable pub prepare_state_dir : ResolvedRunSettings → Preparing (Unit {0})
  unfolding prepare_rollup_state_dir
  prepare_state_dir settings s =
      let (r, dir) =
        prepare_rollup_state_dir around.can_create_state_dir settings.on_existing_rollup_state
          s.state_dir in
      (map_err state_dir_failed r, record s { state_dir = dir })

  unfoldable pub make_plan :
      Directories → String → ℕ → Option RecordedDataBounds → Preparing AcceptanceRunPlan
  unfolding prepare_acceptance_run_plan
  make_plan directories password blocks recorded s =
      let (r, configs) =
        prepare_acceptance_run_plan tools directories password blocks recorded s.configs in
      (map_err plan_failed r, record s { configs = configs })

  -- The password is generated at random.
  unfoldable pub prepare_test_run : String → CommonArgs → Bool → Preparing PreparedTestRun
  unfolding from_common_args make_directories prepare_state_dir recorded_data_bounds make_plan
  prepare_test_run password args no_throughput_check = do
    let settings = from_common_args args
    directories ← make_directories settings
    prepare_state_dir settings
    recorded_data ←
        lift
          (map_err bounds_failed (recorded_data_bounds json as_u64 around.snapshots around.listing))
    plan ← make_plan directories password settings.blocks_per_version recorded_data
    pure (record {
      directories = directories;
      password = password;
      plan = plan;
      settings = settings;
      throughput_check = not no_throughput_check;
    })

-- In percent.
unfoldable pub throughput_regression_min_ratio : RunProfile → ℕ
throughput_regression_min_ratio full = 90
throughput_regression_min_ratio short = 70

-- What the node, the tasks and the time answer in a run. `baseline` is the file of the setup, if it can be
-- read, and the report in it, if it can be parsed.
pub record TestAnswers : Type 0 where
  pub failures : Failures
  pub snapshots : Files
  pub node : Node
  pub polls : List Poll
  pub attempts : List Attempt
  pub for_resync : SoakManagerConfig → ℕ → Option SoakManagerConfig
  pub startup : SoakManagerConfig → Result StartError (List Task)
  pub events : List Event
  pub tasks : List TaskEnd
  pub show : SoakError → String
  pub show_process : ProcessError → String
  pub baseline : Option (Option ThroughputReport)
  -- Whether the first report's throughput is less than a percentage of the second's.
  pub is_less : ThroughputReport → ThroughputReport → ℕ → Bool
  pub timestamp : String

abbrev pub of_extended : Extended → Result SessionError (List RollupVersion)
of_extended (extended versions) = ok versions
of_extended no_stop_height = err panicked

abbrev pub height_or_zero : Option ℕ → ℕ
height_or_zero none = 0
height_or_zero (some height) = height

module _ (json : Json) (services : Services) (a : TestAnswers) where
  unfoldable pub check_throughput :
      RunProfile → Bool → ThroughputReport → Result SessionError (Unit {0})
  unfolding throughput_regression_min_ratio
  check_throughput profile enabled report =
      if enabled
      then (elim a.baseline [
        | none ↦ err no_baseline
        | some none ↦ err invalid_baseline
        | some (some previous) ↦
            if a.is_less report previous (throughput_regression_min_ratio profile)
            then err throughput_too_low
            else ok tt
      ])
      else ok tt

  -- Between the spawning and the soak run.
  unfoldable pub catch_up : PreparedTestRun → Running (ℕ × SoakManagerConfig)
  unfolding resync_and_verify_slots wait_for_endpoint
  catch_up t = do
    synced ← lift (of_outcome (resync_and_verify_slots json a.snapshots t.plan a.node a.polls))
    lift (map_err not_ready (wait_for_endpoint a.attempts))
    config ←
        lift (ok_or (a.for_resync t.plan.soak_config t.settings.blocks_per_version) no_soak_config)
    pure (synced.0, config)

  abbrev pub soak_options : PreparedTestRun → List RollupVersion → ℕ → SoakRunOptions
  soak_options t versions latest_batch_num = record {
    throughput_start_batch = latest_batch_num;
    rollup_stop_height = height_or_zero (stop_of (last? versions));
    full_slot_save_interval = t.settings.full_slot_save_interval;
    save_slot_snapshots = false;
    snapshot_backfill_start = none;
  }

  unfoldable pub soak :
      PreparedTestRun
      → List RollupVersion
      → ℕ × SoakManagerConfig
      → ManagedRollupProcess
      → SoakRun × ManagedRollupProcess
  unfolding run_soak
  soak t versions (latest_batch_num, config) p =
      run_soak json (soak_options t versions latest_batch_num) a.show a.show_process
        (a.startup config) a.events a.tasks a.snapshots p

  pub report_path : PreparedTestRun → FilePath
  unfolding join
  report_path t =
      join t.directories.throughput_dir (relative ("test_throughput_" <> a.timestamp <> ".json"))

  -- After the soak run.
  unfoldable pub conclude : PreparedTestRun → ThroughputReport → Running (Unit {0})
  unfolding check_throughput save_file report_path clean_up
  conclude t report = do
    lift (check_throughput t.settings.profile t.throughput_check report)
    save_file services (report_path t) (services.report_text report)
    clean_up t.settings

  pub manager_config_path : PreparedTestRun → FilePath
  unfolding join
  manager_config_path t = join t.directories.output_dir (relative "acceptance_manager_config.json")

  -- What runs while postgres is up.
  unfoldable pub test_body : PreparedTestRun → Running (Unit {0})
  unfolding extend_last_stop_height write_manager_config spawn_rollup_manager with_rollup catch_up
      soak conclude manager_config_path
  test_body t = do
    versions ← lift (
        of_extended (extend_last_stop_height t.plan.manager_versions t.settings.blocks_per_version))
    write_manager_config services (manager_config_path t) versions
    p ←
        spawn_rollup_manager services t.plan.manager_binary (manager_config_path t) t.directories
          none
    report ← with_rollup services p (catch_up t) (soak t versions)
    conclude t report

  unfoldable pub run_test : PreparedTestRun → Running (Unit {0})
  unfolding on_disk copy_persistent_mock_data with_postgres test_body
  run_test t = do
    on_disk (copy_persistent_mock_data a.failures)
    with_postgres (codes t.settings.postgres_docker_container_name) (codes t.password) (test_body t)
