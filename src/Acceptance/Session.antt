-- ===== src/Acceptance/Session.antt =====
-- What a run of the harness goes through, whether it tests or sets up: the config of the manager and its
-- spawning (`write_manager_config`, `spawn_rollup_manager` of versioned_setup.rs), the postgres guard
-- and the process, which Rust drops in the reverse order of their declarations. The state is the world
-- that the run changes. A run whose events end is aborted at the await that it stands at.
pub mod Laws
pub mod Steps
pub mod Scopes
use rollup_starter.Common.{
  ℕ, Bool, true, false, String, List, [], ◌∷◌, Option, none, some, Result, ok, err, if◌then◌else◌,
  map_err,
}
use rollup_starter.Common.Exec.{Exec, pure, raise, lift, ◌>>=◌, ◌>>◌}
use rollup_starter.Common.Codes.{Codes}
use rollup_starter.Acceptance.Paths.{FilePath, join, relative, parent}
use rollup_starter.Acceptance.Directories.{Directories}
use rollup_starter.Acceptance.Settings.{ResolvedRunSettings, cleanup_rollup_state_on_success}
use rollup_starter.Acceptance.StateDir.{PathState, StateDirError, cleanup_rollup_state_dir}
use rollup_starter.Acceptance.Setup.{Disk, MockFiles, MockError, OnDisk}
use rollup_starter.Acceptance.Postgres.{
  Docker, DockerError, Dockering, start_and_wait_for_postgres_ready, drop_guard,
}
use rollup_starter.Acceptance.Setup.Queries.{ManualError}
use rollup_starter.Acceptance.Shutdown.{WaitError}
use rollup_starter.Acceptance.Process.{Wait, ManagedRollupProcess, drop}
use rollup_starter.Acceptance.Resync.{ResyncError, Outcome, resynced, gave_up, waiting}
use rollup_starter.Acceptance.Plan.Versions.{RollupVersion}
use rollup_starter.Acceptance.Soak.Teardown.{
  ThroughputReport, StartError, SoakRun, still_running, unwound, start_failed, finished,
}

pub record World : Type 0 where
  pub disk : Disk
  pub docker : Docker
  -- The process of the manager, when the run has given it up.
  pub process : Option ManagedRollupProcess
  pub state_dir : PathState
  -- The files that were written, the last one first.
  pub written : List (FilePath × String)

pub data SessionError : Type 0 where
  mock_failed : MockError → SessionError
  postgres_failed : DockerError → SessionError
  create_dir_failed write_failed log_failed : FilePath → SessionError
  spawn_failed no_soak_config aborted panicked : SessionError
  resync_failed : ResyncError → SessionError
  not_ready : WaitError → SessionError
  manual_failed : ManualError → SessionError
  soak_not_started : StartError → SessionError
  soak_failed : String → SessionError
  no_baseline invalid_baseline throughput_too_low : SessionError
  cleanup_failed : StateDirError → SessionError

abbrev pub Running : Type 0 → Type 0
Running A = Exec World SessionError A

-- The command that spawns the manager.
pub record SpawnCommand : Type 0 where
  pub program : FilePath
  pub manager_config : FilePath
  pub genesis_path : FilePath
  pub current_dir : FilePath
  pub stdout : Option FilePath

-- The operating system: whether a directory or a file can be made, and the spawning, which yields the
-- answers to the waits for the process. Texts are those of serde_json.
pub record Services : Type 0 where
  pub create_dir_all : FilePath → Bool
  pub write_file : FilePath → String → Bool
  pub create_log : FilePath → Bool
  pub spawn : SpawnCommand → Option (List Wait)
  pub manager_config_text : List RollupVersion → String
  pub report_text : ThroughputReport → String
  -- What the manager's process, until it is gone, makes of the state directory and of the mock DA's files.
  -- It does not work on the persistent copies of these files.
  pub rollup_leaves : PathState × MockFiles → PathState × MockFiles

pub manager_command : FilePath → FilePath → Directories → Option FilePath → SpawnCommand
unfolding join
manager_command manager_binary manager_config directories stdout_log_path = record {
  program = manager_binary;
  manager_config = manager_config;
  genesis_path = join directories.acceptance_test_dir (relative "genesis.json");
  current_dir = directories.rollup_root;
  stdout = stdout_log_path;
}

module _ (services : Services) where
  abbrev create_parent : FilePath → Result SessionError (Unit {0})
  create_parent path = elim (parent path) [
    | none ↦ ok tt
    | some dir ↦ if services.create_dir_all dir then ok tt else err (create_dir_failed dir)
  ]

  unfoldable pub save_file : FilePath → String → Running (Unit {0})
  save_file path text w =
      if services.write_file path text
      then (ok tt, record w { written = (path, text) ∷ w.written })
      else (err (write_failed path), w)

  unfoldable pub write_manager_config : FilePath → List RollupVersion → Running (Unit {0})
  unfolding parent save_file
  write_manager_config path versions = do
    lift (create_parent path)
    save_file path (services.manager_config_text versions)

  abbrev open_log : Option FilePath → Result SessionError (Unit {0})
  open_log none = ok tt
  open_log (some path) = elim (create_parent path) [
    | err e ↦ err e
    | ok _ ↦ if services.create_log path then ok tt else err (log_failed path)
  ]

  abbrev spawned : Option (List Wait) → Result SessionError ManagedRollupProcess
  spawned none = err spawn_failed
  spawned (some waits) = ok (record { reaped = false; signals = []; waits = waits })

  unfoldable pub spawn_rollup_manager :
      FilePath → FilePath → Directories → Option FilePath → Running ManagedRollupProcess
  unfolding parent manager_command
  spawn_rollup_manager manager_binary manager_config directories stdout_log_path = do
    lift (open_log stdout_log_path)
    lift (
        spawned (
          services.spawn
            (manager_command manager_binary manager_config directories stdout_log_path)))

-- A step on one part of the world.
unfoldable pub on_disk : OnDisk → Running (Unit {0})
on_disk step w = let (r, d) = step w.disk in (map_err mock_failed r, record w { disk = d })

unfoldable pub on_state_dir : Exec PathState StateDirError (Unit {0}) → Running (Unit {0})
on_state_dir step w =
    let (r, s) = step w.state_dir in (map_err cleanup_failed r, record w { state_dir = s })

-- The cleanup that ends a successful run.
unfoldable pub clean_up : ResolvedRunSettings → Running (Unit {0})
unfolding cleanup_rollup_state_on_success on_state_dir cleanup_rollup_state_dir
clean_up settings =
    if cleanup_rollup_state_on_success settings
    then on_state_dir cleanup_rollup_state_dir
    else pure tt

-- The scope of the postgres guard: it is dropped however the body ends.
abbrev guarded :
    {A : Type 0}
    → Codes
    → Running A
    → World
    → Result DockerError (Unit {0})
    → Result SessionError A × World
guarded name body w (err e) = (err (postgres_failed e), w)
guarded name body w (ok _) =
    let (r, w') = body w in (r, record w' { docker = drop_guard name w'.docker })

unfoldable pub with_postgres : {A : Type 0} → Codes → Codes → Running A → Running A
unfolding start_and_wait_for_postgres_ready drop_guard
with_postgres name password body w =
    let (r, d) = start_and_wait_for_postgres_ready name password w.docker in
    guarded name body (record w { docker = d }) r

-- The result of a soak run, whose process is dropped if the run is aborted.
abbrev pub settle :
    SoakRun × ManagedRollupProcess → Result SessionError ThroughputReport × ManagedRollupProcess
settle (still_running, p) = (err aborted, drop p)
settle (unwound, p) = (err panicked, p)
settle (start_failed e, p) = (err (soak_not_started e), p)
settle (finished (err e), p) = (err (soak_failed e), p)
settle (finished (ok report), p) = (ok report, p)

abbrev pub worked_on : Services → World → World
worked_on services w =
    let (dir, mock) = services.rollup_leaves (w.state_dir, w.disk.mock) in
    record w { state_dir = dir; disk = record w.disk { mock = mock } }

abbrev handed_over :
    {A : Type 0}
    → Services
    → ManagedRollupProcess
    → (A → ManagedRollupProcess → SoakRun × ManagedRollupProcess)
    → Result SessionError A × World
    → Result SessionError ThroughputReport × World
handed_over services p soak (err e, w) =
    (err e, record (worked_on services w) { process = some (drop p) })
handed_over services p soak (ok a, w) =
    let (r, p') = settle (soak a p) in (r, record (worked_on services w) { process = some p' })

-- The scope of the process: it is dropped if the steps before the soak run fail, and else handed over to
-- the soak run. At its end the process is gone, and has left the state directory and the mock DA as it
-- likes.
unfoldable pub with_rollup :
    {A : Type 0}
    → Services
    → ManagedRollupProcess
    → Running A
    → (A → ManagedRollupProcess → SoakRun × ManagedRollupProcess)
    → Running ThroughputReport
unfolding drop
with_rollup services p before soak w = handed_over services p soak (before w)

abbrev pub of_outcome : Outcome → Result SessionError (ℕ × ℕ)
of_outcome (resynced latest first_new) = ok (latest, first_new)
of_outcome (gave_up e) = err (resync_failed e)
of_outcome waiting = err aborted
