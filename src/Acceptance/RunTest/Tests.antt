-- ===== src/Acceptance/RunTest/Tests.antt =====
-- A test run that passes, and one that is interrupted in the resync.
use rollup_starter.Common.{
  Bool, true, false, String, List, [], ◌∷◌, Option, none, some, ok, err, ◌≡◌, refl,
}
use rollup_starter.Common.Codes.{codes}
use rollup_starter.Acceptance.Paths.{FilePath, join}
use rollup_starter.Acceptance.Settings.{ResolvedRunSettings, short, clobber}
use rollup_starter.Acceptance.Directories.{Directories}
use rollup_starter.Acceptance.StateDir.{DirEntry, gone, directory}
use rollup_starter.Acceptance.Setup.{MockFiles}
use rollup_starter.Acceptance.Plan.Versions.{AcceptanceRunPlan}
use rollup_starter.Acceptance.Postgres.{Output, rm, run, pg_isready}
use rollup_starter.Acceptance.Process.{exits}
use rollup_starter.Acceptance.Resync.{up, slot, shutdown, shut_down, Poll}
use rollup_starter.Acceptance.Soak.{rollup_exited}
use rollup_starter.Acceptance.Slots.{load_snapshot_json}
use rollup_starter.Acceptance.Slots.Tests.{slot_json}
use rollup_starter.Acceptance.Session.{World, Services, resync_failed}
use rollup_starter.Acceptance.RunTest.{PreparedTestRun, TestAnswers, run_test}
use rollup_starter.Acceptance.RunTest.Passed.{Passed}

abbrev pub at : String → FilePath
at name = record { is_absolute = true; components = name ∷ [] }

abbrev pub directories : Directories
directories = record {
  rollup_root = at "root";
  acceptance_test_dir = at "test";
  rollup_build_cache_dir = at "cache";
  manager_build_dir = at "manager";
  output_dir = at "out";
  rollup_data_path = at "data";
  snapshots_dir = at "snapshots";
  throughput_dir = at "throughput";
}

abbrev pub settings : ResolvedRunSettings
settings = record {
  profile = short;
  blocks_per_version = 1;
  full_slot_save_interval = 5;
  acceptance_data_dir = none;
  acceptance_throughput_dir = none;
  rollup_state_dir = none;
  on_existing_rollup_state = clobber;
  postgres_docker_container_name = "pg";
  binary_cache_dir = none;
}

abbrev pub plan : AcceptanceRunPlan
plan = record {
  manager_binary = at "bin";
  manager_versions =
      record {
        rollup_binary = at "bin";
        config_path = at "config";
        migration_path = none;
        start_height = none;
        stop_height = some 1;
      }
      ∷ [];
  soak_config = record { num_workers = 1; salt = 3; versions = []; safety_stop_blocks = 5 };
  recorded_data = none;
  blocks_per_version = 1;
}

abbrev prepared : PreparedTestRun
prepared = record {
  directories = directories;
  password = "pw";
  plan = plan;
  settings = settings;
  throughput_check = true;
}

abbrev pub slot_db : DirEntry
slot_db = record {
  name = "slot-db";
  is_readable = true;
  is_inspectable = true;
  is_dir = true;
  removal = gone;
  contents = [];
}

-- The process fills the state directory and the mock DA.
abbrev pub services : Services
services = record {
  create_dir_all = λ p. true;
  write_file = λ p t. true;
  create_log = λ p. true;
  spawn = λ c. some (exits true ∷ []);
  manager_config_text = λ vs. "config";
  report_text = λ r. "report";
  rollup_leaves = λ found. (
    directory true (slot_db ∷ []),
    record { base_file = some "new"; shm_file = none; wal_file = none },
  );
}

abbrev answers : List Poll → TestAnswers
answers polls = record {
  failures = record {
    remove_fails = λ f. false;
    copy_fails = λ f. false;
    rename_fails = λ f. false;
  };
  snapshots = [];
  node = record { get_slot = λ t n c. none; comes_up = λ t. up };
  polls = polls;
  attempts = record { answers = true; past_deadline = false; signal = none } ∷ [];
  for_resync = λ c b. some c;
  startup = λ c. ok [];
  events = rollup_exited (some true) ∷ [];
  tasks = [];
  show = λ e. "soak";
  show_process = λ e. "process";
  baseline = some (some (record { num_txs = 0; num_slots = 1 }));
  is_less = λ r s percent. false;
  timestamp = "20260101_000000";
}

abbrev pub output : Bool → Option Output
output success = some (record { success = success; stderr = [] })

abbrev persistent : MockFiles
persistent = record { base_file = some "db"; shm_file = none; wal_file = none }

abbrev pub world : World
world = record {
  disk = record {
    mock = record { base_file = none; shm_file = none; wal_file = none };
    persistent = persistent;
  };
  docker = record {
    commands = [];
    answers = output true ∷ output true ∷ output false ∷ output true ∷ output true ∷ [];
  };
  process = none;
  state_dir = directory true [];
  written = [];
}

abbrev after : World
after = record {
  disk = record {
    mock = record { base_file = some "new"; shm_file = none; wal_file = none };
    persistent = persistent;
  };
  docker = record {
    commands =
        rm (codes "pg")
        ∷ pg_isready (codes "pg")
        ∷ pg_isready (codes "pg")
        ∷ run (codes "pg") (codes "pw")
        ∷ rm (codes "pg")
        ∷ [];
    answers = [];
  };
  process = some (record { reaped = true; signals = []; waits = exits true ∷ [] });
  state_dir = directory true [];
  written =
      (
        join (at "throughput") (record {
          is_absolute = false;
          components = "test_throughput_20260101_000000.json" ∷ [];
        }),
        "report",
      )
      ∷ (
        join (at "out")
            (record { is_absolute = false; components = "acceptance_manager_config.json" ∷ [] }),
        "config",
      )
      ∷ [];
}

run_test_passes :
    run_test slot_json services (answers (slot 10 ∷ [])) prepared world ≡ (ok tt, after)
unfolding run_test load_snapshot_json
run_test_passes = refl

run_test_interrupted :
    (run_test slot_json services (answers (shutdown ∷ [])) prepared world).0
    ≡ err (resync_failed shut_down)
unfolding run_test load_snapshot_json
run_test_interrupted = refl

-- A failure in the resync leaves the state directory populated.
run_test_leaves :
    (run_test slot_json services (answers (shutdown ∷ [])) prepared world).1.state_dir
    ≡ directory true (slot_db ∷ [])
unfolding run_test load_snapshot_json
run_test_leaves = refl
