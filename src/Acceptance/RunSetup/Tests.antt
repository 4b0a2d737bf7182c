-- ===== src/Acceptance/RunSetup/Tests.antt =====
-- A setup run from genesis, and one whose manual setup fails.
use rollup_starter.Common.{Bool, true, false, [], ◌∷◌, none, some, ok, ◌≡◌, refl}
use rollup_starter.Common.Codes.{print}
use rollup_starter.Acceptance.Slots.{
  assert_slots_match_json_excluding_batches, save_slot_snapshot, validate_against_snapshot,
}
use rollup_starter.Acceptance.Slots.Monitor.{check_finalized}
use rollup_starter.Acceptance.Setup.Queries.{supply_url, set_txs}
use rollup_starter.Acceptance.Setup.{Disk}
use rollup_starter.Acceptance.Setup.Manual.Tests.{json, node}
use rollup_starter.Acceptance.Resync.{up}
use rollup_starter.Acceptance.Soak.{rollup_exited}
use rollup_starter.Acceptance.Session.{World}
use rollup_starter.Acceptance.RunTest.Tests.{directories, settings, plan, services, world}
use rollup_starter.Acceptance.RunSetup.{PreparedSetupRun, SetupAnswers, missing, run_setup}
use rollup_starter.Acceptance.RunSetup.Passed.{Passed}

abbrev prepared : PreparedSetupRun
prepared = record {
  directories = directories;
  password = "pw";
  plan = plan;
  settings = settings;
  append_onto = none;
}

abbrev answers : Bool → SetupAnswers
answers subscribes = record {
  failures = record {
    remove_fails = λ f. false;
    copy_fails = λ f. false;
    rename_fails = λ f. false;
  };
  snapshots = [];
  node = record { get_slot = λ t n c. none; comes_up = λ t. up };
  polls = [];
  attempts = [];
  manual_node = record node { subscribes = subscribes };
  writable = true;
  startup = λ c. ok [];
  events = rollup_exited (some true) ∷ [];
  tasks = [];
  show = λ e. "soak";
  show_process = λ e. "process";
  baseline = missing;
  exceeds = λ r s. false;
}

-- The persistent files are those of an earlier run.
abbrev before : World
before = record world {
  disk = record {
    mock = record { base_file = none; shm_file = none; wal_file = none };
    persistent = record { base_file = some "old"; shm_file = none; wal_file = none };
  };
}

abbrev saved : Disk
saved = record {
  mock = record { base_file = none; shm_file = none; wal_file = none };
  persistent = record { base_file = some "new"; shm_file = none; wal_file = none };
}

run_setup_saves : (run_setup json services (answers true) prepared before).1.disk ≡ saved
unfolding run_setup supply_url assert_slots_match_json_excluding_batches check_finalized
    save_slot_snapshot validate_against_snapshot set_txs print
run_setup_saves = refl

run_setup_succeeds : (run_setup json services (answers true) prepared before).0 ≡ ok tt
unfolding run_setup supply_url assert_slots_match_json_excluding_batches check_finalized
    save_slot_snapshot validate_against_snapshot set_txs print
run_setup_succeeds = refl

-- A failure keeps the old files.
run_setup_fails :
    (run_setup json services (answers false) prepared before).1.disk.persistent
    ≡ before.disk.persistent
unfolding run_setup supply_url assert_slots_match_json_excluding_batches check_finalized
    save_slot_snapshot validate_against_snapshot set_txs print
run_setup_fails = refl
