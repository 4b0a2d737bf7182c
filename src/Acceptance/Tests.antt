-- ===== src/Acceptance/Tests.antt =====
-- Runs of the directories, the state directory and the version sources on small inputs.
use rollup_starter.Common.{
  if◌then◌else◌, Bool, true, false, String, List, [], ◌∷◌, none, some, Result, ok, err, ◌≡◌, refl,
}
use rollup_starter.Acceptance.Paths.{FilePath, parent, absolutize_from_cwd, join}
use rollup_starter.Acceptance.Settings.{
  CommonArgs, ResolvedRunSettings, from_common_args, subdir, clobber, error,
}
use rollup_starter.Acceptance.Directories.{Directories, from_settings}
use rollup_starter.Acceptance.Directories.Laws.{AllAbsolute, RootOf, from_settings-AllAbsolute}
use rollup_starter.Acceptance.StateDir.{
  gone, stays, DirEntry, PathState, directory, not_empty, remove_dir_failed,
  prepare_rollup_state_dir, cleanup_rollup_state_dir,
}
use rollup_starter.Acceptance.StateDir.Laws.{
  empty_dir, FailedLeaves, prepare_rollup_state_dir-Prepared, prepare_rollup_state_dir-FailedLeaves,
  healthy_directory,
}
use rollup_starter.Acceptance.Plan.Sources.{
  remote_commit, local_head, ResolvedVersion, VersionSpecEntry, load_version_sources, resolve_entry,
}
use rollup_starter.Acceptance.Plan.Sources.Laws.{IsResolved, load_version_sources-IsResolved}

abbrev abs : List String → FilePath
abs cs = record { is_absolute = true; components = cs }

abbrev rel : List String → FilePath
rel cs = record { is_absolute = false; components = cs }

abbrev args : CommonArgs
args = record {
  short = true;
  acceptance_data_dir = some (rel ("data" ∷ []));
  acceptance_throughput_dir = none;
  rollup_state_dir = none;
  on_existing_rollup_state = clobber;
  postgres_docker_container_name = none;
  binary_cache_dir = none;
}

abbrev settings : ResolvedRunSettings
unfolding from_common_args
settings = from_common_args args

abbrev always_dir : FilePath → Result String Bool
always_dir p = ok true

abbrev created : FilePath → Result String (Unit {0})
created p = ok tt

abbrev here : FilePath
here = abs ("repo" ∷ [])

abbrev harness : FilePath
harness = rel ("scripts" ∷ "acceptance-test" ∷ [])

abbrev in_repo : List String → FilePath
in_repo cs = abs ("repo" ∷ cs)

abbrev in_harness : List String → FilePath
in_harness cs = in_repo ("scripts" ∷ "acceptance-test" ∷ cs)

abbrev here_layout : Directories
here_layout = record {
  rollup_root = here;
  acceptance_test_dir = in_harness [];
  rollup_build_cache_dir = in_harness ("rollup-build-cache" ∷ []);
  manager_build_dir = in_harness ("rollup-manager-build" ∷ []);
  output_dir = in_repo ("data" ∷ "short" ∷ []);
  rollup_data_path = in_repo ("data" ∷ "short" ∷ "rollup-starter-data" ∷ []);
  snapshots_dir = in_repo ("data" ∷ "short" ∷ "snapshots" ∷ []);
  throughput_dir = in_harness ("acceptance-throughput" ∷ "short" ∷ []);
}

abbrev here_made : List FilePath
here_made =
    here_layout.throughput_dir ∷ here_layout.snapshots_dir ∷ here_layout.output_dir
    ∷ here_layout.rollup_build_cache_dir ∷ []

from_settings_runs :
    from_settings always_dir created settings harness here [] ≡ (ok here_layout, here_made)
unfolding from_settings parent absolutize_from_cwd settings subdir
from_settings_runs = refl

from_settings-AllAbsolute_example :
    AllAbsolute here_layout
    × RootOf here_layout.acceptance_test_dir here_layout.rollup_root
    × (here_made ≡ here_made)
from_settings-AllAbsolute_example =
    from_settings-AllAbsolute always_dir created settings harness here here_layout here_made refl
      from_settings_runs

abbrev entry : String → Bool → DirEntry
entry n removable = record {
  name = n;
  is_readable = true;
  is_inspectable = true;
  is_dir = true;
  removal = if removable then gone else stays ("left" ∷ []);
  contents = "left" ∷ "taken" ∷ [];
}

abbrev damaged : DirEntry
damaged = record (entry "b" false) { contents = "left" ∷ [] }

abbrev stale : PathState
stale = directory true (entry "a" true ∷ entry "b" true ∷ [])

abbrev stuck : PathState
stuck = directory true (entry "a" true ∷ entry "b" false ∷ [])

prepare_runs : prepare_rollup_state_dir true clobber stale ≡ (ok tt, empty_dir)
unfolding prepare_rollup_state_dir
prepare_runs = refl

prepare_fails :
    prepare_rollup_state_dir true clobber stuck
    ≡ (err (remove_dir_failed "b"), directory true (damaged ∷ []))
unfolding prepare_rollup_state_dir
prepare_fails = refl

cleanup_runs : cleanup_rollup_state_dir stale ≡ (ok tt, empty_dir)
unfolding cleanup_rollup_state_dir
cleanup_runs = refl

prepare_rollup_state_dir-Prepared_example : empty_dir ≡ empty_dir
prepare_rollup_state_dir-Prepared_example =
    prepare_rollup_state_dir-Prepared true clobber stale empty_dir prepare_runs

prepare_rollup_state_dir-FailedLeaves_example :
    FailedLeaves clobber stuck (directory true (damaged ∷ []))
prepare_rollup_state_dir-FailedLeaves_example =
    prepare_rollup_state_dir-FailedLeaves true clobber stuck _ (remove_dir_failed "b") prepare_fails

healthy_directory_example :
    (prepare_rollup_state_dir true clobber stale ≡ (ok tt, empty_dir))
    × (cleanup_rollup_state_dir stale ≡ (ok tt, empty_dir))
    × (prepare_rollup_state_dir true error stale ≡ (err not_empty, stale))
    × (prepare_rollup_state_dir true error empty_dir ≡ (ok tt, empty_dir))
healthy_directory_example =
    healthy_directory true (entry "a" true) (entry "b" true ∷ [])
      ((refl, refl, refl), ((refl, refl, refl), tt))

-- A spec of two versions, whose variables are the texts of their files.
abbrev spec : List VersionSpecEntry
spec =
    record {
      version_id = "v0";
      vars_file = rel ("v0" ∷ []);
      migration_path = none;
      build_db_migration = false;
    }
    ∷ record {
      version_id = "v1";
      vars_file = rel ("v1" ∷ []);
      migration_path = none;
      build_db_migration = true;
    }
    ∷ []

abbrev read_file : FilePath → Result String String
read_file p = ok "abc"

abbrev parse_file : String → Result String String
parse_file s = ok s

abbrev parse_versions : String → Result String (List VersionSpecEntry)
parse_versions s = ok spec

abbrev spec_there : FilePath → Bool
spec_there p = true

abbrev two_versions : List ResolvedVersion
two_versions =
    record { source = remote_commit "abc"; migration_path = none; build_db_migration = false }
    ∷ record { source = local_head; migration_path = none; build_db_migration = true }
    ∷ []

load_runs :
    load_version_sources read_file parse_file spec_there parse_versions (in_harness [])
    ≡ ok two_versions
unfolding load_version_sources join resolve_entry
load_runs = refl

load_version_sources-IsResolved_example : IsResolved two_versions
load_version_sources-IsResolved_example =
    load_version_sources-IsResolved read_file parse_file spec_there parse_versions (in_harness [])
      two_versions load_runs
