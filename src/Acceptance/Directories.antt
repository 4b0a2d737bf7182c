-- ===== src/Acceptance/Directories.antt =====
-- `Directories` of scripts/acceptance-test/src/lib.rs. `metadata` and `create_dir_all` are the file
-- system's answers; the state is the list of directories that were created, the last one first.
pub mod Laws
use rollup_starter.Common.{
  Bool, true, false, String, List, [], ◌∷◌, Option, none, some, if◌then◌else◌, Result, ok, err,
  map_err, ok_or, ensure,
}
use rollup_starter.Common.Exec.{Exec, pure, raise, lift, ◌>>=◌, ◌>>◌}
use rollup_starter.Acceptance.Paths.{FilePath, join, relative, parent, absolutize_from_cwd}
use rollup_starter.Acceptance.Settings.{ResolvedRunSettings, subdir}

pub record Directories : Type 0 where
  pub rollup_root : FilePath
  pub acceptance_test_dir : FilePath
  pub rollup_build_cache_dir : FilePath
  pub manager_build_dir : FilePath
  pub output_dir : FilePath
  pub rollup_data_path : FilePath
  pub snapshots_dir : FilePath
  pub throughput_dir : FilePath

-- The failures, and the panic of `parent().unwrap()`.
pub data DirectoryError (IoError : Type 0) : Type 0 where
  does_not_exist : FilePath → IoError → DirectoryError IoError
  not_a_directory : FilePath → DirectoryError IoError
  no_parent : DirectoryError IoError
  create_failed : FilePath → IoError → DirectoryError IoError

-- A path of the user, against the invocation's directory, or the default.
abbrev pub user_path : Option FilePath → FilePath → FilePath → FilePath
user_path none cwd default = default
user_path (some path) cwd default = absolutize_from_cwd path cwd

-- The paths that `from_settings` works out, before it creates some of them.
pub layout : ResolvedRunSettings → FilePath → FilePath → FilePath → Directories
layout settings acceptance_test_dir rollup_root cwd =
    let output_root =
      user_path settings.acceptance_data_dir cwd
        (join acceptance_test_dir (relative "acceptance-test-data")) in
    let output_dir = join output_root (relative (subdir settings.profile)) in
    let throughput_root =
      user_path settings.acceptance_throughput_dir cwd
        (join acceptance_test_dir (relative "acceptance-throughput")) in
    record {
      rollup_root = rollup_root;
      acceptance_test_dir = acceptance_test_dir;
      rollup_build_cache_dir =
          user_path settings.binary_cache_dir cwd
            (join acceptance_test_dir (relative "rollup-build-cache"));
      manager_build_dir = join acceptance_test_dir (relative "rollup-manager-build");
      output_dir = output_dir;
      rollup_data_path =
          user_path settings.rollup_state_dir cwd
            (join output_dir (relative "rollup-starter-data"));
      snapshots_dir = join output_dir (relative "snapshots");
      throughput_dir = join throughput_root (relative (subdir settings.profile));
    }

module _ {IoError : Type 0} (is_dir : FilePath → Result IoError Bool)
    (create_dir : FilePath → Result IoError (Unit {0})) where
  pub create_dir_all : FilePath → Exec (List FilePath) (DirectoryError IoError) (Unit {0})
  create_dir_all path made = elim (create_dir path) [
    | ok _ ↦ (ok tt, path ∷ made)
    | err e ↦ (err (create_failed path e), made)
  ]

  pub create_directories : Directories → Exec (List FilePath) (DirectoryError IoError) Directories
  unfolding create_dir_all
  create_directories d = do
    create_dir_all d.rollup_build_cache_dir
    create_dir_all d.output_dir
    create_dir_all d.snapshots_dir
    create_dir_all d.throughput_dir
    pure d

  -- `metadata` fails, or says whether the path is a directory.
  pub check_root : FilePath → Result (DirectoryError IoError) FilePath
  check_root path = elim (is_dir path) [
    | err e ↦ err (does_not_exist path e)
    | ok false ↦ err (not_a_directory path)
    | ok true ↦ elim (parent path) [
      | none ↦ err no_parent
      | some scripts ↦ ok_or (parent scripts) no_parent
    ]
  ]

  unfoldable pub from_settings :
      ResolvedRunSettings
      → FilePath
      → FilePath
      → Exec (List FilePath) (DirectoryError IoError) Directories
  unfolding create_directories check_root layout
  from_settings settings dir cwd = do
    let acceptance_test_dir = absolutize_from_cwd dir cwd
    rollup_root ← lift (check_root acceptance_test_dir)
    create_directories (layout settings acceptance_test_dir rollup_root cwd)
