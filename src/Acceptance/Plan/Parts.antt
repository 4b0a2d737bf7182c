-- ===== src/Acceptance/Plan/Parts.antt =====
-- The work on one version in `prepare_acceptance_run_plan` of
-- scripts/acceptance-test/src/versioned_setup.rs: its binaries, its config template and its migration.
pub mod Laws
use rollup_starter.Common.{
  ℕ, Bool, true, false, ◌||◌, String, List, [], ◌∷◌, ◌++◌, Option, none, some, Result, ok, err,
  ◌>>=◌, ◌>>◌, map_ok, ok_or, if◌then◌else◌,
}
use rollup_starter.Common.Text.{◌<>◌, join_with, replace_all}
use rollup_starter.Acceptance.Paths.{FilePath, join, relative}
use rollup_starter.Acceptance.Directories.{Directories}
use rollup_starter.Acceptance.Plan.Sources.{
  VersionSource, remote_commit, local_head, ResolvedVersion,
}
use rollup_starter.Acceptance.Plan.Targets.{
  Artifacts, Tools, PlanError, no_artifacts, no_soak_binary, no_migration_binary,
  migration_not_built, LocalBinaries, Planned, try,
}

-- `Path::display`
display : FilePath → String
unfolding join_with
display p = (if p.is_absolute then "/" else "") <> join_with "/" p.components

unfoldable pub render_config_template : String → String → Directories → String
unfolding replace_all display
render_config_template content password directories =
    let sqlite_path = display (join directories.output_dir (relative "mock_da.sqlite")) in
    let with_password = replace_all content "{password}" password in
    let with_sqlite =
      replace_all with_password "{sqlite_connection_string}"
        ("sqlite://" <> sqlite_path <> "?mode=rwc") in
    replace_all with_sqlite "{rollup_data_path}" (display directories.rollup_data_path)

-- A version to build from a commit, with its flag for the migration.
abbrev pub remote_commits : List ResolvedVersion → List (String × Bool)
remote_commits [] = []
remote_commits (v ∷ vs) = elim v.source [
  | remote_commit commit ↦ (commit, v.build_db_migration) ∷ remote_commits vs
  | local_head ↦ remote_commits vs
]

abbrev pub any_local_migration : List ResolvedVersion → Bool
any_local_migration [] = false
any_local_migration (v ∷ vs) = elim v.source [
  | remote_commit _ ↦ any_local_migration vs
  | local_head ↦ v.build_db_migration || any_local_migration vs
]

-- `VERSION_CONFIG_TEMPLATE_PATH`
abbrev template_path : FilePath
template_path = record {
  is_absolute = false;
  components = "scripts" ∷ "acceptance-test" ∷ "rollup_config.toml" ∷ [];
}

-- What the loop works out for a version: its binaries, its template and its migration.
pub record VersionParts : Type 0 where
  pub rollup_binary : FilePath
  pub soak_binary : FilePath
  pub config_template : String
  pub migration_path : Option FilePath

module _ (tools : Tools) where
  -- A migration path of the spec, against the spec's own directory.
  given_migration : Directories → Option FilePath → Planned tools (Option FilePath)
  given_migration directories none = ok none
  given_migration directories (some path) = do
    found ← try tools (
        tools.canonicalize
          (if path.is_absolute then path else join directories.acceptance_test_dir path))
    ok (some found)

  remote_migration :
      Directories → String → ResolvedVersion → Artifacts → Planned tools (Option FilePath)
  unfolding given_migration
  remote_migration directories commit v a =
      if v.build_db_migration
      then (do
        binary ← ok_or a.db_migration_binary (no_migration_binary commit)
        found ← try tools (tools.canonicalize binary)
        ok (some found))
      else given_migration directories v.migration_path

  remote_parts : Directories → String → ResolvedVersion → Artifacts → Planned tools VersionParts
  unfolding remote_migration
  remote_parts directories commit v a = do
    soak ← ok_or a.soak_binary (no_soak_binary commit)
    template ← try tools (tools.read_text_file_at_commit commit template_path)
    migration ← remote_migration directories commit v a
    rollup_binary ← try tools (tools.canonicalize a.rollup_binary)
    soak_binary ← try tools (tools.canonicalize soak)
    ok (record {
      rollup_binary = rollup_binary;
      soak_binary = soak_binary;
      config_template = template;
      migration_path = migration;
    })

  local_parts : Directories → LocalBinaries → ResolvedVersion → Planned tools VersionParts
  unfolding given_migration
  local_parts directories locals v = do
    migration ←
        if v.build_db_migration
        then map_ok some (ok_or locals.migration_bin migration_not_built)
        else given_migration directories v.migration_path
    template ← try tools (
        tools.read_to_string (join directories.acceptance_test_dir (relative "rollup_config.toml")))
    ok (record {
      rollup_binary = locals.rollup_bin;
      soak_binary = locals.soak_bin;
      config_template = template;
      migration_path = migration;
    })

  -- The parts of a version, and the artifacts that are left for later commits.
  unfoldable pub version_parts :
      Directories
      → LocalBinaries
      → List Artifacts
      → ResolvedVersion
      → Planned tools (VersionParts × List Artifacts)
  unfolding remote_parts local_parts
  version_parts directories locals artifacts v = elim v.source [
    | local_head ↦ map_ok (λ p. (p, artifacts)) (local_parts directories locals v)
    | remote_commit commit ↦ elim artifacts [
      | [] ↦ err (no_artifacts commit)
      | a ∷ rest ↦ map_ok (λ p. (p, rest)) (remote_parts directories commit v a)
    ]
  ]
