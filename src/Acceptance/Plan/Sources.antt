-- ===== src/Acceptance/Plan/Sources.antt =====
-- `load_version_sources` of scripts/acceptance-test/src/versioned_setup.rs. The file system and the
-- YAML parser are arguments; a parsed spec is the list of its entries.
pub mod Laws
use Prim.Native.Char.{Char, code}
use rollup_starter.Common.{
  ℕ, Bool, true, false, not, ◌&&◌, ◌||◌, String, List, [], ◌∷◌, Option, none, some, Result, ok, err,
  ◌>>=◌, ◌>>◌, map_err, ensure, ok_or, leb, ◌==◌, if◌then◌else◌,
}
use rollup_starter.Acceptance.Paths.{FilePath, join, relative, parent}

pub data VersionSource : Type 0 where
  remote_commit : String → VersionSource
  local_head : VersionSource

pub record ResolvedVersion : Type 0 where
  pub source : VersionSource
  pub migration_path : Option FilePath
  pub build_db_migration : Bool

pub record VersionSpecEntry : Type 0 where
  pub version_id : String
  pub vars_file : FilePath
  pub migration_path : Option FilePath
  pub build_db_migration : Bool

pub data SourceError (IoError YamlError : Type 0) : Type 0 where
  spec_unreadable : IoError → SourceError IoError YamlError
  spec_malformed : YamlError → SourceError IoError YamlError
  no_parent : SourceError IoError YamlError
  vars_unreadable : String → FilePath → IoError → SourceError IoError YamlError
  vars_malformed : String → FilePath → YamlError → SourceError IoError YamlError
  missing_commit : String → FilePath → SourceError IoError YamlError
  two_migrations : String → SourceError IoError YamlError

-- `char::is_whitespace`
is_whitespace : ℕ → Bool
is_whitespace c =
    (leb 9 c && leb c 13)
    || c == 0x20
    || c == 0x85
    || c == 0xa0
    || c == 0x1680
    || (leb 0x2000 c && leb c 0x200a)
    || c == 0x2028
    || c == 0x2029
    || c == 0x202f
    || c == 0x205f
    || c == 0x3000

-- `s.trim().is_empty()`
pub is_blank : String → Bool
unfolding is_whitespace
is_blank String.[] = true
is_blank (String.◌∷◌ c s) = is_whitespace (code c) && is_blank s

abbrev pub is_some : {A : Type 0} → Option A → Bool
is_some none = false
is_some (some a) = true

-- What a run without versions of its own consists of.
abbrev pub local_version : ResolvedVersion
local_version = record { source = local_head; migration_path = none; build_db_migration = false }

-- `last.source = LocalHead`, or the local version alone.
pub localize_last : List ResolvedVersion → List ResolvedVersion
localize_last [] = local_version ∷ []
localize_last (v ∷ []) = record v { source = local_head } ∷ []
localize_last (v ∷ w ∷ rest) = v ∷ localize_last (w ∷ rest)

abbrev pub spec_file : String
spec_file = "versions.yaml"

module _ {IoError YamlError : Type 0} (read_to_string : FilePath → Result IoError String)
    (parse_vars : String → Result YamlError String) where
  abbrev pub Fallible : Type 0 → Type 0
  Fallible A = Result (SourceError IoError YamlError) A

  unfoldable pub resolve_entry : FilePath → VersionSpecEntry → Fallible ResolvedVersion
  unfolding is_blank join
  resolve_entry spec_dir entry = do
    let vars_path =
        if entry.vars_file.is_absolute then entry.vars_file else join spec_dir entry.vars_file
    contents ← map_err (vars_unreadable entry.version_id vars_path) (read_to_string vars_path)
    commit ← map_err (vars_malformed entry.version_id vars_path) (parse_vars contents)
    ensure (not (is_blank commit)) (missing_commit entry.version_id vars_path)
    ensure (not (entry.build_db_migration && is_some entry.migration_path))
        (two_migrations entry.version_id)
    ok (record {
      source = remote_commit commit;
      migration_path = entry.migration_path;
      build_db_migration = entry.build_db_migration;
    })

  -- The loop over the entries stops at the first error.
  unfoldable pub resolve_entries :
      FilePath → List VersionSpecEntry → Fallible (List ResolvedVersion)
  resolve_entries spec_dir [] = ok []
  resolve_entries spec_dir (entry ∷ entries) = do
    version ← resolve_entry spec_dir entry
    versions ← resolve_entries spec_dir entries
    ok (version ∷ versions)

  module _ (exists : FilePath → Bool)
      (parse_spec : String → Result YamlError (List VersionSpecEntry)) where
    pub load_spec : FilePath → Fallible (List ResolvedVersion)
    unfolding resolve_entries localize_last parent
    load_spec spec_path = do
      contents ← map_err spec_unreadable (read_to_string spec_path)
      entries ← map_err spec_malformed (parse_spec contents)
      spec_dir ← ok_or (parent spec_path) no_parent
      versions ← resolve_entries spec_dir entries
      ok (localize_last versions)

    unfoldable pub load_version_sources : FilePath → Fallible (List ResolvedVersion)
    unfolding load_spec
    load_version_sources acceptance_test_dir =
        let spec_path = join acceptance_test_dir (relative spec_file) in
        if exists spec_path then load_spec spec_path else ok (local_version ∷ [])
