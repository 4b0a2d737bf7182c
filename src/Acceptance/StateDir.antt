-- ===== src/Acceptance/StateDir.antt =====
-- The rollup state directory in scripts/acceptance-test/src/config.rs: `prepare_rollup_state_dir`,
-- `cleanup_rollup_state_dir` and their helpers. The state is what lies at the one path that they
-- touch, with the answers of the file system that make a call fail.
pub mod Laws
use rollup_starter.Common.{
  Bool, true, false, ◌&&◌, String, List, [], ◌∷◌, Result, ok, err, if◌then◌else◌,
}
use rollup_starter.Common.Exec.{Exec, pure, ◌>>=◌, ◌>>◌}
use rollup_starter.Acceptance.Settings.{ExistingRollupState, clobber, error, ignore}

-- The removal of an entry: it is gone, or it stays, a directory with what `remove_dir_all` had not taken
-- away of it when it failed.
pub data Removal : Type 0 where
  gone : Removal
  stays : List String → Removal

-- An entry: whether it can be read from the listing, whether its type can be inspected, whether it is a
-- directory, and how its removal goes.
pub record DirEntry : Type 0 where
  pub name : String
  pub is_readable : Bool
  pub is_inspectable : Bool
  pub is_dir : Bool
  pub removal : Removal
  -- What a directory holds.
  pub contents : List String

pub data PathState : Type 0 where
  absent : PathState
  -- `metadata` fails with an error other than `NotFound`.
  uninspectable : PathState
  plain_file : PathState
  -- Whether `read_dir` works, and what it lists.
  directory : Bool → List DirEntry → PathState

pub data StateDirError : Type 0 where
  not_a_directory inspect_failed create_failed list_failed entry_failed not_empty : StateDirError
  remove_dir_failed remove_file_failed : String → StateDirError

-- The loop over the entries. It stops at the first failure: what it has removed is gone.
pub clear_entries : List DirEntry → Result StateDirError (Unit {0}) × List DirEntry
clear_entries [] = (ok tt, [])
clear_entries (e ∷ rest) =
    let done = clear_entries rest in
    if e.is_readable && e.is_inspectable
    then (elim e.removal as (λ _. Result StateDirError (Unit {0}) × List DirEntry) [
      | gone ↦ done
      | stays left ↦
          if e.is_dir
          then (err (remove_dir_failed e.name), record e { contents = left } ∷ rest)
          else (err (remove_file_failed e.name), e ∷ rest)
    ])
    else (err entry_failed, e ∷ rest)

abbrev with_entries :
    Result StateDirError (Unit {0}) × List DirEntry → Result StateDirError (Unit {0}) × PathState
with_entries (r, left) = (r, directory true left)

unfoldable pub clear_directory : Exec PathState StateDirError (Unit {0})
unfolding clear_entries
clear_directory (directory true entries) = with_entries (clear_entries entries)
clear_directory s = (err list_failed, s)

unfoldable pub ensure_directory_empty : Exec PathState StateDirError (Unit {0})
ensure_directory_empty (directory true []) = (ok tt, directory true [])
ensure_directory_empty (directory true (e ∷ es)) =
    (err (if e.is_readable then not_empty else entry_failed), directory true (e ∷ es))
ensure_directory_empty s = (err list_failed, s)

-- `create_dir_all`, which succeeds on a directory. The flag is whether the path can be created.
unfoldable pub create_dir_all : Bool → Exec PathState StateDirError (Unit {0})
create_dir_all can_create absent =
    if can_create then (ok tt, directory true []) else (err create_failed, absent)
create_dir_all can_create (directory listable entries) = (ok tt, directory listable entries)
create_dir_all can_create s = (err create_failed, s)

pub apply_policy : ExistingRollupState → Exec PathState StateDirError (Unit {0})
unfolding clear_directory ensure_directory_empty
apply_policy clobber = clear_directory
apply_policy error = ensure_directory_empty
apply_policy ignore = pure tt

unfoldable pub prepare_rollup_state_dir :
    Bool → ExistingRollupState → Exec PathState StateDirError (Unit {0})
unfolding apply_policy create_dir_all
prepare_rollup_state_dir can_create policy absent = create_dir_all can_create absent
prepare_rollup_state_dir can_create policy uninspectable = (err inspect_failed, uninspectable)
prepare_rollup_state_dir can_create policy plain_file = (err not_a_directory, plain_file)
prepare_rollup_state_dir can_create policy (directory listable entries) =
    (apply_policy policy >> create_dir_all can_create) (directory listable entries)

unfoldable pub cleanup_rollup_state_dir : Exec PathState StateDirError (Unit {0})
unfolding clear_directory
cleanup_rollup_state_dir absent = (ok tt, absent)
cleanup_rollup_state_dir uninspectable = (err inspect_failed, uninspectable)
cleanup_rollup_state_dir plain_file = (err not_a_directory, plain_file)
cleanup_rollup_state_dir (directory listable entries) = clear_directory (directory listable entries)
