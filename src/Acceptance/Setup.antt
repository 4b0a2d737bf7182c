-- ===== src/Acceptance/Setup.antt =====
-- scripts/acceptance-test/src/bin/setup.rs: the choice between appending to recorded data and a run from
-- genesis, with its checks, and the mock DA's files that outlive a run. `copy_persistent_mock_data` is in
-- scripts/acceptance-test/src/lib.rs.
pub mod Queries
pub mod Manual
pub mod Append
pub mod MockData
mod Tests
use rollup_starter.Common.{
  ℕ, zero, suc, ◌+◌, ◌-◌, Bool, true, false, ◌&&◌, String, List, [], ◌∷◌, Option, none, some,
  Result, ok, err, ltb, ◌==◌, if◌then◌else◌, length, get_elem?, last?,
}
use rollup_starter.Common.Exec.{Exec, pure, ◌>>=◌, ◌>>◌}
use rollup_starter.Acceptance.Plan.Versions.{RollupVersion, RecordedDataBounds, AcceptanceRunPlan}

pub data AppendBoundaryCheck : Type 0 where
  boundary_ok no_snapshots already_contains_last_version incomplete : AppendBoundaryCheck

unfoldable pub classify_append_boundary : Option ℕ → ℕ → AppendBoundaryCheck
classify_append_boundary none prev_stop_height = no_snapshots
classify_append_boundary (some batch) prev_stop_height =
    let expected_max_batch = prev_stop_height - 1 in
    if ltb batch expected_max_batch
    then incomplete
    else if batch == expected_max_batch
    then boundary_ok
    else already_contains_last_version

pub data SetupError : Type 0 where
  rejected : AppendBoundaryCheck → SetupError
  -- The panic of an index out of range or of `expect`.
  panicked : SetupError

abbrev max_batch : Option RecordedDataBounds → Option ℕ
max_batch none = none
max_batch (some bounds) = some (bounds.end_rollup_height - 1)

abbrev accept : AppendBoundaryCheck → Result SetupError (Unit {0})
accept boundary_ok = ok tt
accept check = err (rejected check)

abbrev pub stop_of : Option RollupVersion → Option ℕ
stop_of none = none
stop_of (some v) = v.stop_height

-- In a release build, without the debug assertion.
unfoldable pub validate_append_boundary :
    Option RecordedDataBounds → AcceptanceRunPlan → Result SetupError (Unit {0})
unfolding classify_append_boundary
validate_append_boundary recorded plan =
    elim (stop_of (get_elem? plan.manager_versions (length plan.manager_versions - 2))) [
      | none ↦ err panicked
      | some prev_stop_height ↦
          accept (classify_append_boundary (max_batch recorded) prev_stop_height)
    ]

-- The mode of `prepare_setup_run`: the data to append to, or none for a run from genesis.
unfoldable pub append_onto :
    Bool
    → Option RecordedDataBounds
    → AcceptanceRunPlan
    → Result SetupError (Option RecordedDataBounds)
unfolding validate_append_boundary
append_onto has_persistent_mock_da recorded plan =
    if has_persistent_mock_da && ltb 1 (length plan.manager_versions)
    then (elim (validate_append_boundary recorded plan) [
      | err e ↦ err e
      | ok _ ↦ elim recorded [ none ↦ err panicked | some bounds ↦ ok (some bounds) ]
    ])
    else ok none

-- The files of the mock DA: the database and its two sidecars, each with its contents if it exists.
pub data MockFile : Type 0 where
  base shm wal : MockFile

pub record MockFiles : Type 0 where
  pub base_file : Option String
  pub shm_file : Option String
  pub wal_file : Option String

abbrev pub get : MockFile → MockFiles → Option String
get base fs = fs.base_file
get shm fs = fs.shm_file
get wal fs = fs.wal_file

abbrev pub put : MockFile → Option String → MockFiles → MockFiles
put base c fs = record fs { base_file = c }
put shm c fs = record fs { shm_file = c }
put wal c fs = record fs { wal_file = c }

-- `mock_da.sqlite*` and `persistent_mock_da.sqlite*` of the output directory.
pub record Disk : Type 0 where
  pub mock : MockFiles
  pub persistent : MockFiles

-- The operations that fail for another reason than a missing file.
pub record Failures : Type 0 where
  pub remove_fails : MockFile → Bool
  pub copy_fails : MockFile → Bool
  pub rename_fails : MockFile → Bool

pub data MockError : Type 0 where
  remove_failed copy_failed rename_failed : MockFile → MockError

abbrev pub OnDisk : Type 0
OnDisk = Exec Disk MockError (Unit {0})

module _ (io : Failures) where
  pub remove_stale : MockFile → OnDisk
  remove_stale f d =
      if io.remove_fails f
      then (err (remove_failed f), d)
      else (ok tt, record d { mock = put f none d.mock })

  pub copy_base : OnDisk
  copy_base d = elim d.persistent.base_file as (λ _. Result MockError (Unit {0}) × Disk) [
    | none ↦ (err (copy_failed base), d)
    | some c ↦
        if io.copy_fails base
        then (err (copy_failed base), d)
        else (ok tt, record d { mock = put base (some c) d.mock })
  ]

  pub copy_sidecar : MockFile → OnDisk
  copy_sidecar f d = elim (get f d.persistent) as (λ _. Result MockError (Unit {0}) × Disk) [
    | none ↦ (ok tt, d)
    | some c ↦
        if io.copy_fails f
        then (err (copy_failed f), d)
        else (ok tt, record d { mock = put f (some c) d.mock })
  ]

  unfoldable pub copy_persistent_mock_data : OnDisk
  unfolding remove_stale copy_base copy_sidecar
  copy_persistent_mock_data = do
    remove_stale base
    remove_stale shm
    remove_stale wal
    copy_base
    copy_sidecar shm
    copy_sidecar wal

  -- A rename that fails leaves both files as they are.
  pub rename : MockFile → Disk → Bool × Disk
  rename f d = elim (get f d.mock) as (λ _. Bool × Disk) [
    | none ↦ (false, d)
    | some c ↦
        if io.rename_fails f
        then (false, d)
        else (true, record { mock = put f none d.mock; persistent = put f (some c) d.persistent })
  ]

  abbrev save_base : Bool × Disk → Result MockError (Unit {0}) × Disk
  save_base (true, d) = (ok tt, d)
  save_base (false, d) = (err (rename_failed base), d)

  abbrev save_sidecar : Bool × Disk → Result MockError (Unit {0}) × Disk
  save_sidecar (_, d) = (ok tt, d)

  unfoldable pub save_mock_data : OnDisk
  unfolding rename
  save_mock_data = do
    λ d. save_base (rename base d)
    λ d. save_sidecar (rename shm d)
    λ d. save_sidecar (rename wal d)
