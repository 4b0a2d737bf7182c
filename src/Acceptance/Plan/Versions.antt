-- ===== src/Acceptance/Plan/Versions.antt =====
-- The versions of a run in scripts/acceptance-test/src/versioned_setup.rs: their heights, the plan
-- and its methods, and the configurations derived from it. Heights are `u64`, salts are `u32`; their
-- arithmetic wraps, as in a release build.
pub mod Heights
pub mod Soak
pub mod Extend
use rollup_starter.Common.{
  ℕ, zero, suc, ◌+◌, ◌-◌, ◌*◌, ◌/◌, ◌%◌, ◌^◌, Bool, true, false, not, ◌&&◌, ◌||◌, List, [], ◌∷◌,
  Option, none, some, map, Result, ok, err, ltb, ◌==◌, if◌then◌else◌, length, last?, add64, mul64,
}
use rollup_starter.Acceptance.Paths.{FilePath}

-- `sov_rollup_manager::RollupVersion`
pub record RollupVersion : Type 0 where
  pub rollup_binary : FilePath
  pub config_path : FilePath
  pub migration_path : Option FilePath
  pub start_height : Option ℕ
  pub stop_height : Option ℕ

-- `sov_soak_manager::SoakManagerConfig`, its worker configuration among its fields.
pub record SoakManagerConfig : Type 0 where
  pub num_workers : ℕ
  pub salt : ℕ
  pub versions : List (FilePath × ℕ)
  pub safety_stop_blocks : ℕ

pub record RecordedDataBounds : Type 0 where
  pub last_slot_number : ℕ
  pub end_rollup_height : ℕ

pub record AcceptanceRunPlan : Type 0 where
  pub manager_binary : FilePath
  pub manager_versions : List RollupVersion
  pub soak_config : SoakManagerConfig
  pub recorded_data : Option RecordedDataBounds
  pub blocks_per_version : ℕ

unfoldable pub expected_setup_batches : AcceptanceRunPlan → ℕ
expected_setup_batches plan =
    (elim plan.recorded_data as (λ _. ℕ) [
      | some bounds ↦ bounds.end_rollup_height
      | none ↦ plan.blocks_per_version
    ])
    - 1

unfoldable pub last_recorded_slot : AcceptanceRunPlan → Option ℕ
last_recorded_slot plan = elim plan.recorded_data [
  | some bounds ↦ some bounds.last_slot_number
  | none ↦ none
]

-- `first..first + count`
abbrev pub range_from : ℕ → ℕ → List ℕ
range_from first zero = []
range_from first (suc count) = first ∷ range_from (first + 1) count

unfoldable pub migration_boundary_batch_counts : AcceptanceRunPlan → List ℕ
migration_boundary_batch_counts plan =
    map (λ k. mul64 k plan.blocks_per_version) (range_from 1 (length plan.manager_versions - 1))

-- The two heights that the loop gives to the version at an index.
unfoldable pub stop_height_of : ℕ → ℕ → ℕ
stop_height_of idx blocks = mul64 (add64 idx 1) blocks

unfoldable pub start_height_of : ℕ → ℕ → Option ℕ
start_height_of zero blocks = none
start_height_of (suc idx) blocks = some (add64 (mul64 (suc idx) blocks) 1)

-- The check of the recorded data against the number of versions, and the panic of `%` by 0.
pub data RecordedCheck : Type 0 where
  in_sync out_of_sync division_by_zero : RecordedCheck

unfoldable pub check_recorded : Option RecordedDataBounds → ℕ → ℕ → RecordedCheck
check_recorded none num_versions blocks = in_sync
check_recorded (some bounds) num_versions blocks =
    let last = bounds.end_rollup_height in
    if blocks == 0
    then division_by_zero
    else if not (last % blocks == 0)
        || ltb (last / blocks) (num_versions - 1)
        || ltb num_versions (last / blocks)
    then out_of_sync
    else in_sync

abbrev pub u32_mod : ℕ
u32_mod = 2 ^ 32

unfoldable pub last_version_soak_config : SoakManagerConfig → Option SoakManagerConfig
last_version_soak_config c = elim (last? c.versions) [
  | none ↦ none
  | some (last_binary, last_stop_height) ↦ some (record c {
    salt = (c.salt + c.num_workers * (length c.versions % u32_mod - 1) % u32_mod) % u32_mod;
    versions = (last_binary, last_stop_height) ∷ [];
  })
]

-- The panic of `expect` on a version with no stop height.
pub data Extended : Type 0 where
  extended : List RollupVersion → Extended
  no_stop_height : Extended

extend_stop : ℕ → RollupVersion → Extended
extend_stop extra v = elim v.stop_height [
  | none ↦ no_stop_height
  | some stop ↦ extended (record v { stop_height = some (add64 stop extra) } ∷ [])
]

abbrev cons_extended : RollupVersion → Extended → Extended
cons_extended v (extended vs) = extended (v ∷ vs)
cons_extended v no_stop_height = no_stop_height

extend_last : ℕ → List RollupVersion → Extended
extend_last extra [] = extended []
extend_last extra (v ∷ []) = extend_stop extra v
extend_last extra (v ∷ w ∷ vs) = cons_extended v (extend_last extra (w ∷ vs))

unfoldable pub extend_last_stop_height : List RollupVersion → ℕ → Extended
unfolding extend_last extend_stop
extend_last_stop_height versions extra_blocks =
    if extra_blocks == 0 then extended versions else extend_last extra_blocks versions
