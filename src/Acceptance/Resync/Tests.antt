-- ===== src/Acceptance/Resync/Tests.antt =====
-- A resync of three recorded slots.
use rollup_starter.Common.{
  ℕ, zero, suc, ◌≤◌, ◌<◌, true, ◌&&◌, String, [], ◌∷◌, Option, none, some, err, ◌≡◌, refl, ◌⊎◌, inl,
  inr, str_eq, ◌==◌, if◌then◌else◌, arith,
}
use rollup_starter.Acceptance.Slots.{
  Slot, Json, Files, batches_eq, slots_match, load_snapshot_json, compare_against_snapshot,
}
use rollup_starter.Acceptance.Slots.Tests.{slot_of}
use rollup_starter.Acceptance.Plan.Versions.{
  AcceptanceRunPlan, expected_setup_batches, last_recorded_slot,
}
use rollup_starter.Acceptance.Resync.{
  up, arrived, ResyncError, slot, ended, failed, Node, resynced, gave_up, no_progress,
  expected_snapshot, is_migration_boundary, resync_and_verify_slots, resync, start,
}
use rollup_starter.Acceptance.Resync.Laws.{Ends}
use rollup_starter.Acceptance.Resync.Verified.{Checked, resync_and_verify_slots-Checked}
use rollup_starter.Acceptance.Resync.Serving.{Serves, Early}
use rollup_starter.Acceptance.Resync.Live.{
  reconnect_after_handover-no_progress, resync_and_verify_slots_finishes,
}
use rollup_starter.Acceptance.Paths.{FilePath}

abbrev recorded : ℕ → Slot
recorded n = slot_of n (if n == 2 then (1, 2) else (0, 1)) []

-- The text of a file is the number of its slot.
abbrev parse : String → Option Slot
parse s = some (recorded (if str_eq s "2" then 2 else 1))

abbrev json : Json
json = record {
  Value = Slot;
  null = slot_of 0 (0, 0) [];
  json_eq = λ a b. slots_match a b && batches_eq a.batches b.batches;
  get = λ key v. some v;
  set = λ key root v. record v { state_root = root.state_root };
  remove = λ key v. record v { batches = [] };
  to_value = λ s. s;
  from_value = λ v. some v;
  to_string_pretty = λ v. v.hash;
  from_str = parse;
}

abbrev files : Files
files = (1, "1") ∷ (2, "2") ∷ []

abbrev bin : FilePath
bin = record { is_absolute = true; components = [] }

abbrev plan : AcceptanceRunPlan
plan = record {
  manager_binary = bin;
  manager_versions = [];
  soak_config = record { num_workers = 1; salt = 3; versions = []; safety_stop_blocks = 5 };
  recorded_data = some (record { last_slot_number = 2; end_rollup_height = 2 });
  blocks_per_version = 2;
}

abbrev node : Node
node = record { get_slot = λ t n c. some (recorded n); comes_up = λ t. up }

recorded_1-Serves : Serves json files plan node 1 (recorded 1)
unfolding slots_match batches_eq load_snapshot_json compare_against_snapshot is_migration_boundary
    expected_snapshot
recorded_1-Serves = (recorded 1, recorded 1, refl, refl, λ t. refl, refl)

recorded_2-Serves : Serves json files plan node 2 (recorded 2)
unfolding slots_match batches_eq load_snapshot_json compare_against_snapshot is_migration_boundary
    expected_snapshot
recorded_2-Serves = (recorded 2, recorded 2, refl, refl, λ t. refl, refl)

zero-Early : Early json files plan node 0
unfolding load_snapshot_json
zero-Early = (omega arith, refl)

before :
    (k : ℕ) → k < 2 → Early json files plan node k ⊎ ((r : Slot) × Serves json files plan node k r)
before zero h = inl zero-Early
before (suc zero) h = inr (recorded 1, recorded_1-Serves)
before (suc (suc k)) h = absurd (omega arith)

resync_and_verify_slots_finishes_example :
    resync_and_verify_slots json files plan node
      (slot 1 ∷ ended ∷ slot 0 ∷ failed ∷ slot 4 ∷ ended ∷ [])
    ≡ resynced 1 3
unfolding expected_setup_batches last_recorded_slot
resync_and_verify_slots_finishes_example =
    resync_and_verify_slots_finishes json files plan node 2 (recorded 2) refl recorded_2-Serves
      (slot 1 ∷ ended ∷ slot 0 ∷ failed ∷ []) 4 (ended ∷ [])
      (omega arith, (refl, (omega arith, (refl, tt)))) (omega arith) (omega arith) (λ t. refl)
      (omega arith) before

resync_and_verify_slots-Checked_example :
    Ends json files plan node 3 × (expected_setup_batches plan ≤ 1) × Checked json files plan node 1
resync_and_verify_slots-Checked_example =
    resync_and_verify_slots-Checked json files plan node
      (slot 1 ∷ ended ∷ slot 0 ∷ failed ∷ slot 4 ∷ ended ∷ []) 1 3 1
      resync_and_verify_slots_finishes_example (omega arith)

reconnect_after_handover-no_progress_example :
    let outcome =
      resync json files plan node (ended ∷ failed ∷ slot 4 ∷ []) (start json files plan node) in
    ((outcome ≡ gave_up no_progress) × (◌≡◌ {A = Option ℕ} none (some 0) ⊎ (up ≡ up)))
    ⊎ ((x : ResyncError) × (arrived up ≡ err x) × (outcome ≡ gave_up x))
reconnect_after_handover-no_progress_example =
    reconnect_after_handover-no_progress json files plan node ended failed (slot 4 ∷ [])
      (start json files plan node) tt tt
