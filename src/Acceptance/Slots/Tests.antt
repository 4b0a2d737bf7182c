-- ===== src/Acceptance/Slots/Tests.antt =====
-- Slots as their own JSON, and runs of the monitor and the fetcher on them.
use rollup_starter.Common.{
  ℕ, Bool, true, false, ◌&&◌, List, [], ◌∷◌, Option, none, some, ok, ◌≡◌, refl, All, if◌then◌else◌,
}
use rollup_starter.Acceptance.Slots.{
  Slot, LedgerBatch, Json, batches_eq, slots_match, assert_slots_match_excluding_batches,
  assert_slots_match_json_excluding_batches,
}
use rollup_starter.Acceptance.Slots.Monitor.{
  do_nothing, SlotMonitor, Delivery, monitor, check_finalized,
}
use rollup_starter.Acceptance.Slots.Monitor.Laws.{AllPass, monitor-AllPass}
use rollup_starter.Acceptance.Slots.Fetcher.{
  Client, Children, x1, fetch_and_compare_batch, fetch_and_compare_slot,
}
use rollup_starter.Acceptance.Slots.Fetcher.Laws.{
  BatchAgrees, SlotAgrees, fetch_and_compare_slot-SlotAgrees,
}

abbrev pub slot_of : ℕ → ℕ × ℕ → List LedgerBatch → Slot
slot_of n range batches = record {
  number = n;
  batch_range = range;
  finality_status = "finalized";
  hash = "h";
  state_root = "r";
  timestamp = 7;
  type_ = "slot";
  batches = batches;
}

abbrev batch : LedgerBatch
batch = record { number = 4; hash = "b"; tx_range = (0, 1); txs = "t" ∷ []; receipt = "ok" }

abbrev plain_batch : LedgerBatch
plain_batch = record { number = 4; hash = "b"; tx_range = (0, 1); txs = []; receipt = "ok" }

abbrev pub slot_json : Json
slot_json = record {
  Value = Slot;
  null = slot_of 0 (0, 0) [];
  json_eq = λ a b. slots_match a b && batches_eq a.batches b.batches;
  get = λ key v. some v;
  set = λ key root v. record v { state_root = root.state_root };
  remove = λ key v. record v { batches = [] };
  to_value = λ s. s;
  from_value = λ v. some v;
  to_string_pretty = λ v. v.hash;
  from_str = λ s. some (slot_of 0 (0, 0) []);
}

abbrev delivery : ℕ → Option Delivery
delivery n = some (record {
  slot = slot_of n (4, 5) [];
  slot_with_children = slot_of n (4, 5) (batch ∷ []);
  finalized = slot_of 1 (4, 4) [];
  finalized_with_children = slot_of 1 (4, 4) [];
})

abbrev fresh : SlotMonitor
fresh = record { prev_slot_with_children = none; expected_slot_number = none; snapshots = [] }

abbrev after_two : SlotMonitor
after_two = record {
  prev_slot_with_children = some (slot_of 3 (4, 5) (batch ∷ []));
  expected_slot_number = some 4;
  snapshots = [];
}

monitor_runs :
    monitor slot_json true do_nothing (delivery 2 ∷ delivery 3 ∷ []) fresh ≡ (ok tt, after_two)
unfolding monitor check_finalized slots_match batches_eq assert_slots_match_excluding_batches
    assert_slots_match_json_excluding_batches
monitor_runs = refl

monitor-AllPass_example : AllPass none none (delivery 2 ∷ delivery 3 ∷ [])
monitor-AllPass_example =
    monitor-AllPass slot_json true do_nothing (delivery 2 ∷ delivery 3 ∷ []) fresh after_two
      monitor_runs

abbrev with_children : Children → Bool
with_children x1 = true
with_children _ = false

abbrev client : Client
client = record {
  get_batch_by_number = λ n c. some (if with_children c then batch else plain_batch);
  get_batch_by_hash = λ h c. some (if with_children c then batch else plain_batch);
  get_slot_by_number = λ n c. some (slot_of 2 (4, 5) (if with_children c then batch ∷ [] else []));
  get_slot_by_hash = λ h c. some (slot_of 2 (4, 5) (if with_children c then batch ∷ [] else []));
}

batch_runs : fetch_and_compare_batch client 4 ≡ ok batch
unfolding fetch_and_compare_batch
batch_runs = refl

slot_runs :
    fetch_and_compare_slot client slot_json true 2 do_nothing []
    ≡ ok (slot_of 2 (4, 5) (batch ∷ []), [])
unfolding fetch_and_compare_slot slots_match batches_eq assert_slots_match_json_excluding_batches
slot_runs = refl

fetch_and_compare_slot-SlotAgrees_example :
    SlotAgrees client 2 (slot_of 2 (4, 5) (batch ∷ []))
    × All (λ b. BatchAgrees client b.number b) (batch ∷ [])
fetch_and_compare_slot-SlotAgrees_example =
    fetch_and_compare_slot-SlotAgrees client slot_json true 2 do_nothing [] []
      (slot_of 2 (4, 5) (batch ∷ [])) slot_runs
