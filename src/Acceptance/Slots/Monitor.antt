-- ===== src/Acceptance/Slots/Monitor.antt =====
-- `SlotMonitor` of scripts/acceptance-test/src/fetch_and_compare.rs: four subscriptions that must agree.
pub mod Laws
use rollup_starter.Common.{
  ℕ, ◌+◌, Bool, true, false, not, ◌&&◌, ◌||◌, String, List, [], ◌∷◌, Option, none, some, Result, ok,
  err, ◌==◌, ensure, ok_or, if◌then◌else◌, add64,
}
use rollup_starter.Common.Exec.{Exec, pure, raise, lift, ◌>>=◌, ◌>>◌}
use rollup_starter.Acceptance.Slots.{
  Slot, Json, Files, SlotError, panicked, out_of_sequence, slots_match, batches_eq,
  assert_slots_match_excluding_batches, assert_slots_match_json_excluding_batches,
  validate_against_snapshot, save_slot_snapshot,
}

pub data GetItemBehavior : Type 0 where
  save_snapshot do_nothing check_against_snapshot : GetItemBehavior

-- The state of the monitor that outlives a call, with the saved snapshots.
pub record SlotMonitor : Type 0 where
  pub prev_slot_with_children : Option Slot
  pub expected_slot_number : Option ℕ
  pub snapshots : Files

-- What the four subscriptions deliver: the slot, with and without children, and the finalized one.
pub record Delivery : Type 0 where
  pub slot : Slot
  pub slot_with_children : Slot
  pub finalized : Slot
  pub finalized_with_children : Slot

abbrev pub Monitoring : Type 0 → Type 0
Monitoring A = Exec SlotMonitor SlotError A

pub check_sequence : ℕ → Monitoring (Unit {0})
check_sequence number m = elim m.expected_slot_number [
  | some expected ↦ (if number == expected then ok tt else err (out_of_sequence expected number), m)
  | none ↦ (ok tt, record m { expected_slot_number = some number })
]

-- A finalized slot with batches is the slot that was delivered before.
unfoldable pub check_finalized : Delivery → Option Slot → Result SlotError (Unit {0})
check_finalized d none = ok tt
check_finalized d (some prev) =
    let matches =
      slots_match d.finalized prev && batches_eq d.finalized_with_children.batches prev.batches in
    ensure (d.finalized.batch_range.1 == d.finalized.batch_range.0 || matches) panicked

module _ (json : Json) (writable : Bool) where
  pub handle_snapshot : GetItemBehavior → Slot → Monitoring (Unit {0})
  handle_snapshot do_nothing slot m = (ok tt, m)
  handle_snapshot check_against_snapshot slot m =
      (validate_against_snapshot json slot m.snapshots, m)
  handle_snapshot save_snapshot slot m = elim (save_slot_snapshot json writable slot m.snapshots) [
    | ok files ↦ (ok tt, record m { snapshots = files })
    | err e ↦ (err e, m)
  ]

  pub advance : Slot → Monitoring (Unit {0})
  advance slot m = (
    ok tt,
    record m {
      prev_slot_with_children = some slot;
      expected_slot_number = some (add64 slot.number 1);
    },
  )

  -- A subscription that has ended or failed is a panic.
  unfoldable pub get_next_slot : GetItemBehavior → Option Delivery → Monitoring Delivery
  unfolding check_sequence handle_snapshot advance
  get_next_slot behavior delivery = do
    d ← lift (ok_or delivery panicked)
    check_sequence d.slot_with_children.number
    lift (assert_slots_match_excluding_batches d.slot d.slot_with_children)
    lift (assert_slots_match_json_excluding_batches json d.slot d.slot_with_children)
    lift (assert_slots_match_excluding_batches d.finalized d.finalized_with_children)
    lift (assert_slots_match_json_excluding_batches json d.finalized d.finalized_with_children)
    λ m. lift (check_finalized d m.prev_slot_with_children) m
    handle_snapshot behavior d.slot_with_children
    advance d.slot_with_children
    pure d

  -- The calls of a client, until one fails.
  unfoldable pub monitor : GetItemBehavior → List (Option Delivery) → Monitoring (Unit {0})
  unfolding get_next_slot
  monitor behavior [] = pure tt
  monitor behavior (d ∷ ds) = do _ ← get_next_slot behavior d; monitor behavior ds
