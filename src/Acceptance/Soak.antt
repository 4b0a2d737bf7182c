-- ===== src/Acceptance/Soak.antt =====
-- The loop of `run_soak` in scripts/acceptance-test/src/lib.rs: its counters and the snapshots that it
-- saves. What the select of the loop yields is an event, with the node's answers to the requests that
-- the handling of the event may make.
pub mod Counted
pub mod Counters
pub mod Coverage
pub mod Contiguous
pub mod Teardown
mod Tests
use rollup_starter.Common.{
  ℕ, zero, suc, ◌+◌, ◌-◌, ◌%◌, Bool, true, false, not, ◌&&◌, List, [], ◌∷◌, Option, none, some,
  Result, ok, err, ltb, leb, ◌==◌, if◌then◌else◌, add64, saturating_add64, u64_mod,
}
use rollup_starter.Common.Exec.{Exec, pure, raise, ◌>>=◌, ◌>>◌}
use rollup_starter.Acceptance.Slots.{Slot, Json, Files, SlotError, read_file, save_slot_snapshot}
use rollup_starter.Acceptance.Plan.Versions.{range_from}

pub record SoakRunOptions : Type 0 where
  pub throughput_start_batch : ℕ
  pub rollup_stop_height : ℕ
  pub full_slot_save_interval : ℕ
  pub save_slot_snapshots : Bool
  pub snapshot_backfill_start : Option ℕ

-- The variables of the loop, and the snapshots on disk.
pub record Soak : Type 0 where
  pub num_soak_txs : ℕ
  pub num_soak_slots : ℕ
  pub num_soak_batches : ℕ
  pub num_previous_txs : Option ℕ
  pub snapshot_backfill_from : Option ℕ
  pub files : Files

-- The answers to the requests: the end of the batch's transactions and of those of the reference
-- batch, the slot with its children, the slots of a gap, and whether the snapshots can be written.
pub record Answers : Type 0 where
  pub batch_tx_end : Option ℕ
  pub reference_tx_end : Option ℕ
  pub full_slot : Option Slot
  pub gap_slot : ℕ → Option Slot
  pub writable : Bool

pub data ManagerStatus : Type 0 where
  exited : Bool → ManagerStatus
  running unknown : ManagerStatus

pub data Event : Type 0 where
  -- The rollup's exit, with its success, or a failed wait.
  rollup_exited : Option Bool → Event
  task_done task_failed task_panicked : Event
  new_slot : Slot → Answers → Event
  stream_failed shutdown : Event
  -- The stream has ended, and the manager's status is asked for.
  stream_closed : ManagerStatus → Event

pub data SoakError : Type 0 where
  rollup_failed wait_failed background_failed stream_error closed_early status_unknown : SoakError
  reference_failed batch_failed backfill_failed shut_down : SoakError
  save_failed : SlotError → SoakError

-- The loop is left with success, with an error, or in the panic of `%` by 0.
pub data Break : Type 0 where
  break_ok break_panic : Break
  break_err : SoakError → Break

abbrev pub Soaking : Type 0
Soaking = Exec Soak Break (Unit {0})

unfoldable pub is_very_close_to_soak_test_end : ℕ → ℕ → Bool
is_very_close_to_soak_test_end num_soak_batches target_soak_batches =
    ltb target_soak_batches (saturating_add64 num_soak_batches 15)

-- `batch_range.end - 1`
abbrev pub batch_num_of : Slot → ℕ
batch_num_of slot = (slot.batch_range.1 + u64_mod - 1) % u64_mod

module _ (json : Json) (o : SoakRunOptions) where
  unfoldable pub very_close : Soak → Bool
  unfolding is_very_close_to_soak_test_end
  very_close s =
      is_very_close_to_soak_test_end s.num_soak_batches
        (o.rollup_stop_height - o.throughput_start_batch)

  -- The transactions before the throughput is counted, read once.
  unfoldable pub read_reference : ℕ → Answers → Soaking
  read_reference batch_num a s = elim s.num_previous_txs as (λ _. Result Break (Unit {0}) × Soak) [
    | some _ ↦ (ok tt, s)
    | none ↦
        if leb o.throughput_start_batch batch_num
        then (elim a.reference_tx_end as (λ _. Result Break (Unit {0}) × Soak) [
          | none ↦ (err (break_err reference_failed), s)
          | some reference ↦ (ok tt, record s { num_previous_txs = some reference })
        ])
        else (ok tt, s)
  ]

  unfoldable pub add_batch : ℕ → ℕ → Soaking
  add_batch batch_num tx_end s =
      if ltb o.throughput_start_batch batch_num
      then (elim s.num_previous_txs as (λ _. Result Break (Unit {0}) × Soak) [
        | none ↦ (ok tt, s)
        | some previous ↦ (
          ok tt,
          record s {
            num_soak_txs = tx_end - previous;
            num_soak_batches = add64 s.num_soak_batches 1;
          },
        )
      ])
      else (ok tt, s)

  unfoldable pub count_batch : Slot → Answers → Soaking
  unfolding very_close read_reference add_batch
  count_batch slot a s =
      let batch_num = batch_num_of slot in
      if slot.batch_range.0 == slot.batch_range.1
      then (ok tt, s)
      else (elim a.batch_tx_end as (λ _. Result Break (Unit {0}) × Soak) [
        | none ↦ (err (if very_close s then break_ok else break_err batch_failed), s)
        | some tx_end ↦ (read_reference batch_num a >> add_batch batch_num tx_end) s
      ])

  abbrev pub saved : Soak → Result SlotError Files → Result Break (Unit {0}) × Soak
  saved s (ok files) = (ok tt, record s { files = files })
  saved s (err e) = (err (break_err (save_failed e)), s)

  unfoldable pub save_slot_snapshot_if_needed : Bool → Slot → Soaking
  unfolding save_slot_snapshot
  save_slot_snapshot_if_needed writable slot s =
      if o.save_slot_snapshots
      then saved s (save_slot_snapshot json writable slot s.files)
      else (ok tt, s)

  abbrev pub exists : Files → ℕ → Bool
  exists files n = elim (read_file files n) [ none ↦ false | some _ ↦ true ]

  -- One pass of the loop over the gap.
  unfoldable pub backfill_slot : Answers → ℕ → Soaking
  unfolding save_slot_snapshot
  backfill_slot a n s =
      if exists s.files n
      then (ok tt, s)
      else (elim (a.gap_slot n) as (λ _. Result Break (Unit {0}) × Soak) [
        | none ↦ (err (break_err backfill_failed), s)
        | some slot ↦ saved s (save_slot_snapshot json a.writable slot s.files)
      ])

  unfoldable pub backfill_missing_snapshots : Answers → List ℕ → Soaking
  unfolding backfill_slot
  backfill_missing_snapshots a [] = pure tt
  backfill_missing_snapshots a (n ∷ ns) = do backfill_slot a n; backfill_missing_snapshots a ns

  -- `snapshot_backfill_from.take()` and the loop over the gap.
  unfoldable pub backfill : Slot → Answers → Soaking
  unfolding backfill_missing_snapshots
  backfill slot a s = elim s.snapshot_backfill_from as (λ _. Result Break (Unit {0}) × Soak) [
    | none ↦ (ok tt, s)
    | some from ↦
        backfill_missing_snapshots a (range_from from (slot.number - from))
          (record s { snapshot_backfill_from = none })
  ]

  abbrev pub full_or : Slot → Option Slot → Slot
  full_or slot none = slot
  full_or slot (some full) = full

  -- The end of a slot's handling: the accounting, and the snapshot, now and then with its children.
  unfoldable pub account : Slot → Answers → Soaking
  unfolding save_slot_snapshot_if_needed
  account slot a s =
      let slots = add64 s.num_soak_slots 1 in
      let counted = record s { num_soak_slots = slots } in
      if s.num_soak_batches == 0
      then save_slot_snapshot_if_needed a.writable slot s
      else if o.full_slot_save_interval == 0
      then (err break_panic, counted)
      else if slots % o.full_slot_save_interval == 0
      then save_slot_snapshot_if_needed a.writable (full_or slot a.full_slot) counted
      else save_slot_snapshot_if_needed a.writable slot counted

  unfoldable pub on_slot : Slot → Answers → Soaking
  unfolding count_batch backfill account
  on_slot slot a = do count_batch slot a; backfill slot a; account slot a

  unfoldable pub closed : ManagerStatus → Soaking
  unfolding very_close
  closed (exited success) s = (err (if success then break_ok else break_err rollup_failed), s)
  closed running s = (err (if very_close s then break_ok else break_err closed_early), s)
  closed unknown s = (err (break_err status_unknown), s)

  unfoldable pub handle : Event → Soaking
  unfolding on_slot closed very_close
  handle (rollup_exited none) s = (err (break_err wait_failed), s)
  handle (rollup_exited (some success)) s =
      (err (if success then break_ok else break_err rollup_failed), s)
  handle task_done s = (ok tt, s)
  handle task_failed s = if very_close s then (ok tt, s) else (err (break_err background_failed), s)
  handle task_panicked s = (err (break_err background_failed), s)
  handle (new_slot slot a) s = on_slot slot a s
  handle stream_failed s = (err (break_err stream_error), s)
  handle shutdown s = (err (break_err shut_down), s)
  handle (stream_closed status) s = closed status s

  -- The loop, which goes on after an event whose handling is `ok`.
  unfoldable pub run_loop : List Event → Soaking
  unfolding handle
  run_loop [] = pure tt
  run_loop (e ∷ es) = do handle e; run_loop es

  abbrev pub initial : Files → Soak
  initial files = record {
    num_soak_txs = 0;
    num_soak_slots = 0;
    num_soak_batches = 0;
    num_previous_txs = none;
    snapshot_backfill_from = if o.save_slot_snapshots then o.snapshot_backfill_start else none;
    files = files;
  }
