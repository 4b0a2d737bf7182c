-- ===== src/Acceptance/Slots/Fetcher.antt =====
-- `SlotFetcher` of scripts/acceptance-test/src/fetch_and_compare.rs. The node's answers, each to a
-- request of its own, are the record `Client`.
pub mod Laws
use rollup_starter.Common.{
  ℕ, Bool, true, false, not, ◌&&◌, String, List, [], ◌∷◌, Option, none, some, Result, ok, err,
  ◌>>=◌, ◌>>◌, ok_or, ensure,
}
use rollup_starter.Acceptance.Slots.{
  Slot, LedgerBatch, Json, Files, SlotError, panicked, api_failed, batch_eq, batches_eq,
  slots_match, assert_slots_match_excluding_batches, assert_slots_match_json_excluding_batches,
  validate_against_snapshot, save_slot_snapshot,
}
use rollup_starter.Acceptance.Slots.Monitor.{
  GetItemBehavior, save_snapshot, do_nothing, check_against_snapshot,
}

-- The `children` argument of a request.
pub data Children : Type 0 where
  unspecified x0 x1 : Children

pub record Client : Type 0 where
  pub get_batch_by_number : ℕ → Children → Option LedgerBatch
  pub get_batch_by_hash : String → Children → Option LedgerBatch
  pub get_slot_by_number : ℕ → Children → Option Slot
  pub get_slot_by_hash : String → Children → Option Slot

abbrev answer : {A : Type 0} → Option A → Result SlotError A
answer o = ok_or o api_failed

abbrev pub clear_txs : LedgerBatch → LedgerBatch
clear_txs batch = record batch { txs = [] }

module _ (client : Client) where
  unfoldable pub fetch_and_compare_batch : ℕ → Result SlotError LedgerBatch
  unfolding batch_eq
  fetch_and_compare_batch batch_number = do
    batch ← answer (client.get_batch_by_number batch_number unspecified)
    batch_by_hash ← answer (client.get_batch_by_hash batch.hash x0)
    batch_with_children ← answer (client.get_batch_by_number batch_number x1)
    batch_by_hash_with_children ← answer (client.get_batch_by_hash batch.hash x1)
    ensure (batch_eq batch batch_by_hash) panicked
    ensure (batch_eq batch_with_children batch_by_hash_with_children) panicked
    ensure (batch_eq (clear_txs batch_with_children) batch) panicked
    ok batch_by_hash_with_children

  unfoldable pub compare_batches : List LedgerBatch → Result SlotError (Unit {0})
  unfolding fetch_and_compare_batch
  compare_batches [] = ok tt
  compare_batches (batch ∷ batches) = do
    batch_by_hash ← fetch_and_compare_batch batch.number
    ensure (batch_eq batch batch_by_hash) panicked
    compare_batches batches

  module _ (json : Json) where
    unfoldable pub compare_slot_variations : Slot → Slot → Slot → Slot → Result SlotError (Unit {0})
    unfolding assert_slots_match_excluding_batches batches_eq
    compare_slot_variations with_children without_children by_hash by_hash_with_children = do
      assert_slots_match_excluding_batches with_children by_hash_with_children
      ensure (batches_eq by_hash_with_children.batches with_children.batches) panicked
      assert_slots_match_excluding_batches without_children by_hash
      assert_slots_match_excluding_batches with_children without_children
      assert_slots_match_json_excluding_batches json with_children by_hash_with_children
      assert_slots_match_json_excluding_batches json without_children by_hash
      assert_slots_match_json_excluding_batches json with_children without_children

    handle_snapshot : Bool → GetItemBehavior → Slot → Files → Result SlotError Files
    handle_snapshot writable save_snapshot slot files = save_slot_snapshot json writable slot files
    handle_snapshot writable do_nothing slot files = ok files
    handle_snapshot writable check_against_snapshot slot files = do
      validate_against_snapshot json slot files
      ok files

    unfoldable pub fetch_and_compare_slot :
        Bool → ℕ → GetItemBehavior → Files → Result SlotError (Slot × Files)
    unfolding compare_batches compare_slot_variations handle_snapshot
    fetch_and_compare_slot writable slot_number behavior files = do
      with_children ← answer (client.get_slot_by_number slot_number x1)
      without_children ← answer (client.get_slot_by_number slot_number x0)
      by_hash ← answer (client.get_slot_by_hash with_children.hash unspecified)
      by_hash_with_children ← answer (client.get_slot_by_hash with_children.hash x1)
      compare_batches with_children.batches
      compare_slot_variations with_children without_children by_hash by_hash_with_children
      files' ← handle_snapshot writable behavior with_children files
      ok (with_children, files')
