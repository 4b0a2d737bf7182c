-- ===== src/Acceptance/Setup/Manual.antt =====
-- `do_manual_setup` of scripts/acceptance-test/src/bin/setup.rs: three transactions on a fresh node, whose
-- slots and supplies are checked and recorded. The deliveries of the monitor's subscriptions are a
-- list; a text of a ledger's transaction is read by `View`.
pub mod Laws
pub mod Waits
pub mod Checked
pub mod Tests
use rollup_starter.Common.{
  ℕ, zero, suc, ◌+◌, ◌-◌, Bool, true, false, String, List, [], ◌∷◌, Option, none, some, Result, ok,
  err, ok_or, map_err, ensure, ◌==◌, ltb, str_eq, if◌then◌else◌,
}
use rollup_starter.Common.Exec.{Exec, pure, raise, lift, ◌>>=◌, ◌>>◌}
use rollup_starter.Common.Codes.{Codes}
use rollup_starter.Acceptance.Shutdown.{Attempt, wait_for_endpoint}
use rollup_starter.Acceptance.Slots.{LedgerBatch, Slot, Json, Files}
use rollup_starter.Acceptance.Slots.Monitor.{
  save_snapshot, check_against_snapshot, GetItemBehavior, SlotMonitor, Delivery, Monitoring,
  get_next_slot,
}
use rollup_starter.Acceptance.Slots.Fetcher.{Client, fetch_and_compare_slot}
use rollup_starter.Acceptance.Evm.{
  RpcClient, StateConsistencyContracts, DeployError, setup_state_consistency_contracts,
}
use rollup_starter.Acceptance.Setup.Queries.{
  ManualError, panicked, subscription_failed, not_ready, slot_failed, evm_failed, still_waiting,
  Txs, set_txs, Reply, get_supply, get_supply_archival, Sending, sole, send_and_check,
}

-- The number and the events of a transaction in a batch.
pub record LedgerTx : Type 0 where
  pub number : ℕ
  pub events : List String

abbrev pub View : Type 0
View = String → LedgerTx

abbrev pub Manual : Type 0 → Type 0
Manual A = Exec SlotMonitor ManualError A

pub watched : {A : Type 0} → Monitoring A → Manual A
watched monitoring m = let r = monitoring m in (map_err slot_failed r.0, r.1)

-- A transaction of the posted batch, if it is the one that is waited for.
abbrev pub first_tx : List LedgerBatch → Option String
first_tx [] = none
first_tx (batch ∷ batches) = elim batch.txs [ [] ↦ none | tx ∷ txs ↦ some tx ]

abbrev find_tx : View → ℕ → List String → Option String
find_tx view n [] = none
find_tx view n (tx ∷ txs) = if (view tx).number == n then some tx else find_tx view n txs

abbrev pub tx_of_first : View → ℕ → List LedgerBatch → Option String
tx_of_first view n [] = none
tx_of_first view n (batch ∷ batches) = find_tx view n batch.txs

-- The assertions on the events of a posted transaction.
abbrev pub posted : View → String → String → Result ManualError (Unit {0})
posted view event tx = elim (sole (view tx).events) [
  | none ↦ err panicked
  | some e ↦ ensure (str_eq e event) panicked
]

abbrev pub Deliveries : Type 0
Deliveries = List (Option Delivery)

-- The slot that a delivery has the transaction in, and the transaction.
abbrev pub first_posted : Delivery → Option String
first_posted d = first_tx d.slot_with_children.batches

abbrev pub last_posted : View → Delivery → Option String
last_posted view d = tx_of_first view 2 d.finalized_with_children.batches

module _ (json : Json) (writable : Bool) (view : View) where
  -- At most so many deliveries are taken. The result is the number of the slot with the transaction, 0
  -- if none has it, with the deliveries that are left.
  unfoldable pub wait_for_tx :
      (Delivery → Option String)
      → (Delivery → ℕ)
      → String
      → ℕ
      → Deliveries
      → Manual (ℕ × Deliveries)
  unfolding watched get_next_slot
  wait_for_tx tx_in number_of event zero ds = pure (0, ds)
  wait_for_tx tx_in number_of event (suc rounds) [] = raise still_waiting
  wait_for_tx tx_in number_of event (suc rounds) (o ∷ ds) = do
    d ← watched (get_next_slot json writable save_snapshot o)
    elim (tx_in d) as (λ _. Manual (ℕ × Deliveries)) [
      | none ↦ wait_for_tx tx_in number_of event rounds ds
      | some tx ↦ do lift (posted view event tx); pure (number_of d, ds)
    ]

  unfoldable pub wait_for_first_batch : String → Deliveries → Manual (ℕ × Deliveries)
  unfolding wait_for_tx
  wait_for_first_batch event ds = wait_for_tx first_posted (λ d. d.slot.number) event 10 ds

  unfoldable pub wait_for_next_batch : String → Deliveries → Manual (ℕ × Deliveries)
  unfolding wait_for_tx
  wait_for_next_batch event ds =
      wait_for_tx (last_posted view) (λ d. d.finalized_with_children.number) event 10 ds

-- The number of the slot that the first call of the monitor delivers.
abbrev pub first_number : Deliveries → ℕ
first_number [] = 0
first_number (none ∷ ds) = 0
first_number (some d ∷ ds) = d.slot.number

-- The fetcher writes its snapshots where the monitor does.
unfoldable pub fetch_slot : Client → Json → Bool → GetItemBehavior → ℕ → Manual (Unit {0})
unfolding fetch_and_compare_slot
fetch_slot client json writable behavior slotnum m =
    elim (fetch_and_compare_slot client json writable slotnum behavior m.snapshots) [
      | err e ↦ (err (slot_failed e), m)
      | ok fetched ↦ (ok tt, record m { snapshots = fetched.1 })
    ]

-- So many slots, from a number on.
unfoldable pub fetch_slots : Client → Json → Bool → GetItemBehavior → ℕ → ℕ → Manual (Unit {0})
unfolding fetch_slot
fetch_slots client json writable behavior zero from_ = pure tt
fetch_slots client json writable behavior (suc count) from_ = do
  fetch_slot client json writable behavior from_
  fetch_slots client json writable behavior count (from_ + 1)

abbrev pub expected_supply : ℕ → ℕ → ℕ → ℕ
expected_supply first second slot_num =
    if ltb slot_num first then 0 else if ltb slot_num second then 1000 else 1800

unfoldable pub check_supplies : (Codes → Reply) → Codes → ℕ → ℕ → ℕ → ℕ → Manual (Unit {0})
unfolding get_supply_archival
check_supplies query token_id first second zero from_ = pure tt
check_supplies query token_id first second (suc count) from_ = do
  supply ← lift (get_supply_archival query token_id (some from_))
  lift (ensure (supply == expected_supply first second from_) panicked)
  check_supplies query token_id first second count (from_ + 1)

-- The node in the manual setup. Each `Sending` is of its transaction, in the order of the code.
pub record ManualNode : Type 0 where
  pub attempts : List Attempt
  -- Whether the client and the subscriptions could be made.
  pub subscribes : Bool
  pub get_token_id : String → Option ℕ → String → Codes
  pub initial_query : Codes → Reply
  pub creating : Sending
  pub minting : Sending
  pub transferring : Sending
  pub deliveries : Deliveries
  pub view : View
  pub client : Client
  pub archive : Codes → Reply
  pub privileged_rpc : RpcClient
  pub unprivileged_rpc : RpcClient
  pub write_metadata : StateConsistencyContracts → Result DeployError (Unit {0})

module _ (json : Json) (writable : Bool) (node : ManualNode) where
  abbrev txs : Txs
  txs = set_txs node.get_token_id

  unfoldable pub wait_for_start : Result ManualError (Unit {0})
  unfolding wait_for_endpoint
  wait_for_start = map_err not_ready (wait_for_endpoint node.attempts)

  -- The slots up to the last one and the supplies at them.
  unfoldable pub verify : Codes → ℕ → ℕ → ℕ → Slot → Manual (Unit {0})
  unfolding fetch_slots check_supplies
  verify token_id first_subscribed first_non_empty second_non_empty last_slot = do
    fetch_slots node.client json writable save_snapshot first_subscribed 0
    fetch_slots node.client json writable check_against_snapshot
        (last_slot.number + 1 - first_subscribed) first_subscribed
    check_supplies node.archive token_id first_non_empty second_non_empty (last_slot.number + 1) 0

  -- The transactions and the two waits, up to the last slot. The results are the numbers of the first
  -- and the second slot with transactions.
  unfoldable pub drive : Manual (ℕ × ℕ)
  unfolding get_supply send_and_check wait_for_first_batch wait_for_next_batch
  drive = do
    initial_supply ← lift (get_supply node.initial_query txs.token_id)
    lift (ensure (initial_supply == 0) panicked)
    created ← lift (send_and_check txs.token_id txs.create 1000 node.creating)
    first ← wait_for_first_batch json writable node.view created node.deliveries
    minted ← lift (send_and_check txs.token_id txs.minting 1800 node.minting)
    transferred ← lift (send_and_check txs.token_id txs.transferring 1800 node.transferring)
    second ← wait_for_next_batch json writable node.view transferred first.1
    pure (first.0, second.0)

  unfoldable pub manual_setup : Manual (Unit {0})
  unfolding wait_for_start drive verify setup_state_consistency_contracts
  manual_setup = do
    lift wait_for_start
    lift (ensure node.subscribes subscription_failed)
    non_empty ← drive
    λ m. elim m.prev_slot_with_children as (λ _. Result ManualError (Unit {0}) × SlotMonitor) [
      | none ↦ (err panicked, m)
      | some last_slot ↦
          verify txs.token_id (first_number node.deliveries) non_empty.0 non_empty.1 last_slot m
    ]
    contracts ← lift (
        map_err evm_failed
          (setup_state_consistency_contracts node.privileged_rpc node.unprivileged_rpc
            node.write_metadata []).0)
    pure tt

  abbrev pub new_monitor : Files → SlotMonitor
  new_monitor files = record {
    prev_slot_with_children = none;
    expected_slot_number = none;
    snapshots = files;
  }

  -- With the snapshots before and after it.
  unfoldable pub do_manual_setup : Files → Result ManualError (Unit {0}) × Files
  unfolding manual_setup
  do_manual_setup files = let r = manual_setup (new_monitor files) in (r.0, r.1.snapshots)
