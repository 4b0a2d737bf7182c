-- ===== src/Acceptance/Evm/Worker.antt =====
-- `evm_state_consistency_worker` of scripts/acceptance-test/src/evm_soak.rs, and the contract that it
-- updates, scripts/acceptance-test/evm-contracts/StateConsistencyTester.sol.
pub mod Laws
use rollup_starter.Common.{
  ℕ, zero, suc, ◌+◌, ◌%◌, ◌^◌, Bool, true, false, ◌&&◌, List, [], ◌∷◌, Option, none, some, Result,
  ok, err, ◌==◌, if◌then◌else◌, saturating_add64, ok_or,
}
use rollup_starter.Common.Exec.{Exec, pure, raise, lift, ◌>>=◌, ◌>>◌}
use rollup_starter.Common.Codes.{Codes}
use rollup_starter.Acceptance.Evm.{
  Address, CallData, update_call, value_call, bytecode, TransactionRequest, tx_request,
  update_gas_limit, is_stop_height_error_message, decode_value_output,
}

-- The addition of `U256`, which wraps.
abbrev pub add256 : ℕ → ℕ → ℕ
add256 a b = (a + b) % 2 ^ 256

pub record EvmWorker : Type 0 where
  pub nonce : ℕ
  pub expected_value : ℕ
  -- The transactions that the sequencer has accepted, the last one first.
  pub accepted : List TransactionRequest

-- The loop is left at the stop height, or with an error.
pub data EvmEnd : Type 0 where
  stop_height_reached : EvmEnd
  send_failed : Codes → EvmEnd

abbrev pub Updating : Type 0
Updating = Exec EvmWorker EvmEnd (Unit {0})

module _ (from_ contract_address : Address) where
  abbrev update_tx : EvmWorker → TransactionRequest
  update_tx w =
      tx_request from_ w.nonce (some contract_address)
        (update_call w.expected_value (add256 w.expected_value 1)) update_gas_limit

  -- One pass of the inner loop, on the answer to its transaction.
  unfoldable pub send_update : Result Codes (Unit {0}) → Updating
  unfolding is_stop_height_error_message
  send_update (ok _) w = (
    ok tt,
    record {
      nonce = saturating_add64 w.nonce 1;
      expected_value = add256 w.expected_value 1;
      accepted = update_tx w ∷ w.accepted;
    },
  )
  send_update (err message) w = (
    err (if is_stop_height_error_message message then stop_height_reached else send_failed message),
    w,
  )

  -- The inner loop; its length is random.
  unfoldable pub send_updates : List (Result Codes (Unit {0})) → Updating
  unfolding send_update
  send_updates [] = pure tt
  send_updates (answer ∷ answers) = send_update answer >> send_updates answers

  -- The outer loop, which goes on until it is left or the task is aborted.
  unfoldable pub update_rounds : List (List (Result Codes (Unit {0}))) → Updating
  unfolding send_updates
  update_rounds [] = pure tt
  update_rounds (round ∷ rounds) = send_updates round >> update_rounds rounds

pub data EvmWorkerError : Type 0 where
  call_failed : Codes → EvmWorkerError
  invalid_value : EvmWorkerError

abbrev of_call : Result Codes Codes → Result EvmWorkerError Codes
of_call (err e) = err (call_failed e)
of_call (ok raw) = ok raw

-- The worker's start, on the account's transaction count and the answer to the call of `value`.
unfoldable pub start : ℕ → Result Codes Codes → Result EvmWorkerError EvmWorker
unfolding decode_value_output
start transaction_count value_answer = elim (of_call value_answer) [
  | err e ↦ err e
  | ok raw ↦ elim (decode_value_output raw) [
    | none ↦ err invalid_value
    | some value ↦ ok (record { nonce = transaction_count; expected_value = value; accepted = [] })
  ]
]

-- The chain as a worker's transactions see it: the next nonce of its account and the contract's value.
pub record Chain : Type 0 where
  pub account_nonce : ℕ
  pub value : ℕ

-- `update` of the contract, none where it reverts.
pub update : ℕ → ℕ → ℕ → Option ℕ
update value old_value new_value = if old_value == value then some new_value else none

module _ (contract_address : Address) where
  abbrev set_value : Chain → Option ℕ → Option Chain
  set_value c none = none
  set_value c (some v) = some (record { account_nonce = c.account_nonce + 1; value = v })

  abbrev call : Option Address → CallData → Chain → Option Chain
  call (some to) (update_call old_value new_value) c =
      if to == contract_address then set_value c (update c.value old_value new_value) else none
  call to input c = none

  -- A transaction is executed at its nonce only; the calls of a worker are updates of its contract.
  pub execute : TransactionRequest → Chain → Option Chain
  unfolding update
  execute tx c = if tx.nonce == c.account_nonce then call tx.to tx.input c else none

  abbrev and_then : Option Chain → (Chain → Option Chain) → Option Chain
  and_then none f = none
  and_then (some c) f = f c

  -- The transactions in their order, the last one first in the list.
  pub execute_all : List TransactionRequest → Chain → Option Chain
  unfolding execute
  execute_all [] c = some c
  execute_all (tx ∷ earlier) c = and_then (execute_all earlier c) (execute tx)
