-- ===== src/Acceptance/Evm.antt =====
-- scripts/acceptance-test/src/evm_soak.rs: the keys of the EVM workers, the contracts' addresses on disk,
-- the deployment and the worker. Calls stand for their ABI encodings, which alloy makes; an RPC client
-- is its answers.
pub mod Keys
pub mod Metadata
pub mod Worker
mod Tests
use rollup_starter.Common.{
  ℕ, zero, suc, ◌+◌, ◌-◌, ◌*◌, Bool, true, false, ◌||◌, List, [], ◌∷◌, ◌++◌, Option, none, some,
  Result, ok, err, ltb, if◌then◌else◌, length, saturating_add64,
}
use rollup_starter.Common.Exec.{Exec, pure, raise, lift, ◌>>=◌, ◌>>◌}
use rollup_starter.Common.Codes.{Codes, codes, contains}

abbrev pub Address : Type 0
Address = ℕ

-- The data of a transaction: the calls of the contract, or its creation.
pub data CallData : Type 0 where
  update_call : ℕ → ℕ → CallData
  value_call bytecode : CallData

pub record TransactionRequest : Type 0 where
  pub from_ : Address
  pub nonce : ℕ
  pub to : Option Address
  pub input : CallData
  pub gas_limit : ℕ
  pub max_fee_per_gas : ℕ
  pub max_priority_fee_per_gas : ℕ

abbrev pub deploy_gas_limit : ℕ
deploy_gas_limit = 5000000

abbrev pub update_gas_limit : ℕ
update_gas_limit = 200000

abbrev pub tx_request : Address → ℕ → Option Address → CallData → ℕ → TransactionRequest
tx_request from_ nonce to input gas_limit = record {
  from_ = from_;
  nonce = nonce;
  to = to;
  input = input;
  gas_limit = gas_limit;
  max_fee_per_gas = 100;
  max_priority_fee_per_gas = 1;
}

unfoldable pub is_stop_height_error_message : Codes → Bool
unfolding contains
is_stop_height_error_message message =
    contains message (codes "The preferred sequencer has reached the stop height")
    || contains message (codes "stop height")

abbrev drop_bytes : ℕ → Codes → Codes
drop_bytes zero bytes = bytes
drop_bytes (suc n) [] = []
drop_bytes (suc n) (b ∷ bytes) = drop_bytes n bytes

abbrev from_be_bytes : ℕ → Codes → ℕ
from_be_bytes value [] = value
from_be_bytes value (b ∷ bytes) = from_be_bytes (value * 256 + b) bytes

-- The number in the last 32 bytes.
unfoldable pub decode_value_output : Codes → Option ℕ
decode_value_output raw =
    if ltb (length raw) 32 then none else some (from_be_bytes 0 (drop_bytes (length raw - 32) raw))

pub data DeployError : Type 0 where
  send_failed : Codes → DeployError
  no_receipt_in_time deployment_failed no_contract_address : DeployError
  -- The list of polls ends while the code waits.
  still_waiting : DeployError
  write_failed : DeployError

-- A poll for the receipt: the time is up, there is none yet, or its status and the contract's address.
pub data ReceiptPoll : Type 0 where
  time_up pending : ReceiptPoll
  receipt : Bool → Option Address → ReceiptPoll

abbrev contract_address_of : Bool → Option Address → Result DeployError Address
contract_address_of false address = err deployment_failed
contract_address_of true none = err no_contract_address
contract_address_of true (some address) = ok address

pub wait_for_receipt : List ReceiptPoll → Result DeployError Address
wait_for_receipt [] = err still_waiting
wait_for_receipt (time_up ∷ polls) = err no_receipt_in_time
wait_for_receipt (pending ∷ polls) = wait_for_receipt polls
wait_for_receipt (receipt status address ∷ polls) = contract_address_of status address

-- The transactions that were sent, the last one first.
abbrev pub Deploying : Type 0 → Type 0
Deploying A = Exec (List TransactionRequest) DeployError A

-- A client of the RPC: its address, and what it answers to a transaction: an error, or the polls for
-- its receipt.
pub record RpcClient : Type 0 where
  pub address : Address
  pub transaction_count : ℕ
  pub send_transaction : TransactionRequest → Result Codes (List ReceiptPoll)

unfoldable pub deploy_state_consistency_contract : RpcClient → ℕ → Deploying Address
unfolding wait_for_receipt
deploy_state_consistency_contract rpc nonce sent =
    let tx = tx_request rpc.address nonce none bytecode deploy_gas_limit in
    elim (rpc.send_transaction tx) [
      | err e ↦ (err (send_failed e), tx ∷ sent)
      | ok polls ↦ (wait_for_receipt polls, tx ∷ sent)
    ]

-- The loop over the contracts of one deployer, with the contracts that are left to deploy.
unfoldable pub deploy_contracts : RpcClient → ℕ → ℕ → Deploying (List Address)
unfolding deploy_state_consistency_contract
deploy_contracts rpc nonce zero = pure []
deploy_contracts rpc nonce (suc n) = do
  address ← deploy_state_consistency_contract rpc nonce
  addresses ← deploy_contracts rpc (saturating_add64 nonce 1) n
  pure (address ∷ addresses)

pub record StateConsistencyContracts : Type 0 where
  pub pinned : List Address
  pub unpinned : List Address

abbrev pub num_pinned_contracts : ℕ
num_pinned_contracts = 5

abbrev pub num_unpinned_contracts : ℕ
num_unpinned_contracts = 5

-- The writing of the metadata is an argument.
unfoldable pub setup_state_consistency_contracts :
    RpcClient
    → RpcClient
    → (StateConsistencyContracts → Result DeployError (Unit {0}))
    → Deploying StateConsistencyContracts
unfolding deploy_contracts
setup_state_consistency_contracts privileged_rpc unprivileged_rpc write_metadata = do
  pinned ← deploy_contracts privileged_rpc privileged_rpc.transaction_count num_pinned_contracts
  unpinned ←
      deploy_contracts unprivileged_rpc unprivileged_rpc.transaction_count num_unpinned_contracts
  let contracts : StateConsistencyContracts = record { pinned = pinned; unpinned = unpinned }
  lift (write_metadata contracts)
  pure contracts
