-- ===== src/Stf/Sdk.antt =====
-- What crates/stf/src/authentication.rs takes from the Sovereign SDK and from borsh, as a record of
-- types and functions. Nothing in it is code of this repository.
use rollup_starter.Common.{ℕ, ◌≡◌, String, List, Result, ok}

abbrev pub Bytes : Type 0
Bytes = List ℕ

-- `sov_modules_api::RawTx`: the bytes of a transaction.
pub record RawTx : Type 0 where
  pub blob : Bytes

-- The enum of the authenticator's inputs and decodables: the first parameter is for the EVM, the
-- second for the other two schemes.
pub data AuthenticatorInput (T U : Type 0) : Type 0 where
  evm : T → AuthenticatorInput T U
  eip712 : U → AuthenticatorInput T U
  standard : U → AuthenticatorInput T U

-- `capabilities::AuthenticationError`, over the SDK's types of fatal errors, hashes and gas errors.
pub data AuthenticationError (F H G : Type 0) : Type 0 where
  fatal_error : F → H → AuthenticationError F H G
  out_of_gas : G → AuthenticationError F H G

-- `capabilities::UnregisteredAuthenticationError`.
pub data UnregisteredAuthenticationError (F H G : Type 0) : Type 0 where
  invalid_authentication_discriminant : UnregisteredAuthenticationError F H G
  fatal_error : F → H → UnregisteredAuthenticationError F H G
  out_of_gas : G → UnregisteredAuthenticationError F H G

pub record Sdk : Type 1 where
  pub State : Type 0
  pub ChainHash : Type 0
  pub BorshError : Type 0
  pub FatalError : Type 0
  pub TxHash : Type 0
  pub GasError : Type 0
  pub TxAndHash : Type 0
  pub AuthData : Type 0
  -- The RLP form of an EVM transaction, and its signed form with its hash.
  pub EvmTx : Type 0
  pub SignedTx : Type 0
  pub hash : SignedTx → TxHash
  -- `sov_evm::CallMessage`, with its constructor `Call` around a decoded transaction.
  pub EvmCall : Type 0
  pub call : EvmTx → EvmCall
  -- The decodable of the runtime, and its variant for the EVM module.
  pub RuntimeCall : Type 0
  pub evm_runtime_call : EvmCall → RuntimeCall
  -- `Rt::CHAIN_HASH`
  pub chain_hash : ChainHash
  -- The borsh codec that the enum derives.
  pub to_vec : AuthenticatorInput RawTx RawTx → Bytes
  pub from_slice : Bytes → Result BorshError (AuthenticatorInput RawTx RawTx)
  pub borsh_message : BorshError → String
  pub deserialization_failed : String → FatalError
  pub fatal_deserialization_error :
      Bytes → BorshError → State → AuthenticationError FatalError TxHash GasError × State
  -- The three authenticators. They may write to the state (gas), also when they fail.
  pub evm_authenticate :
      Bytes
      → ChainHash
      → State
      → Result (AuthenticationError FatalError TxHash GasError) (TxAndHash × AuthData × EvmCall)
        × State
  pub eip712_authenticate :
      Bytes
      → State
      → Result (AuthenticationError FatalError TxHash GasError) (TxAndHash × AuthData × RuntimeCall)
        × State
  pub standard_authenticate :
      Bytes
      → ChainHash
      → State
      → Result (AuthenticationError FatalError TxHash GasError) (TxAndHash × AuthData × RuntimeCall)
        × State
  -- The decoders that need no state, and the hash of a transaction.
  pub decode_evm_tx : Bytes → Result FatalError (EvmTx × SignedTx)
  pub decode_sov_tx : Bytes → Result FatalError RuntimeCall
  pub decode_sov_tx_with_cryptospec : Bytes → Result FatalError RuntimeCall
  pub calculate_hash : Bytes → TxHash

-- Documented behaviour of borsh: what was encoded is decoded to itself.
pub record IsCodec (sdk : Sdk) : Type 0 where
  pub from_slice-to_vec :
      (input : AuthenticatorInput RawTx RawTx) → sdk.from_slice (sdk.to_vec input) ≡ ok input

-- Documented behaviour of the SDK: an authenticator that accepts a transaction returns the call that
-- the decoder of the same scheme reads from the same bytes.
pub record DecodesAlike (sdk : Sdk) : Type 0 where
  pub evm_call :
      (b : Bytes) (s s' : sdk.State) (t : sdk.TxAndHash) (a : sdk.AuthData) (c : sdk.EvmCall)
      → sdk.evm_authenticate b sdk.chain_hash s ≡ (ok (t, a, c), s')
      → (x : sdk.EvmTx) × (y : sdk.SignedTx) × (sdk.decode_evm_tx b ≡ ok (x, y)) × (c ≡ sdk.call x)
  pub eip712_call :
      (b : Bytes) (s s' : sdk.State) (t : sdk.TxAndHash) (a : sdk.AuthData) (c : sdk.RuntimeCall)
      → sdk.eip712_authenticate b s ≡ (ok (t, a, c), s')
      → sdk.decode_sov_tx_with_cryptospec b ≡ ok c
  pub standard_call :
      (b : Bytes) (s s' : sdk.State) (t : sdk.TxAndHash) (a : sdk.AuthData) (c : sdk.RuntimeCall)
      → sdk.standard_authenticate b sdk.chain_hash s ≡ (ok (t, a, c), s')
      → sdk.decode_sov_tx b ≡ ok c
