-- ===== src/Stf/Authentication.antt =====
-- crates/stf/src/authentication.rs, `EvmAndEip712Authenticator`, with `wrap_call` of
-- crates/stf/src/runtime.rs and the two constructors of inputs in crates/stf/src/delegation.rs.
-- `sov_modules_api::FullyBakedTx` is its bytes; the state accessor is passed on explicitly.
pub mod Dispatch
use rollup_starter.Common.{Result, ok, err, ◌>>=◌, map_err, map_ok}
use rollup_starter.Stf.Sdk.{
  Sdk, Bytes, RawTx, AuthenticatorInput, evm, eip712, standard, AuthenticationError,
  UnregisteredAuthenticationError, invalid_authentication_discriminant,
}

-- The triple of an authenticator, its call wrapped in a variant.
abbrev pub wrap_third {ℓ} :
    {E T D A B : Type ℓ} {S : Type ℓ}
    → (A → B)
    → Result E (T × D × A) × S
    → Result E (T × D × B) × S
wrap_third f (r, s) = (map_ok (λ (t, d, a). (t, d, f a)) r, s)

module _ (sdk : Sdk) where
  open sdk use {
    State, ChainHash, BorshError, FatalError, TxHash, GasError, TxAndHash, AuthData, EvmCall,
    RuntimeCall, chain_hash,
  }

  abbrev pub Decodable : Type 0
  Decodable = AuthenticatorInput EvmCall RuntimeCall

  abbrev pub AuthError : Type 0
  AuthError = AuthenticationError FatalError TxHash GasError

  abbrev pub UnregisteredError : Type 0
  UnregisteredError = UnregisteredAuthenticationError FatalError TxHash GasError

  unfoldable pub authenticate :
      Bytes → State → Result AuthError (TxAndHash × AuthData × Decodable) × State
  authenticate tx s = elim (sdk.from_slice tx) [
    | err e ↦ let (e', s') = sdk.fatal_deserialization_error tx e s in (err e', s')
    | ok (evm raw) ↦ wrap_third evm (sdk.evm_authenticate raw.blob chain_hash s)
    | ok (eip712 raw) ↦ wrap_third eip712 (sdk.eip712_authenticate raw.blob s)
    | ok (standard raw) ↦ wrap_third standard (sdk.standard_authenticate raw.blob chain_hash s)
  ]

  -- An error of borsh or of the EVM decoder is passed on as it is by `?`.
  pub data HashError : Type 0 where
    borsh : BorshError → HashError
    fatal : FatalError → HashError

  unfoldable pub compute_tx_hash : Bytes → Result HashError TxHash
  compute_tx_hash tx = elim (sdk.from_slice tx) [
    | err e ↦ err (borsh e)
    | ok (evm raw) ↦ map_err fatal (map_ok (λ (_, y). sdk.hash y) (sdk.decode_evm_tx raw.blob))
    | ok (eip712 raw) ↦ ok (sdk.calculate_hash raw.blob)
    | ok (standard raw) ↦ ok (sdk.calculate_hash raw.blob)
  ]

  unfoldable pub decode_serialized_tx : Bytes → Result FatalError Decodable
  decode_serialized_tx tx = elim (sdk.from_slice tx) [
    | err e ↦ err (sdk.deserialization_failed (sdk.borsh_message e))
    | ok (evm raw) ↦ map_ok (λ (x, _). evm (sdk.call x)) (sdk.decode_evm_tx raw.blob)
    | ok (standard raw) ↦ map_ok standard (sdk.decode_sov_tx raw.blob)
    | ok (eip712 raw) ↦ map_ok eip712 (sdk.decode_sov_tx_with_cryptospec raw.blob)
  ]

  abbrev pub to_unregistered : AuthError → UnregisteredError
  to_unregistered (AuthenticationError.fatal_error e h) =
      UnregisteredAuthenticationError.fatal_error e h
  to_unregistered (AuthenticationError.out_of_gas e) = UnregisteredAuthenticationError.out_of_gas e

  -- The error of the authenticator, mapped; what it wrote to the state stays.
  abbrev map_err_first {ℓ} :
      {A : Type ℓ} → Result AuthError A × State → Result UnregisteredError A × State
  map_err_first (r, s) = (map_err to_unregistered r, s)

  -- A batch from a sequencer that is not registered holds one transaction.
  unfoldable pub authenticate_unregistered :
      Bytes → State → Result UnregisteredError (TxAndHash × AuthData × Decodable) × State
  authenticate_unregistered tx s = elim (sdk.from_slice tx) [
    | ok (standard raw) ↦
        map_err_first (wrap_third standard (sdk.standard_authenticate raw.blob chain_hash s))
    | _ ↦ (err invalid_authentication_discriminant, s)
  ]

  unfoldable pub wrap_call : Decodable → RuntimeCall
  wrap_call (evm c) = sdk.evm_runtime_call c
  wrap_call (eip712 c) = c
  wrap_call (standard c) = c

unfoldable pub add_standard_auth : RawTx → AuthenticatorInput RawTx RawTx
add_standard_auth tx = standard tx

unfoldable pub add_ethereum_auth : RawTx → AuthenticatorInput RawTx RawTx
add_ethereum_auth tx = evm tx

unfoldable pub add_eip712_auth : RawTx → AuthenticatorInput RawTx RawTx
add_eip712_auth tx = eip712 tx
