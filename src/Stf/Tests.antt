-- ===== src/Stf/Tests.antt =====
-- A small SDK whose bytes begin with the tag of the scheme, and the theorems on crates/stf over it.
use rollup_starter.Common.{
  ap, arith, map_ok, ℕ, suc, zero, ◌+◌, ◌≡◌, refl, String, [], ◌∷◌, Result, ok, err,
}
use rollup_starter.Stf.Sdk.{
  Bytes, RawTx, Sdk, AuthenticatorInput, evm, eip712, standard, IsCodec, DecodesAlike,
  AuthenticationError, invalid_authentication_discriminant,
}
use rollup_starter.Stf.Authentication.{
  authenticate, authenticate_unregistered, compute_tx_hash, decode_serialized_tx, wrap_call,
  add_standard_auth, add_ethereum_auth, add_eip712_auth,
}
use rollup_starter.Stf.Authentication.Dispatch.{
  authenticate_unregistered-authenticate, decode_serialized_tx-authenticate,
  wrap_call-decode_serialized_tx,
}

abbrev sum : Bytes → ℕ
sum [] = 0
sum (b ∷ bs) = b + sum bs

abbrev tagged : AuthenticatorInput RawTx RawTx → Bytes
tagged (evm r) = 0 ∷ r.blob
tagged (eip712 r) = 1 ∷ r.blob
tagged (standard r) = 2 ∷ r.blob

abbrev untag : Bytes → Result String (AuthenticatorInput RawTx RawTx)
untag [] = err "empty"
untag (zero ∷ bs) = ok (evm (record { blob = bs }))
untag (suc zero ∷ bs) = ok (eip712 (record { blob = bs }))
untag (suc (suc zero) ∷ bs) = ok (standard (record { blob = bs }))
untag (suc (suc (suc n)) ∷ bs) = err "tag"

-- The state counts authentications, a call is the sum of the bytes, and an empty payload is refused.
abbrev toy_decode : Bytes → Result String ℕ
toy_decode [] = err "no payload"
toy_decode (b ∷ bs) = ok (sum (b ∷ bs))

abbrev toy_authenticate : ℕ → Bytes → ℕ → Result (AuthenticationError String ℕ ℕ) (ℕ × ℕ × ℕ) × ℕ
toy_authenticate tag [] s = (err (AuthenticationError.out_of_gas tag), s + 1)
toy_authenticate tag (b ∷ bs) s = (ok (tag, s, sum (b ∷ bs)), s + 1)

abbrev toy_evm_decode : Bytes → Result String (ℕ × ℕ)
toy_evm_decode [] = err "no payload"
toy_evm_decode (b ∷ bs) = ok (sum (b ∷ bs), 7)

abbrev toy : Sdk
toy = record {
  State = ℕ;
  ChainHash = ℕ;
  BorshError = String;
  FatalError = String;
  TxHash = ℕ;
  GasError = ℕ;
  TxAndHash = ℕ;
  AuthData = ℕ;
  EvmTx = ℕ;
  SignedTx = ℕ;
  hash = λ y. y;
  EvmCall = ℕ;
  call = λ x. x;
  RuntimeCall = ℕ;
  evm_runtime_call = λ x. x + 1000;
  chain_hash = 42;
  to_vec = tagged;
  from_slice = untag;
  borsh_message = λ e. e;
  deserialization_failed = λ e. e;
  fatal_deserialization_error = λ tx e s. (AuthenticationError.fatal_error e (sum tx), s + 1);
  evm_authenticate = λ b _ s. toy_authenticate 0 b s;
  eip712_authenticate = λ b s. toy_authenticate 1 b s;
  standard_authenticate = λ b _ s. toy_authenticate 2 b s;
  decode_evm_tx = toy_evm_decode;
  decode_sov_tx = toy_decode;
  decode_sov_tx_with_cryptospec = toy_decode;
  calculate_hash = sum;
}

toy-IsCodec : IsCodec toy
toy-IsCodec = record {
  from_slice-to_vec = elim [ evm r ↦ refl | eip712 r ↦ refl | standard r ↦ refl ];
}

alike :
    (tag : ℕ) (b : Bytes) (s s' t a c : ℕ)
    → toy_authenticate tag b s ≡ (ok (t, a, c), s')
    → toy_decode b ≡ ok c
alike tag [] s s' t a c h = absurd (cc (ap (λ q. q.0) h))
alike tag (b ∷ bs) s s' t a c h = ground arith

evm_alike :
    (b : Bytes) (s s' t a c : ℕ)
    → toy_authenticate 0 b s ≡ (ok (t, a, c), s')
    → (x : ℕ) × (h : ℕ) × (toy_evm_decode b ≡ ok (x, h)) × (c ≡ x)
evm_alike [] s s' t a c h = absurd (cc (ap (λ q. q.0) h))
evm_alike (b ∷ bs) s s' t a c h = (sum (b ∷ bs), 7, refl, ground arith)

toy-DecodesAlike : DecodesAlike toy
toy-DecodesAlike = record { evm_call = evm_alike; eip712_call = alike 1; standard_call = alike 2 }

abbrev raw : RawTx
raw = record { blob = 5 ∷ 6 ∷ [] }

dispatches :
    (authenticate toy (0 ∷ 5 ∷ 6 ∷ []) 3 ≡ (ok (0, 3, evm 11), 4))
    × (authenticate toy (1 ∷ 5 ∷ 6 ∷ []) 3 ≡ (ok (1, 3, eip712 11), 4))
    × (authenticate toy (2 ∷ 5 ∷ 6 ∷ []) 3 ≡ (ok (2, 3, standard 11), 4))
unfolding authenticate
dispatches = (refl, refl, refl)

authenticate_unregistered-authenticate_example :
    authenticate_unregistered toy (0 ∷ 5 ∷ 6 ∷ []) 3 ≡ (err invalid_authentication_discriminant, 3)
authenticate_unregistered-authenticate_example =
    authenticate_unregistered-authenticate toy (0 ∷ 5 ∷ 6 ∷ []) 3

decode_serialized_tx-authenticate_example : decode_serialized_tx toy (0 ∷ 5 ∷ 6 ∷ []) ≡ ok (evm 11)
unfolding authenticate
decode_serialized_tx-authenticate_example =
    decode_serialized_tx-authenticate toy toy-DecodesAlike (0 ∷ 5 ∷ 6 ∷ []) 3 4 0 3 (evm 11) refl

computes_hashes :
    (compute_tx_hash toy (1 ∷ 5 ∷ 6 ∷ []) ≡ ok 11)
    × (compute_tx_hash toy (2 ∷ 5 ∷ 6 ∷ []) ≡ ok 11)
    × (compute_tx_hash toy (0 ∷ 5 ∷ 6 ∷ []) ≡ ok 7)
unfolding compute_tx_hash
computes_hashes = (refl, refl, refl)

wrap_call-decode_serialized_tx_example :
    (map_ok (wrap_call toy) (decode_serialized_tx toy (1 ∷ 5 ∷ 6 ∷ [])) ≡ ok 11)
    × (map_ok (wrap_call toy) (decode_serialized_tx toy (2 ∷ 5 ∷ 6 ∷ [])) ≡ ok 11)
    × (map_ok (wrap_call toy) (decode_serialized_tx toy (0 ∷ 5 ∷ 6 ∷ [])) ≡ ok 1011)
unfolding add_standard_auth add_ethereum_auth add_eip712_auth
wrap_call-decode_serialized_tx_example = wrap_call-decode_serialized_tx toy toy-IsCodec raw
