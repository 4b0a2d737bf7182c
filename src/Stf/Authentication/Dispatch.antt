-- ===== src/Stf/Authentication/Dispatch.antt =====
-- What the authenticator does with each scheme.
use rollup_starter.Common.{
  ap, Bool, true, false, if◌then◌else◌, ◌≡◌, refl, arith, Result, ok, err, map_err, map_ok,
}
use rollup_starter.Stf.Sdk.{
  Sdk, Bytes, RawTx, AuthenticatorInput, evm, eip712, standard, IsCodec, DecodesAlike,
  invalid_authentication_discriminant,
}
use rollup_starter.Stf.Authentication.{
  wrap_third, authenticate, authenticate_unregistered, decode_serialized_tx, wrap_call,
  to_unregistered, Decodable, add_standard_auth, add_ethereum_auth, add_eip712_auth,
}

-- What a wrapped success was before it was wrapped.
wrap_third-eq-ok :
    {E T D A B S : Type 0} (f : A → B) (p : Result E (T × D × A) × S) {t : T} {d : D} {c : B}
    {s' : S}
    → wrap_third f p ≡ (ok (t, d, c), s')
    → (x : A) × (p ≡ (ok (t, d, x), s')) × (c ≡ f x)
wrap_third-eq-ok f (ok (t, d, x), s) h = (x, ground arith, ground arith)
wrap_third-eq-ok f (err e, s) h = absurd (cc (ap (λ q. q.0) h))

module _ (sdk : Sdk) where
  open sdk use {State, TxAndHash, AuthData}

  abbrev pub is_standard : {E : Type 0} → Result E (AuthenticatorInput RawTx RawTx) → Bool
  is_standard (ok (standard _)) = true
  is_standard _ = false

  -- The batch of an unregistered sequencer is treated as `authenticate` treats it, with the error
  -- mapped, if its transaction decodes to the standard scheme. Otherwise it is refused for its
  -- discriminant, the state unchanged.
  pub authenticate_unregistered-authenticate :
      (tx : Bytes) (s : State)
      → authenticate_unregistered sdk tx s ≡ (
          if is_standard (sdk.from_slice tx)
          then (map_err (to_unregistered sdk) (authenticate sdk tx s).0, (authenticate sdk tx s).1)
          else (err invalid_authentication_discriminant, s))
  unfolding authenticate authenticate_unregistered
  authenticate_unregistered-authenticate tx s = go (sdk.from_slice tx) refl
    where
      go :
          (r : Result sdk.BorshError (AuthenticatorInput RawTx RawTx))
          → sdk.from_slice tx ≡ r
          → authenticate_unregistered sdk tx s ≡ (
              if is_standard (sdk.from_slice tx)
              then (
                map_err (to_unregistered sdk) (authenticate sdk tx s).0,
                (authenticate sdk tx s).1,
              )
              else (err invalid_authentication_discriminant, s))
      go (ok (standard raw)) e = rw (e, authenticate, authenticate_unregistered)
      go (ok (evm raw)) e = rw (e, authenticate, authenticate_unregistered)
      go (ok (eip712 raw)) e = rw (e, authenticate, authenticate_unregistered)
      go (err x) e = rw (e, authenticate, authenticate_unregistered)

  -- What a client decodes from a transaction is what its authentication returns, scheme and call, if
  -- the SDK's authenticators return the calls that its decoders read.
  pub decode_serialized_tx-authenticate :
      DecodesAlike sdk
      → (tx : Bytes) (s s' : State) (t : TxAndHash) (a : AuthData) (c : Decodable sdk)
      → authenticate sdk tx s ≡ (ok (t, a, c), s')
      → decode_serialized_tx sdk tx ≡ ok c
  unfolding authenticate decode_serialized_tx
  decode_serialized_tx-authenticate alike tx s s' t a c h = go (sdk.from_slice tx) refl
    where
      go :
          (r : Result sdk.BorshError (AuthenticatorInput RawTx RawTx))
          → sdk.from_slice tx ≡ r
          → decode_serialized_tx sdk tx ≡ ok c
      go (ok (standard raw)) e =
          let (x, k, l) = wrap_third-eq-ok standard _ (rw (e, authenticate) at h) in
          rw (e, decode_serialized_tx) (rw (alike.standard_call raw.blob s s' t a x k, l))
      go (ok (evm raw)) e =
          let (x, k, l) = wrap_third-eq-ok evm _ (rw (e, authenticate) at h) in
          let (y, _, m, n) = alike.evm_call raw.blob s s' t a x k in
          rw (e, decode_serialized_tx) (rw (m, l, n))
      go (ok (eip712 raw)) e =
          let (x, k, l) = wrap_third-eq-ok eip712 _ (rw (e, authenticate) at h) in
          rw (e, decode_serialized_tx) (rw (alike.eip712_call raw.blob s s' t a x k, l))
      go (err x) e = absurd (cc (ap (λ q. q.0) (rw (e, authenticate) at h)))

  wrap_call-standard :
      (r : Result sdk.FatalError sdk.RuntimeCall) → map_ok (wrap_call sdk) (map_ok standard r) ≡ r
  unfolding wrap_call
  wrap_call-standard (ok c) = refl
  wrap_call-standard (err e) = refl

  wrap_call-eip712 :
      (r : Result sdk.FatalError sdk.RuntimeCall) → map_ok (wrap_call sdk) (map_ok eip712 r) ≡ r
  unfolding wrap_call
  wrap_call-eip712 (ok c) = refl
  wrap_call-eip712 (err e) = refl

  wrap_call-evm :
      (r : Result sdk.FatalError (sdk.EvmTx × sdk.SignedTx))
      → map_ok (wrap_call sdk) (map_ok (λ (x, _). evm (sdk.call x)) r)
        ≡ map_ok (λ (x, _). sdk.evm_runtime_call (sdk.call x)) r
  unfolding wrap_call
  wrap_call-evm (ok c) = refl
  wrap_call-evm (err e) = refl

  -- The runtime call that a decoded transaction is wrapped into: under the EIP-712 and the standard
  -- scheme the call that the scheme's decoder reads, under the EVM scheme the decoded transaction as
  -- a call of the EVM module; or the decoder's error.
  pub wrap_call-decode_serialized_tx :
      IsCodec sdk
      → (raw : RawTx)
      → (map_ok (wrap_call sdk) (decode_serialized_tx sdk (sdk.to_vec (add_eip712_auth raw)))
          ≡ sdk.decode_sov_tx_with_cryptospec raw.blob)
        × (map_ok (wrap_call sdk) (decode_serialized_tx sdk (sdk.to_vec (add_standard_auth raw)))
            ≡ sdk.decode_sov_tx raw.blob)
        × (map_ok (wrap_call sdk) (decode_serialized_tx sdk (sdk.to_vec (add_ethereum_auth raw)))
            ≡ map_ok (λ (x, _). sdk.evm_runtime_call (sdk.call x)) (sdk.decode_evm_tx raw.blob))
  unfolding decode_serialized_tx wrap_call add_standard_auth add_ethereum_auth add_eip712_auth
  wrap_call-decode_serialized_tx codec raw = (
    rw (codec.from_slice-to_vec, decode_serialized_tx)
        (wrap_call-eip712 (sdk.decode_sov_tx_with_cryptospec raw.blob)),
    rw (codec.from_slice-to_vec, decode_serialized_tx)
        (wrap_call-standard (sdk.decode_sov_tx raw.blob)),
    rw (codec.from_slice-to_vec, decode_serialized_tx) (wrap_call-evm (sdk.decode_evm_tx raw.blob)),
  )
