-- ===== src/Acceptance/Evm/Keys/Laws.antt =====
-- No two signers of the EVM transactions share a key.
use rollup_starter.Common.{
  ℕ, ◌+◌, ◌%◌, ◌<◌, ◌≤◌, leb, true, ◌∷◌, some, Result, ok, ◌==◌, ◌≡◌, refl, ap, ◌∙◌, arith, length,
  All, ==_iff,
}
use rollup_starter.Common.Codes.{Codes}
use rollup_starter.Acceptance.Evm.Keys.{
  Hex, KeyError, privileged_deployer_key, shift_key, derive_worker_key, unprivileged_deployer_key,
  pinned_worker_key, unpinned_worker_key, worker_key_for_index,
}

-- The deployers, and the workers of the pinned and of the unpinned contracts.
pub data Signer : Type 0 where
  privileged unprivileged : Signer
  pinned unpinned : ℕ → Signer

abbrev pub key_of : Hex → Signer → Result KeyError Codes
key_of hex privileged = ok privileged_deployer_key
key_of hex unprivileged = unprivileged_deployer_key hex
key_of hex (pinned idx) = pinned_worker_key hex idx
key_of hex (unpinned idx) = unpinned_worker_key hex idx

-- How far the first byte is shifted.
abbrev offset_of : Signer → ℕ
offset_of privileged = 0
offset_of unprivileged = 1
offset_of (pinned idx) = 10 + idx
offset_of (unpinned idx) = 60 + idx

-- 50 workers of pinned contracts at most, and 196 of unpinned ones.
abbrev pub IsUsed : Signer → Type 0
IsUsed privileged = Unit
IsUsed unprivileged = Unit
IsUsed (pinned idx) = idx < 50
IsUsed (unpinned idx) = idx < 196

abbrev pub IsByte : ℕ → Type 0
IsByte b = b < 256

offset_of-lt : (r : Signer) → IsUsed r → offset_of r < 256
offset_of-lt r h = ground arith

offset_of-injective : (r s : Signer) → IsUsed r → IsUsed s → offset_of r ≡ offset_of s → r ≡ s
offset_of-injective r s h k e = ground arith

module _ (hex : Hex) (b : ℕ) (bytes : Codes)
    (decoded : hex.decode privileged_deployer_key ≡ some (b ∷ bytes))
    (size : length (b ∷ bytes) ≡ 32) (all_bytes : All IsByte (b ∷ bytes))
    (decode-encode : (bs : Codes) → All IsByte bs → hex.decode (hex.encode bs) ≡ some bs) where
  -- A key that was found, with the bytes that it encodes.
  Shifted : ℕ → Result KeyError Codes → Type 0
  Shifted offset key =
      (k : Codes) × (key ≡ ok k) × (hex.decode k ≡ some ((b + offset) % 256 ∷ bytes))

  derive-Shifted : (idx : ℕ) → Shifted idx (derive_worker_key hex privileged_deployer_key idx)
  unfolding Shifted derive_worker_key shift_key
  derive-Shifted idx =
      let full : (length (b ∷ bytes) == 32) ≡ true = (==_iff (length (b ∷ bytes)) 32).1 size in
      rw (decoded, derive_worker_key)
        (
          hex.encode ((b + idx) % 256 ∷ bytes),
          rw full,
          decode-encode ((b + idx) % 256 ∷ bytes) (omega arith, all_bytes.1),
        )

  -- The offset and the index are added as bytes, and then to the first byte.
  worker-Shifted :
      (offset idx : ℕ) → idx ≤ 255 → Shifted (offset + idx) (worker_key_for_index hex offset idx)
  unfolding Shifted worker_key_for_index
  worker-Shifted offset idx small =
      let within : leb idx 255 ≡ true = ground arith in
      let (k, p, d) = derive-Shifted ((offset + idx) % 256) in
      let twice : (b + (offset + idx) % 256) % 256 ≡ (b + (offset + idx)) % 256 = omega arith in
      rw within (k, p, d ∙ ap (λ x. some (x ∷ bytes)) twice)

  key_of-Shifted : (r : Signer) → IsUsed r → Shifted (offset_of r) (key_of hex r)
  unfolding Shifted unprivileged_deployer_key pinned_worker_key unpinned_worker_key
  key_of-Shifted privileged h = (
    privileged_deployer_key,
    refl,
    decoded ∙ ap (λ x. some (x ∷ bytes)) (omega (arith, all_bytes.0)),
  )
  key_of-Shifted unprivileged h = derive-Shifted 1
  key_of-Shifted (pinned idx) h = worker-Shifted 10 idx (omega arith)
  key_of-Shifted (unpinned idx) h = worker-Shifted 60 idx (omega arith)

  -- Every deployer and worker has a key, and no two of them have the same, for at most 50 pinned and 196
  -- unpinned contracts; the hex library decodes the deployer's key to 32 bytes, and what it encodes to
  -- the same bytes.
  pub key_of-injective :
      (r s : Signer)
      → IsUsed r
      → IsUsed s
      → ((k : Codes) × (key_of hex r ≡ ok k)) × (key_of hex r ≡ key_of hex s → r ≡ s)
  unfolding Shifted
  key_of-injective r s h k =
      let (x, p, d) = key_of-Shifted r h in
      let (y, q, e) = key_of-Shifted s k in
      (
        (x, p),
        λ same.
            let first : (b + offset_of r) % 256 ≡ (b + offset_of s) % 256 = cc in
            offset_of-injective r s h k (omega (arith, first, offset_of-lt r h, offset_of-lt s k)),
      )
