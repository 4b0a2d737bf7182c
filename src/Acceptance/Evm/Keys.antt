-- ===== src/Acceptance/Evm/Keys.antt =====
-- The private keys of the deployers and workers in scripts/acceptance-test/src/evm_soak.rs. The hex
-- encoding is that of a library.
pub mod Laws
use rollup_starter.Common.{
  ℕ, ◌+◌, ◌%◌, ◌<◌, Bool, true, false, List, [], ◌∷◌, Option, none, some, Result, ok, err, leb,
  ◌==◌, if◌then◌else◌, length,
}
use rollup_starter.Common.Codes.{Codes, codes}

pub record Hex : Type 0 where
  pub decode : Codes → Option Codes
  pub encode : Codes → Codes

pub data KeyError : Type 0 where
  invalid_hex invalid_length index_too_large : KeyError

abbrev pub privileged_deployer_key : Codes
privileged_deployer_key = codes "ac0974bec39a17e36ba4a6b4d238ff944bacb478cbed5efcae784d7bf4f2ff80"

-- The arithmetic of `u8`.
abbrev pub wrapping_add8 : ℕ → ℕ → ℕ
wrapping_add8 a b = (a + b) % 256

abbrev pub unprivileged_deployer_offset : ℕ
unprivileged_deployer_offset = 1

abbrev pub pinned_worker_key_offset : ℕ
pinned_worker_key_offset = 10

abbrev pub unpinned_worker_key_offset : ℕ
unpinned_worker_key_offset = 60

module _ (hex : Hex) where
  -- The conversion to 32 bytes, and the shift of the first.
  shift_key : ℕ → Codes → Result KeyError Codes
  shift_key worker_idx [] = err invalid_length
  shift_key worker_idx (b ∷ bytes) =
      if length (b ∷ bytes) == 32
      then ok (hex.encode (wrapping_add8 b worker_idx ∷ bytes))
      else err invalid_length

  pub derive_worker_key : Codes → ℕ → Result KeyError Codes
  unfolding shift_key
  derive_worker_key root_key worker_idx = elim (hex.decode root_key) [
    | none ↦ err invalid_hex
    | some key_bytes ↦ shift_key worker_idx key_bytes
  ]

  unfoldable pub unprivileged_deployer_key : Result KeyError Codes
  unfolding derive_worker_key
  unprivileged_deployer_key = derive_worker_key privileged_deployer_key unprivileged_deployer_offset

  pub worker_key_for_index : ℕ → ℕ → Result KeyError Codes
  unfolding derive_worker_key
  worker_key_for_index offset idx =
      if leb idx 255
      then derive_worker_key privileged_deployer_key (wrapping_add8 offset idx)
      else err index_too_large

  unfoldable pub pinned_worker_key : ℕ → Result KeyError Codes
  unfolding worker_key_for_index
  pinned_worker_key idx = worker_key_for_index pinned_worker_key_offset idx

  unfoldable pub unpinned_worker_key : ℕ → Result KeyError Codes
  unfolding worker_key_for_index
  unpinned_worker_key idx = worker_key_for_index unpinned_worker_key_offset idx
