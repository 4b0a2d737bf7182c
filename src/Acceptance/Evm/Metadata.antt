-- ===== src/Acceptance/Evm/Metadata.antt =====
-- The files that scripts/acceptance-test/src/evm_soak.rs keeps beside the recorded data: the contracts'
-- addresses and the configuration of the cache. Both are texts, with the JSON of serde_json and the
-- addresses' texts as arguments.
use rollup_starter.Common.{
  Bool, true, false, List, [], ◌∷◌, Option, none, some, map, Result, ok, err, ◌>>=◌, ok_or,
  if◌then◌else◌, ◌≡◌, refl,
}
use rollup_starter.Common.Codes.{Codes}
use rollup_starter.Acceptance.Evm.{Address, StateConsistencyContracts}

pub record StateConsistencyMetadata : Type 0 where
  pub pinned_addresses : List Codes
  pub unpinned_addresses : List Codes

-- serde_json on the metadata, and `{:#x}` and `parse` of an address.
pub record Format : Type 0 where
  pub to_string_pretty : StateConsistencyMetadata → Codes
  pub from_str : Codes → Option StateConsistencyMetadata
  pub show_address : Address → Codes
  pub parse_address : Codes → Option Address

pub data MetadataError : Type 0 where
  create_failed write_failed read_failed parse_failed invalid_address : MetadataError

-- A file, and whether its directory can be created and it can be written.
pub record MetadataFile : Type 0 where
  pub contents : Option Codes
  pub can_create : Bool
  pub writable : Bool

pub write_file : Codes → MetadataFile → Result MetadataError (Unit {0}) × MetadataFile
write_file text file =
    if file.writable
    then (ok tt, record file { contents = some text })
    else (err write_failed, file)

module _ (format : Format) where
  abbrev metadata_of : StateConsistencyContracts → StateConsistencyMetadata
  metadata_of contracts = record {
    pinned_addresses = map format.show_address contracts.pinned;
    unpinned_addresses = map format.show_address contracts.unpinned;
  }

  abbrev text_of : StateConsistencyContracts → Codes
  text_of contracts = format.to_string_pretty (metadata_of contracts)

  unfoldable pub write_state_consistency_metadata :
      StateConsistencyContracts → MetadataFile → Result MetadataError (Unit {0}) × MetadataFile
  unfolding write_file
  write_state_consistency_metadata contracts file =
      if file.can_create then write_file (text_of contracts) file else (err create_failed, file)

  parse_addresses : List Codes → Result MetadataError (List Address)
  parse_addresses [] = ok []
  parse_addresses (text ∷ texts) = do
    address ← ok_or (format.parse_address text) invalid_address
    addresses ← parse_addresses texts
    ok (address ∷ addresses)

  unfoldable pub load_state_consistency_contracts :
      MetadataFile → Result MetadataError StateConsistencyContracts
  unfolding parse_addresses
  load_state_consistency_contracts file = do
    raw ← ok_or file.contents read_failed
    metadata ← ok_or (format.from_str raw) parse_failed
    pinned ← parse_addresses metadata.pinned_addresses
    unpinned ← parse_addresses metadata.unpinned_addresses
    ok (record { pinned = pinned; unpinned = unpinned })

  parse_addresses-map :
      ((a : Address) → format.parse_address (format.show_address a) ≡ some a)
      → (addresses : List Address)
      → parse_addresses (map format.show_address addresses) ≡ ok addresses
  unfolding parse_addresses
  parse_addresses-map h [] = refl
  parse_addresses-map h (a ∷ as_) = rw (h a) (rw (parse_addresses-map h as_))

  -- What a run saves, a later run loads.
  pub load-write :
      (contracts : StateConsistencyContracts) (file file' : MetadataFile)
      → ((a : Address) → format.parse_address (format.show_address a) ≡ some a)
      → ((m : StateConsistencyMetadata) → format.from_str (format.to_string_pretty m) ≡ some m)
      → write_state_consistency_metadata contracts file ≡ (ok tt, file')
      → load_state_consistency_contracts file' ≡ ok contracts
  unfolding load_state_consistency_contracts write_state_consistency_metadata write_file
  load-write contracts file file' h k e = go file.can_create refl file.writable refl
    where
      found :
          load_state_consistency_contracts (record file { contents = some (text_of contracts) })
          ≡ ok contracts
      found = rw (k (metadata_of contracts)) (
          rw (parse_addresses-map h contracts.pinned)
            (rw (parse_addresses-map h contracts.unpinned)))

      go :
          (b : Bool)
          → file.can_create ≡ b
          → (c : Bool) → file.writable ≡ c
          → load_state_consistency_contracts file' ≡ ok contracts
      go true p true q =
          let saved : file' ≡ record file { contents = some (text_of contracts) } = cc (
            rw (p, write_state_consistency_metadata) at
              (rw (q, write_state_consistency_metadata) at e)) in
          rw saved found
      go false p c q = absurd (cc (rw (p, write_state_consistency_metadata) at e))
      go true p false q = absurd (
          cc (
            rw (p, write_state_consistency_metadata) at
              (rw (q, write_state_consistency_metadata) at e)))

-- The configuration of the cache: `exists` is whether there is a file, of which only the one flag is read.
unfoldable pub ensure_evm_pinned_cache_config :
    (Codes → Option Bool)
    → (Bool → Codes)
    → Bool
    → MetadataFile
    → Result MetadataError (Unit {0}) × MetadataFile
unfolding write_file
ensure_evm_pinned_cache_config from_str to_string_pretty exists file =
    if exists
    then (elim file.contents as (λ _. Result MetadataError (Unit {0}) × MetadataFile) [
      | none ↦ (err read_failed, file)
      | some raw ↦ elim (from_str raw) as (λ _. Result MetadataError (Unit {0}) × MetadataFile) [
        | none ↦ (err parse_failed, file)
        | some config ↦ write_file (to_string_pretty config) file
      ]
    ])
    else write_file (to_string_pretty false) file
