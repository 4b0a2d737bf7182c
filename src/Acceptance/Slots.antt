-- ===== src/Acceptance/Slots.antt =====
-- The slots of the ledger API and their comparison in scripts/acceptance-test/src/fetch_and_compare.rs.
-- The JSON values of serde_json, and the conversion of slots to them, are the record `Json`.
pub mod Monitor
pub mod Fetcher
pub mod Laws
pub mod Tests
use rollup_starter.Common.{
  ℕ, Bool, true, false, not, ◌&&◌, String, List, [], ◌∷◌, Option, none, some, Result, ok, err,
  ◌>>=◌, ◌>>◌, map_err, ensure, ok_or, ◌==◌, str_eq, if◌then◌else◌,
}

-- `sov_api_spec::types::LedgerBatch` and `Slot`. Fields that are only compared for equality are texts.
pub record LedgerBatch : Type 0 where
  pub number : ℕ
  pub hash : String
  pub tx_range : ℕ × ℕ
  pub txs : List String
  pub receipt : String

pub record Slot : Type 0 where
  pub number : ℕ
  pub batch_range : ℕ × ℕ
  pub finality_status : String
  pub hash : String
  pub state_root : String
  pub timestamp : ℕ
  pub type_ : String
  pub batches : List LedgerBatch

pub record Json : Type 1 where
  pub Value : Type 0
  pub null : Value
  pub json_eq : Value → Value → Bool
  pub get : String → Value → Option Value
  -- `get_mut` and the assignment, which does nothing without an entry.
  pub set : String → Value → Value → Value
  pub remove : String → Value → Value
  pub to_value : Slot → Value
  pub from_value : Value → Option Slot
  pub to_string_pretty : Value → String
  pub from_str : String → Option Value

pub data SlotError : Type 0 where
  -- A failed `assert_eq!`, `unwrap` or `expect`.
  panicked : SlotError
  json_mismatch missing_snapshot invalid_snapshot write_failed api_failed : SlotError
  out_of_sequence : ℕ → ℕ → SlotError

abbrev pub texts_eq : List String → List String → Bool
texts_eq [] [] = true
texts_eq (s ∷ ss) (t ∷ ts) = str_eq s t && texts_eq ss ts
texts_eq _ _ = false

unfoldable pub batch_eq : LedgerBatch → LedgerBatch → Bool
batch_eq a b =
    (a.number == b.number)
    && str_eq a.hash b.hash
    && (a.tx_range.0 == b.tx_range.0)
    && (a.tx_range.1 == b.tx_range.1)
    && texts_eq a.txs b.txs
    && str_eq a.receipt b.receipt

unfoldable pub batches_eq : List LedgerBatch → List LedgerBatch → Bool
unfolding batch_eq
batches_eq [] [] = true
batches_eq (a ∷ xs) (b ∷ ys) = batch_eq a b && batches_eq xs ys
batches_eq _ _ = false

-- The assertions of `assert_slots_match_excluding_batches`.
unfoldable pub slots_match : Slot → Slot → Bool
slots_match a b =
    (a.batch_range.0 == b.batch_range.0)
    && (a.batch_range.1 == b.batch_range.1)
    && str_eq a.finality_status b.finality_status
    && str_eq a.hash b.hash
    && (a.number == b.number)
    && str_eq a.state_root b.state_root
    && (a.timestamp == b.timestamp)
    && str_eq a.type_ b.type_

unfoldable pub assert_slots_match_excluding_batches : Slot → Slot → Result SlotError (Unit {0})
unfolding slots_match
assert_slots_match_excluding_batches a b = ensure (slots_match a b) panicked

-- The saved snapshots: the number in a file's name, and its text. The name determines the number.
abbrev pub Files : Type 0
Files = List (ℕ × String)

abbrev pub read_file : Files → ℕ → Option String
read_file [] n = none
read_file ((k, text) ∷ files) n = if k == n then some text else read_file files n

module _ (json : Json) where
  open json use {Value}

  unfoldable pub slot_to_json : Slot → Bool → Value
  slot_to_json slot exclude_batches =
      let value = json.to_value slot in
      if exclude_batches then json.remove "batches" value else value

  unfoldable pub assert_slots_match_json_excluding_batches :
      Slot → Slot → Result SlotError (Unit {0})
  unfolding slot_to_json
  assert_slots_match_json_excluding_batches a b =
      ensure (json.json_eq (slot_to_json a true) (slot_to_json b true)) json_mismatch

  unfoldable pub compare_against_snapshot : Slot → Value → Bool → Result SlotError (Unit {0})
  unfolding slot_to_json
  compare_against_snapshot slot snapshot exclude_batches =
      ensure (json.json_eq (slot_to_json slot exclude_batches) snapshot) invalid_snapshot

  -- A file that is not JSON is a panic.
  unfoldable pub load_snapshot_json : ℕ → Files → Result SlotError Value
  load_snapshot_json number files = do
    text ← ok_or (read_file files number) missing_snapshot
    ok_or (json.from_str text) panicked

  unfoldable pub validate_against_snapshot : Slot → Files → Result SlotError (Unit {0})
  unfolding load_snapshot_json compare_against_snapshot
  validate_against_snapshot slot files = do
    snapshot ← load_snapshot_json slot.number files
    compare_against_snapshot slot snapshot false

  -- The flag is whether the file can be written.
  unfoldable pub save_slot_snapshot : Bool → Slot → Files → Result SlotError Files
  unfolding slot_to_json
  save_slot_snapshot writable slot files = do
    ensure writable write_failed
    ok ((slot.number, json.to_string_pretty (slot_to_json slot false)) ∷ files)
