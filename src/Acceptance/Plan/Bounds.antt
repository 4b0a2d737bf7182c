-- ===== src/Acceptance/Plan/Bounds.antt =====
-- `recorded_data_bounds` of scripts/acceptance-test/src/versioned_setup.rs. The snapshots directory is the
-- listing of its names, none for a name that is not Unicode, or none if it is no directory.
pub mod Laws
mod Tests
use Prim.Native.Char.{Char, code}
use Prim.Native.String.{count}
use text.Mathlib.Text.{starts_with}
use rollup_starter.Common.{
  ℕ, zero, suc, ◌+◌, ◌-◌, ◌*◌, ◌^◌, max, Bool, true, false, ◌&&◌, String, List, [], ◌∷◌, Option,
  none, some, Result, ok, err, ltb, leb, str_eq, if◌then◌else◌, u64_mod, ◌≡◌, refl, ◌>>=◌, map_err,
  ok_or,
}
use rollup_starter.Acceptance.Plan.Versions.{RecordedDataBounds}
use rollup_starter.Acceptance.Slots.{Json, Files, SlotError, load_snapshot_json}

-- `str::strip_prefix`, for a prefix that the text has.
abbrev skip : ℕ → String → String
skip zero s = s
skip (suc n) String.[] = ""
skip (suc n) (String.◌∷◌ c s) = skip n s

strip_prefix : String → String → Option String
strip_prefix prefix s = if starts_with s prefix then some (skip (count prefix) s) else none

-- `parse::<u64>` of the characters before the suffix, with the value so far; `some_digit` is whether there
-- was a digit.
abbrev is_digit : Char → Bool
is_digit c = leb 48 (code c) && leb (code c) 57

parse_until : String → Bool → ℕ → String → Option ℕ
parse_until suffix some_digit value String.[] = none
parse_until suffix some_digit value (String.◌∷◌ c s) =
    let next = parse_until suffix true (value * 10 + (code c - 48)) s in
    let here = if some_digit && ltb value u64_mod then some value else none in
    if str_eq (String.◌∷◌ c s) suffix then here else if is_digit c then next else none

-- A leading `+` is allowed by the parser.
abbrev parse_u64_until : String → String → Option ℕ
parse_u64_until suffix String.[] = none
parse_u64_until suffix (String.◌∷◌ c s) =
    if leb 43 (code c) && leb (code c) 43
    then parse_until suffix false 0 s
    else parse_until suffix false 0 (String.◌∷◌ c s)

abbrev of_rest : Option String → Option ℕ
of_rest none = none
of_rest (some rest) = parse_u64_until "_with_children.json" rest

unfoldable pub slot_number : String → Option ℕ
unfolding strip_prefix parse_until
slot_number name = of_rest (strip_prefix "slot_" name)

abbrev pub max_of : Option ℕ → ℕ → ℕ
max_of none n = n
max_of (some m) n = max m n

abbrev pub number_of : Option String → Option ℕ
unfolding slot_number
number_of none = none
number_of (some name) = slot_number name

slot_number_runs : slot_number "slot_0042_with_children.json" ≡ some 42
unfolding slot_number
slot_number_runs = refl

slot_number_fails : slot_number "slot_4x_with_children.json" ≡ none
unfolding slot_number
slot_number_fails = refl

pub data Listing : Type 0 where
  no_directory unreadable : Listing
  -- The entries; an entry that cannot be read has no value.
  listed : List (Option (Option String)) → Listing

pub data BoundsError : Type 0 where
  read_dir_failed entry_failed no_batch_end : BoundsError
  load_failed : SlotError → BoundsError

abbrev pub larger : Option ℕ → Option ℕ → Option ℕ
larger highest none = highest
larger highest (some n) = some (max_of highest n)

unfoldable pub last_slot : List (Option (Option String)) → Option ℕ → Result BoundsError (Option ℕ)
unfolding number_of
last_slot [] highest = ok highest
last_slot (none ∷ entries) highest = err entry_failed
last_slot (some name ∷ entries) highest = last_slot entries (larger highest (number_of name))

module _ (json : Json) (as_u64 : json.Value → Option ℕ) (files : Files) where
  abbrev pub and_then : {A B : Type 0} → Option A → (A → Option B) → Option B
  and_then none f = none
  and_then (some a) f = f a

  abbrev pub batch_end : json.Value → Option ℕ
  batch_end snapshot =
      and_then (and_then (json.get "batch_range" snapshot) (λ range. json.get "end" range)) as_u64

  abbrev pub bounds_of : Option ℕ → Result BoundsError (Option RecordedDataBounds)
  bounds_of none = ok none
  bounds_of (some number) = do
    snapshot ← map_err load_failed (load_snapshot_json json number files)
    end ← ok_or (batch_end snapshot) no_batch_end
    ok (some (record { last_slot_number = number; end_rollup_height = end }))

  unfoldable pub recorded_data_bounds : Listing → Result BoundsError (Option RecordedDataBounds)
  unfolding last_slot
  recorded_data_bounds no_directory = ok none
  recorded_data_bounds unreadable = err read_dir_failed
  recorded_data_bounds (listed entries) = do highest ← last_slot entries none; bounds_of highest
