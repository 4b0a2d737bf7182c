-- ===== src/Acceptance/Plan/Bounds/Tests.antt =====
-- A directory with two snapshots and another file.
use rollup_starter.Common.{
  ℕ, true, String, List, [], ◌∷◌, Option, none, some, ok, ◌≡◌, refl, All, Any,
}
use rollup_starter.Acceptance.Slots.{Json, Files, load_snapshot_json}
use rollup_starter.Acceptance.Slots.Tests.{slot_of}
use rollup_starter.Acceptance.Plan.Versions.{RecordedDataBounds}
use rollup_starter.Acceptance.Plan.Bounds.{listed, batch_end, recorded_data_bounds}
use rollup_starter.Acceptance.Plan.Bounds.Laws.{EntryAtMost, EntryIs, recorded_data_bounds-eq-ok}

-- A value is a number; that of a snapshot is the end of its batches.
abbrev json : Json
json = record {
  Value = ℕ;
  null = 0;
  json_eq = λ a b. true;
  get = λ key v. some v;
  set = λ key root v. v;
  remove = λ key v. v;
  to_value = λ s. s.batch_range.1;
  from_value = λ v. some (slot_of v (0, v) []);
  to_string_pretty = λ v. "";
  from_str = λ s. some 30;
}

abbrev as_u64 : ℕ → Option ℕ
as_u64 v = some v

abbrev files : Files
files = (9, "") ∷ (34, "") ∷ []

abbrev entries : List (Option (Option String))
entries =
    some (some "slot_0034_with_children.json")
    ∷ some (some "notes.txt")
    ∷ some none
    ∷ some (some "slot_0009_with_children.json")
    ∷ []

abbrev bounds : RecordedDataBounds
bounds = record { last_slot_number = 34; end_rollup_height = 30 }

bounds_run : recorded_data_bounds json as_u64 files (listed entries) ≡ ok (some bounds)
unfolding recorded_data_bounds load_snapshot_json
bounds_run = refl

recorded_data_bounds-eq-ok_example :
    All (EntryAtMost 34) entries
    × Any (EntryIs 34) entries
    × ((snapshot : ℕ) × (load_snapshot_json json 34 files ≡ ok snapshot)
        × (batch_end json as_u64 files snapshot ≡ some 30))
recorded_data_bounds-eq-ok_example =
    recorded_data_bounds-eq-ok json as_u64 files entries bounds bounds_run
