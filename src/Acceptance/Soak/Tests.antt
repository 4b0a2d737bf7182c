-- ===== src/Acceptance/Soak/Tests.antt =====
-- A soak run that saves two slots after a gap of one.
use rollup_starter.Common.{true, List, [], ◌∷◌, none, some, ok, ◌≡◌, refl, arith}
use rollup_starter.Acceptance.Slots.Tests.{slot_of, slot_json}
use rollup_starter.Acceptance.Soak.{
  SoakRunOptions, Soak, Answers, Event, task_done, new_slot, run_loop, initial,
}
use rollup_starter.Acceptance.Soak.Counted.{Counts}
use rollup_starter.Acceptance.Soak.Counters.{run_loop-Counts}
use rollup_starter.Acceptance.Soak.Contiguous.{run_loop-HasFile}
use rollup_starter.Acceptance.Soak.Coverage.{HasFile}

abbrev options : SoakRunOptions
options = record {
  throughput_start_batch = 1;
  rollup_stop_height = 60;
  full_slot_save_interval = 5;
  save_slot_snapshots = true;
  snapshot_backfill_start = some 6;
}

abbrev answers : Answers
answers = record {
  batch_tx_end = some 12;
  reference_tx_end = some 4;
  full_slot = none;
  gap_slot = λ n. some (slot_of n (2, 2) []);
  writable = true;
}

abbrev events : List Event
events =
    new_slot (slot_of 7 (2, 3) []) answers ∷ task_done ∷ new_slot (slot_of 8 (3, 4) []) answers ∷ []

abbrev after : Soak
after = record {
  num_soak_txs = 8;
  num_soak_slots = 2;
  num_soak_batches = 2;
  num_previous_txs = some 4;
  snapshot_backfill_from = none;
  files = (8, "h") ∷ (7, "h") ∷ (6, "h") ∷ [];
}

run_loop_runs : run_loop slot_json options events (initial slot_json options []) ≡ (ok tt, after)
unfolding run_loop
run_loop_runs = refl

run_loop-HasFile_example : HasFile slot_json options after.files 6
run_loop-HasFile_example =
    run_loop-HasFile slot_json options events 6 7 6 [] after refl refl
      (refl, tt, (λ k. refl), (refl, tt, (λ k. refl), tt)) run_loop_runs refl (omega arith)
      (omega arith)

run_loop-Counts_example :
    Counts 2 2 (run_loop slot_json options events (initial slot_json options [])).1
run_loop-Counts_example = run_loop-Counts slot_json options events [] (omega arith)
