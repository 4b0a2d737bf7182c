-- ===== src/Acceptance/Soak/Teardown/Tests.antt =====
-- A soak run whose rollup exits at the end, with a worker that fails then.
use rollup_starter.Common.{
  true, false, String, List, [], ◌∷◌, none, some, ok, err, ◌≡◌, ◌≢◌, ◌↔◌, refl,
}
use rollup_starter.Acceptance.Slots.Tests.{slot_of, slot_json}
use rollup_starter.Acceptance.Process.{
  ManagedRollupProcess, ProcessError, times_out, sigkill, sigterm,
}
use rollup_starter.Acceptance.Soak.{
  SoakRunOptions, SoakError, Answers, Event, task_done, new_slot, rollup_exited, shutdown,
}
use rollup_starter.Acceptance.Soak.Teardown.{
  ThroughputReport, soak_coordinator, TaskEnd, cancelled, task_failed, still_running, finished,
  run_soak,
}
use rollup_starter.Acceptance.Soak.Teardown.Laws.{IsGone, RanWell, run_soak-RanWell}

abbrev options : SoakRunOptions
options = record {
  throughput_start_batch = 1;
  rollup_stop_height = 10;
  full_slot_save_interval = 5;
  save_slot_snapshots = false;
  snapshot_backfill_start = none;
}

abbrev answers : Answers
answers = record {
  batch_tx_end = some 12;
  reference_tx_end = some 4;
  full_slot = none;
  gap_slot = λ n. none;
  writable = true;
}

abbrev events : List Event
events = new_slot (slot_of 7 (2, 3) []) answers ∷ task_done ∷ rollup_exited (some true) ∷ []

abbrev tasks : List TaskEnd
tasks = cancelled ∷ task_failed "connection refused" ∷ []

abbrev process : ManagedRollupProcess
process = record { reaped = false; signals = []; waits = times_out ∷ [] }

abbrev show : SoakError → String
show e = "soak"

abbrev show_process : ProcessError → String
show_process e = "process"

abbrev report : ThroughputReport
report = record { num_txs = 8; num_slots = 1 }

run_soak_runs :
    run_soak slot_json options show show_process
      (ok (soak_coordinator ∷ []))
      events
      tasks
      []
      process
    ≡ (finished (ok report), record process { reaped = true })
unfolding run_soak
run_soak_runs = refl

-- A signal of the user makes the run fail, and the process is killed.
run_soak_interrupted :
    run_soak slot_json options show show_process (ok []) (shutdown ∷ []) [] [] process ≡ (
      finished (err "Primary error: soak\nAdditional error 1: process"),
      record { reaped = false; signals = sigkill ∷ sigkill ∷ sigterm ∷ []; waits = [] },
    )
unfolding run_soak
run_soak_interrupted = refl

run_soak-RanWell_example :
    let run =
      run_soak slot_json options show show_process
        (ok (soak_coordinator ∷ []))
        events
        tasks
        []
        process in
    (run.0 ≢ still_running → IsGone run.1)
    × ((run.0 ≡ finished (ok report))
        ↔ RanWell slot_json options show show_process
            (ok (soak_coordinator ∷ []))
            events
            tasks
            []
            process
            report)
run_soak-RanWell_example =
    run_soak-RanWell slot_json options show show_process (ok (soak_coordinator ∷ [])) events tasks
      [] process report
