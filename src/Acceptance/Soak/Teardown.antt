-- ===== src/Acceptance/Soak/Teardown.antt =====
-- `run_soak` of scripts/acceptance-test/src/lib.rs around its loop: the start of the background tasks,
-- and the teardown, which joins the tasks, stops the rollup and gathers the errors.
pub mod Laws
mod Tests
use rollup_starter.Common.{
  ℕ, zero, suc, ◌+◌, Bool, true, false, String, List, [], ◌∷◌, ◌++◌, Option, none, some, Result, ok,
  err, if◌then◌else◌, ◌>>=◌, map_err,
}
use rollup_starter.Common.Text.{◌<>◌}
use rollup_starter.Common.Codes.{Codes}
use rollup_starter.Acceptance.Slots.{Json, Files}
use rollup_starter.Acceptance.Process.{
  ManagedRollupProcess, ProcessError, Managing, shutdown, ensure_stopped, drop, combine_soak_errors,
}
use rollup_starter.Acceptance.Evm.{Address, StateConsistencyContracts}
use rollup_starter.Acceptance.Evm.Keys.{Hex, KeyError, pinned_worker_key, unpinned_worker_key}
use rollup_starter.Acceptance.Soak.{
  SoakRunOptions, Soak, SoakError, Break, break_ok, break_panic, break_err, ManagerStatus, exited,
  Event, rollup_exited, stream_closed, very_close, handle, run_loop, initial,
}

pub record ThroughputReport : Type 0 where
  pub num_txs : ℕ
  pub num_slots : ℕ

pub data Task : Type 0 where
  soak_coordinator state_validator : Task
  evm_worker : Address → Codes → String → Task

pub data StartError : Type 0 where
  no_client subscribe_failed load_failed : StartError
  key_failed : KeyError → StartError

-- The workers of one kind of contracts, from an index on.
pub evm_tasks :
    (ℕ → Result KeyError Codes) → String → ℕ → List Address → Result StartError (List Task)
evm_tasks worker_key label idx [] = ok []
evm_tasks worker_key label idx (address ∷ addresses) = do
  key ← map_err key_failed (worker_key idx)
  tasks ← evm_tasks worker_key label (idx + 1) addresses
  ok (evm_worker address key label ∷ tasks)

-- Up to the loop. The three clients, the subscription and the loading of the contracts are given.
unfoldable pub start_tasks :
    Hex
    → Result StartError (Unit {0})
    → Result StartError (Unit {0})
    → Result StartError StateConsistencyContracts
    → Result StartError (List Task)
unfolding evm_tasks
start_tasks hex client subscribed loaded = do
  connected ← client
  listening ← subscribed
  validator_client ← client
  contracts ← loaded
  pinned ← evm_tasks (pinned_worker_key hex) "pinned" 0 contracts.pinned
  unpinned ← evm_tasks (unpinned_worker_key hex) "unpinned" 0 contracts.unpinned
  backfill_client ← client
  ok (soak_coordinator ∷ state_validator ∷ pinned ++ unpinned)

-- How a task ends that is joined after `abort_all`.
pub data TaskEnd : Type 0 where
  completed cancelled : TaskEnd
  task_failed task_panicked : String → TaskEnd

unfoldable pub join_tasks : Bool → List TaskEnd → List String
join_tasks close [] = []
join_tasks close (completed ∷ tasks) = join_tasks close tasks
join_tasks close (cancelled ∷ tasks) = join_tasks close tasks
join_tasks close (task_failed e ∷ tasks) =
    let errors = join_tasks close tasks in if close then errors else e ∷ errors
join_tasks close (task_panicked e ∷ tasks) =
    ("Background task panicked during shutdown: " <> e) ∷ join_tasks close tasks

-- The loop's waits see the exit of the process.
abbrev pub reap : Event → ManagedRollupProcess → ManagedRollupProcess
reap (rollup_exited (some success)) p = record p { reaped = true }
reap (stream_closed (exited success)) p = record p { reaped = true }
reap event p = p

pub data SoakRun : Type 0 where
  -- The events end while the loop goes on.
  still_running : SoakRun
  -- A panic of the loop, which unwinds past the teardown and drops the process.
  unwound : SoakRun
  start_failed : StartError → SoakRun
  finished : Result String ThroughputReport → SoakRun

module _ (json : Json) (o : SoakRunOptions) (show : SoakError → String)
    (show_process : ProcessError → String) where
  abbrev primary_error : Option SoakError → Option String
  primary_error none = none
  primary_error (some e) = some (show e)

  unfoldable pub stop_rollup : Option String → Managing (Unit {0})
  unfolding shutdown ensure_stopped
  stop_rollup none = ensure_stopped
  stop_rollup (some e) = shutdown

  abbrev stop_errors : Result ProcessError (Unit {0}) → List String
  stop_errors (ok _) = []
  stop_errors (err e) = show_process e ∷ []

  abbrev pub report_of : Soak → ThroughputReport
  report_of s = record { num_txs = s.num_soak_txs; num_slots = s.num_soak_slots }

  abbrev outcome : Soak → Option String → Result String ThroughputReport
  outcome s none = ok (report_of s)
  outcome s (some e) = err e

  unfoldable pub teardown :
      Option SoakError
      → Soak
      → List TaskEnd
      → ManagedRollupProcess
      → Result String ThroughputReport × ManagedRollupProcess
  unfolding very_close join_tasks stop_rollup combine_soak_errors drop
  teardown error s tasks p =
      let primary = primary_error error in
      let stopped = stop_rollup primary p in
      let additional = join_tasks (very_close json o s) tasks ++ stop_errors stopped.0 in
      (outcome s (combine_soak_errors primary additional), drop stopped.1)

  -- The process after the events that the loop has handled.
  pub process_after : List Event → Soak → ManagedRollupProcess → ManagedRollupProcess
  unfolding handle
  process_after [] s p = p
  process_after (e ∷ es) s p =
      let (result, s') = handle json o e s in
      elim result [ ok _ ↦ process_after es s' (reap e p) | err _ ↦ reap e p ]

  -- The teardown, if the loop was left.
  abbrev finish :
      List TaskEnd
      → ManagedRollupProcess
      → Result Break (Unit {0}) × Soak
      → SoakRun × ManagedRollupProcess
  finish tasks p (ok _, s) = (still_running, p)
  finish tasks p (err break_panic, s) = (unwound, drop p)
  finish tasks p (err break_ok, s) = let done = teardown none s tasks p in (finished done.0, done.1)
  finish tasks p (err (break_err e), s) =
      let done = teardown (some e) s tasks p in (finished done.0, done.1)

  unfoldable pub run_soak :
      Result StartError (List Task)
      → List Event
      → List TaskEnd
      → Files
      → ManagedRollupProcess
      → SoakRun × ManagedRollupProcess
  unfolding run_loop teardown process_after drop
  run_soak (err e) events tasks files p = (start_failed e, drop p)
  run_soak (ok started) events tasks files p =
      finish tasks (process_after events (initial json o files) p)
        (run_loop json o events (initial json o files))
