-- ===== src/Acceptance/Shutdown.antt =====
-- The shutdown signals of scripts/acceptance-test/src/lib.rs, and the waits that they cut short.
pub mod Laws
use rollup_starter.Common.{
  Bool, true, false, List, [], ◌∷◌, Option, none, some, Result, ok, err, if◌then◌else◌,
}

pub data ShutdownReason : Type 0 where
  sig_int sig_term sig_quit sig_hup : ShutdownReason

-- `sleep_or_shutdown`: what comes first, the end of the sleep or a reason.
unfoldable pub sleep_or_shutdown : Option ShutdownReason → Result ShutdownReason (Unit {0})
sleep_or_shutdown none = ok tt
sleep_or_shutdown (some reason) = err reason

pub data WaitError : Type 0 where
  not_available : WaitError
  interrupted : ShutdownReason → WaitError
  -- The list of attempts ends while the code waits.
  still_waiting : WaitError

-- An attempt: whether the endpoint answers with success, whether the deadline has passed, and the signal
-- that comes in the sleep after it.
pub record Attempt : Type 0 where
  pub answers : Bool
  pub past_deadline : Bool
  pub signal : Option ShutdownReason

unfoldable pub wait_for_endpoint : List Attempt → Result WaitError (Unit {0})
unfolding sleep_or_shutdown
wait_for_endpoint [] = err still_waiting
wait_for_endpoint (a ∷ attempts) =
    let rest = wait_for_endpoint attempts in
    let slept : Result WaitError (Unit {0}) = elim (sleep_or_shutdown a.signal) [
      | ok _ ↦ rest
      | err reason ↦ err (interrupted reason)
    ] in
    if a.answers then ok tt else if a.past_deadline then err not_available else slept

-- How the task that runs the test ends. An aborted task may still return.
pub data TaskResult {ℓ} (E : Type ℓ) (T : Type ℓ) : Type ℓ where
  returned : Result E T → TaskResult E T
  panicked cancelled : TaskResult E T

pub data TopError {ℓ} (E : Type ℓ) : Type ℓ where
  no_handler : TopError E
  failed : E → TopError E
  task_panicked panicked_in_shutdown : TopError E
  shutdown_error : ShutdownReason → TopError E

module _ {ℓ} {E T : Type ℓ} where
  -- `JoinError` is printed for a task that was cancelled as well.
  unfoldable pub flatten_top_level_task_result : TaskResult E T → Result (TopError E) T
  flatten_top_level_task_result (returned (ok value)) = ok value
  flatten_top_level_task_result (returned (err e)) = err (failed e)
  flatten_top_level_task_result panicked = err task_panicked
  flatten_top_level_task_result cancelled = err task_panicked

  -- After the signal a result is no success.
  abbrev after_signal : ShutdownReason → Result (TopError E) T → Result (TopError E) T
  after_signal reason (ok value) = err (shutdown_error reason)
  after_signal reason (err e) = err e

  abbrev after_abort : ShutdownReason → TaskResult E T → Result (TopError E) T
  after_abort reason (returned (ok value)) = err (shutdown_error reason)
  after_abort reason (returned (err e)) = err (failed e)
  after_abort reason cancelled = err (shutdown_error reason)
  after_abort reason panicked = err panicked_in_shutdown

-- What comes first: the end of the task, or a signal; then whether the task ends before the time limit,
-- and how it ends, of itself or aborted.
pub data Course {ℓ} (E : Type ℓ) (T : Type ℓ) : Type ℓ where
  ended : TaskResult E T → Course E T
  signalled : ShutdownReason → Bool → TaskResult E T → Course E T

module _ {ℓ} {E T : Type ℓ} where
  abbrev run_course : Course E T → Result (TopError E) T
  unfolding flatten_top_level_task_result
  run_course (ended r) = flatten_top_level_task_result r
  run_course (signalled reason true r) = after_signal reason (flatten_top_level_task_result r)
  run_course (signalled reason false r) = after_abort reason r

  -- The flag is whether the three handlers could be registered.
  unfoldable pub run_until_shutdown_signal : Bool → Course E T → Result (TopError E) T
  unfolding run_course flatten_top_level_task_result
  run_until_shutdown_signal registered course =
      if registered then run_course course else err no_handler
