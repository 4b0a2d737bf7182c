-- ===== src/Acceptance/Process/Laws.antt =====
-- How a managed process ends.
use rollup_starter.Common.{
  Bool, true, false, String, List, [], ◌∷◌, Option, none, some, Result, ok, err, ◌≡◌, arith, ◌↔◌,
}
use rollup_starter.Acceptance.Process.{
  Signal, sigterm, sigkill, Wait, exits, fails, times_out, ManagedRollupProcess, ProcessError,
  wait_failed, exit_failure, not_killed, shutdown, ensure_stopped, combine_soak_errors,
}

-- What a shutdown makes of a running process, for each script of waits.
abbrev pub ShutDown :
    ManagedRollupProcess
    → List Wait
    → Result ProcessError (Unit {0}) × ManagedRollupProcess
    → Type 0
ShutDown p (exits true ∷ ws) r =
    (r.0 ≡ ok tt) × (r.1.reaped ≡ true) × (r.1.signals ≡ sigterm ∷ p.signals)
ShutDown p (exits false ∷ ws) r =
    (r.0 ≡ err exit_failure) × (r.1.reaped ≡ true) × (r.1.signals ≡ sigterm ∷ p.signals)
ShutDown p (fails ∷ ws) r =
    (r.0 ≡ err wait_failed) × (r.1.reaped ≡ false) × (r.1.signals ≡ sigterm ∷ p.signals)
ShutDown p (times_out ∷ exits true ∷ ws) r =
    (r.0 ≡ ok tt) × (r.1.reaped ≡ true) × (r.1.signals ≡ sigkill ∷ sigterm ∷ p.signals)
ShutDown p (times_out ∷ exits false ∷ ws) r =
    (r.0 ≡ err exit_failure) × (r.1.reaped ≡ true) × (r.1.signals ≡ sigkill ∷ sigterm ∷ p.signals)
ShutDown p (times_out ∷ fails ∷ ws) r =
    (r.0 ≡ err wait_failed) × (r.1.reaped ≡ false) × (r.1.signals ≡ sigkill ∷ sigterm ∷ p.signals)
ShutDown p _ r =
    (r.0 ≡ err not_killed) × (r.1.reaped ≡ false) × (r.1.signals ≡ sigkill ∷ sigterm ∷ p.signals)

shutdown_cases :
    (signals : List Signal) (ws : List Wait)
    → ShutDown
        (record { reaped = false; signals = signals; waits = ws })
        ws
        (shutdown (record { reaped = false; signals = signals; waits = ws }))
unfolding shutdown
shutdown_cases signals [] = ground arith
shutdown_cases signals (exits true ∷ ws) = ground arith
shutdown_cases signals (exits false ∷ ws) = ground arith
shutdown_cases signals (fails ∷ ws) = ground arith
shutdown_cases signals (times_out ∷ []) = ground arith
shutdown_cases signals (times_out ∷ exits true ∷ ws) = ground arith
shutdown_cases signals (times_out ∷ exits false ∷ ws) = ground arith
shutdown_cases signals (times_out ∷ fails ∷ ws) = ground arith
shutdown_cases signals (times_out ∷ times_out ∷ ws) = ground arith

abbrev process : Bool → List Signal → List Wait → ManagedRollupProcess
process reaped signals waits = record { reaped = reaped; signals = signals; waits = waits }

shutdown_by_flag :
    (b : Bool) (signals : List Signal) (ws : List Wait)
    → b ≡ false
    → ShutDown (process b signals ws) ws (shutdown (process b signals ws))
shutdown_by_flag false signals ws h = shutdown_cases signals ws
shutdown_by_flag true signals ws h = absurd (cc h)

-- A shutdown sends SIGTERM to a running process, and SIGKILL exactly if the wait after it runs into its
-- time limit. It succeeds exactly if one of the two waits sees the process exit successfully; a failed
-- wait ends it, and a wait after SIGKILL that runs into its limit is an error.
pub shutdown-ShutDown :
    (p : ManagedRollupProcess) → p.reaped ≡ false → ShutDown p p.waits (shutdown p)
shutdown-ShutDown p h = shutdown_by_flag p.reaped p.signals p.waits h

abbrev pub EnsuredStopped :
    ManagedRollupProcess
    → List Wait
    → Result ProcessError (Unit {0}) × ManagedRollupProcess
    → Type 0
EnsuredStopped p (exits true ∷ ws) r =
    (r.0 ≡ ok tt) × (r.1.reaped ≡ true) × (r.1.signals ≡ p.signals)
EnsuredStopped p (exits false ∷ ws) r =
    (r.0 ≡ err exit_failure) × (r.1.reaped ≡ true) × (r.1.signals ≡ p.signals)
EnsuredStopped p (fails ∷ ws) r =
    (r.0 ≡ err wait_failed) × (r.1.reaped ≡ false) × (r.1.signals ≡ p.signals)
EnsuredStopped p (times_out ∷ ws) r = ShutDown p ws r
EnsuredStopped p [] r = ShutDown p [] r

ensured_by_flag :
    (b : Bool) (signals : List Signal) (ws : List Wait)
    → b ≡ false
    → EnsuredStopped (process b signals ws) ws (ensure_stopped (process b signals ws))
unfolding ensure_stopped
ensured_by_flag true signals ws h = absurd (cc h)
ensured_by_flag false signals [] h = shutdown_cases signals []
ensured_by_flag false signals (times_out ∷ ws) h = shutdown_cases signals ws
ensured_by_flag false signals (fails ∷ ws) h = ground arith
ensured_by_flag false signals (exits true ∷ ws) h = ground arith
ensured_by_flag false signals (exits false ∷ ws) h = ground arith

-- A running process that is to stop is left to end by itself, with no signal sent; only if the wait for
-- that runs into its time limit it is shut down, and the result is that of the shutdown.
pub ensure_stopped-EnsuredStopped :
    (p : ManagedRollupProcess) → p.reaped ≡ false → EnsuredStopped p p.waits (ensure_stopped p)
ensure_stopped-EnsuredStopped p h = ensured_by_flag p.reaped p.signals p.waits h

-- There is an error for a soak run exactly if there is a primary or an additional one.
pub combine_soak_errors_iff :
    (first : Option String) (more : List String)
    → (combine_soak_errors first more ≡ none) ↔ ((first ≡ none) × (more ≡ []))
unfolding combine_soak_errors
combine_soak_errors_iff none [] = ground arith
combine_soak_errors_iff (some e) [] = ground arith
combine_soak_errors_iff none (e ∷ []) = ground arith
combine_soak_errors_iff none (e ∷ f ∷ es) = ground arith
combine_soak_errors_iff (some e) (f ∷ es) = ground arith
