-- ===== src/Acceptance/Process/Tests.antt =====
-- Processes that end by themselves, after SIGTERM and after SIGKILL.
use rollup_starter.Common.{true, false, [], ◌∷◌, ok, ◌≡◌, refl}
use rollup_starter.Acceptance.Process.{
  sigterm, sigkill, exits, times_out, ManagedRollupProcess, shutdown, ensure_stopped,
}
use rollup_starter.Acceptance.Process.Laws.{shutdown-ShutDown, ensure_stopped-EnsuredStopped}

abbrev stubborn : ManagedRollupProcess
stubborn = record { reaped = false; signals = []; waits = times_out ∷ exits true ∷ [] }

shutdown-ShutDown_example :
    ((shutdown stubborn).0 ≡ ok tt)
    × ((shutdown stubborn).1.reaped ≡ true)
    × ((shutdown stubborn).1.signals ≡ sigkill ∷ sigterm ∷ [])
shutdown-ShutDown_example = shutdown-ShutDown stubborn refl

ensure_stopped-EnsuredStopped_example :
    ((ensure_stopped stubborn).0 ≡ ok tt)
    × ((ensure_stopped stubborn).1.reaped ≡ true)
    × ((ensure_stopped stubborn).1.signals ≡ sigterm ∷ [])
ensure_stopped-EnsuredStopped_example = ensure_stopped-EnsuredStopped stubborn refl
