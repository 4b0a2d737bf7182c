-- ===== src/Acceptance/Shutdown/Laws.antt =====
-- A run that succeeds was not interrupted.
use rollup_starter.Common.{Bool, true, false, ok, err, ◌≡◌, refl, ◌↔◌}
use rollup_starter.Acceptance.Shutdown.{
  returned, panicked, cancelled, Course, ended, signalled, run_until_shutdown_signal,
}

-- A run under the watch for signals succeeds exactly if the handlers could be registered and the task
-- returned a success before any signal: a success that comes after a signal is an error.
pub run_until_shutdown_signal_iff {ℓ} :
    {E T : Type ℓ} (registered : Bool) (course : Course E T) (value : T)
    → (run_until_shutdown_signal registered course ≡ ok value)
      ↔ ((registered ≡ true) × (course ≡ ended (returned (ok value))))
unfolding run_until_shutdown_signal
run_until_shutdown_signal_iff false course value = (λ h. absurd (cc h), λ h. absurd (cc (h.0)))
run_until_shutdown_signal_iff true (ended (returned (ok v))) value =
    (λ h. (refl, cc h), λ h. cc (h.1))
run_until_shutdown_signal_iff true (ended (returned (err e))) value =
    (λ h. absurd (cc h), λ h. absurd (cc (h.1)))
run_until_shutdown_signal_iff true (ended panicked) value =
    (λ h. absurd (cc h), λ h. absurd (cc (h.1)))
run_until_shutdown_signal_iff true (ended cancelled) value =
    (λ h. absurd (cc h), λ h. absurd (cc (h.1)))
run_until_shutdown_signal_iff true (signalled reason true (returned (ok v))) value =
    (λ h. absurd (cc h), λ h. absurd (cc (h.1)))
run_until_shutdown_signal_iff true (signalled reason true (returned (err e))) value =
    (λ h. absurd (cc h), λ h. absurd (cc (h.1)))
run_until_shutdown_signal_iff true (signalled reason true panicked) value =
    (λ h. absurd (cc h), λ h. absurd (cc (h.1)))
run_until_shutdown_signal_iff true (signalled reason true cancelled) value =
    (λ h. absurd (cc h), λ h. absurd (cc (h.1)))
run_until_shutdown_signal_iff true (signalled reason false (returned (ok v))) value =
    (λ h. absurd (cc h), λ h. absurd (cc (h.1)))
run_until_shutdown_signal_iff true (signalled reason false (returned (err e))) value =
    (λ h. absurd (cc h), λ h. absurd (cc (h.1)))
run_until_shutdown_signal_iff true (signalled reason false panicked) value =
    (λ h. absurd (cc h), λ h. absurd (cc (h.1)))
run_until_shutdown_signal_iff true (signalled reason false cancelled) value =
    (λ h. absurd (cc h), λ h. absurd (cc (h.1)))
