-- ===== src/Acceptance/Resync/Reconnect.antt =====
-- What a drop of the stream does to the resync: `reconnect_after_handover`, with the error of each way out.
use rollup_starter.Common.{
  ℕ, ◌+◌, true, false, List, ◌∷◌, Option, none, some, Result, ==_iff, ok, err, ◌≡◌, refl, ap, ◌⊎◌,
  inl, inr,
}
use rollup_starter.Acceptance.Slots.{Json, Files}
use rollup_starter.Acceptance.Plan.Versions.{AcceptanceRunPlan}
use rollup_starter.Acceptance.Resync.{
  Outcome, ResyncError, option_eq, Arrival, up, out_of_time, signalled, no_client, refused, arrived,
  shut_down, client_failed, not_subscribed, Poll, slot, ended, failed, shutdown, Node, no_progress,
  not_up, Progress, gave_up, reconnect_after_handover, resync,
}

module _ (json : Json) (files : Files) (plan : AcceptanceRunPlan) (node : Node) where
  abbrev pub IsDrop : Poll → Type 0
  IsDrop ended = Unit
  IsDrop failed = Unit
  IsDrop _ = ⊥

  abbrev pub onward : List Poll → Result ResyncError Progress → Outcome
  onward polls (ok p) = resync json files plan node polls p
  onward polls (err e) = gave_up e

  pub resync_drop :
      (d : Poll) (polls : List Poll) (p : Progress)
      → IsDrop d
      → resync json files plan node (d ∷ polls) p
        ≡ onward polls (reconnect_after_handover json files plan node p)
  unfolding resync
  resync_drop ended polls p h = go (reconnect_after_handover json files plan node p)
    where
      go :
          (r : Result ResyncError Progress)
          → (elim r as (λ _. Outcome) [
            | ok p' ↦ resync json files plan node polls p'
            | err e ↦ gave_up e
          ])
            ≡ onward polls r
      go (ok p') = refl
      go (err e) = refl
  resync_drop failed polls p h = go (reconnect_after_handover json files plan node p)
    where
      go :
          (r : Result ResyncError Progress)
          → (elim r as (λ _. Outcome) [
            | ok p' ↦ resync json files plan node polls p'
            | err e ↦ gave_up e
          ])
            ≡ onward polls r
      go (ok p') = refl
      go (err e) = refl
  resync_drop shutdown polls p h = absurd h
  resync_drop (slot n) polls p h = absurd h

  abbrev pub reconnected : Progress → Progress
  reconnected p = record p { now = p.now + 1; last_reconnect_at = some p.checked }

  pub reconnect_after_handover-no_progress_lem :
      (p : Progress)
      → option_eq p.last_reconnect_at p.checked ≡ true
      → reconnect_after_handover json files plan node p ≡ err no_progress
  unfolding reconnect_after_handover
  reconnect_after_handover-no_progress_lem p h = simp h

  pub reconnect_after_handover-ok :
      (p : Progress)
      → option_eq p.last_reconnect_at p.checked ≡ false
      → node.comes_up p.now ≡ up
      → reconnect_after_handover json files plan node p ≡ ok (reconnected p)
  unfolding reconnect_after_handover
  reconnect_after_handover-ok p h k = simp (h, k)

  pub reconnect_after_handover-err :
      (p : Progress) (x : ResyncError)
      → option_eq p.last_reconnect_at p.checked ≡ false
      → arrived (node.comes_up p.now) ≡ err x
      → reconnect_after_handover json files plan node p ≡ err x
  unfolding reconnect_after_handover
  reconnect_after_handover-err p x h k = simp (h, k)

  pub arrived_cases : (a : Arrival) → (a ≡ up) ⊎ ((x : ResyncError) × (arrived a ≡ err x))
  arrived_cases up = inl refl
  arrived_cases out_of_time = inr (not_up, refl)
  arrived_cases signalled = inr (shut_down, refl)
  arrived_cases no_client = inr (client_failed, refl)
  arrived_cases refused = inr (not_subscribed, refl)

  pub option_eq-some : (o : Option ℕ) (n : ℕ) → option_eq o n ≡ true → o ≡ some n
  option_eq-some none n h = absurd (cc h)
  option_eq-some (some k) n h = ap some ((==_iff k n).0 h)
