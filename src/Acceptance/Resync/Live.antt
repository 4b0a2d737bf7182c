-- ===== src/Acceptance/Resync/Live.antt =====
-- A resync comes to an end: on a node that serves the recorded data, and on one that keeps dropping the
-- stream.
use mathlib.Core.Path.{subst}
use rollup_starter.Common.{
  ℕ, zero, suc, ◌+◌, ◌-◌, ◌≤◌, ◌<◌, false, List, [], ◌∷◌, ◌++◌, Option, none, some, sym, err, ◌≡◌,
  refl, ap, ◌∙◌, ◌⊎◌, inl, inr, arith, ltb, Bool-cases, u64_mod,
}
use rollup_starter.Acceptance.Slots.{Slot, Json, Files}
use rollup_starter.Acceptance.Plan.Versions.{
  AcceptanceRunPlan, expected_setup_batches, last_recorded_slot, range_from,
}
use rollup_starter.Acceptance.Resync.{
  ResyncError, option_eq, up, arrived, Poll, slot, ended, failed, shutdown, Node, no_progress,
  Progress, Step, finished, resynced, gave_up, verify_slot, verify_slots, resync, start,
  resync_and_verify_slots,
}
use rollup_starter.Acceptance.Resync.Reconnect.{
  IsDrop, onward, resync_drop, reconnected, reconnect_after_handover-no_progress_lem,
  reconnect_after_handover-ok, reconnect_after_handover-err, arrived_cases, option_eq-some,
}
use rollup_starter.Acceptance.Resync.Serving.{
  Serves, compared, goes_on, ServesBelow, run_below, ends,
}

module _ (json : Json) (files : Files) (plan : AcceptanceRunPlan) (node : Node) where
  -- Two drops of the stream, with no slot in between, end the run whatever follows: with the error for a
  -- lack of progress, if the stream had dropped there before or the node came up after the first drop,
  -- and else with the error of that wait, which is the time limit, a shutdown, the client or its
  -- subscription.
  pub reconnect_after_handover-no_progress :
      (d e : Poll) (polls : List Poll) (p : Progress)
      → IsDrop json files plan node d
      → IsDrop json files plan node e
      → let outcome = resync json files plan node (d ∷ e ∷ polls) p in
        ((outcome ≡ gave_up no_progress)
          × ((p.last_reconnect_at ≡ some p.checked) ⊎ (node.comes_up p.now ≡ up)))
        ⊎ ((x : ResyncError) × (arrived (node.comes_up p.now) ≡ err x) × (outcome ≡ gave_up x))
  reconnect_after_handover-no_progress d e polls p h k =
      let first = resync_drop json files plan node d (e ∷ polls) p h in
      elim (Bool-cases (option_eq p.last_reconnect_at p.checked)) [
        | inl again ↦ inl (
          first
              ∙ ap (onward json files plan node (e ∷ polls))
                  (reconnect_after_handover-no_progress_lem json files plan node p again),
          inl (option_eq-some json files plan node p.last_reconnect_at p.checked again),
        )
        | inr fresh ↦ elim (arrived_cases json files plan node (node.comes_up p.now)) [
          | inl came ↦ inl (
            first
                ∙ ap (onward json files plan node (e ∷ polls))
                    (reconnect_after_handover-ok json files plan node p fresh came)
                ∙ resync_drop json files plan node e polls (reconnected json files plan node p) k
                ∙ ap (onward json files plan node polls) (
                    reconnect_after_handover-no_progress_lem json files plan node
                      (reconnected json files plan node p) (ground arith)),
            inr came,
          )
          | inr (x, failed_with) ↦ inr (
            x,
            failed_with,
            first
                ∙ ap (onward json files plan node (e ∷ polls))
                    (reconnect_after_handover-err json files plan node p x fresh failed_with),
          )
        ]
      ]

  module _ (last : ℕ) (recorded : Slot) (known : last_recorded_slot plan ≡ some last)
      (serves : Serves json files plan node last recorded) where
    abbrev Ended : Step × Progress → Type 0
    Ended r = (r.0 ≡ finished (last + 1)) × (r.1.latest_batch_num ≡ recorded.batch_range.1 - 1)

    at_last :
        (m : ℕ) (p : Progress)
        → expected_setup_batches plan ≤ recorded.batch_range.1 - 1
        → last + 1 < u64_mod
        → Ended (verify_slots json files plan node (range_from last (suc m)) p)
    unfolding verify_slots
    at_last m p enough fits =
        let e = compared json files plan node last recorded p serves in
        let done : (verify_slot json files plan node last p).0 ≡ finished (last + 1) =
          ap (λ s. s.0) e ∙ ends json files plan node last recorded known enough fits in
        rw (done, verify_slots) (done, ap (λ s. s.1.latest_batch_num) e)

    run_slots :
        (m c : ℕ) (p : Progress)
        → expected_setup_batches plan ≤ recorded.batch_range.1 - 1
        → last + 1 < u64_mod
        → c ≤ last
        → last < c + m
        → ServesBelow json files plan node last
        → Ended (verify_slots json files plan node (range_from c m) p)
    unfolding verify_slots
    run_slots zero c p enough fits lo hi all = absurd (omega arith)
    run_slots (suc m) c p enough fits lo hi all = elim (Bool-cases (ltb c last)) [
      | inl before ↦
          let next =
            run_slots m (c + 1) (verify_slot json files plan node c p).1 enough fits (ground arith)
              (omega arith) all in
          elim (goes_on json files plan node c last p known (ground arith)
            (all c (ground arith))).0 [
              | inl e ↦ rw (e, verify_slots) next
              | inr e ↦ rw (e, verify_slots) next
            ]
      | inr at_end ↦
          let same : last ≡ c = ground arith in
          subst (λ c. Ended (verify_slots json files plan node (range_from c (suc m)) p)) same
            (at_last m p enough fits)
    ]

    resync_finishes :
        (n : ℕ) (polls : List Poll) (p : Progress)
        → p.checked ≤ last
        → expected_setup_batches plan ≤ recorded.batch_range.1 - 1
        → last + 1 < u64_mod
        → last ≤ n
        → ServesBelow json files plan node last
        → resync json files plan node (slot n ∷ polls) p
          ≡ resynced (recorded.batch_range.1 - 1) (last + 1)
    unfolding resync
    resync_finishes n polls p within enough fits reaches all =
        let (done, latest) =
          run_slots (n + 1 - p.checked) p.checked p enough fits within (omega arith) all in
        rw (done, resync) (rw latest)

    -- Polls that lead on: slots below the last recorded one, and drops, but none at the slot at which
    -- the drop before it happened.
    abbrev pub LeadsOn : Option ℕ → ℕ → List Poll → Type 0
    LeadsOn reconnect_at checked [] = Unit
    LeadsOn reconnect_at checked (slot k ∷ polls) = (k < last) × LeadsOn reconnect_at k polls
    LeadsOn reconnect_at checked (ended ∷ polls) =
        (option_eq reconnect_at checked ≡ false) × LeadsOn (some checked) checked polls
    LeadsOn reconnect_at checked (failed ∷ polls) =
        (option_eq reconnect_at checked ≡ false) × LeadsOn (some checked) checked polls
    LeadsOn reconnect_at checked (shutdown ∷ polls) = ⊥

    -- A slot below the last recorded one.
    resync_below :
        (k : ℕ) (polls : List Poll) (p : Progress)
        → k < last
        → ServesBelow json files plan node last
        → (p' : Progress) × (p'.checked ≡ k)
          × (p'.last_reconnect_at ≡ p.last_reconnect_at)
          × (resync json files plan node (slot k ∷ polls) p ≡ resync json files plan node polls p')
    unfolding resync
    resync_below k polls p below all =
        let after =
          verify_slots json files plan node (range_from p.checked (k + 1 - p.checked)) p in
        let (step, same) =
          run_below json files plan node (k + 1 - p.checked) p.checked last p known (omega arith)
            all in
        (
          record after.1 { checked = k },
          refl,
          same,
          elim step [ inl e ↦ rw (e, resync) refl | inr e ↦ rw (e, resync) refl ],
        )

    resync_leads :
        (before : List Poll) (n : ℕ) (polls : List Poll) (p : Progress)
        → LeadsOn p.last_reconnect_at p.checked before
        → p.checked ≤ last
        → expected_setup_batches plan ≤ recorded.batch_range.1 - 1
        → last + 1 < u64_mod
        → last ≤ n
        → ((time : ℕ) → node.comes_up time ≡ up)
        → ServesBelow json files plan node last
        → resync json files plan node (before ++ slot n ∷ polls) p
          ≡ resynced (recorded.batch_range.1 - 1) (last + 1)
    resync_leads [] n polls p leads within enough fits reaches ups all =
        resync_finishes n polls p within enough fits reaches all
    resync_leads (slot k ∷ before) n polls p (below, leads) within enough fits reaches ups all =
        let (p', at, kept, same) = resync_below k (before ++ slot n ∷ polls) p below all in
        let leads' =
          subst (λ r. LeadsOn r p'.checked before) (sym kept)
            (subst (λ c. LeadsOn p.last_reconnect_at c before) (sym at) leads) in
        same ∙ resync_leads before n polls p' leads' (omega (arith, at)) enough fits reaches ups all
    resync_leads (ended ∷ before) n polls p (fresh, leads) within enough fits reaches ups all =
        resync_drop json files plan node ended (before ++ slot n ∷ polls) p tt
        ∙ ap (onward json files plan node (before ++ slot n ∷ polls))
            (reconnect_after_handover-ok json files plan node p fresh (ups p.now))
        ∙ resync_leads before n polls (reconnected json files plan node p) leads within enough fits
            reaches ups all
    resync_leads (failed ∷ before) n polls p (fresh, leads) within enough fits reaches ups all =
        resync_drop json files plan node failed (before ++ slot n ∷ polls) p tt
        ∙ ap (onward json files plan node (before ++ slot n ∷ polls))
            (reconnect_after_handover-ok json files plan node p fresh (ups p.now))
        ∙ resync_leads before n polls (reconnected json files plan node p) leads within enough fits
            reaches ups all
    resync_leads (shutdown ∷ before) n polls p leads within enough fits reaches ups all =
        absurd leads

    -- A node that comes up and serves, at any time, slots that match the snapshots of all recorded
    -- slots, of which some below 10 may be missing, finishes the resync as soon as the stream delivers
    -- a slot at or after the last recorded one, with the batches of the last recorded slot, if these
    -- are enough. Before that the stream may deliver slots below, in any order, and drop, but not at
    -- the slot at which it dropped the time before.
    pub resync_and_verify_slots_finishes :
        (before : List Poll) (n : ℕ) (polls : List Poll)
        → LeadsOn none 0 before
        → expected_setup_batches plan ≤ recorded.batch_range.1 - 1
        → last + 1 < u64_mod
        → ((time : ℕ) → node.comes_up time ≡ up)
        → last ≤ n
        → ServesBelow json files plan node last
        → resync_and_verify_slots json files plan node (before ++ slot n ∷ polls)
          ≡ resynced (recorded.batch_range.1 - 1) (last + 1)
    unfolding resync_and_verify_slots
    resync_and_verify_slots_finishes before n polls leads enough fits ups reaches all =
        rw (ups 0, resync_and_verify_slots)
          (resync_leads before n polls (start json files plan node) leads (omega arith) enough fits
            reaches ups all)
