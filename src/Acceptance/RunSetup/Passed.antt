-- ===== src/Acceptance/RunSetup/Passed.antt =====
-- What a setup run has made when it succeeds.
use rollup_starter.Common.{ℕ, ◌∷◌, Option, none, some, ok, ◌≡◌, if◌then◌else◌}
use rollup_starter.Acceptance.Setup.{MockFiles, save_mock_data}
use rollup_starter.Acceptance.StateDir.{PathState}
use rollup_starter.Acceptance.Plan.Versions.{RecordedDataBounds, last_version_soak_config}
use rollup_starter.Acceptance.Slots.{Json}
use rollup_starter.Acceptance.Process.{ManagedRollupProcess}
use rollup_starter.Acceptance.Setup.Manual.{do_manual_setup}
use rollup_starter.Acceptance.Setup.Manual.Checked.{Checked}
use rollup_starter.Acceptance.Shutdown.{wait_for_endpoint}
use rollup_starter.Acceptance.Resync.{resynced, resync_and_verify_slots}
use rollup_starter.Acceptance.Soak.Teardown.{ThroughputReport}
use rollup_starter.Acceptance.Soak.Teardown.Laws.{RanWell}
use rollup_starter.Acceptance.Session.{World, Services}
use rollup_starter.Acceptance.RunSetup.{
  PreparedSetupRun, SetupAnswers, Generation, should_overwrite_throughput, soak_options,
  throughput_path,
}

module _ (json : Json) (services : Services) (a : SetupAnswers) (t : PreparedSetupRun) where
  -- From genesis the manual setup has succeeded, and the soak run goes on with its snapshots. To append, the recorded versions were verified, the
  -- sequencer was waited for, and the soak run is that of the last version, with no gap in its snapshots.
  abbrev pub Generated : Option RecordedDataBounds → Generation → Type 0
  Generated none g =
      (do_manual_setup json a.writable a.manual_node a.snapshots ≡ (ok tt, g.snapshots))
      × Checked json a.writable a.manual_node g.snapshots
      × (g.config ≡ t.plan.soak_config)
      × (g.backfill_start ≡ none)
  Generated (some bounds) g =
      (latest : ℕ) × (first_new : ℕ) × (resync_and_verify_slots json a.snapshots t.plan a.node
          a.polls
        ≡ resynced latest first_new)
      × (wait_for_endpoint a.attempts ≡ ok tt)
      × (last_version_soak_config t.plan.soak_config ≡ some g.config)
      × (g.backfill_start ≡ some first_new)
      × (g.snapshots ≡ a.snapshots)

  -- The report is the new baseline if it is better than the old one, or that cannot be read.
  abbrev Baselined : ThroughputReport → World → World → Type 0
  Baselined report before after = after.written ≡ (
      if should_overwrite_throughput json services a a.baseline report
      then (throughput_path json services a t, services.report_text report) ∷ before.written
      else before.written)

  abbrev pub Passed : World → Type 0
  Passed after =
      (g : Generation) × (p : ManagedRollupProcess) × (report : ThroughputReport) × (before : World)
      × Generated t.append_onto g
      × RanWell json (soak_options json services a t g.backfill_start) a.show a.show_process
          (a.startup g.config) a.events a.tasks g.snapshots p report
      × Baselined report before after
      × ((dir : PathState) × (mock : MockFiles) × (before.disk.mock
            ≡ (services.rollup_leaves (dir, mock)).1))
      × (save_mock_data a.failures before.disk ≡ (ok tt, after.disk))
