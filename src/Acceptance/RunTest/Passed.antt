-- ===== src/Acceptance/RunTest/Passed.antt =====
-- What a test run has checked when it succeeds.
use mathlib.Core.Path.{subst}
use rollup_starter.Common.{
  ℕ, String, List, ◌∷◌, none, some, ok, ◌≡◌, sym, ap, ◌∙◌, map_err, map_err-eq-ok, ok_or,
  ok_or-eq-ok,
}
use rollup_starter.Common.Exec.{continue_with-eq-ok, lift-eq-ok}
use rollup_starter.Common.Codes.{codes}
use rollup_starter.Acceptance.Paths.{FilePath}
use rollup_starter.Acceptance.Setup.{copy_persistent_mock_data}
use rollup_starter.Acceptance.Plan.Versions.{
  RollupVersion, SoakManagerConfig, Extended, extended, no_stop_height, extend_last_stop_height,
}
use rollup_starter.Acceptance.Slots.{Json}
use rollup_starter.Acceptance.Process.{ManagedRollupProcess}
use rollup_starter.Acceptance.Shutdown.{wait_for_endpoint}
use rollup_starter.Acceptance.Resync.{resynced, resync_and_verify_slots}
use rollup_starter.Acceptance.Soak.Teardown.{ThroughputReport, finished}
use rollup_starter.Acceptance.Soak.Teardown.Laws.{RanWell, run_soak-RanWell}
use rollup_starter.Acceptance.Session.{
  World, not_ready, no_soak_config, Services, save_file, write_manager_config, spawn_rollup_manager,
  on_disk, with_rollup, of_outcome,
}
use rollup_starter.Acceptance.Session.Steps.{clean_up_elsewhere, save_file-eq-ok, of_outcome-eq-ok}
use rollup_starter.Acceptance.Session.Scopes.{with_rollup-eq-ok, with_postgres-eq-ok}
use rollup_starter.Acceptance.RunTest.{
  PreparedTestRun, TestAnswers, of_extended, check_throughput, catch_up, soak_options, soak,
  conclude, manager_config_path, report_path, test_body, run_test,
}

of_extended-eq-ok :
    (e : Extended) (versions : List RollupVersion)
    → of_extended e ≡ ok versions
    → e ≡ extended versions
of_extended-eq-ok (extended vs) versions h = cc h
of_extended-eq-ok no_stop_height versions h = absurd (cc h)

module _ (json : Json) (services : Services) (a : TestAnswers) (t : PreparedTestRun) where
  -- The node was verified, came up, and was caught up with.
  abbrev pub CaughtUp : ℕ × SoakManagerConfig → Type 0
  CaughtUp (latest, config) =
      ((first_new : ℕ) × (resync_and_verify_slots json a.snapshots t.plan a.node a.polls
          ≡ resynced latest first_new))
      × (wait_for_endpoint a.attempts ≡ ok tt)
      × (a.for_resync t.plan.soak_config t.settings.blocks_per_version ≡ some config)

  catch_up-eq-ok :
      (w w' : World) (x : ℕ × SoakManagerConfig)
      → catch_up json services a t w ≡ (ok x, w')
      → CaughtUp x
  unfolding catch_up
  catch_up-eq-ok w w' x h =
      let outcome = resync_and_verify_slots json a.snapshots t.plan a.node a.polls in
      let (synced, e₁, h₁) = lift-eq-ok (of_outcome outcome) _ w h in
      let (up, e₂, h₂) = lift-eq-ok (map_err not_ready (wait_for_endpoint a.attempts)) _ w h₁ in
      let (config, e₃, h₃) =
        lift-eq-ok
          (ok_or (a.for_resync t.plan.soak_config t.settings.blocks_per_version) no_soak_config) _ w
          h₂ in
      let same : (synced.0, config) ≡ x = cc (ap (λ r. r.0) h₃) in
      subst CaughtUp same (
        (synced.1, of_outcome-eq-ok outcome synced e₁),
        map_err-eq-ok not_ready (wait_for_endpoint a.attempts) e₂,
        ok_or-eq-ok (a.for_resync t.plan.soak_config t.settings.blocks_per_version) no_soak_config
            config e₃,
      )

  -- The run of the manager's versions, the last one extended, up to the report that was saved.
  abbrev pub Passed : World → Type 0
  Passed after =
      (versions : List RollupVersion) × (x : ℕ × SoakManagerConfig) × (p : ManagedRollupProcess)
      × (report : ThroughputReport) × (extend_last_stop_height t.plan.manager_versions
            t.settings.blocks_per_version
          ≡ extended versions)
      × CaughtUp x
      × RanWell json (soak_options json services a t versions x.0) a.show a.show_process
          (a.startup x.1) a.events a.tasks a.snapshots p report
      × (check_throughput json services a t.settings.profile t.throughput_check report ≡ ok tt)
      × ((earlier : List (FilePath × String)) × (after.written
            ≡ (report_path json services a t, services.report_text report) ∷ earlier))

  soak-RanWell :
      (versions : List RollupVersion) (x : ℕ × SoakManagerConfig) (p : ManagedRollupProcess)
      (report : ThroughputReport)
      → (soak json services a t versions x p).0 ≡ finished (ok report)
      → RanWell json
          (soak_options json services a t versions x.0)
          a.show
          a.show_process
          (a.startup x.1)
          a.events
          a.tasks
          a.snapshots
          p
          report
  unfolding soak
  soak-RanWell versions (latest, config) p report h =
      (run_soak-RanWell json (soak_options json services a t versions latest) a.show a.show_process
          (a.startup config) a.events a.tasks a.snapshots p report).1.0
        h

  conclude-eq-ok :
      (report : ThroughputReport) (w w' : World)
      → conclude json services a t report w ≡ (ok tt, w')
      → (check_throughput json services a t.settings.profile t.throughput_check report ≡ ok tt)
        × (w'.written ≡ (report_path json services a t, services.report_text report) ∷ w.written)
  unfolding conclude
  conclude-eq-ok report w w' h =
      let checked = check_throughput json services a t.settings.profile t.throughput_check report in
      let (u, e₁, h₁) = lift-eq-ok checked _ w h in
      let saved =
        save_file services (report_path json services a t) (services.report_text report) in
      let (v, w₁, e₂, h₂) = continue_with-eq-ok _ (saved w) h₁ in
      (
        e₁,
        sym (ap (λ r. r.1.written) h₂)
            ∙ (clean_up_elsewhere t.settings w₁).0
            ∙ ap (λ x. x.written)
                (save_file-eq-ok services (report_path json services a t)
                  (services.report_text report) w w₁ e₂),
      )

  test_body-eq-ok : (w w' : World) → test_body json services a t w ≡ (ok tt, w') → Passed w'
  unfolding test_body
  test_body-eq-ok w w' h =
      let extension =
        extend_last_stop_height t.plan.manager_versions t.settings.blocks_per_version in
      let (versions, e₁, h₁) = lift-eq-ok (of_extended extension) _ w h in
      let config = manager_config_path json services a t in
      let (u, w₁, e₂, h₂) =
        continue_with-eq-ok _ (write_manager_config services config versions w) h₁ in
      let (p, w₂, e₃, h₃) =
        continue_with-eq-ok _
          (spawn_rollup_manager services t.plan.manager_binary config t.directories none w₁) h₂ in
      let run =
        with_rollup services p (catch_up json services a t) (soak json services a t versions) in
      let (report, w₃, e₄, h₄) = continue_with-eq-ok _ (run w₂) h₃ in
      let (x, w₄, e₅, ran, _) =
        with_rollup-eq-ok services p (catch_up json services a t) (soak json services a t versions)
          w₂ report w₃ e₄ in
      let (checked, saved) = conclude-eq-ok report w₃ w' h₄ in
      (
        versions,
        x,
        p,
        report,
        of_extended-eq-ok extension versions e₁,
        catch_up-eq-ok w₂ w₄ x e₅,
        soak-RanWell versions x p report ran,
        checked,
        (w₃.written, saved),
      )

  pub run_test-eq-ok : (w w' : World) → run_test json services a t w ≡ (ok tt, w') → Passed w'
  unfolding run_test
  run_test-eq-ok w w' h =
      let (u, w₁, e₁, h₁) =
        continue_with-eq-ok _ (on_disk (copy_persistent_mock_data a.failures) w) h in
      let name = codes t.settings.postgres_docker_container_name in
      let (w₂, (w₃, e₂, same)) =
        with_postgres-eq-ok name (codes t.password) (test_body json services a t) w₁ tt w' h₁ in
      let (versions, x, p, report, e, f, g, i, (earlier, saved)) = test_body-eq-ok w₂ w₃ e₂ in
      (versions, x, p, report, e, f, g, i, (earlier, ap (λ y. y.written) same ∙ saved))
