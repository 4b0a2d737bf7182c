-- ===== src/Acceptance/RunTest/Laws.antt =====
-- How a test run ends.
use rollup_starter.Common.{
  ℕ, List, none, Result, ok, err, ◌≡◌, refl, ◌∙◌, ◌⊎◌, inl, inr, map_err, ok_or,
}
use rollup_starter.Common.Exec.{continue_with}
use rollup_starter.Common.Codes.{codes}
use rollup_starter.Acceptance.Setup.{Disk, MockError, copy_persistent_mock_data}
use rollup_starter.Acceptance.Setup.MockData.{copy_persistent_mock_data-persistent}
use rollup_starter.Acceptance.Plan.Versions.{
  RollupVersion, SoakManagerConfig, extend_last_stop_height,
}
use rollup_starter.Acceptance.Slots.{Json}
use rollup_starter.Acceptance.StateDir.{PathState}
use rollup_starter.Acceptance.Process.{ManagedRollupProcess}
use rollup_starter.Acceptance.Shutdown.{wait_for_endpoint}
use rollup_starter.Acceptance.Resync.{resync_and_verify_slots}
use rollup_starter.Acceptance.Soak.Teardown.{ThroughputReport}
use rollup_starter.Acceptance.Soak.Teardown.Laws.{run_soak-RanWell}
use rollup_starter.Acceptance.Session.{
  World, SessionError, mock_failed, not_ready, no_soak_config, Services, save_file,
  write_manager_config, spawn_rollup_manager, on_disk, with_postgres, with_rollup, of_outcome,
}
use rollup_starter.Acceptance.Session.Laws.{
  Gone, IsCalm, Same, MayWork, Works-Tidy, Tidy, lift-bind-IsCalm, lift-bind-Tidy, bind-Tidy,
}
use rollup_starter.Acceptance.Session.Steps.{
  clean_up-Tidy, save_file-IsCalm, write_manager_config-IsCalm, spawn_rollup_manager-IsCalm,
}
use rollup_starter.Acceptance.Session.Scopes.{
  EndsGone, with_rollup-Works, Guarded, with_postgres-Guarded,
}
use rollup_starter.Acceptance.RunTest.{
  PreparedTestRun, TestAnswers, of_extended, check_throughput, catch_up, soak_options, soak,
  conclude, manager_config_path, report_path, test_body, run_test,
}

module _ (json : Json) (services : Services) (a : TestAnswers) (t : PreparedTestRun) where
  catch_up-IsCalm : IsCalm (catch_up json services a t)
  unfolding catch_up
  catch_up-IsCalm =
      lift-bind-IsCalm (of_outcome (resync_and_verify_slots json a.snapshots t.plan a.node a.polls))
        _
        λ synced. lift-bind-IsCalm (map_err not_ready (wait_for_endpoint a.attempts)) _ λ up.
          lift-bind-IsCalm
            (ok_or (a.for_resync t.plan.soak_config t.settings.blocks_per_version) no_soak_config) _
            λ config w gone. (gone, (refl, refl))

  soak-EndsGone :
      (versions : List RollupVersion) (x : ℕ × SoakManagerConfig) (p : ManagedRollupProcess)
      → EndsGone (soak json services a t versions x p)
  unfolding soak
  soak-EndsGone versions (latest, config) p =
      (run_soak-RanWell json (soak_options json services a t versions latest) a.show a.show_process
        (a.startup config) a.events a.tasks a.snapshots p (record { num_txs = 0; num_slots = 0 })).0

  conclude-Tidy :
      (report : ThroughputReport) (w : World)
      → Gone w.process
      → Tidy Same w (conclude json services a t report w)
  unfolding conclude
  conclude-Tidy report w gone =
      lift-bind-Tidy Same (λ s. refl)
        (check_throughput json services a t.settings.profile t.throughput_check report) _ w gone
        λ checked.
          bind-Tidy Same (λ s. refl)
            (save_file services (report_path json services a t) (services.report_text report)) _ w
            (save_file-IsCalm services (report_path json services a t)
              (services.report_text report))
            (λ done w' gone'. clean_up-Tidy t.settings w' gone') gone

  spawned-Tidy :
      (versions : List RollupVersion) (p : ManagedRollupProcess) (w : World)
      → Gone w.process
      → Tidy (MayWork services) w (
          continue_with (conclude json services a t) (
            with_rollup services p
              (catch_up json services a t)
              (soak json services a t versions)
              w))
  spawned-Tidy versions p w gone =
      Works-Tidy services
        (with_rollup services p (catch_up json services a t) (soak json services a t versions)) _ w
        (with_rollup-Works services p (catch_up json services a t) (soak json services a t versions)
          catch_up-IsCalm (λ x. soak-EndsGone versions x p))
        (λ report w' gone'. conclude-Tidy report w' gone') gone

  test_body-Tidy :
      (w : World) → Gone w.process → Tidy (MayWork services) w (test_body json services a t w)
  unfolding test_body
  test_body-Tidy w gone =
      let config = manager_config_path json services a t in
      let binary = t.plan.manager_binary in
      let same : (s : PathState) → MayWork services s s = λ s. inl refl in
      lift-bind-Tidy (MayWork services) same
        (of_extended
          (extend_last_stop_height t.plan.manager_versions t.settings.blocks_per_version))
        _ w gone
        λ versions.
          bind-Tidy (MayWork services) same (write_manager_config services config versions) _ w
            (write_manager_config-IsCalm services config versions)
            (λ done w₁ gone₁.
              bind-Tidy (MayWork services) same
                (spawn_rollup_manager services binary config t.directories none) _ w₁
                (spawn_rollup_manager-IsCalm services binary config t.directories none)
                (λ p w₂ gone₂. spawned-Tidy versions p w₂ gone₂) gone₁)
            gone

  -- The run ends before postgres starts, or in the guard's scope.
  abbrev pub Left : World → Result SessionError (Unit {0}) × World → Type 0
  Left w r =
      ((e : MockError) × (r.0 ≡ err (mock_failed e)) × (r.1.docker ≡ w.docker))
      ⊎ ((copied : World) × (copied.docker ≡ w.docker)
          × Guarded (codes t.settings.postgres_docker_container_name) copied r)

  pub run_test-Left :
      (w : World)
      → Gone w.process
      → Tidy (MayWork services) w (run_test json services a t w)
        × Left w (run_test json services a t w)
  unfolding run_test on_disk
  run_test-Left w gone =
      go (copy_persistent_mock_data a.failures w.disk)
        (copy_persistent_mock_data-persistent a.failures w.disk)
    where
      go :
          (copied : Result MockError (Unit {0}) × Disk)
          → copied.1.persistent ≡ w.disk.persistent
          → let r =
              continue_with
                (λ _.
                  with_postgres
                    (codes t.settings.postgres_docker_container_name)
                    (codes t.password)
                    (test_body json services a t))
                (map_err mock_failed copied.0, record w { disk = copied.1 }) in
            Tidy (MayWork services) w r × Left w r
      go (err e, d) same = ((gone, λ f p early. (inl refl, same)), inl (e, refl, refl))
      go (ok u, d) same =
          let w' : World = record w { disk = d } in
          let (tidy, guarded) =
            with_postgres-Guarded (MayWork services) (λ s. inl refl)
              (codes t.settings.postgres_docker_container_name) (codes t.password)
              (test_body json services a t) w' test_body-Tidy gone in
          (
            (tidy.0, λ e h early. let (dir, disk) = tidy.1 e h early in (dir, disk ∙ same)),
            inr (w', refl, guarded),
          )
