-- ===== src/Acceptance/RunSetup/Laws.antt =====
-- How a setup run ends.
use rollup_starter.Common.{
  Bool, true, false, Option, none, some, Result, ok, err, ◌≡◌, refl, ap, ◌∙◌, ◌⊎◌, inl, inr,
  map_err, ok_or, if◌then◌else◌,
}
use rollup_starter.Common.Exec.{continue_with, pure}
use rollup_starter.Common.Codes.{codes}
use rollup_starter.Acceptance.Paths.{FilePath}
use rollup_starter.Acceptance.Setup.{Disk, MockError, copy_persistent_mock_data, save_mock_data}
use rollup_starter.Acceptance.Setup.MockData.{
  copy_persistent_mock_data-persistent, save_mock_data-eq-err,
}
use rollup_starter.Acceptance.Plan.Versions.{RecordedDataBounds, last_version_soak_config}
use rollup_starter.Acceptance.Slots.{Json}
use rollup_starter.Acceptance.StateDir.{PathState}
use rollup_starter.Acceptance.Process.{ManagedRollupProcess}
use rollup_starter.Acceptance.Setup.Manual.{do_manual_setup}
use rollup_starter.Acceptance.Shutdown.{wait_for_endpoint}
use rollup_starter.Acceptance.Resync.{resync_and_verify_slots}
use rollup_starter.Acceptance.Soak.Teardown.{ThroughputReport}
use rollup_starter.Acceptance.Soak.Teardown.Laws.{run_soak-RanWell}
use rollup_starter.Acceptance.Session.{
  World, SessionError, mock_failed, manual_failed, not_ready, no_soak_config, Running, Services,
  save_file, write_manager_config, spawn_rollup_manager, on_disk, clean_up, with_postgres,
  with_rollup, of_outcome,
}
use rollup_starter.Acceptance.Session.Laws.{
  Gone, IsCalm, Same, MayWork, Works-Tidy, Tidy, lift-bind-IsCalm, bind-Tidy,
}
use rollup_starter.Acceptance.Session.Steps.{
  clean_up-Tidy, clean_up-late, save_file-IsCalm, write_manager_config-IsCalm,
  spawn_rollup_manager-IsCalm,
}
use rollup_starter.Acceptance.Session.Scopes.{
  EndsGone, with_rollup-Works, Guarded, with_postgres-Guarded,
}
use rollup_starter.Acceptance.RunSetup.{
  PreparedSetupRun, SetupAnswers, Generation, should_overwrite_throughput, from_genesis, append,
  generation, soak_options, soak, throughput_path, save_baseline, conclude, setup_config_path,
  log_path, setup_body, restore, run_setup,
}

module _ (json : Json) (services : Services) (a : SetupAnswers) (t : PreparedSetupRun) where
  from_genesis-IsCalm : IsCalm (from_genesis json services a t)
  unfolding from_genesis
  from_genesis-IsCalm =
      lift-bind-IsCalm
        (map_err manual_failed (do_manual_setup json a.writable a.manual_node a.snapshots).0) _
        λ done w gone. (gone, (refl, refl))

  append-IsCalm : IsCalm (append json services a t)
  unfolding append
  append-IsCalm =
      lift-bind-IsCalm (of_outcome (resync_and_verify_slots json a.snapshots t.plan a.node a.polls))
        _
        λ synced. lift-bind-IsCalm (map_err not_ready (wait_for_endpoint a.attempts)) _ λ up.
          lift-bind-IsCalm (ok_or (last_version_soak_config t.plan.soak_config) no_soak_config) _
            λ config w gone. (gone, (refl, refl))

  generation-IsCalm : IsCalm (generation json services a t)
  unfolding generation
  generation-IsCalm = go t.append_onto
    where
      go :
          (onto : Option RecordedDataBounds)
          → IsCalm (elim onto as (λ _. Running Generation) [
            | none ↦ from_genesis json services a t
            | some bounds ↦ append json services a t
          ])
      go none = from_genesis-IsCalm
      go (some bounds) = append-IsCalm

  soak-EndsGone :
      (g : Generation) (p : ManagedRollupProcess) → EndsGone (soak json services a t g p)
  unfolding soak
  soak-EndsGone g p =
      (run_soak-RanWell json (soak_options json services a t g.backfill_start) a.show a.show_process
        (a.startup g.config) a.events a.tasks g.snapshots p
        (record { num_txs = 0; num_slots = 0 })).0

  save_baseline-IsCalm :
      (report : ThroughputReport) → IsCalm (save_baseline json services a t report)
  unfolding save_baseline
  save_baseline-IsCalm report = go (should_overwrite_throughput json services a a.baseline report)
    where
      go :
          (flag : Bool)
          → IsCalm (
              if flag
              then save_file services
                  (throughput_path json services a t)
                  (services.report_text report)
              else pure tt)
      go false = λ w gone. (gone, (refl, refl))
      go true =
          save_file-IsCalm services (throughput_path json services a t)
            (services.report_text report)

  -- The save is the last step that may fail early, and then it has changed nothing.
  save-Tidy :
      (w : World)
      → Gone w.process
      → Tidy Same w
          (continue_with (λ _. clean_up t.settings) (on_disk (save_mock_data a.failures) w))
  unfolding on_disk
  save-Tidy w gone = go (save_mock_data a.failures w.disk) refl
    where
      go :
          (r : Result MockError (Unit {0}) × Disk)
          → save_mock_data a.failures w.disk ≡ r
          → Tidy Same w (
              continue_with
                (λ _. clean_up t.settings)
                (map_err mock_failed r.0, record w { disk = r.1 }))
      go (err f, d) q = (
        gone,
        λ e h early. (refl, ap (λ x. x.persistent) (save_mock_data-eq-err a.failures w.disk d f q)),
      )
      go (ok u, d) q =
          let saved : World = record w { disk = d } in
          (
            (clean_up-Tidy t.settings saved gone).0,
            λ e h early. absurd (clean_up-late t.settings saved e h early),
          )

  conclude-Tidy :
      (report : ThroughputReport) (w : World)
      → Gone w.process
      → Tidy Same w (conclude json services a t report w)
  unfolding conclude
  conclude-Tidy report w gone =
      bind-Tidy Same (λ s. refl) (save_baseline json services a t report) _ w
        (save_baseline-IsCalm report) (λ done w' gone'. save-Tidy w' gone') gone

  setup_body-Tidy :
      (w : World) → Gone w.process → Tidy (MayWork services) w (setup_body json services a t w)
  unfolding setup_body
  setup_body-Tidy w gone =
      let config = setup_config_path json services a t in
      let binary = t.plan.manager_binary in
      let log : Option FilePath = some (log_path json services a t) in
      let same : (s : PathState) → MayWork services s s = λ s. inl refl in
      bind-Tidy (MayWork services) same
        (write_manager_config services config t.plan.manager_versions) _ w
        (write_manager_config-IsCalm services config t.plan.manager_versions)
        (λ done w₁ gone₁.
          bind-Tidy (MayWork services) same
            (spawn_rollup_manager services binary config t.directories log) _ w₁
            (spawn_rollup_manager-IsCalm services binary config t.directories log)
            (λ p w₂ gone₂.
              Works-Tidy services
                (with_rollup services p (generation json services a t) (soak json services a t)) _
                w₂
                (with_rollup-Works services p (generation json services a t)
                  (soak json services a t) generation-IsCalm (λ g. soak-EndsGone g p))
                (λ report w₃ gone₃. conclude-Tidy report w₃ gone₃) gone₂)
            gone₁)
        gone

  -- The run ends before postgres starts, or in the guard's scope.
  abbrev pub Left : World → Result SessionError (Unit {0}) × World → Type 0
  Left w r =
      ((e : MockError) × (r.0 ≡ err (mock_failed e)) × (r.1.docker ≡ w.docker))
      ⊎ ((restored : World) × (restored.docker ≡ w.docker)
          × Guarded (codes t.settings.postgres_docker_container_name) restored r)

  pub run_setup-Left :
      (w : World)
      → Gone w.process
      → Tidy (MayWork services) w (run_setup json services a t w)
        × Left w (run_setup json services a t w)
  unfolding run_setup restore on_disk
  run_setup-Left w gone = by_mode t.append_onto
    where
      body : Running (Unit {0})
      body =
          with_postgres (codes t.settings.postgres_docker_container_name) (codes t.password)
            (setup_body json services a t)

      guarded :
          (w' : World)
          → Gone w'.process
          → Tidy (MayWork services) w' (body w')
            × Guarded (codes t.settings.postgres_docker_container_name) w' (body w')
      guarded w' gone' =
          with_postgres-Guarded (MayWork services) (λ s. inl refl)
            (codes t.settings.postgres_docker_container_name) (codes t.password)
            (setup_body json services a t) w' setup_body-Tidy gone'

      go :
          (copied : Result MockError (Unit {0}) × Disk)
          → copied.1.persistent ≡ w.disk.persistent
          → let r =
              continue_with
                (λ _. body)
                (map_err mock_failed copied.0, record w { disk = copied.1 }) in
            Tidy (MayWork services) w r × Left w r
      go (err e, d) same = ((gone, λ f p early. (inl refl, same)), inl (e, refl, refl))
      go (ok u, d) same =
          let w' : World = record w { disk = d } in
          let (tidy, left) = guarded w' gone in
          (
            (tidy.0, λ e h early. let (dir, disk) = tidy.1 e h early in (dir, disk ∙ same)),
            inr (w', refl, left),
          )

      by_mode :
          (onto : Option RecordedDataBounds)
          → let r =
              continue_with
                (λ _. body)
                ((elim onto as (λ _. Running (Unit {0})) [
                  | none ↦ pure tt
                  | some bounds ↦ on_disk (copy_persistent_mock_data a.failures)
                ])
                  w) in
            Tidy (MayWork services) w r × Left w r
      by_mode none = let (tidy, left) = guarded w gone in (tidy, inr (w, refl, left))
      by_mode (some bounds) =
          go (copy_persistent_mock_data a.failures w.disk)
            (copy_persistent_mock_data-persistent a.failures w.disk)
