-- ===== src/Acceptance/Session/Steps.antt =====
-- What the steps that both programs share keep, and what their success says: the writing of files, the
-- spawning of the manager and the cleanup at the end.
use mathlib.Core.Path.{subst}
use rollup_starter.Common.{
  ℕ, Bool, true, false, String, List, ◌∷◌, Option, Result, ok, err, ◌≡◌, refl, sym, ap, inl, inr,
  Bool-cases, map_err, if◌then◌else◌,
}
use rollup_starter.Common.Exec.{lift, pure}
use rollup_starter.Acceptance.Paths.{FilePath}
use rollup_starter.Acceptance.Directories.{Directories}
use rollup_starter.Acceptance.Settings.{ResolvedRunSettings, cleanup_rollup_state_on_success}
use rollup_starter.Acceptance.StateDir.{PathState, StateDirError, cleanup_rollup_state_dir}
use rollup_starter.Acceptance.Setup.{Disk, MockError, OnDisk}
use rollup_starter.Acceptance.Plan.Versions.{RollupVersion}
use rollup_starter.Acceptance.Resync.{Outcome, resynced, gave_up, waiting}
use rollup_starter.Acceptance.Session.{
  of_outcome, mock_failed, on_disk, World, SessionError, cleanup_failed, Services, save_file,
  write_manager_config, create_parent, open_log, spawned, manager_command, spawn_rollup_manager,
  on_state_dir, clean_up,
}
use rollup_starter.Acceptance.Session.Laws.{
  Gone, IsEarly, Same, IsCalm, Tidy, bind-IsCalm, lift-IsCalm,
}

-- An error of the cleanup at the end is not early.
pub on_state_dir-late :
    (step : PathState → Result StateDirError (Unit {0}) × PathState) (w : World) (e : SessionError)
    → (on_state_dir step w).0 ≡ err e
    → IsEarly e
    → ⊥
unfolding on_state_dir
on_state_dir-late step w e h early = go (step w.state_dir).0 h
  where
    go : (r : Result StateDirError (Unit {0})) → map_err cleanup_failed r ≡ err e → ⊥
    go (ok u) h = cc h
    go (err f) h = let same : e ≡ cleanup_failed f = cc h in subst IsEarly same early

-- The cleanup at the end is the one step that changes the state directory.
pub on_state_dir-Tidy :
    (step : PathState → Result StateDirError (Unit {0}) × PathState) (w : World)
    → Gone w.process
    → Tidy Same w (on_state_dir step w)
unfolding on_state_dir
on_state_dir-Tidy step w gone = (gone, λ e h early. absurd (on_state_dir-late step w e h early))

pub clean_up-Tidy :
    (settings : ResolvedRunSettings) (w : World)
    → Gone w.process
    → Tidy Same w (clean_up settings w)
unfolding clean_up
clean_up-Tidy settings w gone = go (cleanup_rollup_state_on_success settings)
  where
    go :
        (flag : Bool)
        → Tidy Same w ((if flag then on_state_dir cleanup_rollup_state_dir else pure tt) w)
    go false = (gone, λ e h early. absurd (cc h))
    go true = on_state_dir-Tidy cleanup_rollup_state_dir w gone

pub clean_up-late :
    (settings : ResolvedRunSettings) (w : World) (e : SessionError)
    → (clean_up settings w).0 ≡ err e
    → IsEarly e
    → ⊥
unfolding clean_up
clean_up-late settings w e = go (cleanup_rollup_state_on_success settings)
  where
    go :
        (flag : Bool)
        → ((if flag then on_state_dir cleanup_rollup_state_dir else pure tt) w).0 ≡ err e
        → IsEarly e
        → ⊥
    go false h early = cc h
    go true h early = on_state_dir-late cleanup_rollup_state_dir w e h early

-- The cleanup is silent on all but the state directory.
pub clean_up_elsewhere :
    (settings : ResolvedRunSettings) (w : World)
    → ((clean_up settings w).1.written ≡ w.written) × ((clean_up settings w).1.disk ≡ w.disk)
unfolding clean_up on_state_dir
clean_up_elsewhere settings w = go (cleanup_rollup_state_on_success settings)
  where
    after : Bool → World
    after flag = ((if flag then on_state_dir cleanup_rollup_state_dir else pure tt) w).1

    go : (flag : Bool) → ((after flag).written ≡ w.written) × ((after flag).disk ≡ w.disk)
    go false = (refl, refl)
    go true = (refl, refl)

pub of_outcome-eq-ok : (o : Outcome) (x : ℕ × ℕ) → of_outcome o ≡ ok x → o ≡ resynced x.0 x.1
of_outcome-eq-ok (resynced latest first) x h = cc h
of_outcome-eq-ok (gave_up e) x h = absurd (cc h)
of_outcome-eq-ok waiting x h = absurd (cc h)

pub save_file-IsCalm :
    (services : Services) (path : FilePath) (text : String) → IsCalm (save_file services path text)
unfolding save_file
save_file-IsCalm services path text w gone = elim (Bool-cases (services.write_file path text)) [
  | inl written ↦ rw written (gone, (refl, refl))
  | inr failed ↦ rw failed (gone, (refl, refl))
]

pub save_file-eq-ok :
    (services : Services) (path : FilePath) (text : String) (w w' : World)
    → save_file services path text w ≡ (ok tt, w')
    → w' ≡ record w { written = (path, text) ∷ w.written }
unfolding save_file
save_file-eq-ok services path text w w' h = elim (Bool-cases (services.write_file path text)) [
  | inl written ↦ sym (ap (λ r. r.1) (rw (written, save_file) at h))
  | inr failed ↦ absurd (cc (ap (λ r. r.0) (rw (failed, save_file) at h)))
]

pub on_disk-eq-ok :
    (step : OnDisk) (w w' : World)
    → on_disk step w ≡ (ok tt, w')
    → (step w.disk ≡ (ok tt, w'.disk)) × (w'.written ≡ w.written)
unfolding on_disk
on_disk-eq-ok step w w' h = go (step w.disk) h
  where
    go :
        (r : Result MockError (Unit {0}) × Disk)
        → ◌≡◌ {A = Result SessionError (Unit {0}) × World}
            (map_err mock_failed r.0, record w { disk = r.1 })
            (ok tt, w')
        → (r ≡ (ok tt, w'.disk)) × (w'.written ≡ w.written)
    go (err e, d) k = absurd (cc (ap (λ x. x.0) k))
    go (ok u, d) k = (ap (λ x. (ok tt, x)) (ap (λ x. x.1.disk) k), sym (ap (λ x. x.1.written) k))

pub write_manager_config-IsCalm :
    (services : Services) (path : FilePath) (versions : List RollupVersion)
    → IsCalm (write_manager_config services path versions)
unfolding write_manager_config
write_manager_config-IsCalm services path versions =
    bind-IsCalm (lift (create_parent services path))
      (λ _. save_file services path (services.manager_config_text versions))
      (lift-IsCalm (create_parent services path))
      (λ _. save_file-IsCalm services path (services.manager_config_text versions))

pub spawn_rollup_manager-IsCalm :
    (services : Services) (binary config : FilePath) (directories : Directories)
    (log : Option FilePath)
    → IsCalm (spawn_rollup_manager services binary config directories log)
unfolding spawn_rollup_manager
spawn_rollup_manager-IsCalm services binary config directories log =
    bind-IsCalm (lift (open_log services log))
      (λ _.
        lift (spawned services (services.spawn (manager_command binary config directories log))))
      (lift-IsCalm (open_log services log)) (λ _ w gone. (gone, (refl, refl)))
