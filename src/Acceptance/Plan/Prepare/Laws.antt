-- ===== src/Acceptance/Plan/Prepare/Laws.antt =====
-- What a prepared plan contains.
use mathlib.Core.Path.{subst}
use rollup_starter.Common.{
  ℕ, zero, suc, ◌+◌, ◌*◌, ◌%◌, u64_mod, ◌⊎◌, inl, inr, sym, ap, ◌∙◌, none, Result, Bool, String,
  List, [], ◌∷◌, Option, some, ok, length, ◌≡◌, refl, arith, map_err, map_err-eq-ok,
}
use rollup_starter.Common.Exec.{continue_with-eq-ok, lift-eq-ok, pure, lift}
use rollup_starter.Acceptance.Paths.{FilePath, join, relative}
use rollup_starter.Acceptance.Directories.{Directories}
use rollup_starter.Acceptance.Plan.Sources.{ResolvedVersion, load_version_sources}
use rollup_starter.Acceptance.Plan.Sources.Laws.{IsResolved, load_version_sources-IsResolved}
use rollup_starter.Acceptance.Plan.Versions.{
  RollupVersion, RecordedDataBounds, AcceptanceRunPlan, start_height_of, stop_height_of, in_sync,
  check_recorded,
}
use rollup_starter.Acceptance.Plan.Targets.{
  Artifacts, BuildTargets, PlanError, Tools, source, LocalBinaries, build_local_head_binaries, try,
  default_build_targets,
}
use rollup_starter.Acceptance.Plan.Parts.{
  remote_commits, version_parts, any_local_migration, render_config_template,
}
use rollup_starter.Acceptance.Plan.Parts.Laws.{FromSource, version_parts-FromSource}
use rollup_starter.Acceptance.Plan.Prepare.{
  Versions, push_version, config_path, write, check_data, remote_artifacts, plan_versions,
  prepare_acceptance_run_plan,
}

-- The first version starts anywhere, each other one after all the blocks of those before it.
abbrev pub StartsAt : ℕ → ℕ → Option ℕ → Type 0
StartsAt zero b start = start ≡ none
StartsAt (suc i) b start = start ≡ some ((suc i * b % u64_mod + 1) % u64_mod)

start_height_of-StartsAt : (i b : ℕ) → StartsAt i b (start_height_of i b)
unfolding start_height_of
start_height_of-StartsAt zero b = refl
start_height_of-StartsAt (suc i) b = refl

pub StartsAt-eq : (i b : ℕ) (start : Option ℕ) → StartsAt i b start → start ≡ start_height_of i b
unfolding start_height_of
StartsAt-eq zero b start h = h
StartsAt-eq (suc i) b start h = h

-- The loop's result, entry by entry: one version of the manager and one of the soak run for each
-- resolved version, with the heights and the config file of its index.
abbrev pub Matches :
    Directories → ℕ → ℕ → List ResolvedVersion → List RollupVersion → List (FilePath × ℕ) → Type 0
Matches d b i [] [] [] = Unit
Matches d b i (r ∷ rs) (v ∷ vs) (s ∷ ss) =
    StartsAt i b v.start_height
    × (v.stop_height ≡ some ((i + 1) % u64_mod * b % u64_mod))
    × (some s.1 ≡ v.stop_height)
    × (v.config_path ≡ config_path d i)
    × Matches d b (i + 1) rs vs ss
Matches d b i _ _ _ = ⊥

-- The binaries of the versions: those of the local head, or the canonical paths of the next artifacts.
abbrev pub BuiltFrom :
    (t : Tools)
    → LocalBinaries
    → List Artifacts
    → List ResolvedVersion
    → List RollupVersion
    → List (FilePath × ℕ)
    → Type 0
BuiltFrom t l arts [] [] [] = Unit
BuiltFrom t l arts (r ∷ rs) (v ∷ vs) (s ∷ ss) =
    (rest : List Artifacts) × FromSource t l arts r.source v.rollup_binary s.0 rest
    × BuiltFrom t l rest rs vs ss
BuiltFrom t l arts _ _ _ = ⊥

module _ (t : Tools) where
  write-eq-ok :
      (p : FilePath) (c : String) (s s' : List (FilePath × String))
      → write t p c s ≡ (ok tt, s')
      → s' ≡ (p, c) ∷ s
  unfolding write
  write-eq-ok p c s s' h = ground arith

  module _ (d : Directories) (password : String) (b : ℕ) (l : LocalBinaries) where
    pub plan_versions-Matches :
        (i : ℕ) (arts : List Artifacts) (rs : List ResolvedVersion)
        (s s' : List (FilePath × String)) (out : Versions)
        → plan_versions t d password b l i arts rs s ≡ (ok out, s')
        → Matches d b i rs out.0 out.1 × BuiltFrom t l arts rs out.0 out.1
    unfolding plan_versions push_version stop_height_of
    plan_versions-Matches i arts [] s s' out h =
        let same : ([], []) ≡ out = ground arith in
        subst (λ o. Matches d b i [] o.0 o.1 × BuiltFrom t l arts [] o.0 o.1) same (tt, tt)
    plan_versions-Matches i arts (r ∷ rs) s s' out h =
        let (parts, made, h₁) = lift-eq-ok (version_parts t d l arts r) _ s h in
        let text = render_config_template parts.0.config_template password d in
        let (_, s₁, _, h₂) = continue_with-eq-ok _ (write t (config_path d i) text s) h₁ in
        let (rest, s₂, p, h₃) =
          continue_with-eq-ok _ (plan_versions t d password b l (i + 1) parts.1 rs s₁) h₂ in
        let same : push_version d b i parts.0 rest ≡ out = ground arith in
        let (matches, built) = plan_versions-Matches (i + 1) parts.1 rs s₁ s₂ rest p in
        subst (λ o. Matches d b i (r ∷ rs) o.0 o.1 × BuiltFrom t l arts (r ∷ rs) o.0 o.1) same
          (
            (start_height_of-StartsAt i b, refl, refl, refl, matches),
            (parts.1, version_parts-FromSource t d l arts r parts.0 parts.1 made, built),
          )

  -- The artifacts are what the builder answers for the commits of the versions, in their order.
  abbrev pub Fetched : List ResolvedVersion → List Artifacts → Type 0
  Fetched rs arts =
      ((remote_commits rs ≡ []) × (arts ≡ []))
      ⊎ (t.prepare_artifacts (default_build_targets t.upgrade_simulator_defaults)
            (remote_commits rs)
          ≡ ok arts)

  remote_artifacts-Fetched :
      (rs : List ResolvedVersion) (arts : List Artifacts) (s s' : List (FilePath × String))
      → remote_artifacts t (default_build_targets t.upgrade_simulator_defaults) rs s ≡ (ok arts, s')
      → Fetched rs arts
  unfolding remote_artifacts
  remote_artifacts-Fetched rs arts s s' h = go (remote_commits rs) refl h
    where
      targets : BuildTargets
      targets = default_build_targets t.upgrade_simulator_defaults

      go :
          (cs : List (String × Bool))
          → remote_commits rs ≡ cs
          → (elim cs
                as (λ _.
                  List (FilePath × String)
                  → Result (PlanError t.IoError t.YamlError) (List Artifacts)
                    × List (FilePath × String)) [
                      | [] ↦ pure []
                      | c ∷ more ↦ lift (try t (t.prepare_artifacts targets (c ∷ more)))
                    ])
              s
            ≡ (ok arts, s')
          → Fetched rs arts
      go [] q k = inl (q, sym (cc (ap (λ r. r.0) k)))
      go (c ∷ cs) q k = inr (
          ap (t.prepare_artifacts targets) q
          ∙ map_err-eq-ok PlanError.io (t.prepare_artifacts targets (c ∷ cs)) (ap (λ r. r.0) k))

  check_data-eq-ok :
      (r : Option RecordedDataBounds) (n b : ℕ) (s s' : List (FilePath × String))
      → check_data t r n b s ≡ (ok tt, s')
      → check_recorded r n b ≡ in_sync
  unfolding check_data
  check_data-eq-ok r n b s s' h = ground arith

  -- A prepared plan has one version for each version that the spec resolves to, with the heights and
  -- the config file of its index and, for the soak run, the same stop height; its binaries come from
  -- the build of the local head or from the next of the artifacts that the builder has answered for the
  -- commits, in order. The recorded data passed the check, and the plan keeps it and the blocks per
  -- version.
  pub prepare_acceptance_run_plan-Matches :
      (d : Directories) (password : String) (b : ℕ) (r : Option RecordedDataBounds)
      (plan : AcceptanceRunPlan) (s s' : List (FilePath × String))
      → prepare_acceptance_run_plan t d password b r s ≡ (ok plan, s')
      → (rs : List ResolvedVersion) × (l : LocalBinaries) × (arts : List Artifacts)
        × (load_version_sources t.read_to_string t.parse_vars t.exists t.parse_spec
              d.acceptance_test_dir
            ≡ ok rs)
        × IsResolved rs
        × Matches d b 0 rs plan.manager_versions plan.soak_config.versions
        × Fetched rs arts
        × (build_local_head_binaries t d
              (default_build_targets t.upgrade_simulator_defaults)
              (any_local_migration rs)
            ≡ ok l)
        × BuiltFrom t l arts rs plan.manager_versions plan.soak_config.versions
        × (check_recorded r (length rs) b ≡ in_sync)
        × (plan.recorded_data ≡ r)
        × (plan.blocks_per_version ≡ b)
  unfolding prepare_acceptance_run_plan
  prepare_acceptance_run_plan-Matches d password b r plan s s' h =
      let load =
        load_version_sources t.read_to_string t.parse_vars t.exists t.parse_spec
          d.acceptance_test_dir in
      let targets = default_build_targets t.upgrade_simulator_defaults in
      let (_, _, h₁) = lift-eq-ok (try t (t.create_dir_all d.rollup_build_cache_dir)) _ s h in
      let (rs, p, h₂) = lift-eq-ok (map_err source load) _ s h₁ in
      let loaded = map_err-eq-ok source load p in
      let (arts, s₁, fetched, h₃) = continue_with-eq-ok _ (remote_artifacts t targets rs s) h₂ in
      let (l, local, h₄) =
        lift-eq-ok (build_local_head_binaries t d targets (any_local_migration rs)) _ s₁ h₃ in
      let (_, _, h₅) =
        lift-eq-ok (try t (t.create_dir_all (join d.output_dir (relative "versioned-configs")))) _
          s₁ h₄ in
      let (_, s₂, checked, h₆) = continue_with-eq-ok _ (check_data t r (length rs) b s₁) h₅ in
      let (out, s₃, planned, h₇) =
        continue_with-eq-ok _ (plan_versions t d password b l 0 arts rs s₂) h₆ in
      let (manager, _, h₈) =
        lift-eq-ok (try t (t.build_rollup_manager_binary d.manager_build_dir)) _ s₃ h₇ in
      let (matches, built) = plan_versions-Matches d password b l 0 arts rs s₂ s₃ out planned in
      let resolved =
        load_version_sources-IsResolved t.read_to_string t.parse_vars t.exists t.parse_spec
          d.acceptance_test_dir rs loaded in
      let sync = check_data-eq-ok r (length rs) b s₁ s₂ checked in
      let versions : out.0 ≡ plan.manager_versions = ground arith in
      let soaks : out.1 ≡ plan.soak_config.versions = ground arith in
      let both =
        subst (λ vs. Matches d b 0 rs vs out.1 × BuiltFrom t l arts rs vs out.1) versions
          (matches, built) in
      let (matches', built') =
        subst
          (λ ss.
            Matches d b 0 rs plan.manager_versions ss
            × BuiltFrom t l arts rs plan.manager_versions ss)
          soaks both in
      (
        rs,
        l,
        arts,
        loaded,
        resolved,
        matches',
        remote_artifacts-Fetched rs arts s s₁ fetched,
        local,
        built',
        sync,
        ground arith,
        ground arith,
      )
