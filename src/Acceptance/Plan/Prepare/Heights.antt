-- ===== src/Acceptance/Plan/Prepare/Heights.antt =====
-- The heights of a prepared plan.
use mathlib.Core.Path.{ap₂}
use rollup_starter.Common.{
  ℕ, ◌+◌, ◌*◌, ◌<◌, String, List, [], ◌∷◌, Option, some, map, ok, length, ◌≡◌, refl, sym, arith,
  u64_mod,
}
use mathlib.Core.Path.{subst}
use rollup_starter.Acceptance.Paths.{FilePath}
use rollup_starter.Acceptance.Directories.{Directories}
use rollup_starter.Acceptance.Plan.Sources.{ResolvedVersion}
use rollup_starter.Acceptance.Plan.Versions.{
  stop_height_of, RollupVersion, RecordedDataBounds, AcceptanceRunPlan,
  migration_boundary_batch_counts,
}
use rollup_starter.Acceptance.Plan.Versions.Heights.{
  HasHeights, HasHeights-Spans, Spans, init, migration_boundary_batch_counts-eq-stops,
}
use rollup_starter.Acceptance.Plan.Targets.{Tools}
use rollup_starter.Acceptance.Plan.Prepare.{prepare_acceptance_run_plan}
use rollup_starter.Acceptance.Plan.Prepare.Laws.{
  StartsAt-eq, Matches, prepare_acceptance_run_plan-Matches,
}

Matches-HasHeights :
    (d : Directories) (b i : ℕ) (rs : List ResolvedVersion) (vs : List RollupVersion)
    (ss : List (FilePath × ℕ))
    → Matches d b i rs vs ss
    → HasHeights b i vs × (map (λ v. v.stop_height) vs ≡ map (λ s. some s.1) ss)
unfolding stop_height_of
Matches-HasHeights d b i [] [] [] m = (tt, refl)
Matches-HasHeights d b i (r ∷ rs) (v ∷ vs) (s ∷ ss) (m₀, m₁, m₂, _, m₄) =
    let (heights, stops) = Matches-HasHeights d b (i + 1) rs vs ss m₄ in
    ((StartsAt-eq i b v.start_height m₀, m₁, heights), ap₂ (λ x xs. x ∷ xs) (sym m₂) stops)
Matches-HasHeights d b i [] [] (s ∷ ss) m = absurd m
Matches-HasHeights d b i [] (v ∷ vs) ss m = absurd m
Matches-HasHeights d b i (r ∷ rs) [] ss m = absurd m
Matches-HasHeights d b i (r ∷ rs) (v ∷ vs) [] m = absurd m

-- A prepared plan with a positive number of blocks per version whose heights fit a `u64`: its versions
-- have consecutive spans of that many heights from genesis on, its migration boundaries are the stop
-- heights of all versions but the last, and the soak runs stop where the versions stop.
pub prepare_acceptance_run_plan-Spans :
    (t : Tools) (d : Directories) (password : String) (b : ℕ) (r : Option RecordedDataBounds)
    (plan : AcceptanceRunPlan) (s s' : List (FilePath × String))
    → 0 < b
    → length plan.manager_versions * b < u64_mod
    → prepare_acceptance_run_plan t d password b r s ≡ (ok plan, s')
    → Spans b 0 plan.manager_versions
      × (map some (migration_boundary_batch_counts plan)
          ≡ map (λ v. v.stop_height) (init plan.manager_versions))
      × (map (λ v. v.stop_height) plan.manager_versions
          ≡ map (λ v. some v.1) plan.soak_config.versions)
prepare_acceptance_run_plan-Spans t d password b r plan s s' pos fits h =
    let (rs, _, _, _, _, matches, _, _, _, _, _, same) =
      prepare_acceptance_run_plan-Matches t d password b r plan s s' h in
    let (heights, stops) =
      Matches-HasHeights d b 0 rs plan.manager_versions plan.soak_config.versions matches in
    let spans =
      subst (λ p. Spans b p plan.manager_versions) (omega arith)
        (HasHeights-Spans b (length plan.manager_versions) 0 plan.manager_versions pos (omega arith)
          fits heights) in
    (
      spans,
      migration_boundary_batch_counts-eq-stops plan
          (subst (λ k. length plan.manager_versions * k < u64_mod) (sym same) fits)
          (subst (λ k. Spans k 0 plan.manager_versions) (sym same) spans),
      stops,
    )
