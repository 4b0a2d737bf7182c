-- ===== src/Acceptance/Setup/Append.antt =====
-- When recorded data is appended to.
use rollup_starter.Common.{
  ℕ, zero, suc, ◌+◌, ◌-◌, ◌*◌, ◌<◌, List, [], ◌∷◌, some, ok, ◌≡◌, ap, ◌∙◌, ◌↔◌, arith, length,
  get_elem?,
}
use rollup_starter.Acceptance.Plan.Versions.{
  RollupVersion, RecordedDataBounds, AcceptanceRunPlan, check_recorded, in_sync,
}
use rollup_starter.Acceptance.Plan.Versions.Heights.{Spans, check_recorded_iff}
use rollup_starter.Acceptance.Setup.{classify_append_boundary, stop_of, validate_append_boundary}

-- The stop height of the version at an index.
stop_of-Spans :
    (b p i : ℕ) (vs : List RollupVersion)
    → i < length vs
    → Spans b p vs
    → stop_of (get_elem? vs i) ≡ some (p + (i + 1) * b)
stop_of-Spans b p i [] h s = absurd (omega arith)
stop_of-Spans b p zero (v ∷ vs) h (_, stop, _) =
    let once : p + b ≡ p + (0 + 1) * b = omega arith in stop ∙ ap some once
stop_of-Spans b p (suc i) (v ∷ vs) h (_, _, rest) =
    let more : p + b + (i + 1) * b ≡ p + (suc i + 1) * b = omega arith in
    stop_of-Spans b (p + b) i vs (omega arith) rest ∙ ap some more

validate_lem :
    (r : RecordedDataBounds) (plan : AcceptanceRunPlan) (stop : ℕ)
    → stop_of (get_elem? plan.manager_versions (length plan.manager_versions - 2)) ≡ some stop
    → (validate_append_boundary (some r) plan ≡ ok tt) ↔ (r.end_rollup_height - 1 ≡ stop - 1)
unfolding validate_append_boundary classify_append_boundary
validate_lem r plan stop h = rw (h, validate_append_boundary) (ground arith)

mul-cancel : (k m b : ℕ) → 0 < b → k * b ≡ m * b → k ≡ m
mul-cancel k m b p h = grind arith

-- In a plan of more than one version with consecutive spans of a positive length, recorded data that passed the plan's check
-- is appended to exactly if it ends with the last version but one.
pub validate_append_boundary_iff :
    (r : RecordedDataBounds) (plan : AcceptanceRunPlan)
    → 0 < plan.blocks_per_version
    → 1 < length plan.manager_versions
    → Spans plan.blocks_per_version 0 plan.manager_versions
    → check_recorded (some r) (length plan.manager_versions) plan.blocks_per_version ≡ in_sync
    → (validate_append_boundary (some r) plan ≡ ok tt)
      ↔ (r.end_rollup_height ≡ (length plan.manager_versions - 1) * plan.blocks_per_version)
validate_append_boundary_iff r plan pos many spans sync =
    let n = length plan.manager_versions in
    let b = plan.blocks_per_version in
    let stop = stop_of-Spans b 0 (n - 2) plan.manager_versions (omega arith) spans in
    let (k, lo, hi, ends) = (check_recorded_iff r n b pos (omega arith)).0 sync in
    let previous : 0 + (n - 2 + 1) * b ≡ (n - 1) * b = grind arith in
    let stop' = stop ∙ ap some previous in
    let (forward, backward) = validate_lem r plan ((n - 1) * b) stop' in
    let ends_positive : 0 < k * b = grind arith in
    let stop_positive : 0 < (n - 1) * b = grind arith in
    (
      (λ h. omega (arith, forward h, ends_positive, stop_positive, ends)),
      λ h. backward (ap (λ x. x - 1) h),
    )
