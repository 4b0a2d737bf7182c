-- ===== src/Acceptance/Plan/Versions/Heights.antt =====
-- The heights of a run's versions: consecutive spans of equal length, and what the methods of the
-- plan say of them.
use mathlib.Core.Path.{subst, sym, ◌∙◌, ap₂}
use native.Mathlib.Nat.{div-eq_of_eq-mul_left, mul-mod_left, mod-eq_of_lt}
use rollup_starter.Common.{
  ℕ, zero, suc, ◌+◌, ◌-◌, ◌*◌, ◌/◌, ◌%◌, ◌≤◌, ◌<◌, List, [], ◌∷◌, none, some, map, ◌≡◌, refl, ◌↔◌,
  ap, arith, length, ◌==◌, if◌then◌else◌, mul64, add64, u64_mod,
}
use rollup_starter.Acceptance.Plan.Versions.{
  RollupVersion, RecordedDataBounds, AcceptanceRunPlan, migration_boundary_batch_counts, range_from,
  stop_height_of, start_height_of, check_recorded, in_sync,
}

-- The recorded data passes the check exactly if it ends at the end of a version, the last one or the
-- one before it, in a run with `n` versions of `blocks` heights each.
pub check_recorded_iff :
    (b : RecordedDataBounds) (n blocks : ℕ)
    → 0 < blocks
    → 0 < n
    → (check_recorded (some b) n blocks ≡ in_sync)
      ↔ ((k : ℕ) × (n ≤ k + 1) × (k ≤ n) × (b.end_rollup_height ≡ k * blocks))
unfolding check_recorded
check_recorded_iff b n blocks pos some_version = (forward, backward)
  where
    forward :
        check_recorded (some b) n blocks ≡ in_sync
        → (k : ℕ) × (n ≤ k + 1) × (k ≤ n) × (b.end_rollup_height ≡ k * blocks)
    forward h = (b.end_rollup_height / blocks, ground arith, ground arith, grind arith)

    backward :
        ((k : ℕ) × (n ≤ k + 1) × (k ≤ n) × (b.end_rollup_height ≡ k * blocks))
        → check_recorded (some b) n blocks ≡ in_sync
    backward (k, lo, hi, e) =
        let end_mod : b.end_rollup_height % blocks ≡ 0 = rw e (mul-mod_left k blocks) in
        ground (
          arith,
          div-eq_of_eq-mul_left {n = blocks} {m = b.end_rollup_height} {k = k} pos e,
          end_mod,
        )

-- The versions from a height on, each with a span of `b` heights: it stops `b` heights after the
-- one before, and starts right after it, or at genesis.
abbrev pub Spans : ℕ → ℕ → List RollupVersion → Type 0
Spans b p [] = Unit
Spans b p (v ∷ vs) =
    (v.start_height ≡ (if p == 0 then none else some (p + 1)))
    × (v.stop_height ≡ some (p + b))
    × Spans b (p + b) vs

abbrev pub init : List RollupVersion → List RollupVersion
init [] = []
init (v ∷ []) = []
init (v ∷ w ∷ vs) = v ∷ init (w ∷ vs)

mul-le-mul : (a n b : ℕ) → a ≤ n → a * b ≤ n * b
mul-le-mul a n b h = grind arith

-- Multiples up to the last stop height do not overflow.
mul64-eq-mul : (k b n : ℕ) → k ≤ n → n * b < u64_mod → mul64 k b ≡ k * b
mul64-eq-mul k b n h w = mod-eq_of_lt (grind arith)

add64-eq-add : (i b n : ℕ) → i < n → 0 < b → n * b < u64_mod → add64 i 1 ≡ i + 1
add64-eq-add i b n h p w = mod-eq_of_lt (grind arith)

stop_height_of_lem : (i b n : ℕ) → i < n → 0 < b → n * b < u64_mod → stop_height_of i b ≡ i * b + b
unfolding stop_height_of
stop_height_of_lem i b n h p w =
    rw (add64-eq-add i b n h p w) (rw (mul64-eq-mul (i + 1) b n (omega arith) w) (omega arith))

start_height_of_lem :
    (i b n : ℕ)
    → i < n
    → 0 < b
    → n * b < u64_mod
    → start_height_of i b ≡ (if i * b == 0 then none else some (i * b + 1))
unfolding start_height_of
start_height_of_lem zero b n h p w = ground arith
start_height_of_lem (suc i) b n h p w =
    let small : suc i * b + 1 < u64_mod = omega (arith, mul-le-mul (suc i + 1) n b (omega arith)) in
    let positive : 0 < suc i * b = grind arith in
    rw (mul64-eq-mul (suc i) b n (omega arith) w) (rw (mod-eq_of_lt small) (ground arith))

-- A list of versions has the heights that the loop gives from an index on.
abbrev pub HasHeights : ℕ → ℕ → List RollupVersion → Type 0
HasHeights b i [] = Unit
HasHeights b i (v ∷ vs) =
    (v.start_height ≡ start_height_of i b)
    × (v.stop_height ≡ some (stop_height_of i b))
    × HasHeights b (i + 1) vs

-- Without overflow these heights are consecutive spans.
pub HasHeights-Spans :
    (b n i : ℕ) (vs : List RollupVersion)
    → 0 < b
    → i + length vs ≤ n
    → n * b < u64_mod
    → HasHeights b i vs
    → Spans b (i * b) vs
HasHeights-Spans b n i [] p h w k = tt
HasHeights-Spans b n i (v ∷ vs) p h w (k₀, k₁, k₂) =
    let next : (i + 1) * b ≡ i * b + b = omega arith in
    (
      k₀ ∙ start_height_of_lem i b n (omega arith) p w,
      k₁ ∙ ap some (stop_height_of_lem i b n (omega arith) p w),
      subst (λ q. Spans b q vs) next (HasHeights-Spans b n (i + 1) vs p (omega arith) w k₂),
    )

boundaries-eq-stops :
    (b n i : ℕ) (v : RollupVersion) (vs : List RollupVersion)
    → i + 1 + length vs ≤ n
    → n * b < u64_mod
    → Spans b (i * b) (v ∷ vs)
    → map some (map (λ k. mul64 k b) (range_from (i + 1) (length vs)))
      ≡ map (λ u. u.stop_height) (init (v ∷ vs))
boundaries-eq-stops b n i v [] h w s = refl
boundaries-eq-stops b n i v (u ∷ vs) h w (s₀, s₁, s₂) =
    let next : (i + 1) * b ≡ i * b + b = omega arith in
    let rest =
      boundaries-eq-stops b n (i + 1) u vs (omega arith) w
        (subst (λ q. Spans b q (u ∷ vs)) (sym next) s₂) in
    let here : mul64 (i + 1) b ≡ i * b + b = mul64-eq-mul (i + 1) b n (omega arith) w ∙ next in
    ap₂ (λ o l. o ∷ l) (ap some here ∙ sym s₁) rest

boundaries_lem :
    (b : ℕ) (vs : List RollupVersion)
    → length vs * b < u64_mod
    → Spans b 0 vs
    → map some (map (λ k. mul64 k b) (range_from 1 (length vs - 1)))
      ≡ map (λ v. v.stop_height) (init vs)
boundaries_lem b [] w s = refl
boundaries_lem b (v ∷ vs) w s =
    let fewer : suc (length vs) - 1 ≡ length vs = omega arith in
    let zero_lem : 0 * b ≡ 0 = omega arith in
    rw fewer (
      boundaries-eq-stops b (suc (length vs)) 0 v vs (omega arith) w
        (subst (λ q. Spans b q (v ∷ vs)) (sym zero_lem) s))

-- For a plan whose versions have consecutive spans that do not overflow, the migration boundaries
-- are the stop heights of all versions but the last, in order.
pub migration_boundary_batch_counts-eq-stops :
    (plan : AcceptanceRunPlan)
    → length plan.manager_versions * plan.blocks_per_version < u64_mod
    → Spans plan.blocks_per_version 0 plan.manager_versions
    → map some (migration_boundary_batch_counts plan)
      ≡ map (λ v. v.stop_height) (init plan.manager_versions)
unfolding migration_boundary_batch_counts
migration_boundary_batch_counts-eq-stops plan w s =
    boundaries_lem plan.blocks_per_version plan.manager_versions w s
