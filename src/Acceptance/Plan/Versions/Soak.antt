-- ===== src/Acceptance/Plan/Versions/Soak.antt =====
-- The salts of the soak workers: the workers of the appended version are not those of earlier ones.
use native.Mathlib.Nat.{mod-eq_of_lt}
use rollup_starter.Common.{ℕ, ◌+◌, ◌-◌, ◌*◌, ◌%◌, ◌≤◌, ◌<◌, some, ◌≡◌, ◌≢◌, arith, length, last?}
use rollup_starter.Acceptance.Plan.Versions.{SoakManagerConfig, last_version_soak_config, u32_mod}

-- The identifier of a worker of the version at index `i` in a run over all versions of `c`.
abbrev pub worker_of : SoakManagerConfig → ℕ → ℕ → ℕ
worker_of c i w = c.salt + c.num_workers * i + w

salt_lem :
    (s n l : ℕ)
    → s + n * l < u32_mod
    → l < u32_mod
    → (s + n * (l % u32_mod - 1) % u32_mod) % u32_mod ≡ s + n * (l - 1)
salt_lem s n l h k =
    let less : n * (l - 1) ≤ n * l = grind arith in
    rw (mod-eq_of_lt k) (
      rw (mod-eq_of_lt {n = n * (l - 1)} {m = u32_mod} (omega (arith, less)))
        (mod-eq_of_lt (omega (arith, less))))

-- Workers of an earlier version have smaller identifiers.
worker_of-lt :
    (c : SoakManagerConfig) (i w : ℕ)
    → i + 1 < length c.versions
    → w < c.num_workers
    → worker_of c i w < worker_of c (length c.versions - 1) 0
worker_of-lt c i w h k =
    let below : c.num_workers * (i + 1) ≤ c.num_workers * (length c.versions - 1) = grind arith in
    omega (arith, below)

last_version_soak_config_lem :
    (c d : SoakManagerConfig)
    → c.salt + c.num_workers * length c.versions < u32_mod
    → length c.versions < u32_mod
    → last_version_soak_config c ≡ some d
    → (last? c.versions ≡ last? d.versions)
      × (length d.versions ≡ 1)
      × (d.num_workers ≡ c.num_workers)
      × (d.safety_stop_blocks ≡ c.safety_stop_blocks)
      × (d.salt ≡ worker_of c (length c.versions - 1) 0)
unfolding last_version_soak_config
last_version_soak_config_lem c d fits few h =
    ground (arith, salt_lem c.salt c.num_workers (length c.versions) fits few)

-- If no salt of the run overflows, the configuration for appending keeps the last binary, its stop
-- height, the number of workers and the safety margin, its salt is that of the last version, and
-- no worker of it, at any offset from its salt, is a worker of an earlier version.
pub last_version_soak_config-disjoint :
    (c d : SoakManagerConfig) (i w v : ℕ)
    → c.salt + c.num_workers * length c.versions < u32_mod
    → length c.versions < u32_mod
    → i + 1 < length c.versions
    → w < c.num_workers
    → last_version_soak_config c ≡ some d
    → (last? c.versions ≡ last? d.versions)
      × (length d.versions ≡ 1)
      × (d.num_workers ≡ c.num_workers)
      × (d.safety_stop_blocks ≡ c.safety_stop_blocks)
      × (d.salt ≡ worker_of c (length c.versions - 1) 0)
      × (worker_of c i w ≢ d.salt + v)
last_version_soak_config-disjoint c d i w v fits few earlier k h =
    let (a, b, e, f, g) = last_version_soak_config_lem c d fits few h in
    (a, b, e, f, g, λ same. absurd (omega (arith, worker_of-lt c i w earlier k, g, same)))
