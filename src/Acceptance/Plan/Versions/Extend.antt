-- ===== src/Acceptance/Plan/Versions/Extend.antt =====
-- `extend_last_stop_height`
use native.Mathlib.Nat.{mod-eq_of_lt}
use rollup_starter.Common.{
  ℕ, ◌+◌, ◌<◌, ◌==◌, List, [], ◌∷◌, ◌++◌, none, some, ◌≡◌, ap, ◌∙◌, arith, inl, inr, Bool-cases,
  u64_mod, add64, if◌then◌else◌,
}
use rollup_starter.Acceptance.Plan.Versions.{
  RollupVersion, extended, no_stop_height, extend_stop, extend_last, extend_last_stop_height,
}

extend_last-append :
    (extra : ℕ) (vs : List RollupVersion) (v : RollupVersion) (stop : ℕ)
    → v.stop_height ≡ some stop
    → extend_last extra (vs ++ v ∷ [])
      ≡ extended (vs ++ record v { stop_height = some (add64 stop extra) } ∷ [])
unfolding extend_last extend_stop
extend_last-append extra [] v stop h = ground arith
extend_last-append extra (u ∷ []) v stop h = rw (extend_last-append extra [] v stop h)
extend_last-append extra (u ∷ w ∷ vs) v stop h = rw (extend_last-append extra (w ∷ vs) v stop h)

-- Without overflow only the stop height of the last version changes, by the extra blocks, also where
-- there are none.
pub extend_last_stop_height-append :
    (vs : List RollupVersion) (v : RollupVersion) (stop extra : ℕ)
    → v.stop_height ≡ some stop
    → stop + extra < u64_mod
    → extend_last_stop_height (vs ++ v ∷ []) extra
      ≡ extended (vs ++ record v { stop_height = some (stop + extra) } ∷ [])
unfolding extend_last_stop_height
extend_last_stop_height-append vs v stop extra h w = elim (Bool-cases (extra == 0)) [
  | inl none_extra ↦
      let same : v ≡ record v { stop_height = some (stop + extra) } = ground arith in
      rw none_extra (ap (λ u. extended (vs ++ u ∷ [])) same)
  | inr some_extra ↦ rw some_extra (
      extend_last-append extra vs v stop h
      ∙ ap (λ n. extended (vs ++ record v { stop_height = some n } ∷ [])) (mod-eq_of_lt w))
]

-- A version without a stop height is a panic, unless there is nothing to add.
pub extend_last_stop_height-panic :
    (vs : List RollupVersion) (v : RollupVersion) (extra : ℕ)
    → v.stop_height ≡ none
    → extend_last_stop_height (vs ++ v ∷ []) extra
      ≡ (if extra == 0 then extended (vs ++ v ∷ []) else no_stop_height)
unfolding extend_last_stop_height
extend_last_stop_height-panic vs v extra h =
    ap (λ r. if extra == 0 then extended (vs ++ v ∷ []) else r) (go vs)
  where
    go : (us : List RollupVersion) → extend_last extra (us ++ v ∷ []) ≡ no_stop_height
    go [] = ground arith
    go (u ∷ []) = rw (go [])
    go (u ∷ w ∷ us) = rw (go (w ∷ us))
