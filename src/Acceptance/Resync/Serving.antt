-- ===== src/Acceptance/Resync/Serving.antt =====
-- The slots of a node that serves the recorded data, and what the loop over them does with each.
use mathlib.Core.Path.{subst}
use rollup_starter.Common.{
  ℕ, zero, suc, ◌+◌, ◌-◌, ◌≤◌, ◌<◌, true, false, some, sym, ok, err, ◌≡◌, refl, ◌∙◌, ◌⊎◌, inl, inr,
  arith, ◌==◌, ltb, u64_mod,
}
use native.Mathlib.Nat.{mod-eq_of_lt}
use rollup_starter.Acceptance.Slots.{
  Slot, Json, Files, missing_snapshot, load_snapshot_json, compare_against_snapshot,
}
use rollup_starter.Acceptance.Plan.Versions.{
  AcceptanceRunPlan, expected_setup_batches, last_recorded_slot, range_from,
}
use rollup_starter.Acceptance.Resync.{
  Node, Progress, Step, skipped, verified, finished, is_migration_boundary, expected_snapshot,
  has_batches, no_snapshot, after_verified, compare_live, verify_snapshot, verify_slot,
  verify_slots,
}

module _ (json : Json) (files : Files) (plan : AcceptanceRunPlan) (node : Node) where
  open json use {Value}

  -- A node that always answers with a slot that matches the snapshot of the slot.
  abbrev pub Serves : ℕ → Slot → Type 0
  Serves n recorded =
      (snapshot : Value) × (live : Slot) × (load_snapshot_json json n files ≡ ok snapshot)
      × (json.from_value snapshot ≡ some recorded)
      × ((time : ℕ) → node.get_slot time n (has_batches json files plan node recorded) ≡ some live)
      × (compare_against_snapshot json live
            (expected_snapshot json files plan node
              (is_migration_boundary json files plan node recorded) live snapshot)
            false
          ≡ ok tt)

  abbrev pub Early : ℕ → Type 0
  Early n = (n < 10) × (load_snapshot_json json n files ≡ err missing_snapshot)

  pub compared :
      (n : ℕ) (recorded : Slot) (p : Progress)
      → Serves n recorded
      → verify_slot json files plan node n p ≡ (
        after_verified json files plan node n (recorded.batch_range.1 - 1),
        record p { now = p.now + 1; latest_batch_num = recorded.batch_range.1 - 1 },
      )
  unfolding verify_slot verify_snapshot compare_live
  compared n recorded p (snapshot, live, l, f, g, m) =
      rw (l, verify_slot) (rw f (rw (g p.now, verify_snapshot) (rw (m, compare_live))))

  pub goes_on_verified :
      (n last latest : ℕ)
      → last_recorded_slot plan ≡ some last
      → n < last
      → after_verified json files plan node n latest ≡ verified
  unfolding after_verified
  goes_on_verified n last latest known before =
      let other : (last == n) ≡ false = ground arith in simp (known, other)

  -- The loop goes on, and does not touch what it knows of reconnects.
  abbrev pub GoesOn : Progress → Step × Progress → Type 0
  GoesOn p r = ((r.0 ≡ skipped) ⊎ (r.0 ≡ verified)) × (r.1.last_reconnect_at ≡ p.last_reconnect_at)

  pub goes_on :
      (n last : ℕ) (p : Progress)
      → last_recorded_slot plan ≡ some last
      → n < last
      → Early n ⊎ ((recorded : Slot) × Serves n recorded)
      → GoesOn p (verify_slot json files plan node n p)
  unfolding verify_slot no_snapshot
  goes_on n last p known before (inl (early, missing)) =
      let small : ltb n 10 ≡ true = ground arith in
      let same : verify_slot json files plan node n p ≡ (skipped, p) =
        rw (missing, verify_slot) (rw (small, no_snapshot)) in
      subst (GoesOn p) (sym same) (inl refl, refl)
  goes_on n last p known before (inr (recorded, serves)) =
      let verified_lem = goes_on_verified n last (recorded.batch_range.1 - 1) known before in
      subst (GoesOn p) (sym (compared n recorded p serves)) (inr verified_lem, refl)

  -- All slots below the last recorded one are served, or missing among the first ten.
  abbrev pub ServesBelow : ℕ → Type 0
  ServesBelow last = (k : ℕ) → k < last → Early k ⊎ ((r : Slot) × Serves k r)

  pub run_below :
      (m c last : ℕ) (p : Progress)
      → last_recorded_slot plan ≡ some last
      → (m ≡ 0) ⊎ (c + m ≤ last)
      → ServesBelow last
      → GoesOn p (verify_slots json files plan node (range_from c m) p)
  unfolding verify_slots
  run_below zero c last p known small all = (inr refl, refl)
  run_below (suc m) c last p known small all =
      let inside : c + suc m ≤ last = omega arith in
      let after = verify_slot json files plan node c p in
      let (step, same) = goes_on c last p known (omega arith) (all c (omega arith)) in
      let (rest, same') = run_below m (c + 1) last after.1 known (inr (omega arith)) all in
      elim step [
        | inl e ↦ rw (e, verify_slots) (rest, same' ∙ same)
        | inr e ↦ rw (e, verify_slots) (rest, same' ∙ same)
      ]

  pub ends :
      (last : ℕ) (recorded : Slot)
      → last_recorded_slot plan ≡ some last
      → expected_setup_batches plan ≤ recorded.batch_range.1 - 1
      → last + 1 < u64_mod
      → after_verified json files plan node last (recorded.batch_range.1 - 1) ≡ finished (last + 1)
  unfolding after_verified
  ends last recorded known enough fits =
      let same : (last == last) ≡ true = ground arith in
      let some_batches : ltb (recorded.batch_range.1 - 1) (expected_setup_batches plan) ≡ false =
        ground arith in
      simp (known, same, some_batches, mod-eq_of_lt fits)
