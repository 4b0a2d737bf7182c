-- ===== src/Acceptance/Soak/Counters.antt =====
-- The counters of a soak run.
use mathlib.Core.Path.{subst}
use rollup_starter.Common.{
  ℕ, ◌+◌, ◌-◌, ◌≤◌, ◌<◌, List, [], ◌∷◌, Option, none, some, Result, ok, ◌≡◌, refl, inl, arith,
  add64, u64_mod,
}
use native.Mathlib.Nat.{mod-eq_of_lt}
use rollup_starter.Acceptance.Slots.{Slot, Json, Files, save_slot_snapshot}
use rollup_starter.Acceptance.Plan.Versions.{range_from}
use rollup_starter.Acceptance.Soak.{
  SoakRunOptions, Soak, Answers, Event, rollup_exited, task_done, task_failed, task_panicked,
  new_slot, stream_failed, shutdown, stream_closed, exited, running, unknown, Break, count_batch,
  save_slot_snapshot_if_needed, backfill_slot, backfill_missing_snapshots, backfill, account,
  on_slot, closed, handle, run_loop, initial,
}
use rollup_starter.Acceptance.Soak.Contiguous.{slot_events}
use rollup_starter.Acceptance.Soak.Counted.{
  Counts, Counts-le, weight, slot_events-cons, after_both, measured, measured_of, batch_events,
  measured_of-le, count_batch-Counts,
}

module _ (json : Json) (o : SoakRunOptions) where
  backfill_slot-Counts :
      (i j : ℕ) (a : Answers) (n : ℕ) (s : Soak)
      → Counts i j s
      → Counts i j (backfill_slot json o a n s).1
  unfolding backfill_slot save_slot_snapshot
  backfill_slot-Counts i j a n s h = ground arith

  gap-Counts :
      (i j : ℕ) (a : Answers) (ns : List ℕ) (s : Soak)
      → Counts i j s
      → Counts i j (backfill_missing_snapshots json o a ns s).1
  unfolding backfill_missing_snapshots
  gap-Counts i j a [] s h = h
  gap-Counts i j a (n ∷ ns) s h =
      after_both (Counts i j) (Counts i j) _ (backfill_slot json o a n s)
        (backfill_slot-Counts i j a n s h) (λ t c. c) (λ _ t c. gap-Counts i j a ns t c)

  backfill-Counts :
      (i j : ℕ) (slot : Slot) (a : Answers) (s : Soak)
      → Counts i j s
      → Counts i j (backfill json o slot a s).1
  unfolding backfill
  backfill-Counts i j slot a s h = go s.snapshot_backfill_from
    where
      go :
          (b : Option ℕ)
          → Counts i j
              (elim b as (λ _. Result Break (Unit {0}) × Soak) [
                | none ↦ (ok tt, s)
                | some from ↦
                    backfill_missing_snapshots json o a
                      (range_from from (slot.number - from))
                      (record s { snapshot_backfill_from = none })
              ]).1
      go none = h
      go (some from) =
          gap-Counts i j a (range_from from (slot.number - from))
            (record s { snapshot_backfill_from = none }) h

  account-Counts :
      (i j : ℕ) (slot : Slot) (a : Answers) (s : Soak)
      → i + 1 < u64_mod
      → Counts i j s
      → Counts (i + 1) j (account json o slot a s).1
  unfolding account save_slot_snapshot_if_needed save_slot_snapshot
  account-Counts i j slot a s fits h =
      let small : s.num_soak_slots + 1 < u64_mod = omega (arith, h.0) in
      let exact : add64 s.num_soak_slots 1 ≡ s.num_soak_slots + 1 = mod-eq_of_lt small in
      ground (arith, exact)

  on_slot-Counts :
      (i j : ℕ) (slot : Slot) (a : Answers) (s : Soak)
      → i + 1 < u64_mod
      → j + 1 < u64_mod
      → Counts i j s
      → Counts (i + 1) (j + measured json o slot) (on_slot json o slot a s).1
  unfolding on_slot
  on_slot-Counts i j slot a s fits fits' h =
      let k = j + measured json o slot in
      let weaken : (t : Soak) → Counts i k t → Counts (i + 1) k t =
        λ t c. Counts-le i (i + 1) k k t (omega arith) (omega arith) c in
      after_both (Counts i k) (Counts (i + 1) k) _ (count_batch json o slot a s)
        (count_batch-Counts json o i j slot a s fits' h) weaken
        (λ _ t c.
          after_both (Counts i k) (Counts (i + 1) k) _ (backfill json o slot a t)
            (backfill-Counts i k slot a t c) weaken (λ _ u d. account-Counts i k slot a u fits d))

  quiet-Counts : (i j : ℕ) (s t : Soak) → Counts i j s → s ≡ t → Counts (i + 0) (j + 0) t
  quiet-Counts i j s t h same =
      subst (Counts (i + 0) (j + 0)) same
        (Counts-le i (i + 0) j (j + 0) s (omega arith) (omega arith) h)

  handle-Counts :
      (i j : ℕ) (e : Event) (s : Soak)
      → i + weight e < u64_mod
      → j + weight e < u64_mod
      → Counts i j s
      → Counts (i + weight e) (j + measured_of json o e) (handle json o e s).1
  unfolding handle closed
  handle-Counts i j (new_slot slot a) s fits fits' h = on_slot-Counts i j slot a s fits fits' h
  handle-Counts i j (rollup_exited none) s fits fits' h = quiet-Counts i j s _ h refl
  handle-Counts i j (rollup_exited (some b)) s fits fits' h = quiet-Counts i j s _ h refl
  handle-Counts i j task_done s fits fits' h = quiet-Counts i j s _ h refl
  handle-Counts i j task_failed s fits fits' h =
      quiet-Counts i j s (handle json o task_failed s).1 h (ground arith)
  handle-Counts i j task_panicked s fits fits' h = quiet-Counts i j s _ h refl
  handle-Counts i j stream_failed s fits fits' h = quiet-Counts i j s _ h refl
  handle-Counts i j shutdown s fits fits' h = quiet-Counts i j s _ h refl
  handle-Counts i j (stream_closed (exited b)) s fits fits' h = quiet-Counts i j s _ h refl
  handle-Counts i j (stream_closed running) s fits fits' h = quiet-Counts i j s _ h refl
  handle-Counts i j (stream_closed unknown) s fits fits' h = quiet-Counts i j s _ h refl

  run_loop_from-Counts :
      (es : List Event) (i j : ℕ) (s : Soak)
      → j ≤ i
      → i + slot_events es < u64_mod
      → Counts i j s
      → Counts (i + slot_events es) (j + batch_events json o es) (run_loop json o es s).1
  unfolding run_loop
  run_loop_from-Counts [] i j s order fits h =
      Counts-le i (i + 0) j (j + 0) s (omega arith) (omega arith) h
  run_loop_from-Counts (e ∷ es) i j s order fits h =
      let cons = slot_events-cons e es in
      let small = measured_of-le json o e in
      let slots = i + slot_events (e ∷ es) in
      let batches = j + batch_events json o (e ∷ es) in
      let regroup : i + weight e + slot_events es ≡ slots = omega (arith, cons) in
      let regroup' : j + measured_of json o e + batch_events json o es ≡ batches = omega arith in
      after_both (Counts (i + weight e) (j + measured_of json o e)) (Counts slots batches) _
        (handle json o e s) (handle-Counts i j e s (omega (arith, cons)) (omega (arith, cons)) h)
        (λ t c. Counts-le _ slots _ batches t (omega (arith, regroup)) (omega (arith, regroup')) c)
        (λ _ t c.
          subst (λ k. Counts k batches (run_loop json o es t).1) regroup
            (subst (λ k. Counts (i + weight e + slot_events es) k (run_loop json o es t).1) regroup'
              (run_loop_from-Counts es (i + weight e) (j + measured_of json o e) t
                (omega (arith, small)) (omega (arith, cons)) c)))

  -- However the loop of a soak run goes or ends, if it has seen fewer than 2^64 slots, it has counted at
  -- most one slot for each of them, at most one batch for each that carries batches after the start of
  -- the measurement, and no slot and no transaction unless it has counted a batch.
  pub run_loop-Counts :
      (es : List Event) (files : Files)
      → slot_events es < u64_mod
      → Counts
          (slot_events es)
          (batch_events json o es)
          (run_loop json o es (initial json o files)).1
  run_loop-Counts es files fits =
      subst (λ k. Counts k (batch_events json o es) (run_loop json o es (initial json o files)).1)
        (omega arith)
        (subst (λ k. Counts (0 + slot_events es) k (run_loop json o es (initial json o files)).1)
          (omega arith)
          (run_loop_from-Counts es 0 0 (initial json o files) (omega arith) (omega arith)
            (omega arith, omega arith, inl (refl, refl, refl))))
