-- ===== src/Acceptance/Slots/Monitor/Laws.antt =====
-- The deliveries that the monitor lets pass, and the snapshots that it saves.
use mathlib.Core.Path.{subst}
use rollup_starter.Common.{
  ℕ, Bool, true, false, List, [], ◌∷◌, Option, none, some, ok, ◌≡◌, refl, sym, ◌⊎◌, inl, inr, arith,
  ok_or, add64, ◌==◌,
}
use rollup_starter.Common.Exec.{continue_with-eq-ok, lift-eq-ok}
use rollup_starter.Acceptance.Slots.{
  Slot, Json, panicked, assert_slots_match_excluding_batches,
  assert_slots_match_json_excluding_batches,
}
use rollup_starter.Acceptance.Slots.Laws.{
  with_batches, assert_slots_match-eq, slots_match-eq, batches_eq-eq,
}
use rollup_starter.Acceptance.Slots.Monitor.{
  GetItemBehavior, SlotMonitor, Delivery, check_sequence, check_finalized, handle_snapshot, advance,
  get_next_slot, monitor,
}

-- A finalized slot that carries batches is the slot before it, batches included; the finalized slot is
-- compared with its own children elsewhere.
abbrev pub FinalizedFollows : Delivery → Option Slot → Type 0
FinalizedFollows d none = Unit
FinalizedFollows d (some prev) =
    (d.finalized.batch_range.1 ≡ d.finalized.batch_range.0)
    ⊎ ((d.finalized ≡ with_batches prev d.finalized.batches)
        × (d.finalized_with_children.batches ≡ prev.batches))

-- A delivery is consistent, has the expected number, if there is one, and finalizes the slot before it.
abbrev pub Passes : Option ℕ → Option Slot → Delivery → Type 0
Passes expected prev d =
    ((expected ≡ none) ⊎ (expected ≡ some d.slot_with_children.number))
    × (d.slot ≡ with_batches d.slot_with_children d.slot.batches)
    × (d.finalized ≡ with_batches d.finalized_with_children d.finalized.batches)
    × FinalizedFollows d prev

-- A list of deliveries that pass one after the other, each with the successor of the number before.
abbrev pub AllPass : Option ℕ → Option Slot → List (Option Delivery) → Type 0
AllPass expected prev [] = Unit
AllPass expected prev (none ∷ ds) = ⊥
AllPass expected prev (some d ∷ ds) =
    Passes expected prev d
    × AllPass (some (add64 d.slot_with_children.number 1)) (some d.slot_with_children) ds

check_finalized-FinalizedFollows :
    (d : Delivery) (prev : Option Slot) → check_finalized d prev ≡ ok tt → FinalizedFollows d prev
unfolding check_finalized
check_finalized-FinalizedFollows d none h = tt
check_finalized-FinalizedFollows d (some prev) h =
    elim (cases (d.finalized.batch_range.1 == d.finalized.batch_range.0)) [
      | inl e ↦ inl (ground arith)
      | inr e ↦ inr (
        slots_match-eq d.finalized prev (ground arith),
        batches_eq-eq d.finalized_with_children.batches prev.batches (ground arith),
      )
    ]
  where
    cases : (b : Bool) → (b ≡ true) ⊎ (b ≡ false)
    cases true = inl refl
    cases false = inr refl

check_sequence-eq-ok :
    (n : ℕ) (m m' : SlotMonitor)
    → check_sequence n m ≡ (ok tt, m')
    → ((m.expected_slot_number ≡ none) ⊎ (m.expected_slot_number ≡ some n))
      × (m.prev_slot_with_children ≡ m'.prev_slot_with_children)
unfolding check_sequence
check_sequence-eq-ok n m m' h = ground arith

module _ (json : Json) (writable : Bool) where
  handle_snapshot-eq-ok :
      (behavior : GetItemBehavior) (s : Slot) (m m' : SlotMonitor)
      → handle_snapshot json writable behavior s m ≡ (ok tt, m')
      → m.prev_slot_with_children ≡ m'.prev_slot_with_children
  unfolding handle_snapshot
  handle_snapshot-eq-ok GetItemBehavior.save_snapshot s m m' h = ground arith
  handle_snapshot-eq-ok GetItemBehavior.do_nothing s m m' h = ground arith
  handle_snapshot-eq-ok GetItemBehavior.check_against_snapshot s m m' h = ground arith

  pub get_next_slot-Passes :
      (behavior : GetItemBehavior) (o : Option Delivery) (m m' : SlotMonitor) (d : Delivery)
      → get_next_slot json writable behavior o m ≡ (ok d, m')
      → (o ≡ some d)
        × Passes m.expected_slot_number m.prev_slot_with_children d
        × (m'.expected_slot_number ≡ some (add64 d.slot_with_children.number 1))
        × (m'.prev_slot_with_children ≡ some d.slot_with_children)
  unfolding get_next_slot advance
  get_next_slot-Passes behavior o m m' d h =
      let (d₀, p, h₁) = lift-eq-ok (ok_or o panicked) _ m h in
      let (_, m₁, q, h₂) =
        continue_with-eq-ok _ (check_sequence d₀.slot_with_children.number m) h₁ in
      let (_, r, h₃) =
        lift-eq-ok (assert_slots_match_excluding_batches d₀.slot d₀.slot_with_children) _ m₁ h₂ in
      let (_, _, h₄) =
        lift-eq-ok (assert_slots_match_json_excluding_batches json d₀.slot d₀.slot_with_children) _
          m₁ h₃ in
      let (_, s, h₅) =
        lift-eq-ok (assert_slots_match_excluding_batches d₀.finalized d₀.finalized_with_children) _
          m₁ h₄ in
      let (_, _, h₆) =
        lift-eq-ok
          (assert_slots_match_json_excluding_batches json d₀.finalized d₀.finalized_with_children) _
          m₁ h₅ in
      let (_, t, h₇) = lift-eq-ok (check_finalized d₀ m₁.prev_slot_with_children) _ m₁ h₆ in
      let (_, m₂, u, h₈) =
        continue_with-eq-ok _ (handle_snapshot json writable behavior d₀.slot_with_children m₁)
          h₇ in
      let (expected, prev) = check_sequence-eq-ok d₀.slot_with_children.number m m₁ q in
      let same : d₀ ≡ d = ground arith in
      let passes : Passes m.expected_slot_number m.prev_slot_with_children d₀ = (
        expected,
        assert_slots_match-eq d₀.slot d₀.slot_with_children r,
        assert_slots_match-eq d₀.finalized d₀.finalized_with_children s,
        subst (FinalizedFollows d₀) (sym prev)
            (check_finalized-FinalizedFollows d₀ m₁.prev_slot_with_children t),
      ) in
      (
        ground arith,
        subst (Passes m.expected_slot_number m.prev_slot_with_children) same passes,
        ground arith,
        ground arith,
      )

  -- The deliveries of a monitor that fails at none of them are consistent, have consecutive numbers,
  -- from the expected one on if there is one, and each finalized slot with batches is the slot
  -- delivered just before it, if there was one.
  pub monitor-AllPass :
      (behavior : GetItemBehavior) (ds : List (Option Delivery)) (m m' : SlotMonitor)
      → monitor json writable behavior ds m ≡ (ok tt, m')
      → AllPass m.expected_slot_number m.prev_slot_with_children ds
  unfolding monitor
  monitor-AllPass behavior [] m m' h = tt
  monitor-AllPass behavior (o ∷ ds) m m' h =
      let (d, m₁, p, h₁) = continue_with-eq-ok _ (get_next_slot json writable behavior o m) h in
      let (same, passes, expected, prev) = get_next_slot-Passes behavior o m m₁ d p in
      let rest = monitor-AllPass behavior ds m₁ m' h₁ in
      subst (λ x. AllPass m.expected_slot_number m.prev_slot_with_children (x ∷ ds)) (sym same)
        (
          passes,
          subst (λ x. AllPass x (some d.slot_with_children) ds) expected
              (subst (λ x. AllPass m₁.expected_slot_number x ds) prev rest),
        )
