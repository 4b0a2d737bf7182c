-- ===== src/Acceptance/Setup/Manual/Laws.antt =====
-- The loops of the manual setup over the slots: what they have checked of the node and recorded.
use mathlib.Core.Path.{subst}
use rollup_starter.Common.{
  ℕ, zero, suc, ◌+◌, ◌≤◌, ◌<◌, Bool, some, Result, ok, err, ◌≡◌, refl, ap, ◌∙◌, ◌⊎◌, inl, inr,
  arith, ensure, ◌==◌, ==_iff,
}
use rollup_starter.Common.Exec.{continue_with-eq-ok, lift-eq-ok}
use rollup_starter.Common.Codes.{Codes}
use rollup_starter.Acceptance.Slots.{Slot, Json, Files, SlotError}
use rollup_starter.Acceptance.Slots.Monitor.{GetItemBehavior, SlotMonitor}
use rollup_starter.Acceptance.Slots.Fetcher.{Client, fetch_and_compare_slot}
use rollup_starter.Acceptance.Slots.Fetcher.Laws.{
  SlotAgrees, Recorded, Records, Kept, fetch_and_compare_slot-SlotAgrees,
  fetch_and_compare_slot-Recorded,
}
use rollup_starter.Acceptance.Setup.Queries.{
  ManualError, panicked, slot_failed, Reply, get_supply_archival,
}
use rollup_starter.Acceptance.Setup.Queries.Laws.{ensured}
use rollup_starter.Acceptance.Setup.Manual.{
  fetch_slot, fetch_slots, expected_supply, check_supplies,
}

-- A verified node, slot by slot.
module _ (client : Client) (json : Json) (writable : Bool) where
  -- The node's answers for the slot agree, and it has a snapshot under the number it gives.
  abbrev pub Fetched : Files → ℕ → Type 0
  Fetched files n = (s : Slot) × SlotAgrees client n s × Recorded files s.number

  pub Kept-Fetched : (f g : Files) (n : ℕ) → Kept f g → Fetched f n → Fetched g n
  Kept-Fetched f g n kept (s, agrees, here) = (s, agrees, kept s.number here)

  fetch_slot-Fetched :
      (behavior : GetItemBehavior) (n : ℕ) (m m' : SlotMonitor)
      → Records behavior
      → fetch_slot client json writable behavior n m ≡ (ok tt, m')
      → Fetched m'.snapshots n × Kept m.snapshots m'.snapshots
  unfolding fetch_slot
  fetch_slot-Fetched behavior n m m' records h =
      go (fetch_and_compare_slot client json writable n behavior m.snapshots) refl h
    where
      go :
          (r : Result SlotError (Slot × Files))
          → fetch_and_compare_slot client json writable n behavior m.snapshots ≡ r
          → (elim r as (λ _. Result ManualError (Unit {0}) × SlotMonitor) [
            | err e ↦ (err (slot_failed e), m)
            | ok fetched ↦ (ok tt, record m { snapshots = fetched.1 })
          ])
            ≡ (ok tt, m')
          → Fetched m'.snapshots n × Kept m.snapshots m'.snapshots
      go (err e) q k = absurd (cc (ap (λ x. x.0) k))
      go (ok (s, files)) q k =
          let (agrees, _) =
            fetch_and_compare_slot-SlotAgrees client json writable n behavior m.snapshots files s
              q in
          let (here, kept) =
            fetch_and_compare_slot-Recorded client json writable n behavior m.snapshots files s
              records q in
          subst (λ f. Fetched f n × Kept m.snapshots f) (ap (λ x. x.1.snapshots) k)
            ((s, agrees, here), kept)

  pub fetch_slots-Fetched :
      (behavior : GetItemBehavior) (count from_ : ℕ) (m m' : SlotMonitor)
      → Records behavior
      → fetch_slots client json writable behavior count from_ m ≡ (ok tt, m')
      → ((n : ℕ) → from_ ≤ n → n < from_ + count → Fetched m'.snapshots n)
        × Kept m.snapshots m'.snapshots
  unfolding fetch_slots
  fetch_slots-Fetched behavior zero from_ m m' records h = (
    (λ n low high. absurd (omega arith)),
    subst (λ x. Kept m.snapshots x.1.snapshots) h (λ k has. has),
  )
  fetch_slots-Fetched behavior (suc count) from_ m m' records h =
      let (_, m₁, p, h₁) =
        continue_with-eq-ok _ (fetch_slot client json writable behavior from_ m) h in
      let (here, kept) = fetch_slot-Fetched behavior from_ m m₁ records p in
      let (later, kept') = fetch_slots-Fetched behavior count (from_ + 1) m₁ m' records h₁ in
      (
        λ n low high. elim (split n low) [
          | inl now ↦
              subst (Fetched m'.snapshots) now
                (Kept-Fetched m₁.snapshots m'.snapshots from_ kept' here)
          | inr after ↦ later n after (omega arith)
        ],
        λ k has. kept' k (kept k has),
      )
    where
      split : (n : ℕ) → from_ ≤ n → (from_ ≡ n) ⊎ (from_ + 1 ≤ n)
      split n low = omega arith

pub check_supplies-eq-ok :
    (query : Codes → Reply) (token_id : Codes) (first second count from_ : ℕ) (m m' : SlotMonitor)
    → check_supplies query token_id first second count from_ m ≡ (ok tt, m')
    → ((n : ℕ)
        → from_ ≤ n
        → n < from_ + count
        → get_supply_archival query token_id (some n) ≡ ok (expected_supply first second n))
      × (m.snapshots ≡ m'.snapshots)
unfolding check_supplies
check_supplies-eq-ok query token_id first second zero from_ m m' h =
    ((λ n low high. absurd (omega arith)), ap (λ x. x.1.snapshots) h)
check_supplies-eq-ok query token_id first second (suc count) from_ m m' h =
    let (supply, p, h₁) = lift-eq-ok (get_supply_archival query token_id (some from_)) _ m h in
    let (_, q, h₂) =
      lift-eq-ok (ensure (supply == expected_supply first second from_) panicked) _ m h₁ in
    let (later, same) =
      check_supplies-eq-ok query token_id first second count (from_ + 1) m m' h₂ in
    let right : supply ≡ expected_supply first second from_ =
      (==_iff supply (expected_supply first second from_)).0
        (ensured (supply == expected_supply first second from_) q) in
    (
      λ n low high. elim (split n low) [
        | inl now ↦
            subst
              (λ k.
                get_supply_archival query token_id (some k) ≡ ok (expected_supply first second k))
              now (p ∙ ap ok right)
        | inr after ↦ later n after (omega arith)
      ],
      same,
    )
  where
    split : (n : ℕ) → from_ ≤ n → (from_ ≡ n) ⊎ (from_ + 1 ≤ n)
    split n low = omega arith
