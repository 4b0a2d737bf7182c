-- ===== src/Acceptance/Setup/Manual/Checked.antt =====
-- What a manual setup that succeeds has checked of the node and recorded.
use mathlib.Core.Path.{subst}
use rollup_starter.Common.{
  ℕ, ◌+◌, ◌-◌, ◌≤◌, ◌<◌, Bool, String, List, [], ◌++◌, map, Option, none, some, Result, ok, err,
  ◌≡◌, refl, ap, ◌∙◌, ◌⊎◌, inl, inr, arith, map_err, ensure, ◌==◌, ==_iff,
}
use rollup_starter.Common.Exec.{continue_with-eq-ok, lift-eq-ok}
use rollup_starter.Common.Codes.{Codes}
use rollup_starter.Acceptance.Slots.{Slot, Json, Files}
use rollup_starter.Acceptance.Slots.Monitor.{
  SlotMonitor, Delivery, save_snapshot, check_against_snapshot,
}
use rollup_starter.Acceptance.Evm.{setup_state_consistency_contracts}
use rollup_starter.Acceptance.Setup.Queries.{
  ManualError, panicked, subscription_failed, evm_failed, get_supply, get_supply_archival,
  send_and_check,
}
use rollup_starter.Acceptance.Setup.Queries.Laws.{ensured, Sent, send_and_check-Sent}
use rollup_starter.Acceptance.Setup.Manual.{
  Deliveries, first_posted, last_posted, fetch_slots, expected_supply, ManualNode, txs, verify,
  drive, manual_setup, first_number, wait_for_first_batch, wait_for_next_batch, wait_for_start,
  do_manual_setup, new_monitor,
}
use rollup_starter.Acceptance.Setup.Manual.Waits.{last_of, Waited, wait_for_tx-Took}
use rollup_starter.Acceptance.Setup.Manual.Laws.{
  Fetched, Kept-Fetched, fetch_slots-Fetched, check_supplies-eq-ok,
}

module _ (json : Json) (writable : Bool) (node : ManualNode) where
  abbrev token_id : Codes
  token_id = (txs json writable node).token_id

  -- The supply is 0 before, and 1000, 1800 and 1800 after the transactions. The waits have taken
  -- deliveries one after the other, and their numbers are those of the slots with the transactions.
  abbrev pub Drove : Option Slot → ℕ → ℕ → Option Slot → Type 0
  Drove before first second after =
      (created minted transferred : String) × (first_taken next_taken : List Delivery)
      × (rest : Deliveries) × (get_supply node.initial_query token_id ≡ ok 0)
      × Sent token_id (txs json writable node).create 1000 node.creating created
      × Sent token_id (txs json writable node).minting 1800 node.minting minted
      × Sent token_id (txs json writable node).transferring 1800 node.transferring transferred
      × (node.deliveries ≡ map some first_taken ++ (map some next_taken ++ rest))
      × Waited node.view first_posted (λ d. d.slot.number) created 10 first_taken first
      × Waited node.view (last_posted node.view) (λ d. d.finalized_with_children.number) transferred
          10 next_taken second
      × (after ≡ last_of (last_of before first_taken) next_taken)

  drive-Drove :
      (m m' : SlotMonitor) (r : ℕ × ℕ)
      → drive json writable node m ≡ (ok r, m')
      → Drove m.prev_slot_with_children r.0 r.1 m'.prev_slot_with_children
  unfolding drive wait_for_first_batch wait_for_next_batch
  drive-Drove m m' r h =
      let t = txs json writable node in
      let (initial, p, h₁) = lift-eq-ok (get_supply node.initial_query token_id) _ m h in
      let (_, q, h₂) = lift-eq-ok (ensure (initial == 0) panicked) _ m h₁ in
      let (created, u, h₃) =
        lift-eq-ok (send_and_check token_id t.create 1000 node.creating) _ m h₂ in
      let ((first, left), m₁, x, h₄) =
        continue_with-eq-ok _
          (wait_for_first_batch json writable node.view created node.deliveries m) h₃ in
      let (minted, v, h₅) =
        lift-eq-ok (send_and_check token_id t.minting 1800 node.minting) _ m₁ h₄ in
      let (transferred, w, h₆) =
        lift-eq-ok (send_and_check token_id t.transferring 1800 node.transferring) _ m₁ h₅ in
      let ((second, rest), m₂, y, h₇) =
        continue_with-eq-ok _ (wait_for_next_batch json writable node.view transferred left m₁)
          h₆ in
      let (taken, split, waited, last) =
        wait_for_tx-Took node.view first_posted (λ d. d.slot.number) created json writable 10
          node.deliveries left m m₁ first x in
      let (taken', split', waited', last') =
        wait_for_tx-Took node.view (last_posted node.view) (λ d. d.finalized_with_children.number)
          transferred json writable 10 left rest m₁ m₂ second y in
      subst
        (λ z.
          Drove m.prev_slot_with_children (number_of z.0).0 (number_of z.0).1
            z.1.prev_slot_with_children)
        h₇
        (
          created,
          minted,
          transferred,
          taken,
          taken',
          rest,
          p ∙ ap ok ((==_iff initial 0).0 (ensured (initial == 0) q)),
          send_and_check-Sent token_id t.create 1000 node.creating created u,
          send_and_check-Sent token_id t.minting 1800 node.minting minted v,
          send_and_check-Sent token_id t.transferring 1800 node.transferring transferred w,
          split ∙ ap (λ ds. map some taken ++ ds) split',
          waited,
          waited',
          last' ∙ ap (λ s. last_of s taken') last,
        )
    where
      number_of : Result ManualError (ℕ × ℕ) → ℕ × ℕ
      number_of (ok n) = n
      number_of (err e) = (0, 0)

  -- The slots from 0 to the last one, by the numbers of the first and the second slot with transactions.
  abbrev pub Verified : Files → ℕ → ℕ → ℕ → Type 0
  Verified files first second last =
      (n : ℕ)
      → n ≤ last
      → Fetched node.client json writable files n
        × (get_supply_archival node.archive token_id (some n) ≡ ok (expected_supply first second n))

  verify-Verified :
      (subscribed first second : ℕ) (last : Slot) (m m' : SlotMonitor)
      → verify json writable node token_id subscribed first second last m ≡ (ok tt, m')
      → Verified m'.snapshots first second last.number
  unfolding verify
  verify-Verified subscribed first second last m m' h =
      let (_, m₁, p, h₁) =
        continue_with-eq-ok _ (fetch_slots node.client json writable save_snapshot subscribed 0 m)
          h in
      let (_, m₂, q, h₂) =
        continue_with-eq-ok _
          (fetch_slots node.client json writable check_against_snapshot
            (last.number + 1 - subscribed) subscribed m₁)
          h₁ in
      let (below, _) =
        fetch_slots-Fetched node.client json writable save_snapshot subscribed 0 m m₁ tt p in
      let (above, kept) =
        fetch_slots-Fetched node.client json writable check_against_snapshot
          (last.number + 1 - subscribed) subscribed m₁ m₂ tt q in
      let (supplies, same) =
        check_supplies-eq-ok node.archive token_id first second (last.number + 1) 0 m₂ m' h₂ in
      let fetched : (n : ℕ) → n ≤ last.number → Fetched node.client json writable m₂.snapshots n =
        λ n small. elim (split n) [
          | inl before ↦
              Kept-Fetched node.client json writable m₁.snapshots m₂.snapshots n kept
                (below n (omega arith) (omega arith))
          | inr after ↦ above n after (omega arith)
        ] in
      λ n small. (
        subst (λ f. Fetched node.client json writable f n) same (fetched n small),
        supplies n (omega arith) (omega arith),
      )
    where
      split : (n : ℕ) → (n < subscribed) ⊎ (subscribed ≤ n)
      split n = omega arith

  abbrev pub Checked : Files → Type 0
  Checked files =
      (first second : ℕ) × (last : Slot) × Drove none first second (some last)
      × Verified files first second last.number

  manual_setup-Checked :
      (m m' : SlotMonitor)
      → m.prev_slot_with_children ≡ none
      → manual_setup json writable node m ≡ (ok tt, m')
      → Checked m'.snapshots
  unfolding manual_setup
  manual_setup-Checked m m' fresh h =
      let (_, _, h₁) = lift-eq-ok (wait_for_start json writable node) _ m h in
      let (_, _, h₂) = lift-eq-ok (ensure node.subscribes subscription_failed) _ m h₁ in
      let (non_empty, m₁, p, h₃) = continue_with-eq-ok _ (drive json writable node m) h₂ in
      let (_, m₂, q, h₄) = continue_with-eq-ok _ _ h₃ in
      let (_, _, h₅) =
        lift-eq-ok
          (map_err evm_failed
            (setup_state_consistency_contracts node.privileged_rpc node.unprivileged_rpc
              node.write_metadata []).0)
          _ m₂ h₄ in
      let drove =
        subst (λ s. Drove s non_empty.0 non_empty.1 m₁.prev_slot_with_children) fresh
          (drive-Drove m m₁ non_empty p) in
      subst Checked (ap (λ x. x.1.snapshots) h₅)
        (go m₁.prev_slot_with_children non_empty m₁ m₂ drove q)
    where
      go :
          (prev : Option Slot) (non_empty : ℕ × ℕ) (m₁ m₂ : SlotMonitor)
          → Drove none non_empty.0 non_empty.1 prev
          → (elim prev as (λ _. Result ManualError (Unit {0}) × SlotMonitor) [
            | none ↦ (err panicked, m₁)
            | some last_slot ↦
                verify json writable node token_id
                  (first_number node.deliveries)
                  non_empty.0
                  non_empty.1
                  last_slot
                  m₁
          ])
            ≡ (ok tt, m₂)
          → Checked m₂.snapshots
      go none non_empty m₁ m₂ drove q = absurd (cc (ap (λ x. x.0) q))
      go (some last) non_empty m₁ m₂ drove q = (
        non_empty.0,
        non_empty.1,
        last,
        drove,
        verify-Verified (first_number node.deliveries) non_empty.0 non_empty.1 last m₁ m₂ q,
      )

  -- A manual setup that succeeds has found a supply of 0 before, and of 1000, 1800 and 1800 after its three
  -- transactions, each with one event, which the sequencer's streams deliver too. After the first and after
  -- the third it has taken deliveries, at most 10, up to the first that has the transaction's event, if one
  -- has. For every slot up to the last delivered one, the node's answers agree, a snapshot is recorded under
  -- the number that they give, and the supply is 0 before the slot found first, 1000 from there on and 1800
  -- from the slot found next.
  pub do_manual_setup-Checked :
      (files files' : Files)
      → do_manual_setup json writable node files ≡ (ok tt, files')
      → Checked files'
  unfolding do_manual_setup
  do_manual_setup-Checked files files' h =
      let r = manual_setup json writable node (new_monitor json writable node files) in
      subst Checked (ap (λ x. x.1) h) (
        manual_setup-Checked (new_monitor json writable node files) r.1 refl
          (ap (λ x. (x.0, r.1)) h))
