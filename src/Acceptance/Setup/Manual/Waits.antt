-- ===== src/Acceptance/Setup/Manual/Waits.antt =====
-- The deliveries that a wait of the manual setup takes, and the number that it finds.
use rollup_starter.Common.{
  ℕ, zero, suc, Bool, String, List, [], ◌∷◌, ◌++◌, map, Option, none, some, Result, ok, err, ◌≡◌,
  refl, sym, ap, ◌∙◌, ◌⊎◌, inl, inr, arith, map_err, str_eq, str_eq_iff, ensure,
}
use rollup_starter.Common.Exec.{continue_with, lift, pure, continue_with-eq-ok, lift-eq-ok}
use rollup_starter.Acceptance.Slots.{Slot, Json, SlotError}
use rollup_starter.Acceptance.Slots.Monitor.{
  save_snapshot, SlotMonitor, Delivery, Monitoring, get_next_slot,
}
use rollup_starter.Acceptance.Slots.Monitor.Laws.{get_next_slot-Passes}
use rollup_starter.Acceptance.Setup.Queries.{ManualError, panicked, slot_failed, sole}
use rollup_starter.Acceptance.Setup.Queries.Laws.{ensured}
use rollup_starter.Acceptance.Setup.Manual.{View, watched, posted, wait_for_tx}

-- The slot with children that was delivered last.
abbrev pub last_of : Option Slot → List Delivery → Option Slot
last_of prev [] = prev
last_of prev (d ∷ ds) = last_of (some d.slot_with_children) ds

watched-eq-ok :
    {A : Type 0} (x : Monitoring A) (m m' : SlotMonitor) (a : A)
    → watched x m ≡ (ok a, m')
    → x m ≡ (ok a, m')
unfolding watched
watched-eq-ok {A} x m m' a h = go (x m) h
  where
    watch : Result SlotError A × SlotMonitor → Result ManualError A × SlotMonitor
    watch r = (map_err slot_failed r.0, r.1)

    go : (r : Result SlotError A × SlotMonitor) → watch r ≡ (ok a, m') → r ≡ (ok a, m')
    go (ok b, s) k = cc
    go (err e, s) k = absurd (cc (ap (λ q. q.0) k))

module _ (view : View) (tx_in : Delivery → Option String) (number_of : Delivery → ℕ)
    (event : String) where
  -- The delivery has the transaction that is waited for, with the event as its only one.
  abbrev pub Holds : Delivery → Type 0
  Holds d = (tx : String) × (tx_in d ≡ some tx) × (sole (view tx).events ≡ some event)

  -- No delivery before the last one has the transaction. The last one has it and the number, or the
  -- rounds are used up and the number is 0.
  abbrev pub Waited : ℕ → List Delivery → ℕ → Type 0
  Waited zero [] n = n ≡ 0
  Waited zero (d ∷ ds) n = ⊥
  Waited (suc rounds) [] n = ⊥
  Waited (suc rounds) (d ∷ ds) n =
      (Holds d × (ds ≡ []) × (n ≡ number_of d)) ⊎ ((tx_in d ≡ none) × Waited rounds ds n)

  abbrev pub Took :
      ℕ → List (Option Delivery) → SlotMonitor → (ℕ × List (Option Delivery)) × SlotMonitor → Type 0
  Took rounds ds m ((n, rest), m') =
      (taken : List Delivery) × (ds ≡ map some taken ++ rest)
      × Waited rounds taken n
      × (m'.prev_slot_with_children ≡ last_of m.prev_slot_with_children taken)

  posted-Holds :
      (d : Delivery) (tx : String) → tx_in d ≡ some tx → posted view event tx ≡ ok tt → Holds d
  posted-Holds d tx found h = (tx, found, go (sole (view tx).events) h)
    where
      go :
          (o : Option String)
          → (elim o as (λ _. Result ManualError (Unit {0})) [
            | none ↦ err panicked
            | some e ↦ ensure (str_eq e event) panicked
          ])
            ≡ ok tt
          → o ≡ some event
      go none k = absurd (cc k)
      go (some e) k = ap some ((str_eq_iff e event).0 (ensured (str_eq e event) k))

  module _ (json : Json) (writable : Bool) where
    pub wait_for_tx-Took :
        (rounds : ℕ) (ds rest : List (Option Delivery)) (m m' : SlotMonitor) (n : ℕ)
        → wait_for_tx json writable view tx_in number_of event rounds ds m ≡ (ok (n, rest), m')
        → Took rounds ds m ((n, rest), m')
    unfolding wait_for_tx
    wait_for_tx-Took zero ds rest m m' n h = ([], ground arith, ground arith, ground arith)
    wait_for_tx-Took (suc rounds) [] rest m m' n h = absurd (cc (ap (λ q. q.0) h))
    wait_for_tx-Took (suc rounds) (o ∷ ds) rest m m' n h =
        let next = get_next_slot json writable save_snapshot o in
        let (d, m₁, p, h₁) = continue_with-eq-ok _ (watched next m) h in
        let (same, _, _, prev) =
          get_next_slot-Passes json writable save_snapshot o m m₁ d (watched-eq-ok next m m₁ d p) in
        go o d m₁ same prev (wait_for_tx-Took rounds ds rest m₁ m' n) (tx_in d) refl h₁
      where
        go :
            (o : Option Delivery) (d : Delivery) (m₁ : SlotMonitor)
            → o ≡ some d
            → m₁.prev_slot_with_children ≡ some d.slot_with_children
            → (wait_for_tx json writable view tx_in number_of event rounds ds m₁
                  ≡ (ok (n, rest), m')
                → Took rounds ds m₁ ((n, rest), m'))
            → (tx? : Option String) → tx_in d ≡ tx?
            → (elim tx?
                  as (λ _.
                    SlotMonitor → Result ManualError (ℕ × List (Option Delivery)) × SlotMonitor) [
                      | none ↦ wait_for_tx json writable view tx_in number_of event rounds ds
                      | some tx ↦ λ s.
                          continue_with
                            (λ _. pure (number_of d, ds))
                            (lift (posted view event tx) s)
                    ])
                m₁
              ≡ (ok (n, rest), m')
            → Took (suc rounds) (o ∷ ds) m ((n, rest), m')
        go o d m₁ same prev later none found k =
            let (taken, split, waited, last) = later k in
            (d ∷ taken, cc, inr (found, waited), last ∙ ap (λ s. last_of s taken) prev)
        go o d m₁ same prev later (some tx) found k =
            let (_, p, k₁) = lift-eq-ok (posted view event tx) _ m₁ k in
            (
              d ∷ [],
              ground arith,
              inl (
                posted-Holds d tx found p,
                refl,
                ap (λ q. elim q.0 [ ok x ↦ x.0 | err e ↦ n ]) (sym k₁),
              ),
              ap (λ q. q.1.prev_slot_with_children) (sym k₁) ∙ prev,
            )
