-- ===== src/Acceptance/Soak/Counted.antt =====
-- What the counting of a batch does to the counters of a soak run.
use rollup_starter.Common.{
  ℕ, ◌+◌, ◌-◌, ◌≤◌, ◌<◌, Bool, true, false, List, [], ◌∷◌, Option, none, some, Result, ok, err, ◌≡◌,
  refl, ◌⊎◌, inl, inr, arith, ltb, ◌==◌, if◌then◌else◌, add64, u64_mod, Bool-cases,
}
use native.Mathlib.Nat.{mod-eq_of_lt}
use rollup_starter.Common.Exec.{Exec, continue_with}
use rollup_starter.Acceptance.Slots.{Slot, Json}
use rollup_starter.Acceptance.Soak.{
  SoakRunOptions, Soak, Answers, Event, rollup_exited, task_done, task_failed, task_panicked,
  new_slot, stream_failed, shutdown, stream_closed, Break, break_ok, break_err, batch_failed,
  very_close, batch_num_of, count_batch, read_reference, add_batch,
}
use rollup_starter.Acceptance.Soak.Contiguous.{slot_events}

-- At most `i` slots and `j` batches are counted, and nothing before the first batch; as long as the
-- counts fit a `u64`.
abbrev pub Counts : ℕ → ℕ → Soak → Type 0
Counts i j s =
    (s.num_soak_slots ≤ i)
    × (s.num_soak_batches ≤ j)
    × (((s.num_soak_batches ≡ 0) × (s.num_soak_slots ≡ 0) × (s.num_soak_txs ≡ 0))
        ⊎ (0 < s.num_soak_batches))

pub Counts-le : (i i' j j' : ℕ) (s : Soak) → i ≤ i' → j ≤ j' → Counts i j s → Counts i' j' s
Counts-le i i' j j' s p q (a, b, c) = (omega arith, omega arith, c)

abbrev pub weight : Event → ℕ
weight (new_slot slot a) = 1
weight _ = 0

pub slot_events-cons :
    (e : Event) (es : List Event) → slot_events (e ∷ es) ≡ weight e + slot_events es
slot_events-cons (new_slot slot a) es = omega arith
slot_events-cons (rollup_exited b) es = omega arith
slot_events-cons task_done es = omega arith
slot_events-cons task_failed es = omega arith
slot_events-cons task_panicked es = omega arith
slot_events-cons stream_failed es = omega arith
slot_events-cons shutdown es = omega arith
slot_events-cons (stream_closed b) es = omega arith

-- The state after a step and the rest of its block, if both keep a predicate.
pub after_both :
    {E A B : Type 0} (P Q : Soak → Type 0) (f : A → Exec Soak E B) (p : Result E A × Soak)
    → P p.1
    → ((s : Soak) → P s → Q s)
    → ((a : A) (s : Soak) → P s → Q (f a s).1)
    → Q (continue_with f p).1
after_both P Q f (ok a, s) h weaken next = next a s h
after_both P Q f (err e, s) h weaken next = weaken s h

module _ (json : Json) (o : SoakRunOptions) where
  -- The slots that carry batches, the last of them after the start of the measurement.
  abbrev pub measured : Slot → ℕ
  measured slot =
      if slot.batch_range.0 == slot.batch_range.1
      then 0
      else if ltb o.throughput_start_batch (batch_num_of slot)
      then 1
      else 0

  abbrev pub measured_of : Event → ℕ
  measured_of (new_slot slot a) = measured slot
  measured_of _ = 0

  abbrev pub batch_events : List Event → ℕ
  batch_events [] = 0
  batch_events (e ∷ es) = measured_of e + batch_events es

  pub measured-le : (slot : Slot) → measured slot ≤ 1
  measured-le slot = ground arith

  pub measured_of-le : (e : Event) → measured_of e ≤ weight e
  measured_of-le (new_slot slot a) = measured-le slot
  measured_of-le (rollup_exited b) = omega arith
  measured_of-le task_done = omega arith
  measured_of-le task_failed = omega arith
  measured_of-le task_panicked = omega arith
  measured_of-le stream_failed = omega arith
  measured_of-le shutdown = omega arith
  measured_of-le (stream_closed b) = omega arith

  pub batch_events-le : (es : List Event) → batch_events es ≤ slot_events es
  batch_events-le [] = omega arith
  batch_events-le (e ∷ es) =
      omega (arith, slot_events-cons e es, measured_of-le e, batch_events-le es)

  pub add_batch-Counts :
      (i j tx_end : ℕ) (slot : Slot) (s : Soak)
      → j + 1 < u64_mod
      → (slot.batch_range.0 == slot.batch_range.1) ≡ false
      → Counts i j s
      → Counts i (j + measured slot) (add_batch json o (batch_num_of slot) tx_end s).1
  unfolding add_batch
  add_batch-Counts i j tx_end slot s fits some_batch h =
      elim (Bool-cases (ltb o.throughput_start_batch (batch_num_of slot))) [
        | inl past ↦ simp (past, some_batch) (go s.num_previous_txs)
        | inr before ↦
            simp (before, some_batch) (Counts-le i i j (j + 0) s (omega arith) (omega arith) h)
      ]
    where
      count : Option ℕ → Result Break (Unit {0}) × Soak
      count previous = elim previous as (λ _. Result Break (Unit {0}) × Soak) [
        | none ↦ (ok tt, s)
        | some n ↦ (
          ok tt,
          record s { num_soak_txs = tx_end - n; num_soak_batches = add64 s.num_soak_batches 1 },
        )
      ]

      go : (previous : Option ℕ) → Counts i (j + 1) (count previous).1
      go none = Counts-le i i j (j + 1) s (omega arith) (omega arith) h
      go (some n) =
          let small : s.num_soak_batches + 1 < u64_mod = omega (arith, h.1) in
          let exact : add64 s.num_soak_batches 1 ≡ s.num_soak_batches + 1 = mod-eq_of_lt small in
          (h.0, omega (arith, exact, h.1), inr (omega (arith, exact)))

  pub read_reference-Counts :
      (i j batch_num : ℕ) (a : Answers) (s : Soak)
      → Counts i j s
      → Counts i j (read_reference json o batch_num a s).1
  unfolding read_reference
  read_reference-Counts i j batch_num a s h = ground arith

  pub count_batch-Counts :
      (i j : ℕ) (slot : Slot) (a : Answers) (s : Soak)
      → j + 1 < u64_mod
      → Counts i j s
      → Counts i (j + measured slot) (count_batch json o slot a s).1
  unfolding count_batch
  count_batch-Counts i j slot a s fits h = by_range (slot.batch_range.0 == slot.batch_range.1) refl
    where
      weaken : (t : Soak) (k : ℕ) → j ≤ k → Counts i j t → Counts i k t
      weaken t k le c = Counts-le i i j k t (omega arith) le c

      batch_num : ℕ
      batch_num = batch_num_of slot

      count : Option ℕ → Result Break (Unit {0}) × Soak
      count tx_end = elim tx_end as (λ _. Result Break (Unit {0}) × Soak) [
        | none ↦ (err (if very_close json o s then break_ok else break_err batch_failed), s)
        | some n ↦
            continue_with (λ _. add_batch json o batch_num n) (read_reference json o batch_num a s)
      ]

      go :
          (tx_end : Option ℕ)
          → (slot.batch_range.0 == slot.batch_range.1) ≡ false
          → Counts i (j + measured slot) (count tx_end).1
      go none full = weaken s (j + measured slot) (omega arith) h
      go (some n) full =
          after_both (Counts i j) (Counts i (j + measured slot)) (λ _. add_batch json o batch_num n)
            (read_reference json o batch_num a s) (read_reference-Counts i j batch_num a s h)
            (λ t c. weaken t (j + measured slot) (omega arith) c)
            (λ _ t c. add_batch-Counts i j n slot t fits full c)

      by_range :
          (b : Bool)
          → (slot.batch_range.0 == slot.batch_range.1) ≡ b
          → Counts i (j + measured slot) (if b then (ok tt, s) else count a.batch_tx_end).1
      by_range true empty = weaken s (j + measured slot) (omega arith) h
      by_range false full = go a.batch_tx_end full
