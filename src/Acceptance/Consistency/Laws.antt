-- ===== src/Acceptance/Consistency/Laws.antt =====
-- The slot that the worker takes from the stream, and the heights that it waits for.
use rollup_starter.Common.{
  ℕ, suc, ◌+◌, ◌<◌, List, [], ◌∷◌, ◌++◌, some, map, ◌≡◌, refl, ap, inl, inr, arith, leb, last?, All,
  Bool-cases,
}
use rollup_starter.Acceptance.Consistency.{
  Item, slot, failed, closed, pause, latest, drain_queued, await_slot, drain_slot_stream,
}

-- Where the draining stops, and what is left of the stream then: an error that is ready is lost.
abbrev pub Stops : List Item → List Item → Type 0
Stops [] rest = rest ≡ []
Stops (failed ∷ items) rest = rest ≡ items
Stops (slot n ∷ items) rest = ⊥
Stops (item ∷ items) rest = rest ≡ item ∷ items

abbrev pub errors_in : List Item → ℕ
errors_in [] = 0
errors_in (failed ∷ items) = suc (errors_in items)
errors_in (_ ∷ items) = errors_in items

-- Neither a slot nor the end of the stream.
abbrev pub IsWait : Item → Type 0
IsWait (slot n) = ⊥
IsWait closed = ⊥
IsWait _ = Unit

-- The slots that were ready, from the first on, in front of what stops the draining.
abbrev pub Ready : List Item → ℕ → List Item → Type 0
Ready items m rest =
    (n : ℕ) × (ns : List ℕ) × (tail : List Item) × (items ≡ slot n ∷ map slot ns ++ tail)
    × (last? (n ∷ ns) ≡ some m)
    × Stops tail rest

drain_queued-Ready :
    (n : ℕ) (items : List Item) (m : ℕ) (rest : List Item)
    → drain_queued n items ≡ latest m rest
    → (ns : List ℕ) × (tail : List Item) × (items ≡ map slot ns ++ tail)
      × (last? (n ∷ ns) ≡ some m)
      × Stops tail rest
unfolding drain_queued
drain_queued-Ready n [] m rest h = ([], [], refl, ground arith, ground arith)
drain_queued-Ready n (slot k ∷ items) m rest h =
    let (ns, tail, same, newest, stops) = drain_queued-Ready k items m rest h in
    (k ∷ ns, tail, ap (λ l. slot k ∷ l) same, newest, stops)
drain_queued-Ready n (failed ∷ items) m rest h =
    ([], failed ∷ items, refl, ground arith, ground arith)
drain_queued-Ready n (closed ∷ items) m rest h =
    ([], closed ∷ items, refl, ground arith, ground arith)
drain_queued-Ready n (pause ∷ items) m rest h =
    ([], pause ∷ items, refl, ground arith, ground arith)

abbrev Waited : ℕ → List Item → ℕ → List Item → Type 0
Waited errors items m rest =
    (before : List Item) × (after : List Item) × (items ≡ before ++ after)
    × All IsWait before
    × (errors + errors_in before < 5)
    × Ready after m rest

await_slot-Waited :
    (errors : ℕ) (items : List Item) (m : ℕ) (rest : List Item)
    → errors < 5
    → await_slot errors items ≡ latest m rest
    → Waited errors items m rest
unfolding await_slot
await_slot-Waited errors [] m rest few h = absurd (cc h)
await_slot-Waited errors (closed ∷ items) m rest few h = absurd (cc h)
await_slot-Waited errors (slot n ∷ items) m rest few h =
    let (ns, tail, same, newest, stops) = drain_queued-Ready n items m rest h in
    (
      [],
      slot n ∷ items,
      refl,
      tt,
      omega arith,
      (n, ns, tail, ap (λ l. slot n ∷ l) same, newest, stops),
    )
await_slot-Waited errors (pause ∷ items) m rest few h =
    let (before, after, same, waits, some_errors, ready) =
      await_slot-Waited errors items m rest few h in
    (pause ∷ before, after, ap (λ l. pause ∷ l) same, (tt, waits), some_errors, ready)
await_slot-Waited errors (failed ∷ items) m rest few h = elim (Bool-cases (leb 5 (errors + 1))) [
  | inl many ↦ absurd (cc (rw many at h))
  | inr fewer ↦
      let (before, after, same, waits, some_errors, ready) =
        await_slot-Waited (errors + 1) items m rest (ground arith) (rw fewer at h) in
      (failed ∷ before, after, ap (λ l. failed ∷ l) same, (tt, waits), omega arith, ready)
]

-- The worker takes the newest of the slots that are ready, after at most four errors and some pauses.
-- What it leaves begins where no slot was ready, less an error if that is what was ready.
pub drain_slot_stream-Ready :
    (items : List Item) (m : ℕ) (rest : List Item)
    → drain_slot_stream items ≡ latest m rest
    → (before : List Item) × (after : List Item) × (items ≡ before ++ after)
      × All IsWait before
      × (0 + errors_in before < 5)
      × Ready after m rest
unfolding drain_slot_stream
drain_slot_stream-Ready items m rest h = await_slot-Waited 0 items m rest (omega arith) h
