-- ===== src/Acceptance/Consistency/Worker/Laws.antt =====
-- The worker's loop ends, and what it has asserted by then.
use rollup_starter.Common.{
  ℕ, zero, suc, ◌+◌, ◌<◌, ◌≤◌, true, false, List, [], ◌∷◌, Option, none, some, Result, ok, err, leb,
  ◌≡◌, ◌≢◌, refl, ◌⊎◌, inl, inr, arith, All, Any, length, ok_or, map_err, Bool-cases,
}
use rollup_starter.Common.Exec.{continue_with, lift, pure, raise, ◌>>◌}
use rollup_starter.Acceptance.Consistency.{
  Item, slot, failed, closed, pause, Drained, latest, stream_closed, too_many_errors, waiting,
  drain_queued, await_slot, drain_slot_stream, PollError, poll_for_api_state_update,
}
use rollup_starter.Acceptance.Consistency.Rejection.{AssertBlockState}
use rollup_starter.Acceptance.Consistency.Worker.{
  WorkerError, WorkerEnd, shut_down, still_waiting, out_of_fuel, stream_failed, Log, Services,
  submit, assert_slot, worker_loop, state_validation_worker,
}

-- The draining takes from a stream of so many items, and leaves less.
abbrev Took : (Item → Type 0) → ℕ → Drained → Type 0
Took P count (latest n rest) = P (slot n) × All P rest × (length rest < count)
Took P count stream_closed = P closed
Took P count _ = Unit

-- An assertion for a slot of the stream below the stop height, with what the node answered in one round.
abbrev pub Asserted : Services → ℕ → (Item → Type 0) → ℕ × AssertBlockState → Type 0
Asserted services stop P (n, tx) =
    P (slot n)
    × (n < stop)
    × ((round : ℕ) × (poll_for_api_state_update (services.node round) n
          ≡ ok (tx.expected_rollup_height, tx.expected_visible_slot_number))
        × (services.state_root round ≡ some tx.expected_state_root))

-- The loop ends, with fuel to spare, and shuts down only at the end of the stream or at the stop height.
abbrev pub Worked : Services → ℕ → (Item → Type 0) → Result WorkerError WorkerEnd × Log → Type 0
Worked services stop P r =
    (r.0 ≢ ok out_of_fuel)
    × (r.0 ≡ ok shut_down → P closed ⊎ ((n : ℕ) × P (slot n) × (stop ≤ n)))
    × All (Asserted services stop P) r.1

module _ (P : Item → Type 0) where
  Took-suc : (k : ℕ) (d : Drained) → Took P k d → Took P (suc k) d
  Took-suc k (latest n rest) (p, h, less) = (p, h, omega arith)
  Took-suc k stream_closed p = p
  Took-suc k too_many_errors p = tt
  Took-suc k waiting p = tt

  drain_queued-Took :
      (n : ℕ) (items : List Item)
      → P (slot n)
      → All P items
      → Took P (suc (length items)) (drain_queued n items)
  unfolding drain_queued
  drain_queued-Took n [] p h = (p, tt, omega arith)
  drain_queued-Took n (slot m ∷ items) p (q, h) =
      Took-suc (suc (length items)) (drain_queued m items) (drain_queued-Took m items q h)
  drain_queued-Took n (failed ∷ items) p (q, h) = (p, h, omega arith)
  drain_queued-Took n (closed ∷ items) p (q, h) = (p, (q, h), omega arith)
  drain_queued-Took n (pause ∷ items) p (q, h) = (p, (q, h), omega arith)

  await_slot-Took :
      (errors : ℕ) (items : List Item)
      → All P items
      → Took P (length items) (await_slot errors items)
  unfolding await_slot
  await_slot-Took errors [] h = tt
  await_slot-Took errors (slot n ∷ items) (p, h) = drain_queued-Took n items p h
  await_slot-Took errors (closed ∷ items) (p, h) = p
  await_slot-Took errors (pause ∷ items) (p, h) =
      Took-suc (length items) (await_slot errors items) (await_slot-Took errors items h)
  await_slot-Took errors (failed ∷ items) (p, h) = elim (Bool-cases (leb 5 (errors + 1))) [
    | inl many ↦ rw many tt
    | inr few ↦ rw few (
        Took-suc (length items) (await_slot (errors + 1) items)
          (await_slot-Took (errors + 1) items h))
  ]

  drain_slot_stream-Took :
      (items : List Item) → All P items → Took P (length items) (drain_slot_stream items)
  unfolding drain_slot_stream
  drain_slot_stream-Took items h = await_slot-Took 0 items h

  module _ (services : Services) (stop : ℕ) where
    assert_slot-Asserted :
        (round n : ℕ) (log : Log)
        → P (slot n)
        → n < stop
        → All (Asserted services stop P) log
        → All (Asserted services stop P) (assert_slot services stop round n log).1
    unfolding assert_slot submit
    assert_slot-Asserted round n log p below h =
        go (poll_for_api_state_update (services.node round) n) refl (services.state_root round) refl
      where
        go :
            (polled : Result PollError (ℕ × ℕ))
            → poll_for_api_state_update (services.node round) n ≡ polled
            → (root : Option (List ℕ)) → services.state_root round ≡ root
            → All
                (Asserted services stop P)
                (continue_with
                  (λ (heights : ℕ × ℕ). λ (l : Log).
                    continue_with
                      (λ r. submit services stop round n (record {
                        expected_visible_slot_number = heights.1;
                        expected_rollup_height = heights.0;
                        expected_state_root = r;
                      }))
                      (lift (ok_or root WorkerError.root_failed) l))
                  (lift (map_err WorkerError.poll_failed polled) log)).1
        go (err e) q root r = h
        go (ok heights) q none r = h
        go (ok heights) q (some root) r = ((p, below, (round, q, r)), h)

    worker_loop-Worked :
        (fuel round : ℕ) (items : List Item) (log : Log)
        → length items < fuel
        → All P items
        → All (Asserted services stop P) log
        → Worked services stop P (worker_loop services stop fuel round items log)
    unfolding worker_loop
    worker_loop-Worked zero round items log less h k = absurd (omega arith)
    worker_loop-Worked (suc fuel) round items log less h k =
        go (λ rest log'. worker_loop-Worked fuel (round + 1) rest log') (drain_slot_stream items)
          (drain_slot_stream-Took items h)
      where
        next : List Item → Log → Result WorkerError WorkerEnd × Log
        next rest = worker_loop services stop fuel (round + 1) rest

        Rest : Type 0
        Rest =
            (rest : List Item) (log' : Log)
            → length rest < fuel
            → All P rest
            → All (Asserted services stop P) log'
            → Worked services stop P (next rest log')

        after :
            Rest
            → (rest : List Item) → length rest < fuel
            → All P rest
            → (r : Result WorkerError (Unit {0}) × Log) → All (Asserted services stop P) r.1
            → Worked services stop P (continue_with (λ _. next rest) r)
        after ih rest less h (err e, log) k = (λ f. cc f, λ f. absurd (cc f), k)
        after ih rest less h (ok done, log) k = ih rest log less h k

        go :
            Rest
            → (d : Drained) → Took P (length items) d
            → Worked services stop P (
                elim d as (λ _. Log → Result WorkerError WorkerEnd × Log) [
                  | stream_closed ↦ pure shut_down
                  | too_many_errors ↦ raise stream_failed
                  | waiting ↦ pure still_waiting
                  | latest n rest ↦
                      elim (leb stop n) as (λ _. Log → Result WorkerError WorkerEnd × Log) [
                        | true ↦ pure shut_down
                        | false ↦ assert_slot services stop round n >> next rest
                      ]
                ]
                  log)
        go ih stream_closed p = (λ f. cc f, λ f. inl p, k)
        go ih too_many_errors p = (λ f. cc f, λ f. absurd (cc f), k)
        go ih waiting p = (λ f. cc f, λ f. absurd (cc f), k)
        go ih (latest n rest) (p, all, shorter) = elim (Bool-cases (leb stop n)) [
          | inl at_stop ↦ rw at_stop (λ f. cc f, λ f. inr (n, p, ground arith), k)
          | inr below ↦ rw below (
              after ih rest (omega arith) all (assert_slot services stop round n log)
                (assert_slot-Asserted round n log p (ground arith) k))
        ]

All-map :
    (P Q : Item → Type 0)
    → ((i : Item) → P i → Q i)
    → (items : List Item) → All P items
    → All Q items
All-map P Q f [] h = tt
All-map P Q f (i ∷ items) (p, h) = (f i p, All-map P Q f items h)

All-self : (items : List Item) → All (λ i. Any (λ j. j ≡ i) items) items
All-self [] = tt
All-self (i ∷ items) =
    (inl refl, All-map (λ j. Any (λ k. k ≡ j) items) _ (λ j m. inr m) items (All-self items))

-- The worker ends, by itself or waiting for a stream that goes on. It shuts down only where the stream
-- ends or where a slot of the stream is at or above the stop height. Each assertion that it submits is for
-- a slot of the stream below the stop height, with the heights that one polling of the node for that slot
-- gave and the state root that the node answered after it.
pub state_validation_worker-Worked :
    (services : Services) (stop : ℕ) (items : List Item)
    → Worked services stop
        (λ i. Any (λ j. j ≡ i) items)
        (state_validation_worker services stop items [])
unfolding state_validation_worker
state_validation_worker-Worked services stop items =
    worker_loop-Worked (λ i. Any (λ j. j ≡ i) items) services stop (suc (length items)) 0 items []
      (omega arith) (All-self items) tt
