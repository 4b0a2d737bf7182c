-- ===== src/Acceptance/Consistency.antt =====
-- The state validation worker of scripts/acceptance-test/src/state_consistency.rs. The stream is the
-- list of what it delivers; the node's answers are functions of the number of the query.
pub mod Laws
pub mod Polling
pub mod Rejection
pub mod Worker
mod Tests
use rollup_starter.Common.{
  ℕ, zero, suc, ◌+◌, Bool, true, false, List, [], ◌∷◌, Option, none, some, Result, ok, err, ltb,
  leb, ◌==◌, if◌then◌else◌,
}

-- A slot, an error or the end of the stream, each ready after the one before, or a pause: what follows is
-- not ready yet.
pub data Item : Type 0 where
  slot : ℕ → Item
  failed closed pause : Item

pub data Drained : Type 0 where
  latest : ℕ → List Item → Drained
  stream_closed too_many_errors : Drained
  -- The list ends while the worker waits.
  waiting : Drained

abbrev pub max_consecutive_errors : ℕ
max_consecutive_errors = 5

-- `next().now_or_never()` until it yields no slot. An error that is ready is taken and dropped.
pub drain_queued : ℕ → List Item → Drained
drain_queued n [] = latest n []
drain_queued n (slot m ∷ items) = drain_queued m items
drain_queued n (failed ∷ items) = latest n items
drain_queued n (closed ∷ items) = latest n (closed ∷ items)
drain_queued n (pause ∷ items) = latest n (pause ∷ items)

-- The wait for a slot, with the errors so far.
pub await_slot : ℕ → List Item → Drained
unfolding drain_queued
await_slot errors [] = waiting
await_slot errors (slot n ∷ items) = drain_queued n items
await_slot errors (closed ∷ items) = stream_closed
await_slot errors (pause ∷ items) = await_slot errors items
await_slot errors (failed ∷ items) =
    let next = await_slot (errors + 1) items in
    if leb max_consecutive_errors (errors + 1) then too_many_errors else next

unfoldable pub drain_slot_stream : List Item → Drained
unfolding await_slot
drain_slot_stream items = await_slot 0 items

pub record Node : Type 0 where
  pub true_slot_number : ℕ → Option ℕ
  -- The rollup height and the visible slot.
  pub current_heights : ℕ → Option (ℕ × ℕ)

pub data PollError : Type 0 where
  query_failed timed_out : PollError

abbrev pub max_phase1_attempts : ℕ
max_phase1_attempts = 600

abbrev pub max_phase2_attempts : ℕ
max_phase2_attempts = 20

module _ (node : Node) where
  -- The heights when the node has seen the slot, and the number of the next query.
  pub phase1 : ℕ → ℕ → ℕ → Result PollError ((ℕ × ℕ) × ℕ)
  phase1 notification zero query = err timed_out
  phase1 notification (suc attempts) query = elim (node.true_slot_number query) [
    | none ↦ err query_failed
    | some true_slot ↦ elim (node.current_heights query) [
      | none ↦ err query_failed
      | some heights ↦ elim (leb notification true_slot) [
        | true ↦ ok (heights, query + 1)
        | false ↦ phase1 notification attempts (query + 1)
      ]
    ]
  ]

  -- With one attempt left the current heights are the answer.
  pub phase2 : ℕ → ℕ → ℕ → Result PollError (ℕ × ℕ)
  phase2 start zero query = err query_failed
  phase2 start (suc attempts) query = elim (node.current_heights query) [
    | none ↦ err query_failed
    | some heights ↦ elim (ltb start heights.0) [
      | true ↦ ok heights
      | false ↦ elim (attempts == 0) [
        | true ↦ ok heights
        | false ↦ phase2 start attempts (query + 1)
      ]
    ]
  ]

  abbrev pub after_phase1 : Result PollError ((ℕ × ℕ) × ℕ) → Result PollError (ℕ × ℕ)
  after_phase1 (err e) = err e
  after_phase1 (ok (heights, query)) = phase2 heights.0 max_phase2_attempts query

  unfoldable pub poll_for_api_state_update : ℕ → Result PollError (ℕ × ℕ)
  unfolding phase1 phase2
  poll_for_api_state_update notification = after_phase1 (phase1 notification max_phase1_attempts 0)
