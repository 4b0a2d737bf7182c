-- ===== src/Acceptance/Consistency/Worker.antt =====
-- `state_validation_worker` of scripts/acceptance-test/src/state_consistency.rs. The state is the list
-- of the assertions that were submitted, each with the slot that it was made for, the last one first.
pub mod Laws
mod Tests
use rollup_starter.Common.{
  ℕ, zero, suc, ◌+◌, Bool, true, false, List, [], ◌∷◌, Option, none, some, Result, ok, err, leb,
  if◌then◌else◌, ok_or, map_err, length,
}
use rollup_starter.Common.Exec.{Exec, pure, raise, lift, ◌>>=◌, ◌>>◌}
use rollup_starter.Common.Codes.{Codes}
use rollup_starter.Acceptance.Consistency.{
  Item, Drained, latest, stream_closed, too_many_errors, waiting, drain_slot_stream, Node,
  PollError, poll_for_api_state_update,
}
use rollup_starter.Acceptance.Consistency.Rejection.{
  SendError, AssertBlockState, send_assert_block_tx,
}

pub data WorkerError : Type 0 where
  stream_failed root_failed : WorkerError
  poll_failed : PollError → WorkerError
  rejected : SendError → WorkerError

-- How the loop ends without an error: it stops, it waits for a stream that goes on, or the fuel is spent.
pub data WorkerEnd : Type 0 where
  shut_down still_waiting out_of_fuel : WorkerEnd

abbrev pub Log : Type 0
Log = List (ℕ × AssertBlockState)

abbrev pub Working : Type 0 → Type 0
Working A = Exec Log WorkerError A

-- The node's answers in each round of the loop, and the sequencer's to an assertion.
pub record Services : Type 0 where
  pub node : ℕ → Node
  pub state_root : ℕ → Option Codes
  pub send_tx : ℕ → AssertBlockState → Result SendError (Unit {0})

module _ (services : Services) (rollup_stop_height : ℕ) where
  pub submit : ℕ → ℕ → AssertBlockState → Working (Unit {0})
  unfolding send_assert_block_tx
  submit round slot tx log =
      (map_err rejected (send_assert_block_tx (services.send_tx round tx) tx), (slot, tx) ∷ log)

  -- The loop's body for a slot below the stop height.
  unfoldable pub assert_slot : ℕ → ℕ → Working (Unit {0})
  unfolding submit poll_for_api_state_update
  assert_slot round slot = do
    heights ← lift (map_err poll_failed (poll_for_api_state_update (services.node round) slot))
    root ← lift (ok_or (services.state_root round) root_failed)
    submit round slot (record {
      expected_visible_slot_number = heights.1;
      expected_rollup_height = heights.0;
      expected_state_root = root;
    })

  unfoldable pub worker_loop : ℕ → ℕ → List Item → Working WorkerEnd
  unfolding drain_slot_stream assert_slot
  worker_loop zero round items = pure out_of_fuel
  worker_loop (suc fuel) round items = elim (drain_slot_stream items) as (λ _. Working WorkerEnd) [
    | stream_closed ↦ pure shut_down
    | too_many_errors ↦ raise stream_failed
    | waiting ↦ pure still_waiting
    | latest slot rest ↦ elim (leb rollup_stop_height slot) as (λ _. Working WorkerEnd) [
      | true ↦ pure shut_down
      | false ↦ assert_slot round slot >> worker_loop fuel (round + 1) rest
    ]
  ]

  -- The worker on a stream that it has subscribed to. A round takes an item of it at least.
  unfoldable pub state_validation_worker : List Item → Working WorkerEnd
  unfolding worker_loop
  state_validation_worker items = worker_loop (suc (length items)) 0 items
