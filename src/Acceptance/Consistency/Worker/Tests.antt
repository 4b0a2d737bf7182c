-- ===== src/Acceptance/Consistency/Worker/Tests.antt =====
-- A worker that asserts two slots, the second too late, and stops at the stop height.
use rollup_starter.Common.{
  ℕ, ◌+◌, List, [], ◌∷◌, ◌++◌, none, some, ok, err, ◌≡◌, refl, ltb, ◌||◌, if◌then◌else◌, arith, Any,
}
use rollup_starter.Common.Codes.{Codes, codes, find_after, contains, print}
use rollup_starter.Acceptance.Consistency.{Item, slot, failed}
use rollup_starter.Acceptance.Consistency.Rejection.{
  error_response, prefix, stop_height_marker, AssertBlockState, send_assert_block_tx,
}
use rollup_starter.Acceptance.Consistency.Rejection.Laws.{send_assert_block_tx-rejected}
use rollup_starter.Acceptance.Consistency.Worker.{shut_down, Log, Services, state_validation_worker}
use rollup_starter.Acceptance.Consistency.Worker.Laws.{Worked, state_validation_worker-Worked}

abbrev message : ℕ → Codes
message height =
    codes "reason: ModuleError(" ++ (prefix ++ (print height ++ codes ". List of mismatches"))

not_in_front : find_after prefix (codes "reason: ModuleError(") ≡ none
unfolding find_after
not_in_front = refl

abbrev assertion : AssertBlockState
assertion = record {
  expected_visible_slot_number = 13;
  expected_rollup_height = 13;
  expected_state_root = 7 ∷ [];
}

send_assert_block_tx-rejected_example :
    send_assert_block_tx (err (error_response (codes "400") (some (message 14)))) assertion ≡ (
      if contains (codes "400") stop_height_marker || ltb 13 14
      then ok tt
      else err (error_response (codes "400") (some (message 14))))
send_assert_block_tx-rejected_example =
    send_assert_block_tx-rejected (codes "400") (codes "reason: ModuleError(")
      (codes ". List of mismatches") 14 assertion not_in_front (omega arith) refl

abbrev services : Services
services = record {
  node = λ round. record {
    true_slot_number = λ t. some (t + 10);
    current_heights = λ t. some (t + round + 10, t);
  };
  state_root = λ round. some (round ∷ []);
  send_tx = λ round tx. if ltb 0 round then err (error_response [] (some (message 16))) else ok tt;
}

abbrev items : List Item
items = failed ∷ slot 11 ∷ failed ∷ slot 12 ∷ slot 13 ∷ failed ∷ slot 30 ∷ slot 31 ∷ []

abbrev asserted : Log
asserted =
    (
      13,
      record {
        expected_visible_slot_number = 4;
        expected_rollup_height = 15;
        expected_state_root = 1 ∷ [];
      },
    )
    ∷ (
      11,
      record {
        expected_visible_slot_number = 2;
        expected_rollup_height = 12;
        expected_state_root = 0 ∷ [];
      },
    )
    ∷ []

worker_runs : state_validation_worker services 20 items [] ≡ (ok shut_down, asserted)
unfolding state_validation_worker print
worker_runs = refl

state_validation_worker-Worked_example :
    Worked services 20 (λ i. Any (λ j. j ≡ i) items) (state_validation_worker services 20 items [])
state_validation_worker-Worked_example = state_validation_worker-Worked services 20 items
