-- ===== src/Acceptance/Consistency/Rejection.antt =====
-- A rejected state assertion in scripts/acceptance-test/src/state_consistency.rs: the sequencer's stop
-- height, and an assertion that comes too late. Texts are the codes of their characters.
pub mod Laws
use rollup_starter.Common.{
  ℕ, Bool, true, false, Option, none, some, Result, ok, err, ltb, if◌then◌else◌, ◌≡◌, refl,
}
use rollup_starter.Common.Codes.{Codes, codes, find_after, contains, leading_digits, parse_digits}

-- `sov_api_spec::Error`, as the code reads it: the text that it prints and, of an error response, the
-- entry `message` of the details if it is a text.
pub data SendError : Type 0 where
  error_response : Codes → Option Codes → SendError
  other_error : Codes → SendError

abbrev pub to_string : SendError → Codes
to_string (error_response shown message) = shown
to_string (other_error shown) = shown

abbrev pub prefix : Codes
prefix = codes "Block state assertion failed at rollup height "

abbrev pub stop_height_marker : Codes
stop_height_marker = codes "The preferred sequencer has reached the stop height"

abbrev height_of_rest : Option Codes → Option ℕ
height_of_rest none = none
height_of_rest (some remaining) = parse_digits (leading_digits remaining)

unfoldable pub extract_rollup_height_from_error : Codes → Option ℕ
unfolding find_after
extract_rollup_height_from_error error_str = height_of_rest (find_after prefix error_str)

abbrev later_than : ℕ → Option ℕ → Bool
later_than expected_height none = false
later_than expected_height (some actual_height) = ltb expected_height actual_height

unfoldable pub is_too_late_error : SendError → ℕ → Bool
unfolding extract_rollup_height_from_error
is_too_late_error (other_error shown) expected_height = false
is_too_late_error (error_response shown none) expected_height = false
is_too_late_error (error_response shown (some error_str)) expected_height =
    later_than expected_height (extract_rollup_height_from_error error_str)

-- The transaction of an assertion that `create_assert_block_state_tx` signs.
pub record AssertBlockState : Type 0 where
  pub expected_visible_slot_number : ℕ
  pub expected_rollup_height : ℕ
  pub expected_state_root : Codes

-- The outcome of `send_assert_block_tx` on the sequencer's answer: it succeeds, or it passes on the error.
unfoldable pub send_assert_block_tx :
    Result SendError (Unit {0}) → AssertBlockState → Result SendError (Unit {0})
unfolding contains is_too_late_error
send_assert_block_tx (ok _) tx = ok tt
send_assert_block_tx (err e) tx =
    if contains (to_string e) stop_height_marker
    then ok tt
    else if is_too_late_error e tx.expected_rollup_height
    then ok tt
    else err e

extract_runs :
    extract_rollup_height_from_error
      (codes "Block state Block state assertion failed at rollup height 14. List")
    ≡ some 14
unfolding extract_rollup_height_from_error
extract_runs = refl

extract_fails : extract_rollup_height_from_error (codes "Some other error message") ≡ none
unfolding extract_rollup_height_from_error
extract_fails = refl
