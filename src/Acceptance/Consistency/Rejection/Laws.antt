-- ===== src/Acceptance/Consistency/Rejection/Laws.antt =====
-- Which rejections the worker puts up with.
use rollup_starter.Common.{
  ℕ, ◌<◌, ◌++◌, none, some, ok, err, ltb, ◌≡◌, ap, ◌∙◌, ◌||◌, if◌then◌else◌, inl, inr, arith,
  u64_mod, Bool-cases,
}
use rollup_starter.Common.Codes.{
  Codes, codes, find_after, contains, print, EndsDigits, find_after-append, parse-print,
}
use rollup_starter.Acceptance.Consistency.Rejection.{
  error_response, prefix, stop_height_marker, height_of_rest, extract_rollup_height_from_error,
  AssertBlockState, send_assert_block_tx,
}

-- The message of a failed assertion, wherever it stands in the error.
pub extract-message :
    (before rest : Codes) (height : ℕ)
    → find_after prefix before ≡ none
    → height < u64_mod
    → EndsDigits rest
    → extract_rollup_height_from_error (before ++ (prefix ++ (print height ++ rest))) ≡ some height
unfolding extract_rollup_height_from_error
extract-message before rest height absent small ends =
    ap height_of_rest (
      find_after-append b'B' (codes "lock state assertion failed at rollup height ") before
        (print height ++ rest) (omega arith) absent)
    ∙ parse-print height rest small ends

send_lem :
    (shown message : Codes) (height : ℕ) (tx : AssertBlockState)
    → extract_rollup_height_from_error message ≡ some height
    → send_assert_block_tx (err (error_response shown (some message))) tx ≡ (
        if contains shown stop_height_marker || ltb tx.expected_rollup_height height
        then ok tt
        else err (error_response shown (some message)))
unfolding send_assert_block_tx
send_lem shown message height tx read = elim (Bool-cases (contains shown stop_height_marker)) [
  | inl stop ↦ rw stop
  | inr other ↦ rw other (rw read)
]

-- The rejection of an assertion whose message names the height at which it failed, after a text that does
-- not hold the message's prefix and before something that is no digit, is put up with exactly if that
-- height is above the expected one or the error names the stop height; otherwise it is passed on.
pub send_assert_block_tx-rejected :
    (shown before rest : Codes) (height : ℕ) (tx : AssertBlockState)
    → find_after prefix before ≡ none
    → height < u64_mod
    → EndsDigits rest
    → send_assert_block_tx
        (err (error_response shown (some (before ++ (prefix ++ (print height ++ rest))))))
        tx
      ≡ (if contains shown stop_height_marker || ltb tx.expected_rollup_height height
          then ok tt
          else err (error_response shown (some (before ++ (prefix ++ (print height ++ rest))))))
send_assert_block_tx-rejected shown before rest height tx absent small ends =
    send_lem shown (before ++ (prefix ++ (print height ++ rest))) height tx
      (extract-message before rest height absent small ends)
