-- ===== src/Acceptance/Consistency/Tests.antt =====
-- A stream with an error and three slots, and a node that grows slowly.
use rollup_starter.Common.{ℕ, ◌+◌, ◌≤◌, ◌<◌, List, [], ◌∷◌, ◌++◌, some, ok, ◌≡◌, refl, ◌⊎◌, All}
use rollup_starter.Acceptance.Consistency.{
  Item, slot, failed, pause, latest, drain_slot_stream, Node, poll_for_api_state_update,
}
use rollup_starter.Acceptance.Consistency.Laws.{IsWait, errors_in, Ready, drain_slot_stream-Ready}
use rollup_starter.Acceptance.Consistency.Polling.{poll_for_api_state_update-eq-ok}

abbrev items : List Item
items = failed ∷ pause ∷ slot 4 ∷ slot 5 ∷ slot 6 ∷ failed ∷ slot 7 ∷ []

drain_runs : drain_slot_stream items ≡ latest 6 (slot 7 ∷ [])
unfolding drain_slot_stream
drain_runs = refl

drain_slot_stream-Ready_example :
    (before : List Item) × (after : List Item) × (items ≡ before ++ after)
    × All IsWait before
    × (0 + errors_in before < 5)
    × Ready after 6 (slot 7 ∷ [])
drain_slot_stream-Ready_example = drain_slot_stream-Ready items 6 (slot 7 ∷ []) drain_runs

-- The node sees slot 3 at query 3, and its height grows by one with each query.
abbrev node : Node
node = record { true_slot_number = λ t. some t; current_heights = λ t. some (t, t) }

poll_runs : poll_for_api_state_update node 3 ≡ ok (4, 4)
unfolding poll_for_api_state_update
poll_runs = refl

poll_for_api_state_update-eq-ok_example :
    (seen : ℕ) × (slot : ℕ) × (start : ℕ × ℕ) × (t : ℕ) × (seen < 600)
    × (node.true_slot_number seen ≡ some slot)
    × (3 ≤ slot)
    × (node.current_heights seen ≡ some start)
    × (seen < t)
    × (t ≤ seen + 20)
    × (node.current_heights t ≡ some (4, 4))
    × ((start.0 < 4) ⊎ (t ≡ seen + 20))
poll_for_api_state_update-eq-ok_example = poll_for_api_state_update-eq-ok node 3 (4, 4) poll_runs
