-- ===== src/Acceptance/Resync.antt =====
-- `resync_and_verify_slots` and `reconnect_after_handover` of scripts/acceptance-test/src/lib.rs. The node
-- is the record `Node`, whose answers depend on the time; the slot stream is the list of the results
-- of its polls, with the shutdown signals among them.
pub mod Laws
pub mod Verified
pub mod Reconnect
pub mod Serving
pub mod Live
mod Tests
use rollup_starter.Common.{
  ℕ, zero, suc, ◌+◌, ◌-◌, Bool, true, false, not, ◌&&◌, List, [], ◌∷◌, Option, none, some, Result,
  ok, err, ltb, ◌==◌, if◌then◌else◌, add64, ensure,
}
use rollup_starter.Acceptance.Slots.{
  Slot, Json, Files, SlotError, panicked, missing_snapshot, invalid_snapshot, load_snapshot_json,
  compare_against_snapshot,
}
use rollup_starter.Acceptance.Plan.Versions.{
  AcceptanceRunPlan, expected_setup_batches, last_recorded_slot, migration_boundary_batch_counts,
  range_from,
}

-- What a poll of the stream, under the watch for a shutdown, comes to.
pub data Poll : Type 0 where
  slot : ℕ → Poll
  ended failed shutdown : Poll

-- How the wait for the API, the new client and its subscription come out after a drop.
pub data Arrival : Type 0 where
  up out_of_time signalled no_client refused : Arrival

pub record Node : Type 0 where
  -- The answer at a time to the request for a slot, with or without children.
  pub get_slot : ℕ → ℕ → Bool → Option Slot
  -- What the wait for the node at a time, the making of a client and its subscription come to.
  pub comes_up : ℕ → Arrival

pub data ResyncError : Type 0 where
  shut_down no_progress not_up client_failed not_subscribed : ResyncError
  missing_snapshot_at : ℕ → ℕ → ResyncError
  too_few_batches : ℕ → ℕ → ResyncError
  mismatch : SlotError → ResyncError
  malformed_snapshot : ResyncError

abbrev pub arrived : Arrival → Result ResyncError (Unit {0})
arrived up = ok tt
arrived out_of_time = err not_up
arrived signalled = err shut_down
arrived no_client = err client_failed
arrived refused = err not_subscribed

-- The variables of the function, and the time.
pub record Progress : Type 0 where
  pub now : ℕ
  pub checked : ℕ
  pub latest_batch_num : ℕ
  pub last_reconnect_at : Option ℕ

-- What becomes of one slot number in the loop.
pub data Step : Type 0 where
  skipped verified : Step
  interrupted : Step
  finished : ℕ → Step
  stopped : ResyncError → Step

abbrev pub option_eq : Option ℕ → ℕ → Bool
option_eq none n = false
option_eq (some k) n = k == n

abbrev pub contains : List ℕ → ℕ → Bool
contains [] n = false
contains (k ∷ ks) n = if k == n then true else contains ks n

abbrev pub or_null : {A : Type 0} → A → Option A → A
or_null a none = a
or_null a (some b) = b

pub data Outcome : Type 0 where
  resynced : ℕ → ℕ → Outcome
  gave_up : ResyncError → Outcome
  -- The polls so far have not decided the run.
  waiting : Outcome

module _ (json : Json) (files : Files) (plan : AcceptanceRunPlan) (node : Node) where
  open json use {Value}

  unfoldable pub is_migration_boundary : Slot → Bool
  unfolding migration_boundary_batch_counts
  is_migration_boundary s =
      not (s.batch_range.0 == s.batch_range.1)
      && contains (migration_boundary_batch_counts plan) s.batch_range.1

  abbrev pub same_root : Option Value → Value → Bool
  same_root none live_root = false
  same_root (some root) live_root = json.json_eq root live_root

  -- The snapshot with the live state root at a migration boundary.
  unfoldable pub expected_snapshot : Bool → Slot → Value → Value
  expected_snapshot false live snapshot = snapshot
  expected_snapshot true live snapshot =
      let live_root = or_null json.null (json.get "state_root" (json.to_value live)) in
      if same_root (json.get "state_root" snapshot) live_root
      then snapshot
      else json.set "state_root" live_root snapshot

  -- Whether the snapshot's slot has children to ask for.
  abbrev pub has_batches : Slot → Bool
  has_batches s = elim s.batches [ [] ↦ false | _ ∷ _ ↦ true ]

  unfoldable pub no_snapshot : ℕ → ℕ → Step
  unfolding expected_setup_batches
  no_snapshot number latest =
      if ltb number 10
      then skipped
      else if ltb latest (expected_setup_batches plan)
      then stopped (missing_snapshot_at number latest)
      else finished number

  abbrev pub latest_of : Slot → ℕ
  latest_of s = s.batch_range.1 - 1

  -- After a slot was verified.
  unfoldable pub after_verified : ℕ → ℕ → Step
  unfolding last_recorded_slot expected_setup_batches
  after_verified number latest =
      if option_eq (last_recorded_slot plan) number
      then (if ltb latest (expected_setup_batches plan)
          then stopped (too_few_batches number latest)
          else finished (add64 number 1))
      else verified

  unfoldable pub compare_live : ℕ → Slot → Value → Option Slot → Step
  unfolding is_migration_boundary expected_snapshot after_verified
  compare_live number recorded snapshot none = interrupted
  compare_live number recorded snapshot (some live) =
      elim (compare_against_snapshot json live
        (expected_snapshot (is_migration_boundary recorded) live snapshot) false) [
          | err e ↦ stopped (mismatch e)
          | ok _ ↦ after_verified number (latest_of recorded)
        ]

  -- One pass of the inner loop: the outcome and the variables after it.
  unfoldable pub verify_snapshot : ℕ → Value → Option Slot → Progress → Step × Progress
  unfolding compare_live
  verify_snapshot number snapshot none p = (stopped malformed_snapshot, p)
  verify_snapshot number snapshot (some recorded) p = (
    compare_live number recorded snapshot (node.get_slot p.now number (has_batches recorded)),
    record p { now = p.now + 1; latest_batch_num = latest_of recorded },
  )

  unfoldable pub verify_slot : ℕ → Progress → Step × Progress
  unfolding no_snapshot verify_snapshot
  verify_slot number p = elim (load_snapshot_json json number files) [
    | ok snapshot ↦ verify_snapshot number snapshot (json.from_value snapshot) p
    | err panicked ↦ (stopped malformed_snapshot, p)
    | err _ ↦ (no_snapshot number p.latest_batch_num, p)
  ]

  -- The inner loop goes on after a slot that is skipped or verified.
  unfoldable pub verify_slots : List ℕ → Progress → Step × Progress
  unfolding verify_slot
  verify_slots [] p = (verified, p)
  verify_slots (number ∷ numbers) p =
      let after = verify_slot number p in
      elim after.0 as (λ _. Step × Progress) [
        | skipped ↦ verify_slots numbers after.1
        | verified ↦ verify_slots numbers after.1
        | interrupted ↦ after
        | finished _ ↦ after
        | stopped _ ↦ after
      ]

  unfoldable pub reconnect_after_handover : Progress → Result ResyncError Progress
  reconnect_after_handover p =
      if option_eq p.last_reconnect_at p.checked
      then err no_progress
      else (elim (arrived (node.comes_up p.now)) [
        | ok _ ↦ ok (record p { now = p.now + 1; last_reconnect_at = some p.checked })
        | err e ↦ err e
      ])

  -- `checked..=number`
  abbrev pub slots_up_to : ℕ → ℕ → List ℕ
  slots_up_to checked number = range_from checked (number + 1 - checked)

  -- The outer loop.
  unfoldable pub resync : List Poll → Progress → Outcome
  unfolding verify_slots reconnect_after_handover
  resync [] p = waiting
  resync (shutdown ∷ polls) p = gave_up shut_down
  resync (ended ∷ polls) p = elim (reconnect_after_handover p) [
    | ok p' ↦ resync polls p'
    | err e ↦ gave_up e
  ]
  resync (failed ∷ polls) p = elim (reconnect_after_handover p) [
    | ok p' ↦ resync polls p'
    | err e ↦ gave_up e
  ]
  resync (slot number ∷ polls) p =
      let after = verify_slots (slots_up_to p.checked number) p in
      elim after.0 [
        | skipped ↦ resync polls (record after.1 { checked = number })
        | verified ↦ resync polls (record after.1 { checked = number })
        | interrupted ↦ elim (reconnect_after_handover after.1) [
          | ok p' ↦ resync polls p'
          | err e ↦ gave_up e
        ]
        | finished first_new_slot ↦ resynced after.1.latest_batch_num first_new_slot
        | stopped e ↦ gave_up e
      ]

  abbrev pub start : Progress
  start = record { now = 1; checked = 0; latest_batch_num = 0; last_reconnect_at = none }

  unfoldable pub resync_and_verify_slots : List Poll → Outcome
  unfolding resync
  resync_and_verify_slots polls = elim (arrived (node.comes_up 0)) [
    | ok _ ↦ resync polls start
    | err e ↦ gave_up e
  ]
