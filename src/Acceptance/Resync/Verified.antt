-- ===== src/Acceptance/Resync/Verified.antt =====
-- The loops of the resync: every slot below the end of the recorded data was verified.
use mathlib.Core.Path.{subst}
use rollup_starter.Common.{
  ℕ, zero, suc, ◌+◌, ◌-◌, ◌≤◌, ◌<◌, List, [], ◌∷◌, Result, ok, err, ◌≡◌, refl, sym, ◌∙◌, ◌⊎◌, inl,
  inr, arith,
}
use rollup_starter.Acceptance.Slots.{Json, Files}
use rollup_starter.Acceptance.Plan.Versions.{AcceptanceRunPlan, expected_setup_batches, range_from}
use rollup_starter.Acceptance.Resync.{
  arrived, ResyncError, Outcome, gave_up, Poll, slot, ended, failed, shutdown, Node, ResyncError,
  Progress, Step, skipped, verified, interrupted, finished, stopped, resynced, gave_up,
  verify_snapshot, verify_slot, verify_slots, reconnect_after_handover, slots_up_to, resync, start,
  resync_and_verify_slots,
}
use rollup_starter.Acceptance.Resync.Laws.{Confirmed, Missing, Ends, Says, verify_slot-Says}

module _ (json : Json) (files : Files) (plan : AcceptanceRunPlan) (node : Node) where
  abbrev pub Checked : ℕ → Type 0
  Checked k = Missing json files plan node k ⊎ Confirmed json files plan node k

  abbrev Between : ℕ → ℕ → Type 0
  Between a b = (k : ℕ) → a ≤ k → k < b → Checked k

  -- What the inner loop says of `m` slots from `c` on.
  abbrev Range : ℕ → ℕ → Step × Progress → Type 0
  Range c m (skipped, q) = Between c (c + m)
  Range c m (verified, q) = Between c (c + m)
  Range c m (interrupted, q) = Unit
  Range c m (finished first, q) =
      Ends json files plan node first
      × (expected_setup_batches plan ≤ q.latest_batch_num)
      × Between c first
  Range c m (stopped e, q) = Unit

  lt_or_le : (a b : ℕ) → (a < b) ⊎ (b ≤ a)
  lt_or_le a b = ground arith

  Between-suc : (c b : ℕ) → Checked c → Between (c + 1) b → Between c b
  Between-suc c b here rest k lo hi = elim (lt_or_le c k) [
    | inl later ↦ rest k (omega arith) hi
    | inr now ↦ let same : c ≡ k = omega arith in subst Checked same here
  ]

  Range-suc : (c m : ℕ) (r : Step × Progress) → Checked c → Range (c + 1) m r → Range c (suc m) r
  Range-suc c m (skipped, q) here rest = Between-suc c _ here (λ k lo hi. rest k lo (omega arith))
  Range-suc c m (verified, q) here rest = Between-suc c _ here (λ k lo hi. rest k lo (omega arith))
  Range-suc c m (interrupted, q) here rest = tt
  Range-suc c m (finished first, q) here (a, b, rest) = (a, b, Between-suc c first here rest)
  Range-suc c m (stopped e, q) here rest = tt

  verify_slots-Range :
      (m c : ℕ) (p : Progress) → Range c m (verify_slots json files plan node (range_from c m) p)
  unfolding verify_slots
  verify_slots-Range zero c p = λ k lo hi. absurd (omega arith)
  verify_slots-Range (suc m) c p =
      go (verify_slots-Range m (c + 1)) (verify_slot json files plan node c p)
        (verify_slot-Says json files plan node c p)
    where
      go :
          ((q : Progress)
            → Range (c + 1) m (verify_slots json files plan node (range_from (c + 1) m) q))
          → (after : Step × Progress) → Says json files plan node c after
          → Range c (suc m) (elim after.0 as (λ _. Step × Progress) [
            | skipped ↦ verify_slots json files plan node (range_from (c + 1) m) after.1
            | verified ↦ verify_slots json files plan node (range_from (c + 1) m) after.1
            | interrupted ↦ after
            | finished _ ↦ after
            | stopped _ ↦ after
          ])
      go next (skipped, q) says = Range-suc c m _ (inl says) (next q)
      go next (verified, q) says = Range-suc c m _ (inr says) (next q)
      go next (interrupted, q) says = tt
      go next (finished first, q) (ends, bound, enough, inl same) =
          (ends, enough, λ k lo hi. absurd (omega arith))
      go next (finished first, q) (ends, bound, enough, inr here) =
          (ends, enough, Between-suc c first (inr here) (λ k lo hi. absurd (omega arith)))
      go next (stopped e, q) says = tt

  -- The inner loop leaves the slot up to which all was checked.
  verify_slot-checked :
      (n : ℕ) (p : Progress) → (verify_slot json files plan node n p).1.checked ≡ p.checked
  unfolding verify_slot verify_snapshot
  verify_slot-checked n p = ground arith

  verify_slots-checked :
      (ns : List ℕ) (p : Progress) → (verify_slots json files plan node ns p).1.checked ≡ p.checked
  unfolding verify_slots
  verify_slots-checked [] p = refl
  verify_slots-checked (n ∷ ns) p =
      go (verify_slots-checked ns) (verify_slot json files plan node n p) (verify_slot-checked n p)
    where
      go :
          ((q : Progress) → (verify_slots json files plan node ns q).1.checked ≡ q.checked)
          → (after : Step × Progress) → after.1.checked ≡ p.checked
          → (elim after.0 as (λ _. Step × Progress) [
            | skipped ↦ verify_slots json files plan node ns after.1
            | verified ↦ verify_slots json files plan node ns after.1
            | interrupted ↦ after
            | finished _ ↦ after
            | stopped _ ↦ after
          ]).1.checked
            ≡ p.checked
      go next (skipped, q) same = next q ∙ same
      go next (verified, q) same = next q ∙ same
      go next (interrupted, q) same = same
      go next (finished first, q) same = same
      go next (stopped e, q) same = same

  reconnect-checked :
      (p p' : Progress)
      → reconnect_after_handover json files plan node p ≡ ok p'
      → p'.checked ≡ p.checked
  unfolding reconnect_after_handover
  reconnect-checked p p' h = ground arith

  abbrev Below : Progress → Type 0
  Below p = (k : ℕ) → k < p.checked → Checked k

  abbrev Resynced : ℕ → ℕ → Type 0
  Resynced latest first =
      Ends json files plan node first
      × (expected_setup_batches plan ≤ latest)
      × ((k : ℕ) → k < first → Checked k)

  abbrev Rest : List Poll → ℕ → ℕ → Type 0
  Rest polls latest first =
      (q : Progress)
      → Below q
      → resync json files plan node polls q ≡ resynced latest first
      → Resynced latest first

  after_reconnect :
      (polls : List Poll) (latest first : ℕ) (q : Progress) (r : Result ResyncError Progress)
      → Rest polls latest first
      → Below q
      → ((q' : Progress) → r ≡ ok q' → q'.checked ≡ q.checked)
      → (elim r [ ok p' ↦ resync json files plan node polls p' | err e ↦ gave_up e ])
        ≡ resynced latest first
      → Resynced latest first
  after_reconnect polls latest first q (ok p') rest below same h =
      rest p' (subst (λ c. (k : ℕ) → k < c → Checked k) (sym (same p' refl)) below) h
  after_reconnect polls latest first q (err e) rest below same h = absurd (cc h)

  Between-below :
      (c n : ℕ) → ((k : ℕ) → k < c → Checked k) → Between c n → (k : ℕ) → k < n → Checked k
  Between-below c n below between k h = elim (lt_or_le k c) [
    | inl lo ↦ below k lo
    | inr hi ↦ between k hi h
  ]

  after_slots :
      (polls : List Poll) (latest first n : ℕ) (p : Progress) (after : Step × Progress)
      → Rest polls latest first
      → Below p
      → Range p.checked (n + 1 - p.checked) after
      → after.1.checked ≡ p.checked
      → (elim after.0 [
        | skipped ↦ resync json files plan node polls (record after.1 { checked = n })
        | verified ↦ resync json files plan node polls (record after.1 { checked = n })
        | interrupted ↦ elim (reconnect_after_handover json files plan node after.1) [
          | ok p' ↦ resync json files plan node polls p'
          | err e ↦ gave_up e
        ]
        | finished first_new_slot ↦ resynced after.1.latest_batch_num first_new_slot
        | stopped e ↦ gave_up e
      ])
        ≡ resynced latest first
      → Resynced latest first
  after_slots polls latest first n p (skipped, q) rest below range same h =
      rest _ (λ k lo. Between-below p.checked _ below range k (omega arith)) h
  after_slots polls latest first n p (verified, q) rest below range same h =
      rest _ (λ k lo. Between-below p.checked _ below range k (omega arith)) h
  after_slots polls latest first n p (interrupted, q) rest below range same h =
      after_reconnect polls latest first q _ rest
        (subst (λ c. (k : ℕ) → k < c → Checked k) (sym same) below) (reconnect-checked q) h
  after_slots polls latest first n p (finished f, q) rest below (ends, enough, range) same h =
      let latest_lem : q.latest_batch_num ≡ latest = ground arith in
      let first_lem : f ≡ first = ground arith in
      subst (λ f. Resynced latest f) first_lem
        (ends, omega arith, Between-below p.checked f below range)
  after_slots polls latest first n p (stopped e, q) rest below range same h = absurd (cc h)

  resync-Resynced : (polls : List Poll) (latest first : ℕ) → Rest polls latest first
  unfolding resync
  resync-Resynced [] latest first p below h = absurd (cc h)
  resync-Resynced (shutdown ∷ polls) latest first p below h = absurd (cc h)
  resync-Resynced (ended ∷ polls) latest first p below h =
      after_reconnect polls latest first p _ (resync-Resynced polls latest first) below
        (reconnect-checked p) h
  resync-Resynced (failed ∷ polls) latest first p below h =
      after_reconnect polls latest first p _ (resync-Resynced polls latest first) below
        (reconnect-checked p) h
  resync-Resynced (slot n ∷ polls) latest first p below h =
      after_slots polls latest first n p _ (resync-Resynced polls latest first) below
        (verify_slots-Range (n + 1 - p.checked) p.checked p)
        (verify_slots-checked (slots_up_to json files plan node p.checked n) p) h

  -- A resync that finishes has at least the expected batches. The first new slot is the one after the
  -- last recorded slot, which was confirmed, or it is at least 10 and has no snapshot; and every slot
  -- below the first new one was confirmed by an answer of the node that matches its snapshot, up to the
  -- state root at a migration boundary, or it is below 10 and has no snapshot.
  pub resync_and_verify_slots-Checked :
      (polls : List Poll) (latest first k : ℕ)
      → resync_and_verify_slots json files plan node polls ≡ resynced latest first
      → k < first
      → Ends json files plan node first × (expected_setup_batches plan ≤ latest) × Checked k
  unfolding resync_and_verify_slots
  resync_and_verify_slots-Checked polls latest first k h below = go (arrived (node.comes_up 0)) h
    where
      go :
          (r : Result ResyncError (Unit {0}))
          → (elim r as (λ _. Outcome) [
            | ok _ ↦ resync json files plan node polls (start json files plan node)
            | err e ↦ gave_up e
          ])
            ≡ resynced latest first
          → Ends json files plan node first × (expected_setup_batches plan ≤ latest) × Checked k
      go (ok u) q =
          let (ends, enough, all) =
            resync-Resynced polls latest first (start json files plan node)
              (λ j lt. absurd (omega arith)) q in
          (ends, enough, all k below)
      go (err e) q = absurd (cc q)
