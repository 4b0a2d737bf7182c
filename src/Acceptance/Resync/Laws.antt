-- ===== src/Acceptance/Resync/Laws.antt =====
-- What a finished resync has verified.
use mathlib.Core.Path.{subst}
use rollup_starter.Common.{
  ℕ, ◌+◌, ◌-◌, ◌≤◌, ◌<◌, Bool, false, Option, none, some, Result, ok, err, ◌≡◌, refl, sym, ap, ◌⊎◌,
  inl, inr, arith, ltb, ◌==◌, add64, Bool-cases, Option-cases,
}
use rollup_starter.Acceptance.Slots.{
  Slot, Json, Files, SlotError, panicked, missing_snapshot, load_snapshot_json,
  compare_against_snapshot,
}
use rollup_starter.Acceptance.Plan.Versions.{
  AcceptanceRunPlan, expected_setup_batches, last_recorded_slot,
}
use rollup_starter.Acceptance.Resync.{
  Node, ResyncError, Progress, Step, skipped, verified, interrupted, finished, stopped,
  is_migration_boundary, expected_snapshot, has_batches, no_snapshot, after_verified, compare_live,
  verify_snapshot, verify_slot,
}

module _ (json : Json) (files : Files) (plan : AcceptanceRunPlan) (node : Node) where
  open json use {Value}

  -- The node answered a request for the slot with a slot that matches its snapshot, where a migration
  -- boundary may have another state root.
  abbrev pub Confirmed : ℕ → Type 0
  Confirmed n =
      (snapshot : Value) × (recorded : Slot) × (live : Slot) × (time : ℕ) × (load_snapshot_json json
          n files
        ≡ ok snapshot)
      × (json.from_value snapshot ≡ some recorded)
      × (node.get_slot time n (has_batches json files plan node recorded) ≡ some live)
      × (compare_against_snapshot json live
            (expected_snapshot json files plan node
              (is_migration_boundary json files plan node recorded) live snapshot)
            false
          ≡ ok tt)

  -- The slot is among the first ten and has no snapshot.
  abbrev pub Missing : ℕ → Type 0
  Missing n = (n < 10) × ((e : SlotError) × (load_snapshot_json json n files ≡ err e))

  -- Where the recorded data ends: after the last recorded slot, or at the first missing snapshot.
  abbrev pub Ends : ℕ → Type 0
  Ends first =
      ((k : ℕ) × (last_recorded_slot plan ≡ some k) × (first ≡ add64 k 1) × Confirmed k)
      ⊎ ((10 ≤ first) × ((e : SlotError) × (load_snapshot_json json first files ≡ err e)))

  -- What one pass of the inner loop says of its slot.
  abbrev pub Says : ℕ → Step × Progress → Type 0
  Says n (skipped, q) = Missing n
  Says n (verified, q) = Confirmed n
  Says n (interrupted, q) = Unit
  Says n (finished first, q) =
      Ends first
      × (first ≤ n + 1)
      × (expected_setup_batches plan ≤ q.latest_batch_num)
      × ((first ≡ n) ⊎ Confirmed n)
  Says n (stopped e, q) = Unit

  no_snapshot-Says :
      (n : ℕ) (p : Progress) (e : SlotError)
      → load_snapshot_json json n files ≡ err e
      → Says n (no_snapshot json files plan node n p.latest_batch_num, p)
  unfolding no_snapshot
  no_snapshot-Says n p e h = elim (Bool-cases (ltb n 10)) [
    | inl early ↦ rw early (ground arith, (e, h))
    | inr late ↦ elim (Bool-cases (ltb p.latest_batch_num (expected_setup_batches plan))) [
      | inl few ↦ rw late (simp few tt)
      | inr enough ↦
          rw late (simp enough (inr (ground arith, (e, h)), omega arith, ground arith, inl refl))
    ]
  ]

  after_verified-Says :
      (n : ℕ) (p : Progress)
      → Confirmed n
      → Says n (after_verified json files plan node n p.latest_batch_num, p)
  unfolding after_verified
  after_verified-Says n p c = elim (Option-cases (last_recorded_slot plan)) [
    | inl unknown ↦ simp unknown c
    | inr (k, known) ↦ elim (Bool-cases (k == n)) [
      | inl last ↦ elim (Bool-cases (ltb p.latest_batch_num (expected_setup_batches plan))) [
        | inl few ↦ simp (known, last, few) tt
        | inr enough ↦
            let same : k ≡ n = ground arith in
            let step : after_verified json files plan node n p.latest_batch_num
                ≡ finished (add64 n 1) =
              simp (known, last, enough) in
            subst (λ s. Says n (s, p)) (sym step)
              (
                inl (k, known, ap (λ j. add64 j 1) (sym same), subst Confirmed (sym same) c),
                omega arith,
                ground arith,
                inr c,
              )
      ]
      | inr before ↦ simp (known, before) c
    ]
  ]

  compare_live-Says :
      (n : ℕ) (snapshot : Value) (recorded : Slot) (time : ℕ) (o : Option Slot) (q : Progress)
      → load_snapshot_json json n files ≡ ok snapshot
      → json.from_value snapshot ≡ some recorded
      → node.get_slot time n (has_batches json files plan node recorded) ≡ o
      → q.latest_batch_num ≡ recorded.batch_range.1 - 1
      → Says n (compare_live json files plan node n recorded snapshot o, q)
  unfolding compare_live
  compare_live-Says n snapshot recorded time none q l f g e = tt
  compare_live-Says n snapshot recorded time (some live) q l f g e = go _ refl
    where
      boundary : Bool
      boundary = is_migration_boundary json files plan node recorded

      expected : Value
      expected = expected_snapshot json files plan node boundary live snapshot

      go :
          (r : Result SlotError (Unit {0}))
          → compare_against_snapshot json live expected false ≡ r
          → Says n (
            elim r [
              | err e ↦ stopped (ResyncError.mismatch e)
              | ok _ ↦ after_verified json files plan node n (recorded.batch_range.1 - 1)
            ],
            q,
          )
      go (err e') _ = tt
      go (ok _) matches =
          subst (λ l. Says n (after_verified json files plan node n l, q)) e
            (after_verified-Says n q (snapshot, recorded, live, time, l, f, g, matches))

  verify_snapshot-Says :
      (n : ℕ) (snapshot : Value) (o : Option Slot) (p : Progress)
      → load_snapshot_json json n files ≡ ok snapshot
      → json.from_value snapshot ≡ o
      → Says n (verify_snapshot json files plan node n snapshot o p)
  unfolding verify_snapshot
  verify_snapshot-Says n snapshot none p l f = tt
  verify_snapshot-Says n snapshot (some recorded) p l f =
      compare_live-Says n snapshot recorded p.now _ _ l f refl refl

  -- The loop's body says of its slot what its outcome claims.
  pub verify_slot-Says : (n : ℕ) (p : Progress) → Says n (verify_slot json files plan node n p)
  unfolding verify_slot
  verify_slot-Says n p = go _ refl
    where
      go :
          (r : Result SlotError Value)
          → load_snapshot_json json n files ≡ r
          → Says n (elim r [
            | ok snapshot ↦
                verify_snapshot json files plan node n snapshot (json.from_value snapshot) p
            | err panicked ↦ (stopped ResyncError.malformed_snapshot, p)
            | err _ ↦ (no_snapshot json files plan node n p.latest_batch_num, p)
          ])
      go (ok snapshot) l = verify_snapshot-Says n snapshot _ p l refl
      go (err panicked) l = tt
      go (err SlotError.json_mismatch) l = no_snapshot-Says n p _ l
      go (err missing_snapshot) l = no_snapshot-Says n p _ l
      go (err SlotError.invalid_snapshot) l = no_snapshot-Says n p _ l
      go (err SlotError.write_failed) l = no_snapshot-Says n p _ l
      go (err SlotError.api_failed) l = no_snapshot-Says n p _ l
      go (err (SlotError.out_of_sequence a b)) l = no_snapshot-Says n p _ l
