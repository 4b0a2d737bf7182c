-- ===== src/Acceptance/Soak/Contiguous.antt =====
-- The snapshots of a soak run are contiguous.
use mathlib.Core.Path.{subst}
use rollup_starter.Common.{
  add64, ℕ, suc, ◌+◌, ◌%◌, ◌≤◌, ◌<◌, Bool, true, List, [], ◌∷◌, Option, none, some, ok, ◌≡◌, sym,
  ap, ◌∙◌, inl, inr, arith, ◌==◌, Bool-cases,
}
use rollup_starter.Common.Exec.{continue_with-eq-ok}
use rollup_starter.Acceptance.Slots.{Slot, Json, Files}
use rollup_starter.Acceptance.Soak.{
  SoakRunOptions, Soak, Answers, exited, running, unknown, Event, rollup_exited, task_done,
  task_failed, task_panicked, new_slot, stream_failed, shutdown, stream_closed, count_batch,
  very_close, save_slot_snapshot_if_needed, backfill, full_or, account, on_slot, closed, handle,
  run_loop, initial,
}
use rollup_starter.Acceptance.Soak.Coverage.{
  NumberIs, HasFile, saved-HasFile, count_batch-keeps, Saves, Covered, Covers-up_to,
  backfill-Covers,
}

-- The slot events of a run have consecutive numbers from `n` on, and their answers have the numbers that
-- were asked for.
abbrev pub Consecutive : ℕ → List Event → Type 0
Consecutive n [] = Unit
Consecutive n (new_slot slot a ∷ es) =
    (slot.number ≡ n)
    × NumberIs n a.full_slot
    × ((k : ℕ) → NumberIs k (a.gap_slot k))
    × Consecutive (n + 1) es
Consecutive n (_ ∷ es) = Consecutive n es

abbrev pub slot_events : List Event → ℕ
slot_events [] = 0
slot_events (new_slot slot a ∷ es) = suc (slot_events es)
slot_events (_ ∷ es) = slot_events es

module _ (json : Json) (o : SoakRunOptions) where
  save-Saves :
      (w : Bool) (slot : Slot) (s s' : Soak)
      → o.save_slot_snapshots ≡ true
      → save_slot_snapshot_if_needed json o w slot s ≡ (ok tt, s')
      → Saves json o slot.number s s'
  unfolding save_slot_snapshot_if_needed
  save-Saves w slot s s' saves h = saved-HasFile json o w slot s s' (simp saves at h)

  full-Saves :
      (slot : Slot) (g : Option Slot) (w : Bool) (s s' : Soak)
      → o.save_slot_snapshots ≡ true
      → NumberIs slot.number g
      → save_slot_snapshot_if_needed json o w (full_or json o slot g) s ≡ (ok tt, s')
      → Saves json o slot.number s s'
  full-Saves slot none w s s' saves numbered h = save-Saves w slot s s' saves h
  full-Saves slot (some full) w s s' saves numbered h =
      subst (λ n. Saves json o n s s') numbered (save-Saves w full s s' saves h)

  account-Saves :
      (slot : Slot) (a : Answers) (s s' : Soak)
      → o.save_slot_snapshots ≡ true
      → NumberIs slot.number a.full_slot
      → account json o slot a s ≡ (ok tt, s')
      → Saves json o slot.number s s'
  unfolding account
  account-Saves slot a s s' saves numbered h = elim (Bool-cases (s.num_soak_batches == 0)) [
    | inl before ↦ save-Saves a.writable slot s s' saves (simp before at h)
    | inr counted ↦ elim (Bool-cases (o.full_slot_save_interval == 0)) [
      | inl panic ↦ absurd (cc (ap (λ q. q.0) (simp (counted, panic) at h)))
      | inr interval ↦
          elim (Bool-cases (add64 s.num_soak_slots 1 % o.full_slot_save_interval == 0)) [
            | inl now ↦
                full-Saves slot a.full_slot a.writable _ s' saves numbered
                  (simp (counted, interval, now) at h)
            | inr later ↦
                save-Saves a.writable slot _ s' saves (simp (counted, interval, later) at h)
          ]
    ]
  ]

  on_slot-Covers :
      (f : ℕ) (slot : Slot) (a : Answers) (s s' : Soak)
      → o.save_slot_snapshots ≡ true
      → NumberIs slot.number a.full_slot
      → ((k : ℕ) → NumberIs k (a.gap_slot k))
      → Covered json o f slot.number s
      → on_slot json o slot a s ≡ (ok tt, s')
      → Covered json o f (slot.number + 1) s'
  unfolding on_slot
  on_slot-Covers f slot a s s' saves full gap covered h =
      let (_, s₁, p, h₁) = continue_with-eq-ok _ (count_batch json o slot a s) h in
      let (_, s₂, q, h₂) = continue_with-eq-ok _ (backfill json o slot a s₁) h₁ in
      let (files, from) = count_batch-keeps json o slot a s s₁ p in
      let covered₁ : Covered json o f slot.number s₁ = rw files (rw from covered) in
      let (done, covers) = backfill-Covers json o f slot a s₁ s₂ gap covered₁ q in
      let (here, kept, from') = account-Saves slot a s₂ s' saves full h₂ in
      inr (from' ∙ done, Covers-up_to json o f slot.number s₂.files s'.files covers kept here)

  abbrev IsQuiet : Event → Type 0
  IsQuiet (new_slot slot a) = ⊥
  IsQuiet _ = Unit

  -- An event other than a slot, after which the loop goes on, changes nothing.
  handle-IsQuiet : (e : Event) (s s' : Soak) → IsQuiet e → handle json o e s ≡ (ok tt, s') → s ≡ s'
  unfolding handle closed
  handle-IsQuiet (new_slot slot a) s s' q h = absurd q
  handle-IsQuiet (rollup_exited none) s s' q h = absurd (cc (ap (λ r. r.0) h))
  handle-IsQuiet (rollup_exited (some b)) s s' q h = absurd (cc (ap (λ r. r.0) h))
  handle-IsQuiet task_done s s' q h = ap (λ r. r.1) h
  handle-IsQuiet task_failed s s' q h = elim (Bool-cases (very_close json o s)) [
    | inl close ↦ ap (λ r. r.1) (rw close at h)
    | inr far ↦ absurd (cc (ap (λ r. r.0) (rw far at h)))
  ]
  handle-IsQuiet task_panicked s s' q h = absurd (cc (ap (λ r. r.0) h))
  handle-IsQuiet stream_failed s s' q h = absurd (cc (ap (λ r. r.0) h))
  handle-IsQuiet shutdown s s' q h = absurd (cc (ap (λ r. r.0) h))
  handle-IsQuiet (stream_closed (exited b)) s s' q h = absurd (cc (ap (λ r. r.0) h))
  handle-IsQuiet (stream_closed running) s s' q h = absurd (cc (ap (λ r. r.0) h))
  handle-IsQuiet (stream_closed unknown) s s' q h = absurd (cc (ap (λ r. r.0) h))

  quiet_step :
      (e : Event) (es : List Event) (s s' : Soak)
      → IsQuiet e
      → run_loop json o (e ∷ es) s ≡ (ok tt, s')
      → run_loop json o es s ≡ (ok tt, s')
  unfolding run_loop
  quiet_step e es s s' q h =
      let (_, s₁, p, h₁) = continue_with-eq-ok _ (handle json o e s) h in
      subst (λ t. run_loop json o es t ≡ (ok tt, s')) (sym (handle-IsQuiet e s s₁ q p)) h₁

  run_loop-Covered :
      (es : List Event) (f n : ℕ) (s s' : Soak)
      → o.save_slot_snapshots ≡ true
      → Consecutive n es
      → Covered json o f n s
      → run_loop json o es s ≡ (ok tt, s')
      → Covered json o f (n + slot_events es) s'
  unfolding run_loop handle
  run_loop-Covered [] f n s s' saves events covered h =
      let same : s ≡ s' = ap (λ q. q.1) h in
      subst (Covered json o f (n + 0)) same
        (subst (λ b. Covered json o f b s) (omega arith) covered)
  run_loop-Covered (new_slot slot a ∷ es) f n s s' saves (number, full, gap, events) covered h =
      let (_, s₁, p, h₁) = continue_with-eq-ok _ (on_slot json o slot a s) h in
      let here : Covered json o f (slot.number + 1) s₁ =
        on_slot-Covers f slot a s s₁ saves (rw number full) gap (rw number covered) p in
      let next : Covered json o f (n + 1) s₁ =
        subst (λ k. Covered json o f (k + 1) s₁) number here in
      subst (λ b. Covered json o f b s') (omega arith)
        (run_loop-Covered es f (n + 1) s₁ s' saves events next h₁)
  run_loop-Covered (rollup_exited b ∷ es) f n s s' saves events covered h =
      run_loop-Covered es f n s s' saves events covered (quiet_step (rollup_exited b) es s s' tt h)
  run_loop-Covered (task_done ∷ es) f n s s' saves events covered h =
      run_loop-Covered es f n s s' saves events covered (quiet_step task_done es s s' tt h)
  run_loop-Covered (task_failed ∷ es) f n s s' saves events covered h =
      run_loop-Covered es f n s s' saves events covered (quiet_step task_failed es s s' tt h)
  run_loop-Covered (task_panicked ∷ es) f n s s' saves events covered h =
      run_loop-Covered es f n s s' saves events covered (quiet_step task_panicked es s s' tt h)
  run_loop-Covered (stream_failed ∷ es) f n s s' saves events covered h =
      run_loop-Covered es f n s s' saves events covered (quiet_step stream_failed es s s' tt h)
  run_loop-Covered (shutdown ∷ es) f n s s' saves events covered h =
      run_loop-Covered es f n s s' saves events covered (quiet_step shutdown es s s' tt h)
  run_loop-Covered (stream_closed b ∷ es) f n s s' saves events covered h =
      run_loop-Covered es f n s s' saves events covered (quiet_step (stream_closed b) es s s' tt h)

  -- A soak run that saves snapshots from a slot on, and sees slots with consecutive numbers from `n` on,
  -- has a snapshot of every slot from the former to the last one seen, as long as the loop goes on, if
  -- the node answers with the slots that it is asked for and one slot has been seen.
  pub run_loop-HasFile :
      (es : List Event) (f n k : ℕ) (files : Files) (s : Soak)
      → o.save_slot_snapshots ≡ true
      → o.snapshot_backfill_start ≡ some f
      → Consecutive n es
      → run_loop json o es (initial json o files) ≡ (ok tt, s)
      → s.snapshot_backfill_from ≡ none
      → f ≤ k
      → k < n + slot_events es
      → HasFile json o s.files k
  run_loop-HasFile es f n k files s saves start events h done lo hi =
      let due : (initial json o files).snapshot_backfill_from ≡ some f = simp (saves, start) in
      elim (run_loop-Covered es f n _ s saves events (inl due) h) [
        | inl waits ↦ absurd (cc)
        | inr (_, covers) ↦ covers k lo hi
      ]
