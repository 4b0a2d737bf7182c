-- ===== src/Acceptance/Soak/Coverage.antt =====
-- The snapshots of a soak run that saves them: no slot is left out from the backfill's start on.
use mathlib.Core.Path.{subst}
use rollup_starter.Common.{
  ℕ, zero, suc, ◌+◌, ◌-◌, ◌≤◌, ◌<◌, Bool, true, false, ◌∷◌, Option, none, some, Result, ok, err,
  ◌≡◌, refl, sym, ap, ◌∙◌, ◌⊎◌, inl, inr, arith, if◌then◌else◌,
}
use rollup_starter.Common.Exec.{continue_with-eq-ok}
use rollup_starter.Acceptance.Slots.{Slot, Json, Files, save_slot_snapshot, slot_to_json}
use rollup_starter.Acceptance.Plan.Versions.{range_from}
use rollup_starter.Acceptance.Soak.{
  SoakRunOptions, Soak, Answers, SoakError, Break, break_err, saved, exists, count_batch,
  read_reference, add_batch, backfill_slot, backfill_missing_snapshots, backfill,
}

-- A slot that is answered has the number that was asked for.
abbrev pub NumberIs : ℕ → Option Slot → Type 0
NumberIs n none = Unit
NumberIs n (some slot) = slot.number ≡ n

module _ (json : Json) (o : SoakRunOptions) where
  abbrev pub HasFile : Files → ℕ → Type 0
  HasFile files n = exists json o files n ≡ true

  -- No snapshot is lost.
  abbrev pub Kept : Files → Files → Type 0
  Kept f g = (k : ℕ) → HasFile f k → HasFile g k

  pub saved-HasFile :
      (w : Bool) (slot : Slot) (s s' : Soak)
      → saved json o s (save_slot_snapshot json w slot s.files) ≡ (ok tt, s')
      → HasFile s'.files slot.number
        × Kept s.files s'.files
        × (s'.snapshot_backfill_from ≡ s.snapshot_backfill_from)
  unfolding save_slot_snapshot
  saved-HasFile true slot s s' h =
      let files : s'.files
          ≡ (slot.number, json.to_string_pretty (slot_to_json json slot false)) ∷ s.files =
        ground arith in
      (rw files (ground arith), (λ k has. rw files (ground arith)), ground arith)
  saved-HasFile false slot s s' h = absurd (cc (ap (λ q. q.0) h))

  pub count_batch-keeps :
      (slot : Slot) (a : Answers) (s s' : Soak)
      → count_batch json o slot a s ≡ (ok tt, s')
      → (s'.files ≡ s.files) × (s'.snapshot_backfill_from ≡ s.snapshot_backfill_from)
  unfolding count_batch read_reference add_batch
  count_batch-keeps slot a s s' h = ground arith

  -- What a step that saves a slot, or finds its snapshot, does to the snapshots.
  abbrev pub Saves : ℕ → Soak → Soak → Type 0
  Saves n s s' =
      HasFile s'.files n
      × Kept s.files s'.files
      × (s'.snapshot_backfill_from ≡ s.snapshot_backfill_from)

  fetched-Saves :
      (a : Answers) (n : ℕ) (s s' : Soak) (g : Option Slot)
      → NumberIs n g
      → (elim g as (λ _. Result Break (Unit {0}) × Soak) [
        | none ↦ (err (break_err SoakError.backfill_failed), s)
        | some slot ↦ saved json o s (save_slot_snapshot json a.writable slot s.files)
      ])
        ≡ (ok tt, s')
      → Saves n s s'
  fetched-Saves a n s s' none numbered h = absurd (cc (ap (λ q. q.0) h))
  fetched-Saves a n s s' (some slot) numbered h =
      subst (λ k. Saves k s s') numbered (saved-HasFile a.writable slot s s' h)

  backfill_slot-Saves :
      (a : Answers) (n : ℕ) (s s' : Soak)
      → NumberIs n (a.gap_slot n)
      → backfill_slot json o a n s ≡ (ok tt, s')
      → Saves n s s'
  unfolding backfill_slot
  backfill_slot-Saves a n s s' numbered h = go (exists json o s.files n) refl h
    where
      go :
          (b : Bool)
          → exists json o s.files n ≡ b
          → (if b
              then (ok tt, s)
              else (elim (a.gap_slot n) as (λ _. Result Break (Unit {0}) × Soak) [
                | none ↦ (err (break_err SoakError.backfill_failed), s)
                | some slot ↦ saved json o s (save_slot_snapshot json a.writable slot s.files)
              ]))
            ≡ (ok tt, s')
          → Saves n s s'
      go true there e =
          let same : s ≡ s' = ap (λ q. q.1) e in
          subst (Saves n s) same (there, (λ k has. has), refl)
      go false gone e = fetched-Saves a n s s' (a.gap_slot n) numbered e

  lt_or_le : (a b : ℕ) → (a < b) ⊎ (b ≤ a)
  lt_or_le a b = ground arith

  -- Snapshots for all slots from `c` up to `b`.
  abbrev pub Covers : ℕ → ℕ → Files → Type 0
  Covers c b f = (k : ℕ) → c ≤ k → k < b → HasFile f k

  gap-Covers :
      (a : Answers) (m c : ℕ) (s s' : Soak)
      → ((n : ℕ) → NumberIs n (a.gap_slot n))
      → backfill_missing_snapshots json o a (range_from c m) s ≡ (ok tt, s')
      → Covers c (c + m) s'.files
        × Kept s.files s'.files
        × (s'.snapshot_backfill_from ≡ s.snapshot_backfill_from)
  unfolding backfill_missing_snapshots
  gap-Covers a zero c s s' numbered h =
      let same : s ≡ s' = ap (λ q. q.1) h in
      (
        (λ k lo hi. absurd (omega arith)),
        subst (λ t. Kept s.files t.files) same (λ k has. has),
        ap (λ t. t.snapshot_backfill_from) (sym same),
      )
  gap-Covers a (suc m) c s s' numbered h =
      let (_, s₁, p, h₁) = continue_with-eq-ok _ (backfill_slot json o a c s) h in
      let (here, kept, from) = backfill_slot-Saves a c s s₁ (numbered c) p in
      let (covers, kept', from') = gap-Covers a m (c + 1) s₁ s' numbered h₁ in
      (
        (λ k lo hi. elim (lt_or_le c k) [
          | inl later ↦ covers k (omega arith) (omega arith)
          | inr now ↦ let same : c ≡ k = omega arith in kept' k (subst (HasFile s₁.files) same here)
        ]),
        (λ k has. kept' k (kept k has)),
        from' ∙ from,
      )

  -- Before the first slot the backfill is due; after a slot all is covered, that slot included.
  abbrev pub Covered : ℕ → ℕ → Soak → Type 0
  Covered f b s =
      (s.snapshot_backfill_from ≡ some f) ⊎ ((s.snapshot_backfill_from ≡ none) × Covers f b s.files)

  pub Covers-up_to :
      (f n : ℕ) (g h : Files) → Covers f n g → Kept g h → HasFile h n → Covers f (n + 1) h
  Covers-up_to f n g h covers kept here k lo hi = elim (lt_or_le k n) [
    | inl before ↦ kept k (covers k lo before)
    | inr now ↦ let same : n ≡ k = omega arith in subst (HasFile h) same here
  ]

  pub backfill-Covers :
      (f : ℕ) (slot : Slot) (a : Answers) (s s' : Soak)
      → ((n : ℕ) → NumberIs n (a.gap_slot n))
      → Covered f slot.number s
      → backfill json o slot a s ≡ (ok tt, s')
      → (s'.snapshot_backfill_from ≡ none) × Covers f slot.number s'.files
  unfolding backfill
  backfill-Covers f slot a s s' numbered covered h = go s.snapshot_backfill_from refl h
    where
      go :
          (b : Option ℕ)
          → s.snapshot_backfill_from ≡ b
          → (elim b as (λ _. Result Break (Unit {0}) × Soak) [
            | none ↦ (ok tt, s)
            | some from ↦
                backfill_missing_snapshots json o a
                  (range_from from (slot.number - from))
                  (record s { snapshot_backfill_from = none })
          ])
            ≡ (ok tt, s')
          → (s'.snapshot_backfill_from ≡ none) × Covers f slot.number s'.files
      go none e e' =
          let same : s ≡ s' = ap (λ q. q.1) e' in
          subst (λ t. (t.snapshot_backfill_from ≡ none) × Covers f slot.number t.files) same
            (elim covered [ inl due ↦ absurd (cc) | inr (done, covers) ↦ (done, covers) ])
      go (some from) e e' = elim covered [
        | inr (done, covers) ↦ absurd (cc)
        | inl due ↦
            let same : from ≡ f = ground arith in
            let (covers, _, taken) =
              gap-Covers a (slot.number - from) from (record s { snapshot_backfill_from = none }) s'
                numbered e' in
            (taken, λ k lo hi. covers k (omega arith) (omega arith))
      ]
