-- ===== src/Acceptance/Plan/Bounds/Laws.antt =====
-- What the recorded data's bounds are.
use rollup_starter.Common.{
  ℕ, ◌≤◌, max, String, List, [], ◌∷◌, Option, none, some, ok, map_err, ok_or, ◌≡◌, refl, sym, ap,
  ◌∙◌, ◌⊎◌, inl, inr, arith, All, Any, >>=-eq-ok, map_err-eq-ok,
}
use mathlib.Core.Path.{subst}
use rollup_starter.Acceptance.Slots.{Json, Files, load_snapshot_json}
use rollup_starter.Acceptance.Plan.Versions.{RecordedDataBounds}
use rollup_starter.Acceptance.Plan.Bounds.{
  number_of, larger, listed, load_failed, no_batch_end, last_slot, batch_end, bounds_of,
  recorded_data_bounds,
}

abbrev pub AtMost : ℕ → Option ℕ → Type 0
AtMost m none = Unit
AtMost m (some n) = n ≤ m

-- The entry can be read, and its name has no slot number or one that is at most `m`.
abbrev pub EntryAtMost : ℕ → Option (Option String) → Type 0
EntryAtMost m none = ⊥
EntryAtMost m (some name) = AtMost m (number_of name)

-- The entry's name has the slot number `m`.
abbrev pub EntryIs : ℕ → Option (Option String) → Type 0
EntryIs m none = ⊥
EntryIs m (some name) = number_of name ≡ some m

abbrev Highest : List (Option (Option String)) → Option ℕ → ℕ → Type 0
Highest entries h m =
    All (EntryAtMost m) entries × AtMost m h × ((h ≡ some m) ⊎ Any (EntryIs m) entries)

max_cases : (k n : ℕ) → (max k n ≡ k) ⊎ (max k n ≡ n)
max_cases k n = ground arith

add-Highest :
    (name : Option String) (entries : List (Option (Option String))) (h o : Option ℕ) (m : ℕ)
    → number_of name ≡ o
    → Highest entries (larger h o) m
    → Highest (some name ∷ entries) h m
add-Highest name entries h none m p (all, most, from) =
    ((rw p tt, all), most, elim from [ inl here ↦ inl here | inr later ↦ inr (inr later) ])
add-Highest name entries none (some n) m p (all, most, from) =
    ((rw p most, all), tt, inr (elim from [ inl here ↦ inl (p ∙ here) | inr later ↦ inr later ]))
add-Highest name entries (some k) (some n) m p (all, most, from) = (
  (rw p (omega arith), all),
  omega arith,
  elim from [
    | inr later ↦ inr (inr later)
    | inl here ↦ elim (max_cases k n) [
      | inl old ↦ inl (ap some (sym old) ∙ here)
      | inr new ↦ inr (inl (p ∙ ap some (sym new) ∙ here))
    ]
  ],
)

last_slot-Highest :
    (entries : List (Option (Option String))) (h : Option ℕ) (m : ℕ)
    → last_slot entries h ≡ ok (some m)
    → Highest entries h m
unfolding last_slot
last_slot-Highest [] h m e =
    let same : h ≡ some m = cc e in (tt, subst (AtMost m) (sym same) (omega arith), inl same)
last_slot-Highest (none ∷ entries) h m e = absurd (cc e)
last_slot-Highest (some name ∷ entries) h m e =
    add-Highest name entries h (number_of name) m refl
      (last_slot-Highest entries (larger h (number_of name)) m e)

module _ (json : Json) (as_u64 : json.Value → Option ℕ) (files : Files) where
  bounds_of-eq-ok :
      (h : Option ℕ) (b : RecordedDataBounds)
      → bounds_of json as_u64 files h ≡ ok (some b)
      → (h ≡ some b.last_slot_number)
        × ((snapshot : json.Value) × (load_snapshot_json json b.last_slot_number files
              ≡ ok snapshot)
            × (batch_end json as_u64 files snapshot ≡ some b.end_rollup_height))
  bounds_of-eq-ok none b e = absurd (cc e)
  bounds_of-eq-ok (some n) b e =
      let (snapshot, p, e₁) =
        >>=-eq-ok (map_err load_failed (load_snapshot_json json n files)) _ e in
      let (end, q, e₂) =
        >>=-eq-ok (ok_or (batch_end json as_u64 files snapshot) no_batch_end) _ e₁ in
      let number : n ≡ b.last_slot_number = ground arith in
      let height : end ≡ b.end_rollup_height = ground arith in
      let found : batch_end json as_u64 files snapshot ≡ some end = ground arith in
      (
        ap some number,
        (
          snapshot,
          subst (λ k. load_snapshot_json json k files ≡ ok snapshot) number
              (map_err-eq-ok load_failed _ p),
          found ∙ ap some height,
        ),
      )

  -- The last recorded slot is the largest number of a snapshot's name in the directory, and the data ends
  -- at the end of the batches in that slot's snapshot; every entry of the directory could be read.
  pub recorded_data_bounds-eq-ok :
      (entries : List (Option (Option String))) (b : RecordedDataBounds)
      → recorded_data_bounds json as_u64 files (listed entries) ≡ ok (some b)
      → All (EntryAtMost b.last_slot_number) entries
        × Any (EntryIs b.last_slot_number) entries
        × ((snapshot : json.Value) × (load_snapshot_json json b.last_slot_number files
              ≡ ok snapshot)
            × (batch_end json as_u64 files snapshot ≡ some b.end_rollup_height))
  unfolding recorded_data_bounds
  recorded_data_bounds-eq-ok entries b e =
      let (h, p, e₁) = >>=-eq-ok (last_slot entries none) _ e in
      let (last, snapshot) = bounds_of-eq-ok h b e₁ in
      let (all, _, from) = last_slot-Highest entries none b.last_slot_number (p ∙ ap ok last) in
      (all, elim from [ inl here ↦ absurd (cc here) | inr there ↦ there ], snapshot)
