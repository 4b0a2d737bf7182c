-- ===== src/Acceptance/Slots/Fetcher/Laws.antt =====
-- What a fetched slot and a fetched batch have in common with the node's other answers.
use mathlib.Core.Path.{subst}
use rollup_starter.Common.{
  ℕ, Bool, true, false, String, List, [], ◌∷◌, Option, some, ok, inl, inr, Bool-cases, ◌==◌, ok_or,
  ◌≡◌, sym, ap, ◌∙◌, arith, >>=-eq-ok, ensure-eq-ok, All,
}
use rollup_starter.Acceptance.Slots.{
  Slot, LedgerBatch, Json, Files, panicked, batch_eq, batches_eq, slot_to_json, read_file,
  missing_snapshot, save_slot_snapshot, validate_against_snapshot, load_snapshot_json,
  assert_slots_match_excluding_batches,
}
use rollup_starter.Acceptance.Slots.Laws.{
  batch_eq-eq, batches_eq-eq, with_batches, assert_slots_match-eq,
}
use rollup_starter.Acceptance.Slots.Monitor.{
  GetItemBehavior, save_snapshot, do_nothing, check_against_snapshot,
}
use rollup_starter.Acceptance.Slots.Fetcher.{
  Client, unspecified, x0, x1, answer, clear_txs, fetch_and_compare_batch, compare_batches,
  compare_slot_variations, fetch_and_compare_slot, handle_snapshot,
}

answer-eq-ok : {A : Type 0} (o : Option A) {a : A} → answer o ≡ ok a → o ≡ some a
answer-eq-ok o h = ground arith

abbrev pub Records : GetItemBehavior → Type 0
Records save_snapshot = Unit
Records check_against_snapshot = Unit
Records do_nothing = ⊥

-- There is a snapshot for the number.
abbrev pub Recorded : Files → ℕ → Type 0
Recorded files n = (text : String) × (read_file files n ≡ some text)

abbrev pub Kept : Files → Files → Type 0
Kept f g = (k : ℕ) → Recorded f k → Recorded g k

cons-Kept : (files : Files) (n : ℕ) (text : String) → Kept files ((n, text) ∷ files)
cons-Kept files n text k (old, h) = elim (Bool-cases (n == k)) [
  | inl same ↦ (text, simp same)
  | inr other ↦ (old, simp other h)
]

module _ (client : Client) where
  -- The four requests for a batch agree on it.
  abbrev pub BatchAgrees : ℕ → LedgerBatch → Type 0
  BatchAgrees n b =
      (client.get_batch_by_number n x1 ≡ some b)
      × (client.get_batch_by_number n unspecified ≡ some (clear_txs b))
      × (client.get_batch_by_hash b.hash x0 ≡ some (clear_txs b))
      × (client.get_batch_by_hash b.hash x1 ≡ some b)

  -- A batch that is fetched and compared is the answer to the requests by number and by its hash, and
  -- the answers without children are the batch without its transactions.
  pub fetch_and_compare_batch-BatchAgrees :
      (n : ℕ) (b : LedgerBatch) → fetch_and_compare_batch client n ≡ ok b → BatchAgrees n b
  unfolding fetch_and_compare_batch
  fetch_and_compare_batch-BatchAgrees n b h =
      let (plain, p, h₁) = >>=-eq-ok (answer (client.get_batch_by_number n unspecified)) _ h in
      let (hashed, q, h₂) = >>=-eq-ok (answer (client.get_batch_by_hash plain.hash x0)) _ h₁ in
      let (full, r, h₃) = >>=-eq-ok (answer (client.get_batch_by_number n x1)) _ h₂ in
      let (full_hashed, s, h₄) = >>=-eq-ok (answer (client.get_batch_by_hash plain.hash x1)) _ h₃ in
      let (e₁, h₅) = ensure-eq-ok (batch_eq plain hashed) panicked _ h₄ in
      let (e₂, h₆) = ensure-eq-ok (batch_eq full full_hashed) panicked _ h₅ in
      let (e₃, h₇) = ensure-eq-ok (batch_eq (clear_txs full) plain) panicked _ h₆ in
      let same_hashed = batch_eq-eq plain hashed e₁ in
      let same_full = batch_eq-eq full full_hashed e₂ in
      let same_plain = batch_eq-eq (clear_txs full) plain e₃ in
      let result : full ≡ b = cc in
      let stripped : plain ≡ clear_txs b = sym same_plain ∙ ap clear_txs result in
      let hash : plain.hash ≡ b.hash = ap (λ x. x.hash) stripped in
      (
        answer-eq-ok _ r ∙ ap some result,
        answer-eq-ok _ p ∙ ap some stripped,
        subst (λ k. client.get_batch_by_hash k x0 ≡ some (clear_txs b)) hash
            (answer-eq-ok _ q ∙ ap some (sym same_hashed ∙ stripped)),
        subst (λ k. client.get_batch_by_hash k x1 ≡ some b) hash
            (answer-eq-ok _ s ∙ ap some (sym same_full ∙ result)),
      )

  pub compare_batches-BatchAgrees :
      (bs : List LedgerBatch)
      → compare_batches client bs ≡ ok tt
      → All (λ b. BatchAgrees b.number b) bs
  unfolding compare_batches
  compare_batches-BatchAgrees [] h = tt
  compare_batches-BatchAgrees (b ∷ bs) h =
      let (c, p, h₁) = >>=-eq-ok (fetch_and_compare_batch client b.number) _ h in
      let (e, h₂) = ensure-eq-ok (batch_eq b c) panicked _ h₁ in
      let same = batch_eq-eq b c e in
      (
        subst (BatchAgrees b.number) (sym same) (fetch_and_compare_batch-BatchAgrees b.number c p),
        compare_batches-BatchAgrees bs h₂,
      )

  -- The four requests for a slot agree on it: with children entirely, else up to the batches.
  abbrev pub SlotAgrees : ℕ → Slot → Type 0
  SlotAgrees n s =
      (client.get_slot_by_number n x1 ≡ some s)
      × (client.get_slot_by_hash s.hash x1 ≡ some s)
      × ((bs : List LedgerBatch) × (client.get_slot_by_number n x0 ≡ some (with_batches s bs)))
      × ((bs : List LedgerBatch) × (client.get_slot_by_hash s.hash unspecified
            ≡ some (with_batches s bs)))

  module _ (json : Json) where
    compare_slot_variations-eq :
        (s w h k : Slot)
        → compare_slot_variations client json s w h k ≡ ok tt
        → (k ≡ s) × (w ≡ with_batches s w.batches) × (h ≡ with_batches s h.batches)
    unfolding compare_slot_variations
    compare_slot_variations-eq s w h k e =
        let (_, p, e₁) = >>=-eq-ok (assert_slots_match_excluding_batches s k) _ e in
        let (q, e₂) = ensure-eq-ok (batches_eq k.batches s.batches) panicked _ e₁ in
        let (_, r, e₃) = >>=-eq-ok (assert_slots_match_excluding_batches w h) _ e₂ in
        let (_, t, _) = >>=-eq-ok (assert_slots_match_excluding_batches s w) _ e₃ in
        let s_k = assert_slots_match-eq s k p in
        let same = batches_eq-eq k.batches s.batches q in
        let w_h = assert_slots_match-eq w h r in
        let s_w = assert_slots_match-eq s w t in
        let w_s = ap (λ x. with_batches x w.batches) (sym s_w) in
        (
          sym (s_k ∙ ap (with_batches k) (sym same)),
          w_s,
          ap (λ x. with_batches x h.batches) (sym w_h) ∙ ap (λ x. with_batches x h.batches) w_s,
        )

    handle_snapshot-Recorded :
        (writable : Bool) (behavior : GetItemBehavior) (s : Slot) (files files' : Files)
        → Records behavior
        → handle_snapshot client json writable behavior s files ≡ ok files'
        → Recorded files' s.number × Kept files files'
    unfolding handle_snapshot save_slot_snapshot validate_against_snapshot load_snapshot_json
    handle_snapshot-Recorded true save_snapshot s files files' records h =
        let text = json.to_string_pretty (slot_to_json json s false) in
        let saved : (s.number, text) ∷ files ≡ files' = ground arith in
        subst (λ f. Recorded f s.number × Kept files f) saved
          ((text, ground arith), cons-Kept files s.number text)
    handle_snapshot-Recorded false save_snapshot s files files' records h = absurd (cc h)
    handle_snapshot-Recorded writable do_nothing s files files' records h = absurd records
    handle_snapshot-Recorded writable check_against_snapshot s files files' records h =
        let (_, p, h₁) = >>=-eq-ok (validate_against_snapshot json s files) _ h in
        let (value, q, _) = >>=-eq-ok (load_snapshot_json json s.number files) _ p in
        let (text, r, _) = >>=-eq-ok (ok_or (read_file files s.number) missing_snapshot) _ q in
        let same : files ≡ files' = ground arith in
        let found : read_file files s.number ≡ some text = ground arith in
        subst (λ f. Recorded f s.number × Kept files f) same ((text, found), λ k has. has)

    -- A slot that is fetched and compared is the answer to the requests with children by number and
    -- by its hash; the answers without children differ from it at most in the batches, and each of its
    -- batches is what the requests for it answer.
    pub fetch_and_compare_slot-SlotAgrees :
        (writable : Bool) (n : ℕ) (behavior : GetItemBehavior) (files files' : Files) (s : Slot)
        → fetch_and_compare_slot client json writable n behavior files ≡ ok (s, files')
        → SlotAgrees n s × All (λ b. BatchAgrees b.number b) s.batches
    unfolding fetch_and_compare_slot
    fetch_and_compare_slot-SlotAgrees writable n behavior files files' s e =
        let (full, p, e₁) = >>=-eq-ok (answer (client.get_slot_by_number n x1)) _ e in
        let (plain, q, e₂) = >>=-eq-ok (answer (client.get_slot_by_number n x0)) _ e₁ in
        let (hashed, r, e₃) =
          >>=-eq-ok (answer (client.get_slot_by_hash full.hash unspecified)) _ e₂ in
        let (hashed_full, t, e₄) = >>=-eq-ok (answer (client.get_slot_by_hash full.hash x1)) _ e₃ in
        let (_, b, e₅) = >>=-eq-ok (compare_batches client full.batches) _ e₄ in
        let (_, v, e₆) =
          >>=-eq-ok (compare_slot_variations client json full plain hashed hashed_full) _ e₅ in
        let (_, _, e₇) =
          >>=-eq-ok (handle_snapshot client json writable behavior full files) _ e₆ in
        let result : full ≡ s = ground arith in
        let (x, y, z) = compare_slot_variations-eq full plain hashed hashed_full v in
        subst (λ u. SlotAgrees n u × All (λ b. BatchAgrees b.number b) u.batches) result
          (
            (
              answer-eq-ok _ p,
              answer-eq-ok _ t ∙ ap some x,
              (plain.batches, answer-eq-ok _ q ∙ ap some y),
              (hashed.batches, answer-eq-ok _ r ∙ ap some z),
            ),
            compare_batches-BatchAgrees full.batches b,
          )

    -- Under a behavior that saves or checks, a slot that is fetched has a snapshot under its number
    -- afterwards, and no snapshot is lost.
    pub fetch_and_compare_slot-Recorded :
        (writable : Bool) (n : ℕ) (behavior : GetItemBehavior) (files files' : Files) (s : Slot)
        → Records behavior
        → fetch_and_compare_slot client json writable n behavior files ≡ ok (s, files')
        → Recorded files' s.number × Kept files files'
    unfolding fetch_and_compare_slot
    fetch_and_compare_slot-Recorded writable n behavior files files' s records e =
        let (full, p, e₁) = >>=-eq-ok (answer (client.get_slot_by_number n x1)) _ e in
        let (plain, q, e₂) = >>=-eq-ok (answer (client.get_slot_by_number n x0)) _ e₁ in
        let (hashed, r, e₃) =
          >>=-eq-ok (answer (client.get_slot_by_hash full.hash unspecified)) _ e₂ in
        let (hashed_full, t, e₄) = >>=-eq-ok (answer (client.get_slot_by_hash full.hash x1)) _ e₃ in
        let (_, b, e₅) = >>=-eq-ok (compare_batches client full.batches) _ e₄ in
        let (_, v, e₆) =
          >>=-eq-ok (compare_slot_variations client json full plain hashed hashed_full) _ e₅ in
        let (files'', w, e₇) =
          >>=-eq-ok (handle_snapshot client json writable behavior full files) _ e₆ in
        let same : full ≡ s = ground arith in
        let here : files'' ≡ files' = ground arith in
        subst (λ u. Recorded files' u.number × Kept files files') same
          (subst (λ f. Recorded f full.number × Kept files f) here
            (handle_snapshot-Recorded writable behavior full files files'' records w))
