-- ===== src/Acceptance/Slots/Laws.antt =====
-- What the comparisons of slots say about the slots.
use mathlib.Core.Path.{ap₂}
use rollup_starter.Common.{true, String, List, [], ◌∷◌, ok, ◌≡◌, refl, arith, str_eq_iff}
use rollup_starter.Acceptance.Slots.{
  Slot, LedgerBatch, texts_eq, batch_eq, batches_eq, slots_match,
  assert_slots_match_excluding_batches,
}

pub texts_eq-eq : (ss ts : List String) → texts_eq ss ts ≡ true → ss ≡ ts
texts_eq-eq [] [] h = refl
texts_eq-eq (s ∷ ss) (t ∷ ts) h =
    ap₂ (λ x xs. x ∷ xs) ((str_eq_iff s t).0 (ground arith)) (texts_eq-eq ss ts (ground arith))
texts_eq-eq [] (t ∷ ts) h = absurd (cc h)
texts_eq-eq (s ∷ ss) [] h = absurd (cc h)

pub batch_eq-eq : (a b : LedgerBatch) → batch_eq a b ≡ true → a ≡ b
unfolding batch_eq
batch_eq-eq a b h =
    let hash = (str_eq_iff a.hash b.hash).0 (ground arith) in
    let txs = texts_eq-eq a.txs b.txs (ground arith) in
    let receipt = (str_eq_iff a.receipt b.receipt).0 (ground arith) in
    let number : a.number ≡ b.number = ground arith in
    let first : a.tx_range.0 ≡ b.tx_range.0 = ground arith in
    let last : a.tx_range.1 ≡ b.tx_range.1 = ground arith in
    let range : a.tx_range ≡ b.tx_range = ap₂ (λ x y. (x, y)) first last in
    ground (arith, hash, txs, receipt, number, range)

pub batches_eq-eq : (xs ys : List LedgerBatch) → batches_eq xs ys ≡ true → xs ≡ ys
unfolding batches_eq
batches_eq-eq [] [] h = refl
batches_eq-eq (a ∷ xs) (b ∷ ys) h =
    ap₂ (λ x l. x ∷ l) (batch_eq-eq a b (ground arith)) (batches_eq-eq xs ys (ground arith))
batches_eq-eq [] (b ∷ ys) h = absurd (cc h)
batches_eq-eq (a ∷ xs) [] h = absurd (cc h)

-- A slot with other batches.
abbrev pub with_batches : Slot → List LedgerBatch → Slot
with_batches s batches = record s { batches = batches }

-- Slots that match differ at most in their batches.
pub slots_match-eq : (a b : Slot) → slots_match a b ≡ true → a ≡ with_batches b a.batches
unfolding slots_match
slots_match-eq a b h =
    let status = (str_eq_iff a.finality_status b.finality_status).0 (ground arith) in
    let hash = (str_eq_iff a.hash b.hash).0 (ground arith) in
    let root = (str_eq_iff a.state_root b.state_root).0 (ground arith) in
    let type_ = (str_eq_iff a.type_ b.type_).0 (ground arith) in
    let number : a.number ≡ b.number = ground arith in
    let first : a.batch_range.0 ≡ b.batch_range.0 = ground arith in
    let last : a.batch_range.1 ≡ b.batch_range.1 = ground arith in
    let range : a.batch_range ≡ b.batch_range = ap₂ (λ x y. (x, y)) first last in
    let time : a.timestamp ≡ b.timestamp = ground arith in
    ground (arith, status, hash, root, type_, number, range, time)

pub assert_slots_match-eq :
    (a b : Slot) → assert_slots_match_excluding_batches a b ≡ ok tt → a ≡ with_batches b a.batches
unfolding assert_slots_match_excluding_batches
assert_slots_match-eq a b h = slots_match-eq a b (ground arith)
