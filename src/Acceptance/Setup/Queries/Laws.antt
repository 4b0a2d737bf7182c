-- ===== src/Acceptance/Setup/Queries/Laws.antt =====
-- What a transaction that passes the checks of the manual setup has in common with the sequencer's streams.
use rollup_starter.Common.{
  ℕ, Bool, true, false, String, List, [], ◌∷◌, Option, none, some, ok, ◌≡◌, refl, sym, ap, ◌∙◌,
  arith, >>=-eq-ok, ensure, ensure-eq-ok, ok_or, ◌==◌, ==_iff, str_eq, str_eq_iff,
}
use rollup_starter.Common.Codes.{Codes}
use rollup_starter.Acceptance.Slots.{texts_eq}
use rollup_starter.Acceptance.Slots.Laws.{texts_eq-eq}
use rollup_starter.Acceptance.Setup.Queries.{
  ManualError, panicked, send_failed, BankCallMessage, TxInfo, ApiAcceptedTx, number_is,
  compare_tx_info_and_accepted_tx, Sending, sole, get_supply, send_and_check,
}

-- The answer has one event, which the events' stream delivers; the stream of transactions delivers one
-- with the same number and the same events, and the supply after it is the expected one.
abbrev pub Sent : Codes → BankCallMessage → ℕ → Sending → String → Type 0
Sent token_id message expected s event =
    (response : TxInfo) × (accepted_tx : ApiAcceptedTx) × (s.accept_tx message ≡ some response)
    × (s.next_tx ≡ some accepted_tx)
    × (s.next_event ≡ some event)
    × (response.events ≡ event ∷ [])
    × (accepted_tx.events ≡ response.events)
    × (accepted_tx.id ≡ response.id)
    × (response.tx_number ≡ some accepted_tx.tx_number)
    × (get_supply s.query token_id ≡ ok expected)

sole-eq-some : (es : List String) (e : String) → sole es ≡ some e → es ≡ e ∷ []
sole-eq-some [] e h = absurd (cc h)
sole-eq-some (f ∷ []) e h = cc
sole-eq-some (f ∷ g ∷ es) e h = absurd (cc h)

ok_or-some : {A : Type 0} (o : Option A) (e : ManualError) {a : A} → ok_or o e ≡ ok a → o ≡ some a
ok_or-some o e h = ground arith

number_is-eq : (o : Option ℕ) (n : ℕ) → number_is o n ≡ true → o ≡ some n
number_is-eq none n h = absurd (cc h)
number_is-eq (some k) n h = ap some ((==_iff k n).0 h)

pub ensured : (b : Bool) → ensure b panicked ≡ ok tt → b ≡ true
ensured true h = refl
ensured false h = absurd (cc h)

compare_tx_info-eq :
    (r : TxInfo) (a : ApiAcceptedTx)
    → compare_tx_info_and_accepted_tx r a ≡ ok tt
    → (a.events ≡ r.events) × (a.id ≡ r.id) × (r.tx_number ≡ some a.tx_number)
unfolding compare_tx_info_and_accepted_tx
compare_tx_info-eq r a h =
    let (p, h₁) = ensure-eq-ok (texts_eq r.events a.events) panicked _ h in
    let (q, h₂) = ensure-eq-ok (str_eq r.id a.id) panicked _ h₁ in
    let (n, h₃) = ensure-eq-ok (number_is r.tx_number a.tx_number) panicked _ h₂ in
    (
      sym (texts_eq-eq r.events a.events p),
      sym ((str_eq_iff r.id a.id).0 q),
      number_is-eq r.tx_number a.tx_number n,
    )

pub send_and_check-Sent :
    (token_id : Codes) (message : BankCallMessage) (expected : ℕ) (s : Sending) (event : String)
    → send_and_check token_id message expected s ≡ ok event
    → Sent token_id message expected s event
unfolding send_and_check
send_and_check-Sent token_id message expected s event h =
    let (r, p, h₁) = >>=-eq-ok (ok_or (s.accept_tx message) send_failed) _ h in
    let (e, q, h₂) = >>=-eq-ok (ok_or (sole r.events) panicked) _ h₁ in
    let (f, t, h₃) = >>=-eq-ok (ok_or s.next_event panicked) _ h₂ in
    let (same, h₄) = ensure-eq-ok (str_eq e f) panicked _ h₃ in
    let (a, u, h₅) = >>=-eq-ok (ok_or s.next_tx panicked) _ h₄ in
    let (_, v, h₆) = >>=-eq-ok (compare_tx_info_and_accepted_tx r a) _ h₅ in
    let (supply, w, h₇) = >>=-eq-ok (get_supply s.query token_id) _ h₆ in
    let (x, h₈) = ensure-eq-ok (supply == expected) panicked _ h₇ in
    let (events, id, number) = compare_tx_info-eq r a v in
    let e_f = (str_eq_iff e f).0 same in
    let e_event : e ≡ event = ground arith in
    (
      r,
      a,
      ok_or-some (s.accept_tx message) send_failed p,
      ok_or-some s.next_tx panicked u,
      ok_or-some s.next_event panicked t ∙ ap some (sym e_f ∙ e_event),
      sole-eq-some r.events e (ok_or-some (sole r.events) panicked q) ∙ ap (λ y. y ∷ []) e_event,
      events,
      id,
      number,
      w ∙ ap ok ((==_iff supply expected).0 x),
    )
