-- ===== src/Acceptance/Consistency/Polling.antt =====
-- The heights that the worker waits for.
use mathlib.Core.Path.{subst}
use rollup_starter.Common.{
  ℕ, zero, suc, ◌+◌, ◌≤◌, ◌<◌, true, false, Option, none, some, Result, ok, err, ◌≡◌, refl, ap, ◌∙◌,
  ◌⊎◌, inl, inr, arith, ltb, leb, ◌==◌, Bool-cases,
}
use rollup_starter.Acceptance.Consistency.{
  Node, PollError, phase1, phase2, after_phase1, poll_for_api_state_update,
}

module _ (node : Node) where
  phase1-eq-ok :
      (n a q q' : ℕ) (h : ℕ × ℕ)
      → phase1 node n a q ≡ ok (h, q')
      → (t : ℕ) × (s : ℕ) × (q ≤ t)
        × (t < q + a)
        × (q' ≡ t + 1)
        × (node.true_slot_number t ≡ some s)
        × (n ≤ s)
        × (node.current_heights t ≡ some h)
  unfolding phase1
  phase1-eq-ok n zero q q' h e = absurd (cc e)
  phase1-eq-ok n (suc a) q q' h e =
      go (phase1-eq-ok n a (q + 1) q' h) (node.true_slot_number q) refl (node.current_heights q)
        refl e
    where
      Found : ℕ → ℕ → Type 0
      Found a q =
          (t : ℕ) × (s : ℕ) × (q ≤ t)
          × (t < q + a)
          × (q' ≡ t + 1)
          × (node.true_slot_number t ≡ some s)
          × (n ≤ s)
          × (node.current_heights t ≡ some h)

      go :
          (phase1 node n a (q + 1) ≡ ok (h, q') → Found a (q + 1))
          → (o : Option ℕ) → node.true_slot_number q ≡ o
          → (k : Option (ℕ × ℕ)) → node.current_heights q ≡ k
          → (elim o [
            | none ↦ err PollError.query_failed
            | some true_slot ↦ elim k [
              | none ↦ err PollError.query_failed
              | some heights ↦ elim (leb n true_slot) [
                | true ↦ ok (heights, q + 1)
                | false ↦ phase1 node n a (q + 1)
              ]
            ]
          ])
            ≡ ok (h, q')
          → Found (suc a) q
      go ih none p k r e = absurd (cc e)
      go ih (some s) p none r e = absurd (cc e)
      go ih (some s) p (some k) r e = elim (Bool-cases (leb n s)) [
        | inl seen ↦
            let e' = rw seen at e in
            let heights : k ≡ h = cc e' in
            (q, s, omega arith, omega arith, cc e', p, ground arith, r ∙ ap some heights)
        | inr unseen ↦
            let (t, s', lo, hi, c, d, f, g) = ih (rw unseen at e) in
            (t, s', omega arith, omega arith, c, d, f, g)
      ]

  phase2-eq-ok :
      (start a q : ℕ) (h : ℕ × ℕ)
      → phase2 node start a q ≡ ok h
      → (t : ℕ) × (q ≤ t)
        × (t < q + a)
        × (node.current_heights t ≡ some h)
        × ((start < h.0) ⊎ (t + 1 ≡ q + a))
  unfolding phase2
  phase2-eq-ok start zero q h e = absurd (cc e)
  phase2-eq-ok start (suc a) q h e =
      go a (phase2-eq-ok start a (q + 1) h) (node.current_heights q) refl e
    where
      Found : ℕ → ℕ → Type 0
      Found a q =
          (t : ℕ) × (q ≤ t)
          × (t < q + a)
          × (node.current_heights t ≡ some h)
          × ((start < h.0) ⊎ (t + 1 ≡ q + a))

      now :
          (a : ℕ) (k : ℕ × ℕ)
          → node.current_heights q ≡ some k
          → k ≡ h
          → (start < k.0) ⊎ (q + 1 ≡ q + suc a)
          → Found (suc a) q
      now a k r same why = (
        q,
        omega arith,
        omega arith,
        r ∙ ap some same,
        subst (λ x. (start < x.0) ⊎ (q + 1 ≡ q + suc a)) same why,
      )

      last :
          (a : ℕ)
          → (phase2 node start a (q + 1) ≡ ok h → Found a (q + 1))
          → (k : ℕ × ℕ) → node.current_heights q ≡ some k
          → (elim (a == 0) [ true ↦ ok k | false ↦ phase2 node start a (q + 1) ]) ≡ ok h
          → Found (suc a) q
      last a ih k r e = elim (Bool-cases (a == 0)) [
        | inl done ↦ now a k r (cc (rw done at e)) (inr (ground arith))
        | inr more ↦
            let (t, lo, hi, heights, why) = ih (rw more at e) in
            (
              t,
              omega arith,
              omega arith,
              heights,
              elim why [ inl grown ↦ inl grown | inr end ↦ inr (omega arith) ],
            )
      ]

      go :
          (a : ℕ)
          → (phase2 node start a (q + 1) ≡ ok h → Found a (q + 1))
          → (k : Option (ℕ × ℕ)) → node.current_heights q ≡ k
          → (elim k [
            | none ↦ err PollError.query_failed
            | some heights ↦ elim (ltb start heights.0) [
              | true ↦ ok heights
              | false ↦ elim (a == 0) [ true ↦ ok heights | false ↦ phase2 node start a (q + 1) ]
            ]
          ])
            ≡ ok h
          → Found (suc a) q
      go a ih none r e = absurd (cc e)
      go a ih (some k) r e = elim (Bool-cases (ltb start k.0)) [
        | inl grown ↦ now a k r (cc (rw grown at e)) (inl (ground arith))
        | inr same ↦ last a ih k r (rw same at e)
      ]

  -- The heights that the worker goes on with were answered at most 20 queries after one, among the first
  -- 600, at which the node had seen the slot; they are above the height of that query, or the
  -- 20 queries have passed.
  pub poll_for_api_state_update-eq-ok :
      (notification : ℕ) (h : ℕ × ℕ)
      → poll_for_api_state_update node notification ≡ ok h
      → (seen : ℕ) × (slot : ℕ) × (start : ℕ × ℕ) × (t : ℕ) × (seen < 600)
        × (node.true_slot_number seen ≡ some slot)
        × (notification ≤ slot)
        × (node.current_heights seen ≡ some start)
        × (seen < t)
        × (t ≤ seen + 20)
        × (node.current_heights t ≡ some h)
        × ((start.0 < h.0) ⊎ (t ≡ seen + 20))
  unfolding poll_for_api_state_update
  poll_for_api_state_update-eq-ok notification h e = go (phase1 node notification 600 0) refl e
    where
      go :
          (r : Result PollError ((ℕ × ℕ) × ℕ))
          → phase1 node notification 600 0 ≡ r
          → after_phase1 node r ≡ ok h
          → (seen : ℕ) × (slot : ℕ) × (start : ℕ × ℕ) × (t : ℕ) × (seen < 600)
            × (node.true_slot_number seen ≡ some slot)
            × (notification ≤ slot)
            × (node.current_heights seen ≡ some start)
            × (seen < t)
            × (t ≤ seen + 20)
            × (node.current_heights t ≡ some h)
            × ((start.0 < h.0) ⊎ (t ≡ seen + 20))
      go (err x) p e = absurd (cc e)
      go (ok (start, q)) p e =
          let (seen, slot, _, few, q_lem, true_slot, reached, heights) =
            phase1-eq-ok notification 600 0 q start p in
          let (t, lo, hi, answer, why) = phase2-eq-ok start.0 20 q h e in
          (
            seen,
            slot,
            start,
            t,
            omega arith,
            true_slot,
            reached,
            heights,
            omega arith,
            omega arith,
            answer,
            elim why [ inl grown ↦ inl grown | inr end ↦ inr (omega arith) ],
          )
