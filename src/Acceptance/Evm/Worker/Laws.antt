-- ===== src/Acceptance/Evm/Worker/Laws.antt =====
-- The contract accepts every update that a worker sends.
use rollup_starter.Common.{
  ℕ, ◌+◌, ◌<◌, List, [], ◌∷◌, some, Result, ok, err, ◌≡◌, ap, arith, length, u64_mod, min, ◌-◌,
}
use rollup_starter.Common.Exec.{continue_with}
use rollup_starter.Common.Codes.{Codes}
use rollup_starter.Acceptance.Evm.{Address}
use rollup_starter.Acceptance.Evm.Worker.{
  EvmWorker, EvmEnd, start, send_update, send_updates, update_rounds, Chain, update, execute,
  execute_all,
}

-- The chain that the worker believes in.
abbrev pub chain_of : EvmWorker → Chain
chain_of w = record { account_nonce = w.nonce; value = w.expected_value }

module _ (from_ contract : Address) (begin : Chain) where
  -- The accepted transactions, executed from the start, lead to the chain that the worker believes in,
  -- and their number is the growth of the nonce.
  pub record Synced (w : EvmWorker) : Type 0 where
    pub runs :
        begin.account_nonce + length w.accepted < u64_mod
        → (execute_all contract w.accepted begin ≡ some (chain_of w))
          × (w.nonce ≡ begin.account_nonce + length w.accepted)

  send_update-Synced :
      (answer : Result Codes (Unit {0})) (w : EvmWorker)
      → Synced w
      → Synced (send_update from_ contract answer w).1
  unfolding send_update execute_all execute update
  send_update-Synced (err message) w s = s
  send_update-Synced (ok done) w s = record {
    runs = λ small.
        let (runs, nonce) = s.runs (omega arith) in
        let next : min (w.nonce + 1) (u64_mod - 1) ≡ w.nonce + 1 = omega arith in
        (rw runs (rw next (ground arith)), omega arith);
  }

  send_updates-Synced :
      (answers : List (Result Codes (Unit {0}))) (w : EvmWorker)
      → Synced w
      → Synced (send_updates from_ contract answers w).1
  unfolding send_updates
  send_updates-Synced [] w s = s
  send_updates-Synced (answer ∷ answers) w s =
      go (λ w'. send_updates-Synced answers w') (send_update from_ contract answer w)
        (send_update-Synced answer w s)
    where
      go :
          ((w' : EvmWorker) → Synced w' → Synced (send_updates from_ contract answers w').1)
          → (r : Result EvmEnd (Unit {0}) × EvmWorker) → Synced r.1
          → Synced (continue_with (λ _. send_updates from_ contract answers) r).1
      go ih (ok _, w') s = ih w' s
      go ih (err _, w') s = s

  update_rounds-Synced :
      (rounds : List (List (Result Codes (Unit {0})))) (w : EvmWorker)
      → Synced w
      → Synced (update_rounds from_ contract rounds w).1
  unfolding update_rounds
  update_rounds-Synced [] w s = s
  update_rounds-Synced (round ∷ rounds) w s =
      go (λ w'. update_rounds-Synced rounds w') (send_updates from_ contract round w)
        (send_updates-Synced round w s)
    where
      go :
          ((w' : EvmWorker) → Synced w' → Synced (update_rounds from_ contract rounds w').1)
          → (r : Result EvmEnd (Unit {0}) × EvmWorker) → Synced r.1
          → Synced (continue_with (λ _. update_rounds from_ contract rounds) r).1
      go ih (ok _, w') s = ih w' s
      go ih (err _, w') s = s

start-eq-ok :
    (count : ℕ) (value_answer : Result Codes Codes) (w : EvmWorker)
    → start count value_answer ≡ ok w
    → (w.accepted ≡ []) × (w.nonce ≡ count)
unfolding start
start-eq-ok count (err e) w h = absurd (cc h)
start-eq-ok count (ok raw) w h = ground arith

-- The transactions of a worker that the sequencer has accepted, executed in their order by the contract
-- from the transaction count and the value that the worker started with, are all executed, and lead to
-- the nonce and the value that the worker goes on with; however the rounds go, if the nonces stay below
-- the largest u64.
pub update_rounds-execute_all :
    (from_ contract : Address) (count : ℕ) (value_answer : Result Codes Codes) (w : EvmWorker)
    → start count value_answer ≡ ok w
    → (rounds : List (List (Result Codes (Unit {0}))))
    → let after : EvmWorker = (update_rounds from_ contract rounds w).1 in
      count + length after.accepted < u64_mod
      → execute_all contract after.accepted (chain_of w) ≡ some (chain_of after)
unfolding start execute_all
update_rounds-execute_all from_ contract count value_answer w begun rounds small =
    let (none_yet, same) = start-eq-ok count value_answer w begun in
    let synced : Synced from_ contract (chain_of w) w = record {
      runs = λ _. (rw (none_yet, execute_all), rw (ap length none_yet) (omega arith));
    } in
    ((update_rounds-Synced from_ contract (chain_of w) rounds w synced).runs (omega arith)).0
