-- ===== src/Acceptance/Evm/Tests.antt =====
-- A hex encoding, the signers' keys, and a worker that ends at the stop height.
use rollup_starter.Common.{
  ℕ, zero, suc, ◌+◌, ◌-◌, ◌*◌, ◌/◌, ◌%◌, ◌<◌, true, List, [], ◌∷◌, Option, none, some, map_some,
  Result, ok, err, ◌≡◌, refl, ap, arith, All, ltb, if◌then◌else◌, length, u64_mod,
}
use rollup_starter.Common.Codes.{Codes, codes}
use rollup_starter.Acceptance.Evm.{
  TransactionRequest, pending, receipt, RpcClient, deploy_contracts, tx_request, update_call,
  bytecode,
}
use rollup_starter.Acceptance.Evm.Keys.{Hex}
use rollup_starter.Acceptance.Evm.Keys.Laws.{pinned, unpinned, IsByte, key_of, key_of-injective}
use rollup_starter.Acceptance.Evm.Worker.{
  EvmWorker, stop_height_reached, start, update_rounds, execute_all,
}
use rollup_starter.Acceptance.Evm.Worker.Laws.{chain_of, update_rounds-execute_all}

abbrev hex_digit : ℕ → ℕ
hex_digit n = if ltb n 10 then 48 + n else 87 + n

abbrev digit_value : ℕ → ℕ
digit_value c = if ltb c 58 then c - 48 else c - 87

abbrev encode : Codes → Codes
encode [] = []
encode (b ∷ bytes) = hex_digit (b / 16) ∷ hex_digit (b % 16) ∷ encode bytes

abbrev decode : Codes → Option Codes
decode [] = some []
decode (c ∷ []) = none
decode (c ∷ d ∷ text) =
    map_some (λ bytes. (digit_value c * 16 + digit_value d) ∷ bytes) (decode text)

digit_value-hex_digit : (n : ℕ) → n < 16 → digit_value (hex_digit n) ≡ n
digit_value-hex_digit n h = ground arith

decode-encode : (bytes : Codes) → All IsByte bytes → decode (encode bytes) ≡ some bytes
decode-encode [] h = refl
decode-encode (b ∷ bytes) (h, hs) =
    let high = digit_value-hex_digit (b / 16) (omega arith) in
    let low = digit_value-hex_digit (b % 16) (omega arith) in
    rw (decode-encode bytes hs) (rw high (rw low (ap (λ x. some (x ∷ bytes)) (omega arith))))

abbrev hex : Hex
hex = record { decode = decode; encode = encode }

abbrev key_bytes : Codes
key_bytes =
    9 ∷ 116 ∷ 190 ∷ 195 ∷ 154 ∷ 23 ∷ 227 ∷ 107 ∷ 164 ∷ 166 ∷ 180 ∷ 210 ∷ 56 ∷ 255 ∷ 148 ∷ 75 ∷ 172
    ∷ 180 ∷ 120 ∷ 203 ∷ 237 ∷ 94 ∷ 252 ∷ 174 ∷ 120 ∷ 77 ∷ 123 ∷ 244 ∷ 242 ∷ 255 ∷ 128 ∷ []

-- The workers of a pinned and of an unpinned contract.
key_of-injective_example :
    ((k : Codes) × (key_of hex (pinned 4) ≡ ok k))
    × (key_of hex (pinned 4) ≡ key_of hex (unpinned 3) → pinned 4 ≡ unpinned 3)
key_of-injective_example =
    key_of-injective hex 172 key_bytes refl refl (omega arith) decode-encode (pinned 4) (unpinned 3)
      (omega arith) (omega arith)

abbrev zeros : ℕ → Codes → Codes
zeros zero rest = rest
zeros (suc n) rest = 0 ∷ zeros n rest

abbrev value_answer : Result Codes Codes
value_answer = ok (zeros 30 (1 ∷ 2 ∷ []))

abbrev started : EvmWorker
started = record { nonce = 7; expected_value = 258; accepted = [] }

start_runs : start 7 value_answer ≡ ok started
unfolding start
start_runs = refl

abbrev rounds : List (List (Result Codes (Unit {0})))
rounds = (ok tt ∷ ok tt ∷ []) ∷ (ok tt ∷ err (codes "at stop height") ∷ ok tt ∷ []) ∷ []

abbrev sent : List TransactionRequest
sent =
    tx_request 1 9 (some 2) (update_call 260 261) 200000
    ∷ tx_request 1 8 (some 2) (update_call 259 260) 200000
    ∷ tx_request 1 7 (some 2) (update_call 258 259) 200000
    ∷ []

rounds_run :
    update_rounds 1 2 rounds started
    ≡ (err stop_height_reached, record { nonce = 10; expected_value = 261; accepted = sent })
unfolding update_rounds
rounds_run = refl

few : 7 + length (update_rounds 1 2 rounds started).1.accepted < u64_mod
unfolding update_rounds
few = omega arith

update_rounds-execute_all_example :
    execute_all 2 (update_rounds 1 2 rounds started).1.accepted (chain_of started)
    ≡ some (chain_of (update_rounds 1 2 rounds started).1)
update_rounds-execute_all_example =
    update_rounds-execute_all 1 2 7 value_answer started start_runs rounds few

abbrev rpc : RpcClient
rpc = record {
  address = 5;
  transaction_count = 0;
  send_transaction = λ tx. ok (pending ∷ receipt true (some (100 + tx.nonce)) ∷ []);
}

deploy_runs : deploy_contracts rpc 3 2 [] ≡ (
  ok (103 ∷ 104 ∷ []),
  tx_request 5 4 none bytecode 5000000 ∷ tx_request 5 3 none bytecode 5000000 ∷ [],
)
unfolding deploy_contracts
deploy_runs = refl
