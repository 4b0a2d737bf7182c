-- ===== src/Acceptance/Setup/Queries.antt =====
-- The transactions of the manual setup in scripts/acceptance-test/src/bin/setup.rs, what is compared when
-- one is sent, and the queries for the supply of the token.
pub mod Laws
use rollup_starter.Common.{
  ℕ, ◌+◌, ◌*◌, ◌-◌, Bool, true, false, ◌&&◌, String, List, [], ◌∷◌, ◌++◌, Option, none, some,
  Result, ok, err, ◌>>=◌, ◌>>◌, ok_or, ensure, ◌==◌, ltb, str_eq, if◌then◌else◌,
}
use rollup_starter.Common.Codes.{Codes, codes, is_ascii_digit, value_from, print}
use rollup_starter.Acceptance.Slots.{SlotError, texts_eq}
use rollup_starter.Acceptance.Shutdown.{WaitError}
use rollup_starter.Acceptance.Evm.{DeployError}

pub data ManualError : Type 0 where
  -- A failed assertion or `unwrap`.
  panicked : ManualError
  send_failed query_failed invalid_amount subscription_failed : ManualError
  not_ready : WaitError → ManualError
  slot_failed : SlotError → ManualError
  evm_failed : DeployError → ManualError
  -- The list of deliveries ends while the code waits.
  still_waiting : ManualError

-- The messages of the bank module, with the fields that the harness sets.
pub record CreateToken : Type 0 where
  pub token_name : String
  pub token_decimals : Option ℕ
  pub initial_balance : ℕ
  pub mint_to_address : String
  pub admins : List String
  pub supply_cap : Option ℕ

pub data BankCallMessage : Type 0 where
  create_token : CreateToken → BankCallMessage
  -- The amount, the token and the receiver.
  mint transfer : ℕ → Codes → String → BankCallMessage

pub record Txs : Type 0 where
  pub create : BankCallMessage
  pub minting : BankCallMessage
  pub transferring : BankCallMessage
  pub token_id : Codes

abbrev pub admin : String
admin = "0x9b08ce57a93751aE790698A2C9ebc76A78F23E25"

-- The argument is `get_token_id` of the SDK, printed.
unfoldable pub set_txs : (String → Option ℕ → String → Codes) → Txs
set_txs get_token_id =
    let token_id = get_token_id "acceptance-test-token" none admin in
    record {
      create = create_token (record {
        token_name = "acceptance-test-token";
        token_decimals = none;
        initial_balance = 1000;
        mint_to_address = admin;
        admins = admin ∷ [];
        supply_cap = none;
      });
      minting = mint 800 token_id admin;
      transferring = transfer 10 token_id "0x0000000000000000000000000000000000000000";
      token_id = token_id;
    }

-- An answer of the REST API; a body is given by its entry "amount", if that is a text.
pub data Reply : Type 0 where
  not_sent not_found other_status invalid_json : Reply
  success : Option Codes → Reply

abbrev pub u128_mod : ℕ
u128_mod = 340282366920938463463374607431768211456

abbrev all_digits : Codes → Bool
all_digits [] = true
all_digits (c ∷ s) = is_ascii_digit c && all_digits s

abbrev parse_unsigned : Codes → Option ℕ
parse_unsigned [] = none
parse_unsigned (c ∷ s) =
    if all_digits (c ∷ s) && ltb (value_from 0 (c ∷ s)) u128_mod
    then some (value_from 0 (c ∷ s))
    else none

-- `parse::<u128>`, which takes a plus sign.
unfoldable pub parse_u128 : Codes → Option ℕ
parse_u128 [] = none
parse_u128 (c ∷ s) = if c == 43 then parse_unsigned s else parse_unsigned (c ∷ s)

-- `get`: a missing resource is no error.
unfoldable pub get : Reply → Result ManualError (Option (Option Codes))
get not_sent = err query_failed
get not_found = ok none
get other_status = err query_failed
get invalid_json = err query_failed
get (success amount) = ok (some amount)

unfoldable pub amount_of : Option (Option Codes) → Result ManualError ℕ
unfolding parse_u128
amount_of none = ok 0
amount_of (some none) = err panicked
amount_of (some (some s)) = ok_or (parse_u128 s) invalid_amount

abbrev supply_path : Codes → Option ℕ → Codes
supply_path token_id none = codes "modules/bank/tokens/" ++ token_id ++ codes "/total-supply"
supply_path token_id (some slot_number) =
    codes "modules/bank/tokens/"
    ++ token_id
    ++ codes "/total-supply?slot_number="
    ++ print slot_number

-- `get_from_base_url` and the node that answers to the address.
unfoldable pub supply_url : Codes → Option ℕ → Codes
supply_url token_id slot_number =
    codes "http://127.0.0.1:12348" ++ codes "/" ++ supply_path token_id slot_number

unfoldable pub get_supply_archival : (Codes → Reply) → Codes → Option ℕ → Result ManualError ℕ
unfolding get amount_of
get_supply_archival node token_id slot_number = do
  body ← get (node (supply_url token_id slot_number))
  amount_of body

unfoldable pub get_supply : (Codes → Reply) → Codes → Result ManualError ℕ
unfolding get_supply_archival
get_supply node token_id = get_supply_archival node token_id none

pub record TxInfo : Type 0 where
  pub id : String
  pub events : List String
  pub tx_number : Option ℕ
  pub receipt : Option String

pub record ApiAcceptedTx : Type 0 where
  pub id : String
  pub events : List String
  pub tx_number : ℕ
  pub receipt : String

abbrev pub number_is : Option ℕ → ℕ → Bool
number_is none n = false
number_is (some k) n = k == n

abbrev pub receipt_is : Option String → String → Bool
receipt_is none r = true
receipt_is (some s) r = str_eq s r

unfoldable pub compare_tx_info_and_accepted_tx :
    TxInfo → ApiAcceptedTx → Result ManualError (Unit {0})
compare_tx_info_and_accepted_tx tx_info accepted_tx = do
  ensure (texts_eq tx_info.events accepted_tx.events) panicked
  ensure (str_eq tx_info.id accepted_tx.id) panicked
  ensure (number_is tx_info.tx_number accepted_tx.tx_number) panicked
  ensure (receipt_is tx_info.receipt accepted_tx.receipt) panicked

-- What the node does with a transaction: its answer, the next items of the two subscriptions, if they
-- come, and its answers to queries after it.
pub record Sending : Type 0 where
  pub accept_tx : BankCallMessage → Option TxInfo
  pub next_event : Option String
  pub next_tx : Option ApiAcceptedTx
  pub query : Codes → Reply

-- The only one of a list.
abbrev pub sole : List String → Option String
sole [] = none
sole (e ∷ []) = some e
sole (e ∷ f ∷ es) = none

-- A transaction is sent and compared with the sequencer's streams, and the supply with the expected one.
unfoldable pub send_and_check : Codes → BankCallMessage → ℕ → Sending → Result ManualError String
unfolding compare_tx_info_and_accepted_tx get_supply
send_and_check token_id message expected s = do
  response ← ok_or (s.accept_tx message) send_failed
  event ← ok_or (sole response.events) panicked
  next_event ← ok_or s.next_event panicked
  ensure (str_eq event next_event) panicked
  accepted_tx ← ok_or s.next_tx panicked
  compare_tx_info_and_accepted_tx response accepted_tx
  supply ← get_supply s.query token_id
  ensure (supply == expected) panicked
  ok event
