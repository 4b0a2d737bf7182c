-- ===== src/Acceptance/Setup/Manual/Tests.antt =====
-- A manual setup whose transactions are posted in the slots 1 and 2.
use rollup_starter.Common.{
  ℕ, true, false, ◌&&◌, String, List, [], ◌∷◌, Option, none, some, ok, ◌≡◌, refl, ◌==◌, str_eq,
  if◌then◌else◌,
}
use rollup_starter.Common.Codes.{Codes, codes, print}
use rollup_starter.Acceptance.Slots.{
  Slot, LedgerBatch, Json, batches_eq, slots_match, assert_slots_match_json_excluding_batches,
  Files, save_slot_snapshot, validate_against_snapshot,
}
use rollup_starter.Acceptance.Slots.Monitor.{Delivery, check_finalized}
use rollup_starter.Acceptance.Slots.Fetcher.{Client, Children, unspecified, x0, x1}
use rollup_starter.Acceptance.Evm.{receipt, RpcClient}
use rollup_starter.Acceptance.Setup.Queries.{Reply, success, Sending, supply_url, set_txs}
use rollup_starter.Acceptance.Setup.Manual.{ManualNode, do_manual_setup}
use rollup_starter.Acceptance.Setup.Manual.Checked.{Checked, do_manual_setup-Checked}

abbrev batch_1 : LedgerBatch
batch_1 = record {
  number = 1;
  hash = "b1";
  tx_range = (0, 1);
  txs = "created" ∷ [];
  receipt = "ok";
}

abbrev batch_2 : LedgerBatch
batch_2 = record {
  number = 2;
  hash = "b2";
  tx_range = (0, 1);
  txs = "minted" ∷ "transferred" ∷ [];
  receipt = "ok";
}

abbrev slot_at : ℕ → ℕ × ℕ → String → List LedgerBatch → Slot
slot_at n range hash batches = record {
  number = n;
  batch_range = range;
  finality_status = "finalized";
  hash = hash;
  state_root = "r";
  timestamp = 7;
  type_ = "slot";
  batches = batches;
}

abbrev slot_of : ℕ → Slot
slot_of n =
    if n == 0
    then slot_at 0 (0, 0) "h0" []
    else if n == 1
    then slot_at 1 (0, 1) "h1" (batch_1 ∷ [])
    else if n == 2
    then slot_at 2 (1, 2) "h2" (batch_2 ∷ [])
    else slot_at 3 (2, 2) "h3" []

abbrev number_of : String → ℕ
number_of hash =
    if str_eq hash "h0"
    then 0
    else if str_eq hash "h1"
    then 1
    else if str_eq hash "h2"
    then 2
    else 3

abbrev plain : Slot → Slot
plain s = record s { batches = [] }

abbrev pub json : Json
json = record {
  Value = Slot;
  null = slot_of 0;
  json_eq = λ a b. slots_match a b && batches_eq a.batches b.batches;
  get = λ key v. some v;
  set = λ key root v. v;
  remove = λ key v. plain v;
  to_value = λ s. s;
  from_value = λ v. some v;
  to_string_pretty = λ v. v.hash;
  from_str = λ s. some (slot_of (number_of s));
}

abbrev delivery : ℕ → ℕ → Option Delivery
delivery n finalized = some (record {
  slot = plain (slot_of n);
  slot_with_children = slot_of n;
  finalized = plain (slot_of finalized);
  finalized_with_children = slot_of finalized;
})

abbrev children : Children → Slot → Option Slot
children x0 s = some (plain s)
children x1 s = some s
children unspecified s = some (plain s)

abbrev with_txs : Children → LedgerBatch → Option LedgerBatch
with_txs x1 b = some b
with_txs x0 b = some (record b { txs = [] })
with_txs unspecified b = some (record b { txs = [] })

abbrev client : Client
client = record {
  get_batch_by_number = λ n c. with_txs c (if n == 1 then batch_1 else batch_2);
  get_batch_by_hash = λ h c. with_txs c (if str_eq h "b1" then batch_1 else batch_2);
  get_slot_by_number = λ n c. children c (slot_of n);
  get_slot_by_hash = λ h c. children c (slot_of (number_of h));
}

abbrev sending : String → ℕ → String → Sending
sending event number supply = record {
  accept_tx = λ message.
      some (record { id = event; events = event ∷ []; tx_number = some number; receipt = none });
  next_event = some event;
  next_tx = some (record { id = event; events = event ∷ []; tx_number = number; receipt = "ok" });
  query = λ url. success (some (codes supply));
}

abbrev last_code : Codes → ℕ
last_code [] = 0
last_code (c ∷ []) = c
last_code (c ∷ d ∷ s) = last_code (d ∷ s)

abbrev supply_at : ℕ → Reply
supply_at digit =
    if digit == 48
    then Reply.not_found
    else success (some (codes (if digit == 49 then "1000" else "1800")))

abbrev rpc : RpcClient
rpc = record {
  address = 9;
  transaction_count = 0;
  send_transaction = λ tx. ok (receipt true (some 5) ∷ []);
}

abbrev pub node : ManualNode
node = record {
  attempts = record { answers = true; past_deadline = false; signal = none } ∷ [];
  subscribes = true;
  get_token_id = λ name decimals admin. codes "token";
  initial_query = λ url. Reply.not_found;
  creating = sending "created" 0 "1000";
  minting = sending "minted" 1 "1800";
  transferring = sending "transferred" 2 "1800";
  deliveries = delivery 1 0 ∷ delivery 2 1 ∷ delivery 3 2 ∷ [];
  view = λ tx. record {
    number = if str_eq tx "transferred" then 2 else if str_eq tx "minted" then 1 else 0;
    events = tx ∷ [];
  };
  client = client;
  archive = λ url. supply_at (last_code url);
  privileged_rpc = rpc;
  unprivileged_rpc = rpc;
  write_metadata = λ contracts. ok tt;
}

-- The monitor saves the slots 1 to 3, and the fetcher slot 0.
abbrev recorded : Files
recorded = (0, "h0") ∷ (3, "h3") ∷ (2, "h2") ∷ (1, "h1") ∷ []

do_manual_setup_runs : do_manual_setup json true node [] ≡ (ok tt, recorded)
unfolding do_manual_setup supply_url assert_slots_match_json_excluding_batches check_finalized
    save_slot_snapshot validate_against_snapshot set_txs print
do_manual_setup_runs = refl

do_manual_setup-Checked_example : Checked json true node recorded
do_manual_setup-Checked_example =
    do_manual_setup-Checked json true node [] recorded do_manual_setup_runs
