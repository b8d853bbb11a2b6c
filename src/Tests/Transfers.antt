-- ===== src/Tests/Transfers.antt =====
-- A transaction with a transfer of nothing, which fails: its sponsor pays the fee of 4, which
-- is above its MaxFee.
use haven_claw.Prelude.{
  ℕ, ◌+◌, ◌≤◌, ◌≡◌, refl, false, none, some, [], ◌∷◌, map, ◌==◌, bytes_comparable, replicate,
}
use haven_claw.Dict.{lookup, insert, delete}
use haven_claw.Bytes.{Bytes, to_be, from_be, uint64_at, put_uint64}
use haven_claw.SafeMath.{checked, checked-IsChecked}
use haven_claw.StateKeys.{complete_permissions, add, permission_of}
use haven_claw.TState.{Immutable, new, get_changed_value}
use haven_claw.TState.View.{
  View, new_view, get_value, read_value, read_below, insert_value, is_unchanged, insert_over,
}
use haven_claw.Mutable.Plain.{found}
use haven_claw.Mutable.Views.{view_mutable}
use haven_claw.Balances.{Failure, big_endian, big_endian-IsBigEndian}
use haven_claw.Balances.Handler.{balance_key, get_balance, deduct, can_deduct}
use haven_claw.Balances.Morpheus.{Transfer, TransferResult, transfer_state_keys, execute_transfer}
use haven_claw.Fees.Manager.{fee, set_unit_price, unit_price}
use haven_claw.Keys.{valid, max_chunks, verify_value}
use haven_claw.Operator as Operator
use haven_claw.Transactions.{
  execute_base, verify_timestamp, check_actions, ChainRules, Transaction, TxResult, Outcome, done,
  units, compute_loop, state_keys, action_keys, add_keys, key_loop, key_round,
}
use haven_claw.Transactions.Execution.{execute, run_actions, pre_execute}
use haven_claw.Fees.Dimensions.{Dimensions}
use haven_claw.Transactions.Execution.Admits.{pre_execute-execute}
use haven_claw.Transactions.Transfers.{transfer_action, prefix_handler}
use haven_claw.Transactions.Transfers.Writes.{failed_transfers-pay}

abbrev pub alice : Bytes
alice = 1 ∷ []

abbrev pub prefix : Bytes
prefix = 5 ∷ []

-- Alice has 7 to pay fees from.
abbrev pub disk : Immutable
disk k = found (lookup k ((balance_key prefix alice, to_be 8 7) ∷ []))

abbrev pub pack_result : TransferResult → Bytes
pack_result r = r.sender_balance ∷ r.receiver_balance ∷ []

abbrev pub error_text : Failure → Bytes
error_text e = 9 ∷ []

abbrev pub nothing : Transfer
nothing = record { to = []; value = 0; memo = [] }

abbrev pub rules : ChainRules
rules = record {
  chain_id = 1;
  validity_window = 60000;
  max_actions_per_tx = 16;
  base_compute_units = 1;
  storage_key_read_units = 5;
  storage_value_read_units = 2;
  storage_key_allocate_units = 20;
  storage_value_allocate_units = 5;
  storage_key_write_units = 10;
  storage_value_write_units = 3;
}

abbrev pub ids : ℕ → ℕ → ℕ
ids tx i = tx + i

abbrev pub tx : Transaction
tx = record {
  base = record { timestamp = 3000; chain_id = 1; max_fee = 3 };
  actions = map (transfer_action big_endian checked new pack_result error_text) (nothing ∷ []);
  auth = record {
    valid_range = λ r. (0, 10000);
    compute_units = λ r. 4;
    actor = alice;
    sponsor = alice;
  };
  size = 4;
  id = 0;
}

-- A price of 1 for each byte, and nothing for the other dimensions.
abbrev pub prices : Bytes
prices = set_unit_price 0 1 (replicate 488 0)

abbrev outcome : View × Outcome TxResult
outcome =
    execute checked ids (prefix_handler big_endian checked new prefix) tx prices rules
      (new_view complete_permissions disk) 2500

abbrev failure : TxResult
failure = record {
  success = false;
  error = 9 ∷ [];
  outputs = [];
  units = 4 ∷ 6 ∷ 21 ∷ 75 ∷ 39 ∷ [];
  charged = 4;
}

units_known :
    units checked ids (prefix_handler big_endian checked new prefix) tx rules ≡ done failure.units
unfolding units Operator.value Operator.add compute_loop Operator.new_uint64_operator state_keys
    action_keys add_keys transfer_state_keys insert add valid to_be key_loop max_chunks key_round
    Operator.mul_add from_be delete lookup permission_of
units_known = refl

fee_known : fee checked failure.units prices ≡ some 4
unfolding fee unit_price set_unit_price uint64_at put_uint64 to_be from_be
fee_known = refl

fails : outcome.1 ≡ done failure
unfolding execute deduct run_actions execute_transfer insert_value get_value new_view read_value
    lookup read_below get_changed_value new to_be from_be verify_value is_unchanged insert_over
fails = rw (units_known, fee_known) refl

alice_has :
    get_balance
      (view_mutable new)
      big_endian
      checked
      prefix
      (new_view complete_permissions disk)
      alice
    ≡ (7, none)
unfolding get_balance get_value new_view read_value lookup read_below get_changed_value new to_be
    from_be
alice_has = refl

failed_transfers-pay_example :
    (fee checked failure.units prices ≡ some 4)
    × (4 ≤ 7)
    × (get_balance (view_mutable new) big_endian checked prefix outcome.0 alice ≡ (3, none))
    × ((key : Bytes)
        → (balance_key prefix alice == key) ≡ false
        → get_value new outcome.0 key ≡ get_value new (new_view complete_permissions disk) key)
failed_transfers-pay_example =
    failed_transfers-pay big_endian checked new pack_result error_text checked-IsChecked
      big_endian-IsBigEndian prefix ids tx (nothing ∷ []) rules 2500 prices complete_permissions
      disk 7 failure refl alice_has fails refl

admitted :
    pre_execute checked ids (prefix_handler big_endian checked new prefix) tx prices rules disk 2500
    ≡ none
unfolding pre_execute execute_base verify_timestamp check_actions can_deduct lookup to_be from_be
admitted = rw (units_known, fee_known) refl

pre_execute-execute_example :
    (tx.base.chain_id ≡ rules.chain_id)
    × (1 ≤ 16)
    × (u : Dimensions) × (f : ℕ) × (units checked ids
          (prefix_handler big_endian checked new prefix)
          tx
          rules
        ≡ done u)
    × (fee checked u prices ≡ some f)
    × ((prefix_handler big_endian checked new prefix).can_deduct alice disk f ≡ none)
    × ((v : View) (later : ℕ)
        → ((prefix_handler big_endian checked new prefix).deduct alice v f).1 ≡ none
        → (res : TxResult) × ((execute checked ids
              (prefix_handler big_endian checked new prefix)
              tx
              prices
              rules
              v
              later).1
            ≡ done res))
pre_execute-execute_example =
    pre_execute-execute checked ids (prefix_handler big_endian checked new prefix) tx rules prices
      disk 2500 admitted
