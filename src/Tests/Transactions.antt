-- ===== src/Tests/Transactions.antt =====
-- Tests of chain/transaction.go: a transaction with two actions, the second of which fails.
use haven_claw.Prelude.{
  ℕ, ◌+◌, ◌-◌, ◌^◌, ◌≡◌, refl, false, none, some, [], ◌∷◌, arith, replicate, bytes_comparable,
}
use haven_claw.Dict.{lookup, insert}
use haven_claw.Bytes.{Bytes, from_be, to_be, uint64_at}
use haven_claw.SafeMath.{checked, checked-IsChecked}
use haven_claw.StateKeys.{Keys, add, complete_permissions, all, permission_of}
use haven_claw.TState.{not_found, err, new}
use haven_claw.TState.View.{View, new_view, insert_value, rollback, op_index}
use haven_claw.TState.View.Rollback.{start, next, inserting, new_view-WritesMatch}
use haven_claw.Keys.{max_chunks, valid}
use haven_claw.Fees.Manager.{fee, unit_price}
use haven_claw.Operator as Operator
use haven_claw.Transactions.{
  ChainRules, returned, failed, Action, BalanceHandler, Transaction, TxResult, Outcome, done,
  state_keys, units, action_keys, add_keys, compute_loop, key_loop, key_round,
}
use haven_claw.Transactions.Units.{exact_units, declared_chunks, units-exact}
use haven_claw.Transactions.Execution.{execute, run_actions}
use haven_claw.Transactions.Execution.Atomic.{
  WriteBySteps, no_action, one_more, Settled, execute-Settled,
}

abbrev key : Bytes
key = 107 ∷ 0 ∷ 1 ∷ []

abbrev writer : Action
writer = record {
  valid_range = λ r. (2 ^ 64 - 1, 2 ^ 64 - 1);
  compute_units = λ r. 2;
  state_keys = λ actor id. (key, all) ∷ [];
  execute = λ r v timestamp actor id. ((insert_value new v key (7 ∷ [])).0, returned (1 ∷ []));
}

abbrev failing : Action
failing = record {
  valid_range = λ r. (2 ^ 64 - 1, 2 ^ 64 - 1);
  compute_units = λ r. 3;
  state_keys = λ actor id. [];
  execute = λ r v timestamp actor id. (v, failed (9 ∷ []));
}

-- The handler records the fee under a key of its own.
abbrev till : Bytes
till = 116 ∷ 0 ∷ 1 ∷ []

abbrev handler : BalanceHandler
handler = record {
  sponsor_state_keys = λ addr. (till, all) ∷ [];
  can_deduct = λ addr im amount. none;
  deduct = λ addr v amount. ((insert_value new v till (to_be 8 amount)).0, none);
}

abbrev rules : ChainRules
rules = record {
  chain_id = 1;
  validity_window = 60000;
  max_actions_per_tx = 16;
  base_compute_units = 1;
  storage_key_read_units = 5;
  storage_value_read_units = 2;
  storage_key_allocate_units = 20;
  storage_value_allocate_units = 5;
  storage_key_write_units = 10;
  storage_value_write_units = 3;
}

abbrev ids : ℕ → ℕ → ℕ
ids tx i = tx + i

abbrev tx : Transaction
tx = record {
  base = record { timestamp = 3000; chain_id = 1; max_fee = 100 };
  actions = writer ∷ failing ∷ [];
  auth = record {
    valid_range = λ r. (2 ^ 64 - 1, 2 ^ 64 - 1);
    compute_units = λ r. 4;
    actor = [];
    sponsor = [];
  };
  size = 50;
  id = 0;
}

abbrev declared : Keys
declared = (till, all) ∷ (key, all) ∷ []

tx_keys : state_keys checked ids handler tx ≡ some declared
unfolding state_keys action_keys add_keys add permission_of valid insert lookup
tx_keys = refl

suffixes : declared_chunks declared ≡ some (1 ∷ 1 ∷ [])
unfolding max_chunks from_be
suffixes = refl

units-exact_example : units checked ids handler tx rules ≡ exact_units rules tx (1 ∷ 1 ∷ [])
units-exact_example =
    units-exact checked checked-IsChecked ids handler tx rules declared (1 ∷ 1 ∷ []) (omega arith)
      tx_keys suffixes

abbrev empty : View
empty = new_view complete_permissions (λ k. err not_found)

abbrev outcome : View × Outcome TxResult
outcome = execute checked ids handler tx (replicate 488 0) rules empty 2500

abbrev failure : TxResult
failure = record {
  success = false;
  error = 9 ∷ [];
  outputs = (1 ∷ []) ∷ [];
  units = 50 ∷ 10 ∷ 14 ∷ 50 ∷ 26 ∷ [];
  charged = 0;
}

second_fails : outcome.1 ≡ done failure
unfolding execute units fee run_actions insert_value rollback op_index state_keys action_keys
    add_keys add valid max_chunks from_be uint64_at lookup insert compute_loop key_loop key_round
    unit_price Operator.value Operator.add Operator.new_uint64_operator Operator.mul_add
second_fails = refl

writes_by_steps : WriteBySteps tx.actions
writes_by_steps =
    one_more (λ r v timestamp actor id. next start (inserting new key (7 ∷ [])))
      (one_more (λ r v timestamp actor id. start) no_action)

execute-Settled_example :
    (units checked ids handler tx rules ≡ done failure.units)
    × (fee checked failure.units (replicate 488 0) ≡ some 0)
    × ((handler.deduct [] empty 0).1 ≡ none)
    × Settled checked ids handler tx rules 2500 writes_by_steps
        (handler.deduct [] empty 0).0
        outcome.0
        failure
execute-Settled_example =
    execute-Settled checked ids handler tx rules 2500 writes_by_steps (replicate 488 0) empty
      (new_view-WritesMatch complete_permissions (λ k. err not_found))
      (λ f. next start (inserting new till (to_be 8 f))) failure second_fails
