-- ===== src/Tests/Processing.antt =====
-- Tests of the processing of blocks.
use haven_claw.Prelude.{
  ℕ, zero, suc, ◌↔◌, inr, ◌+◌, ◌≤◌, ◌≡◌, refl, some, [], ◌∷◌, map, bytes_comparable, length, arith,
}
use haven_claw.Dict.{Dict, lookup, insert, delete}
use haven_claw.Bytes.{Bytes, to_be, from_be, uint64_at, put_uint64}
use haven_claw.SafeMath.{checked, checked-IsChecked}
use haven_claw.StateKeys.{add, permission_of, keys_has, has, without_permissions}
use haven_claw.TState.{new, get_changed_value}
use haven_claw.TState.View.{
  new_view, get_value, read_value, read_below, insert_value, is_unchanged, insert_over, commit,
}
use haven_claw.Balances.{big_endian}
use haven_claw.Balances.Handler.{deduct, can_deduct}
use haven_claw.Balances.Morpheus.{transfer_state_keys, execute_transfer}
use haven_claw.Prelude.Words.{max_uint64}
use haven_claw.Fees.Dimensions.{at}
use haven_claw.Mutable.Plain.{plain, plain-IsStore}
use haven_claw.Metadata.{
  new_default_manager, has_conflicting_prefixes, conflict_loop, conflicts_with,
}
use haven_claw.Tests.Indexes.{parse_word, parse_word-IsParser}
use haven_claw.Blocks.Successor.{LateEnough, create-write_block_context}
use haven_claw.Fees.Manager.{
  raw_len, compute_next, new_manager, fee, set_unit_price, unit_price, consume, last_consumed,
  set_last_consumed, check_loop, commit_loop, fee_loop,
}
use haven_claw.Keys.{valid, max_chunks, verify_value, num_chunks}
use haven_claw.Operator as Operator
use haven_claw.Transactions.{
  execute_base, verify_timestamp, check_actions, units, compute_loop, state_keys, action_keys,
  add_keys, key_loop, key_round,
}
use haven_claw.Transactions.Execution.{execute, run_actions, pre_execute}
use haven_claw.Transactions.Transfers.{transfer_action, prefix_handler}
use haven_claw.Blocks.{
  BlockRules, BlockTransaction, BlockContext, StatelessBlock, made, create_block_context,
  write_block_context,
}
use haven_claw.Blocks.Processing.{
  Progress, immutable_storage, fetched, add_tx, add_txs, at_start, execute_txs,
}
use haven_claw.Blocks.Processing.Accounts.{Accounted, execute_txs-Accounted}
use haven_claw.Keys.{decode_chunks, encode_chunks}
use haven_claw.StateKeys.{chunk_sizes}
use haven_claw.Transactions.{Action}
use haven_claw.Transactions.Estimate.{
  AuthFactory, estimate_units, exact_estimate, estimate_units-exact,
}
use haven_claw.Balances.Handler.{balance_key}
use haven_claw.StateKeys.{Keys, without_permissions, keys_has}
use haven_claw.TState.{ok}
use haven_claw.TState.View.{get_value, new_view}
use haven_claw.Keys.{num_chunks}
use haven_claw.Blocks.Processing.{immutable_storage, fetched}
use haven_claw.Blocks.Processing.Fetching.{fetched-get_value}
use haven_claw.Tests.Transfers.{
  alice, prefix, disk, pack_result, error_text, nothing, rules, ids, tx, prices,
}

abbrev block_rules : BlockRules
block_rules = record {
  min_block_gap = 100;
  min_empty_block_gap = 750;
  max_block_units = 100 ∷ 100 ∷ 100 ∷ 200 ∷ 100 ∷ [];
  fees = record { target_units = []; change_denom = []; min_unit_price = [] };
  chain = rules;
}

abbrev block_tx : BlockTransaction
block_tx ts = record tx {
  actions = map (transfer_action big_endian checked ts pack_result error_text) (nothing ∷ []);
}

abbrev reached : Progress
reached =
    (add_txs checked ids (λ ts. prefix_handler big_endian checked ts prefix) disk block_rules 2500
      (block_tx ∷ [])
      (at_start checked ids (λ ts. prefix_handler big_endian checked ts prefix) disk block_rules
        2500 prices)).0

succeeds :
    execute_txs checked ids
      (λ ts. prefix_handler big_endian checked ts prefix)
      disk
      block_rules
      2500
      (block_tx ∷ [])
      prices
    ≡ made reached
unfolding execute_txs add_txs add_tx units Operator.value Operator.add compute_loop
    Operator.new_uint64_operator state_keys action_keys add_keys transfer_state_keys insert add
    valid to_be key_loop max_chunks key_round Operator.mul_add from_be delete lookup permission_of
    fee unit_price set_unit_price uint64_at put_uint64 execute deduct run_actions execute_transfer
    insert_value get_value new_view read_value read_below get_changed_value new verify_value
    is_unchanged insert_over pre_execute execute_base verify_timestamp check_actions can_deduct
    consume last_consumed set_last_consumed check_loop commit_loop fee_loop fetched keys_has has
    without_permissions immutable_storage commit num_chunks
succeeds = refl

units_small : (j : ℕ) → at block_rules.max_block_units j ≤ max_uint64
units_small zero = omega arith
units_small (suc zero) = omega arith
units_small (suc (suc zero)) = omega arith
units_small (suc (suc (suc zero))) = omega arith
units_small (suc (suc (suc (suc zero)))) = omega arith
units_small (suc (suc (suc (suc (suc j))))) = omega arith

prices_size : length prices ≡ raw_len
unfolding set_unit_price put_uint64 to_be
prices_size = refl

execute_txs-Accounted_example :
    Accounted block_rules 1
      (at_start checked ids
        (λ ts. prefix_handler big_endian checked ts prefix)
        disk
        block_rules
        2500
        prices)
      reached
execute_txs-Accounted_example =
    execute_txs-Accounted checked ids (λ ts. prefix_handler big_endian checked ts prefix) disk
      block_rules 2500 checked-IsChecked units_small (block_tx ∷ []) prices reached prices_size
      succeeds

abbrev parent : BlockContext
parent = record { height = 4; timestamp = 2000; fee_manager = prices }

abbrev child : StatelessBlock
child = record { tmstmp = 2500; hght = 5; txs = block_tx ∷ []; state_root = 0 }

abbrev written : Dict Bytes Bytes
written = (write_block_context plain new_default_manager parent []).0

create-write_block_context_example :
    (create_block_context checked parse_word new_default_manager
        (plain.get_value written)
        child
        block_rules
      ≡ made record { height = 5; timestamp = 2500; fee_manager = prices })
    ↔ ((child.hght ≡ parent.height + 1)
        × LateEnough block_rules child 2000
        × (child.hght ≡ child.hght)
        × (child.tmstmp ≡ child.tmstmp)
        × (compute_next checked 2500 block_rules.fees (new_manager prices) ≡ some prices))
unfolding write_block_context has_conflicting_prefixes conflict_loop conflicts_with
    new_default_manager lookup
create-write_block_context_example =
    create-write_block_context checked parse_word parse_word-IsParser plain plain-IsStore
      new_default_manager parent [] block_rules child 5 2500 prices refl (inr refl) (inr refl)
      (inr refl) refl (omega arith) (omega arith) (omega arith) (omega arith)

abbrev factory : AuthFactory
factory = record { address = alice; bandwidth = 8; compute = 4 }

action_bytes : Action → Bytes
action_bytes a = 0 ∷ []

estimate_units-exact_example :
    estimate_units checked action_bytes ids rules (1 ∷ []) tx.actions factory
    ≡ exact_estimate action_bytes rules tx.actions factory (1 ∷ 1 ∷ 1 ∷ [])
unfolding transfer_state_keys insert add valid to_be max_chunks from_be delete lookup permission_of
    chunk_sizes decode_chunks encode_chunks
estimate_units-exact_example =
    estimate_units-exact checked checked-IsChecked action_bytes ids rules tx.actions factory
      (1 ∷ []) (1 ∷ 1 ∷ []) (omega arith) refl

abbrev balance_keys : Keys
balance_keys = (balance_key prefix alice, 1) ∷ []

abbrev stored : Dict Bytes Bytes
stored = (balance_key prefix alice, to_be 8 7) ∷ []

fetches : fetched disk (without_permissions balance_keys) ≡ ok stored
unfolding fetched without_permissions num_chunks lookup insert to_be from_be
fetches = refl

fetched-get_value_example :
    get_value new
      (new_view (keys_has balance_keys) (immutable_storage stored))
      (balance_key prefix alice)
    ≡ get_value new (new_view (keys_has balance_keys) disk) (balance_key prefix alice)
fetched-get_value_example =
    fetched-get_value disk balance_keys stored new (balance_key prefix alice) fetches
