-- ===== src/Blocks/Processing.antt =====
-- executeTxs of hypersdk/chain/processor.go, with the fetching of hypersdk/internal/fetcher/fetcher.go
-- and hypersdk/state/storage.go: the transactions of a block over one temporary state and one fee
-- manager. The executor is taken to finish each task as it is queued, which is one of its orders, and
-- the fetcher to have read the keys by then.
pub mod Steps
pub mod Fetching
pub mod Accounts
use haven_claw.Prelude.{
  ℕ, Bool, true, false, Option, none, some, List, [], ◌∷◌, ◌++◌, length, bytes_comparable,
}
use haven_claw.Dict.{Dict, lookup, insert}
use haven_claw.Bytes.{Bytes}
use haven_claw.SafeMath.{SafeMath}
use haven_claw.Keys.{num_chunks}
use haven_claw.StateKeys.{Keys, keys_has, without_permissions}
use haven_claw.TState.{Error, invalid_key_value, not_found, Result, ok, err, Immutable, TState, new}
use haven_claw.TState.View.{View, new_view, get_value, commit}
use haven_claw.Mutable.Plain.{found}
use haven_claw.Fees.Dimensions.{Dimensions}
use haven_claw.Fees.Manager.{consume}
use haven_claw.Transactions.{
  ChainRules, BalanceHandler, Transaction, TxError, TxResult, Outcome, done, refused, state_keys,
  units,
}
use haven_claw.Transactions.Execution.{pre_execute, execute}
use haven_claw.Blocks.{
  BlockRules, BlockError, BlockTransaction, invalid_state_keys, units_failed,
  invalid_units_consumed, fetch_failed, transaction_failed, Checked, made, rejected,
}

-- ImmutableStorage
unfoldable pub immutable_storage : Dict Bytes Bytes → Immutable
immutable_storage storage key = found (lookup key storage)

-- A key that the worker read enters the storage, where what follows was read.
abbrev pub with_value :
    Bytes → Bytes → Option ℕ → Result (Dict Bytes Bytes) → Result (Dict Bytes Bytes)
with_value key v none rest = err invalid_key_value
with_value key v (some chunks) (ok storage) = ok (insert key v storage)
with_value key v (some chunks) (err e) = err e

abbrev pub with_read : Bytes → Result Bytes → Result (Dict Bytes Bytes) → Result (Dict Bytes Bytes)
with_read key (ok v) rest = with_value key v (num_chunks v) rest
with_read key (err not_found) rest = rest
with_read key (err e) rest = err e

-- What the workers read of these keys, and Get returns, or the error that stops them
unfoldable pub fetched : Immutable → List Bytes → Result (Dict Bytes Bytes)
fetched im [] = ok []
fetched im (key ∷ keys) = with_read key (im key) (fetched im keys)

-- What the loop has reached, with the first errors of the fetcher and of the executor.
pub record Progress : Type 0 where
  pub ts : TState
  pub fee_manager : Bytes
  pub results : List TxResult
  pub fetch_error : Option Error
  pub task_error : Option BlockError

module _ (m : SafeMath) (create_action_id : ℕ → ℕ → ℕ) (balance_handler : TState → BalanceHandler)
    (im : Immutable) (r : BlockRules) (timestamp : ℕ) where
  abbrev pub keys_in : TState → BlockTransaction → Option Keys
  keys_in ts tx = state_keys m create_action_id (balance_handler ts) (tx ts)

  abbrev pub units_in : TState → BlockTransaction → Outcome Dimensions
  units_in ts tx = units m create_action_id (balance_handler ts) (tx ts) r.chain

  -- The task behind the read keys: the view of the transaction, PreExecute, Execute and Commit
  abbrev pub finish : Progress → View × Outcome TxResult → Progress
  finish p (v, refused e) = record p { task_error = some (transaction_failed e) }
  finish p (v, done result) = record p { ts = commit p.ts v; results = p.results ++ result ∷ [] }

  abbrev pub admit : Progress → BlockTransaction → View → Option TxError → Progress
  admit p tx v (some e) = record p { task_error = some (transaction_failed e) }
  admit p tx v none = finish p (
      execute m create_action_id (balance_handler p.ts) (tx p.ts) p.fee_manager r.chain v timestamp)

  abbrev pub start_task : Progress → BlockTransaction → View → Progress
  start_task p tx v = admit p tx v (
      pre_execute m create_action_id (balance_handler p.ts) (tx p.ts) p.fee_manager r.chain
        (get_value p.ts v) timestamp)

  -- The task on what Get returns: it is skipped where the executor has an error.
  abbrev pub run_task :
      Progress → BlockTransaction → Keys → Option BlockError → Result (Dict Bytes Bytes) → Progress
  run_task p tx keys (some e) (ok storage) = p
  run_task p tx keys none (ok storage) =
      start_task p tx (new_view (keys_has keys) (immutable_storage storage))
  run_task p tx keys (some e) (err x) = record p { fetch_error = some x }
  run_task p tx keys none (err x) = record p {
    fetch_error = some x;
    task_error = some (fetch_failed x);
  }

  -- What a transaction adds to the progress of the loop: units are consumed, and then Fetch returns
  -- an error that stopped the fetcher before.
  abbrev pub queue :
      Progress → BlockTransaction → Keys → Option Error → Progress × Option BlockError
  queue p tx keys (some e) = (p, some (fetch_failed e))
  queue p tx keys none =
      (run_task p tx keys p.task_error (fetched im (without_permissions keys)), none)

  abbrev pub consumed :
      Progress → BlockTransaction → Keys → Bytes × Bool × ℕ → Progress × Option BlockError
  consumed p tx keys (fees, false, d) =
      (record p { fee_manager = fees }, some (invalid_units_consumed d))
  consumed p tx keys (fees, true, d) = queue (record p { fee_manager = fees }) tx keys p.fetch_error

  abbrev pub with_units :
      Progress → BlockTransaction → Keys → Outcome Dimensions → Progress × Option BlockError
  with_units p tx keys (refused e) = (p, some (units_failed e))
  with_units p tx keys (done u) = consumed p tx keys (consume m u r.max_block_units p.fee_manager)

  abbrev pub with_keys : Progress → BlockTransaction → Option Keys → Progress × Option BlockError
  with_keys p tx none = (p, some invalid_state_keys)
  with_keys p tx (some keys) = with_units p tx keys (units_in p.ts tx)

  unfoldable pub add_tx : Progress → BlockTransaction → Progress × Option BlockError
  add_tx p tx = with_keys p tx (keys_in p.ts tx)

  -- The loop up to the first error that it returns
  abbrev pub go_on :
      (Progress → Progress × Option BlockError)
      → Progress × Option BlockError
      → Progress × Option BlockError
  go_on rest (p, some e) = (p, some e)
  go_on rest (p, none) = rest p

  unfoldable pub add_txs : List BlockTransaction → Progress → Progress × Option BlockError
  add_txs [] p = (p, none)
  add_txs (tx ∷ txs) p = go_on (add_txs txs) (add_tx p tx)

  -- Wait of the fetcher, and then of the executor, where the loop has gone over all transactions
  abbrev pub ended : Progress → Option Error → Option BlockError → Checked Progress
  ended p (some e) task_error = rejected (fetch_failed e)
  ended p none (some e) = rejected e
  ended p none none = made p

  abbrev pub waited : Progress × Option BlockError → Checked Progress
  waited (p, some e) = rejected e
  waited (p, none) = ended p p.fetch_error p.task_error

  abbrev pub at_start : Bytes → Progress
  at_start fee_manager = record {
    ts = new;
    fee_manager = fee_manager;
    results = [];
    fetch_error = none;
    task_error = none;
  }

  unfoldable pub execute_txs : List BlockTransaction → Bytes → Checked Progress
  execute_txs txs fee_manager = waited (add_txs txs (at_start fee_manager))
