-- ===== src/Transactions/Transfers.antt =====
-- Transactions of the example VM: transfers as actions, and the handler that fees are paid by. Both
-- write the view by Insert and Remove alone. The parent of the view is the one at the start.
pub mod Writes
use haven_claw.Prelude.{ℕ, ◌-◌, ◌^◌, Option, none, some, []}
use haven_claw.Bytes.{Bytes}
use haven_claw.SafeMath.{SafeMath}
use haven_claw.TState.{TState}
use haven_claw.TState.View.{View}
use haven_claw.Mutable.Views.{view_mutable}
use haven_claw.Balances.{Failure, Uint64Codec, invalid_balance}
use haven_claw.Balances.Handler.{sponsor_state_keys, can_deduct, deduct}
use haven_claw.Balances.Morpheus.{Transfer, TransferResult, execute_transfer, transfer_state_keys}
use haven_claw.Transactions.{Output, returned, failed, Action, BalanceHandler}

-- TransferComputeUnits
abbrev transfer_compute_units : ℕ
transfer_compute_units = 1

-- -1, as an int64
abbrev minus_one : ℕ
minus_one = 2 ^ 64 - 1

module _ (c : Uint64Codec) (sm : SafeMath) (ts : TState) where
  -- The packed result and the text of an error are the arguments.
  module _ (pack_result : TransferResult → Bytes) (error_text : Failure → Bytes) where
    abbrev pub output_of : (Option TransferResult) → Option Failure → Output
    output_of result (some e) = failed (error_text e)
    output_of (some result) none = returned (pack_result result)
    output_of none none = returned []

    -- Transfer as a chain.Action.
    abbrev pub transfer_action : Transfer → Action
    transfer_action t = record {
      valid_range = λ r. (minus_one, minus_one);
      compute_units = λ r. transfer_compute_units;
      state_keys = λ actor id. transfer_state_keys t actor;
      execute = λ r v timestamp actor id.
          let x = execute_transfer (view_mutable ts) c sm t v actor in (x.0, output_of x.1 x.2);
    }

  -- PrefixBalanceHandler as a chain.BalanceHandler.
  abbrev pub prefix_handler : Bytes → BalanceHandler
  prefix_handler prefix = record {
    sponsor_state_keys = sponsor_state_keys prefix;
    can_deduct = λ addr im amount. can_deduct (view_mutable ts) c sm prefix im addr amount;
    deduct = λ addr v amount. deduct (view_mutable ts) c sm prefix v addr amount;
  }
