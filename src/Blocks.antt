-- ===== src/Blocks.antt =====
-- hypersdk/chain/processor.go: the context of a block, which the state keeps from one block to the
-- next, and the execution of its transactions. The keys are those of hypersdk/chain/consts.go.
-- database.ParseUInt64 and the merkle root of a view are parameters; tracing and metrics are left out.

pub mod Context
pub mod Successor
pub mod Processing
use haven_claw.Prelude.{
  ℕ, ◌+◌, ◌%◌, ◌&&◌, Bool, true, false, Option, none, some, List, [], nat_beq, if◌then◌else◌,
  length,
}
use haven_claw.Prelude.Words.{u64_mod}
use haven_claw.Bytes.{Bytes, to_be}
use haven_claw.SafeMath.{SafeMath}
use haven_claw.Keys.{encode_chunks}
use haven_claw.TState.{Error, Result, ok, err, Immutable, TState}
use haven_claw.Mutable.{Mutable}
use haven_claw.Metadata.{MetadataManager}
use haven_claw.Fees.Dimensions.{Dimensions}
use haven_claw.Fees.Manager.{new_manager, compute_next}
use haven_claw.Fees.Manager as Manager
use haven_claw.Transactions.{Transaction, TxError, ChainRules, int64_lt}

-- A transaction, whose actions read the temporary state that they are given.
abbrev pub BlockTransaction : Type 0
BlockTransaction = TState → Transaction

pub record StatelessBlock : Type 0 where
  pub tmstmp : ℕ
  pub hght : ℕ
  pub txs : List BlockTransaction
  pub state_root : ℕ

-- What Rules gives for blocks and for their fees, and for transactions.
pub record BlockRules : Type 0 where
  pub min_block_gap : ℕ
  pub min_empty_block_gap : ℕ
  pub max_block_units : Dimensions
  pub fees : Manager.Rules
  pub chain : ChainRules

-- blockContext
pub record BlockContext : Type 0 where
  pub height : ℕ
  pub timestamp : ℕ
  pub fee_manager : Bytes

-- `fee_panic`: ComputeNext divides by zero.
pub data BlockError : Type 0 where
  failed_to_fetch_parent_height : Error → BlockError
  failed_to_parse_parent_height : Error → BlockError
  invalid_block_height : BlockError
  failed_to_fetch_parent_timestamp : Error → BlockError
  failed_to_parse_parent_timestamp : Error → BlockError
  timestamp_too_early : BlockError
  timestamp_too_early_empty_block : BlockError
  failed_to_fetch_parent_fee : Error → BlockError
  fee_panic : BlockError
  failed_to_insert : Error → BlockError
  root_failed : Error → BlockError
  state_root_mismatch : BlockError
  invalid_state_keys : BlockError
  units_failed : TxError → BlockError
  invalid_units_consumed : ℕ → BlockError
  fetch_failed : Error → BlockError
  transaction_failed : TxError → BlockError

pub data Checked {ℓ} (A : Type ℓ) : Type ℓ where
  made : A → Checked A
  rejected : BlockError → Checked A

abbrev pub height_key : Bytes → Bytes
height_key prefix = encode_chunks prefix 1

abbrev pub timestamp_key : Bytes → Bytes
timestamp_key prefix = encode_chunks prefix 1

abbrev pub fee_key : Bytes → Bytes
fee_key prefix = encode_chunks prefix 8

-- The number that GetValue and ParseUInt64 give, or the error of one of them
abbrev pub parsed_by : (Error → BlockError) → Result ℕ → Checked ℕ
parsed_by parse_error (ok n) = made n
parsed_by parse_error (err e) = rejected (parse_error e)

abbrev pub uint64_in :
    (Bytes → Result ℕ) → (Error → BlockError) → (Error → BlockError) → Result Bytes → Checked ℕ
uint64_in parse fetch_error parse_error (ok raw) = parsed_by parse_error (parse raw)
uint64_in parse fetch_error parse_error (err e) = rejected (fetch_error e)

-- The two tests of the time of a block, against that of its parent.
abbrev pub check_timestamp : BlockRules → StatelessBlock → ℕ → Option BlockError
check_timestamp r block parent_timestamp =
    if int64_lt block.tmstmp ((parent_timestamp + r.min_block_gap) % u64_mod)
    then some timestamp_too_early
    else (if nat_beq (length block.txs) 0
          && int64_lt block.tmstmp ((parent_timestamp + r.min_empty_block_gap) % u64_mod)
        then some timestamp_too_early_empty_block
        else none)

module _ (m : SafeMath) where
  -- The fee manager of the block, of what GetValue gives for that of its parent
  abbrev pub with_fees : BlockRules → StatelessBlock → Result Bytes → Checked BlockContext
  with_fees r block (err e) = rejected (failed_to_fetch_parent_fee e)
  with_fees r block (ok parent_fee_raw) =
      elim (compute_next m block.tmstmp r.fees (new_manager parent_fee_raw)) [
        | none ↦ rejected fee_panic
        | some next ↦
            made record { height = block.hght; timestamp = block.tmstmp; fee_manager = next }
      ]

  -- createBlockContext from the test of the time on, from the timestamp on, and from the height on
  abbrev pub timely :
      BlockRules → StatelessBlock → Result Bytes → Option BlockError → Checked BlockContext
  timely r block parent_fee (some e) = rejected e
  timely r block parent_fee none = with_fees r block parent_fee

  abbrev pub above_timestamp :
      BlockRules → StatelessBlock → Result Bytes → Checked ℕ → Checked BlockContext
  above_timestamp r block parent_fee (rejected e) = rejected e
  above_timestamp r block parent_fee (made parent_timestamp) =
      timely r block parent_fee (check_timestamp r block parent_timestamp)

  abbrev pub above_height :
      BlockRules → StatelessBlock → Result Bytes → Checked ℕ → Checked ℕ → Checked BlockContext
  above_height r block parent_fee timestamp (rejected e) = rejected e
  above_height r block parent_fee timestamp (made parent_height) =
      if nat_beq block.hght ((parent_height + 1) % u64_mod)
      then above_timestamp r block parent_fee timestamp
      else rejected invalid_block_height

  module _ (parse_uint64 : Bytes → Result ℕ) (metadata : MetadataManager) where
    unfoldable pub create_block_context :
        Immutable → StatelessBlock → BlockRules → Checked BlockContext
    create_block_context im block r =
        above_height r block (im (fee_key metadata.fee_prefix))
          (uint64_in parse_uint64 failed_to_fetch_parent_timestamp failed_to_parse_parent_timestamp
            (im (timestamp_key metadata.timestamp_prefix)))
          (uint64_in parse_uint64 failed_to_fetch_parent_height failed_to_parse_parent_height
            (im (height_key metadata.height_prefix)))

-- What the error of an Insert becomes
abbrev pub inserted : {S : Type 0} → S × Option Error → S × Option BlockError
inserted (s, none) = (s, none)
inserted (s, some e) = (s, some (failed_to_insert e))

-- The next Insert, where the ones before gave no error
abbrev pub and_insert :
    {S : Type 0} → Mutable S → Bytes → Bytes → S × Option BlockError → S × Option BlockError
and_insert mu key value (s, some e) = (s, some e)
and_insert mu key value (s, none) = inserted (mu.insert s key value)

module _ {S : Type 0} (mu : Mutable S) (metadata : MetadataManager) where
  unfoldable pub write_block_context : BlockContext → S → S × Option BlockError
  write_block_context c s = and_insert mu (fee_key metadata.fee_prefix) c.fee_manager (
      and_insert mu (timestamp_key metadata.timestamp_prefix) (to_be 8 c.timestamp)
        (and_insert mu (height_key metadata.height_prefix) (to_be 8 c.height) (s, none)))

-- verifyParentRoot, of what GetMerkleRoot gives
unfoldable pub verify_parent_root : Result ℕ → ℕ → Option BlockError
verify_parent_root (err e) state_root = some (root_failed e)
verify_parent_root (ok computed_root) state_root =
    if nat_beq state_root computed_root then none else some state_root_mismatch
