-- ===== src/Blocks/Successor.antt =====
-- The blocks that createBlockContext accepts on top of a block whose context was written.
use haven_claw.Prelude.{
  ℕ, ◌+◌, ◌^◌, ◌<◌, ◌≤◌, ◌≡◌, ◌↔◌, false, Option, none, some, [], length, arith,
}
use haven_claw.Bytes.{Bytes}
use haven_claw.SafeMath.{SafeMath}
use haven_claw.TState.{Result, ok}
use haven_claw.Database.{IsParser}
use haven_claw.Mutable.{Mutable, IsStore, Readable}
use haven_claw.Metadata.{MetadataManager, has_conflicting_prefixes}
use haven_claw.Fees.Manager.{new_manager, compute_next}
use haven_claw.Blocks.{
  StatelessBlock, BlockRules, BlockContext, Checked, made, rejected, height_key, timestamp_key,
  fee_key, check_timestamp, with_fees, create_block_context, write_block_context,
}
use haven_claw.Blocks.Context.{write_block_context-gets}

-- The time of a block is late enough behind that of its parent.
abbrev pub LateEnough : BlockRules → StatelessBlock → ℕ → Type 0
LateEnough r block parent =
    (parent + r.min_block_gap ≤ block.tmstmp)
    × (length block.txs ≡ 0 → parent + r.min_empty_block_gap ≤ block.tmstmp)

check_timestamp_iff :
    (r : BlockRules) (block : StatelessBlock) (parent : ℕ)
    → block.tmstmp < 2 ^ 63
    → parent + r.min_block_gap < 2 ^ 63
    → parent + r.min_empty_block_gap < 2 ^ 63
    → (check_timestamp r block parent ≡ none) ↔ LateEnough r block parent
check_timestamp_iff r block parent ht hg he = ground arith

context_of : Checked BlockContext → Option BlockContext
context_of (made c) = some c
context_of (rejected e) = none

module _ (m : SafeMath) where
  with_fees_iff :
      (r : BlockRules) (block : StatelessBlock) (raw fees : Bytes) (h t : ℕ)
      → (with_fees m r block (ok raw)
          ≡ made record { height = h; timestamp = t; fee_manager = fees })
        ↔ ((h ≡ block.hght)
            × (t ≡ block.tmstmp)
            × (compute_next m block.tmstmp r.fees (new_manager raw) ≡ some fees))
  with_fees_iff r block raw fees h t = ground arith

  module _ (parse_uint64 : Bytes → Result ℕ) (parser : IsParser parse_uint64) {S : Type 0}
      (mu : Mutable S) (law : IsStore mu) where
    -- Where the context of a block was written without an error, by prefixes that do not conflict and
    -- at keys that may be read, createBlockContext makes a context exactly for a block of the next
    -- height that is late enough behind it. This context has the height and the time of the block,
    -- and the fee manager that ComputeNext makes of the written one. The times, and their sums with
    -- the gaps, fit an int64, and the next height a uint64.
    pub create-write_block_context :
        (md : MetadataManager) (c : BlockContext) (s : S) (r : BlockRules) (block : StatelessBlock)
        (h t : ℕ) (fees : Bytes)
        → has_conflicting_prefixes md [] ≡ false
        → Readable mu s (height_key md.height_prefix)
        → Readable mu s (timestamp_key md.timestamp_prefix)
        → Readable mu s (fee_key md.fee_prefix)
        → (write_block_context mu md c s).1 ≡ none
        → c.height + 1 < 2 ^ 64
        → block.tmstmp < 2 ^ 63
        → c.timestamp + r.min_block_gap < 2 ^ 63
        → c.timestamp + r.min_empty_block_gap < 2 ^ 63
        → (create_block_context m parse_uint64 md
              (mu.get_value (write_block_context mu md c s).0)
              block
              r
            ≡ made record { height = h; timestamp = t; fee_manager = fees })
          ↔ ((block.hght ≡ c.height + 1)
              × LateEnough r block c.timestamp
              × (h ≡ block.hght)
              × (t ≡ block.tmstmp)
              × (compute_next m block.tmstmp r.fees (new_manager c.fee_manager) ≡ some fees))
    unfolding create_block_context
    create-write_block_context md c s r block h t fees clean rh rt rf done hh ht hg he =
        let (at_height, at_time, at_fee) =
          write_block_context-gets mu law md c s clean rh rt rf done in
        let ph = parser c.height (omega arith) in
        let pt = parser c.timestamp (omega arith) in
        let late = check_timestamp_iff r block c.timestamp ht hg he in
        let fee = with_fees_iff r block c.fee_manager fees h t in
        rw (at_fee, at_time, pt, at_height, ph, create_block_context) (ground (arith, late, fee))
