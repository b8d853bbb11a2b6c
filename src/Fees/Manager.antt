-- ===== src/Fees/Manager.antt =====
-- hypersdk/internal/fees/manager.go. A manager is its raw bytes: a timestamp, and for each of the
-- five dimensions a price, a window of ten counters and the units last consumed.
pub mod Layout
pub mod Consume
pub mod Price
pub mod Next
use haven_claw.Prelude.{
  ℕ, zero, suc, ◌+◌, ◌-◌, ◌*◌, ◌/◌, Bool, true, false, Option, none, some, List, [], ◌∷◌, nat_beq,
  ltb, if◌then◌else◌, replicate, set, length,
}
use haven_claw.Prelude.Words.{max_uint64, mul_wrap, sub_wrap, div_int64}
use haven_claw.Bytes.{Bytes, uint64_at, put_uint64, slice, splice}
use haven_claw.SafeMath.{SafeMath}
use haven_claw.Window
use haven_claw.Fees.Dimensions.{Dimensions, at, fee_dimensions, zero_dimensions}

-- Uint64Len + WindowSliceSize + Uint64Len, and Int64Len + FeeDimensions * dimensionStateLen
abbrev pub dimension_state_len : ℕ
dimension_state_len = 96

abbrev pub raw_len : ℕ
raw_len = 488

-- make([]byte, …) of the full length
unfoldable pub blank : Bytes
blank = replicate raw_len 0

unfoldable pub new_manager : Bytes → Bytes
unfolding blank
new_manager raw = if nat_beq (length raw) 0 then blank else raw

abbrev pub start_of : ℕ → ℕ
start_of d = 8 + 96 * d

unfoldable pub unit_price : ℕ → Bytes → ℕ
unit_price d raw = uint64_at (start_of d) raw

unfoldable pub window : ℕ → Bytes → Bytes
window d raw = slice (start_of d + 8) 80 raw

unfoldable pub last_consumed : ℕ → Bytes → ℕ
last_consumed d raw = uint64_at (start_of d + 8 + 80) raw

unfoldable pub set_unit_price : ℕ → ℕ → Bytes → Bytes
set_unit_price d price raw = put_uint64 (start_of d) price raw

unfoldable pub set_last_consumed : ℕ → ℕ → Bytes → Bytes
set_last_consumed d consumed raw = put_uint64 (start_of d + 8 + 80) consumed raw

unfoldable pub unit_prices_loop : ℕ → ℕ → Bytes → Dimensions → Dimensions
unit_prices_loop zero i raw d = d
unit_prices_loop (suc n) i raw d = unit_prices_loop n (i + 1) raw (set d i (unit_price i raw))

unfoldable pub unit_prices : Bytes → Dimensions
unfolding unit_prices_loop
unit_prices raw = unit_prices_loop fee_dimensions 0 raw zero_dimensions

unfoldable pub units_consumed_loop : ℕ → ℕ → Bytes → Dimensions → Dimensions
units_consumed_loop zero i raw d = d
units_consumed_loop (suc n) i raw d =
    units_consumed_loop n (i + 1) raw (set d i (last_consumed i raw))

unfoldable pub units_consumed : Bytes → Dimensions
unfolding units_consumed_loop
units_consumed raw = units_consumed_loop fee_dimensions 0 raw zero_dimensions

module _ (m : SafeMath) where
  -- The first loop of Consume: the dimension that does not fit, if there is one.
  unfoldable pub check_loop : ℕ → ℕ → Dimensions → Dimensions → Bytes → Option ℕ
  check_loop zero i d l raw = none
  check_loop (suc n) i d l raw = elim (m.add (last_consumed i raw) (at d i)) [
    | none ↦ some i
    | some consumed ↦
        let rest = check_loop n (i + 1) d l raw in if ltb (at l i) consumed then some i else rest
  ]

  -- The second loop of Consume, with its own return on an error.
  unfoldable pub commit_loop : ℕ → ℕ → Dimensions → Bytes → Bytes × Bool × ℕ
  commit_loop zero i d raw = (raw, true, 0)
  commit_loop (suc n) i d raw = elim (m.add (last_consumed i raw) (at d i)) [
    | none ↦ (raw, false, i)
    | some consumed ↦ commit_loop n (i + 1) d (set_last_consumed i consumed raw)
  ]

  unfoldable pub consume : Dimensions → Dimensions → Bytes → Bytes × Bool × ℕ
  consume d l raw = elim (check_loop fee_dimensions 0 d l raw) [
    | some i ↦ (raw, false, i)
    | none ↦ commit_loop fee_dimensions 0 d raw
  ]

  unfoldable pub fee_loop : ℕ → ℕ → Dimensions → Bytes → ℕ → Option ℕ
  fee_loop zero i d raw fee = some fee
  fee_loop (suc n) i d raw fee = elim (m.mul (unit_price i raw) (at d i)) [
    | none ↦ none
    | some contribution ↦ elim (m.add contribution fee) [
      | none ↦ none
      | some new_fee ↦ fee_loop n (i + 1) d raw new_fee
    ]
  ]

  unfoldable pub fee : Dimensions → Bytes → Option ℕ
  unfolding fee_loop
  fee d raw = fee_loop fee_dimensions 0 d raw 0

-- `x / target / changeDenom` of a wrapping product, at least 1. A division by zero panics: `none`.
unfoldable pub base_delta : ℕ → ℕ → ℕ → ℕ → Option ℕ
base_delta price delta target change_denom =
    if nat_beq target 0
    then none
    else if nat_beq change_denom 0
    then none
    else let base : ℕ = mul_wrap price delta / target / change_denom in
      some (if ltb base 1 then 1 else base)

module _ (m : SafeMath) where
  unfoldable pub raise_price : ℕ → ℕ → ℕ
  raise_price price by = elim (m.add price by) [ none ↦ max_uint64 | some n ↦ n ]

  unfoldable pub lower_price : ℕ → ℕ → ℕ
  lower_price price by = elim (m.sub price by) [ none ↦ 0 | some n ↦ n ]

  -- The next price before the minimum is applied, from the units in the rolled window.
  unfoldable pub moved_price : ℕ → ℕ → ℕ → ℕ → ℕ → Option ℕ
  moved_price total price target change_denom since =
      if ltb target total
      then elim (base_delta price (total - target) target change_denom) [
        | none ↦ none
        | some base ↦ some (raise_price price base)
      ]
      else if ltb total target
      then elim (base_delta price (target - total) target change_denom) [
        | none ↦ none
        | some base ↦ some (
            lower_price price (
              if ltb Window.window_size since
              then mul_wrap base (since / Window.window_size)
              else base))
      ]
      else some price

  -- The window of the next block: rolled, and with the parent's units added in their slot.
  unfoldable pub next_window : Bytes → ℕ → ℕ → Bytes
  next_window previous previous_consumed since =
      let rolled : Bytes = Window.roll previous since in
      if ltb since Window.window_size
      then Window.update m rolled ((Window.window_size - 1 - since) * 8) previous_consumed
      else rolled

  unfoldable pub compute_next_price_window : Bytes → ℕ → ℕ → ℕ → ℕ → ℕ → ℕ → Option (ℕ × Bytes)
  compute_next_price_window previous previous_consumed price target change_denom min_price since =
      let w : Bytes = next_window previous previous_consumed since in
      elim (moved_price (Window.sum m w) price target change_denom since) [
        | none ↦ none
        | some next ↦ some (if ltb next min_price then min_price else next, w)
      ]

-- The rules' vectors: GetWindowTargetUnits, GetUnitPriceChangeDenominator, GetMinUnitPrice.
pub record Rules : Type 0 where
  pub target_units : Dimensions
  pub change_denom : Dimensions
  pub min_unit_price : Dimensions

module _ (m : SafeMath) where
  unfoldable pub next_loop : ℕ → ℕ → Rules → ℕ → Bytes → Bytes → Option Bytes
  next_loop zero i r since raw bytes = some bytes
  next_loop (suc n) i r since raw bytes =
      elim (compute_next_price_window m (window i raw) (last_consumed i raw) (unit_price i raw)
        (at r.target_units i) (at r.change_denom i) (at r.min_unit_price i) since) [
          | none ↦ none
          | some (price, w) ↦
              next_loop n (i + 1) r since raw
                (splice (start_of i + 8) w (put_uint64 (start_of i) price bytes))
        ]

  -- ComputeNext, at a time in milliseconds; `none` is a panic.
  unfoldable pub compute_next : ℕ → Rules → Bytes → Option Bytes
  compute_next curr_time r raw =
      let seconds : ℕ = div_int64 curr_time 1000 in
      next_loop fee_dimensions 0 r (sub_wrap seconds (uint64_at 0 raw)) raw
        (put_uint64 0 seconds blank)
