-- ===== src/Tests/Fees.antt =====
-- Tests of fees, internal/fees and internal/window.
use Prim.Native.Nat.{max}
use mathlib.Core.List.{Perm}
use haven_claw.Prelude.{
  ℕ, zero, suc, ◌≡◌, ◌≤◌, ◌<◌, ◌+◌, ◌*◌, ◌^◌, refl, true, false, some, List, [], ◌∷◌, arith, length,
  replicate, take,
}
use haven_claw.Prelude.Words.{max_uint64, div_int64, sub_wrap}
use haven_claw.Bytes.{Bytes, from_be, to_be, uint64_at, put_uint64, splice}
use haven_claw.SafeMath.{checked, checked-IsChecked}
use haven_claw.Window
use haven_claw.Window.Slots.{slot}
use haven_claw.Fees.Dimensions.{Dimensions, at, add_dimensions, can_add}
use haven_claw.Fees.Largest.{largest_set, compact, take_greedy, weight, sort_by, indices_from}
use haven_claw.Fees.Largest.Compact.{run, compact-prefix}
use haven_claw.Fees.Largest.Greedy.{largest_set-Greedy, Greedy, sorted_indices}
use haven_claw.Fees.Manager.{
  blank, raw_len, Rules, consume, fee, unit_price, last_consumed, window, compute_next,
  compute_next_price_window, next_window, moved_price,
}
use haven_claw.Fees.Manager.Consume.{HasRoom, Consumed, consume-atomic}
use haven_claw.Fees.Manager.Price.{Moves, compute_next_price_window-Moves}
use haven_claw.Fees.Manager.Next.{Priced, compute_next-prices}

abbrev ones : Dimensions
ones = replicate 5 1

abbrev tens : Dimensions
tens = replicate 5 10

ones_small : (j : ℕ) → at ones j ≤ max_uint64
ones_small zero = omega arith
ones_small (suc zero) = omega arith
ones_small (suc (suc zero)) = omega arith
ones_small (suc (suc (suc zero))) = omega arith
ones_small (suc (suc (suc (suc zero)))) = omega arith
ones_small (suc (suc (suc (suc (suc j))))) = omega arith

tens_small : (j : ℕ) → at tens j ≤ max_uint64
tens_small zero = omega arith
tens_small (suc zero) = omega arith
tens_small (suc (suc zero)) = omega arith
tens_small (suc (suc (suc zero))) = omega arith
tens_small (suc (suc (suc (suc zero)))) = omega arith
tens_small (suc (suc (suc (suc (suc j))))) = omega arith

ones_pos : (j : ℕ) → j < 5 → 0 < at ones j
ones_pos zero h = omega arith
ones_pos (suc zero) h = omega arith
ones_pos (suc (suc zero)) h = omega arith
ones_pos (suc (suc (suc zero))) h = omega arith
ones_pos (suc (suc (suc (suc zero)))) h = omega arith
ones_pos (suc (suc (suc (suc (suc j))))) h = absurd (omega arith)

-- A window whose newest slots hold 5 and 258.
abbrev some_window : Bytes
some_window = put_uint64 72 258 (put_uint64 64 5 (replicate 80 0))

roll_runs : slot 8 (Window.roll some_window 1) ≡ 258
unfolding Window.roll uint64_at put_uint64 to_be from_be
roll_runs = refl

sum_runs : Window.sum checked some_window ≡ 263
unfolding Window.sum uint64_at put_uint64 to_be from_be
sum_runs = refl

some_window_size : length some_window ≡ 80
unfolding put_uint64 to_be
some_window_size = refl

add_runs : add_dimensions checked ones tens ≡ some (replicate 5 11)
unfolding add_dimensions
add_runs = refl

tens_fit : (j : ℕ) → at tens j < 2 ^ 64
tens_fit j = omega (arith, tens_small j)

-- Two vectors of the same weight that exclude each other, and a heavier one that still fits.
abbrev vectors : List Dimensions
vectors = (9 ∷ 0 ∷ 0 ∷ 0 ∷ 0 ∷ []) ∷ (9 ∷ 0 ∷ 0 ∷ 0 ∷ 0 ∷ []) ∷ (0 ∷ 10 ∷ 0 ∷ 0 ∷ 0 ∷ []) ∷ []

-- The third is part of the total, and missing among the indices.
largest_set_loses : largest_set checked vectors tens ≡ some (0 ∷ [], 9 ∷ 10 ∷ 0 ∷ 0 ∷ 0 ∷ [])
unfolding largest_set weight sort_by indices_from take_greedy can_add add_dimensions compact
    haven_claw.Fees.Largest.compact_loop
largest_set_loses = refl

compact-prefix_example :
    compact 3 (0 ∷ 3 ∷ 2 ∷ []) ≡ some (take (run 3 (0 ∷ 3 ∷ 2 ∷ [])) (0 ∷ 3 ∷ 2 ∷ []))
compact-prefix_example = compact-prefix 3 (0 ∷ 3 ∷ 2 ∷ [])

largest_set-Greedy_example :
    (marks : List ℕ) × (total : Dimensions) × (largest_set checked vectors tens
      ≡ some (take (run (length vectors) marks) marks, total))
    × Perm (sorted_indices vectors tens) (indices_from (length vectors) 0)
    × Greedy checked checked-IsChecked vectors tens tens_small
        (sorted_indices vectors tens)
        (replicate 5 0)
        marks
        total
largest_set-Greedy_example = largest_set-Greedy checked checked-IsChecked vectors tens tens_small

blank_size : length blank ≡ raw_len
unfolding blank
blank_size = refl

consume-atomic_example :
    ((HasRoom ones tens blank
      → ((consume checked ones tens blank).1 ≡ true)
        × Consumed ones blank (consume checked ones tens blank).0))
    × (((consume checked ones tens blank).1 ≡ true) → HasRoom ones tens blank)
    × ((consume checked ones tens blank).1 ≡ false
        → ((consume checked ones tens blank).0 ≡ blank)
          × ((consume checked ones tens blank).2 < 5)
          × (at tens (consume checked ones tens blank).2
              < last_consumed (consume checked ones tens blank).2 blank
                + at ones (consume checked ones tens blank).2))
consume-atomic_example =
    consume-atomic checked checked-IsChecked ones tens blank blank_size tens_small

abbrev rules : Rules
rules = record { target_units = tens; change_denom = ones; min_unit_price = ones }

tens_pos : (j : ℕ) → j < 5 → 0 < at tens j
tens_pos zero h = omega arith
tens_pos (suc zero) h = omega arith
tens_pos (suc (suc zero)) h = omega arith
tens_pos (suc (suc (suc zero))) h = omega arith
tens_pos (suc (suc (suc (suc zero)))) h = omega arith
tens_pos (suc (suc (suc (suc (suc j))))) h = absurd (omega arith)

blank_prices : (j : ℕ) → j < 5 → unit_price j blank ≤ max_uint64
unfolding unit_price
blank_prices j h = omega (arith, zero_at (8 + 96 * j))
  where
    zero_at : (o : ℕ) → uint64_at o blank ≡ 0
    zero_at o = unfold uint64_at blank in haven_claw.Bytes.zeros-slice 488 o 8

compute_next-prices_example :
    (raw' : Bytes) × (compute_next checked 7_000 rules blank ≡ some raw')
    × (length raw' ≡ raw_len)
    × (uint64_at 0 raw' ≡ div_int64 7_000 1000)
    × ((j : ℕ)
        → j < 5
        → Priced checked rules (sub_wrap (div_int64 7_000 1000) (uint64_at 0 blank)) blank raw' j
          × (last_consumed j raw' ≡ 0))
compute_next-prices_example =
    compute_next-prices checked checked-IsChecked rules 7_000 blank blank_size blank_prices
      ones_small tens_pos ones_pos

-- 263 units in the window and 4 more, over a target of 200: from 1000 by 1000 * 67 / 200 / 48.
price_runs :
    moved_price checked (Window.sum checked (next_window checked some_window 4 0)) 1000 200 48 0
    ≡ some 1006
unfolding moved_price next_window Window.sum Window.roll Window.update uint64_at put_uint64 to_be
    from_be haven_claw.Fees.Manager.base_delta haven_claw.Fees.Manager.raise_price
price_runs = refl

compute_next_price_window-Moves_example :
    (moved : ℕ) × (compute_next_price_window checked some_window 4 1000 200 48 1 0
      ≡ some (max moved 1, next_window checked some_window 4 0))
    × Moves checked checked-IsChecked
        (Window.sum checked (next_window checked some_window 4 0))
        1000
        200
        0
        moved
compute_next_price_window-Moves_example =
    compute_next_price_window-Moves checked checked-IsChecked some_window 4 1000 200 48 1 0
      (omega arith) (omega arith) (omega arith)
