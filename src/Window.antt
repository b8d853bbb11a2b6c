-- ===== src/Window.antt =====
-- hypersdk/internal/window/window.go: ten uint64 counters in 80 bytes, the oldest first.
pub mod Slots
use haven_claw.Prelude.{
  ℕ, zero, suc, ◌+◌, ◌-◌, ◌*◌, Option, none, some, ltb, if◌then◌else◌, drop, replicate,
}
use haven_claw.Prelude.Words.{max_uint64}
use haven_claw.Bytes.{Bytes, uint64_at, put_uint64, splice}
use haven_claw.SafeMath.{SafeMath}

abbrev pub window_size : ℕ
window_size = 10

abbrev pub window_slice_size : ℕ
window_slice_size = 80

-- `roll * 8` wraps in the source, but only for rolls that it does not use it for.
unfoldable pub roll : Bytes → ℕ → Bytes
roll w by =
    if ltb window_size by
    then replicate window_slice_size 0
    else splice 0 (drop (by * 8) w) (replicate window_slice_size 0)

unfoldable pub last : Bytes → ℕ
last w = uint64_at (window_slice_size - 8) w

module _ (m : SafeMath) where
  -- The loop of Sum, with `n` rounds left from slot `i`.
  unfoldable pub sum_loop : ℕ → ℕ → ℕ → Bytes → ℕ
  sum_loop zero i acc w = acc
  sum_loop (suc n) i acc w = elim (m.add acc (uint64_at (8 * i) w)) [
    | none ↦ max_uint64
    | some total ↦ sum_loop n (i + 1) total w
  ]

  unfoldable pub sum : Bytes → ℕ
  unfolding sum_loop
  sum w = sum_loop window_size 0 0 w

  unfoldable pub update : Bytes → ℕ → ℕ → Bytes
  update w start units =
      put_uint64 start
        (elim (m.add (uint64_at start w) units) [ none ↦ max_uint64 | some total ↦ total ]) w
