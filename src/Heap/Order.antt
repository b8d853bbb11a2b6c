-- ===== src/Heap/Order.antt =====
-- The order of a min-heap, and its root.
use haven_claw.Prelude.{
  ℕ, zero, suc, ◌-◌, ◌/◌, ◌≤◌, ◌<◌, ◌≡◌, true, arith, nat_beq, if◌then◌else◌, ltb,
}
use haven_claw.Heap.{Heap, len, val_at, less, swap, pointer}
use haven_claw.Heap.Slots.{val_at-content, content-swap, pointer-swap}

abbrev pub parent : ℕ → ℕ
parent c = (c - 1) / 2

module _ {ℓ} {I : Type ℓ} where
  -- Among the first n entries, none has a greater parent.
  abbrev pub IsOrdered : ℕ → Heap I → Type 0
  IsOrdered n h = (c : ℕ) → 0 < c → c < n → val_at h (parent c) ≤ val_at h c

  pub val_at-swap :
      (i j : ℕ) (h : Heap I) (k : ℕ)
      → i < len h
      → j < len h
      → val_at (swap i j h) k
        ≡ (if nat_beq j k then val_at h i else (if nat_beq i k then val_at h j else val_at h k))
  val_at-swap i j h k hi hj = ground (
    arith,
    val_at-content (swap i j h) k,
    val_at-content h i,
    val_at-content h j,
    val_at-content h k,
    content-swap i j h (pointer (swap i j h) k),
    pointer-swap i j h k hi hj,
  )

  pub less-min :
      (h : Heap I) (i j : ℕ) → h.is_min_heap ≡ true → less h i j ≡ ltb (val_at h i) (val_at h j)
  unfolding less
  less-min h i j m = rw m

  root_below :
      (bound : ℕ) (n : ℕ) (h : Heap I) (k : ℕ)
      → IsOrdered n h
      → k < bound
      → k < n
      → val_at h 0 ≤ val_at h k
  root_below zero n h k o f p = absurd (omega arith)
  root_below (suc bound) n h k o f p = ground (arith, o k, root_below bound n h (parent k) o)

  pub root_least : (n : ℕ) (h : Heap I) (k : ℕ) → IsOrdered n h → k < n → val_at h 0 ≤ val_at h k
  root_least n h k o p = root_below (suc k) n h k o (omega arith) p
