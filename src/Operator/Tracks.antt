-- ===== src/Operator/Tracks.antt =====
-- An operator holds the exact total of what was added, or an error where that is no uint64.
use haven_claw.Prelude.{
  ℕ, ◌+◌, ◌*◌, ◌≤◌, ◌<◌, ◌≡◌, true, false, ◌⊎◌, none, some, arith, leb, if◌then◌else◌,
}
use haven_claw.Prelude.Words.{max_uint64}
use haven_claw.SafeMath.{SafeMath, IsChecked}
use haven_claw.Operator.{Uint64Operator, new_uint64_operator, add, mul_add, value}

abbrev pub Tracks : Uint64Operator → ℕ → Type 0
Tracks o total =
    (o.failed ≡ false) × (o.v ≡ total) × (total ≤ max_uint64)
    ⊎ (o.failed ≡ true) × (max_uint64 < total)

pub new-Tracks : (n : ℕ) → n ≤ max_uint64 → Tracks (new_uint64_operator n) n
unfolding new_uint64_operator
new-Tracks n h = ground arith

module _ (m : SafeMath) (law : IsChecked m) (o : Uint64Operator) (total : ℕ)
    (h : Tracks o total) where
  pub add-Tracks : (n : ℕ) → Tracks (add m o n) (total + n)
  unfolding add
  add-Tracks n = ground (arith, h, law.add_lem total n)

  pub mul_add-Tracks : (a b : ℕ) → Tracks (mul_add m o a b) (total + a * b)
  unfolding mul_add
  mul_add-Tracks a b = ground (arith, h, law.mul_lem a b, law.add_lem total (a * b))

pub value-Tracks :
    (o : Uint64Operator) (total : ℕ)
    → Tracks o total
    → value o ≡ (if leb total max_uint64 then some total else none)
unfolding value
value-Tracks o total h = ground (arith, h)
