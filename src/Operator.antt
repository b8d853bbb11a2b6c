-- ===== src/Operator.antt =====
-- hypersdk/internal/math: a uint64 that is computed step by step and keeps its first error. The
-- error is one bit; `value` gives Value's result where there is no error.
pub mod Tracks
use haven_claw.Prelude.{ℕ, Bool, true, false, Option, none, some, if◌then◌else◌}
use haven_claw.SafeMath.{SafeMath}

pub record Uint64Operator : Type 0 where
  pub v : ℕ
  pub failed : Bool

unfoldable pub new_uint64_operator : ℕ → Uint64Operator
new_uint64_operator v = record { v = v; failed = false }

-- o.v = nv, or o.err = err
abbrev pub set_result : Uint64Operator → Option ℕ → Uint64Operator
set_result o none = record o { failed = true }
set_result o (some nv) = record o { v = nv }

module _ (m : SafeMath) where
  unfoldable pub add : Uint64Operator → ℕ → Uint64Operator
  add o n = if o.failed then o else set_result o (m.add o.v n)

  unfoldable pub mul : Uint64Operator → ℕ → Uint64Operator
  mul o n = if o.failed then o else set_result o (m.mul o.v n)

  abbrev add_product : Uint64Operator → Option ℕ → Uint64Operator
  add_product o none = record o { failed = true }
  add_product o (some pv) = set_result o (m.add o.v pv)

  unfoldable pub mul_add : Uint64Operator → ℕ → ℕ → Uint64Operator
  mul_add o a b = if o.failed then o else add_product o (m.mul a b)

unfoldable pub value : Uint64Operator → Option ℕ
value o = if o.failed then none else some o.v
