-- ===== src/SafeMath.antt =====
-- avalanchego's utils/math on uint64, which the program calls and which is not part of it: an
-- interface with the documented results, an error where the exact one does not fit.
use haven_claw.Prelude.{ℕ, ◌+◌, ◌-◌, ◌*◌, ◌≡◌, refl, Option, none, some, leb, if◌then◌else◌}
use haven_claw.Prelude.Words.{max_uint64}

pub record SafeMath : Type 0 where
  pub add : ℕ → ℕ → Option ℕ
  pub sub : ℕ → ℕ → Option ℕ
  pub mul : ℕ → ℕ → Option ℕ

pub record IsChecked (m : SafeMath) : Type 0 where
  pub add_lem : (a b : ℕ) → m.add a b ≡ (if leb (a + b) max_uint64 then some (a + b) else none)
  pub sub_lem : (a b : ℕ) → m.sub a b ≡ (if leb b a then some (a - b) else none)
  pub mul_lem : (a b : ℕ) → m.mul a b ≡ (if leb (a * b) max_uint64 then some (a * b) else none)

-- A value that meets the laws.
abbrev pub checked : SafeMath
checked = record {
  add = λ a b. if leb (a + b) max_uint64 then some (a + b) else none;
  sub = λ a b. if leb b a then some (a - b) else none;
  mul = λ a b. if leb (a * b) max_uint64 then some (a * b) else none;
}

pub checked-IsChecked : IsChecked checked
checked-IsChecked = record { add_lem = λ a b. refl; sub_lem = λ a b. refl; mul_lem = λ a b. refl }
