-- ===== src/Prelude/Words.antt =====
-- Machine words as native numbers: a uint64 is below 2 ^ 64, and an int64 is its bit pattern.
use haven_claw.Prelude.{ℕ, ◌+◌, ◌-◌, ◌*◌, ◌/◌, ◌%◌, ◌^◌, ltb, if◌then◌else◌}

abbrev pub u64_mod : ℕ
u64_mod = 2 ^ 64

abbrev pub max_uint64 : ℕ
max_uint64 = 2 ^ 64 - 1

abbrev pub max_uint16 : ℕ
max_uint16 = 2 ^ 16 - 1

-- `a * b` of two uint64.
abbrev pub mul_wrap : ℕ → ℕ → ℕ
mul_wrap a b = a * b % u64_mod

-- `a - b` of two uint64, or of two int64 by their patterns.
abbrev pub sub_wrap : ℕ → ℕ → ℕ
sub_wrap a b = (a + u64_mod - b) % u64_mod

-- `a / d` of an int64 and a positive constant: Go rounds towards zero.
abbrev pub div_int64 : ℕ → ℕ → ℕ
div_int64 a d = if ltb a (2 ^ 63) then a / d else (u64_mod - (u64_mod - a) / d) % u64_mod
