-- ===== src/Balances.antt =====
-- Balances in the state: hypersdk/state/balance/balance.go is Handler, and Morpheus is
-- hypersdk/examples/morpheusvm/storage/storage.go with the transfer of actions/transfer.go.
pub mod Handler
pub mod Morpheus
use haven_claw.Prelude.{
  ℕ, ◌-◌, ◌%◌, ◌≤◌, ◌≡◌, refl, Option, none, some, nat_beq, if◌then◌else◌, arith, length,
}
use haven_claw.Prelude.Words.{u64_mod, max_uint64}
use haven_claw.Bytes.{Bytes, to_be, from_be, length-to_be, from_be-to_be}
use haven_claw.TState.{Error}

-- The errors of the packages, and the one of a state below.
pub data Failure : Type 0 where
  state_failure : Error → Failure
  parse_failure : Failure
  overflow : Failure
  insufficient_balance : Failure
  invalid_balance : Failure
  value_zero : Failure
  memo_too_large : Failure

-- The error of a state operation, in a Go result.
abbrev pub state_error : Option Error → Option Failure
state_error none = none
state_error (some e) = some (state_failure e)

pub state_error-none : (o : Option Error) → state_error o ≡ none → o ≡ none
state_error-none none h = refl
state_error-none (some e) h = cc

-- avalanchego's database.ParseUInt64 and PackUInt64.
pub record Uint64Codec : Type 0 where
  pub parse : Bytes → Option ℕ
  pub pack : ℕ → Bytes

-- They store a uint64 as its eight bytes, the first the highest.
pub record IsBigEndian (c : Uint64Codec) : Type 0 where
  pub pack_lem : (n : ℕ) → c.pack n ≡ to_be 8 n
  pub parse_lem : (n : ℕ) → n ≤ max_uint64 → c.parse (to_be 8 n) ≡ some n
  pub parse_bound : (b : Bytes) (n : ℕ) → c.parse b ≡ some n → n ≤ max_uint64

-- A value that meets the laws.
abbrev pub big_endian : Uint64Codec
big_endian = record {
  parse = λ b. if nat_beq (length b) 8 then some (from_be 0 b % u64_mod) else none;
  pack = to_be 8;
}

pub big_endian-IsBigEndian : IsBigEndian big_endian
big_endian-IsBigEndian = record {
  pack_lem = λ n. refl;
  parse_lem = λ n h. ground (arith, length-to_be 8 n, from_be-to_be 8 n (omega arith));
  parse_bound = λ b n h. ground arith;
}
