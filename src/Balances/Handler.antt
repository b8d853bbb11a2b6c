-- ===== src/Balances/Handler.antt =====
-- hypersdk/state/balance/balance.go: PrefixBalanceHandler, from which transactions pay their fees.
pub mod Laws
use haven_claw.Prelude.{
  ℕ, ◌-◌, Option, none, some, [], ◌∷◌, ◌++◌, ltb, if◌then◌else◌, bytes_comparable,
}
use haven_claw.Dict.{insert}
use Prim.Native.Nat.{bit_or}
use haven_claw.Bytes.{Bytes, to_be}
use haven_claw.StateKeys.{Keys, read, write}
use haven_claw.SafeMath.{SafeMath}
use haven_claw.TState.{Immutable, not_found, Error, Result, ok, err}
use haven_claw.Mutable.{Mutable}
use haven_claw.Balances.{
  state_error, Failure, state_failure, parse_failure, overflow, insufficient_balance, Uint64Codec,
}

abbrev pub balance_chunks : ℕ
balance_chunks = 1

-- An address is an array of AddressLen bytes, so the copies of BalanceKey fill the slice.
abbrev pub balance_key : Bytes → Bytes → Bytes
balance_key prefix addr = prefix ++ addr ++ to_be 2 balance_chunks

abbrev pub sponsor_state_keys : Bytes → Bytes → Keys
sponsor_state_keys prefix addr = insert (balance_key prefix addr) (bit_or read write) []

abbrev pub parsed : Option ℕ → ℕ × Option Failure
parsed none = (0, some parse_failure)
parsed (some n) = (n, none)

-- The balance in what GetValue returned: 0 where there is none.
abbrev pub known_balance : Uint64Codec → Result Bytes → ℕ × Option Failure
known_balance c (ok value) = parsed (c.parse value)
known_balance c (err not_found) = (0, none)
known_balance c (err e) = (0, some (state_failure e))

module _ {S : Type 0} (m : Mutable S) (c : Uint64Codec) (sm : SafeMath) (prefix : Bytes) where
  unfoldable pub get_balance : S → Bytes → ℕ × Option Failure
  get_balance s addr = known_balance c (m.get_value s (balance_key prefix addr))

  -- CanDeduct reads any state.Immutable.
  unfoldable pub can_deduct : Immutable → Bytes → ℕ → Option Failure
  can_deduct im addr amount =
      let (balance, e) = known_balance c (im (balance_key prefix addr)) in
      elim e [
        | some e ↦ some e
        | none ↦ if ltb balance amount then some insufficient_balance else none
      ]

  -- mu.Insert(ctx, balanceKey, database.PackUInt64(newBalance))
  abbrev put_balance : S → Bytes → ℕ → S × Option Failure
  put_balance s key balance = let r = m.insert s key (c.pack balance) in (r.0, state_error r.1)

  abbrev pub deduct_parsed : S → Bytes → ℕ → Option ℕ → S × Option Failure
  deduct_parsed s key amount none = (s, some parse_failure)
  deduct_parsed s key amount (some balance) =
      if ltb balance amount
      then (s, some insufficient_balance)
      else put_balance s key (balance - amount)

  abbrev pub deduct_known : S → Bytes → ℕ → Result Bytes → S × Option Failure
  deduct_known s key amount (ok value) = deduct_parsed s key amount (c.parse value)
  deduct_known s key amount (err not_found) = (s, some insufficient_balance)
  deduct_known s key amount (err e) = (s, some (state_failure e))

  unfoldable pub deduct : S → Bytes → ℕ → S × Option Failure
  deduct s addr amount =
      let key = balance_key prefix addr in deduct_known s key amount (m.get_value s key)

  abbrev add_to : S → Bytes → ℕ → ℕ × Option Failure → S × Option Failure
  add_to s key amount (balance, some e) = (s, some e)
  add_to s key amount (balance, none) = elim (sm.add balance amount) [
    | none ↦ (s, some overflow)
    | some new_balance ↦ put_balance s key new_balance
  ]

  unfoldable pub add_balance : S → Bytes → ℕ → S × Option Failure
  add_balance s addr amount =
      let key = balance_key prefix addr in add_to s key amount (known_balance c (m.get_value s key))
