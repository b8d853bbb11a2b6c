-- ===== src/Balances/Morpheus.antt =====
-- hypersdk/examples/morpheusvm: storage/storage.go, and the action of actions/transfer.go.
pub mod Laws
pub mod Moves
pub mod OnViews
use haven_claw.Prelude.{
  ℕ, zero, Bool, true, false, Option, none, some, [], ◌∷◌, ◌++◌, ltb, nat_beq, if◌then◌else◌,
  length, bytes_comparable,
}
use Prim.Native.Nat.{bit_or}
use haven_claw.Dict.{insert}
use haven_claw.Bytes.{Bytes, to_be}
use haven_claw.StateKeys.{Keys, read, write, all}
use haven_claw.SafeMath.{SafeMath}
use haven_claw.TState.{not_found, Error, Result, ok, err}
use haven_claw.Mutable.{Mutable}
use haven_claw.Balances.{
  state_error, Failure, state_failure, parse_failure, invalid_balance, value_zero, memo_too_large,
  Uint64Codec,
}

-- metadata.DefaultMinimumPrefix
abbrev pub balance_prefix : ℕ
balance_prefix = 3

abbrev pub balance_chunks : ℕ
balance_chunks = 1

-- An address is an array of AddressLen bytes, so the copy fills its part of the slice.
abbrev pub balance_key : Bytes → Bytes
balance_key addr = balance_prefix ∷ addr ++ to_be 2 balance_chunks

abbrev pub parsed_balance : Option ℕ → ℕ × Bool × Option Failure
parsed_balance none = (0, false, some parse_failure)
parsed_balance (some n) = (n, true, none)

abbrev pub inner_get_balance : Uint64Codec → Result Bytes → ℕ × Bool × Option Failure
inner_get_balance c (ok value) = parsed_balance (c.parse value)
inner_get_balance c (err not_found) = (0, false, none)
inner_get_balance c (err e) = (0, false, some (state_failure e))

module _ {S : Type 0} (m : Mutable S) (c : Uint64Codec) (sm : SafeMath) where
  -- GetBalance: the balance and the error of getBalance.
  unfoldable pub get_balance : S → Bytes → ℕ × Option Failure
  get_balance s addr = let r = inner_get_balance c (m.get_value s (balance_key addr)) in (r.0, r.2)

  abbrev pub set_balance_at : S → Bytes → ℕ → S × Option Failure
  set_balance_at s key balance = let r = m.insert s key (to_be 8 balance) in (r.0, state_error r.1)

  unfoldable pub set_balance : S → Bytes → ℕ → S × Option Failure
  set_balance s addr balance = set_balance_at s (balance_key addr) balance

  abbrev pub remove_balance_at : S → Bytes → S × Option Failure
  remove_balance_at s key = let r = m.remove s key in (r.0, state_error r.1)

  -- `return nbal, setBalance(ctx, mu, key, nbal)`
  abbrev pub returning : ℕ → S × Option Failure → S × ℕ × Option Failure
  returning balance r = (r.0, balance, r.1)

  abbrev pub add_total : S → Bytes → Option ℕ → S × ℕ × Option Failure
  add_total s key none = (s, 0, some invalid_balance)
  add_total s key (some total) = returning total (set_balance_at s key total)

  abbrev pub add_known : S → Bytes → ℕ → ℕ × Bool × Option Failure → S × ℕ × Option Failure
  add_known s key amount (balance, exists, some e) = (s, 0, some e)
  add_known s key amount (balance, exists, none) = add_total s key (sm.add balance amount)

  unfoldable pub add_balance : S → Bytes → ℕ → S × ℕ × Option Failure
  add_balance s addr amount =
      let key = balance_key addr in add_known s key amount (inner_get_balance c (m.get_value s key))

  -- A balance of 0 is removed instead of stored.
  abbrev pub sub_rest : S → Bytes → Option ℕ → S × ℕ × Option Failure
  sub_rest s key none = (s, 0, some invalid_balance)
  sub_rest s key (some rest) =
      if nat_beq rest 0
      then returning 0 (remove_balance_at s key)
      else returning rest (set_balance_at s key rest)

  abbrev pub sub_known : S → Bytes → ℕ → ℕ × Bool × Option Failure → S × ℕ × Option Failure
  sub_known s key amount (balance, false, e) = (s, 0, some invalid_balance)
  sub_known s key amount (balance, true, some e) = (s, 0, some e)
  sub_known s key amount (balance, true, none) = sub_rest s key (sm.sub balance amount)

  unfoldable pub sub_balance : S → Bytes → ℕ → S × ℕ × Option Failure
  sub_balance s addr amount =
      let key = balance_key addr in sub_known s key amount (inner_get_balance c (m.get_value s key))

pub record Transfer : Type 0 where
  pub to : Bytes
  pub value : ℕ
  pub memo : Bytes

abbrev pub max_memo_size : ℕ
max_memo_size = 256

-- A map literal sets its entries in their order.
unfoldable pub transfer_state_keys : Transfer → Bytes → Keys
transfer_state_keys t actor =
    insert (balance_key t.to) all (insert (balance_key actor) (bit_or read write) [])

pub record TransferResult : Type 0 where
  pub sender_balance : ℕ
  pub receiver_balance : ℕ

abbrev failed : {S : Type 0} → S → Failure → S × (Option TransferResult) × Option Failure
failed s e = (s, none, some e)

module _ {S : Type 0} (m : Mutable S) (c : Uint64Codec) (sm : SafeMath) where
  -- Execute from where AddBalance returned.
  abbrev pub received : ℕ → S × ℕ × Option Failure → S × (Option TransferResult) × Option Failure
  received sender (s, balance, some e) = failed s e
  received sender (s, balance, none) =
      (s, some (record { sender_balance = sender; receiver_balance = balance }), none)

  -- Execute from where SubBalance returned.
  abbrev pub sent : Transfer → S × ℕ × Option Failure → S × (Option TransferResult) × Option Failure
  sent t (s, balance, some e) = failed s e
  sent t (s, balance, none) = received balance (add_balance m c sm s t.to t.value)

  -- Transfer.Execute; the bytes of the result are its two balances, packed by avalanchego.
  unfoldable pub execute_transfer :
      Transfer → S → Bytes → S × (Option TransferResult) × Option Failure
  execute_transfer t s actor =
      if nat_beq t.value 0
      then failed s value_zero
      else (if ltb max_memo_size (length t.memo)
          then failed s memo_too_large
          else sent t (sub_balance m c sm s actor t.value))
