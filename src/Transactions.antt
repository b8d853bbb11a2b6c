-- ===== src/Transactions.antt =====
-- hypersdk/chain/transaction.go, with base.go and the timestamp check of
-- hypersdk/internal/validitywindow/validitywindow.go. Actions, auth and the balance handler are the
-- interfaces of chain/dependencies.go. The map that StateKeys caches in the transaction is not
-- modelled: StateKeys computes it again. CreateActionID, a hash, is a parameter.
pub mod Units
pub mod Execution
pub mod Estimate
pub mod Transfers
use haven_claw.Prelude.{
  ℕ, zero, suc, ◌+◌, ◌-◌, ◌%◌, ◌^◌, Bool, true, false, not, ◌&&◌, ◌||◌, Option, none, some, List,
  [], ◌∷◌, ◌++◌, ltb, leb, nat_beq, if◌then◌else◌, length, bytes_comparable,
}
use haven_claw.Prelude.Words.{u64_mod}
use haven_claw.Bytes.{Bytes}
use haven_claw.SafeMath.{SafeMath}
use haven_claw.Keys.{max_chunks}
use haven_claw.StateKeys.{Keys, Permissions, add}
use haven_claw.TState.{Immutable}
use haven_claw.TState.View.{View, op_index, rollback}
use haven_claw.Operator.{Uint64Operator, new_uint64_operator, mul_add, value}
use haven_claw.Operator as Operator
use haven_claw.Fees.Dimensions.{Dimensions}
use haven_claw.Fees.Manager.{fee}
use haven_claw.Balances.{Failure}

-- Two int64, by their patterns.
abbrev pub int64_lt : ℕ → ℕ → Bool
int64_lt a b = ltb ((a + 2 ^ 63) % u64_mod) ((b + 2 ^ 63) % u64_mod)

abbrev pub is_negative : ℕ → Bool
is_negative a = leb (2 ^ 63) a

-- a % divisor != 0, for a positive divisor: Go's remainder has the sign of the dividend.
abbrev pub misaligned : ℕ → ℕ → Bool
misaligned a divisor = not (nat_beq ((if is_negative a then u64_mod - a else a) % divisor) 0)

pub data TxError : Type 0 where
  invalid_chain_id : TxError
  misaligned_timestamp : TxError
  timestamp_expired : TxError
  future_timestamp : TxError
  too_many_actions : TxError
  action_not_activated : ℕ → TxError
  auth_not_activated : TxError
  invalid_key : TxError
  units_overflow : TxError
  balance_failure : Failure → TxError

unfoldable pub verify_timestamp : ℕ → ℕ → ℕ → ℕ → Option TxError
verify_timestamp container execution divisor window =
    if misaligned container divisor
    then some misaligned_timestamp
    else (if int64_lt container execution
        then some timestamp_expired
        else (if int64_lt ((execution + window) % u64_mod) container
            then some future_timestamp
            else none))

-- The methods of chain.Rules that transactions call.
pub record ChainRules : Type 0 where
  pub chain_id : ℕ
  pub validity_window : ℕ
  pub max_actions_per_tx : ℕ
  pub base_compute_units : ℕ
  pub storage_key_read_units : ℕ
  pub storage_value_read_units : ℕ
  pub storage_key_allocate_units : ℕ
  pub storage_value_allocate_units : ℕ
  pub storage_key_write_units : ℕ
  pub storage_value_write_units : ℕ

pub record Base : Type 0 where
  pub timestamp : ℕ
  pub chain_id : ℕ
  pub max_fee : ℕ

-- validityWindowTimestampDivisor
abbrev pub validity_window_timestamp_divisor : ℕ
validity_window_timestamp_divisor = 1000

unfoldable pub execute_base : Base → ChainRules → ℕ → Option TxError
execute_base b r timestamp =
    if nat_beq b.chain_id r.chain_id
    then verify_timestamp b.timestamp timestamp validity_window_timestamp_divisor r.validity_window
    else some invalid_chain_id

-- What an action returns: its output, or the text of its error.
pub data Output : Type 0 where
  returned : Bytes → Output
  failed : Bytes → Output

-- The methods of chain.Action, Auth and BalanceHandler that StateKeys, Units, PreExecute and Execute
-- call.
pub record Action : Type 0 where
  pub valid_range : ChainRules → ℕ × ℕ
  pub compute_units : ChainRules → ℕ
  pub state_keys : Bytes → ℕ → Keys
  pub execute : ChainRules → View → ℕ → Bytes → ℕ → View × Output

pub record Auth : Type 0 where
  pub valid_range : ChainRules → ℕ × ℕ
  pub compute_units : ChainRules → ℕ
  pub actor : Bytes
  pub sponsor : Bytes

pub record BalanceHandler : Type 0 where
  pub sponsor_state_keys : Bytes → Keys
  pub can_deduct : Bytes → Immutable → ℕ → Option Failure
  pub deduct : Bytes → View → ℕ → View × Option Failure

pub record Transaction : Type 0 where
  pub base : Base
  pub actions : List Action
  pub auth : Auth
  pub size : ℕ
  pub id : ℕ

-- chain.Result
pub record TxResult : Type 0 where
  pub success : Bool
  pub error : Bytes
  pub outputs : List Bytes
  pub units : Dimensions
  pub charged : ℕ

pub data Outcome {ℓ} (A : Type ℓ) : Type ℓ where
  done : A → Outcome A
  refused : TxError → Outcome A

-- for k, v := range keys { stateKeys.Add(k, v) }
unfoldable pub add_keys : Keys → Keys → Option Keys
add_keys [] acc = some acc
add_keys ((k, v) ∷ keys) acc =
    let (next, good) = add acc k v in elim good [ true ↦ add_keys keys next | false ↦ none ]

-- start >= 0 && timestamp < start, or end >= 0 && timestamp > end
abbrev pub out_of_range : ℕ × ℕ → ℕ → Bool
out_of_range (begin, end) timestamp =
    (not (is_negative begin) && int64_lt timestamp begin)
    || (not (is_negative end) && int64_lt end timestamp)

unfoldable pub check_actions : ChainRules → ℕ → List Action → ℕ → Option TxError
check_actions r timestamp [] i = none
check_actions r timestamp (a ∷ actions) i =
    let rest = check_actions r timestamp actions (i + 1) in
    if out_of_range (a.valid_range r) timestamp then some (action_not_activated i) else rest

pub record KeyCosts : Type 0 where
  pub reads : Uint64Operator
  pub allocates : Uint64Operator
  pub writes : Uint64Operator

abbrev pub no_costs : KeyCosts
no_costs = record {
  reads = new_uint64_operator 0;
  allocates = new_uint64_operator 0;
  writes = new_uint64_operator 0;
}

module _ (m : SafeMath) where
  unfoldable pub compute_loop : ChainRules → List Action → Uint64Operator → Uint64Operator
  compute_loop r [] o = o
  compute_loop r (a ∷ actions) o = compute_loop r actions (Operator.add m o (a.compute_units r))

  -- One round of the loop over the state keys, for a key of so many chunks.
  unfoldable pub key_round : ChainRules → ℕ → KeyCosts → KeyCosts
  key_round r chunks o = record {
    reads =
        mul_add m (Operator.add m o.reads r.storage_key_read_units) chunks
          r.storage_value_read_units;
    allocates =
        mul_add m (Operator.add m o.allocates r.storage_key_allocate_units) chunks
          r.storage_value_allocate_units;
    writes =
        mul_add m (Operator.add m o.writes r.storage_key_write_units) chunks
          r.storage_value_write_units;
  }

  unfoldable pub key_loop : ChainRules → Keys → KeyCosts → Option KeyCosts
  key_loop r [] o = some o
  key_loop r ((k, _) ∷ keys) o = elim (max_chunks k) [
    | none ↦ none
    | some chunks ↦ key_loop r keys (key_round r chunks o)
  ]

-- The vector of units, where no operator failed.
abbrev pub dimensions_of : ℕ → Option ℕ → Option ℕ → Option ℕ → Option ℕ → Outcome Dimensions
dimensions_of size (some compute) (some reads) (some allocates) (some writes) =
    done (size ∷ compute ∷ reads ∷ allocates ∷ writes ∷ [])
dimensions_of size (some compute) (some reads) (some allocates) none = refused units_overflow
dimensions_of size (some compute) (some reads) none writes = refused units_overflow
dimensions_of size (some compute) none allocates writes = refused units_overflow
dimensions_of size none reads allocates writes = refused units_overflow

module _ (m : SafeMath) (create_action_id : ℕ → ℕ → ℕ) (bh : BalanceHandler) where
  -- The loop of StateKeys over the actions; the index is a uint8.
  unfoldable pub action_keys : Transaction → List Action → ℕ → Keys → Option Keys
  action_keys t [] i acc = some acc
  action_keys t (a ∷ actions) i acc =
      elim (add_keys (a.state_keys t.auth.actor (create_action_id t.id (i % 256))) acc) [
        | none ↦ none
        | some next ↦ action_keys t actions (i + 1) next
      ]

  unfoldable pub state_keys : Transaction → Option Keys
  state_keys t = elim (action_keys t t.actions 0 []) [
    | none ↦ none
    | some acc ↦ add_keys (bh.sponsor_state_keys t.auth.sponsor) acc
  ]

  -- Units from where the loop over the state keys ended.
  abbrev units_of : ℕ → Option ℕ → Option KeyCosts → Outcome Dimensions
  units_of size compute none = refused invalid_key
  units_of size compute (some o) =
      dimensions_of size compute (value o.reads) (value o.allocates) (value o.writes)

  unfoldable pub units : Transaction → ChainRules → Outcome Dimensions
  units t r =
      let o : Uint64Operator =
        compute_loop m r t.actions (new_uint64_operator r.base_compute_units) in
      elim (value (Operator.add m o (t.auth.compute_units r))) [
        | none ↦ refused units_overflow
        | some c ↦ elim (state_keys t) [
          | none ↦ refused invalid_key
          | some keys ↦ units_of t.size (some c) (key_loop m r keys no_costs)
        ]
      ]
