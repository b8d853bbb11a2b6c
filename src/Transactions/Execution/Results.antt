-- ===== src/Transactions/Execution/Results.antt =====
-- The units of a result are those of its transaction.
use haven_claw.Prelude.{ℕ, ◌≡◌, ap, Option, none, some, List, [], arith}
use haven_claw.Bytes.{Bytes}
use haven_claw.SafeMath.{SafeMath}
use haven_claw.TState.View.{View}
use haven_claw.Balances.{Failure}
use haven_claw.Fees.Dimensions.{Dimensions}
use haven_claw.Transactions.{
  ChainRules, BalanceHandler, Transaction, TxResult, Outcome, done, refused, units,
}
use haven_claw.Transactions.Execution.{settle, paid, charge, execute_units, execute}

units_of : Outcome TxResult → Dimensions
units_of (done x) = x.units
units_of (refused e) = []

module _ (m : SafeMath) (ids : ℕ → ℕ → ℕ) (bh : BalanceHandler) (t : Transaction) (raw : Bytes)
    (r : ChainRules) (timestamp : ℕ) where
  settle-units :
      (u : Dimensions) (f start : ℕ) (x : View × (List Bytes) × Option Bytes) (result : TxResult)
      → (settle m ids bh u f start x).1 ≡ done result
      → u ≡ result.units
  unfolding units_of
  settle-units u f start (v, outputs, some e) result h = ap units_of h
  settle-units u f start (v, outputs, none) result h = ap units_of h

  paid-units :
      (u : Dimensions) (f : ℕ) (x : View × Option Failure) (result : TxResult)
      → (paid m ids bh t r timestamp u f x).1 ≡ done result
      → u ≡ result.units
  paid-units u f (v, some e) result h = absurd (ground (arith, h))
  paid-units u f (v, none) result h = settle-units u f _ _ result h

  charge-units :
      (v : View) (u : Dimensions) (f : Option ℕ) (result : TxResult)
      → (charge m ids bh t r timestamp v u f).1 ≡ done result
      → u ≡ result.units
  charge-units v u none result h = absurd (ground (arith, h))
  charge-units v u (some f) result h = paid-units u f _ result h

  execute_units-units :
      (v : View) (o : Outcome Dimensions) (result : TxResult)
      → (execute_units m ids bh t raw r timestamp v o).1 ≡ done result
      → o ≡ done result.units
  execute_units-units v (refused e) result h = absurd (ground (arith, h))
  execute_units-units v (done u) result h = ap done (charge-units v u _ result h)

  pub execute-units :
      (v : View) (result : TxResult)
      → (execute m ids bh t raw r v timestamp).1 ≡ done result
      → units m ids bh t r ≡ done result.units
  unfolding execute
  execute-units v result h = execute_units-units v _ result h
