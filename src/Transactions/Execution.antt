-- ===== src/Transactions/Execution.antt =====
-- PreExecute and Execute of a transaction, and what Execute leaves of a failed one.
pub mod Atomic
pub mod Admits
pub mod Results
use haven_claw.Prelude.{
  ℕ, zero, suc, ◌+◌, ◌%◌, ◌≤◌, ◌<◌, ◌≡◌, refl, sym, ap, ◌∙◌, Bool, true, false, Option, none, some,
  Option-cases, inl, inr, List, [], ◌∷◌, ◌++◌, ltb, if◌then◌else◌, length, arith,
}
use haven_claw.Bytes.{Bytes}
use haven_claw.SafeMath.{SafeMath}
use haven_claw.TState.{TState, Immutable}
use haven_claw.TState.View.{View, op_index, rollback, read_value}
use haven_claw.TState.View.Undo.{WritesMatch}
use haven_claw.TState.View.Rollback.{Steps, start, next, Steps-WritesMatch, rollback-restores}
use haven_claw.Fees.Dimensions.{Dimensions}
use haven_claw.Fees.Manager.{fee}
use haven_claw.Balances.{Failure}
use haven_claw.Transactions.{
  TxError, too_many_actions, auth_not_activated, units_overflow, balance_failure, ChainRules,
  execute_base, Output, returned, failed, Action, BalanceHandler, Transaction, TxResult, Outcome,
  done, refused, out_of_range, check_actions, units,
}

-- A round of the loop of Execute over the actions, which goes on where the action has an output.
abbrev pub after_action :
    (View → List Bytes → View × (List Bytes) × Option Bytes)
    → List Bytes
    → View × Output
    → View × (List Bytes) × Option Bytes
after_action continue outputs (w, failed e) = (w, outputs, some e)
after_action continue outputs (w, returned o) = continue w (outputs ++ o ∷ [])

-- The loop up to the first error.
unfoldable pub run_actions :
    (ℕ → ℕ → ℕ)
    → ChainRules
    → ℕ
    → Transaction
    → List Action
    → ℕ
    → View
    → List Bytes
    → View × (List Bytes) × Option Bytes
run_actions ids r timestamp t [] i v outputs = (v, outputs, none)
run_actions ids r timestamp t (a ∷ actions) i v outputs =
    after_action (λ w outs. run_actions ids r timestamp t actions (i + 1) w outs) outputs
      (a.execute r v timestamp t.auth.actor (ids t.id (i % 256)))

module _ (m : SafeMath) (create_action_id : ℕ → ℕ → ℕ) (bh : BalanceHandler) where
  abbrev priced : Option ℕ → (ℕ → Option TxError) → Option TxError
  priced none check = some units_overflow
  priced (some f) check = check f

  abbrev deductible : Option Failure → Option TxError
  deductible none = none
  deductible (some e) = some (balance_failure e)

  -- The part of PreExecute behind the time ranges.
  abbrev check_fee : Transaction → Bytes → Immutable → Outcome Dimensions → Option TxError
  check_fee t raw im (refused e) = some e
  check_fee t raw im (done u) =
      priced (fee m u raw) (λ f. deductible (bh.can_deduct t.auth.sponsor im f))

  unfoldable pub pre_execute : Transaction → Bytes → ChainRules → Immutable → ℕ → Option TxError
  pre_execute t raw r im timestamp = elim (execute_base t.base r timestamp) [
    | some e ↦ some e
    | none ↦
        if ltb r.max_actions_per_tx (length t.actions)
        then some too_many_actions
        else (elim (check_actions r timestamp t.actions 0) [
          | some e ↦ some e
          | none ↦
              if out_of_range (t.auth.valid_range r) timestamp
              then some auth_not_activated
              else check_fee t raw im (units m create_action_id bh t r)
        ])
  ]

  -- Execute from where the loop over the actions ended.
  abbrev settle : Dimensions → ℕ → ℕ → View × (List Bytes) × Option Bytes → View × Outcome TxResult
  settle u f action_start (v, outputs, some e) = (
    rollback action_start v,
    done (record { success = false; error = e; outputs = outputs; units = u; charged = f }),
  )
  settle u f action_start (v, outputs, none) =
      (v, done (record { success = true; error = []; outputs = outputs; units = u; charged = f }))

  -- Execute from where Deduct returned.
  abbrev paid :
      Transaction
      → ChainRules
      → ℕ
      → Dimensions
      → ℕ
      → View × Option Failure
      → View × Outcome TxResult
  paid t r timestamp u f (v, some e) = (v, refused (balance_failure e))
  paid t r timestamp u f (v, none) =
      settle u f (op_index v) (run_actions create_action_id r timestamp t t.actions 0 v [])

  abbrev charge :
      Transaction → ChainRules → ℕ → View → Dimensions → Option ℕ → View × Outcome TxResult
  charge t r timestamp v u none = (v, refused units_overflow)
  charge t r timestamp v u (some f) = paid t r timestamp u f (bh.deduct t.auth.sponsor v f)

  abbrev execute_units :
      Transaction → Bytes → ChainRules → ℕ → View → Outcome Dimensions → View × Outcome TxResult
  execute_units t raw r timestamp v (refused e) = (v, refused e)
  execute_units t raw r timestamp v (done u) = charge t r timestamp v u (fee m u raw)

  unfoldable pub execute : Transaction → Bytes → ChainRules → View → ℕ → View × Outcome TxResult
  execute t raw r v timestamp = execute_units t raw r timestamp v (units m create_action_id bh t r)
