-- ===== src/Transactions/Execution/Atomic.antt =====
-- A transaction that executes pays its fee, and one that fails leaves nothing else.
use haven_claw.Prelude.{
  ℕ, ◌+◌, ◌%◌, ◌≡◌, refl, sym, ap, true, false, Option, none, some, Option-cases, inl, inr, List,
  [], ◌∷◌, ◌++◌, length, length-append, arith,
}
use haven_claw.Bytes.{Bytes}
use haven_claw.SafeMath.{SafeMath}
use haven_claw.TState.{TState}
use haven_claw.TState.View.{View, op_index, read_value}
use haven_claw.TState.View.Undo.{WritesMatch}
use haven_claw.TState.View.Rollback.{Steps, start, next, Steps-WritesMatch, rollback-restores}
use haven_claw.Fees.Dimensions.{Dimensions}
use haven_claw.Fees.Manager.{fee}
use haven_claw.Balances.{Failure}
use haven_claw.Transactions.{
  ChainRules, Output, returned, failed, Action, BalanceHandler, Transaction, TxResult, Outcome,
  done, refused, units,
}
use haven_claw.Transactions.Execution.{
  after_action, run_actions, settle, paid, execute_units, execute,
}

pub Steps-trans : {v w u : View} → Steps v w → Steps w u → Steps v u
Steps-trans first start = first
Steps-trans first (next more st) = next (Steps-trans first more) st

-- Actions write a state only by Insert and Remove: it is a state.Mutable to them.
pub data WriteBySteps : List Action → Type 0 where
  no_action : WriteBySteps []
  one_more :
      {a : Action} {rest : List Action}
      → ((r : ChainRules) (v : View) (timestamp : ℕ) (actor : Bytes) (id : ℕ)
          → Steps v (a.execute r v timestamp actor id).0)
      → WriteBySteps rest
      → WriteBySteps (a ∷ rest)

result_of : Outcome TxResult → TxResult → TxResult
result_of (done x) other = x
result_of (refused e) other = other

done-same : {x y : TxResult} → done x ≡ done y → x ≡ y
unfolding result_of
done-same {x} {y} h = ap (λ (o : Outcome TxResult). result_of o x) h

module _ (ids : ℕ → ℕ → ℕ) (r : ChainRules) (timestamp : ℕ) (t : Transaction) where
  pub run_actions-Steps :
      (actions : List Action) (i : ℕ) (v : View) (outputs : List Bytes)
      → WriteBySteps actions
      → Steps v (run_actions ids r timestamp t actions i v outputs).0
  unfolding run_actions
  run_actions-Steps [] i v outputs h = start
  run_actions-Steps (a ∷ rest) i v outputs (one_more h hs) =
      go (a.execute r v timestamp t.auth.actor (ids t.id (i % 256)))
        (h r v timestamp t.auth.actor _)
        (λ w o. run_actions-Steps rest (i + 1) w (outputs ++ o ∷ []) hs)
    where
      go :
          (x : View × Output)
          → Steps v x.0
          → ((w : View) (o : Bytes)
              → Steps w (run_actions ids r timestamp t rest (i + 1) w (outputs ++ o ∷ [])).0)
          → Steps v (after_action (run_actions ids r timestamp t rest (i + 1)) outputs x).0
      go (w, failed e) st more = st
      go (w, returned o) st more = Steps-trans st (more w o)

  -- Where no action fails, each has given an output.
  run_actions-outputs :
      (actions : List Action) (i : ℕ) (v : View) (outputs : List Bytes)
      → (run_actions ids r timestamp t actions i v outputs).2 ≡ none
      → length (run_actions ids r timestamp t actions i v outputs).1
        ≡ length outputs + length actions
  unfolding run_actions
  run_actions-outputs [] i v outputs h = omega arith
  run_actions-outputs (a ∷ rest) i v outputs h =
      go (a.execute r v timestamp t.auth.actor (ids t.id (i % 256)))
        (λ w o. run_actions-outputs rest (i + 1) w (outputs ++ o ∷ [])) h
    where
      go :
          (x : View × Output)
          → ((w : View) (o : Bytes)
              → (run_actions ids r timestamp t rest (i + 1) w (outputs ++ o ∷ [])).2 ≡ none
              → length (run_actions ids r timestamp t rest (i + 1) w (outputs ++ o ∷ [])).1
                ≡ length (outputs ++ o ∷ []) + length rest)
          → (after_action (run_actions ids r timestamp t rest (i + 1)) outputs x).2 ≡ none
          → length (after_action (run_actions ids r timestamp t rest (i + 1)) outputs x).1
            ≡ length outputs + length (a ∷ rest)
      go (w, failed e) more h = cc
      go (w, returned o) more h = omega (arith, more w o h, length-append outputs (o ∷ []))

module _ (m : SafeMath) (ids : ℕ → ℕ → ℕ) (bh : BalanceHandler) (t : Transaction) (r : ChainRules)
    (timestamp : ℕ) (writes : WriteBySteps t.actions) where
  -- What a result says of the view that it comes with, from the view in which the fee is paid.
  abbrev pub Settled : View → View → TxResult → Type 0
  Settled w u res =
      (res.success ≡ false
        → (u.scope ≡ w.scope)
          × ((ts : TState) (key : Bytes) → read_value ts u key ≡ read_value ts w key))
      × (res.success ≡ true
          → (u ≡ (run_actions ids r timestamp t t.actions 0 w []).0)
            × (length res.outputs ≡ length t.actions))

  settle-Settled :
      (u : Dimensions) (f : ℕ) (w : View)
      → WritesMatch w
      → (res : TxResult)
      → (settle m ids bh u f (op_index w) (run_actions ids r timestamp t t.actions 0 w [])).1
        ≡ done res
      → (res.units ≡ u)
        × (res.charged ≡ f)
        × Settled w
            (settle m ids bh u f (op_index w) (run_actions ids r timestamp t t.actions 0 w [])).0
            res
  settle-Settled u f w match res h =
      go (run_actions ids r timestamp t t.actions 0 w []) refl
        (run_actions-Steps ids r timestamp t t.actions 0 w [] writes)
        (run_actions-outputs ids r timestamp t t.actions 0 w []) h
    where
      go :
          (x : View × (List Bytes) × Option Bytes)
          → run_actions ids r timestamp t t.actions 0 w [] ≡ x
          → Steps w x.0
          → (x.2 ≡ none → length x.1 ≡ 0 + length t.actions)
          → (settle m ids bh u f (op_index w) x).1 ≡ done res
          → (res.units ≡ u)
            × (res.charged ≡ f)
            × Settled w (settle m ids bh u f (op_index w) x).0 res
      go (v, outputs, some e) same st count h =
          let is_it = done-same h in
          rw (← is_it) (
            refl,
            refl,
            (
              λ bad. ((rollback-restores match st).1.scope, (rollback-restores match st).2),
              λ good. absurd (ground arith),
            ),
          )
      go (v, outputs, none) same st count h =
          let is_it = done-same h in
          rw (← is_it) (
            refl,
            refl,
            (
              λ bad. absurd (ground arith),
              λ good. (ap (λ x. x.0) (sym same), omega (arith, count refl)),
            ),
          )

  -- An Execute that returns a result. Its units are those of the transaction, its fee is theirs, and
  -- the sponsor has paid it, whatever the MaxFee of the transaction is. Where an action failed, the view has the scope that it had when the fee
  -- was paid and every key reads as it did then, and where none did, the view is the one that the
  -- actions left, with an output of each. The actions and the handler write only by
  -- Insert and Remove.
  pub execute-Settled :
      (raw : Bytes) (v : View)
      → WritesMatch v
      → ((f : ℕ) → Steps v (bh.deduct t.auth.sponsor v f).0)
      → (res : TxResult) → (execute m ids bh t raw r v timestamp).1 ≡ done res
      → (units m ids bh t r ≡ done res.units)
        × (fee m res.units raw ≡ some res.charged)
        × ((bh.deduct t.auth.sponsor v res.charged).1 ≡ none)
        × Settled
            (bh.deduct t.auth.sponsor v res.charged).0
            (execute m ids bh t raw r v timestamp).0
            res
  unfolding execute
  execute-Settled raw v match pays res h = go (units m ids bh t r) refl h
    where
      after_fee :
          (u : Dimensions) (f : ℕ) (x : View × Option Failure)
          → WritesMatch x.0
          → (paid m ids bh t r timestamp u f x).1 ≡ done res
          → (x.1 ≡ none)
            × (res.units ≡ u)
            × (res.charged ≡ f)
            × Settled x.0 (paid m ids bh t r timestamp u f x).0 res
      after_fee u f (w, some e) good h = cc
      after_fee u f (w, none) good h =
          let (is_units, is_fee, settled) = settle-Settled u f w good res h in
          (refl, is_units, is_fee, settled)

      go :
          (o : Outcome Dimensions)
          → units m ids bh t r ≡ o
          → (execute_units m ids bh t raw r timestamp v o).1 ≡ done res
          → (units m ids bh t r ≡ done res.units)
            × (fee m res.units raw ≡ some res.charged)
            × ((bh.deduct t.auth.sponsor v res.charged).1 ≡ none)
            × Settled
                (bh.deduct t.auth.sponsor v res.charged).0
                (execute_units m ids bh t raw r timestamp v o).0
                res
      go (refused e) same h = cc
      go (done u) same h = elim (Option-cases (fee m u raw)) [
        | inl too_big ↦ absurd (ground arith)
        | inr (f, known) ↦
            let (took, is_units, is_fee, settled) =
              after_fee u f (bh.deduct t.auth.sponsor v f) (Steps-WritesMatch match (pays f))
                (rw known at h) in
            rw (is_units, is_fee, known) (same, refl, took, settled)
      ]
