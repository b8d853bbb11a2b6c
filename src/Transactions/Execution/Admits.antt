-- ===== src/Transactions/Execution/Admits.antt =====
-- A transaction that PreExecute admits is one that Execute gives a result for.
use haven_claw.Prelude.{
  ℕ, ◌≤◌, ◌≡◌, refl, Option, none, some, Option-cases, inl, inr, List, length, arith,
}
use haven_claw.Bytes.{Bytes}
use haven_claw.SafeMath.{SafeMath}
use haven_claw.TState.{Immutable}
use haven_claw.TState.View.{View}
use haven_claw.Fees.Dimensions.{Dimensions}
use haven_claw.Fees.Manager.{fee}
use haven_claw.Balances.{Failure}
use haven_claw.Transactions.{
  ChainRules, BalanceHandler, Transaction, TxResult, Outcome, done, refused, execute_base,
  check_actions, units,
}
use haven_claw.Transactions.Execution.{settle, paid, execute, check_fee, deductible, pre_execute}

module _ (m : SafeMath) (ids : ℕ → ℕ → ℕ) (bh : BalanceHandler) (t : Transaction)
    (r : ChainRules) where
  -- The fee that PreExecute has found payable.
  abbrev pub Payable : Bytes → Immutable → Type 0
  Payable raw im =
      (u : Dimensions) × (f : ℕ) × (units m ids bh t r ≡ done u)
      × (fee m u raw ≡ some f)
      × (bh.can_deduct t.auth.sponsor im f ≡ none)

  check_fee-Payable :
      (raw : Bytes) (im : Immutable)
      → check_fee m ids bh t raw im (units m ids bh t r) ≡ none
      → Payable raw im
  check_fee-Payable raw im h = go (units m ids bh t r) refl h
    where
      deducts : (e : Option Failure) → deductible m ids bh e ≡ none → e ≡ none
      deducts none d = refl
      deducts (some e) d = cc

      go :
          (o : Outcome Dimensions)
          → units m ids bh t r ≡ o
          → check_fee m ids bh t raw im o ≡ none
          → Payable raw im
      go (refused e) same d = cc
      go (done u) same d = elim (Option-cases (fee m u raw)) [
        | inl too_big ↦ absurd (ground arith)
        | inr (f, known) ↦ (u, f, same, known, deducts _ (rw known at d))
      ]

  execute-result :
      (raw : Bytes) (v : View) (timestamp : ℕ) (u : Dimensions) (f : ℕ)
      → units m ids bh t r ≡ done u
      → fee m u raw ≡ some f
      → (bh.deduct t.auth.sponsor v f).1 ≡ none
      → (res : TxResult) × ((execute m ids bh t raw r v timestamp).1 ≡ done res)
  unfolding execute
  execute-result raw v timestamp u f known priced took =
      rw (known, priced) (pay (bh.deduct t.auth.sponsor v f) took)
    where
      settles :
          (w : ℕ) (x : View × (List Bytes) × Option Bytes)
          → (res : TxResult) × ((settle m ids bh u f w x).1 ≡ done res)
      settles w (v, outputs, some e) = (_, refl)
      settles w (v, outputs, none) = (_, refl)

      pay :
          (x : View × Option Failure)
          → x.1 ≡ none
          → (res : TxResult) × ((paid m ids bh t r timestamp u f x).1 ≡ done res)
      pay (w, some e) good = cc
      pay (w, none) good = settles _ _

  this_chain :
      (timestamp : ℕ) → execute_base t.base r timestamp ≡ none → t.base.chain_id ≡ r.chain_id
  unfolding execute_base
  this_chain timestamp h = ground arith

  admits :
      (raw : Bytes) (im : Immutable) (timestamp : ℕ)
      → pre_execute m ids bh t raw r im timestamp ≡ none
      → (t.base.chain_id ≡ r.chain_id)
        × (length t.actions ≤ r.max_actions_per_tx)
        × (check_fee m ids bh t raw im (units m ids bh t r) ≡ none)
  unfolding pre_execute
  admits raw im timestamp h = elim (Option-cases (execute_base t.base r timestamp)) [
    | inr (e, wrong) ↦ absurd (ground arith)
    | inl base ↦ elim (Option-cases (check_actions r timestamp t.actions 0)) [
      | inr (e, early) ↦ absurd (ground arith)
      | inl active ↦ (this_chain timestamp base, ground arith, ground arith)
    ]
  ]

  -- What PreExecute admits is of this chain, has no more actions than the rules allow and can pay
  -- the fee of its units, whatever its MaxFee is. Execute then returns a result, and no error, on every view and at every
  -- time at which Deduct of that fee succeeds.
  pub pre_execute-execute :
      (raw : Bytes) (im : Immutable) (timestamp : ℕ)
      → pre_execute m ids bh t raw r im timestamp ≡ none
      → (t.base.chain_id ≡ r.chain_id)
        × (length t.actions ≤ r.max_actions_per_tx)
        × (u : Dimensions) × (f : ℕ) × (units m ids bh t r ≡ done u)
        × (fee m u raw ≡ some f)
        × (bh.can_deduct t.auth.sponsor im f ≡ none)
        × ((v : View) (later : ℕ)
            → (bh.deduct t.auth.sponsor v f).1 ≡ none
            → (res : TxResult) × ((execute m ids bh t raw r v later).1 ≡ done res))
  pre_execute-execute raw im timestamp h =
      let (same_chain, few, payable) = admits raw im timestamp h in
      let (u, f, known, priced, can) = check_fee-Payable raw im payable in
      (
        same_chain,
        few,
        u,
        f,
        known,
        priced,
        can,
        λ v later took. execute-result raw v later u f known priced took,
      )
