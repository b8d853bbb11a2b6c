-- ===== src/Blocks/Processing/Steps.antt =====
-- A transaction that executeTxs goes on behind, and what it adds.
use haven_claw.Prelude.{
  ℕ, ◌≡◌, refl, sym, ap, ◌∙◌, ◌≤◌, Bool, true, false, Option, none, some, [], ◌∷◌, ◌++◌, length,
  arith,
}
use haven_claw.Bytes.{Bytes}
use haven_claw.Dict.{Dict}
use haven_claw.SafeMath.{SafeMath, IsChecked}
use haven_claw.StateKeys.{Keys, without_permissions}
use haven_claw.TState.{Error, Result, ok, err, Immutable, TState}
use haven_claw.TState.View.{View}
use haven_claw.Prelude.Words.{max_uint64}
use haven_claw.Fees.Dimensions.{Dimensions, at}
use haven_claw.Fees.Manager.{consume, raw_len}
use haven_claw.Fees.Manager.Consume.{HasRoom, Consumed, consume-atomic}
use haven_claw.Transactions.{BalanceHandler, TxError, TxResult, Outcome, done, refused}
use haven_claw.Transactions.Execution.{execute}
use haven_claw.Transactions.Execution.Results.{execute-units}
use haven_claw.Blocks.{BlockRules, BlockError, BlockTransaction}
use haven_claw.Blocks.Processing.{
  Progress, fetched, units_in, finish, admit, run_task, queue, consumed, with_units, with_keys,
  add_tx,
}

dimensions_of : Outcome Dimensions → Dimensions
dimensions_of (done u) = u
dimensions_of (refused e) = []

done-units : {u w : Dimensions} → done u ≡ done w → u ≡ w
unfolding dimensions_of
done-units same = ap dimensions_of same

-- No error of the fetcher or of the executor
abbrev pub Good : Progress → Type 0
Good p = (p.fetch_error ≡ none) × (p.task_error ≡ none)

module _ (m : SafeMath) (ids : ℕ → ℕ → ℕ) (bh : TState → BalanceHandler) (im : Immutable)
    (r : BlockRules) (timestamp : ℕ) where
  -- The result that a task adds
  record Ran (p : Progress) (tx : BlockTransaction) (q : Progress) : Type 0 where
    pub started : Good p
    pub result : TxResult
    pub view : View
    pub ran :
        (execute m ids (bh p.ts) (tx p.ts) p.fee_manager r.chain view timestamp).1 ≡ done result
    pub results : q.results ≡ p.results ++ result ∷ []
    pub fees : q.fee_manager ≡ p.fee_manager

  finish-Ran :
      (p : Progress) (tx : BlockTransaction) (v : View) (x : View × Outcome TxResult)
      → execute m ids (bh p.ts) (tx p.ts) p.fee_manager r.chain v timestamp ≡ x
      → Good (finish m ids bh im r timestamp p x)
      → Ran p tx (finish m ids bh im r timestamp p x)
  finish-Ran p tx v (w, refused e) ran good = absurd (ground (arith, good.1))
  finish-Ran p tx v (w, done result) ran good = record {
    started = good;
    result = result;
    view = v;
    ran = ap (λ y. y.1) ran;
    results = refl;
    fees = refl;
  }

  admit-Ran :
      (p : Progress) (tx : BlockTransaction) (v : View) (e : Option TxError)
      → Good (admit m ids bh im r timestamp p tx v e)
      → Ran p tx (admit m ids bh im r timestamp p tx v e)
  admit-Ran p tx v (some e) good = absurd (ground (arith, good.1))
  admit-Ran p tx v none good = finish-Ran p tx v _ refl good

  run_task-Ran :
      (p : Progress) (tx : BlockTransaction) (keys : Keys) (e : Option BlockError)
      (storage : Result (Dict Bytes Bytes))
      → p.task_error ≡ e
      → Good (run_task m ids bh im r timestamp p tx keys e storage)
      → Ran p tx (run_task m ids bh im r timestamp p tx keys e storage)
  run_task-Ran p tx keys (some e) (ok storage) same good = absurd (ground (arith, same, good.1))
  run_task-Ran p tx keys none (ok storage) same good = admit-Ran p tx _ _ good
  run_task-Ran p tx keys (some e) (err x) same good = absurd (ground (arith, good.0))
  run_task-Ran p tx keys none (err x) same good = absurd (ground (arith, good.0))

  queue-Ran :
      (p : Progress) (tx : BlockTransaction) (keys : Keys) (e : Option Error)
      → (queue m ids bh im r timestamp p tx keys e).1 ≡ none
      → Good (queue m ids bh im r timestamp p tx keys e).0
      → Ran p tx (queue m ids bh im r timestamp p tx keys e).0
  queue-Ran p tx keys (some e) returned good = absurd (ground (arith, returned))
  queue-Ran p tx keys none returned good =
      run_task-Ran p tx keys p.task_error (fetched im (without_permissions keys)) refl good

  consumed-started :
      (p : Progress) (tx : BlockTransaction) (keys : Keys) (x : Bytes × Bool × ℕ)
      → (consumed m ids bh im r timestamp p tx keys x).1 ≡ none
      → Good (consumed m ids bh im r timestamp p tx keys x).0
      → Good p
  consumed-started p tx keys (fees, false, d) returned good = absurd (ground (arith, returned))
  consumed-started p tx keys (fees, true, d) returned good =
      let ran = queue-Ran (record p { fee_manager = fees }) tx keys p.fetch_error returned good in
      ran.started

  with_units-started :
      (p : Progress) (tx : BlockTransaction) (keys : Keys) (o : Outcome Dimensions)
      → (with_units m ids bh im r timestamp p tx keys o).1 ≡ none
      → Good (with_units m ids bh im r timestamp p tx keys o).0
      → Good p
  with_units-started p tx keys (refused e) returned good = absurd (ground (arith, returned))
  with_units-started p tx keys (done u) returned good = consumed-started p tx keys _ returned good

  with_keys-started :
      (p : Progress) (tx : BlockTransaction) (keys : Option Keys)
      → (with_keys m ids bh im r timestamp p tx keys).1 ≡ none
      → Good (with_keys m ids bh im r timestamp p tx keys).0
      → Good p
  with_keys-started p tx none returned good = absurd (ground (arith, returned))
  with_keys-started p tx (some keys) returned good = with_units-started p tx keys _ returned good

  -- No error was there before a transaction that leaves none.
  pub add_tx-started :
      (p : Progress) (tx : BlockTransaction)
      → (add_tx m ids bh im r timestamp p tx).1 ≡ none
      → Good (add_tx m ids bh im r timestamp p tx).0
      → Good p
  unfolding add_tx
  add_tx-started p tx returned good = with_keys-started p tx _ returned good

  -- What a transaction adds: its result, the units of which are consumed.
  pub record Added (p q : Progress) : Type 0 where
    pub result : TxResult
    pub results : q.results ≡ p.results ++ result ∷ []
    pub room : HasRoom result.units r.max_block_units p.fee_manager
    pub spent : Consumed result.units p.fee_manager q.fee_manager

  module _ (safe : IsChecked m) (small : (j : ℕ) → at r.max_block_units j ≤ max_uint64) where
    consumed-Added :
        (p : Progress) (tx : BlockTransaction) (keys : Keys) (u : Dimensions) (x : Bytes × Bool × ℕ)
        → length p.fee_manager ≡ raw_len
        → consume m u r.max_block_units p.fee_manager ≡ x
        → units_in m ids bh im r timestamp p.ts tx ≡ done u
        → (consumed m ids bh im r timestamp p tx keys x).1 ≡ none
        → Good (consumed m ids bh im r timestamp p tx keys x).0
        → Added p (consumed m ids bh im r timestamp p tx keys x).0
    consumed-Added p tx keys u (fees, false, d) size same costs returned good =
        absurd (ground (arith, returned))
    consumed-Added p tx keys u (fees, true, d) size same costs returned good =
        let (succeeds, room, fails) =
          consume-atomic m safe u r.max_block_units p.fee_manager size small in
        let fits = room (ap (λ y. y.1) same) in
        let spent = (succeeds fits).1 in
        let q = record p { fee_manager = fees } in
        let ran = queue-Ran q tx keys p.fetch_error returned good in
        let mine : u ≡ ran.result.units = done-units (
          sym costs
          ∙ execute-units m ids (bh p.ts) (tx p.ts) fees r.chain timestamp ran.view ran.result
              ran.ran) in
        record {
          result = ran.result;
          results = ran.results;
          room = rw (← mine) fits;
          spent = rw (ran.fees, ← mine, ← ap (λ y. y.0) same) spent;
        }

    with_units-Added :
        (p : Progress) (tx : BlockTransaction) (keys : Keys) (o : Outcome Dimensions)
        → length p.fee_manager ≡ raw_len
        → units_in m ids bh im r timestamp p.ts tx ≡ o
        → (with_units m ids bh im r timestamp p tx keys o).1 ≡ none
        → Good (with_units m ids bh im r timestamp p tx keys o).0
        → Added p (with_units m ids bh im r timestamp p tx keys o).0
    with_units-Added p tx keys (refused e) size costs returned good =
        absurd (ground (arith, returned))
    with_units-Added p tx keys (done u) size costs returned good =
        consumed-Added p tx keys u _ size refl costs returned good

    with_keys-Added :
        (p : Progress) (tx : BlockTransaction) (keys : Option Keys)
        → length p.fee_manager ≡ raw_len
        → (with_keys m ids bh im r timestamp p tx keys).1 ≡ none
        → Good (with_keys m ids bh im r timestamp p tx keys).0
        → Added p (with_keys m ids bh im r timestamp p tx keys).0
    with_keys-Added p tx none size returned good = absurd (ground (arith, returned))
    with_keys-Added p tx (some keys) size returned good =
        with_units-Added p tx keys _ size refl returned good

    pub add_tx-Added :
        (p : Progress) (tx : BlockTransaction)
        → length p.fee_manager ≡ raw_len
        → (add_tx m ids bh im r timestamp p tx).1 ≡ none
        → Good (add_tx m ids bh im r timestamp p tx).0
        → Added p (add_tx m ids bh im r timestamp p tx).0
    unfolding add_tx
    add_tx-Added p tx size returned good = with_keys-Added p tx _ size returned good
