-- ===== src/Blocks/Processing/Accounts.antt =====
-- The account of the units of a block.
use haven_claw.Prelude.{
  ℕ, suc, ◌+◌, ◌≤◌, ◌<◌, ◌≡◌, refl, ap, ◌∙◌, Option, none, some, List, [], ◌∷◌, ◌++◌, length, arith,
}
use haven_claw.Prelude.Words.{max_uint64}
use haven_claw.Bytes.{Bytes}
use haven_claw.SafeMath.{SafeMath, IsChecked}
use haven_claw.TState.{Error, Immutable, TState}
use haven_claw.Fees.Dimensions.{at}
use haven_claw.Fees.Manager.{raw_len, last_consumed}
use haven_claw.Fees.Manager.Layout.{SamePrices, SamePrices-trans}
use haven_claw.Transactions.{BalanceHandler, TxResult}
use haven_claw.Blocks.{BlockRules, BlockError, BlockTransaction, Checked, made, rejected}
use haven_claw.Blocks.Processing.{
  Progress, add_tx, add_txs, go_on, ended, waited, at_start, execute_txs,
}
use haven_claw.Blocks.Processing.Steps.{Good, Added, add_tx-Added, add_tx-started}

-- The units of results in a dimension
abbrev pub total_units : ℕ → List TxResult → ℕ
total_units j [] = 0
total_units j (x ∷ xs) = at x.units j + total_units j xs

-- What a block adds: a result for each transaction, the units of which are consumed.
pub record Accounted (r : BlockRules) (count : ℕ) (p q : Progress) : Type 0 where
  pub added : List TxResult
  pub results : q.results ≡ p.results ++ added
  pub count_same : length added ≡ count
  pub prices : SamePrices p.fee_manager q.fee_manager
  pub units :
      (j : ℕ)
      → j < 5
      → last_consumed j q.fee_manager ≡ last_consumed j p.fee_manager + total_units j added
  pub within :
      (j : ℕ)
      → j < 5
      → last_consumed j p.fee_manager ≤ at r.max_block_units j
      → last_consumed j q.fee_manager ≤ at r.max_block_units j

joined : {A : Type 0} → (xs ys : List A) (x : A) → (xs ++ x ∷ []) ++ ys ≡ xs ++ x ∷ ys
joined [] ys x = refl
joined (z ∷ xs) ys x = ap (λ l. z ∷ l) (joined xs ys x)

ends : {A : Type 0} → (xs : List A) → xs ≡ xs ++ []
ends [] = refl
ends (x ∷ xs) = ap (λ l. x ∷ l) (ends xs)

nothing-Accounted : (r : BlockRules) (p : Progress) → Accounted r 0 p p
nothing-Accounted r p = record {
  added = [];
  results = ends p.results;
  count_same = refl;
  prices = record { size = refl; time = refl; prices = λ j h. refl; windows = λ j h. refl };
  units = λ j h. omega arith;
  within = λ j h fits. fits;
}

progress_of : Checked Progress → Progress → Progress
progress_of (made p) other = p
progress_of (rejected e) other = other

made-same : {p q : Progress} → made p ≡ made q → p ≡ q
unfolding progress_of
made-same {p} h = ap (λ c. progress_of c p) h

module _ (m : SafeMath) (ids : ℕ → ℕ → ℕ) (bh : TState → BalanceHandler) (im : Immutable)
    (r : BlockRules) (timestamp : ℕ) where
  one-Accounted :
      (p p1 q : Progress) (n : ℕ)
      → Added m ids bh im r timestamp p p1
      → Accounted r n p1 q
      → Accounted r (suc n) p q
  one-Accounted p p1 q n one more = record {
    added = one.result ∷ more.added;
    results =
        more.results
        ∙ ap (λ l. l ++ more.added) one.results
        ∙ joined p.results more.added one.result;
    count_same = omega (arith, more.count_same);
    prices = SamePrices-trans one.spent.same more.prices;
    units = λ j h. omega (arith, more.units j h, one.spent.added j h);
    within = λ j h fits. more.within j h (omega (arith, one.spent.added j h, one.room j h));
  }

  go_on-returned :
      (rest : Progress → Progress × Option BlockError) (x : Progress × Option BlockError)
      → (go_on m ids bh im r timestamp rest x).1 ≡ none
      → (x.1 ≡ none) × (go_on m ids bh im r timestamp rest x ≡ rest x.0)
  go_on-returned rest (p, some e) returned = absurd (ground (arith, returned))
  go_on-returned rest (p, none) returned = (refl, refl)

  add_txs-started :
      (txs : List BlockTransaction) (p : Progress)
      → (add_txs m ids bh im r timestamp txs p).1 ≡ none
      → Good (add_txs m ids bh im r timestamp txs p).0
      → Good p
  unfolding add_txs
  add_txs-started [] p returned good = good
  add_txs-started (tx ∷ txs) p returned good =
      let one = add_tx m ids bh im r timestamp p tx in
      let (step, same) = go_on-returned (add_txs m ids bh im r timestamp txs) one returned in
      add_tx-started m ids bh im r timestamp p tx step
        (add_txs-started txs one.0 (rw (← same) returned) (rw (← same) good))

  module _ (safe : IsChecked m) (small : (j : ℕ) → at r.max_block_units j ≤ max_uint64) where
    add_txs-Accounted :
        (txs : List BlockTransaction) (p : Progress)
        → length p.fee_manager ≡ raw_len
        → (add_txs m ids bh im r timestamp txs p).1 ≡ none
        → Good (add_txs m ids bh im r timestamp txs p).0
        → Accounted r (length txs) p (add_txs m ids bh im r timestamp txs p).0
    unfolding add_txs
    add_txs-Accounted [] p size returned good = nothing-Accounted r p
    add_txs-Accounted (tx ∷ txs) p size returned good =
        let one = add_tx m ids bh im r timestamp p tx in
        let (step, same) = go_on-returned (add_txs m ids bh im r timestamp txs) one returned in
        let rest_returned : (add_txs m ids bh im r timestamp txs one.0).1 ≡ none =
          rw (← same) returned in
        let rest_good : Good (add_txs m ids bh im r timestamp txs one.0).0 = rw (← same) good in
        let added =
          add_tx-Added m ids bh im r timestamp safe small p tx size step
            (add_txs-started txs one.0 rest_returned rest_good) in
        rw same (
          one-Accounted p one.0 _ (length txs) added
            (add_txs-Accounted txs one.0 (added.spent.same.size ∙ size) rest_returned rest_good))

    ended-made :
        (q p : Progress) (e : Option Error) (f : Option BlockError)
        → ended m ids bh im r timestamp q e f ≡ made p
        → (e ≡ none) × (f ≡ none) × (q ≡ p)
    ended-made q p (some e) f h = absurd (ground (arith, h))
    ended-made q p none (some f) h = absurd (ground (arith, h))
    ended-made q p none none h = (refl, refl, made-same h)

    waited-made :
        (x : Progress × Option BlockError) (p : Progress)
        → waited m ids bh im r timestamp x ≡ made p
        → (x.1 ≡ none) × Good x.0 × (x.0 ≡ p)
    waited-made (q, some e) p h = absurd (ground (arith, h))
    waited-made (q, none) p h =
        let (fetched, ran, same) = ended-made q p q.fetch_error q.task_error h in
        (refl, (fetched, ran), same)

    -- Where executeTxs succeeds there is a result for each transaction of the block. In each
    -- dimension the fee manager has then consumed what the results say, on top of what it had, and
    -- this is within the limit of a block if it was within it before; its prices, windows and time
    -- are those from before. The limits are uint64, and the bytes have the length of a fee manager.
    pub execute_txs-Accounted :
        (txs : List BlockTransaction) (fees : Bytes) (p : Progress)
        → length fees ≡ raw_len
        → execute_txs m ids bh im r timestamp txs fees ≡ made p
        → Accounted r (length txs) (at_start m ids bh im r timestamp fees) p
    unfolding execute_txs
    execute_txs-Accounted txs fees p size succeeds =
        let (returned, good, same) = waited-made _ p succeeds in
        rw (← same)
          (add_txs-Accounted txs (at_start m ids bh im r timestamp fees) size returned good)
