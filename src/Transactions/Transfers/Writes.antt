-- ===== src/Transactions/Transfers/Writes.antt =====
-- A failed transaction of transfers costs its sponsor the fee, and nothing else.
use haven_claw.Prelude.{
  ℕ, ◌-◌, ◌≤◌, ◌≡◌, ap, ◌∙◌, Bool, true, false, Option, none, some, Bool-cases, inl, inr, List, [],
  ◌∷◌, map, arith, ltb, nat_beq, length, ◌==◌, bytes_comparable,
}
use haven_claw.Bytes.{Bytes}
use haven_claw.SafeMath.{SafeMath, IsChecked}
use haven_claw.StateKeys.{Scope, read}
use haven_claw.TState.{
  TState, Immutable, Result, ok, err, not_found, invalid_key_or_permission, invalid_key_value,
  storage_error,
}
use haven_claw.TState.View.{View, new_view, read_value, get_value}
use haven_claw.TState.View.Rollback.{Steps, start, next, inserting, removing, new_view-WritesMatch}
use haven_claw.Mutable.Views.{view_mutable, view_mutable-IsStore}
use haven_claw.Balances.{Failure, Uint64Codec, IsBigEndian}
use haven_claw.Balances.Handler.{
  balance_key, get_balance, deduct, deduct_parsed, deduct_known, known_balance,
}
use haven_claw.Balances.Handler.Laws.{deduct-Credits}
use haven_claw.Balances.Morpheus.{
  Transfer, TransferResult, inner_get_balance, add_total, add_known, add_balance, sub_rest,
  sub_known, sub_balance, received, sent, execute_transfer, max_memo_size,
}
use haven_claw.Balances.Morpheus as Morpheus
use haven_claw.Fees.Manager.{fee}
use haven_claw.Transactions.{ChainRules, Transaction, TxResult, done}
use haven_claw.Transactions.Execution.{execute}
use haven_claw.Transactions.Execution.Atomic.{
  Steps-trans, WriteBySteps, no_action, one_more, execute-Settled,
}
use haven_claw.Transactions.Transfers.{transfer_action, prefix_handler}

module _ (c : Uint64Codec) (sm : SafeMath) (ts : TState) where
  pub deduct-Steps :
      (prefix : Bytes) (v : View) (addr : Bytes) (amount : ℕ)
      → Steps v (deduct (view_mutable ts) c sm prefix v addr amount).0
  unfolding deduct
  deduct-Steps prefix v addr amount = go (get_value ts v (balance_key prefix addr))
    where
      parsed :
          (o : Option ℕ)
          → Steps v
              (deduct_parsed (view_mutable ts) c sm prefix v (balance_key prefix addr) amount o).0
      parsed none = start
      parsed (some b) = elim (Bool-cases (ltb b amount)) [
        | inl short ↦ rw short start
        | inr enough ↦
            rw enough (next start (inserting ts (balance_key prefix addr) (c.pack (b - amount))))
      ]

      go :
          (r : Result Bytes)
          → Steps v
              (deduct_known (view_mutable ts) c sm prefix v (balance_key prefix addr) amount r).0
      go (ok value) = parsed (c.parse value)
      go (err not_found) = start
      go (err invalid_key_or_permission) = start
      go (err invalid_key_value) = start
      go (err (storage_error code)) = start

  add_balance-Steps :
      (v : View) (addr : Bytes) (amount : ℕ)
      → Steps v (add_balance (view_mutable ts) c sm v addr amount).0
  unfolding add_balance
  add_balance-Steps v addr amount =
      go (inner_get_balance c (get_value ts v (Morpheus.balance_key addr)))
    where
      total :
          (o : Option ℕ)
          → Steps v (add_total (view_mutable ts) c sm v (Morpheus.balance_key addr) o).0
      total none = start
      total (some n) = next start (inserting ts (Morpheus.balance_key addr) _)

      go :
          (r : ℕ × Bool × Option Failure)
          → Steps v (add_known (view_mutable ts) c sm v (Morpheus.balance_key addr) amount r).0
      go (b, exists, some e) = start
      go (b, exists, none) = total (sm.add b amount)

  sub_balance-Steps :
      (v : View) (addr : Bytes) (amount : ℕ)
      → Steps v (sub_balance (view_mutable ts) c sm v addr amount).0
  unfolding sub_balance
  sub_balance-Steps v addr amount =
      go (inner_get_balance c (get_value ts v (Morpheus.balance_key addr)))
    where
      rest :
          (o : Option ℕ)
          → Steps v (sub_rest (view_mutable ts) c sm v (Morpheus.balance_key addr) o).0
      rest none = start
      rest (some n) = elim (Bool-cases (nat_beq n 0)) [
        | inl gone ↦ rw gone (next start (removing ts (Morpheus.balance_key addr)))
        | inr left ↦ rw left (next start (inserting ts (Morpheus.balance_key addr) _))
      ]

      go :
          (r : ℕ × Bool × Option Failure)
          → Steps v (sub_known (view_mutable ts) c sm v (Morpheus.balance_key addr) amount r).0
      go (b, false, e) = start
      go (b, true, some e) = start
      go (b, true, none) = rest (sm.sub b amount)

  execute_transfer-Steps :
      (t : Transfer) (v : View) (actor : Bytes)
      → Steps v (execute_transfer (view_mutable ts) c sm t v actor).0
  unfolding execute_transfer
  execute_transfer-Steps t v actor = elim (Bool-cases (nat_beq t.value 0)) [
    | inl nothing ↦ rw nothing start
    | inr some_value ↦ elim (Bool-cases (ltb max_memo_size (length t.memo))) [
      | inl long ↦ rw (some_value, long) start
      | inr short ↦
          rw (some_value, short)
            (both (sub_balance (view_mutable ts) c sm v actor t.value)
              (sub_balance-Steps v actor t.value))
    ]
  ]
    where
      credited :
          (balance : ℕ) (w : View) (x : View × ℕ × Option Failure)
          → Steps w x.0
          → Steps w (received (view_mutable ts) c sm balance x).0
      credited balance w (u, total, none) st = st
      credited balance w (u, total, some e) st = st

      both :
          (x : View × ℕ × Option Failure)
          → Steps v x.0
          → Steps v (sent (view_mutable ts) c sm t x).0
      both (w, balance, some e) st = st
      both (w, balance, none) st = Steps-trans st (
          credited balance w (add_balance (view_mutable ts) c sm w t.to t.value)
            (add_balance-Steps w t.to t.value))

  module _ (pack_result : TransferResult → Bytes) (error_text : Failure → Bytes) where
    transfers-WriteBySteps :
        (transfers : List Transfer)
        → WriteBySteps (map (transfer_action c sm ts pack_result error_text) transfers)
    transfers-WriteBySteps [] = no_action
    transfers-WriteBySteps (t ∷ transfers) =
        one_more (λ r v timestamp actor id. execute_transfer-Steps t v actor)
          (transfers-WriteBySteps transfers)

    same_get_value :
        (u w : View) (key : Bytes)
        → u.scope ≡ w.scope
        → read_value ts u key ≡ read_value ts w key
        → get_value ts u key ≡ get_value ts w key
    unfolding get_value
    same_get_value u w key same reads =
        ground (arith, ap (λ (scope : Scope). scope key read) same, reads)

    -- A transaction of transfers, executed on a new view, in which an action fails: the sponsor, who
    -- had the fee of its units, has it no more, whatever its MaxFee is, and every other key of the state reads as before.
    pub failed_transfers-pay :
        (law : IsChecked sm) (big : IsBigEndian c) (prefix : Bytes) (ids : ℕ → ℕ → ℕ)
        (t : Transaction) (transfers : List Transfer) (r : ChainRules) (timestamp : ℕ) (raw : Bytes)
        (scope : Scope) (storage : Immutable) (b : ℕ) (res : TxResult)
        → t.actions ≡ map (transfer_action c sm ts pack_result error_text) transfers
        → get_balance (view_mutable ts) c sm prefix (new_view scope storage) t.auth.sponsor
          ≡ (b, none)
        → (execute sm ids
            (prefix_handler c sm ts prefix)
            t
            raw
            r
            (new_view scope storage)
            timestamp).1
          ≡ done res
        → res.success ≡ false
        → (fee sm res.units raw ≡ some res.charged)
          × (res.charged ≤ b)
          × (get_balance
                (view_mutable ts)
                c
                sm
                prefix
                (execute sm ids
                  (prefix_handler c sm ts prefix)
                  t
                  raw
                  r
                  (new_view scope storage)
                  timestamp).0
                t.auth.sponsor
              ≡ (b - res.charged, none))
          × ((key : Bytes)
              → (balance_key prefix t.auth.sponsor == key) ≡ false
              → get_value ts
                  (execute sm ids
                    (prefix_handler c sm ts prefix)
                    t
                    raw
                    r
                    (new_view scope storage)
                    timestamp).0
                  key
                ≡ get_value ts (new_view scope storage) key)
    unfolding get_balance
    failed_transfers-pay law big prefix ids t transfers r timestamp raw scope storage b res acts has
          h bad =
        let v : View = new_view scope storage in
        let bh = prefix_handler c sm ts prefix in
        let writes : WriteBySteps t.actions = rw acts (transfers-WriteBySteps transfers) in
        let (charged_units, charged, took, settled) =
          execute-Settled sm ids bh t r timestamp writes raw v (new_view-WritesMatch scope storage)
            (λ f. deduct-Steps prefix v t.auth.sponsor f) res h in
        let (same_scope, same_reads) = settled.0 bad in
        let (enough, (left, others)) =
          deduct-Credits (view_mutable ts) c big sm prefix (view_mutable-IsStore ts) v
            t.auth.sponsor b res.charged has took in
        let same = λ (key : Bytes). same_get_value _ _ key same_scope (same_reads ts key) in
        (
          charged,
          enough,
          ap (known_balance c) (same (balance_key prefix t.auth.sponsor)) ∙ left,
          λ key ne. same key ∙ others key ne,
        )
