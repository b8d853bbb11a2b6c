-- ===== src/Bonds/Pending.antt =====
-- Bond keeps the pending fees of an account within its limit, and Unbond takes its fee back.
use haven_claw.Prelude.{
  ℕ, ◌+◌, ◌*◌, ◌≤◌, ◌≡◌, refl, ap, ◌∙◌, true, false, Option, none, some, Option-cases, Bool-cases,
  inl, inr, [], ◌∷◌, arith, ltb, ◌==◌, bytes_comparable, bytes_beq_iff,
}
use haven_claw.Prelude.Words.{max_uint64, sub_wrap}
use haven_claw.Bytes.{Bytes, to_be, uint64_at, length-to_be, from_be-to_be}
use haven_claw.SafeMath.{SafeMath, IsChecked}
use haven_claw.TState.{Error, not_found, Result, ok, err}
use haven_claw.Mutable.{Mutable}
use haven_claw.Database.{BatchOp, put, delete, Database, applied, IsAtomic}
use haven_claw.Bonds.{
  Answer, good, bad, uint64_of, amount_of, BondTx, max_balance, pending_bond_balance, finish,
  write_both, bond_limits, bond, unbond,
}

stored_word : (n : ℕ) → n ≤ max_uint64 → uint64_of (to_be 8 n) ≡ good n
unfolding uint64_at to_be
stored_word n h = ground (arith, from_be-to_be 8 n (omega arith))

amount_of-word : (n : ℕ) → n ≤ max_uint64 → amount_of (to_be 8 n) ≡ good n
amount_of-word n h = ground (arith, stored_word n h, length-to_be 8 n)

module _ {D : Type 0} (db : Database D) (atomic : IsAtomic db) where
  write_both-applied :
      (d : D) (x y : BatchOp) (key : Bytes)
      → (write_both db d x y).1 ≡ good true
      → db.get (write_both db d x y).0 key ≡ applied (x ∷ y ∷ []) key (db.get d key)
  write_both-applied d x y key h = elim (Option-cases (db.refuses x)) [
    | inr (e, no_first) ↦ absurd (ground arith)
    | inl first ↦ elim (Option-cases (db.refuses y)) [
      | inr (e, no_second) ↦ absurd (ground arith)
      | inl second ↦
          let both : write_both db d x y ≡ finish db (db.write d (x ∷ y ∷ [])) = ground arith in
          rw both (
            finished (db.write d (x ∷ y ∷ [])) (rw both at h) (atomic.write_lem d (x ∷ y ∷ []) key))
    ]
  ]
    where
      finished :
          (r : D × Option Error)
          → (finish db r).1 ≡ good true
          → (r.1 ≡ none → db.get r.0 key ≡ applied (x ∷ y ∷ []) key (db.get d key))
          → db.get (finish db r).0 key ≡ applied (x ∷ y ∷ []) key (db.get d key)
      finished (t, none) done written = written refl
      finished (t, some e) done written = cc

  module _ (sm : SafeMath) (law : IsChecked sm) {S : Type 0} (m : Mutable S) where
    -- What a Bond that returns true has found, and what it writes.
    bond-found :
        (d : D) (s : S) (tx : BondTx) (rate pending : ℕ)
        → pending_bond_balance db d tx.sponsor ≡ good pending
        → (bond db sm m d s tx rate).1 ≡ good true
        → (limit : ℕ) × (max_balance m s tx.sponsor ≡ good limit)
          × (pending + tx.size * rate ≤ limit)
          × (pending + tx.size * rate ≤ max_uint64)
          × (bond db sm m d s tx rate
              ≡ write_both db d
                  (put tx.sponsor (to_be 8 (pending + tx.size * rate)))
                  (put tx.id (to_be 8 (tx.size * rate))))
    unfolding bond
    bond-found d s tx rate pending h done = go (max_balance m s tx.sponsor) refl (rw h at done)
      where
        go :
            (a : Answer ℕ)
            → max_balance m s tx.sponsor ≡ a
            → (bond_limits db sm m d tx rate (good pending) a).1 ≡ good true
            → (limit : ℕ) × (max_balance m s tx.sponsor ≡ good limit)
              × (pending + tx.size * rate ≤ limit)
              × (pending + tx.size * rate ≤ max_uint64)
              × (bond_limits db sm m d tx rate
                    (pending_bond_balance db d tx.sponsor)
                    (max_balance m s tx.sponsor)
                  ≡ write_both db d
                      (put tx.sponsor (to_be 8 (pending + tx.size * rate)))
                      (put tx.id (to_be 8 (tx.size * rate))))
        go (bad e) known done = cc
        go (good limit) known done = elim (Option-cases (sm.mul tx.size rate)) [
          | inl too_big ↦ absurd (ground arith)
          | inr (amount, e) ↦ elim (Option-cases (sm.add pending amount)) [
            | inl too_big ↦ absurd (ground arith)
            | inr (total, e2) ↦
                let product : amount ≡ tx.size * rate = ground (arith, law.mul_lem tx.size rate) in
                let sum : (total ≡ pending + amount) × (total ≤ max_uint64) =
                  ground (arith, law.add_lem pending amount) in
                let same : total ≡ pending + tx.size * rate =
                  sum.0 ∙ ap (λ k. pending + k) product in
                elim (Bool-cases (ltb limit total)) [
                  | inl over ↦ absurd (ground arith)
                  | inr within ↦ (
                    limit,
                    known,
                    rw (← same) (ground (arith, within)),
                    rw (← same) sum.1,
                    rw (h, known, e, e2, within, ← same, ← product) refl,
                  )
                ]
          ]
        ]

    unbond-writes :
        (d : D) (tx : BondTx) (pending amount : ℕ)
        → pending_bond_balance db d tx.sponsor ≡ good pending
        → db.get d tx.id ≡ ok (to_be 8 amount)
        → amount ≤ max_uint64
        → unbond db d tx
          ≡ write_both db d (put tx.sponsor (to_be 8 (sub_wrap pending amount))) (delete tx.id)
    unfolding unbond
    unbond-writes d tx pending amount h stored fits = rw (h, stored, stored_word amount fits) refl

    put_pending :
        (d : D) (tx : BondTx) (other : BatchOp) (n : ℕ)
        → n ≤ max_uint64
        → ((r : Result Bytes) → applied (other ∷ []) tx.sponsor r ≡ r)
        → (write_both db d (put tx.sponsor (to_be 8 n)) other).1 ≡ good true
        → pending_bond_balance db (write_both db d (put tx.sponsor (to_be 8 n)) other).0 tx.sponsor
          ≡ good n
    unfolding pending_bond_balance applied
    put_pending d tx other n fits passes done = ground (
      arith,
      write_both-applied d (put tx.sponsor (to_be 8 n)) other tx.sponsor done,
      passes (ok (to_be 8 n)),
      bytes_beq_iff tx.sponsor tx.sponsor,
      amount_of-word n fits,
    )

    -- Where Bond returns true for an account with so much pending, its fee, the size of the
    -- transaction times the rate, keeps the pending amount within the limit of the account, and
    -- is added to it, and is stored for the transaction. An Unbond of the transaction that then writes
    -- brings the amount back to what it was, and leaves no fee of it. After the Bond, and after the
    -- Unbond, all keys but those of the account and the transaction hold what they did before both.
    pub unbond-bond :
        (d : D) (s : S) (tx : BondTx) (rate pending : ℕ)
        → (tx.sponsor == tx.id) ≡ false
        → pending_bond_balance db d tx.sponsor ≡ good pending
        → (bond db sm m d s tx rate).1 ≡ good true
        → (unbond db (bond db sm m d s tx rate).0 tx).1 ≡ good true
        → (limit : ℕ) × (max_balance m s tx.sponsor ≡ good limit)
          × (pending + tx.size * rate ≤ limit)
          × (pending_bond_balance db (bond db sm m d s tx rate).0 tx.sponsor
              ≡ good (pending + tx.size * rate))
          × (db.get (bond db sm m d s tx rate).0 tx.id ≡ ok (to_be 8 (tx.size * rate)))
          × ((key : Bytes)
              → (tx.sponsor == key) ≡ false
              → (tx.id == key) ≡ false
              → db.get (bond db sm m d s tx rate).0 key ≡ db.get d key)
          × (pending_bond_balance db (unbond db (bond db sm m d s tx rate).0 tx).0 tx.sponsor
              ≡ good pending)
          × (db.get (unbond db (bond db sm m d s tx rate).0 tx).0 tx.id ≡ err not_found)
          × ((key : Bytes)
              → (tx.sponsor == key) ≡ false
              → (tx.id == key) ≡ false
              → db.get (unbond db (bond db sm m d s tx rate).0 tx).0 key ≡ db.get d key)
    unfolding applied
    unbond-bond d s tx rate pending apart h done undone =
        let (limit, known, within, fits, e) = bond-found d s tx rate pending h done in
        let total : ℕ = pending + tx.size * rate in
        let amount : ℕ = tx.size * rate in
        let first = put tx.sponsor (to_be 8 total) in
        let second = put tx.id (to_be 8 amount) in
        let wrote = rw e at done in
        let t : D = (write_both db d first second).0 in
        let after = λ (key : Bytes). write_both-applied d first second key wrote in
        let flipped : (tx.id == tx.sponsor) ≡ false =
          ground (arith, apart, bytes_beq_iff tx.id tx.sponsor, bytes_beq_iff tx.sponsor tx.id) in
        let raised = put_pending d tx second total fits (λ r. ground (arith, flipped)) wrote in
        let stored : db.get t tx.id ≡ ok (to_be 8 amount) =
          ground (arith, after tx.id, bytes_beq_iff tx.id tx.id, apart) in
        let un = unbond-writes t tx total amount raised stored (omega (arith, fits)) in
        let back : sub_wrap total amount ≡ pending = omega (arith, fits) in
        let unwrote = rw (e, un, back) at undone in
        let third = put tx.sponsor (to_be 8 pending) in
        let again = λ (key : Bytes). write_both-applied t third (delete tx.id) key unwrote in
        rw (e, un, back)
          (
            limit,
            known,
            within,
            raised,
            stored,
            λ key ne1 ne2. ground (arith, after key, ne1, ne2),
            put_pending t tx (delete tx.id) pending (omega (arith, fits))
                (λ r. ground (arith, flipped)) unwrote,
            ground (arith, again tx.id, bytes_beq_iff tx.id tx.id),
            λ key ne1 ne2. ground (arith, again key, after key, ne1, ne2),
          )
