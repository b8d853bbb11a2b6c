-- ===== src/Bonds.antt =====
-- hypersdk/internal/chain/bond.go: the Bonder, which limits the pending fees of an account. Its
-- database is avalanchego's, a parameter.
pub mod Pending
use haven_claw.Prelude.{
  ℕ, ◌%◌, ◌*◌, Bool, true, false, Option, none, some, List, [], ◌∷◌, ltb, leb, nat_beq,
  if◌then◌else◌, length, ◌==◌, bytes_comparable, ◌≡◌,
}
use haven_claw.Prelude.Words.{sub_wrap}
use haven_claw.Bytes.{Bytes, to_be, uint64_at}
use haven_claw.Keys.{encode_chunks}
use haven_claw.SafeMath.{SafeMath}
use haven_claw.TState.{Error, not_found, Result, ok, err}
use haven_claw.Mutable.{Mutable}
use haven_claw.Database.{BatchOp, put, delete, Database}

-- `panicked`: binary.BigEndian.Uint64 of fewer than eight bytes.
pub data BondError : Type 0 where
  database_error : Error → BondError
  panicked : BondError

-- What a call returns: a value or an error.
pub data Answer {ℓ} (A : Type ℓ) : Type ℓ where
  good : A → Answer A
  bad : BondError → Answer A

-- binary.BigEndian.Uint64(b)
abbrev pub uint64_of : Bytes → Answer ℕ
uint64_of b = if ltb (length b) 8 then bad panicked else good (uint64_at 0 b)

-- The amount in what Get returned: 0 where there is nothing.
abbrev pub amount_of : Bytes → Answer ℕ
amount_of b = if nat_beq (length b) 0 then good 0 else uint64_of b

-- newStateKey: EncodeChunks with one chunk.
abbrev pub new_state_key : Bytes → Bytes
new_state_key b = encode_chunks b 1

-- What the Bonder reads of a transaction.
pub record BondTx : Type 0 where
  pub sponsor : Bytes
  pub id : Bytes
  pub size : ℕ

module _ {S : Type 0} (m : Mutable S) where
  unfoldable pub set_max_balance : S → Bytes → ℕ → S × Option Error
  set_max_balance s address max_balance = m.insert s (new_state_key address) (to_be 8 max_balance)

  abbrev max_of : Result Bytes → Answer ℕ
  max_of (ok b) = amount_of b
  max_of (err not_found) = good 0
  max_of (err e) = bad (database_error e)

  unfoldable pub max_balance : S → Bytes → Answer ℕ
  max_balance s address = max_of (m.get_value s (new_state_key address))

module _ {D : Type 0} (db : Database D) where
  abbrev pub pending_of : Result Bytes → Answer ℕ
  pending_of (ok b) = amount_of b
  pending_of (err not_found) = good 0
  pending_of (err e) = bad (database_error e)

  unfoldable pub pending_bond_balance : D → Bytes → Answer ℕ
  pending_bond_balance d address = pending_of (db.get d address)

  abbrev pub finish : D × Option Error → D × Answer Bool
  finish (d, none) = (d, good true)
  finish (d, some e) = (d, bad (database_error e))

  -- A batch of two operations: the error of either, or of Write.
  abbrev pub write_both : D → BatchOp → BatchOp → D × Answer Bool
  write_both d first second = elim (db.refuses first) [
    | some e ↦ (d, bad (database_error e))
    | none ↦ elim (db.refuses second) [
      | some e ↦ (d, bad (database_error e))
      | none ↦ finish (db.write d (first ∷ second ∷ []))
    ]
  ]

  module _ (sm : SafeMath) {S : Type 0} (m : Mutable S) where
    abbrev pub bond_total : D → BondTx → ℕ → ℕ → Option ℕ → D × Answer Bool
    bond_total d tx max_bond bond none = (d, good false)
    bond_total d tx max_bond bond (some total) =
        if ltb max_bond total
        then (d, good false)
        else write_both d (put tx.sponsor (to_be 8 total)) (put tx.id (to_be 8 bond))

    abbrev pub bond_fee : D → BondTx → ℕ → ℕ → Option ℕ → D × Answer Bool
    bond_fee d tx pending max_bond none = (d, good false)
    bond_fee d tx pending max_bond (some bond) = bond_total d tx max_bond bond (sm.add pending bond)

    abbrev pub bond_limits : D → BondTx → ℕ → Answer ℕ → Answer ℕ → D × Answer Bool
    bond_limits d tx rate (bad e) limit = (d, bad e)
    bond_limits d tx rate (good pending) (bad e) = (d, bad e)
    bond_limits d tx rate (good pending) (good max_bond) =
        bond_fee d tx pending max_bond (sm.mul tx.size rate)

    unfoldable pub bond : D → S → BondTx → ℕ → D × Answer Bool
    bond d s tx rate =
        bond_limits d tx rate (pending_bond_balance d tx.sponsor) (max_balance m s tx.sponsor)

  abbrev pub unbond_amount : D → BondTx → ℕ → Answer ℕ → D × Answer Bool
  unbond_amount d tx pending (bad e) = (d, bad e)
  unbond_amount d tx pending (good bond) =
      write_both d (put tx.sponsor (to_be 8 (sub_wrap pending bond))) (delete tx.id)

  abbrev pub unbond_known : D → BondTx → ℕ → Result Bytes → D × Answer Bool
  unbond_known d tx pending (ok b) = unbond_amount d tx pending (uint64_of b)
  unbond_known d tx pending (err not_found) = (d, good false)
  unbond_known d tx pending (err e) = (d, bad (database_error e))

  abbrev pub unbond_from : D → BondTx → Answer ℕ → D × Answer Bool
  unbond_from d tx (bad e) = (d, bad e)
  unbond_from d tx (good pending) = unbond_known d tx pending (db.get d tx.id)

  -- Unbond returns no value: `good true` says that it wrote, `good false` that it had nothing to.
  unfoldable pub unbond : D → BondTx → D × Answer Bool
  unbond d tx = unbond_from d tx (pending_bond_balance d tx.sponsor)
