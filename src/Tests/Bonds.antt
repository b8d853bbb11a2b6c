-- ===== src/Tests/Bonds.antt =====
-- Tests of the bonds and of the prefixes of metadata.
use haven_claw.Prelude.{
  ℕ, ◌+◌, ◌*◌, ◌≤◌, ◌≡◌, ◌≢◌, refl, ap, ◌∙◌, true, false, none, List, [], ◌∷◌, ◌++◌, arith, ◌==◌,
  bytes_comparable,
}
use haven_claw.Dict.{Dict, lookup, insert, delete, lookup-insert, lookup-delete}
use haven_claw.Bytes.{Bytes, to_be, from_be, uint64_at}
use haven_claw.Keys.{encode_chunks}
use haven_claw.SafeMath.{checked, checked-IsChecked}
use haven_claw.TState.{ok, err, not_found}
use haven_claw.Mutable.Plain.{plain, found}
use haven_claw.Database.{BatchOp, Database, applied, IsAtomic}
use haven_claw.Bonds.{BondTx, good, new_state_key, max_balance, pending_bond_balance, bond, unbond}
use haven_claw.Database as Database
use haven_claw.Bonds.Pending.{unbond-bond}
use haven_claw.Metadata.{
  new_default_manager, has_conflicting_prefixes, conflict_loop, conflicts_with,
}
use haven_claw.Metadata.Prefixes.{has_conflicting_prefixes-apart}

unfoldable pub apply : List BatchOp → Dict Bytes Bytes → Dict Bytes Bytes
apply [] d = d
apply (Database.put k v ∷ ops) d = apply ops (insert k v d)
apply (Database.delete k ∷ ops) d = apply ops (delete k d)

abbrev pub memory : Database (Dict Bytes Bytes)
memory = record {
  get = λ d key. found (lookup key d);
  refuses = λ op. none;
  write = λ d ops. (apply ops d, none);
}

lookup-apply :
    (ops : List BatchOp) (d : Dict Bytes Bytes) (key : Bytes)
    → found (lookup key (apply ops d)) ≡ applied ops key (found (lookup key d))
unfolding apply applied
lookup-apply [] d key = refl
lookup-apply (Database.put k v ∷ ops) d key =
    lookup-apply ops (insert k v d) key
    ∙ ap (applied ops key) (ground (arith, lookup-insert k key v d))
lookup-apply (Database.delete k ∷ ops) d key =
    lookup-apply ops (delete k d) key ∙ ap (applied ops key) (ground (arith, lookup-delete k key d))

pub memory-IsAtomic : IsAtomic memory
memory-IsAtomic = record {
  write_lem = λ d ops key done. lookup-apply ops d key;
  write_failed = λ d ops key e failed. absurd (ground arith);
}

abbrev tx : BondTx
tx = record { sponsor = 1 ∷ []; id = 2 ∷ []; size = 10 }

-- A limit of 100, and 5 pending.
abbrev limits : Dict Bytes Bytes
limits = (new_state_key (1 ∷ []), to_be 8 100) ∷ []

abbrev pendings : Dict Bytes Bytes
pendings = (1 ∷ [], to_be 8 5) ∷ []

abbrev bonded : Dict Bytes Bytes
bonded = (bond memory checked plain pendings limits tx 3).0

bond_succeeds : (bond memory checked plain pendings limits tx 3).1 ≡ good true
unfolding bond pending_bond_balance lookup to_be max_balance encode_chunks uint64_at from_be
bond_succeeds = refl

unbond_succeeds : (unbond memory bonded tx).1 ≡ good true
unfolding bond unbond pending_bond_balance lookup to_be max_balance encode_chunks uint64_at from_be
    apply insert
unbond_succeeds = refl

five_pending : pending_bond_balance memory pendings (1 ∷ []) ≡ good 5
unfolding pending_bond_balance lookup to_be from_be uint64_at
five_pending = refl

unbond-bond_example :
    (limit : ℕ) × (max_balance plain limits (1 ∷ []) ≡ good limit)
    × (5 + 10 * 3 ≤ limit)
    × (pending_bond_balance memory bonded (1 ∷ []) ≡ good (5 + 10 * 3))
    × (memory.get bonded (2 ∷ []) ≡ ok (to_be 8 (10 * 3)))
    × ((key : Bytes)
        → (tx.sponsor == key) ≡ false
        → (tx.id == key) ≡ false
        → memory.get bonded key ≡ memory.get pendings key)
    × (pending_bond_balance memory (unbond memory bonded tx).0 (1 ∷ []) ≡ good 5)
    × (memory.get (unbond memory bonded tx).0 (2 ∷ []) ≡ err not_found)
    × ((key : Bytes)
        → (tx.sponsor == key) ≡ false
        → (tx.id == key) ≡ false
        → memory.get (unbond memory bonded tx).0 key ≡ memory.get pendings key)
unbond-bond_example =
    unbond-bond memory memory-IsAtomic checked checked-IsChecked plain pendings limits tx 3 5 refl
      five_pending bond_succeeds unbond_succeeds

no_conflict : has_conflicting_prefixes new_default_manager ((3 ∷ []) ∷ []) ≡ false
unfolding has_conflicting_prefixes conflict_loop conflicts_with new_default_manager
no_conflict = refl

abbrev fee_key : Bytes
fee_key = 2 ∷ []

abbrev balance_prefix : Bytes
balance_prefix = 3 ∷ []

has_conflicting_prefixes-apart_example : fee_key ++ 8 ∷ [] ≢ balance_prefix ++ 9 ∷ []
unfolding new_default_manager
has_conflicting_prefixes-apart_example =
    has_conflicting_prefixes-apart new_default_manager ((3 ∷ []) ∷ []) ((0 ∷ []) ∷ [])
      ((1 ∷ []) ∷ []) [] (2 ∷ []) (3 ∷ []) (8 ∷ []) (9 ∷ []) no_conflict refl
