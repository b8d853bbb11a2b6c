-- ===== src/TState/View/Undo.antt =====
-- One round of Rollback undoes the operation that was recorded last.
use haven_claw.Prelude.{
  ℕ, ◌≡◌, refl, Bool, true, false, Option, none, some, List, [], ◌∷◌, ◌++◌, arith, ◌==◌,
  bytes_comparable, bytes_beq_iff, inl, inr, ◌⊎◌, Option-cases, Bool-cases,
}
use haven_claw.Dict.{Dict, lookup, insert, delete, lookup-insert, lookup-delete}
use haven_claw.Bytes.{Bytes}
use haven_claw.Keys.{num_chunks}
use haven_claw.StateKeys.{allocate}
use haven_claw.TState.{
  not_found, storage_error, invalid_key_or_permission, invalid_key_value, Result, ok, err, TState,
}
use haven_claw.TState.View.{
  View, Op, read_value, forget_if, insert_over, remove_over, chunk_count, undo, undo_insert,
  undo_create, insert_op, create_op, remove_op, OpType,
}

-- The entry in `writes` that goes with a pending change: 0 for a removal.
abbrev pub written : Option (Option Bytes) → Option ℕ
written none = none
written (some none) = some 0
written (some (some value)) = some (chunk_count (num_chunks value))

-- `writes` counts the chunks of exactly the pending changes.
abbrev pub WritesMatch : View → Type 0
WritesMatch v = (k : Bytes) → lookup k v.writes ≡ written (lookup k v.pending)

-- Two views with the same pending changes and the same counts of chunks written.
pub record Agrees (v w : View) : Type 0 where
  pub pending : (k : Bytes) → lookup k v.pending ≡ lookup k w.pending
  pub writes : (k : Bytes) → lookup k v.writes ≡ lookup k w.writes
  pub scope : v.scope ≡ w.scope
  pub storage : v.storage ≡ w.storage

-- `w` is `v`, or has one more operation, whose undoing gives `v` back.
abbrev pub Undoes : View → View → Type 0
Undoes v w = (w ≡ v) ⊎ ((op : Op) × (w.ops ≡ v.ops ++ op ∷ []) × Agrees (undo op w) v)

-- `w` differs from `v` in the changes of one key at most.
record OffKey (v w : View) (key : Bytes) : Type 0 where
  pending : (j : Bytes) → (key == j) ≡ false → lookup j w.pending ≡ lookup j v.pending
  writes : (j : Bytes) → (key == j) ≡ false → lookup j w.writes ≡ lookup j v.writes
  scope : w.scope ≡ v.scope
  storage : w.storage ≡ v.storage

forget_if-OffKey :
    (v w : View) (key : Bytes) (b : Bool) → OffKey v w key → OffKey v (forget_if b key w) key
unfolding forget_if
forget_if-OffKey v w key true h = record {
  pending = λ j ne. ground (arith, lookup-delete key j w.pending, h.pending j);
  writes = λ j ne. ground (arith, lookup-delete key j w.writes, h.writes j);
  scope = h.scope;
  storage = h.storage;
}
forget_if-OffKey v w key false h = h

forget_if-ops : (b : Bool) (key : Bytes) (w : View) → (forget_if b key w).ops ≡ w.ops
unfolding forget_if
forget_if-ops true key w = refl
forget_if-ops false key w = refl

module _ (ts : TState) (v : View) (match : WritesMatch v) (key : Bytes) where
  -- The state of a key that the view has changed, told from the count of its last write.
  found_before :
      (past : Bytes)
      → read_value ts v key ≡ ok past
      → lookup key v.pending
        ≡ elim (lookup key v.writes) [ some _ ↦ some (some past) | none ↦ none ]
  unfolding read_value
  found_before past e = ground (arith, match key)

  absent_before :
      read_value ts v key ≡ err not_found
      → lookup key v.pending ≡ elim (lookup key v.writes) [ some _ ↦ some none | none ↦ none ]
  unfolding read_value
  absent_before e = ground (arith, match key)

module _ (v w : View) (key : Bytes) (off : OffKey v w key) (a : Dict Bytes ℕ) where
  rewind_delete :
      lookup key v.pending ≡ none
      → lookup key v.writes ≡ none
      → Agrees
          (record w { allocates = a; writes = delete key w.writes; pending = delete key w.pending })
          v
  rewind_delete p q = record {
    pending =
        λ j. ground (arith, lookup-delete key j w.pending, off.pending j, bytes_beq_iff key j);
    writes = λ j. ground (arith, lookup-delete key j w.writes, off.writes j, bytes_beq_iff key j);
    scope = off.scope;
    storage = off.storage;
  }

  rewind_insert :
      (c : ℕ) (past : Option Bytes)
      → lookup key v.pending ≡ some past
      → lookup key v.writes ≡ some c
      → Agrees
          (record w {
            allocates = a;
            writes = insert key c w.writes;
            pending = insert key past w.pending;
          })
          v
  rewind_insert c past p q = record {
    pending =
        λ j. ground (arith, lookup-insert key j past w.pending, off.pending j, bytes_beq_iff key j);
    writes = λ j. ground (arith, lookup-insert key j c w.writes, off.writes j, bytes_beq_iff key j);
    scope = off.scope;
    storage = off.storage;
  }

module _ (ts : TState) (v : View) (match : WritesMatch v) (key : Bytes) where
  abbrev op_on : OpType → Bytes → Option ℕ → Op
  op_on t past al = record {
    t = t;
    k = key;
    past_v = past;
    past_allocates = al;
    past_writes = lookup key v.writes;
  }

  module _ (w : View) (off : OffKey v w key) where
    undo_insert-Agrees :
        (t : OpType) (past : Bytes) (al : Option ℕ) (a : Dict Bytes ℕ)
        → read_value ts v key ≡ ok past
        → Agrees (undo_insert (op_on t past al) (record w { allocates = a })) v
    unfolding undo_insert
    undo_insert-Agrees t past al a e =
        let before = found_before ts v match key past e in
        elim (Option-cases (lookup key v.writes)) [
          | inl first ↦ rw first (rewind_delete v w key off a (ground arith) first)
          | inr (c, again) ↦
              rw again (rewind_insert v w key off a c (some past) (ground arith) again)
        ]

    undo_create-Agrees :
        (al : Option ℕ)
        → read_value ts v key ≡ err not_found
        → Agrees (undo_create (op_on create_op [] al) w) v
    unfolding undo_create
    undo_create-Agrees al e =
        let before = absent_before ts v match key e in
        let a : Dict Bytes ℕ = delete key w.allocates in
        elim (Option-cases (lookup key v.writes)) [
          | inl first ↦ rw first (rewind_delete v w key off a (ground arith) first)
          | inr (c, again) ↦ rw again (rewind_insert v w key off a c none (ground arith) again)
        ]

-- Writing or forgetting one key leaves the others.
module _ (v : View) (key : Bytes) (os : List Op) (a : Dict Bytes ℕ) where
  insert-OffKey :
      (p : Option Bytes) (c : ℕ)
      → OffKey v
          (record v {
            pending = insert key p v.pending;
            writes = insert key c v.writes;
            ops = os;
            allocates = a;
          })
          key
  insert-OffKey p c = record {
    pending = λ j ne. ground (arith, lookup-insert key j p v.pending);
    writes = λ j ne. ground (arith, lookup-insert key j c v.writes);
    scope = refl;
    storage = refl;
  }

  delete-OffKey :
      OffKey v
        (record v {
          pending = delete key v.pending;
          writes = delete key v.writes;
          ops = os;
          allocates = a;
        })
        key
  delete-OffKey = record {
    pending = λ j ne. ground (arith, lookup-delete key j v.pending);
    writes = λ j ne. ground (arith, lookup-delete key j v.writes);
    scope = refl;
    storage = refl;
  }

module _ (ts : TState) (v : View) (match : WritesMatch v) (key : Bytes) where
  pub insert_over-Undoes :
      (value : Bytes) (unchanged : Bool) (r : Result Bytes)
      → read_value ts v key ≡ r
      → Undoes v (insert_over v key value unchanged r).0
  unfolding insert_over undo
  insert_over-Undoes value unchanged (ok past) e = elim (Bool-cases (past == value)) [
    | inl same ↦ rw same (inl refl)
    | inr new ↦ rw new (
        inr (
          op_on ts v match key insert_op past (lookup key v.allocates),
          forget_if-ops unchanged key _,
          undo_insert-Agrees ts v match key _
              (forget_if-OffKey v _ key unchanged (insert-OffKey v key _ _ (some value) _))
              insert_op past (lookup key v.allocates) _ e,
        ))
  ]
  insert_over-Undoes value unchanged (err not_found) e = elim (Bool-cases (v.scope key allocate)) [
    | inr denied ↦ rw denied (inl refl)
    | inl allowed ↦ rw allowed (
        inr (
          op_on ts v match key create_op [] (lookup key v.allocates),
          forget_if-ops unchanged key _,
          undo_create-Agrees ts v match key _
              (forget_if-OffKey v _ key unchanged (insert-OffKey v key _ _ (some value) _))
              (lookup key v.allocates) e,
        ))
  ]
  insert_over-Undoes value unchanged (err invalid_key_or_permission) e = inl refl
  insert_over-Undoes value unchanged (err invalid_key_value) e = inl refl
  insert_over-Undoes value unchanged (err (storage_error c)) e = inl refl

  pub remove_over-Undoes :
      (past : Bytes) (unchanged : Bool)
      → read_value ts v key ≡ ok past
      → Undoes v (remove_over v key past unchanged)
  unfolding remove_over undo
  remove_over-Undoes past unchanged e = elim (Option-cases (lookup key v.allocates)) [
    | inl old ↦
        rw (old, remove_over)
          (inr (
            op_on ts v match key remove_op past (lookup key v.allocates),
            forget_if-ops unchanged key _,
            undo_insert-Agrees ts v match key _
                (forget_if-OffKey v _ key unchanged (insert-OffKey v key _ _ none 0)) remove_op past
                (lookup key v.allocates) _ e,
          ))
    | inr (c, allocated) ↦
        rw (allocated, remove_over)
          (inr (
            op_on ts v match key remove_op past (lookup key v.allocates),
            forget_if-ops unchanged key _,
            undo_insert-Agrees ts v match key _
                (forget_if-OffKey v _ key unchanged (delete-OffKey v key _ _)) remove_op past
                (lookup key v.allocates) _ e,
          ))
  ]
