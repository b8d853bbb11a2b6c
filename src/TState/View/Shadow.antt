-- ===== src/TState/View/Shadow.antt =====
-- A key of the parent that a view removes, creates again and removes again: Remove takes the
-- allocation for a sign that the parent has no such key, and drops the pending change.
use haven_claw.Prelude.{
  ℕ, ◌≡◌, refl, ap, ◌∙◌, true, false, Option, none, some, [], arith, ◌==◌, bytes_comparable,
  bytes_beq_iff,
}
use haven_claw.Dict.{lookup, lookup-insert}
use haven_claw.Bytes.{Bytes}
use haven_claw.Keys.{verify_value, max_chunks}
use haven_claw.StateKeys.{write, allocate}
use haven_claw.TState.{Error, Immutable, ok, err, not_found, TState}
use haven_claw.TState.View.{
  View, read_below, read_value, is_unchanged, forget_if, insert_over, insert_value, remove_over,
  remove_value, chunk_count,
}
use haven_claw.TState.View.Reads.{remove_over-reads}

module _ (ts : TState) (v : View) (key old : Bytes) (below : read_below ts v key ≡ ok old) where
  differs-absent : is_unchanged ts v key [] false ≡ ok false
  unfolding is_unchanged read_below
  differs-absent = ground arith

  differs : (value : Bytes) → (old == value) ≡ false → is_unchanged ts v key value true ≡ ok false
  unfolding is_unchanged read_below
  differs value ne = ground arith

  module _ (may_write : v.scope key write ≡ true) where
    remove_present :
        (past : Bytes)
        → read_value ts v key ≡ ok past
        → remove_value ts v key ≡ (remove_over v key past false, none)
    unfolding remove_value
    remove_present past e = rw (may_write, e, differs-absent) refl

    insert_absent :
        (value : Bytes)
        → verify_value key value ≡ true
        → (old == value) ≡ false
        → read_value ts v key ≡ err not_found
        → insert_value ts v key value ≡ insert_over v key value false (err not_found)
    unfolding insert_value
    insert_absent value fits ne e = rw (may_write, fits, differs value ne, e) refl

-- The view after a first Remove of a key that the parent has.
module _ (v : View) (key old : Bytes) (fresh : lookup key v.allocates ≡ none) where
  removed_facts :
      (lookup key (remove_over v key old false).pending ≡ some none)
      × ((remove_over v key old false).scope ≡ v.scope)
      × ((remove_over v key old false).storage ≡ v.storage)
  unfolding remove_over forget_if
  removed_facts = ground (arith, bytes_beq_iff key key, lookup-insert key key none v.pending)

-- The view after an Insert that creates a key.
module _ (v : View) (key new : Bytes) (may_allocate : v.scope key allocate ≡ true) where
  abbrev created : View × Option Error
  created = insert_over v key new false (err not_found)

  created_facts :
      (created.1 ≡ none)
      × (lookup key created.0.pending ≡ some (some new))
      × ((c : ℕ) × (lookup key created.0.allocates ≡ some c))
      × (created.0.scope ≡ v.scope)
      × (created.0.storage ≡ v.storage)
  unfolding insert_over forget_if
  created_facts = rw may_allocate (
    refl,
    ground (arith, bytes_beq_iff key key, lookup-insert key key (some new) v.pending),
    (
      chunk_count (max_chunks key),
      ground (
        arith,
        bytes_beq_iff key key,
        lookup-insert key key (chunk_count (max_chunks key)) v.allocates,
      ),
    ),
    refl,
    refl,
  )

pub read_pending :
    (ts : TState) (v : View) (key : Bytes) (p : Option Bytes)
    → lookup key v.pending ≡ some p
    → read_value ts v key ≡ elim p [ some value ↦ ok value | none ↦ err not_found ]
unfolding read_value
read_pending ts v key p e = ground arith

pub read_below-cong :
    (ts : TState) (v w : View) (key : Bytes)
    → w.storage ≡ v.storage
    → read_below ts w key ≡ read_below ts v key
unfolding read_below
read_below-cong ts v w key e = ground (arith, ap (λ (s : Immutable). s key) e)

-- If a view with the permissions to write and allocate a key of the parent, which it has not
-- touched, removes the key, inserts another value and removes it again, all without an error, then
-- the key is not absent: it reads as the parent's old value.
pub remove-insert-remove :
    (ts : TState) (v : View) (key old new : Bytes)
    → read_below ts v key ≡ ok old
    → lookup key v.pending ≡ none
    → lookup key v.allocates ≡ none
    → v.scope key write ≡ true
    → v.scope key allocate ≡ true
    → verify_value key new ≡ true
    → (old == new) ≡ false
    → let v1 : View = (remove_value ts v key).0 in
      let v2 : View = (insert_value ts v1 key new).0 in
      ((remove_value ts v key).1 ≡ none)
      × ((insert_value ts v1 key new).1 ≡ none)
      × (read_value ts v2 key ≡ ok new)
      × ((remove_value ts v2 key).1 ≡ none)
      × (read_value ts (remove_value ts v2 key).0 key ≡ ok old)
unfolding read_value
remove-insert-remove ts v key old new below untouched unallocated w a fits ne =
    let e1 = remove_present ts v key old below w old (rw (untouched, read_value) below) in
    let (p1, s1, t1) = removed_facts v key old unallocated in
    let v1 : View = remove_over v key old false in
    let below1 : read_below ts v1 key ≡ ok old = read_below-cong ts v v1 key t1 ∙ below in
    let e2 =
      insert_absent ts v1 key old below1 (rw s1 w) new fits ne (read_pending ts v1 key none p1) in
    let (ok2, p2, (c, a2), s2, t2) = created_facts v1 key new (rw s1 a) in
    let v2 : View = (insert_over v1 key new false (err not_found)).0 in
    let below2 : read_below ts v2 key ≡ ok old = read_below-cong ts v1 v2 key t2 ∙ below1 in
    let r2 : read_value ts v2 key ≡ ok new = read_pending ts v2 key (some new) p2 in
    let e3 = remove_present ts v2 key old below2 (rw (s2, s1) w) new r2 in
    rw (e1, e2, e3)
      (refl, ok2, r2, refl, (remove_over-reads ts v2 key new false (λ t. cc)).0 ∙ rw a2 below2)
