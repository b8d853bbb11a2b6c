-- ===== src/TState/View/Rollback.antt =====
-- Rollback takes a view back to the restore point, whatever was done to it since.
use haven_claw.Prelude.{
  ℕ, ◌≡◌, refl, sym, ap, ◌∙◌, Bool, true, false, Option, none, some, List, [], ◌∷◌, ◌++◌, arith,
  bytes_comparable, inl, inr, length, take, drop, take-append, drop-append, Bool-cases,
  Option-cases, ◌==◌,
}
use mathlib.Core.List.{append_assoc, append-nil}
use haven_claw.Dict.{Dict, lookup, insert, delete, lookup-insert, lookup-delete}
use haven_claw.Bytes.{Bytes}
use haven_claw.StateKeys.{Scope, allocate}
use haven_claw.TState.{
  not_found, storage_error, invalid_key_or_permission, invalid_key_value, Result, ok, err, TState,
  Immutable,
}
use haven_claw.TState.View.{
  View, Op, OpType, create_op, insert_op, remove_op, read_below, read_value, forget_if, insert_over,
  insert_value, remove_over, remove_value, undo, undo_all, undo_as, undo_create, undo_insert,
  undo_remove, rollback, op_index, new_view,
}
use haven_claw.TState.View.Reads.{insert_value-keeps, remove_value-keeps}
use haven_claw.TState.View.Undo.{
  WritesMatch, written, Agrees, Undoes, insert_over-Undoes, remove_over-Undoes,
}

-- One call of Insert or Remove, with the parent state as it stands at that time.
pub data Step (v : View) : View → Type 0 where
  inserting : (ts : TState) (key value : Bytes) → Step v (insert_value ts v key value).0
  removing : (ts : TState) (key : Bytes) → Step v (remove_value ts v key).0

-- Any number of such calls.
pub data Steps (v : View) : View → Type 0 where
  start : Steps v v
  next : {w u : View} → Steps v w → Step w u → Steps v u

Step-Undoes : {v w : View} → WritesMatch v → Step v w → Undoes v w
Step-Undoes {v} m (inserting ts key value) =
    insert_value-keeps ts v key value (Undoes v) (inl refl)
      (λ u r e. insert_over-Undoes ts v m key value u r e)
Step-Undoes {v} m (removing ts key) =
    remove_value-keeps ts v key (Undoes v) (inl refl) (λ p u e. remove_over-Undoes ts v m key p u e)

forget_if-WritesMatch :
    (b : Bool) (key : Bytes) (v : View) → WritesMatch v → WritesMatch (forget_if b key v)
unfolding forget_if
forget_if-WritesMatch true key v m k =
    ground (arith, m k, lookup-delete key k v.writes, lookup-delete key k v.pending)
forget_if-WritesMatch false key v m k = m k

module _ (v : View) (m : WritesMatch v) (key : Bytes) where
  write-WritesMatch :
      (p : Option Bytes) (c : ℕ)
      → some c ≡ written (some p)
      → (k : Bytes) → lookup k (insert key c v.writes) ≡ written (lookup k (insert key p v.pending))
  write-WritesMatch p c e k =
      ground (arith, m k, lookup-insert key k c v.writes, lookup-insert key k p v.pending)

  insert_over-WritesMatch :
      (value : Bytes) (unchanged : Bool) (r : Result Bytes)
      → WritesMatch (insert_over v key value unchanged r).0
  unfolding insert_over
  insert_over-WritesMatch value unchanged (ok past) = elim (Bool-cases (past == value)) [
    | inl same ↦ rw same m
    | inr new ↦
        rw new (forget_if-WritesMatch unchanged key _ (write-WritesMatch (some value) _ refl))
  ]
  insert_over-WritesMatch value unchanged (err not_found) =
      elim (Bool-cases (v.scope key allocate)) [
        | inr denied ↦ rw denied m
        | inl allowed ↦
            rw allowed
              (forget_if-WritesMatch unchanged key _ (write-WritesMatch (some value) _ refl))
      ]
  insert_over-WritesMatch value unchanged (err invalid_key_or_permission) = m
  insert_over-WritesMatch value unchanged (err invalid_key_value) = m
  insert_over-WritesMatch value unchanged (err (storage_error c)) = m

  remove_over-WritesMatch :
      (past : Bytes) (unchanged : Bool) → WritesMatch (remove_over v key past unchanged)
  unfolding remove_over
  remove_over-WritesMatch past unchanged = elim (Option-cases (lookup key v.allocates)) [
    | inl old ↦
        rw (old, remove_over)
          (forget_if-WritesMatch unchanged key _ (write-WritesMatch none 0 refl))
    | inr (c, allocated) ↦
        rw (allocated, remove_over)
          (forget_if-WritesMatch unchanged key _
            (λ k. ground (arith, m k, lookup-delete key k v.writes, lookup-delete key k v.pending)))
  ]

-- Insert and Remove keep the counts of `writes` in step with the pending changes.
pub Step-WritesMatch : {v w : View} → WritesMatch v → Step v w → WritesMatch w
Step-WritesMatch {v} m (inserting ts key value) =
    insert_value-keeps ts v key value WritesMatch m
      (λ u r e. insert_over-WritesMatch v m key value u r)
Step-WritesMatch {v} m (removing ts key) =
    remove_value-keeps ts v key WritesMatch m (λ p u e. remove_over-WritesMatch v m key p u)

-- The counts that a view reports as written are those of its pending changes, after any calls of
-- Insert and Remove on a new view: an entry for exactly the keys changed, 0 for a removed key and
-- the chunks of the value for a written one.
pub Steps-WritesMatch : {v w : View} → WritesMatch v → Steps v w → WritesMatch w
Steps-WritesMatch m start = m
Steps-WritesMatch m (next r st) = Step-WritesMatch (Steps-WritesMatch m r) st

-- Undoing reads nothing of a view but the changes that it takes back.
module _ (v w : View) (h : Agrees v w) (k : Bytes) (a b : Dict Bytes ℕ) where
  insert-cong :
      (c : ℕ) (p : Option Bytes)
      → Agrees
          (record v { allocates = a; writes = insert k c v.writes; pending = insert k p v.pending })
          (record w { allocates = b; writes = insert k c w.writes; pending = insert k p w.pending })
  insert-cong c p = record {
    pending = λ j.
        ground (arith, h.pending j, lookup-insert k j p v.pending, lookup-insert k j p w.pending);
    writes =
        λ j. ground (arith, h.writes j, lookup-insert k j c v.writes, lookup-insert k j c w.writes);
    scope = h.scope;
    storage = h.storage;
  }

  delete-cong :
      Agrees
        (record v { allocates = a; writes = delete k v.writes; pending = delete k v.pending })
        (record w { allocates = b; writes = delete k w.writes; pending = delete k w.pending })
  delete-cong = record {
    pending =
        λ j. ground (arith, h.pending j, lookup-delete k j v.pending, lookup-delete k j w.pending);
    writes =
        λ j. ground (arith, h.writes j, lookup-delete k j v.writes, lookup-delete k j w.writes);
    scope = h.scope;
    storage = h.storage;
  }

undo_insert-cong :
    (op : Op) (v w : View) (a b : Dict Bytes ℕ)
    → Agrees v w
    → Agrees
        (undo_insert op (record v { allocates = a }))
        (undo_insert op (record w { allocates = b }))
unfolding undo_insert
undo_insert-cong op v w a b h = elim (Option-cases op.past_writes) [
  | inl e ↦ rw e (delete-cong v w h op.k a b)
  | inr (c, e) ↦ rw e (insert-cong v w h op.k a b c (some op.past_v))
]

undo_create-cong :
    (op : Op) (v w : View) → Agrees v w → Agrees (undo_create op v) (undo_create op w)
unfolding undo_create
undo_create-cong op v w h = elim (Option-cases op.past_writes) [
  | inl e ↦ rw e (delete-cong v w h op.k _ _)
  | inr (c, e) ↦ rw e (insert-cong v w h op.k _ _ c none)
]

undo_as-cong :
    (t : OpType) (op : Op) (v w : View) → Agrees v w → Agrees (undo_as t op v) (undo_as t op w)
unfolding undo_as undo_remove
undo_as-cong create_op op v w h = undo_create-cong op v w h
undo_as-cong insert_op op v w h = undo_insert-cong op v w v.allocates w.allocates h
undo_as-cong remove_op op v w h = undo_insert-cong op v w _ _ h

undo_all-cong : (os : List Op) (v w : View) → Agrees v w → Agrees (undo_all os v) (undo_all os w)
unfolding undo_all undo
undo_all-cong [] v w h = h
undo_all-cong (op ∷ os) v w h = undo_as-cong op.t op _ _ (undo_all-cong os v w h)

undo_all-append :
    (os : List Op) (op : Op) (v : View) → undo_all (os ++ op ∷ []) v ≡ undo_all os (undo op v)
unfolding undo_all
undo_all-append [] op v = refl
undo_all-append (o ∷ os) op v = ap (undo o) (undo_all-append os op v)

Agrees-trans : {u v w : View} → Agrees u v → Agrees v w → Agrees u w
Agrees-trans p q = record {
  pending = λ k. p.pending k ∙ q.pending k;
  writes = λ k. p.writes k ∙ q.writes k;
  scope = p.scope ∙ q.scope;
  storage = p.storage ∙ q.storage;
}

Agrees-refl : (v : View) → Agrees v v
Agrees-refl v = record { pending = λ k. refl; writes = λ k. refl; scope = refl; storage = refl }

-- The operations recorded since a view, and that undoing them gives it back.
abbrev Undoable : View → View → Type 0
Undoable v w = (os : List Op) × (w.ops ≡ v.ops ++ os) × Agrees (undo_all os w) v

Steps-Undoable : {v w : View} → WritesMatch v → Steps v w → Undoable v w
unfolding undo_all
Steps-Undoable {v} m start = ([], sym (append-nil v.ops), Agrees-refl v)
Steps-Undoable {v} m (next r st) =
    further (Steps-Undoable m r) (Step-Undoes (Steps-WritesMatch m r) st)
  where
    further : {w u : View} → Undoable v w → Undoes w u → Undoable v u
    further {w} {u} (os, e, back) (inl same) = rw same (os, e, back)
    further {w} {u} (os, e, back) (inr (op, recorded, undone)) = (
      os ++ op ∷ [],
      recorded ∙ ap (λ l. l ++ op ∷ []) e ∙ append_assoc v.ops os (op ∷ []),
      rw (undo_all-append os op u) (Agrees-trans (undo_all-cong os (undo op u) w undone) back),
    )

pub same_reads :
    {v w : View} (ts : TState) (key : Bytes)
    → Agrees v w
    → read_value ts v key ≡ read_value ts w key
unfolding read_value read_below
same_reads ts key h = ground (arith, h.pending key, ap (λ (s : Immutable). s key) h.storage)

-- Rollback to the OpIndex of an earlier state of a view, after any calls of Insert and Remove,
-- brings back that state: its operations, its pending changes, its counts of chunks written, its
-- scope, and what every key reads, whatever the parent state is by then. The counts of chunks
-- allocated are not part of this.
pub rollback-restores :
    {v w : View}
    → WritesMatch v
    → Steps v w
    → ((rollback (op_index v) w).ops ≡ v.ops)
      × Agrees (rollback (op_index v) w) v
      × ((ts : TState) (key : Bytes)
          → read_value ts (rollback (op_index v) w) key ≡ read_value ts v key)
unfolding rollback op_index
rollback-restores {v} {w} m r =
    let (os, e, back) = Steps-Undoable m r in
    let since : drop (length v.ops) w.ops ≡ os =
      ap (drop (length v.ops)) e ∙ drop-append v.ops os _ refl in
    let before : take (length v.ops) w.ops ≡ v.ops =
      ap (take (length v.ops)) e ∙ take-append v.ops os _ refl in
    (before, rw since (relabel _ back), λ ts key. same_reads ts key (rw since (relabel _ back)))
  where
    relabel :
        (os : List Op)
        → Agrees (undo_all os w) v
        → Agrees (record (undo_all os w) { ops = take (length v.ops) w.ops }) v
    relabel os h = record {
      pending = h.pending;
      writes = h.writes;
      scope = h.scope;
      storage = h.storage;
    }

-- A new view has nothing written.
pub new_view-WritesMatch :
    (scope : Scope) (storage : Immutable) → WritesMatch (new_view scope storage)
unfolding new_view lookup
new_view-WritesMatch scope storage k = refl
