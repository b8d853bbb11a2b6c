-- ===== src/TState/View.antt =====
-- hypersdk/state/tstate/tstate_view.go. The parent state is shared with other views, so each
-- operation takes it as it stands at the time of the call. An operation gives the new view and the
-- error that it returns, if any.
pub mod Reads
pub mod Undo
pub mod Rollback
pub mod Commit
pub mod Shadow
use haven_claw.Prelude.{
  ℕ, ◌+◌, Bool, true, false, not, ◌&&◌, Option, none, some, List, [], ◌∷◌, ◌++◌, ◌==◌,
  bytes_comparable, if◌then◌else◌, length, take, drop,
}
use haven_claw.Dict.{Dict, lookup, insert, delete, copy_into}
use haven_claw.Bytes.{Bytes}
use haven_claw.Keys.{num_chunks, max_chunks, verify_value}
use haven_claw.StateKeys.{Scope, read, write, allocate}
use haven_claw.TState.{
  Error, invalid_key_or_permission, invalid_key_value, not_found, storage_error, Result, ok, err,
  Immutable, TState, get_changed_value,
}

pub data OpType : Type 0 where
  create_op : OpType
  insert_op : OpType
  remove_op : OpType

-- What an operation on a key found: the past value, and the past entries of the two counts.
pub record Op : Type 0 where
  pub t : OpType
  pub k : Bytes
  pub past_v : Bytes
  pub past_allocates : Option ℕ
  pub past_writes : Option ℕ

pub record View : Type 0 where
  pub pending : Dict Bytes (Option Bytes)
  pub ops : List Op
  pub scope : Scope
  pub storage : Immutable
  pub allocates : Dict Bytes ℕ
  pub writes : Dict Bytes ℕ

unfoldable pub new_view : Scope → Immutable → View
new_view scope storage = record {
  pending = [];
  ops = [];
  scope = scope;
  storage = storage;
  allocates = [];
  writes = [];
}

unfoldable pub undo_create : Op → View → View
undo_create op v = elim op.past_writes [
  | some w ↦ record v {
    allocates = delete op.k v.allocates;
    writes = insert op.k w v.writes;
    pending = insert op.k none v.pending;
  }
  | none ↦ record v {
    allocates = delete op.k v.allocates;
    writes = delete op.k v.writes;
    pending = delete op.k v.pending;
  }
]

unfoldable pub undo_insert : Op → View → View
undo_insert op v = elim op.past_writes [
  | some w ↦ record v {
    writes = insert op.k w v.writes;
    pending = insert op.k (some op.past_v) v.pending;
  }
  | none ↦ record v { writes = delete op.k v.writes; pending = delete op.k v.pending }
]

abbrev restored_allocates : Op → View → Dict Bytes ℕ
restored_allocates op v = elim op.past_allocates [
  | some a ↦ insert op.k a v.allocates
  | none ↦ v.allocates
]

unfoldable pub undo_remove : Op → View → View
unfolding undo_insert
undo_remove op v = undo_insert op (record v { allocates = restored_allocates op v })

unfoldable pub undo_as : OpType → Op → View → View
unfolding undo_create undo_insert undo_remove
undo_as create_op op v = undo_create op v
undo_as insert_op op v = undo_insert op v
undo_as remove_op op v = undo_remove op v

-- One round of the loop of Rollback.
unfoldable pub undo : Op → View → View
unfolding undo_as
undo op v = undo_as op.t op v

-- The loop of Rollback: the last operation is undone first.
unfoldable pub undo_all : List Op → View → View
undo_all [] v = v
undo_all (op ∷ rest) v = undo op (undo_all rest v)

-- For a restore point within the operations; Go's slice expression panics on one that is not.
unfoldable pub rollback : ℕ → View → View
unfolding undo_all
rollback restore_point v = record (undo_all (drop restore_point v.ops) v) {
  ops = take restore_point v.ops;
}

unfoldable pub op_index : View → ℕ
op_index v = length v.ops

-- KeyOperations: the chunks allocated and written, by key.
unfoldable pub key_operations : View → Dict Bytes ℕ × Dict Bytes ℕ
key_operations v = (v.allocates, v.writes)

unfoldable pub pending_changes : View → ℕ
pending_changes v = length v.pending

-- What a view without a pending change of the key reads.
unfoldable pub read_below : TState → View → Bytes → Result Bytes
read_below ts v key = elim (get_changed_value ts key) [
  | some (some value) ↦ ok value
  | some none ↦ err not_found
  | none ↦ v.storage key
]

-- getValue
unfoldable pub read_value : TState → View → Bytes → Result Bytes
read_value ts v key = elim (lookup key v.pending) [
  | some (some value) ↦ ok value
  | some none ↦ err not_found
  | none ↦ read_below ts v key
]

unfoldable pub get_value : TState → View → Bytes → Result Bytes
get_value ts v key = if v.scope key read then read_value ts v key else err invalid_key_or_permission

abbrev same_as : Option Bytes → Bytes → Bool → Bool
same_as none nval nexists = not nexists
same_as (some value) nval nexists = nexists && value == nval

abbrev stored_same : Result Bytes → Bytes → Bool → Result Bool
stored_same (ok value) nval nexists = ok (nexists && value == nval)
stored_same (err not_found) nval nexists = ok (not nexists)
stored_same (err e) nval nexists = err e

unfoldable pub is_unchanged : TState → View → Bytes → Bytes → Bool → Result Bool
is_unchanged ts v key nval nexists = elim (get_changed_value ts key) [
  | some changed ↦ ok (same_as changed nval nexists)
  | none ↦ stored_same (v.storage key) nval nexists
]

-- A count that cannot fail where it is asked for.
abbrev chunk_count : Option ℕ → ℕ
chunk_count none = 0
chunk_count (some c) = c

-- The op that Insert and Remove append.
abbrev record_op : OpType → View → Bytes → Bytes → List Op
record_op t v key past =
    v.ops
    ++ record {
      t = t;
      k = key;
      past_v = past;
      past_allocates = lookup key v.allocates;
      past_writes = lookup key v.writes;
    }
      ∷ []

-- if isUnchanged { delete … }
unfoldable pub forget_if : Bool → Bytes → View → View
forget_if unchanged key v =
    if unchanged
    then record v {
      allocates = delete key v.allocates;
      writes = delete key v.writes;
      pending = delete key v.pending;
    }
    else v

-- Insert from where the past value is known.
unfoldable pub insert_over : View → Bytes → Bytes → Bool → Result Bytes → View × Option Error
unfolding forget_if
insert_over v key value unchanged (ok past) = if past == value then (v, none) else (
  forget_if unchanged key (record v {
    writes = insert key (chunk_count (num_chunks value)) v.writes;
    ops = record_op insert_op v key past;
    pending = insert key (some value) v.pending;
  }),
  none,
)
insert_over v key value unchanged (err not_found) =
    if v.scope key allocate
    then (
      forget_if unchanged key (record v {
        allocates = insert key (chunk_count (max_chunks key)) v.allocates;
        writes = insert key (chunk_count (num_chunks value)) v.writes;
        ops = record_op create_op v key [];
        pending = insert key (some value) v.pending;
      }),
      none,
    )
    else (v, some invalid_key_or_permission)
insert_over v key value unchanged (err e) = (v, some e)

unfoldable pub insert_value : TState → View → Bytes → Bytes → View × Option Error
insert_value ts v key value =
    if v.scope key write
    then (if verify_value key value
        then elim (is_unchanged ts v key value true) [
          | err e ↦ (v, some e)
          | ok unchanged ↦ insert_over v key value unchanged (read_value ts v key)
        ]
        else (v, some invalid_key_value))
    else (v, some invalid_key_or_permission)

-- Remove from where the past value and the comparison with the parent are known.
unfoldable pub remove_over : View → Bytes → Bytes → Bool → View
unfolding forget_if
remove_over v key past unchanged =
    let ops : List Op = record_op remove_op v key past in
    forget_if unchanged key (elim (lookup key v.allocates) [
      | some _ ↦ record v {
        ops = ops;
        allocates = delete key v.allocates;
        writes = delete key v.writes;
        pending = delete key v.pending;
      }
      | none ↦ record v {
        ops = ops;
        writes = insert key 0 v.writes;
        pending = insert key none v.pending;
      }
    ])

abbrev remove_known : View → Bytes → Result Bytes → Result Bool → View × Option Error
remove_known v key (ok past) (ok unchanged) = (remove_over v key past unchanged, none)
remove_known v key (ok past) (err e) = (v, some e)
remove_known v key (err not_found) unchanged = (v, none)
remove_known v key (err e) unchanged = (v, some e)

unfoldable pub remove_value : TState → View → Bytes → View × Option Error
remove_value ts v key =
    if v.scope key write
    then remove_known v key (read_value ts v key) (is_unchanged ts v key [] false)
    else (v, some invalid_key_or_permission)

-- Commit writes every pending change into the parent.
unfoldable pub commit : TState → View → TState
commit ts v = record {
  ops = ts.ops + length v.ops;
  changed_keys = copy_into ts.changed_keys v.pending;
}
