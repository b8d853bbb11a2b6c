-- ===== src/Tests/Views.antt =====
-- Tests of state/tstate.
use haven_claw.Prelude.{
  ℕ, ◌≡◌, ◌≢◌, ◌⊎◌, inl, inr, refl, Bool, true, false, Option, none, some, List, [], ◌∷◌, arith,
  ◌==◌, bytes_comparable, if◌then◌else◌, length, nat_beq,
}
use haven_claw.Dict.{lookup}
use haven_claw.Bytes.{Bytes, from_be}
use haven_claw.Keys.{verify_value}
use haven_claw.StateKeys.{read, complete_permissions}
use haven_claw.TState.{not_found, ok, err, Immutable, TState, get_changed_value}
use haven_claw.TState.View.{
  View, new_view, insert_value, remove_value, read_below, read_value, is_unchanged, insert_over,
  remove_over, rollback, op_index, commit,
}
use haven_claw.TState.View.Reads.{insert_value-reads, remove_value-reads}
use haven_claw.TState.View.Undo.{WritesMatch, Agrees}
use haven_claw.TState.View.Rollback.{Steps, inserting, removing, start, next, rollback-restores}
use haven_claw.TState.View.Commit.{commit-reads}
use haven_claw.TState.View.Shadow.{remove-insert-remove}

abbrev key : Bytes
key = b'k' ∷ 0 ∷ 1 ∷ []

abbrev old : Bytes
old = 9 ∷ []

abbrev young : Bytes
young = 7 ∷ []

-- A storage with one entry.
abbrev disk : Immutable
disk k = if k == key then ok old else err not_found

abbrev base : TState
base = record { ops = 0; changed_keys = [] }

abbrev fresh : View
fresh = record {
  pending = [];
  ops = [];
  scope = complete_permissions;
  storage = disk;
  allocates = [];
  writes = [];
}

abbrev after_insert : View
after_insert = (insert_value base fresh key young).0

insert_succeeds : (insert_value base fresh key young).1 ≡ none
unfolding insert_value verify_value is_unchanged get_changed_value read_value read_below insert_over
    lookup from_be
insert_succeeds = refl

insert_value-reads_example :
    (read_value base (insert_value base fresh key young).0 key ≡ ok young)
    × ((j : Bytes)
        → (key == j) ≡ false
        → read_value base (insert_value base fresh key young).0 j ≡ read_value base fresh j)
insert_value-reads_example = insert_value-reads base fresh key young insert_succeeds

remove_succeeds : (remove_value base fresh key).1 ≡ none
unfolding remove_value is_unchanged get_changed_value read_value read_below remove_over lookup
remove_succeeds = refl

remove_value-reads_example :
    ((read_value base fresh key ≡ err not_found) × (remove_value base fresh key ≡ (fresh, none)))
    ⊎ ((read_value base (remove_value base fresh key).0 key ≡ elim (lookup key fresh.allocates) [
      | some _ ↦ read_below base fresh key
      | none ↦ err not_found
    ])
        × ((j : Bytes)
            → (key == j) ≡ false
            → read_value base (remove_value base fresh key).0 j ≡ read_value base fresh j))
remove_value-reads_example = remove_value-reads base fresh key remove_succeeds

fresh-WritesMatch : WritesMatch fresh
unfolding lookup
fresh-WritesMatch k = refl

abbrev two_steps : Steps fresh (remove_value base after_insert key).0
two_steps = next (next start (inserting base key young)) (removing base key)

rollback-restores_example :
    ((rollback (op_index fresh) (remove_value base after_insert key).0).ops ≡ fresh.ops)
    × Agrees (rollback (op_index fresh) (remove_value base after_insert key).0) fresh
    × ((ts : TState) (k : Bytes)
        → read_value ts (rollback (op_index fresh) (remove_value base after_insert key).0) k
          ≡ read_value ts fresh k)
rollback-restores_example = rollback-restores fresh-WritesMatch two_steps

reads_old : read_below base fresh key ≡ ok old
unfolding read_below get_changed_value lookup
reads_old = refl

young_fits : verify_value key young ≡ true
unfolding verify_value from_be
young_fits = refl

nothing_pending : (lookup key fresh.pending ≡ none) × (lookup key fresh.allocates ≡ none)
unfolding lookup
nothing_pending = (refl, refl)

remove-insert-remove_example :
    let v1 : View = (remove_value base fresh key).0 in
    let v2 : View = (insert_value base v1 key young).0 in
    ((remove_value base fresh key).1 ≡ none)
    × ((insert_value base v1 key young).1 ≡ none)
    × (read_value base v2 key ≡ ok young)
    × ((remove_value base v2 key).1 ≡ none)
    × (read_value base (remove_value base v2 key).0 key ≡ ok old)
remove-insert-remove_example =
    remove-insert-remove base fresh key old young reads_old nothing_pending.0 nothing_pending.1 refl
      refl young_fits refl

abbrev other_view : View
other_view = record fresh { pending = (b'x' ∷ 0 ∷ 1 ∷ [], some old) ∷ [] }

abbrev changed_view : View
changed_view = record fresh { pending = (key, some young) ∷ [] }

apart : (k : Bytes) → (lookup k changed_view.pending ≡ none) ⊎ (lookup k other_view.pending ≡ none)
unfolding lookup
apart k = ground (
  arith,
  haven_claw.Prelude.bytes_beq_iff key k,
  haven_claw.Prelude.bytes_beq_iff (b'x' ∷ 0 ∷ 1 ∷ []) k,
)

commit-reads_example :
    read_value (commit base after_insert) (new_view complete_permissions after_insert.storage) key
    ≡ read_value base after_insert key
commit-reads_example = commit-reads base after_insert complete_permissions key

abbrev reading_view : View
reading_view = record fresh { scope = λ k perm. nat_beq perm read }
