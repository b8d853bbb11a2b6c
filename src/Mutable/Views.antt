-- ===== src/Mutable/Views.antt =====
-- The views of state/tstate as a Mutable: their theorems fill the laws.
use haven_claw.Dict.{lookup}
use haven_claw.Prelude.{
  Option-cases, none, ◌⊎◌, ap, ◌∙◌, ◌≡◌, refl, Bool, true, false, inl, inr, arith, bytes_comparable,
}
use haven_claw.Bytes.{Bytes}
use haven_claw.StateKeys.{read, Scope}
use haven_claw.TState.{
  TState, invalid_key_or_permission, invalid_key_value, not_found, storage_error, Result, ok, err,
}
use haven_claw.TState.View.{
  View, read_value, read_below, get_value, insert_value, insert_over, remove_value, remove_over,
}
use haven_claw.TState.View.Reads.{
  insert_value-keeps, insert_value-reads, remove_value-keeps, remove_value-reads,
}
use haven_claw.Mutable.{Mutable, IsStore, Readable, Removes}

abbrev pub view_mutable : TState → Mutable View
view_mutable ts = record {
  get_value = get_value ts;
  insert = insert_value ts;
  remove = remove_value ts;
}

insert_over-scope :
    (v : View) (k x : Bytes) (u : Bool) (r : Result Bytes)
    → (insert_over v k x u r).0.scope ≡ v.scope
unfolding insert_over
insert_over-scope v k x true (ok past) = ground arith
insert_over-scope v k x false (ok past) = ground arith
insert_over-scope v k x true (err not_found) = ground arith
insert_over-scope v k x false (err not_found) = ground arith
insert_over-scope v k x u (err invalid_key_or_permission) = refl
insert_over-scope v k x u (err invalid_key_value) = refl
insert_over-scope v k x u (err (storage_error c)) = refl

remove_over-scope :
    (v : View) (k past : Bytes) (u : Bool) → (remove_over v k past u).scope ≡ v.scope
unfolding remove_over
remove_over-scope v k past true = ground arith
remove_over-scope v k past false = ground arith

module _ (ts : TState) where
  insert_value-scope : (v : View) (k x : Bytes) → (insert_value ts v k x).0.scope ≡ v.scope
  insert_value-scope v k x =
      insert_value-keeps ts v k x (λ w. w.scope ≡ v.scope) refl
        (λ u r e. insert_over-scope v k x u r)

  remove_value-scope : (v : View) (k : Bytes) → (remove_value ts v k).0.scope ≡ v.scope
  remove_value-scope v k =
      remove_value-keeps ts v k (λ w. w.scope ≡ v.scope) refl (λ p u e. remove_over-scope v k p u)

  may_read : (v : View) (k : Bytes) → Readable (view_mutable ts) v k → v.scope k read ≡ true
  unfolding get_value
  may_read v k (inl (past, e)) = ground arith
  may_read v k (inr e) = ground arith

  -- A view reads back what it inserts, and its Insert and Remove leave the other keys alone.
  pub view_mutable-IsStore : IsStore (view_mutable ts)
  unfolding get_value
  view_mutable-IsStore = record {
    insert_same = λ v k x readable done. ground (
      arith,
      may_read v k readable,
      insert_value-scope v k x,
      (insert_value-reads ts v k x done).0,
    );
    insert_other = λ v k x done j ne.
        ground (arith, insert_value-scope v k x, (insert_value-reads ts v k x done).1 j ne);
    remove_other = λ v k done j ne. elim (remove_value-reads ts v k done) [
      | inl (absent, same) ↦ ground (arith, same)
      | inr (here, others) ↦ ground (arith, remove_value-scope v k, others j ne)
    ];
  }

  -- A view of which no allocation of the key is left, or whose parent has no such key
  abbrev pub NotRecreated : View → Bytes → Type 0
  NotRecreated v k = (lookup k v.allocates ≡ none) ⊎ (read_below ts v k ≡ err not_found)

  reads_scoped :
      (v w : View) (k : Bytes)
      → w.scope ≡ v.scope
      → v.scope k read ≡ true
      → read_value ts w k ≡ err not_found
      → get_value ts w k ≡ err not_found
  unfolding get_value
  reads_scoped v w k same may absent =
      ground (arith, ap (λ (scope : Scope). scope k read) same, may, absent)

  -- A view that has not created the key over one of its parent reads it as absent once it is removed.
  pub view_mutable-Removes :
      (v : View) (k : Bytes) → NotRecreated v k → Removes (view_mutable ts) v k
  view_mutable-Removes v k fresh readable done =
      reads_scoped v (remove_value ts v k).0 k (remove_value-scope v k) (may_read v k readable)
        (elim (remove_value-reads ts v k done) [
          | inl (absent, same) ↦ ap (λ x. read_value ts x.0 k) same ∙ absent
          | inr (here, others) ↦ here ∙ elim fresh [
            | inl unallocated ↦ rw unallocated refl
            | inr below ↦ elim (Option-cases (lookup k v.allocates)) [
              | inl gone ↦ rw gone refl
              | inr (n, kept) ↦ rw kept below
            ]
          ]
        ])
