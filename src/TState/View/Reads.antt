-- ===== src/TState/View/Reads.antt =====
-- What GetValue, Insert and Remove of a view give back and leave alone.
use haven_claw.Prelude.{
  ◌≡◌, ◌≢◌, refl, sym, ap, ◌∙◌, Bool, true, false, none, some, [], arith, ◌==◌, bytes_comparable,
  bytes_beq_iff, Bool-cases, Option-cases, inl, inr, ◌⊎◌,
}
use haven_claw.Dict.{lookup, insert, delete, lookup-insert, lookup-delete}
use haven_claw.Bytes.{Bytes}
use haven_claw.Keys.{verify_value}
use haven_claw.StateKeys.{read, write, allocate}
use haven_claw.TState.{
  Error, invalid_key_or_permission, invalid_key_value, not_found, storage_error, Result, ok, err,
  TState, get_changed_value,
}
use haven_claw.TState.View.{
  View, read_below, read_value, get_value, is_unchanged, stored_same, remove_known, insert_over,
  insert_value, remove_over, remove_value,
}

stored_same-true :
    (r : Result Bytes) (nval : Bytes) → stored_same r nval true ≡ ok true → r ≡ ok nval
stored_same-true (ok value) nval h = ground (arith, bytes_beq_iff value nval)
stored_same-true (err invalid_key_or_permission) nval h = cc
stored_same-true (err invalid_key_value) nval h = cc
stored_same-true (err not_found) nval h = cc
stored_same-true (err (storage_error c)) nval h = cc

stored_same-false :
    (r : Result Bytes) (nval : Bytes) → stored_same r nval false ≡ ok true → r ≡ err not_found
stored_same-false (ok value) nval h = ground arith
stored_same-false (err invalid_key_or_permission) nval h = cc
stored_same-false (err invalid_key_value) nval h = cc
stored_same-false (err not_found) nval h = refl
stored_same-false (err (storage_error c)) nval h = cc

module _ (ts : TState) (v : View) (key : Bytes) where
  pub unchanged-reads :
      (value : Bytes) → is_unchanged ts v key value true ≡ ok true → read_below ts v key ≡ ok value
  unfolding is_unchanged read_below
  unchanged-reads value h = elim (Option-cases (get_changed_value ts key)) [
    | inl e ↦ ground (arith, stored_same-true (v.storage key) value)
    | inr (none, e) ↦ ground arith
    | inr (some old, e) ↦ ground (arith, bytes_beq_iff old value)
  ]

  pub unchanged-absent :
      is_unchanged ts v key [] false ≡ ok true → read_below ts v key ≡ err not_found
  unfolding is_unchanged read_below
  unchanged-absent h = elim (Option-cases (get_changed_value ts key)) [
    | inl e ↦ ground (arith, stored_same-false (v.storage key) [])
    | inr (none, e) ↦ ground arith
    | inr (some old, e) ↦ ground arith
  ]

Result-cases {ℓ} :
    {A : Type ℓ} (r : Result A) → ((a : A) × (r ≡ ok a)) ⊎ ((e : Error) × (r ≡ err e))
Result-cases (ok a) = inl (a, refl)
Result-cases (err e) = inr (e, refl)

-- A view in which the key was written, or its write forgotten where the parent reads the same.
abbrev Holds : TState → View → View → Bytes → Result Bytes → Type 0
Holds ts v w key r =
    (read_value ts w key ≡ r)
    × ((j : Bytes) → (key == j) ≡ false → read_value ts w j ≡ read_value ts v j)

module _ (ts : TState) (v : View) (key value : Bytes) where
  insert_over-reads :
      (unchanged : Bool) (r : Result Bytes)
      → read_value ts v key ≡ r
      → (unchanged ≡ true → read_below ts v key ≡ ok value)
      → (insert_over v key value unchanged r).1 ≡ none
      → Holds ts v (insert_over v key value unchanged r).0 key (ok value)
  unfolding insert_over read_value read_below
  insert_over-reads unchanged (ok past) e below h = (
    ground (
      arith,
      bytes_beq_iff past value,
      bytes_beq_iff key key,
      lookup-insert key key (some value) v.pending,
      lookup-delete key key (insert key (some value) v.pending),
    ),
    λ j ne. ground (
      arith,
      lookup-insert key j (some value) v.pending,
      lookup-delete key j (insert key (some value) v.pending),
    ),
  )
  insert_over-reads unchanged (err not_found) e below h = (
    ground (
      arith,
      bytes_beq_iff key key,
      lookup-insert key key (some value) v.pending,
      lookup-delete key key (insert key (some value) v.pending),
    ),
    λ j ne. ground (
      arith,
      lookup-insert key j (some value) v.pending,
      lookup-delete key j (insert key (some value) v.pending),
    ),
  )
  insert_over-reads unchanged (err invalid_key_or_permission) e below h = cc
  insert_over-reads unchanged (err invalid_key_value) e below h = cc
  insert_over-reads unchanged (err (storage_error c)) e below h = cc

-- An Insert either leaves the view, or goes on from the past value.
module _ (ts : TState) (v : View) (key value : Bytes) where
  pub insert_value-cases :
      (insert_value ts v key value).1 ≡ none
      → (unchanged : Bool) × (is_unchanged ts v key value true ≡ ok unchanged)
        × (insert_value ts v key value ≡ insert_over v key value unchanged (read_value ts v key))
  unfolding insert_value
  insert_value-cases h = elim (Bool-cases (v.scope key write)) [
    | inr no_write ↦ ground arith
    | inl may_write ↦ elim (Bool-cases (verify_value key value)) [
      | inr too_big ↦ ground arith
      | inl fits ↦ elim (Result-cases (is_unchanged ts v key value true)) [
        | inr (e, failed) ↦ ground arith
        | inl (unchanged, known) ↦ (unchanged, known, rw (may_write, fits, known))
      ]
    ]
  ]

  pub insert_value-keeps {ℓ} :
      (P : View → Type ℓ)
      → P v
      → ((unchanged : Bool) (r : Result Bytes)
          → read_value ts v key ≡ r
          → P (insert_over v key value unchanged r).0)
      → P (insert_value ts v key value).0
  unfolding insert_value
  insert_value-keeps P same over = elim (Bool-cases (v.scope key write)) [
    | inr no_write ↦ rw no_write same
    | inl may_write ↦ elim (Bool-cases (verify_value key value)) [
      | inr too_big ↦ rw (may_write, too_big) same
      | inl fits ↦ elim (Result-cases (is_unchanged ts v key value true)) [
        | inr (e, failed) ↦ rw (may_write, fits, failed) same
        | inl (unchanged, known) ↦
            rw (may_write, fits, known) (over unchanged (read_value ts v key) refl)
      ]
    ]
  ]

  -- An Insert that returns no error makes the key read as the value inserted, also where it drops
  -- the pending change because the parent holds that value; every other key reads as before.
  pub insert_value-reads :
      (insert_value ts v key value).1 ≡ none
      → Holds ts v (insert_value ts v key value).0 key (ok value)
  insert_value-reads h =
      let (unchanged, known, e) = insert_value-cases h in
      rw e (
        insert_over-reads ts v key value unchanged (read_value ts v key) refl
          (λ t. unchanged-reads ts v key value (known ∙ ap ok t)) (rw e at h))

module _ (ts : TState) (v : View) (key : Bytes) where
  pub remove_over-reads :
      (past : Bytes) (unchanged : Bool)
      → (unchanged ≡ true → read_below ts v key ≡ err not_found)
      → Holds ts v
          (remove_over v key past unchanged)
          key
          (elim (lookup key v.allocates) [ some _ ↦ read_below ts v key | none ↦ err not_found ])
  unfolding remove_over read_value read_below
  remove_over-reads past unchanged below = (
    ground (
      arith,
      bytes_beq_iff key key,
      lookup-delete key key v.pending,
      lookup-insert key key none v.pending,
      lookup-delete key key (insert key none v.pending),
      lookup-delete key key (delete key v.pending),
    ),
    λ j ne. ground (
      arith,
      lookup-delete key j v.pending,
      lookup-insert key j none v.pending,
      lookup-delete key j (insert key none v.pending),
      lookup-delete key j (delete key v.pending),
    ),
  )

  pub remove_value-keeps {ℓ} :
      (P : View → Type ℓ)
      → P v
      → ((past : Bytes) (unchanged : Bool)
          → read_value ts v key ≡ ok past
          → P (remove_over v key past unchanged))
      → P (remove_value ts v key).0
  unfolding remove_value
  remove_value-keeps P same over = elim (Bool-cases (v.scope key write)) [
    | inr no_write ↦ rw no_write same
    | inl may_write ↦ rw may_write (go (read_value ts v key) (is_unchanged ts v key [] false) refl)
  ]
    where
      go :
          (r : Result Bytes) (u : Result Bool)
          → read_value ts v key ≡ r
          → P (remove_known v key r u).0
      go (ok past) (ok unchanged) e = over past unchanged e
      go (ok past) (err f) e = same
      go (err not_found) u e = same
      go (err invalid_key_or_permission) u e = same
      go (err invalid_key_value) u e = same
      go (err (storage_error c)) u e = same

  -- What a Remove that returns no error does. A key that read as absent stays so. Otherwise the
  -- key reads as absent afterwards if the view had no allocation of it, and if the view had one
  -- the pending change is dropped, so that the key reads as the parent has it. All other keys
  -- read as before.
  pub remove_value-reads :
      (remove_value ts v key).1 ≡ none
      → ((read_value ts v key ≡ err not_found) × (remove_value ts v key ≡ (v, none)))
        ⊎ Holds ts v
            (remove_value ts v key).0
            key
            (elim (lookup key v.allocates) [ some _ ↦ read_below ts v key | none ↦ err not_found ])
  unfolding remove_value
  remove_value-reads h = elim (Bool-cases (v.scope key write)) [
    | inr no_write ↦ ground arith
    | inl may_write ↦
        rw may_write
          (go (read_value ts v key) (is_unchanged ts v key [] false) refl refl (rw may_write at h))
  ]
    where
      go :
          (r : Result Bytes) (u : Result Bool)
          → read_value ts v key ≡ r
          → is_unchanged ts v key [] false ≡ u
          → (remove_known v key r u).1 ≡ none
          → ((r ≡ err not_found) × (remove_known v key r u ≡ (v, none)))
            ⊎ Holds ts v (remove_known v key r u).0 key (elim (lookup key v.allocates) [
              | some _ ↦ read_below ts v key
              | none ↦ err not_found
            ])
      go (ok past) (ok unchanged) e d n =
          inr (remove_over-reads past unchanged (λ t. unchanged-absent ts v key (d ∙ ap ok t)))
      go (ok past) (err f) e d n = cc
      go (err not_found) u e d n = inl (refl, refl)
      go (err invalid_key_or_permission) u e d n = cc
      go (err invalid_key_value) u e d n = cc
      go (err (storage_error c)) u e d n = cc

-- Without the permission to write, Insert and Remove return the error for it and leave the view as
-- it was; without the permission to read, GetValue returns that error. Without the permission to
-- allocate, an Insert of a key that reads as absent returns some error and leaves the view.
pub scope_guards :
    (ts : TState) (v : View) (key value : Bytes)
    → (v.scope key write ≡ false
        → (insert_value ts v key value ≡ (v, some invalid_key_or_permission))
          × (remove_value ts v key ≡ (v, some invalid_key_or_permission)))
      × (v.scope key read ≡ false → get_value ts v key ≡ err invalid_key_or_permission)
      × (v.scope key allocate ≡ false
          → read_value ts v key ≡ err not_found
          → ((insert_value ts v key value).0 ≡ v) × ((insert_value ts v key value).1 ≢ none))
unfolding insert_value insert_over remove_value get_value
scope_guards ts v key value = (
  λ denied. ground arith,
  λ denied. ground arith,
  λ denied absent. (
    insert_value-keeps ts v key value (λ w. w ≡ v) refl
        (λ u r e. rw (sym e ∙ absent) (blocked u denied).0),
    λ done.
        let (u, known, e) = insert_value-cases ts v key value done in
        (blocked u denied).1 (rw (e, absent) at done),
  ),
)
  where
    blocked :
        (u : Bool)
        → v.scope key allocate ≡ false
        → ((insert_over v key value u (err not_found)).0 ≡ v)
          × ((insert_over v key value u (err not_found)).1 ≢ none)
    blocked u denied = ground arith
