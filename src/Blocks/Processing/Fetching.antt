-- ===== src/Blocks/Processing/Fetching.antt =====
-- What the fetcher has read serves a transaction as the state below would.
use haven_claw.Prelude.{
  ℕ, ◌≡◌, refl, ap, Bool, false, ◌||◌, Option, none, some, Bool-cases, inl, inr, List, [], ◌∷◌,
  ◌++◌, map, replicate, length, arith, ◌==◌, bytes_comparable, bytes_beq_iff, if◌then◌else◌,
}
use haven_claw.Dict.{Dict, lookup, insert, lookup-insert}
use haven_claw.Bytes.{Bytes}
use haven_claw.Keys.{num_chunks}
use haven_claw.StateKeys.{Keys, keys_has, permission_of, has, read, without_permissions}
use haven_claw.TState.{
  not_found, invalid_key_value, invalid_key_or_permission, storage_error, Result, ok, err,
  Immutable, TState,
}
use haven_claw.TState.View.{new_view, get_value, read_value, read_below}
use haven_claw.Mutable.Plain.{found}
use haven_claw.Blocks.Processing.{immutable_storage, with_value, with_read, fetched}

abbrev listed : Bytes → List Bytes → Bool
listed key [] = false
listed key (k ∷ ks) = (k == key) || listed key ks

storage_of : Result (Dict Bytes Bytes) → Dict Bytes Bytes
storage_of (ok d) = d
storage_of (err e) = []

module _ (im : Immutable) where
  -- What a list of keys leaves for a key in the storage
  abbrev Serves : List Bytes → Dict Bytes Bytes → Type 0
  Serves keys d =
      (key : Bytes) → found (lookup key d) ≡ (if listed key keys then im key else err not_found)

  with_value-Serves :
      (k v : Bytes) (keys : List Bytes) (chunks : Option ℕ) (rest : Result (Dict Bytes Bytes))
      (d : Dict Bytes Bytes)
      → im k ≡ ok v
      → ((e : Dict Bytes Bytes) → rest ≡ ok e → Serves keys e)
      → with_value k v chunks rest ≡ ok d
      → Serves (k ∷ keys) d
  unfolding storage_of
  with_value-Serves k v keys none rest d at more h = cc
  with_value-Serves k v keys (some n) (err e) d at more h = cc
  with_value-Serves k v keys (some n) (ok e) d at more h =
      let same : insert k v e ≡ d = ap storage_of h in
      λ key. rw (← same) (
        ground (
          arith,
          lookup-insert k key v e,
          bytes_beq_iff k key,
          more e refl key,
          at,
          λ (p : k ≡ key). ap im p,
        ))

  with_read-Serves :
      (k : Bytes) (keys : List Bytes) (r : Result Bytes) (rest : Result (Dict Bytes Bytes))
      (d : Dict Bytes Bytes)
      → im k ≡ r
      → ((e : Dict Bytes Bytes) → rest ≡ ok e → Serves keys e)
      → with_read k r rest ≡ ok d
      → Serves (k ∷ keys) d
  with_read-Serves k keys (ok v) rest d at more h =
      with_value-Serves k v keys (num_chunks v) rest d at more h
  with_read-Serves k keys (err not_found) rest d at more h =
      λ key. ground (arith, more d h key, bytes_beq_iff k key, at, λ (p : k ≡ key). ap im p)
  with_read-Serves k keys (err invalid_key_value) rest d at more h = cc
  with_read-Serves k keys (err invalid_key_or_permission) rest d at more h = cc
  with_read-Serves k keys (err (storage_error c)) rest d at more h = cc

  fetched-Serves :
      (keys : List Bytes) (d : Dict Bytes Bytes) → fetched im keys ≡ ok d → Serves keys d
  unfolding fetched storage_of lookup
  fetched-Serves [] d h = let same : [] ≡ d = ap storage_of h in λ key. rw (← same) refl
  fetched-Serves (k ∷ keys) d h =
      with_read-Serves k keys (im k) (fetched im keys) d refl (fetched-Serves keys) h

listed-append :
    (key : Bytes) (xs ys : List Bytes) → listed key (xs ++ ys) ≡ (listed key xs || listed key ys)
listed-append key [] ys = ground arith
listed-append key (x ∷ xs) ys = ground (arith, listed-append key xs ys)

not_listed :
    (key : Bytes) (keys : Keys)
    → listed key (map (λ entry. entry.0) keys) ≡ false
    → lookup key keys ≡ none
unfolding lookup
not_listed key [] h = refl
not_listed key ((k, p) ∷ keys) h =
    ground (arith, not_listed key keys, bytes_beq_iff k key, bytes_beq_iff key k)

unknown : (key : Bytes) (keys : Keys) → lookup key keys ≡ none → permission_of keys key ≡ 0
unfolding permission_of
unknown key keys absent = ground (arith, absent)

not_read :
    (key : Bytes) (keys : Keys)
    → listed key (without_permissions keys) ≡ false
    → keys_has keys key read ≡ false
unfolding without_permissions keys_has has
not_read key keys h =
    let absent = not_listed key keys (
      ground
        (arith, h, listed-append key (replicate (length keys) []) (map (λ entry. entry.0) keys))) in
    rw (unknown key keys absent) refl

-- Where the keys of a transaction were fetched without an error, a new view over what was fetched,
-- with the scope of these keys, gives for every key the value or the error that a new view over the
-- state below gives.
pub fetched-get_value :
    (im : Immutable) (keys : Keys) (storage : Dict Bytes Bytes) (ts : TState) (key : Bytes)
    → fetched im (without_permissions keys) ≡ ok storage
    → get_value ts (new_view (keys_has keys) (immutable_storage storage)) key
      ≡ get_value ts (new_view (keys_has keys) im) key
unfolding get_value read_value read_below new_view immutable_storage
fetched-get_value im keys storage ts key h =
    let serves = fetched-Serves im (without_permissions keys) storage h key in
    elim (Bool-cases (listed key (without_permissions keys))) [
      | inr other ↦ rw (not_read key keys other) refl
      | inl declared ↦ ground (arith, serves, declared)
    ]
