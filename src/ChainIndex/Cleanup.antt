-- ===== src/ChainIndex/Cleanup.antt =====
-- The cleanup at the start deletes the blocks below the window, and no other.
use haven_claw.Prelude.{
  ℕ, ◌<◌, ◌≤◌, ◌^◌, ◌≡◌, refl, sym, ap, ◌∙◌, true, ◌&&◌, Option-cases, Option, none, some, inl, inr,
  List, [], ◌∷◌, ◌++◌, ltb, nat_beq_iff, bytes_beq, if◌then◌else◌, arith, bytes_comparable,
}
use haven_claw.Bytes.{Bytes, to_be}
use haven_claw.Sets.{member}
use haven_claw.TState.{Error, not_found, Result, ok, err}
use haven_claw.Database.{BatchOp, Database, applied, IsAtomic, refused}
use haven_claw.ChainIndex.{
  delete_block, prefix_block_key, extract_block_height_from_key, get_block_id_at_height,
  deleted_heights, deletions, cleanup_below, committed,
}
use haven_claw.ChainIndex.Layout.{to_be-beq, Result-cases}

-- The heights of keys
abbrev pub heights_of : List Bytes → List ℕ
heights_of [] = []
heights_of (key ∷ keys) = extract_block_height_from_key key ∷ heights_of keys

-- An iterator gives the keys in their order, which is that of the heights.
abbrev pub IsAscending : List Bytes → Type 0
IsAscending [] = Unit
IsAscending (key ∷ keys) =
    ((h : ℕ) → member h (heights_of keys) ≡ true → extract_block_height_from_key key ≤ h)
    × IsAscending keys

member-deleted_heights :
    (threshold : ℕ) (keys : List Bytes) (h : ℕ)
    → IsAscending keys
    → member h (deleted_heights threshold keys)
      ≡ (ltb 0 h && ltb h threshold && member h (heights_of keys))
unfolding deleted_heights
member-deleted_heights threshold [] h up = ground arith
member-deleted_heights threshold (key ∷ keys) h up = ground (
  arith,
  member-deleted_heights threshold keys h up.1,
  up.0 h,
  nat_beq_iff (extract_block_height_from_key key) h,
)

-- Heights that are words
abbrev pub AllSmall : List ℕ → Type 0
AllSmall [] = Unit
AllSmall (h ∷ hs) = (h < 2 ^ 64) × AllSmall hs

ops_of : Result (List BatchOp) → List BatchOp
ops_of (ok ops) = ops
ops_of (err e) = []

ok-same : (a b : List BatchOp) → ok a ≡ ok b → a ≡ b
unfolding ops_of
ok-same a b e = ap ops_of e

module _ {D : Type 0} (db : Database D) where
  applied-deletions :
      (d : D) (heights : List ℕ) (ops : List BatchOp) (h : ℕ) (before : Result Bytes)
      → h < 2 ^ 64
      → AllSmall heights
      → deletions db d heights ≡ ok ops
      → applied ops (prefix_block_key h) before
        ≡ (if member h heights then err not_found else before)
  unfolding deletions applied
  applied-deletions d [] ops h before small all e = rw (← ok-same [] ops e) refl
  applied-deletions d (k ∷ ks) ops h before small all e =
      elim (Result-cases (get_block_id_at_height db d k)) [
        | inr (x, unknown) ↦ absurd (ground (arith, unknown))
        | inl (id, known) ↦ elim (Option-cases (refused db (delete_block k id))) [
          | inr (x, no_deletes) ↦ absurd (ground (arith, known, no_deletes))
          | inl deletes ↦ elim (Result-cases (deletions db d ks)) [
            | inr (x, broken) ↦ absurd (ground (arith, known, deletes, broken))
            | inl (more, rest) ↦
                let all_ops =
                  ok-same (delete_block k id ++ more) ops
                    (rw (known, deletes, rest, deletions) at e) in
                let same = to_be-beq k h all.0 small in
                rw (← all_ops) (
                  applied-deletions d ks more h
                    (if bytes_beq (to_be 8 k) (to_be 8 h) then err not_found else before) small
                    all.1 rest
                  ∙ ground (arith, same))
          ]
        ]
      ]

  -- A cleanup without an error writes the deletions of the heights.
  committed-writes :
      (d : D) (made : Result (List BatchOp)) (iterated : Option Error)
      → (committed db d made iterated).1 ≡ none
      → made ≡ ok (ops_of made) × ((committed db d made iterated) ≡ db.write d (ops_of made))
  unfolding ops_of
  committed-writes d (err x) iterated e = absurd (ground (arith, e))
  committed-writes d (ok ops) (some x) e = absurd (ground (arith, e))
  committed-writes d (ok ops) none e = (refl, refl)

  -- Where the cleanup below a threshold returns no error, and the iterator gives the keys in the order
  -- of their heights, exactly the blocks at the heights of these keys that are below the threshold
  -- are deleted, but for genesis; what is at any other height stays.
  pub cleanup_below-deletes :
      (atomic : IsAtomic db) (keys_with_prefix : D → Bytes → List Bytes × Option Error)
      (threshold : ℕ) (d : D) (h : ℕ)
      → h < 2 ^ 64
      → IsAscending (keys_with_prefix d (2 ∷ [])).0
      → AllSmall (deleted_heights threshold (keys_with_prefix d (2 ∷ [])).0)
      → (cleanup_below db keys_with_prefix threshold d).1 ≡ none
      → db.get (cleanup_below db keys_with_prefix threshold d).0 (prefix_block_key h) ≡ (
          if ltb 0 h && ltb h threshold && member h (heights_of (keys_with_prefix d (2 ∷ [])).0)
          then err not_found
          else db.get d (prefix_block_key h))
  unfolding cleanup_below
  cleanup_below-deletes atomic keys_with_prefix threshold d h small up all e =
      let keys = (keys_with_prefix d (2 ∷ [])).0 in
      let made = deletions db d (deleted_heights threshold keys) in
      let w = committed-writes d made (keys_with_prefix d (2 ∷ [])).1 e in
      ap (λ r. db.get r.0 (prefix_block_key h)) w.1
      ∙ atomic.write_lem d (ops_of made) (prefix_block_key h) (sym (ap (λ r. r.1) w.1) ∙ e)
      ∙ applied-deletions d (deleted_heights threshold keys) (ops_of made) h
          (db.get d (prefix_block_key h)) small all w.0
      ∙ ap (λ b. if b then err not_found else db.get d (prefix_block_key h))
          (member-deleted_heights threshold keys h up)
