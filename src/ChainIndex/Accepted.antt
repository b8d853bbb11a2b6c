-- ===== src/ChainIndex/Accepted.antt =====
-- UpdateLastAccepted serves the accepted block, deletes the one that leaves the window, and keeps the
-- others.
use haven_claw.Prelude.{
  ℕ, ◌<◌, ◌^◌, ◌≡◌, ◌≢◌, refl, ap, ◌∙◌, not, ◌&&◌, Bool-cases, Option-cases, none, some, inl, inr,
  ◌++◌, nat_beq, nat_beq_iff, bytes_beq_iff, if◌then◌else◌, arith, bytes_comparable,
}
use haven_claw.Bytes.{Bytes, to_be}
use haven_claw.TState.{Error, not_found, Result, ok, err}
use haven_claw.Database.{Database, applied, IsAtomic, IsParser, refused}
use haven_claw.ChainIndex.{
  Config, Block, last_accepted_key, delete_block, prefix_block_key, prefix_block_id_height_key,
  prefix_block_height_id_key, get_block_id_at_height, get_last_accepted_height, get_block_id_height,
  get_block_by_height, get_block, update_last_accepted, then_parse,
}
use haven_claw.ChainIndex.Layout.{
  to_be-beq, Result-cases, accepting, expiry-small, expiry, evicts_none, Written,
  update_last_accepted-Written,
}

module _ {D : Type 0} (db : Database D) (atomic : IsAtomic db) (config : Config) (d : D)
    (blk : Block) (small : blk.height < 2 ^ 64) where
  -- The databases before and after
  module _ (r : D) (w : Written db config d blk r) where
    stored_at :
        (k : ℕ)
        → k < 2 ^ 64
        → db.get r (prefix_block_key k) ≡ (
            if nat_beq blk.height k
            then ok blk.bytes
            else (if not (evicts_none config blk) && nat_beq (expiry config blk) k
                then err not_found
                else db.get d (prefix_block_key k)))
    unfolding applied
    stored_at k hk =
        let same = to_be-beq blk.height k small hk in
        let left = to_be-beq (expiry config blk) k (expiry-small config blk) hk in
        elim w [
          | inl (all, at) ↦ ground (arith, all, at (prefix_block_key k), same)
          | inr (one, (id, known, at)) ↦ ground (
            arith,
            one,
            at (prefix_block_key k),
            same,
            left,
            nat_beq_iff blk.height k,
            nat_beq_iff (expiry config blk) k,
          )
        ]

    id_stored :
        (db.get r (prefix_block_height_id_key blk.height) ≡ ok blk.id)
        × (get_block_id_at_height db d (expiry config blk) ≢ ok blk.id
            → db.get r (prefix_block_id_height_key blk.id) ≡ ok (to_be 8 blk.height))
        × (db.get r last_accepted_key ≡ ok (to_be 8 blk.height))
    unfolding applied
    id_stored =
        let same = to_be-beq blk.height blk.height small small in
        let left = to_be-beq (expiry config blk) blk.height (expiry-small config blk) small in
        elim w [
          | inl (all, at) ↦ (
            ground (
              arith,
              all,
              at (prefix_block_height_id_key blk.height),
              same,
              nat_beq_iff blk.height blk.height,
            ),
            λ other.
                ground
                  (arith, all, at (prefix_block_id_height_key blk.id), bytes_beq_iff blk.id blk.id),
            ground (arith, at last_accepted_key),
          )
          | inr (one, (id, known, at)) ↦ (
            ground (
              arith,
              one,
              at (prefix_block_height_id_key blk.height),
              same,
              left,
              nat_beq_iff blk.height blk.height,
              nat_beq_iff (expiry config blk) blk.height,
            ),
            λ other. ground (
              arith,
              one,
              known,
              other,
              at (prefix_block_id_height_key blk.id),
              bytes_beq_iff blk.id blk.id,
              bytes_beq_iff id blk.id,
            ),
            ground (arith, at last_accepted_key),
          )
        ]

  -- Where UpdateLastAccepted returns no error, the block is the last accepted one, and is found by its
  -- height and, if the block that leaves the window has another id, by its id. Of the other heights
  -- that of the block that leaves the window, where one does, has no block any more, and all the
  -- others have what they had.
  pub update_last_accepted-serves :
      {P : Type 0} (parse_uint64 : Bytes → Result ℕ) (parse_block : Bytes → Result P)
      → IsParser parse_uint64
      → (update_last_accepted db config d blk).1 ≡ none
      → (get_last_accepted_height db parse_uint64 (update_last_accepted db config d blk).0
          ≡ ok blk.height)
        × (get_block_by_height db parse_block (update_last_accepted db config d blk).0 blk.height
            ≡ parse_block blk.bytes)
        × (get_block_id_at_height db d (expiry config blk) ≢ ok blk.id
            → get_block db parse_uint64 parse_block (update_last_accepted db config d blk).0 blk.id
              ≡ parse_block blk.bytes)
        × ((k : ℕ)
            → k < 2 ^ 64
            → k ≢ blk.height
            → get_block_by_height db parse_block (update_last_accepted db config d blk).0 k ≡ (
                if not (evicts_none config blk) && nat_beq (expiry config blk) k
                then err not_found
                else get_block_by_height db parse_block d k))
  unfolding get_last_accepted_height get_block_by_height get_block get_block_id_height
  update_last_accepted-serves parse_uint64 parse_block parses h =
      let r : D = (update_last_accepted db config d blk).0 in
      let w = update_last_accepted-Written db atomic config d blk h in
      let (by_height, by_id, last) = id_stored r w in
      let here = stored_at r w blk.height small in
      (
        ap (then_parse parse_uint64) last ∙ parses blk.height small,
        ground (arith, here, nat_beq_iff blk.height blk.height),
        λ other.
            ground (
              arith,
              here,
              by_id other,
              parses blk.height small,
              nat_beq_iff blk.height blk.height,
            ),
        λ k hk ne. ground (arith, stored_at r w k hk, nat_beq_iff blk.height k, ne),
      )

  -- Where UpdateLastAccepted returns an error, the database holds what it held.
  pub update_last_accepted-fails :
      (e : Error) (key : Bytes)
      → (update_last_accepted db config d blk).1 ≡ some e
      → db.get (update_last_accepted db config d blk).0 key ≡ db.get d key
  unfolding update_last_accepted
  update_last_accepted-fails e key h = elim (Option-cases (refused db (accepting blk))) [
    | inr (x, no_puts) ↦ rw (no_puts, update_last_accepted) refl
    | inl puts ↦ elim (Bool-cases (evicts_none config blk)) [
      | inl all ↦
          rw (puts, all, update_last_accepted)
            (atomic.write_failed d (accepting blk) key e
              (rw (puts, all, update_last_accepted) at h))
      | inr one ↦ elim (Result-cases (get_block_id_at_height db d (expiry config blk))) [
        | inr (x, unknown) ↦ rw (puts, one, unknown, update_last_accepted) refl
        | inl (id, known) ↦ elim (Option-cases (refused db (delete_block (expiry config blk) id))) [
          | inr (x, no_deletes) ↦ rw (puts, one, known, no_deletes, update_last_accepted) refl
          | inl deletes ↦
              rw (puts, one, known, deletes, update_last_accepted)
                (atomic.write_failed d (accepting blk ++ delete_block (expiry config blk) id) key e
                  (rw (puts, one, known, deletes, update_last_accepted) at h))
        ]
      ]
    ]
  ]
