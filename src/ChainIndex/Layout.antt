-- ===== src/ChainIndex/Layout.antt =====
-- The keys of the chain index differ where the heights do, and what UpdateLastAccepted has written.
use haven_claw.Prelude.{
  ℕ, ◌<◌, ◌^◌, ◌≡◌, refl, Bool, true, false, Bool-cases, Option-cases, none, inl, inr, ◌⊎◌, List,
  ◌∷◌, ◌++◌, nat_beq, nat_beq_iff, bytes_beq, bytes_beq_iff, arith, bytes_comparable,
}
use haven_claw.Prelude.Words.{sub_wrap}
use haven_claw.Bytes.{Bytes, to_be, from_be-to_be}
use haven_claw.TState.{Error, Result, ok, err}
use haven_claw.Database.{BatchOp, put, Database, applied, IsAtomic, refused}
use haven_claw.ChainIndex.{
  Config, Block, last_accepted_key, write_block, delete_block, keeps_all, get_block_id_at_height,
  update_last_accepted,
}

pub to_be-beq :
    (a b : ℕ) → a < 2 ^ 64 → b < 2 ^ 64 → bytes_beq (to_be 8 a) (to_be 8 b) ≡ nat_beq a b
to_be-beq a b ha hb = ground (
  arith,
  bytes_beq_iff (to_be 8 a) (to_be 8 b),
  nat_beq_iff a b,
  from_be-to_be 8 a (omega arith),
  from_be-to_be 8 b (omega arith),
)

pub Result-cases :
    {A : Type 0} (r : Result A) → ((a : A) × (r ≡ ok a)) ⊎ ((e : Error) × (r ≡ err e))
Result-cases (ok a) = inl (a, refl)
Result-cases (err e) = inr (e, refl)

-- The batch of UpdateLastAccepted without deletions
abbrev pub accepting : Block → List BatchOp
accepting blk = put last_accepted_key (to_be 8 blk.height) ∷ write_block blk

-- The height that leaves the window
abbrev pub expiry : Config → Block → ℕ
expiry config blk = sub_wrap blk.height config.accepted_block_window

abbrev pub evicts_none : Config → Block → Bool
evicts_none config blk = keeps_all config.accepted_block_window blk.height

pub expiry-small : (config : Config) (blk : Block) → expiry config blk < 2 ^ 64
expiry-small config blk = omega arith

module _ {D : Type 0} (db : Database D) (config : Config) (d : D) (blk : Block) where
  -- What is written: the block, and the deletion of the one that leaves the window.
  abbrev pub Written : D → Type 0
  Written r =
      ((evicts_none config blk ≡ true)
        × ((key : Bytes) → db.get r key ≡ applied (accepting blk) key (db.get d key)))
      ⊎ ((evicts_none config blk ≡ false)
          × ((id : Bytes) × (get_block_id_at_height db d (expiry config blk) ≡ ok id)
              × ((key : Bytes)
                  → db.get r key
                    ≡ applied (accepting blk ++ delete_block (expiry config blk) id) key
                        (db.get d key))))

module _ {D : Type 0} (db : Database D) (atomic : IsAtomic db) (config : Config) (d : D)
    (blk : Block) where
  pub update_last_accepted-Written :
      (update_last_accepted db config d blk).1 ≡ none
      → Written db config d blk (update_last_accepted db config d blk).0
  unfolding update_last_accepted
  update_last_accepted-Written h = elim (Option-cases (refused db (accepting blk))) [
    | inr (e, no_puts) ↦ absurd (ground (arith, no_puts))
    | inl puts ↦ elim (Bool-cases (evicts_none config blk)) [
      | inl all ↦
          rw (puts, all, update_last_accepted)
            (inl (
              refl,
              λ key.
                  atomic.write_lem d (accepting blk) key
                    (rw (puts, all, update_last_accepted) at h),
            ))
      | inr one ↦ elim (Result-cases (get_block_id_at_height db d (expiry config blk))) [
        | inr (e, unknown) ↦ absurd (ground (arith, puts, one, unknown))
        | inl (id, known) ↦ elim (Option-cases (refused db (delete_block (expiry config blk) id))) [
          | inr (e, no_deletes) ↦ absurd (ground (arith, puts, one, known, no_deletes))
          | inl deletes ↦
              rw (puts, one, known, deletes, update_last_accepted)
                (inr (
                  refl,
                  (
                    id,
                    refl,
                    λ key.
                        atomic.write_lem d (accepting blk ++ delete_block (expiry config blk) id)
                          key (rw (puts, one, known, deletes, update_last_accepted) at h),
                  ),
                ))
        ]
      ]
    ]
  ]
