-- ===== src/Tests/Indexes.antt =====
-- Tests of the chain index.
use haven_claw.Prelude.{
  ℕ, Bool, ◌+◌, ◌++◌, ◌^◌, ◌<◌, Option, none, List, ltb, false, ◌≡◌, ◌≢◌, refl, not, ◌&&◌, [], ◌∷◌,
  arith, nat_beq, length, if◌then◌else◌, bytes_comparable,
}
use haven_claw.Dict.{Dict, lookup, insert, delete}
use haven_claw.Bytes.{Bytes, to_be, from_be, uint64_at, from_be-to_be, length-to_be}
use haven_claw.TState.{Error, not_found, Result, ok, err}
use haven_claw.Sets.{member}
use haven_claw.Database.{IsParser, refused}
use haven_claw.ChainIndex.{
  Config, Block, get_last_accepted_height, get_block_by_height, get_block_id_at_height, get_block,
  update_last_accepted, prefix_block_key, cleanup_below, deletions, deleted_heights,
}
use haven_claw.ChainIndex.Layout.{expiry, evicts_none}
use haven_claw.ChainIndex.Cleanup.{heights_of, cleanup_below-deletes}
use haven_claw.ChainIndex.Accepted.{update_last_accepted-serves, update_last_accepted-fails}
use haven_claw.Tests.Bonds.{memory, memory-IsAtomic, apply}

unfoldable pub parse_word : Bytes → Result ℕ
parse_word b = if nat_beq (length b) 8 then ok (from_be 0 b) else err not_found

pub parse_word-IsParser : IsParser parse_word
unfolding parse_word
parse_word-IsParser n h = ground (arith, length-to_be 8 n, from_be-to_be 8 n (omega arith))

abbrev config : Config
config = record { accepted_block_window = 2; block_compaction_frequency = 32 }

abbrev block_at : ℕ → Block
block_at height = record { id = height ∷ []; height = height; bytes = (100 + height) ∷ [] }

-- The blocks at the heights 1 and 2 are on disk, and that at 3 is accepted.
abbrev disk : Dict Bytes Bytes
disk =
    (update_last_accepted memory config (update_last_accepted memory config [] (block_at 1)).0
      (block_at 2)).0

abbrev later : Dict Bytes Bytes
later = (update_last_accepted memory config disk (block_at 3)).0

first_gone : get_block_by_height memory ok later 1 ≡ err not_found
unfolding update_last_accepted refused get_block_id_at_height lookup insert delete apply to_be
    get_block_by_height
first_gone = refl

update_last_accepted-serves_example :
    (get_last_accepted_height memory parse_word later ≡ ok 3)
    × (get_block_by_height memory ok later 3 ≡ ok (103 ∷ []))
    × (get_block_id_at_height memory disk (expiry config (block_at 3)) ≢ ok (3 ∷ [])
        → get_block memory parse_word ok later (3 ∷ []) ≡ ok (103 ∷ []))
    × ((k : ℕ)
        → k < 2 ^ 64
        → k ≢ 3
        → get_block_by_height memory ok later k ≡ (
            if not (evicts_none config (block_at 3)) && nat_beq (expiry config (block_at 3)) k
            then err not_found
            else get_block_by_height memory ok disk k))
unfolding update_last_accepted refused get_block_id_at_height lookup insert delete apply to_be
update_last_accepted-serves_example =
    update_last_accepted-serves memory memory-IsAtomic config disk (block_at 3) (omega arith)
      parse_word ok parse_word-IsParser refl

-- Nothing is on disk at the height that leaves the window.
update_last_accepted-fails_example :
    memory.get (update_last_accepted memory config [] (block_at 3)).0 (3 ∷ [])
    ≡ memory.get [] (3 ∷ [])
unfolding update_last_accepted refused get_block_id_at_height lookup insert delete apply to_be
update_last_accepted-fails_example =
    update_last_accepted-fails memory memory-IsAtomic config [] (block_at 3) (omega arith) not_found
      (3 ∷ []) refl

-- The keys of the map that start with the byte of a prefix of one byte, the last written last
starts_like : Bytes → Bytes → Bool
starts_like (p ∷ ps) (k ∷ ks) = nat_beq p k
starts_like p k = false

unfoldable keys_of : Dict Bytes Bytes → Bytes → List Bytes
keys_of [] prefix = []
keys_of ((key, value) ∷ d) prefix =
    if starts_like prefix key then keys_of d prefix ++ key ∷ [] else keys_of d prefix

listed : Dict Bytes Bytes → Bytes → List Bytes × Option Error
listed d prefix = (keys_of d prefix, none)

listed_two : heights_of (keys_of disk (2 ∷ [])) ≡ 1 ∷ 2 ∷ []
unfolding update_last_accepted refused get_block_id_at_height lookup insert delete apply to_be
    keys_of starts_like uint64_at from_be
listed_two = refl

cleanup_below-deletes_example :
    memory.get (cleanup_below memory listed 2 disk).0 (prefix_block_key 1) ≡ (
      if ltb 0 1 && ltb 1 2 && member 1 (heights_of (listed disk (2 ∷ [])).0)
      then err not_found
      else memory.get disk (prefix_block_key 1))
unfolding update_last_accepted refused get_block_id_at_height lookup insert delete apply to_be
    keys_of starts_like deletions deleted_heights cleanup_below listed uint64_at from_be
cleanup_below-deletes_example =
    cleanup_below-deletes memory memory-IsAtomic listed 2 disk 1 (omega arith)
      ((λ h e. ground (arith, e)), ((λ h e. absurd (ground (arith, e))), tt)) (omega arith, tt) refl
