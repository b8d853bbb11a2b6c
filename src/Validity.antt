-- ===== src/Validity.antt =====
-- hypersdk/internal/validitywindow/validitywindow.go: no container enters the chain twice while it
-- has not expired. The chain index, and how long a container is valid at a time, are parameters.
-- Timestamps are not negative.
pub mod Marks
pub mod Walk
pub mod Stopping
pub mod Replay
pub mod Ends
pub mod Backfill
pub mod Accepted
pub mod Chain
use haven_claw.Prelude.{
  ℕ, zero, suc, ◌+◌, ◌-◌, Bool, true, false, ◌||◌, Option, none, some, List, [], ◌∷◌, ◌++◌, nat_beq,
  ltb, leb, if◌then◌else◌, reverse,
}
use haven_claw.Sets.{IdSet}
use haven_claw.Emap.{Item, Emap, new_emap, set_min, add_items, contains_from}

-- ExecutionBlock, with its methods as fields.
pub record Block : Type 0 where
  pub id : ℕ
  pub parent : ℕ
  pub timestamp : ℕ
  pub height : ℕ
  pub containers : List Item
  pub contains : ℕ → Bool

pub record TimeValidityWindow (S : Type 0) : Type 0 where
  pub seen : Emap S
  pub last_accepted_block_height : ℕ

-- How isRepeat returns: with the marked containers, or where a parent is missing. The last is for a
-- walk that has not ended.
pub data Repeats (B : Type 0) : Type 0 where
  repeats : B → Repeats B
  missing_parent : B → Repeats B
  unfinished : Repeats B

pub data Verdict : Type 0 where
  verified : Verdict
  duplicate_container : Verdict
  parent_not_found : Verdict
  not_decided : Verdict

unfoldable pub calculate_oldest_allowed : (ℕ → ℕ) → ℕ → ℕ
calculate_oldest_allowed get_time_validity_window timestamp =
    timestamp - get_time_validity_window timestamp

module _ {S : Type 0} ⦃sets : IdSet S⦄ where
  unfoldable pub accept : Block → TimeValidityWindow S → TimeValidityWindow S
  accept blk v = record {
    seen = add_items blk.containers (set_min blk.timestamp v.seen).1;
    last_accepted_block_height = blk.height;
  }

  unfoldable pub accept_historical : Block → TimeValidityWindow S → TimeValidityWindow S
  accept_historical blk v = record v { seen = add_items blk.containers v.seen }

  unfoldable pub accept_all : List Block → TimeValidityWindow S → TimeValidityWindow S
  accept_all [] v = v
  accept_all (b ∷ bs) v = accept_all bs (accept b v)

  -- Whether a container has the id of one before it
  unfoldable pub repeats_within : S → List Item → Bool
  repeats_within ids [] = false
  repeats_within ids (x ∷ xs) =
      if sets.contains ids x.id then true else repeats_within (sets.add ids x.id) xs

module _ {B : Type 0} ⦃bits : IdSet B⦄ where
  -- The loop of isRepeat over the containers, from index i on, and whether it returns there.
  unfoldable pub mark_in : Block → ℕ → List Item → B → Bool → B × Bool
  mark_in a i [] marker stop = (marker, false)
  mark_in a i (x ∷ xs) marker stop = elim (bits.contains marker i) [
    | true ↦ mark_in a (i + 1) xs marker stop
    | false ↦ elim (a.contains x.id) [
      | false ↦ mark_in a (i + 1) xs marker stop
      | true ↦ elim stop [
        | true ↦ (bits.add marker i, true)
        | false ↦ mark_in a (i + 1) xs (bits.add marker i) false
      ]
    ]
  ]

  unfoldable pub verdict_of : Repeats B → Verdict
  verdict_of (repeats dup) = if ltb 0 (bits.len dup) then duplicate_container else verified
  verdict_of (missing_parent dup) = parent_not_found
  verdict_of unfinished = not_decided

  -- What isRepeat does for an ancestor that is neither too old nor accepted; `walk` is the rest.
  unfoldable pub next_ancestor :
      (ℕ → Option Block) → (Block → B → Repeats B) → Block → B × Bool → Repeats B
  next_ancestor index walk a (marked, true) = repeats marked
  next_ancestor index walk a (marked, false) = elim (index a.parent) [
    | none ↦ missing_parent marked
    | some b ↦ walk b marked
  ]

-- The loop of populate, with the number of parents it may fetch.
module _ (index : ℕ → Option Block) where
  unfoldable pub populate_loop : ℕ → ℕ → Block → List Block → List Block × Bool
  populate_loop zero oldest parent parents = (parents, false)
  populate_loop (suc fuel) oldest parent parents = elim (nat_beq parent.height 0) [
    | true ↦ (parents, true)
    | false ↦ elim (index parent.parent) [
      | none ↦ (parents, false)
      | some b ↦ elim (ltb b.timestamp oldest) [
        | true ↦ (parents ++ b ∷ [], true)
        | false ↦ populate_loop fuel oldest b (parents ++ b ∷ [])
      ]
    ]
  ]

module _ {S B : Type 0} ⦃sets : IdSet S⦄ ⦃bits : IdSet B⦄ (index : ℕ → Option Block) where
  unfoldable pub is_repeat_loop :
      ℕ → TimeValidityWindow S → ℕ → List Item → Bool → Block → B → Repeats B
  is_repeat_loop zero v oldest containers stop a marker = unfinished
  is_repeat_loop (suc fuel) v oldest containers stop a marker = elim (ltb a.timestamp oldest) [
    | true ↦ repeats marker
    | false ↦ elim (leb a.height v.last_accepted_block_height || nat_beq a.height 0) [
      | true ↦ repeats (contains_from 0 containers marker stop v.seen)
      | false ↦
          next_ancestor index (is_repeat_loop fuel v oldest containers stop) a
            (mark_in a 0 containers marker stop)
    ]
  ]

  -- isRepeat: each parent has a lesser height.
  unfoldable pub is_repeat : TimeValidityWindow S → Block → ℕ → List Item → Bool → Repeats B
  is_repeat v a oldest containers stop =
      is_repeat_loop (a.height + 1) v oldest containers stop a bits.empty_set

module _ {S : Type 0} ⦃sets : IdSet S⦄ (index : ℕ → Option Block)
    (get_time_validity_window : ℕ → ℕ) where
  unfoldable pub populate :
      Block → TimeValidityWindow S → (List Block × Bool) × TimeValidityWindow S
  populate block v =
      let (parents, full) =
        populate_loop index (block.height + 1)
          (calculate_oldest_allowed get_time_validity_window block.timestamp) block (block ∷ []) in
      ((reverse parents, full), accept_all (reverse parents) v)

  unfoldable pub new_time_validity_window : Block → TimeValidityWindow S
  new_time_validity_window head =
      (populate head (record { seen = new_emap; last_accepted_block_height = 0 })).1

  unfoldable pub complete : Block → TimeValidityWindow S → Bool × TimeValidityWindow S
  complete block v = let ((blocks, full), after) = populate block v in (full, after)

module _ (B : Type 0) {S : Type 0} ⦃sets : IdSet S⦄ ⦃bits : IdSet B⦄ (index : ℕ → Option Block)
    (get_time_validity_window : ℕ → ℕ) where
  -- IsRepeat
  unfoldable pub is_repeat_at : TimeValidityWindow S → Block → ℕ → List Item → Repeats B
  is_repeat_at v parent current containers =
      is_repeat index v parent (calculate_oldest_allowed get_time_validity_window current)
        containers false

  unfoldable pub verify_expiry_replay_protection : TimeValidityWindow S → Block → Verdict
  verify_expiry_replay_protection v blk =
      if leb blk.height v.last_accepted_block_height
      then verified
      else (if repeats_within sets.empty_set blk.containers
          then duplicate_container
          else elim (index blk.parent) [
            | none ↦ parent_not_found
            | some parent ↦ verdict_of (
                is_repeat {B = B} index v parent
                  (calculate_oldest_allowed get_time_validity_window blk.timestamp) blk.containers
                  true)
          ])
