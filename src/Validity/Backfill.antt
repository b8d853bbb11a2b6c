-- ===== src/Validity/Backfill.antt =====
-- populate: the blocks from which a window is filled.
use mathlib.Core.List.{reverse-reverse}
use haven_claw.Prelude.{
  ℕ, zero, suc, ◌+◌, ◌<◌, ◌≤◌, ◌≡◌, ◌↔◌, refl, Bool, true, false, Bool-cases, Option-cases, Option,
  none, some, List, [], ◌∷◌, ◌++◌, ltb, nat_beq, arith, inl, inr, ◌⊎◌, reverse,
}
use haven_claw.Sets.{IdSet}
use haven_claw.Validity.{
  Block, TimeValidityWindow, calculate_oldest_allowed, accept_all, populate_loop, populate,
}
use haven_claw.Validity.Replay.{IsChain}

-- Blocks, each the parent of the one before it, and the last of them. Each but the last is higher
-- than genesis and not before the oldest allowed time.
pub data Linked (index : ℕ → Option Block) (oldest : ℕ) : List Block → Block → Type 0 where
  alone : (a : Block) → Linked index oldest (a ∷ []) a
  grown :
      (bs : List Block) (a b : Block)
      → Linked index oldest bs a
      → 0 < a.height
      → oldest ≤ a.timestamp
      → index a.parent ≡ some b
      → Linked index oldest (bs ++ b ∷ []) b

module _ (index : ℕ → Option Block) (oldest : ℕ) where
  -- The blocks of populate, the newest first, and whether the window is full: exactly where the last
  -- of them is genesis or before the oldest allowed time. Otherwise its parent is missing.
  pub record Filled (start : Block) (blocks : List Block) (full : Bool) : Type 0 where
    pub last : Block
    pub linked : Linked index oldest blocks last
    pub starts : (rest : List Block) × (blocks ≡ start ∷ rest)
    pub full_iff : (full ≡ true) ↔ ((last.height ≡ 0) ⊎ (last.timestamp < oldest))
    pub open_ended : full ≡ false → index last.parent ≡ none

  module _ (chain : IsChain index) (start : Block) where
    populate_loop-Filled :
        (fuel i : ℕ) (a : Block) (bs : List Block)
        → index i ≡ some a
        → Linked index oldest bs a
        → (rest : List Block) × (bs ≡ start ∷ rest)
        → oldest ≤ a.timestamp
        → a.height < fuel
        → Filled start
            (populate_loop index fuel oldest a bs).0
            (populate_loop index fuel oldest a bs).1
    unfolding populate_loop
    populate_loop-Filled zero i a bs at l s young f = absurd (omega arith)
    populate_loop-Filled (suc fuel) i a bs at l s young f = elim (Bool-cases (nat_beq a.height 0)) [
      | inl genesis ↦
          rw (genesis, populate_loop)
            record {
              last = a;
              linked = l;
              starts = s;
              full_iff = (λ e. inl (ground (arith, genesis)), λ e. refl);
              open_ended = λ e. absurd (ground arith);
            }
      | inr higher ↦ elim (Option-cases (index a.parent)) [
        | inl none_left ↦
            rw (higher, none_left, populate_loop)
              record {
                last = a;
                linked = l;
                starts = s;
                full_iff =
                    (λ e. absurd (ground arith), λ e. absurd (ground (arith, higher, young, e)));
                open_ended = λ e. none_left;
              }
        | inr (b, there) ↦
            let grows = grown bs a b l (ground (arith, higher)) young there in
            let starts_there : (rest : List Block) × (bs ++ b ∷ [] ≡ start ∷ rest) =
              (s.0 ++ b ∷ [], rw (s.1) refl) in
            elim (Bool-cases (ltb b.timestamp oldest)) [
              | inl behind ↦
                  rw (higher, there, behind, populate_loop)
                    record {
                      last = b;
                      linked = grows;
                      starts = starts_there;
                      full_iff = (λ e. inr (ground (arith, behind)), λ e. refl);
                      open_ended = λ e. absurd (ground arith);
                    }
              | inr within ↦
                  rw (higher, there, within, populate_loop)
                    (populate_loop-Filled fuel a.parent b (bs ++ b ∷ []) there grows starts_there
                      (ground (arith, within)) (omega (arith, chain.lower i a b at there)))
            ]
      ]
    ]

module _ {S : Type 0} ⦃sets : IdSet S⦄ (index : ℕ → Option Block) (window_at : ℕ → ℕ) where
  -- From a block of the index, in which each parent is lower than its child, populate goes over
  -- blocks each of which is the parent of the one before, and accepts them from the oldest on. It
  -- stops at the first that is genesis or before the oldest allowed time, or whose parent is missing,
  -- and says that the window is full exactly in the first two cases. As many rounds as the height of
  -- the block and one more are enough.
  pub populate-Filled :
      IsChain index
      → (i : ℕ) (block : Block) (v : TimeValidityWindow S) → index i ≡ some block
      → Filled index
          (calculate_oldest_allowed window_at block.timestamp)
          block
          (reverse (populate index window_at block v).0.0)
          (populate index window_at block v).0.1
        × ((populate index window_at block v).1
            ≡ accept_all (populate index window_at block v).0.0 v)
  unfolding populate calculate_oldest_allowed
  populate-Filled chain i block v at =
      let oldest = calculate_oldest_allowed window_at block.timestamp in
      let run = populate_loop index (block.height + 1) oldest block (block ∷ []) in
      (
        rw (reverse-reverse run.0) (
            populate_loop-Filled index oldest chain block (block.height + 1) i block (block ∷ []) at
              (alone block) ([], refl) (omega arith) (omega arith)),
        refl,
      )
