-- ===== src/Validity/Ends.antt =====
-- isRepeat comes to its end: each ancestor is lower than the one before.
use haven_claw.Prelude.{
  ℕ, zero, suc, ◌+◌, ◌<◌, ◌≡◌, ◌≢◌, Bool, true, false, Bool-cases, Option-cases, Option, some, List,
  ltb, arith, inl, inr,
}
use haven_claw.Sets.{IdSet}
use haven_claw.Emap.{Item}
use haven_claw.Validity.{
  Block, TimeValidityWindow, Repeats, unfinished, mark_in, next_ancestor, is_repeat_loop, is_repeat,
}
use haven_claw.Validity.Walk.{is_accepted}
use haven_claw.Validity.Replay.{IsChain}

module _ {B : Type 0} ⦃bits : IdSet B⦄ (index : ℕ → Option Block) where
  next-Ends :
      (rest : Block → B → Repeats B) (a : Block) (r : B × Bool)
      → ((b : Block) (m : B) → index a.parent ≡ some b → rest b m ≢ unfinished)
      → next_ancestor index rest a r ≢ unfinished
  unfolding next_ancestor
  next-Ends rest a (m, true) h = λ e. ground arith
  next-Ends rest a (m, false) h = elim (Option-cases (index a.parent)) [
    | inl none_left ↦ rw (none_left, next_ancestor) (λ e. ground arith)
    | inr (b, there) ↦ rw (there, next_ancestor) (h b m there)
  ]

module _ (B : Type 0) ⦃bits : IdSet B⦄ {S : Type 0} ⦃sets : IdSet S⦄ (index : ℕ → Option Block)
    (chain : IsChain index) where
  module _ (v : TimeValidityWindow S) (oldest : ℕ) (xs : List Item) (stop : Bool) where
    is_repeat_loop-Ends :
        (fuel i : ℕ) (a : Block) (m : B)
        → index i ≡ some a
        → a.height < fuel
        → is_repeat_loop index fuel v oldest xs stop a m ≢ unfinished
    unfolding is_repeat_loop
    is_repeat_loop-Ends zero i a m at f = absurd (omega arith)
    is_repeat_loop-Ends (suc fuel) i a m at f = elim (Bool-cases (ltb a.timestamp oldest)) [
      | inl old ↦ rw (old, is_repeat_loop) (λ e. ground arith)
      | inr recent ↦ elim (Bool-cases (is_accepted v.last_accepted_block_height a)) [
        | inl known ↦ rw (recent, known, is_repeat_loop) (λ e. ground arith)
        | inr unknown ↦
            rw (recent, unknown, is_repeat_loop)
              (next-Ends index (is_repeat_loop index fuel v oldest xs stop) a
                (mark_in a 0 xs m stop)
                (λ b n there.
                  is_repeat_loop-Ends fuel a.parent b n there
                    (omega (arith, chain.lower i a b at there))))
      ]
    ]

    -- isRepeat returns, with stop or without, for an ancestor of the index in which each parent is
    -- lower than its child: as many rounds as the ancestor's height and one more are enough.
    pub is_repeat-Ends :
        (i : ℕ) (a : Block)
        → index i ≡ some a
        → is_repeat {B = B} index v a oldest xs stop ≢ unfinished
    unfolding is_repeat
    is_repeat-Ends i a at = is_repeat_loop-Ends (a.height + 1) i a bits.empty_set at (omega arith)
