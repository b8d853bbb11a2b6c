-- ===== src/Validity/Stopping.antt =====
-- isRepeat with stop set, as VerifyExpiryReplayProtection calls it.
use haven_claw.Prelude.{
  ℕ, zero, suc, ◌≡◌, refl, ap, ◌∙◌, Bool, true, false, Bool-cases, Option-cases, Option, none, some,
  List, [], ◌∷◌, ltb, arith, inl, inr,
}
use haven_claw.Sets.{IdSet}
use haven_claw.Emap.{Item}
use haven_claw.Validity.{
  Block, TimeValidityWindow, Repeats, repeats, mark_in, next_ancestor, is_repeat_loop,
}
use haven_claw.Validity.Marks.{any_hit, Stops, mark_in-Stops, contains_from-hit}
use haven_claw.Validity.Walk.{
  walk, told, told-next, missing, Ending, is_decided, is_accepted, seen_by, any_hit-or,
  any_hit-none,
}

module _ {B : Type 0} ⦃bits : IdSet B⦄ {S : Type 0} ⦃sets : IdSet S⦄ (index : ℕ → Option Block)
    (v : TimeValidityWindow S) (oldest : ℕ) (xs : List Item) where
  -- With no mark set, the walk came to its end, and told of no container.
  abbrev pub Clear : List Block × Ending → Repeats B → Type 0
  Clear w r =
      (n : B)
      → r ≡ repeats n
      → ((j : ℕ) → bits.contains n j ≡ false)
      → (any_hit (told (seen_by v) w) xs ≡ false) × (is_decided w.1 ≡ true)

  next-Clear :
      (fuel : ℕ) (a : Block) (m : B) (r : B × Bool)
      → Stops a.contains xs m r
      → ((b : Block)
          → Clear
              (walk index v.last_accepted_block_height oldest fuel b)
              (is_repeat_loop index fuel v oldest xs true b m))
      → Clear
          (elim (index a.parent) [
            | none ↦ (a ∷ [], missing)
            | some b ↦
                (let (blocks, ending) = walk index v.last_accepted_block_height oldest fuel b in
                  (a ∷ blocks, ending))
          ])
          (next_ancestor index (is_repeat_loop index fuel v oldest xs true) a r)
  unfolding next_ancestor
  next-Clear fuel a m (o, true) stops rest = λ n h clear.
      elim (Bool-cases (any_hit a.contains xs)) [
        | inl hit ↦ (let (on, (j, at)) = stops.1 hit in absurd (ground (arith, clear j, h, at)))
        | inr pass ↦ absurd (ground (arith, stops.0 pass))
      ]
  next-Clear fuel a m (o, false) stops rest = elim (Bool-cases (any_hit a.contains xs)) [
    | inl hit ↦ absurd (ground (arith, (stops.1 hit).0))
    | inr pass ↦
        let same : o ≡ m = ap (λ (p : B × Bool). p.0) (stops.0 pass) in
        elim (Option-cases (index a.parent)) [
          | inl none_left ↦ rw (none_left, next_ancestor) (λ n h clear. absurd (ground arith))
          | inr (b, there) ↦
              rw (there, next_ancestor, same)
                (λ n h clear.
                  let (clean, ended) = rest b n h clear in
                  (
                    any_hit-or a.contains
                          (told (seen_by v) (walk index v.last_accepted_block_height oldest fuel b))
                          _ xs
                          (told-next (seen_by v) a
                            (walk index v.last_accepted_block_height oldest fuel b))
                        ∙ ground (arith, clean, pass),
                    ended,
                  ))
        ]
  ]

  pub is_repeat_loop-Clear :
      (fuel : ℕ) (a : Block) (m : B)
      → ((j : ℕ) → bits.contains m j ≡ false)
      → Clear
          (walk index v.last_accepted_block_height oldest fuel a)
          (is_repeat_loop index fuel v oldest xs true a m)
  unfolding walk is_repeat_loop
  is_repeat_loop-Clear zero a m e = λ n h clear. absurd (ground arith)
  is_repeat_loop-Clear (suc fuel) a m e = elim (Bool-cases (ltb a.timestamp oldest)) [
    | inl old ↦
        rw (old, walk, is_repeat_loop)
          (λ n h clear. (any_hit-none (λ id. false) xs (λ id. refl), refl))
    | inr recent ↦ elim (Bool-cases (is_accepted v.last_accepted_block_height a)) [
      | inl known ↦
          rw (recent, known, walk, is_repeat_loop)
            (λ n h clear. elim (Bool-cases (any_hit (seen_by v) xs)) [
              | inl hit ↦
                  (let (j, at) = contains_from-hit v.seen 0 xs m e hit in
                    absurd (ground (arith, clear j, h, at)))
              | inr pass ↦ (pass, refl)
            ])
      | inr unknown ↦
          rw (recent, unknown, walk, is_repeat_loop)
            (next-Clear fuel a m (mark_in a 0 xs m true) (mark_in-Stops a 0 xs m e)
              (λ b. is_repeat_loop-Clear fuel b m e))
    ]
  ]
