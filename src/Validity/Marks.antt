-- ===== src/Validity/Marks.antt =====
-- The loops over the containers, of isRepeat and of EMap.Contains, set one mark for each container
-- that occurs.
use haven_claw.Prelude.{
  ℕ, ◌+◌, ◌≡◌, refl, Bool, true, false, Bool-cases, ◌||◌, ◌&&◌, List, [], ◌∷◌, nat_beq, nat_beq_iff,
  arith, inl, inr,
}
use haven_claw.Sets.{IdSet}
use haven_claw.Emap.{Item, Emap, contains_from}
use haven_claw.Validity.{Block, mark_in}

-- Whether the container at j, counted from i on, has an id in p
abbrev pub hits : (ℕ → Bool) → ℕ → List Item → ℕ → Bool
hits p i [] j = false
hits p i (x ∷ xs) j = (nat_beq i j && p x.id) || hits p (i + 1) xs j

abbrev pub any_hit : (ℕ → Bool) → List Item → Bool
any_hit p [] = false
any_hit p (x ∷ xs) = p x.id || any_hit p xs

module _ {B : Type 0} ⦃bits : IdSet B⦄ where
  -- Marks for p, from i on, on top of m
  abbrev pub Marked : (ℕ → Bool) → ℕ → List Item → B → B → Type 0
  Marked p i xs m n = (j : ℕ) → bits.contains n j ≡ (bits.contains m j || hits p i xs j)

  pub mark_in-Marked :
      (a : Block) (i : ℕ) (xs : List Item) (m : B)
      → Marked a.contains i xs m (mark_in a i xs m false).0 × ((mark_in a i xs m false).1 ≡ false)
  unfolding mark_in
  mark_in-Marked a i [] m = (λ j. ground arith, refl)
  mark_in-Marked a i (x ∷ xs) m = elim (Bool-cases (bits.contains m i)) [
    | inl marked ↦
        let (rest, on) = mark_in-Marked a (i + 1) xs m in
        rw (marked, mark_in) (λ j. ground (arith, rest j, marked, nat_beq_iff i j), on)
    | inr unmarked ↦ elim (Bool-cases (a.contains x.id)) [
      | inl found ↦
          let (rest, on) = mark_in-Marked a (i + 1) xs (bits.add m i) in
          rw (unmarked, found, mark_in)
            (λ j. ground (arith, rest j, bits.contains-add m i j, found), on)
      | inr absent ↦
          let (rest, on) = mark_in-Marked a (i + 1) xs m in
          rw (unmarked, absent, mark_in) (λ j. ground (arith, rest j, absent), on)
    ]
  ]

  -- With stop, the first container found ends the loop.
  abbrev pub Stops : (ℕ → Bool) → List Item → B → B × Bool → Type 0
  Stops p xs m r =
      (any_hit p xs ≡ false → r ≡ (m, false))
      × (any_hit p xs ≡ true → (r.1 ≡ true) × ((j : ℕ) × (bits.contains r.0 j ≡ true)))

  pub mark_in-Stops :
      (a : Block) (i : ℕ) (xs : List Item) (m : B)
      → ((j : ℕ) → bits.contains m j ≡ false)
      → Stops a.contains xs m (mark_in a i xs m true)
  unfolding mark_in
  mark_in-Stops a i [] m e = (λ h. refl, λ h. ground arith)
  mark_in-Stops a i (x ∷ xs) m e = elim (Bool-cases (a.contains x.id)) [
    | inl found ↦
        rw (e i, found, mark_in)
          (
            λ h. ground arith,
            λ h. (refl, (i, ground (arith, bits.contains-add m i i, nat_beq_iff i i))),
          )
    | inr absent ↦ rw (e i, absent, mark_in) (mark_in-Stops a (i + 1) xs m e)
  ]

  module _ {S : Type 0} ⦃sets : IdSet S⦄ (e : Emap S) where
    pub contains_from-Marked :
        (i : ℕ) (xs : List Item) (m : B)
        → Marked (sets.contains e.seen) i xs m (contains_from i xs m false e)
    unfolding contains_from
    contains_from-Marked i [] m = λ j. ground arith
    contains_from-Marked i (x ∷ xs) m = elim (Bool-cases (bits.contains m i)) [
      | inl marked ↦
          let rest = contains_from-Marked (i + 1) xs m in
          rw (marked, contains_from) (λ j. ground (arith, rest j, marked, nat_beq_iff i j))
      | inr unmarked ↦ elim (Bool-cases (sets.contains e.seen x.id)) [
        | inl found ↦
            let rest = contains_from-Marked (i + 1) xs (bits.add m i) in
            rw (unmarked, found, contains_from)
              (λ j. ground (arith, rest j, bits.contains-add m i j, found))
        | inr absent ↦
            let rest = contains_from-Marked (i + 1) xs m in
            rw (unmarked, absent, contains_from) (λ j. ground (arith, rest j, absent))
      ]
    ]

    pub contains_from-hit :
        (i : ℕ) (xs : List Item) (m : B)
        → ((j : ℕ) → bits.contains m j ≡ false)
        → any_hit (sets.contains e.seen) xs ≡ true
        → (j : ℕ) × (bits.contains (contains_from i xs m true e) j ≡ true)
    unfolding contains_from
    contains_from-hit i [] m e h = absurd (ground arith)
    contains_from-hit i (x ∷ xs) m clear h = elim (Bool-cases (sets.contains e.seen x.id)) [
      | inl found ↦
          rw (clear i, found, contains_from)
            (i, ground (arith, bits.contains-add m i i, nat_beq_iff i i))
      | inr absent ↦
          rw (clear i, absent, contains_from) (contains_from-hit (i + 1) xs m clear (ground arith))
    ]
