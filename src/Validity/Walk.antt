-- ===== src/Validity/Walk.antt =====
-- The ancestors that isRepeat looks at, as a list, and how its loop marks the containers for them.
use haven_claw.Prelude.{
  ℕ, zero, suc, ◌+◌, ◌≡◌, refl, Bool, true, false, Bool-cases, Option-cases, ◌||◌, Option, none,
  some, List, [], ◌∷◌, nat_beq, ltb, leb, arith, inl, inr,
}
use haven_claw.Sets.{IdSet}
use haven_claw.Emap.{Item, contains_from}
use haven_claw.Validity.{
  Block, TimeValidityWindow, Repeats, repeats, missing_parent, unfinished, mark_in, next_ancestor,
  is_repeat_loop,
}
use haven_claw.Validity.Marks.{hits, any_hit, Marked, mark_in-Marked, contains_from-Marked}

-- Why a walk over the ancestors ends
pub data Ending : Type 0 where
  too_old : Ending
  accepted : Ending
  missing : Ending
  not_ended : Ending

abbrev pub any_block : List Block → ℕ → Bool
any_block [] id = false
any_block (b ∷ bs) id = b.contains id || any_block bs id

-- Whether the accepted blocks tell of an ancestor
abbrev pub is_accepted : ℕ → Block → Bool
is_accepted last a = leb a.height last || nat_beq a.height 0

module _ (index : ℕ → Option Block) (last oldest : ℕ) where
  unfoldable pub walk : ℕ → Block → List Block × Ending
  walk zero a = ([], not_ended)
  walk (suc fuel) a = elim (ltb a.timestamp oldest) [
    | true ↦ ([], too_old)
    | false ↦ elim (is_accepted last a) [
      | true ↦ ([], accepted)
      | false ↦ elim (index a.parent) [
        | none ↦ (a ∷ [], missing)
        | some b ↦ (let (blocks, ending) = walk fuel b in (a ∷ blocks, ending))
      ]
    ]
  ]

-- The ids that a walk tells of
abbrev pub told : (ℕ → Bool) → List Block × Ending → ℕ → Bool
told seen (blocks, accepted) id = any_block blocks id || seen id
told seen (blocks, _) id = any_block blocks id

abbrev pub is_decided : Ending → Bool
is_decided too_old = true
is_decided accepted = true
is_decided _ = false

pub told-next :
    (seen : ℕ → Bool) (a : Block) (w : List Block × Ending) (id : ℕ)
    → told seen (a ∷ w.0, w.1) id ≡ (a.contains id || told seen w id)
told-next seen a (blocks, too_old) id = refl
told-next seen a (blocks, accepted) id = ground arith
told-next seen a (blocks, missing) id = refl
told-next seen a (blocks, not_ended) id = refl

hits-none :
    (p : ℕ → Bool) (i : ℕ) (xs : List Item) (j : ℕ)
    → ((id : ℕ) → p id ≡ false)
    → hits p i xs j ≡ false
hits-none p i [] j h = refl
hits-none p i (x ∷ xs) j h = ground (arith, h x.id, hits-none p (i + 1) xs j h)

hits-or :
    (p q r : ℕ → Bool) (i : ℕ) (xs : List Item) (j : ℕ)
    → ((id : ℕ) → r id ≡ (p id || q id))
    → hits r i xs j ≡ (hits p i xs j || hits q i xs j)
hits-or p q r i [] j h = refl
hits-or p q r i (x ∷ xs) j h = ground (arith, h x.id, hits-or p q r (i + 1) xs j h)

pub any_hit-or :
    (p q r : ℕ → Bool) (xs : List Item)
    → ((id : ℕ) → r id ≡ (p id || q id))
    → any_hit r xs ≡ (any_hit p xs || any_hit q xs)
any_hit-or p q r [] h = refl
any_hit-or p q r (x ∷ xs) h = ground (arith, h x.id, any_hit-or p q r xs h)

pub any_hit-none :
    (p : ℕ → Bool) (xs : List Item) → ((id : ℕ) → p id ≡ false) → any_hit p xs ≡ false
any_hit-none p [] h = refl
any_hit-none p (x ∷ xs) h = ground (arith, h x.id, any_hit-none p xs h)

abbrev pub seen_by : {S : Type 0} ⦃sets : IdSet S⦄ → TimeValidityWindow S → ℕ → Bool
seen_by ⦃sets⦄ v id = sets.contains v.seen.seen id

module _ {B : Type 0} ⦃bits : IdSet B⦄ where
  -- isRepeat returns as the walk ends.
  abbrev pub fits : Ending → Repeats B → Bool
  fits too_old (repeats n) = true
  fits accepted (repeats n) = true
  fits missing (missing_parent n) = true
  fits not_ended unfinished = true
  fits _ _ = false

  abbrev pub marks : Repeats B → Option B
  marks (repeats n) = some n
  marks (missing_parent n) = some n
  marks unfinished = none

  -- What isRepeat returns for a walk: marks for the ids that the walk tells of, on top of m
  abbrev pub Answers : (ℕ → Bool) → List Item → B → List Block × Ending → Repeats B → Type 0
  Answers seen xs m w r =
      (fits w.1 r ≡ true) × ((n : B) → marks r ≡ some n → Marked (told seen w) 0 xs m n)

  Marked-same :
      (p : ℕ → Bool) (xs : List Item) (m n o : B)
      → some n ≡ some o
      → Marked p 0 xs m n
      → Marked p 0 xs m o
  Marked-same p xs m n o e h j = ground (arith, h j, e)

  Marked-next :
      (seen : ℕ → Bool) (xs : List Item) (a : Block) (w : List Block × Ending) (m n o : B)
      → Marked a.contains 0 xs m n
      → Marked (told seen w) 0 xs n o
      → Marked (told seen (a ∷ w.0, w.1)) 0 xs m o
  Marked-next seen xs a w m n o first rest j = ground (
    arith,
    first j,
    rest j,
    hits-or a.contains (told seen w) (told seen (a ∷ w.0, w.1)) 0 xs j (told-next seen a w),
  )

  module _ {S : Type 0} ⦃sets : IdSet S⦄ (index : ℕ → Option Block) (v : TimeValidityWindow S)
      (oldest : ℕ) (xs : List Item) where
    next-Answers :
        (fuel : ℕ) (a : Block) (m : B) (r : B × Bool)
        → Marked a.contains 0 xs m r.0
        → r.1 ≡ false
        → ((b : Block) (n : B)
            → Answers
                (seen_by v)
                xs
                n
                (walk index v.last_accepted_block_height oldest fuel b)
                (is_repeat_loop index fuel v oldest xs false b n))
        → Answers
            (seen_by v)
            xs
            m
            (elim (index a.parent) [
              | none ↦ (a ∷ [], missing)
              | some b ↦
                  (let (blocks, ending) = walk index v.last_accepted_block_height oldest fuel b in
                    (a ∷ blocks, ending))
            ])
            (next_ancestor index (is_repeat_loop index fuel v oldest xs false) a r)
    unfolding next_ancestor
    next-Answers fuel a m (n, true) first on rest = absurd (ground arith)
    next-Answers fuel a m (n, false) first on rest = elim (Option-cases (index a.parent)) [
      | inl none_left ↦
          rw (none_left, next_ancestor)
            (
              refl,
              λ o h. Marked-same (told (seen_by v) (a ∷ [], missing)) xs m n o h (λ j. ground (
                arith,
                first j,
                hits-or a.contains (λ id. false) (told (seen_by v) (a ∷ [], missing)) 0 xs j
                    (λ id. refl),
                hits-none (λ id. false) 0 xs j (λ id. refl),
              )),
            )
      | inr (b, there) ↦
          rw (there, next_ancestor)
            (
              (rest b n).0,
              λ o h.
                  Marked-next (seen_by v) xs a
                    (walk index v.last_accepted_block_height oldest fuel b) m n o first
                    ((rest b n).1 o h),
            )
    ]

    -- Without stop, isRepeat goes over the same ancestors as `walk`, which lists them up to the first
    -- that is too old, accepted or missing. It marks exactly the containers that are in one of these
    -- blocks or, where the walk ends at an accepted one, among the ids seen.
    pub is_repeat_loop-Answers :
        (fuel : ℕ) (a : Block) (m : B)
        → Answers
            (seen_by v)
            xs
            m
            (walk index v.last_accepted_block_height oldest fuel a)
            (is_repeat_loop index fuel v oldest xs false a m)
    unfolding walk is_repeat_loop
    is_repeat_loop-Answers zero a m = (refl, λ n h. absurd (ground arith))
    is_repeat_loop-Answers (suc fuel) a m = elim (Bool-cases (ltb a.timestamp oldest)) [
      | inl old ↦
          rw (old, walk, is_repeat_loop)
            (
              refl,
              λ n h j.
                  ground (arith, h, hits-none (told (seen_by v) ([], too_old)) 0 xs j (λ id. refl)),
            )
      | inr recent ↦ elim (Bool-cases (is_accepted v.last_accepted_block_height a)) [
        | inl known ↦
            rw (recent, known, walk, is_repeat_loop)
              (
                refl,
                λ n h.
                    Marked-same (seen_by v) xs m (contains_from 0 xs m false v.seen) n h
                      (contains_from-Marked v.seen 0 xs m),
              )
        | inr unknown ↦
            rw (recent, unknown, walk, is_repeat_loop)
              (let (first, on) = mark_in-Marked a 0 xs m in
                next-Answers fuel a m (mark_in a 0 xs m false) first on
                  (is_repeat_loop-Answers fuel))
      ]
    ]
