-- ===== src/Validity/Replay.antt =====
-- VerifyExpiryReplayProtection against the chain: a block that passes repeats nothing.
use haven_claw.Prelude.{
  ℕ, zero, suc, ◌+◌, ◌<◌, ◌≤◌, ◌≡◌, refl, Bool, true, false, Bool-cases, Option-cases, Option, some,
  List, [], ◌∷◌, nat_beq, ltb, leb, if◌then◌else◌, arith, inl, inr,
}
use haven_claw.Sets.{IdSet}
use haven_claw.Emap.{Item}
use haven_claw.Validity.{
  Block, TimeValidityWindow, Repeats, repeats, missing_parent, unfinished, is_repeat,
  repeats_within, verdict_of, verify_expiry_replay_protection, verified, calculate_oldest_allowed,
}
use haven_claw.Validity.Marks.{any_hit}
use haven_claw.Validity.Walk.{walk, told, told-next, Ending, is_decided, is_accepted, seen_by}
use haven_claw.Validity.Stopping.{is_repeat_loop-Clear}

-- The chain above a block
pub data Ancestry (index : ℕ → Option Block) : Block → Block → Type 0 where
  itself : (a : Block) → Ancestry index a a
  above : (a b c : Block) → index a.parent ≡ some b → Ancestry index b c → Ancestry index a c

-- In the index, a parent is lower than its child, and not later.
pub record IsChain (index : ℕ → Option Block) : Type 0 where
  pub lower :
      (i : ℕ) (a b : Block) → index i ≡ some a → index a.parent ≡ some b → b.height < a.height
  pub earlier :
      (i : ℕ) (a b : Block) → index i ≡ some a → index a.parent ≡ some b → b.timestamp ≤ a.timestamp

ancestor-before :
    (index : ℕ → Option Block) (i : ℕ) (a c : Block)
    → IsChain index
    → index i ≡ some a
    → Ancestry index a c
    → (c.height ≤ a.height) × (c.timestamp ≤ a.timestamp)
ancestor-before index i a c v at (itself b) = (omega arith, omega arith)
ancestor-before index i a c v at (above x b y e rest) =
    let before = ancestor-before index a.parent b c v e rest in
    (omega (arith, before.0, v.lower i a b at e), omega (arith, before.1, v.earlier i a b at e))

-- What is known of the ids in an ancestor: by the ids seen, where it is accepted.
abbrev pub known_in : {S : Type 0} ⦃sets : IdSet S⦄ → TimeValidityWindow S → Block → ℕ → Bool
known_in v c id = if is_accepted v.last_accepted_block_height c then seen_by v id else c.contains id

module _ {S : Type 0} ⦃sets : IdSet S⦄ (index : ℕ → Option Block) (chain : IsChain index)
    (v : TimeValidityWindow S) (oldest : ℕ) where
  next-tells :
      (w : List Block × Ending) (a b c : Block) (id : ℕ)
      → index a.parent ≡ some b
      → is_accepted v.last_accepted_block_height a ≡ false
      → Ancestry index a c
      → (Ancestry index b c → told (seen_by v) w id ≡ false → known_in v c id ≡ false)
      → told (seen_by v) (a ∷ w.0, w.1) id ≡ false
      → known_in v c id ≡ false
  next-tells w a b c id e unknown (itself x) rest h = ground (arith, told-next (seen_by v) a w id)
  next-tells w a b c id e unknown (above x y z e2 r) rest h =
      let same : y ≡ b = ground (arith, e, e2) in
      rest (rw same at r) (ground (arith, told-next (seen_by v) a w id))

  walk-tells :
      (fuel i : ℕ) (a c : Block) (id : ℕ)
      → index i ≡ some a
      → Ancestry index a c
      → oldest ≤ c.timestamp
      → is_decided (walk index v.last_accepted_block_height oldest fuel a).1 ≡ true
      → told (seen_by v) (walk index v.last_accepted_block_height oldest fuel a) id ≡ false
      → known_in v c id ≡ false
  unfolding walk
  walk-tells zero i a c id at r recent = λ d h. absurd (ground arith)
  walk-tells (suc fuel) i a c id at r recent =
      let before = ancestor-before index i a c chain at r in
      elim (Bool-cases (ltb a.timestamp oldest)) [
        | inl old ↦ absurd (ground (arith, before.1))
        | inr late ↦ elim (Bool-cases (is_accepted v.last_accepted_block_height a)) [
          | inl known ↦ rw (late, known, walk) (λ d h. ground (arith, before.0))
          | inr unknown ↦ elim (Option-cases (index a.parent)) [
            | inl none_left ↦ rw (late, unknown, none_left, walk) (λ d h. absurd (ground arith))
            | inr (b, there) ↦
                let w = walk index v.last_accepted_block_height oldest fuel b in
                rw (late, unknown, there, walk)
                  (λ d h.
                    next-tells w a b c id there unknown r
                      (λ next told. walk-tells fuel a.parent b c id there next recent d told) h)
          ]
        ]
      ]

any_hit-all :
    (p q : ℕ → Bool) (xs : List Item)
    → ((id : ℕ) → p id ≡ false → q id ≡ false)
    → any_hit p xs ≡ false
    → any_hit q xs ≡ false
any_hit-all p q [] h none_hit = refl
any_hit-all p q (x ∷ xs) h none_hit = ground (arith, h x.id, any_hit-all p q xs h)

-- No two containers with one id
abbrev pub AllDistinct : List Item → Type 0
AllDistinct [] = Unit
AllDistinct (x ∷ xs) = (any_hit (nat_beq x.id) xs ≡ false) × AllDistinct xs

module _ {S : Type 0} ⦃sets : IdSet S⦄ where
  repeats_within-distinct :
      (ids : S) (xs : List Item)
      → repeats_within ids xs ≡ false
      → AllDistinct xs × (any_hit (sets.contains ids) xs ≡ false)
  unfolding repeats_within
  repeats_within-distinct ids [] h = (tt, refl)
  repeats_within-distinct ids (x ∷ xs) h =
      let fresh : sets.contains ids x.id ≡ false = ground arith in
      let (distinct, unseen) =
        repeats_within-distinct (sets.add ids x.id) xs (ground (arith, fresh)) in
      (
        (
          any_hit-all (sets.contains (sets.add ids x.id)) (nat_beq x.id) xs
              (λ id e. ground (arith, sets.contains-add ids x.id id)) unseen,
          distinct,
        ),
        ground (
          arith,
          fresh,
          any_hit-all (sets.contains (sets.add ids x.id)) (sets.contains ids) xs
              (λ id e. ground (arith, sets.contains-add ids x.id id)) unseen,
        ),
      )

module _ {B : Type 0} ⦃bits : IdSet B⦄ where
  verified-clear :
      (r : Repeats B)
      → verdict_of r ≡ verified
      → (n : B) × (r ≡ repeats n) × ((j : ℕ) → bits.contains n j ≡ false)
  unfolding verdict_of
  verified-clear (repeats n) h = (n, refl, λ j. ((bits.len_zero n).0 (ground arith)) j)
  verified-clear (missing_parent n) h = absurd (ground arith)
  verified-clear unfinished h = absurd (ground arith)

module _ (B : Type 0) {S : Type 0} ⦃sets : IdSet S⦄ ⦃bits : IdSet B⦄ (index : ℕ → Option Block)
    (get_window : ℕ → ℕ) where
  -- A block higher than the last accepted one that is verified has containers with different ids. For
  -- an ancestor that is not older than the oldest allowed time none of them is in it or, where it is
  -- accepted, among the ids seen. In the index a parent is lower than its child, and not later.
  pub verified-NoRepeat :
      (v : TimeValidityWindow S) (blk parent c : Block)
      → IsChain index
      → v.last_accepted_block_height < blk.height
      → index blk.parent ≡ some parent
      → verify_expiry_replay_protection B index get_window v blk ≡ verified
      → AllDistinct blk.containers
        × (Ancestry index parent c
            → calculate_oldest_allowed get_window blk.timestamp ≤ c.timestamp
            → any_hit (known_in v c) blk.containers ≡ false)
  unfolding verify_expiry_replay_protection is_repeat
  verified-NoRepeat v blk parent c chain new there ok =
      let late : leb blk.height v.last_accepted_block_height ≡ false = ground arith in
      let alone : repeats_within sets.empty_set blk.containers ≡ false = ground (arith, late, ok) in
      let passed = rw (late, alone, there) at ok in
      let oldest = calculate_oldest_allowed get_window blk.timestamp in
      let r : Repeats B = is_repeat index v parent oldest blk.containers true in
      let (n, same, clear) = verified-clear r passed in
      let (untold, decided) =
        is_repeat_loop-Clear index v oldest blk.containers (parent.height + 1) parent bits.empty_set
          bits.contains-empty_set n same clear in
      (
        (repeats_within-distinct sets.empty_set blk.containers alone).0,
        λ up recent.
            any_hit-all
              (told (seen_by v)
                (walk index v.last_accepted_block_height oldest (parent.height + 1) parent))
              (known_in v c) blk.containers
              (λ id.
                walk-tells index chain v oldest (parent.height + 1) blk.parent parent c id there up
                  recent decided)
              untold,
      )
