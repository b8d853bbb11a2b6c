-- ===== src/Sets.antt =====
-- The sets of ids of avalanchego's utils/set, set.Set[ids.ID] and set.Bits, as this repository
-- uses them. Their code is not in the repository: they are an instance argument, and their laws are
-- the documented meaning of Contains, Add, Remove and Len.
use haven_claw.Prelude.{
  ℕ, ◌≡◌, ◌↔◌, Bool, false, List, [], ◌∷◌, ◌++◌, ◌||◌, nat_beq, if◌then◌else◌, arith,
}

pub record IdSet (S : Type 0) : Type 0 where
  pub empty_set : S
  pub contains : S → ℕ → Bool
  pub add : S → ℕ → S
  pub remove : S → ℕ → S
  pub len : S → ℕ
  pub contains-empty_set : (j : ℕ) → contains empty_set j ≡ false
  pub contains-add : (s : S) (i j : ℕ) → contains (add s i) j ≡ (nat_beq i j || contains s j)
  pub contains-remove :
      (s : S) (i j : ℕ) → contains (remove s i) j ≡ (if nat_beq i j then false else contains s j)
  pub len_zero : (s : S) → (len s ≡ 0) ↔ ((j : ℕ) → contains s j ≡ false)

abbrev pub member : ℕ → List ℕ → Bool
member j [] = false
member j (i ∷ is) = nat_beq i j || member j is

pub member-append : (j : ℕ) (is js : List ℕ) → member j (is ++ js) ≡ (member j is || member j js)
member-append j [] js = ground arith
member-append j (i ∷ is) js = ground (arith, member-append j is js)

module _ {S : Type 0} ⦃sets : IdSet S⦄ where
  -- for _, id := range ids { s.Remove(id) }
  abbrev pub remove_all : List ℕ → S → S
  remove_all [] s = s
  remove_all (i ∷ is) s = remove_all is (sets.remove s i)

  pub contains-remove_all :
      (ids : List ℕ) (s : S) (j : ℕ)
      → sets.contains (remove_all ids s) j ≡ (if member j ids then false else sets.contains s j)
  contains-remove_all [] s j = ground arith
  contains-remove_all (i ∷ is) s j =
      ground (arith, contains-remove_all is (sets.remove s i) j, sets.contains-remove s i j)
