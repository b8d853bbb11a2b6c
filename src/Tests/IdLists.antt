-- ===== src/Tests/IdLists.antt =====
-- A set of ids as a list, for the tests.
use haven_claw.Prelude.{
  ℕ, ◌≡◌, refl, false, List, [], ◌∷◌, nat_beq, nat_beq_iff, if◌then◌else◌, arith, length,
}
use haven_claw.Sets.{IdSet, member}

-- A set of ids as a list
pub remove_id : ℕ → List ℕ → List ℕ
remove_id i [] = []
remove_id i (j ∷ js) = let rest = remove_id i js in if nat_beq i j then rest else j ∷ rest

pub member-remove_id :
    (i j : ℕ) (s : List ℕ) → member j (remove_id i s) ≡ (if nat_beq i j then false else member j s)
unfolding remove_id
member-remove_id i j [] = ground arith
member-remove_id i j (k ∷ ks) =
    ground (arith, member-remove_id i j ks, nat_beq_iff i j, nat_beq_iff i k, nat_beq_iff k j)

pub no_members : (s : List ℕ) (j : ℕ) → length s ≡ 0 → member j s ≡ false
no_members [] j e = refl
no_members (i ∷ is) j e = absurd (omega arith)

pub no_length : (s : List ℕ) → ((j : ℕ) → member j s ≡ false) → length s ≡ 0
no_length [] h = refl
no_length (i ∷ is) h = absurd (ground (arith, h i, nat_beq_iff i i))

instance abbrev pub list_set : IdSet (List ℕ)
list_set = record {
  empty_set = [];
  contains = λ s j. member j s;
  add = λ s i. i ∷ s;
  remove = λ s i. remove_id i s;
  len = length;
  contains-empty_set = λ j. refl;
  contains-add = λ s i j. refl;
  contains-remove = λ s i j. member-remove_id i j s;
  len_zero = λ s. (λ e j. no_members s j e, λ h. no_length s h);
}
