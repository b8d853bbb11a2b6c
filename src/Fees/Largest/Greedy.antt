-- ===== src/Fees/Largest/Greedy.antt =====
-- The greedy choice stays within the limit, adds up what it takes, and leaves out only what does
-- not fit any more.
use mathlib.Core.List.{Perm}
use mathlib.Core.List.Perm
use haven_claw.Prelude.{
  ℕ, zero, suc, ◌+◌, ◌<◌, ◌≤◌, ◌≡◌, refl, true, false, some, List, [], ◌∷◌, arith, nat_beq, ltb,
  if◌then◌else◌, get_or, length, take, map, replicate, Bool-cases, inl, inr, ◌⊎◌,
}
use haven_claw.Prelude.Words.{max_uint64}
use haven_claw.SafeMath.{SafeMath, IsChecked}
use haven_claw.Fees.Dimensions.{Dimensions, at, can_add, zero_dimensions}
use haven_claw.Fees.Dimensions.Laws.{can_add_iff, add_dimensions_iff}
use haven_claw.Fees.Largest.{
  vector_at, take_greedy, largest_set, weight, sort_by, insert_by, indices_from,
}
use haven_claw.Fees.Largest.Compact.{run, compact-prefix}

module _ (dims : List Dimensions) where
  -- The sum in dimension `j` of the vectors whose indices are not marked.
  abbrev pub taken : List ℕ → ℕ → ℕ
  taken [] j = 0
  taken (k ∷ marks) j =
      (if nat_beq k (length dims) then 0 else at (vector_at dims k) j) + taken marks j

  abbrev pub InRange : List ℕ → Type 0
  InRange [] = Unit
  InRange (i ∷ is) = (i < length dims) × InRange is

module _ (m : SafeMath) (safe : IsChecked m) (dims : List Dimensions) (limit : Dimensions)
    (small : (j : ℕ) → at limit j ≤ max_uint64) where
  -- Every index was taken, or is marked and does not fit beside the total.
  abbrev pub Chosen : List ℕ → List ℕ → Dimensions → Type 0
  Chosen [] [] total = Unit
  Chosen [] (k ∷ marks) total = ⊥
  Chosen (i ∷ is) [] total = ⊥
  Chosen (i ∷ is) (k ∷ marks) total =
      ((k ≡ i) ⊎ ((k ≡ length dims) × (can_add m total (vector_at dims i) limit ≡ false)))
      × Chosen is marks total

  can_add_mono :
      (a b d : Dimensions)
      → ((j : ℕ) → j < 5 → at a j ≤ at b j)
      → can_add m a d limit ≡ false
      → can_add m b d limit ≡ false
  can_add_mono a b d le e = elim (Bool-cases (can_add m b d limit)) [
    | inr fails ↦ fails
    | inl fits ↦
        let more = (can_add_iff m safe b d limit small).0 fits in
        let less : can_add m a d limit ≡ true =
          (can_add_iff m safe a d limit small).1 (λ j p. omega (arith, more j p, le j p)) in
        cc
  ]

  pub record Greedy (is : List ℕ) (acc : Dimensions) (marks : List ℕ) (total : Dimensions)
      : Type 0 where
    pub within : (j : ℕ) → j < 5 → at total j ≤ at limit j
    pub summed : (j : ℕ) → j < 5 → at total j ≡ at acc j + taken dims marks j
    pub chosen : Chosen is marks total

  take_greedy-Greedy :
      (is : List ℕ) (acc : Dimensions)
      → InRange dims is
      → ((j : ℕ) → j < 5 → at acc j ≤ at limit j)
      → (marks : List ℕ) × (total : Dimensions) × (take_greedy m dims limit is acc
          ≡ some (marks, total))
        × Greedy is acc marks total
  unfolding take_greedy
  take_greedy-Greedy [] acc r h =
      ([], acc, refl, record { within = h; summed = λ j p. omega arith; chosen = tt })
  take_greedy-Greedy (i ∷ is) acc r h = elim (Bool-cases (can_add m acc (vector_at dims i) limit)) [
    | inr full ↦
        let (marks, total, e, g) = take_greedy-Greedy is acc r.1 h in
        (
          length dims ∷ marks,
          total,
          ground (arith, full, e),
          record {
            within = g.within;
            summed = λ j p. ground (arith, g.summed j p);
            chosen = (
              inr (
                refl,
                can_add_mono acc total (vector_at dims i) (λ j p. omega (arith, g.summed j p)) full,
              ),
              g.chosen,
            );
          },
        )
    | inl fits ↦
        let room = (can_add_iff m safe acc (vector_at dims i) limit small).0 fits in
        let (sums, total_sum) = add_dimensions_iff m safe acc (vector_at dims i) in
        let (acc', added) = total_sum (λ j p. omega (arith, room j p, small j)) in
        let exact = (sums acc' added).1 in
        let (marks, total, e, g) =
          take_greedy-Greedy is acc' r.1 (λ j p. omega (arith, (exact j p).0, room j p)) in
        let plain : nat_beq i (length dims) ≡ false = ground arith in
        (
          i ∷ marks,
          total,
          ground (arith, fits, added, e),
          record {
            within = g.within;
            summed = λ j p. rw plain (omega (arith, g.summed j p, (exact j p).0));
            chosen = (inl refl, g.chosen);
          },
        )
  ]

module _ (dims : List Dimensions) (weights : List ℕ) where
  insert_by-InRange :
      (i : ℕ) (js : List ℕ)
      → i < length dims
      → InRange dims js
      → InRange dims (insert_by weights i js)
  unfolding insert_by
  insert_by-InRange i [] h r = (h, tt)
  insert_by-InRange i (j ∷ js) h r =
      elim (Bool-cases (ltb (get_or weights j 0) (get_or weights i 0))) [
        | inl lighter ↦ rw lighter (r.0, insert_by-InRange i js h r.1)
        | inr before ↦ rw before (h, r)
      ]

  sort_by-InRange : (is : List ℕ) → InRange dims is → InRange dims (sort_by weights is)
  unfolding sort_by
  sort_by-InRange [] r = tt
  sort_by-InRange (i ∷ is) r = insert_by-InRange i (sort_by weights is) r.0 (sort_by-InRange is r.1)

module _ (dims : List Dimensions) where
  indices_from-InRange : (n i : ℕ) → i + n ≤ length dims → InRange dims (indices_from n i)
  unfolding indices_from
  indices_from-InRange zero i h = tt
  indices_from-InRange (suc n) i h = (omega arith, indices_from-InRange n (i + 1) (omega arith))

-- The sort keeps the indices, and puts lighter ones first.
pub insert_by-perm :
    (weights : List ℕ) (i : ℕ) (js : List ℕ) → Perm (insert_by weights i js) (i ∷ js)
unfolding insert_by
insert_by-perm weights i [] = Perm.refl (i ∷ [])
insert_by-perm weights i (j ∷ js) =
    elim (Bool-cases (ltb (get_or weights j 0) (get_or weights i 0))) [
      | inl lighter ↦
          rw lighter (Perm.trans (Perm.cons j (insert_by-perm weights i js)) (Perm.swap i j js))
      | inr before ↦ rw before (Perm.refl (i ∷ j ∷ js))
    ]

pub sort_by-perm : (weights is : List ℕ) → Perm (sort_by weights is) is
unfolding sort_by
sort_by-perm weights [] = Perm.refl []
sort_by-perm weights (i ∷ is) =
    Perm.trans (insert_by-perm weights i (sort_by weights is))
      (Perm.cons i (sort_by-perm weights is))

get_or-replicate : (n j : ℕ) → at (replicate n 0) j ≡ 0
get_or-replicate zero j = refl
get_or-replicate (suc n) zero = refl
get_or-replicate (suc n) (suc j) = get_or-replicate n j

abbrev pub sorted_indices : List Dimensions → Dimensions → List ℕ
sorted_indices dims limit = sort_by (map (weight limit) dims) (indices_from (length dims) 0)

-- LargestSet never fails. It goes through all the indices in an order of its own; each is taken, or
-- marked because its vector does not fit beside the returned total. The total is the exact sum of
-- the vectors taken and stays within the limit in every dimension. The returned indices are those
-- taken before the first marked one.
pub largest_set-Greedy :
    (m : SafeMath) (safe : IsChecked m) (dims : List Dimensions) (limit : Dimensions)
    (small : (j : ℕ) → at limit j ≤ max_uint64)
    → (marks : List ℕ) × (total : Dimensions) × (largest_set m dims limit
        ≡ some (take (run (length dims) marks) marks, total))
      × Perm (sorted_indices dims limit) (indices_from (length dims) 0)
      × Greedy m safe dims limit small (sorted_indices dims limit) zero_dimensions marks total
unfolding largest_set
largest_set-Greedy m safe dims limit small =
    let order = sorted_indices dims limit in
    let ranged =
      sort_by-InRange dims (map (weight limit) dims) (indices_from (length dims) 0)
        (indices_from-InRange dims (length dims) 0 (omega arith)) in
    let (marks, total, e, g) =
      take_greedy-Greedy m safe dims limit small order zero_dimensions ranged (λ j p. zero_at j) in
    (
      marks,
      total,
      ground (arith, e, compact-prefix (length dims) marks),
      sort_by-perm (map (weight limit) dims) (indices_from (length dims) 0),
      g,
    )
  where
    zero_at : (j : ℕ) → at zero_dimensions j ≤ at limit j
    zero_at j = omega (arith, get_or-replicate 5 j)
