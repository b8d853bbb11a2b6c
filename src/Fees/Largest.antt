-- ===== src/Fees/Largest.antt =====
-- hypersdk/fees/set.go: LargestSet. Indices are sorted by weight, taken greedily, and those that
-- did not fit, marked by the number of vectors, are taken out of the slice in place.
pub mod Greedy
pub mod Compact
use haven_claw.Prelude.{
  ℕ, zero, suc, ◌+◌, ◌-◌, ◌*◌, ◌/◌, ◌^◌, Bool, true, false, Option, none, some, List, [], ◌∷◌,
  nat_beq, ltb, if◌then◌else◌, get_or, set, length, take, map,
}
use haven_claw.SafeMath.{SafeMath}
use haven_claw.Fees.Dimensions.{
  Dimensions, at, fee_dimensions, zero_dimensions, can_add, add_dimensions,
}

-- The square of big.NewInt(int64(v)), for a uint64 v.
abbrev pub sq_int64 : ℕ → ℕ
sq_int64 v = let a : ℕ = if ltb v (2 ^ 63) then v else 2 ^ 64 - v in a * a

unfoldable pub weight_loop : ℕ → ℕ → Dimensions → Dimensions → ℕ → ℕ
weight_loop zero k d limit size = size
weight_loop (suc n) k d limit size =
    weight_loop n (k + 1) d limit
      (size + (if ltb 0 (at limit k) then sq_int64 (at d k) * 65536 / sq_int64 (at limit k) else 0))

unfoldable pub weight : Dimensions → Dimensions → ℕ
unfolding weight_loop
weight limit d = weight_loop fee_dimensions 0 d limit 0

-- outIndices[i] = uint64(i), for `n` entries from `i`
unfoldable pub indices_from : ℕ → ℕ → List ℕ
indices_from zero i = []
indices_from (suc n) i = i ∷ indices_from n (i + 1)

-- dimensions[i]
abbrev pub vector_at : List Dimensions → ℕ → Dimensions
vector_at dims i = get_or dims i []

-- sort.SliceStable: a stable sort by weight.
unfoldable pub insert_by : List ℕ → ℕ → List ℕ → List ℕ
insert_by weights i [] = i ∷ []
insert_by weights i (j ∷ js) =
    let rest = insert_by weights i js in
    if ltb (get_or weights j 0) (get_or weights i 0) then j ∷ rest else i ∷ j ∷ js

unfoldable pub sort_by : List ℕ → List ℕ → List ℕ
unfolding insert_by
sort_by weights [] = []
sort_by weights (i ∷ is) = insert_by weights i (sort_by weights is)

module _ (m : SafeMath) (dims : List Dimensions) (limit : Dimensions) where
  -- The loop that finds where the limit is passed; `none` is its return on an error of Add.
  unfoldable pub take_greedy : List ℕ → Dimensions → Option (List ℕ × Dimensions)
  take_greedy [] acc = some ([], acc)
  take_greedy (i ∷ is) acc = elim (can_add m acc (vector_at dims i) limit) [
    | false ↦ elim (take_greedy is acc) [
      | none ↦ none
      | some (marks, total) ↦ some (length dims ∷ marks, total)
    ]
    | true ↦ elim (add_dimensions m acc (vector_at dims i)) [
      | none ↦ none
      | some acc' ↦ elim (take_greedy is acc') [
        | none ↦ none
        | some (marks, total) ↦ some (i ∷ marks, total)
      ]
    ]
  ]

-- The loop that removes the marked entries, with the number of rounds it may take; it gives the
-- slice and the count `j`.
unfoldable pub compact_loop : ℕ → ℕ → ℕ → ℕ → List ℕ → Option (List ℕ × ℕ)
compact_loop zero mark i j out = none
compact_loop (suc fuel) mark i j out = elim (ltb i (length out - j)) [
  | false ↦ some (out, j)
  | true ↦ elim (nat_beq (get_or out i 0) mark) [
    | true ↦ compact_loop fuel mark i (j + 1) out
    | false ↦ compact_loop fuel mark (i + 1) j (set out i (get_or out (i + j) 0))
  ]
]

-- The slice cut to what the loop leaves; each round uses up an entry, so this many suffice.
unfoldable pub compact : ℕ → List ℕ → Option (List ℕ)
compact mark out = elim (compact_loop (length out + 1) mark 0 0 out) [
  | none ↦ none
  | some (out', j) ↦ some (take (length out' - j) out')
]

unfoldable pub largest_set : SafeMath → List Dimensions → Dimensions → Option (List ℕ × Dimensions)
largest_set m dims limit =
    let sorted : List ℕ = sort_by (map (weight limit) dims) (indices_from (length dims) 0) in
    elim (take_greedy m dims limit sorted zero_dimensions) [
      | none ↦ some ([], zero_dimensions)
      | some (marks, total) ↦ elim (compact (length dims) marks) [
        | none ↦ none
        | some out ↦ some (out, total)
      ]
    ]
