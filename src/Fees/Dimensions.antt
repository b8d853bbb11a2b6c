-- ===== src/Fees/Dimensions.antt =====
-- hypersdk/fees/dimension.go: vectors of five uint64, and their checked arithmetic. A loop over the
-- dimensions counts the rounds left and the index; an error is `none`.
pub mod Laws
use haven_claw.Prelude.{
  ℕ, zero, suc, ◌+◌, ◌*◌, Bool, true, false, Option, none, some, List, [], ◌∷◌, nat_beq, ltb,
  if◌then◌else◌, get_or, set, replicate, length,
}
use haven_claw.Bytes.{Bytes, uint64_at, put_uint64}
use haven_claw.SafeMath.{SafeMath}

abbrev pub fee_dimensions : ℕ
fee_dimensions = 5

abbrev pub dimensions_len : ℕ
dimensions_len = 40

-- A Go array of five entries: every list here has that length.
abbrev pub Dimensions : Type 0
Dimensions = List ℕ

abbrev pub zero_dimensions : Dimensions
zero_dimensions = replicate 5 0

-- d[i]
abbrev pub at : Dimensions → ℕ → ℕ
at d i = get_or d i 0

module _ (m : SafeMath) where
  unfoldable pub add_loop : ℕ → ℕ → Dimensions → Dimensions → Dimensions → Option Dimensions
  add_loop zero i a b d = some d
  add_loop (suc n) i a b d = elim (m.add (at a i) (at b i)) [
    | none ↦ none
    | some v ↦ add_loop n (i + 1) a b (set d i v)
  ]

  -- Add of two vectors
  unfoldable pub add_dimensions : Dimensions → Dimensions → Option Dimensions
  unfolding add_loop
  add_dimensions a b = add_loop fee_dimensions 0 a b zero_dimensions

  unfoldable pub mul_sum_loop : ℕ → ℕ → Dimensions → Dimensions → ℕ → Option ℕ
  mul_sum_loop zero i a b val = some val
  mul_sum_loop (suc n) i a b val = elim (m.mul (at a i) (at b i)) [
    | none ↦ none
    | some v ↦ elim (m.add val v) [
      | none ↦ none
      | some new_val ↦ mul_sum_loop n (i + 1) a b new_val
    ]
  ]

  unfoldable pub mul_sum : Dimensions → Dimensions → Option ℕ
  unfolding mul_sum_loop
  mul_sum a b = mul_sum_loop fee_dimensions 0 a b 0

  -- The method Add, on one dimension. Its receiver is a copy of the caller's array, which keeps its
  -- value: only the error comes back, here as `false`.
  unfoldable pub add_at : Dimensions → ℕ → ℕ → Dimensions × Bool
  add_at d i v = elim (m.add (at d i) v) [ none ↦ (d, false) | some _ ↦ (d, true) ]

  unfoldable pub can_add_loop : ℕ → ℕ → Dimensions → Dimensions → Dimensions → Bool
  can_add_loop zero i d a l = true
  can_add_loop (suc n) i d a l = elim (m.add (at d i) (at a i)) [
    | none ↦ false
    | some consumed ↦
        let rest = can_add_loop n (i + 1) d a l in if ltb (at l i) consumed then false else rest
  ]

  unfoldable pub can_add : Dimensions → Dimensions → Dimensions → Bool
  unfolding can_add_loop
  can_add d a l = can_add_loop fee_dimensions 0 d a l

unfoldable pub bytes_loop : ℕ → ℕ → Dimensions → Bytes → Bytes
bytes_loop zero i d b = b
bytes_loop (suc n) i d b = bytes_loop n (i + 1) d (put_uint64 (i * 8) (at d i) b)

-- Bytes
unfoldable pub dimension_bytes : Dimensions → Bytes
unfolding bytes_loop
dimension_bytes d = bytes_loop fee_dimensions 0 d (replicate dimensions_len 0)

unfoldable pub greater_loop : ℕ → ℕ → Dimensions → Dimensions → Bool
greater_loop zero i d o = true
greater_loop (suc n) i d o =
    let rest = greater_loop n (i + 1) d o in if ltb (at d i) (at o i) then false else rest

unfoldable pub greater : Dimensions → Dimensions → Bool
unfolding greater_loop
greater d o = greater_loop fee_dimensions 0 d o

unfoldable pub unpack_loop : ℕ → ℕ → Bytes → Dimensions → Dimensions
unpack_loop zero i raw d = d
unpack_loop (suc n) i raw d = unpack_loop n (i + 1) raw (set d i (uint64_at (i * 8) raw))

-- `none` is ErrWrongDimensionSize.
unfoldable pub unpack_dimensions : Bytes → Option Dimensions
unfolding unpack_loop
unpack_dimensions raw =
    if nat_beq (length raw) dimensions_len
    then some (unpack_loop fee_dimensions 0 raw zero_dimensions)
    else none
