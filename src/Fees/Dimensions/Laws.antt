-- ===== src/Fees/Dimensions/Laws.antt =====
-- The checked vector arithmetic against exact arithmetic, and the bytes of a vector.
use mathlib.Core.Path.{ap₂}
use haven_claw.Prelude.{
  ℕ, zero, suc, ◌+◌, ◌*◌, ◌^◌, ◌≤◌, ◌<◌, ◌≡◌, ◌↔◌, refl, ◌∙◌, inl, inr, true, none, some, [], ◌∷◌,
  arith, nat_beq, ltb, leb, if◌then◌else◌, set, replicate, length, length-set, Bool-cases,
}
use haven_claw.Prelude.Words.{max_uint64}
use haven_claw.Bytes.{
  Bytes, uint64_at, put_uint64, uint64_at-put_uint64, uint64_at-put_other, length-put_uint64,
}
use haven_claw.SafeMath.{SafeMath, IsChecked}
use haven_claw.Fees.Dimensions.{
  Dimensions, at, add_loop, add_dimensions, mul_sum_loop, mul_sum, can_add_loop, can_add,
  bytes_loop, dimension_bytes, unpack_loop, unpack_dimensions, zero_dimensions,
}

pub get_or-set :
    (d : Dimensions) (i j v : ℕ)
    → i < length d
    → at (set d i v) j ≡ (if nat_beq i j then v else at d j)
get_or-set [] i j v h = absurd (omega arith)
get_or-set (x ∷ d) zero zero v h = refl
get_or-set (x ∷ d) zero (suc j) v h = ground arith
get_or-set (x ∷ d) (suc i) zero v h = ground arith
get_or-set (x ∷ d) (suc i) (suc j) v h = ground (arith, get_or-set d i j v)

-- The exact sum of products over `n` dimensions from `i`.
abbrev pub dot_from : ℕ → ℕ → Dimensions → Dimensions → ℕ
dot_from zero i a b = 0
dot_from (suc n) i a b = at a i * at b i + dot_from n (i + 1) a b

module _ (m : SafeMath) (safe : IsChecked m) where
  add_loop-at :
      (n i : ℕ) (a b d r : Dimensions)
      → i + n ≤ length d
      → add_loop m n i a b d ≡ some r
      → (length r ≡ length d)
        × ((j : ℕ)
            → at r j
              ≡ (if leb i j then (if ltb j (i + n) then at a j + at b j else at d j) else at d j))
        × ((j : ℕ) → i ≤ j → j < i + n → at a j + at b j ≤ max_uint64)
  unfolding add_loop
  add_loop-at zero i a b d r h e = ground arith
  add_loop-at (suc n) i a b d r h e = elim (Bool-cases (leb (at a i + at b i) max_uint64)) [
    | inr over ↦ ground (arith, safe.add_lem (at a i) (at b i))
    | inl fits ↦
        let v = at a i + at b i in
        let (size, entries, bounds) =
          add_loop-at n (i + 1) a b (set d i v) r (omega (arith, length-set d i v))
            (ground (arith, safe.add_lem (at a i) (at b i))) in
        (
          omega (arith, size, length-set d i v),
          λ j. ground (arith, entries j, get_or-set d i j v),
          λ j p q. ground (arith, bounds j),
        )
  ]

  can_add_loop_iff :
      (n i : ℕ) (d a l : Dimensions)
      → ((j : ℕ) → at l j ≤ max_uint64)
      → (can_add_loop m n i d a l ≡ true) ↔ ((j : ℕ) → i ≤ j → j < i + n → at d j + at a j ≤ at l j)
  unfolding can_add_loop
  can_add_loop_iff zero i d a l h = (λ e j p q. absurd (omega arith), λ f. refl)
  can_add_loop_iff (suc n) i d a l h =
      let ih = can_add_loop_iff n (i + 1) d a l h in
      let law = safe.add_lem (at d i) (at a i) in
      (
        λ e j p q.
            ground (arith, law, h i, λ (t : can_add_loop m n (i + 1) d a l ≡ true). ih.0 t j),
        λ f. ground (arith, law, h i, f i, ih.1 (λ j p q. f j (omega arith) (omega arith))),
      )

  mul_sum_loop-dot :
      (n i : ℕ) (a b : Dimensions) (val : ℕ)
      → val ≤ max_uint64
      → mul_sum_loop m n i a b val
        ≡ (if leb (val + dot_from n i a b) max_uint64 then some (val + dot_from n i a b) else none)
  unfolding mul_sum_loop
  mul_sum_loop-dot zero i a b val h = ground arith
  mul_sum_loop-dot (suc n) i a b val h = ground (
    arith,
    safe.mul_lem (at a i) (at b i),
    safe.add_lem val (at a i * at b i),
    mul_sum_loop-dot n (i + 1) a b (val + at a i * at b i),
  )

  add_loop-total :
      (n i : ℕ) (a b d : Dimensions)
      → ((j : ℕ) → i ≤ j → j < i + n → at a j + at b j ≤ max_uint64)
      → (r : Dimensions) × (add_loop m n i a b d ≡ some r)
  unfolding add_loop
  add_loop-total zero i a b d f = (d, refl)
  add_loop-total (suc n) i a b d f =
      let v = at a i + at b i in
      let (r, e) =
        add_loop-total n (i + 1) a b (set d i v) (λ j p q. f j (omega arith) (omega arith)) in
      let exact : m.add (at a i) (at b i) ≡ some v =
        ground (arith, safe.add_lem (at a i) (at b i), f i) in
      (r, ground (arith, exact, e))

  -- Add of two vectors succeeds exactly when every one of the five sums fits a uint64, and then
  -- each entry of the result is that sum.
  pub add_dimensions_iff :
      (a b : Dimensions)
      → ((r : Dimensions)
          → add_dimensions m a b ≡ some r
          → (length r ≡ 5)
            × ((j : ℕ) → j < 5 → (at r j ≡ at a j + at b j) × (at a j + at b j ≤ max_uint64)))
        × (((j : ℕ) → j < 5 → at a j + at b j ≤ max_uint64)
            → (r : Dimensions) × (add_dimensions m a b ≡ some r))
  unfolding add_dimensions
  add_dimensions_iff a b = (
    λ r e.
        let (size, entries, bounds) = add_loop-at 5 0 a b zero_dimensions r (omega arith) e in
        (size, λ j h. (ground (arith, entries j), bounds j (omega arith) (omega arith))),
    λ f. add_loop-total 5 0 a b zero_dimensions (λ j p q. f j (omega arith)),
  )

  -- CanAdd holds exactly when all five sums stay within the limit, where the limits are uint64.
  pub can_add_iff :
      (d a l : Dimensions)
      → ((j : ℕ) → at l j ≤ max_uint64)
      → (can_add m d a l ≡ true) ↔ ((j : ℕ) → j < 5 → at d j + at a j ≤ at l j)
  unfolding can_add
  can_add_iff d a l h =
      let loop = can_add_loop_iff 5 0 d a l h in
      (λ e j p. loop.0 e j (omega arith) (omega arith), λ f. loop.1 (λ j p q. f j (omega arith)))

  -- MulSum is the exact sum of the five products if that fits a uint64, and an error otherwise.
  pub mul_sum-dot :
      (a b : Dimensions)
      → mul_sum m a b
        ≡ (if leb (dot_from 5 0 a b) max_uint64 then some (dot_from 5 0 a b) else none)
  unfolding mul_sum
  mul_sum-dot a b =
      let zero_left : 0 + dot_from 5 0 a b ≡ dot_from 5 0 a b = omega arith in
      rw (← zero_left) (mul_sum_loop-dot 5 0 a b 0 (omega arith))

bytes_loop-at :
    (n i : ℕ) (d : Dimensions) (b : Bytes)
    → length b ≡ 40
    → i + n ≤ 5
    → ((j : ℕ) → at d j < 2 ^ 64)
    → (length (bytes_loop n i d b) ≡ 40)
      × ((j : ℕ)
          → j < 5
          → uint64_at (j * 8) (bytes_loop n i d b) ≡ (
              if leb i j
              then (if ltb j (i + n) then at d j else uint64_at (j * 8) b)
              else uint64_at (j * 8) b))
unfolding bytes_loop
bytes_loop-at zero i d b size h f = (size, λ j p. ground arith)
bytes_loop-at (suc n) i d b size h f =
    let step = put_uint64 (i * 8) (at d i) b in
    let (size', slots) =
      bytes_loop-at n (i + 1) d step (length-put_uint64 (i * 8) (at d i) b (omega arith) ∙ size)
        (omega arith) f in
    (
      size',
      λ j p. ground (
        arith,
        slots j,
        uint64_at-put_uint64 (i * 8) (at d i) b (f i) (omega arith),
        uint64_at-put_other (i * 8) (at d i) b (j * 8) (omega arith),
      ),
    )

unpack_loop-at :
    (n i : ℕ) (raw : Bytes) (d : Dimensions)
    → i + n ≤ length d
    → (length (unpack_loop n i raw d) ≡ length d)
      × ((j : ℕ)
          → at (unpack_loop n i raw d) j ≡ (
              if leb i j
              then (if ltb j (i + n) then uint64_at (j * 8) raw else at d j)
              else at d j))
unfolding unpack_loop
unpack_loop-at zero i raw d h = (refl, λ j. ground arith)
unpack_loop-at (suc n) i raw d h =
    let v = uint64_at (i * 8) raw in
    let (size, entries) =
      unpack_loop-at n (i + 1) raw (set d i v) (omega (arith, length-set d i v)) in
    (size ∙ length-set d i v, λ j. ground (arith, entries j, get_or-set d i j v))

pub ext_at :
    (a b : Dimensions) → length a ≡ length b → ((j : ℕ) → j < length a → at a j ≡ at b j) → a ≡ b
ext_at [] [] e f = refl
ext_at [] (y ∷ b) e f = absurd (omega arith)
ext_at (x ∷ a) [] e f = absurd (omega arith)
ext_at (x ∷ a) (y ∷ b) e f =
    ap₂ (λ h t. h ∷ t) (f 0 (omega arith))
      (ext_at a b (omega arith) (λ j p. f (suc j) (omega arith)))

-- UnpackDimensions reads back the bytes that Bytes writes, for any five uint64.
pub unpack_dimensions-dimension_bytes :
    (d : Dimensions)
    → length d ≡ 5
    → ((j : ℕ) → at d j < 2 ^ 64)
    → unpack_dimensions (dimension_bytes d) ≡ some d
unfolding unpack_dimensions dimension_bytes
unpack_dimensions-dimension_bytes d size f =
    let (len, slots) = bytes_loop-at 5 0 d (replicate 40 0) refl (omega arith) f in
    let raw = bytes_loop 5 0 d (replicate 40 0) in
    let (len', entries) = unpack_loop-at 5 0 raw zero_dimensions (omega arith) in
    let back : unpack_loop 5 0 raw zero_dimensions ≡ d =
      ext_at _ d (omega arith) (λ j p. ground (arith, entries j, slots j)) in
    ground (arith, len, back)
