-- ===== src/Window/Slots.antt =====
-- What the operations on a window do to its slots.
use Prim.Native.Nat.{min}
use haven_claw.Prelude.{
  ℕ, zero, suc, ◌+◌, ◌-◌, ◌*◌, ◌≤◌, ◌<◌, ◌≡◌, ◌≢◌, refl, ap, ◌∙◌, sym, inl, inr, none, some, List,
  [], ◌∷◌, ◌++◌, arith, ltb, nat_beq, Bool-cases, false, if◌then◌else◌, length, take, drop,
  replicate, length-drop,
}
use haven_claw.Prelude.Words.{max_uint64}
use haven_claw.Bytes.{
  Bytes, from_be, slice, splice, uint64_at, uint64_at-put_uint64, uint64_at-put_other,
  length-put_uint64, length-splice, drop-nil, zeros-slice,
}
use haven_claw.SafeMath.{SafeMath, IsChecked}
use haven_claw.Window.{window_size, window_slice_size, roll, sum_loop, sum, update}

-- The counter in slot `i`.
abbrev pub slot : ℕ → Bytes → ℕ
slot i w = uint64_at (8 * i) w

-- The exact sum of `n` slots from slot `i`.
abbrev pub total_from : ℕ → ℕ → Bytes → ℕ
total_from zero i w = 0
total_from (suc n) i w = slot i w + total_from n (i + 1) w

module _ {ℓ} {A : Type ℓ} where
  drop-drop : (l : List A) (a b c : ℕ) → b + a ≡ c → drop a (drop b l) ≡ drop c l
  drop-drop l a zero c e = let e' : a ≡ c = omega arith in rw e'
  drop-drop [] a (suc b) c e = drop-nil a ∙ sym (drop-nil c)
  drop-drop (x ∷ l) a (suc b) zero e = absurd (omega arith)
  drop-drop (x ∷ l) a (suc b) (suc c) e = drop-drop l a b c (omega arith)

  take_left : (xs ys : List A) (n : ℕ) → n ≤ length xs → take n (xs ++ ys) ≡ take n xs
  take_left xs ys zero h = refl
  take_left [] ys (suc n) h = absurd (omega arith)
  take_left (x ∷ xs) ys (suc n) h = ap (λ l. x ∷ l) (take_left xs ys n (omega arith))

  slice_left :
      (xs ys : List A) (o n : ℕ)
      → o + n ≤ length xs
      → take n (drop o (xs ++ ys)) ≡ take n (drop o xs)
  slice_left xs ys zero n h = take_left xs ys n (omega arith)
  slice_left [] ys (suc o) zero h = absurd (omega arith)
  slice_left [] ys (suc o) (suc n) h = absurd (omega arith)
  slice_left (x ∷ xs) ys (suc o) n h = slice_left xs ys o n (omega arith)

  drop_right : (xs ys : List A) (o c : ℕ) → length xs + c ≡ o → drop o (xs ++ ys) ≡ drop c ys
  drop_right [] ys o c e = let e' : o ≡ c = omega arith in rw e'
  drop_right (x ∷ xs) ys zero c e = absurd (omega arith)
  drop_right (x ∷ xs) ys (suc o) c e = drop_right xs ys o c (omega arith)

module _ (m : SafeMath) (safe : IsChecked m) where
  sum_loop-total :
      (n i acc : ℕ) (w : Bytes)
      → acc ≤ max_uint64
      → sum_loop m n i acc w ≡ min max_uint64 (acc + total_from n i w)
  unfolding sum_loop
  sum_loop-total zero i acc w h = omega arith
  sum_loop-total (suc n) i acc w h =
      ground (arith, safe.add_lem acc (slot i w), sum_loop-total n (i + 1) (acc + slot i w) w)

  -- Sum is the sum of the ten slots, or the largest uint64 where that does not fit.
  pub sum-total : (w : Bytes) → sum m w ≡ min max_uint64 (total_from 10 0 w)
  unfolding sum
  sum-total w = sum_loop-total 10 0 0 w (omega arith) ∙ omega arith

-- The zeros behind what Roll copies.
abbrev filler : Bytes → Bytes
filler copied = drop (length copied) (replicate 80 0)

-- A roll by `by` moves each slot `by` places towards the front and fills up with zeros: slot `i`
-- holds what slot `i + by` held, or 0 if there was none, for a roll by any uint64.
pub roll-slot :
    (w : Bytes) (by i : ℕ)
    → length w ≡ window_slice_size
    → i < window_size
    → slot i (roll w by) ≡ (if ltb (i + by) window_size then slot (i + by) w else 0)
unfolding roll uint64_at
roll-slot w by i size h = elim (Bool-cases (ltb window_size by)) [
  | inl far ↦
      let past : ltb (i + by) window_size ≡ false = ground arith in
      rw (far, past) (zeros-slice 80 (8 * i) 8)
  | inr near ↦ rw near (kept (ground arith))
]
  where
    kept :
        by ≤ 10
        → from_be 0 (slice (8 * i) 8 (splice 0 (drop (by * 8) w) (replicate 80 0)))
          ≡ (if ltb (i + by) window_size then from_be 0 (slice (8 * (i + by)) 8 w) else 0)
    kept le = elim (Bool-cases (ltb (i + by) window_size)) [
      | inl inside ↦ rw inside (
          ap (from_be 0) (
            slice_left (drop (by * 8) w) (filler (drop (by * 8) w)) (8 * i) 8
              (let e : i + by < 10 = ground arith in omega (arith, length-drop (by * 8) w))
            ∙ ap (take 8) (drop-drop w (8 * i) (by * 8) (8 * (i + by)) (omega arith))))
      | inr outside ↦
          let e : 10 ≤ i + by = ground arith in
          let o : ℕ = 8 * i - length (drop (by * 8) w) in
          rw outside (
            ap (λ l. from_be 0 (take 8 l))
              (drop_right (drop (by * 8) w) (filler (drop (by * 8) w)) (8 * i) o
                  (omega (arith, length-drop (by * 8) w))
                ∙ drop-drop (replicate 80 0) o (length (drop (by * 8) w))
                    (length (drop (by * 8) w) + o) refl)
            ∙ zeros-slice 80 (length (drop (by * 8) w) + o) 8)
    ]

-- A rolled window has the size of a window.
pub length-roll :
    (w : Bytes) (by : ℕ) → length w ≡ window_slice_size → length (roll w by) ≡ window_slice_size
unfolding roll
length-roll w by size = elim (Bool-cases (ltb window_size by)) [
  | inl far ↦ rw far refl
  | inr near ↦
      let le : by ≤ 10 = ground arith in
      rw near
        (length-splice 0 (drop (by * 8) w) (replicate 80 0) (omega (arith, length-drop (by * 8) w)))
]

module _ (m : SafeMath) (safe : IsChecked m) where
  pub saturated :
      (a b : ℕ)
      → elim (m.add a b) [ none ↦ max_uint64 | some total ↦ total ] ≡ min max_uint64 (a + b)
  saturated a b = ground (arith, safe.add_lem a b)

  -- Update adds to its slot, up to the largest uint64, and leaves the other slots.
  pub update-slot :
      (w : Bytes) (i j units : ℕ)
      → length w ≡ window_slice_size
      → i < window_size
      → j < window_size
      → slot j (update m w (8 * i) units)
        ≡ (if nat_beq i j then min max_uint64 (slot i w + units) else slot j w)
  unfolding update
  update-slot w i j units size hi hj = elim (Bool-cases (nat_beq i j)) [
    | inl same ↦
        let e : i ≡ j = ground arith in
        rw (same, saturated (slot i w) units, ← e)
          (uint64_at-put_uint64 (8 * i) _ w (omega arith) (omega arith))
    | inr other ↦
        let ne : i ≢ j = ground arith in
        rw (other, saturated (slot i w) units)
          (uint64_at-put_other (8 * i) _ w (8 * j) (omega arith) (omega arith))
  ]

  pub length-update :
      (w : Bytes) (i units : ℕ)
      → length w ≡ window_slice_size
      → i < window_size
      → length (update m w (8 * i) units) ≡ window_slice_size
  unfolding update
  length-update w i units size h = length-put_uint64 (8 * i) _ w (omega arith) ∙ size
