-- ===== src/Fees/Manager/Price.antt =====
-- How the price of one dimension moves between blocks.
use Prim.Native.Nat.{min, max}
use haven_claw.Prelude.{
  ℕ, ◌+◌, ◌-◌, ◌*◌, ◌/◌, ◌%◌, ◌<◌, ◌≤◌, ◌≡◌, refl, ◌∙◌, ◌⊎◌, inl, inr, some, arith, ltb, nat_beq,
  if◌then◌else◌, length, Bool-cases, Option-cases,
}
use haven_claw.Prelude.Words.{max_uint64, u64_mod, mul_wrap}
use haven_claw.Bytes.{Bytes}
use haven_claw.SafeMath.{SafeMath, IsChecked}
use haven_claw.Window
use haven_claw.Window.Slots.{slot, roll-slot, length-roll, update-slot, length-update}
use haven_claw.Fees.Manager.{
  base_delta, raise_price, lower_price, moved_price, next_window, compute_next_price_window,
}

base_delta_pos :
    (price delta target denom base : ℕ) → base_delta price delta target denom ≡ some base → 1 ≤ base
unfolding base_delta
base_delta_pos price delta target denom base e = ground arith

base_delta_total :
    (price delta target denom : ℕ)
    → 0 < target
    → 0 < denom
    → (base : ℕ) × (base_delta price delta target denom ≡ some base)
unfolding base_delta
base_delta_total price delta target denom p q =
    let base = mul_wrap price delta / target / denom in
    ((if ltb base 1 then 1 else base), ground arith)

wrap-small : (x : ℕ) → x ≤ max_uint64 → x % u64_mod ≡ x
wrap-small x h = omega arith

-- The move of the price in exact arithmetic, at least 1.
abbrev pub exact_delta : ℕ → ℕ → ℕ → ℕ → ℕ
exact_delta price delta target denom = max 1 (price * delta / target / denom)

base_delta-exact :
    (price delta target denom : ℕ)
    → 0 < target
    → 0 < denom
    → price * delta ≤ max_uint64
    → base_delta price delta target denom ≡ some (exact_delta price delta target denom)
unfolding base_delta
base_delta-exact price delta target denom p q h =
    let whole : mul_wrap price delta ≡ price * delta = omega arith in rw whole (ground arith)

module _ (m : SafeMath) (safe : IsChecked m) where
  raise_price-min : (price by : ℕ) → raise_price m price by ≡ min max_uint64 (price + by)
  unfolding raise_price
  raise_price-min price by = ground (arith, safe.add_lem price by)

  lower_price-sub : (price by : ℕ) → lower_price m price by ≡ price - by
  unfolding lower_price
  lower_price-sub price by = ground (arith, safe.sub_lem price by)

  -- What the price before the minimum promises, by the units in the window against the target.
  abbrev pub Moves : ℕ → ℕ → ℕ → ℕ → ℕ → Type 0
  Moves total price target since next =
      (target < total → (price < next) ⊎ (next ≡ max_uint64))
      × (total < target → next ≤ price)
      × (total < target → since ≤ 10 → (next < price) ⊎ (next ≡ 0))
      × (total ≡ target → next ≡ price)

  moved_price-Moves :
      (total price target denom since next : ℕ)
      → price ≤ max_uint64
      → moved_price m total price target denom since ≡ some next
      → Moves total price target since next
  unfolding moved_price
  moved_price-Moves total price target denom since next h e = (
    λ over. elim (Option-cases (base_delta price (total - target) target denom)) [
      | inl stop ↦ ground arith
      | inr (by, d) ↦
          ground (
            arith,
            base_delta_pos price (total - target) target denom by d,
            raise_price-min price by,
          )
    ],
    λ under. elim (Option-cases (base_delta price (target - total) target denom)) [
      | inl stop ↦ ground arith
      | inr (by, d) ↦
          ground (arith, lower_price-sub price by, lower_price-sub price (mul_wrap by (since / 10)))
    ],
    λ under recent. elim (Option-cases (base_delta price (target - total) target denom)) [
      | inl stop ↦ ground arith
      | inr (by, d) ↦
          ground (
            arith,
            base_delta_pos price (target - total) target denom by d,
            lower_price-sub price by,
          )
    ],
    λ level. ground arith,
  )

  moved_price_total :
      (total price target denom since : ℕ)
      → 0 < target
      → 0 < denom
      → (next : ℕ) × (moved_price m total price target denom since ≡ some next)
  unfolding moved_price
  moved_price_total total price target denom since p q =
      let (up, e) = base_delta_total price (total - target) target denom p q in
      let (down, d) = base_delta_total price (target - total) target denom p q in
      (
        (if ltb target total
            then raise_price m price up
            else if ltb total target
            then lower_price m price (
                if ltb Window.window_size since
                then mul_wrap down (since / Window.window_size)
                else down)
            else price),
        ground (arith, e, d),
      )

  -- Where price times the distance from the target does not overflow, an over-full window raises
  -- the price by the exact share of it, up to the largest uint64, and one under the target lowers
  -- it by the share, times the whole windows that went by, down to 0.
  pub moved_price-exact :
      (total price target denom since : ℕ)
      → 0 < target
      → 0 < denom
      → (price * (total - target) ≤ max_uint64
          → target < total
          → moved_price m total price target denom since
            ≡ some (min max_uint64 (price + exact_delta price (total - target) target denom)))
        × (price * (target - total) ≤ max_uint64
            → total < target
            → (exact_delta price (target - total) target denom) * max 1 (since / 10) ≤ max_uint64
            → moved_price m total price target denom since
              ≡ some
                  (price - (exact_delta price (target - total) target denom) * max 1 (since / 10)))
  unfolding moved_price
  moved_price-exact total price target denom since p q = (
    λ h over. ground (
      arith,
      base_delta-exact price (total - target) target denom p q h,
      raise_price-min price (exact_delta price (total - target) target denom),
    ),
    λ h under small. lowered h under small,
  )
    where
      down : ℕ
      down = exact_delta price (target - total) target denom

      lowered :
          price * (target - total) ≤ max_uint64
          → total < target
          → down * max 1 (since / 10) ≤ max_uint64
          → moved_price m total price target denom since ≡ some (price - down * max 1 (since / 10))
      lowered h under small =
          let base = base_delta-exact price (target - total) target denom p q h in
          elim (Bool-cases (ltb 10 since)) [
            | inl far ↦
                let windows : max 1 (since / 10) ≡ since / 10 = ground arith in
                let whole : mul_wrap down (since / 10) ≡ down * (since / 10) =
                  wrap-small (down * (since / 10)) (rw windows at small) in
                rw windows
                  (ground (arith, base, whole, lower_price-sub price (mul_wrap down (since / 10))))
            | inr near ↦
                let windows : max 1 (since / 10) ≡ 1 = ground arith in
                let whole : down * 1 ≡ down = omega arith in
                rw (windows, whole) (ground (arith, base, lower_price-sub price down))
          ]

  -- The window of the next block: the slots move up by the seconds gone, the parent's units are
  -- added to what was the newest slot if that is still inside, and the rest is zero.
  pub next_window-slot :
      (w : Bytes) (consumed since j : ℕ)
      → length w ≡ Window.window_slice_size
      → j < 10
      → slot j (next_window m w consumed since) ≡ (
          if nat_beq (j + since) 9
          then min max_uint64 (slot 9 w + consumed)
          else if ltb (j + since) 10
          then slot (j + since) w
          else 0)
  unfolding next_window
  next_window-slot w consumed since j size h = elim (Bool-cases (ltb since 10)) [
    | inr gone ↦ rw gone (roll-slot w since j size h ∙ ground arith)
    | inl inside ↦
        let s : ℕ = 10 - 1 - since in
        let start : s * 8 ≡ 8 * s = omega arith in
        let size' = length-roll w since size in
        let newest : s + since ≡ 9 = ground arith in
        let oldest : slot s (Window.roll w since) ≡ slot 9 w =
          roll-slot w since s size (omega arith) ∙ rw newest refl in
        rw (inside, start)
          (update-slot m safe (Window.roll w since) s j consumed size' (omega arith) h
            ∙ ground (arith, newest, oldest, roll-slot w since j size h))
  ]

  -- The price of the next block. Where the target and the denominator are not zero there is one; it
  -- is at least the minimum. A window over the target raises the price, or takes it to the largest
  -- uint64; one under the target never raises it, and lowers it where at most ten seconds went by
  -- and it is not 0; one on the target keeps it; all this up to the minimum.
  pub compute_next_price_window-Moves :
      (w : Bytes) (consumed price target denom min_price since : ℕ)
      → 0 < target
      → 0 < denom
      → price ≤ max_uint64
      → (moved : ℕ) × (compute_next_price_window m w consumed price target denom min_price since
          ≡ some (max moved min_price, next_window m w consumed since))
        × Moves (Window.sum m (next_window m w consumed since)) price target since moved
  unfolding compute_next_price_window
  compute_next_price_window-Moves w consumed price target denom min_price since p q h =
      let total = Window.sum m (next_window m w consumed since) in
      let (moved, e) = moved_price_total total price target denom since p q in
      (moved, ground (arith, e), moved_price-Moves total price target denom since moved h e)

  moved_price-le :
      (total price target denom since next : ℕ)
      → price ≤ max_uint64
      → moved_price m total price target denom since ≡ some next
      → next ≤ max_uint64
  unfolding moved_price
  moved_price-le total price target denom since next h e = elim (Bool-cases (ltb target total)) [
    | inl over ↦ elim (Option-cases (base_delta price (total - target) target denom)) [
      | inl stop ↦ ground arith
      | inr (by, d) ↦ ground (arith, raise_price-min price by)
    ]
    | inr not_over ↦ elim (Option-cases (base_delta price (target - total) target denom)) [
      | inl stop ↦ ground arith
      | inr (by, d) ↦
          ground (arith, lower_price-sub price by, lower_price-sub price (mul_wrap by (since / 10)))
    ]
  ]

  pub length-next_window :
      (w : Bytes) (consumed since : ℕ)
      → length w ≡ Window.window_slice_size
      → length (next_window m w consumed since) ≡ Window.window_slice_size
  unfolding next_window
  length-next_window w consumed since size = elim (Bool-cases (ltb since 10)) [
    | inr gone ↦ rw gone (length-roll w since size)
    | inl inside ↦
        let s : ℕ = 10 - 1 - since in
        let start : s * 8 ≡ 8 * s = omega arith in
        rw (inside, start)
          (length-update m safe (Window.roll w since) s consumed (length-roll w since size)
            (omega arith))
  ]

  -- The price fits its eight bytes, and the window its eighty.
  pub compute_next_price_window-fits :
      (w : Bytes) (consumed price target denom min_price since : ℕ) (next : ℕ) (w' : Bytes)
      → length w ≡ Window.window_slice_size
      → price ≤ max_uint64
      → min_price ≤ max_uint64
      → compute_next_price_window m w consumed price target denom min_price since ≡ some (next, w')
      → (next ≤ max_uint64) × (length w' ≡ Window.window_slice_size)
  unfolding compute_next_price_window
  compute_next_price_window-fits w consumed price target denom min_price since next w' size h k e =
      elim (Option-cases
        (moved_price m (Window.sum m (next_window m w consumed since)) price target denom since)) [
          | inl stop ↦ ground arith
          | inr (moved, d) ↦ ground (
            arith,
            moved_price-le (Window.sum m (next_window m w consumed since)) price target denom since
                moved h d,
            length-next_window w consumed since size,
          )
        ]
