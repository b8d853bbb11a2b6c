-- ===== src/Fees/Manager/Consume.antt =====
-- Consume is all or nothing, and Fee is exact.
use haven_claw.Prelude.{
  ℕ, zero, suc, ◌+◌, ◌*◌, ◌<◌, ◌≤◌, ◌≡◌, ◌↔◌, refl, ◌∙◌, ◌⊎◌, inl, inr, true, false, none, some,
  arith, leb, ltb, if◌then◌else◌, length, Option-cases,
}
use haven_claw.Prelude.Words.{max_uint64}
use haven_claw.Bytes.{Bytes}
use haven_claw.SafeMath.{SafeMath, IsChecked}
use haven_claw.Fees.Dimensions.{Dimensions, at}
use haven_claw.Fees.Manager.{
  unit_price, last_consumed, set_last_consumed, check_loop, commit_loop, consume, fee_loop, fee,
  raw_len,
}
use haven_claw.Fees.Manager.Layout.{
  SamePrices, SamePrices-trans, set_last_consumed-SamePrices, last_consumed-set,
}

-- The exact fee over `n` dimensions from `i`.
abbrev pub cost_from : ℕ → ℕ → Dimensions → Bytes → ℕ
cost_from zero i d raw = 0
cost_from (suc n) i d raw = unit_price i raw * at d i + cost_from n (i + 1) d raw

-- Every dimension has room for the units.
abbrev pub HasRoom : Dimensions → Dimensions → Bytes → Type 0
HasRoom d l raw = (j : ℕ) → j < 5 → last_consumed j raw + at d j ≤ at l j

-- The units of every dimension were added, and nothing else changed.
pub record Consumed (d : Dimensions) (raw raw' : Bytes) : Type 0 where
  pub same : SamePrices raw raw'
  pub added : (j : ℕ) → j < 5 → last_consumed j raw' ≡ last_consumed j raw + at d j

module _ (m : SafeMath) (safe : IsChecked m) where
  check_loop_iff :
      (n i : ℕ) (d l : Dimensions) (raw : Bytes)
      → ((j : ℕ) → at l j ≤ max_uint64)
      → (check_loop m n i d l raw ≡ none)
        ↔ ((j : ℕ) → i ≤ j → j < i + n → last_consumed j raw + at d j ≤ at l j)
  unfolding check_loop
  check_loop_iff zero i d l raw h = (λ e j p q. absurd (omega arith), λ f. refl)
  check_loop_iff (suc n) i d l raw h =
      let ih = check_loop_iff n (i + 1) d l raw h in
      let law = safe.add_lem (last_consumed i raw) (at d i) in
      (
        λ e j p q.
            ground (arith, law, h i, λ (t : check_loop m n (i + 1) d l raw ≡ none). ih.0 t j),
        λ f. ground (arith, law, h i, f i, ih.1 (λ j p q. f j (omega arith) (omega arith))),
      )

  check_loop-some :
      (n i : ℕ) (d l : Dimensions) (raw : Bytes) (k : ℕ)
      → check_loop m n i d l raw ≡ some k
      → (i ≤ k)
        × (k < i + n)
        × ((max_uint64 < last_consumed k raw + at d k) ⊎ (at l k < last_consumed k raw + at d k))
  unfolding check_loop
  check_loop-some zero i d l raw k e = cc
  check_loop-some (suc n) i d l raw k e =
      ground
        (arith, safe.add_lem (last_consumed i raw) (at d i), check_loop-some n (i + 1) d l raw k)

  commit_loop-adds :
      (n i : ℕ) (d : Dimensions) (raw : Bytes)
      → length raw ≡ raw_len
      → i + n ≤ 5
      → ((j : ℕ) → j < 5 → i ≤ j → last_consumed j raw + at d j ≤ max_uint64)
      → (raw' : Bytes) × (commit_loop m n i d raw ≡ (raw', true, 0))
        × SamePrices raw raw'
        × ((j : ℕ)
            → j < 5
            → last_consumed j raw' ≡ (
                if leb i j
                then (if ltb j (i + n) then last_consumed j raw + at d j else last_consumed j raw)
                else last_consumed j raw))
  unfolding commit_loop
  commit_loop-adds zero i d raw size h f = (
    raw,
    refl,
    record { size = refl; time = refl; prices = λ j p. refl; windows = λ j p. refl },
    λ j p. ground arith,
  )
  commit_loop-adds (suc n) i d raw size h f =
      let v = last_consumed i raw + at d i in
      let small : v ≤ max_uint64 = f i (omega arith) (omega arith) in
      let fits : m.add (last_consumed i raw) (at d i) ≡ some v =
        ground (arith, safe.add_lem (last_consumed i raw) (at d i)) in
      let raw1 = set_last_consumed i v raw in
      let same1 = set_last_consumed-SamePrices raw size i v (omega arith) in
      let at1 = λ (j : ℕ). last_consumed-set raw size i v (omega arith) j (omega arith) in
      let (raw2, e, same2, added) =
        commit_loop-adds n (i + 1) d raw1 (same1.size ∙ size) (omega arith)
          (λ j p q. ground (arith, at1 j, f j)) in
      (
        raw2,
        ground (arith, fits, e),
        SamePrices-trans same1 same2,
        λ j p. ground (arith, added j, at1 j),
      )

  -- Consume succeeds exactly when every dimension has room for its units under its limit; it then
  -- adds the units in all five dimensions and changes no price, no window and not the time. When it
  -- fails it changes nothing, and names a dimension that has no room.
  pub consume-atomic :
      (d l : Dimensions) (raw : Bytes)
      → length raw ≡ raw_len
      → ((j : ℕ) → at l j ≤ max_uint64)
      → ((HasRoom d l raw → ((consume m d l raw).1 ≡ true) × Consumed d raw (consume m d l raw).0))
        × (((consume m d l raw).1 ≡ true) → HasRoom d l raw)
        × ((consume m d l raw).1 ≡ false
            → ((consume m d l raw).0 ≡ raw)
              × ((consume m d l raw).2 < 5)
              × (at l (consume m d l raw).2
                  < last_consumed (consume m d l raw).2 raw + at d (consume m d l raw).2))
  unfolding consume
  consume-atomic d l raw size h = elim (Option-cases (check_loop m 5 0 d l raw)) [
    | inl e ↦
        let room : HasRoom d l raw =
          λ j p. (check_loop_iff 5 0 d l raw h).0 e j (omega arith) (omega arith) in
        let (raw', done, same, added) =
          commit_loop-adds 5 0 d raw size (omega arith) (λ j p q. ground (arith, room j, h j)) in
        rw (e, done, consume)
          (
            λ r. (refl, record { same = same; added = λ j p. ground (arith, added j) }),
            λ t. room,
            λ t. cc,
          )
    | inr (k, e) ↦
        let (low, high, over) = check_loop-some 5 0 d l raw k e in
        rw (e, consume)
          (
            λ room. absurd (ground (arith, room k, h k)),
            λ t. cc,
            λ t. (refl, omega arith, ground (arith, h k)),
          )
  ]

  fee_loop-cost :
      (n i : ℕ) (d : Dimensions) (raw : Bytes) (acc : ℕ)
      → acc ≤ max_uint64
      → fee_loop m n i d raw acc ≡ (
          if leb (acc + cost_from n i d raw) max_uint64
          then some (acc + cost_from n i d raw)
          else none)
  unfolding fee_loop
  fee_loop-cost zero i d raw acc h = ground arith
  fee_loop-cost (suc n) i d raw acc h = ground (
    arith,
    safe.mul_lem (unit_price i raw) (at d i),
    safe.add_lem (unit_price i raw * at d i) acc,
    fee_loop-cost n (i + 1) d raw (unit_price i raw * at d i + acc),
  )

  -- Fee is the exact sum of price times units over the five dimensions if that fits a uint64, and an
  -- error otherwise.
  pub fee-cost :
      (d : Dimensions) (raw : Bytes)
      → fee m d raw
        ≡ (if leb (cost_from 5 0 d raw) max_uint64 then some (cost_from 5 0 d raw) else none)
  unfolding fee
  fee-cost d raw =
      let zero_left : 0 + cost_from 5 0 d raw ≡ cost_from 5 0 d raw = omega arith in
      rw (← zero_left) (fee_loop-cost 5 0 d raw 0 (omega arith))
