-- ===== src/Fees/Manager/Next.antt =====
-- ComputeNext prices each dimension by itself, and starts the next block with nothing consumed.
use Prim.Native.Nat.{max}
use mathlib.Core.Path.{ap₂}
use haven_claw.Prelude.{
  ℕ, zero, suc, ◌+◌, ◌^◌, ◌<◌, ◌≤◌, ◌≡◌, ◌≢◌, refl, ap, ◌∙◌, inl, inr, some, arith, nat_beq, length,
  drop, length-take, length-drop, sym, Bool-cases,
}
use haven_claw.Prelude.Words.{max_uint64, div_int64, sub_wrap}
use haven_claw.Bytes.{
  Bytes, uint64_at, put_uint64, splice, uint64_at-put_uint64, uint64_at-put_other, slice-put_uint64,
  length-put_uint64, length-splice, slice-splice, slice-splice_self, uint64_at-splice, zeros-slice,
}
use haven_claw.SafeMath.{SafeMath, IsChecked}
use haven_claw.Fees.Dimensions.{at}
use haven_claw.Fees.Manager.{
  unit_price, window, last_consumed, start_of, raw_len, blank, Rules, next_window,
  compute_next_price_window, next_loop, compute_next,
}
use haven_claw.Fees.Manager.Price.{compute_next_price_window-Moves, compute_next_price_window-fits}

length-window : (raw : Bytes) (i : ℕ) → length raw ≡ raw_len → i < 5 → length (window i raw) ≡ 80
unfolding window
length-window raw i size h =
    omega (arith, length-take 80 (drop (start_of i + 8) raw), length-drop (start_of i + 8) raw)

-- One dimension of the next manager: what its price and window come from.
pub record Priced (m : SafeMath) (r : Rules) (since : ℕ) (raw raw' : Bytes) (j : ℕ) : Type 0 where
  pub priced :
      compute_next_price_window m
        (window j raw)
        (last_consumed j raw)
        (unit_price j raw)
        (at r.target_units j)
        (at r.change_denom j)
        (at r.min_unit_price j)
        since
      ≡ some (unit_price j raw', window j raw')

-- What a round leaves alone: the fields of another dimension.
pub record SameFields (raw raw' : Bytes) (j : ℕ) : Type 0 where
  pub price : unit_price j raw' ≡ unit_price j raw
  pub window : window j raw' ≡ window j raw
  pub consumed : last_consumed j raw' ≡ last_consumed j raw

abbrev written : ℕ → ℕ → Bytes → Bytes → Bytes
written i price w bytes = splice (start_of i + 8) w (put_uint64 (start_of i) price bytes)

module _ (i price : ℕ) (w bytes : Bytes) (hi : i < 5) (size : length bytes ≡ raw_len)
    (wide : length w ≡ 80) (fits : price ≤ max_uint64) where
  length-written : length (written i price w bytes) ≡ raw_len
  length-written =
      let inner = length-put_uint64 (start_of i) price bytes (omega arith) in
      length-splice (start_of i + 8) w (put_uint64 (start_of i) price bytes) (omega arith)
      ∙ inner
      ∙ size

  written-time : uint64_at 0 (written i price w bytes) ≡ uint64_at 0 bytes
  written-time =
      let inner = length-put_uint64 (start_of i) price bytes (omega arith) in
      uint64_at-splice (start_of i + 8) w _ 0 (omega arith) (omega arith)
      ∙ uint64_at-put_other (start_of i) price bytes 0 (omega arith) (omega arith)

  written-consumed :
      (j : ℕ) → j < 5 → last_consumed j (written i price w bytes) ≡ last_consumed j bytes
  unfolding last_consumed
  written-consumed j hj =
      let inner = length-put_uint64 (start_of i) price bytes (omega arith) in
      uint64_at-splice (start_of i + 8) w _ (start_of j + 8 + 80) (omega arith) (omega arith)
      ∙ uint64_at-put_other (start_of i) price bytes (start_of j + 8 + 80) (omega arith)
          (omega arith)

  written-here :
      (unit_price i (written i price w bytes) ≡ price) × (window i (written i price w bytes) ≡ w)
  unfolding unit_price window
  written-here =
      let inner = length-put_uint64 (start_of i) price bytes (omega arith) in
      (
        uint64_at-splice (start_of i + 8) w _ (start_of i) (omega arith) (omega arith)
            ∙ uint64_at-put_uint64 (start_of i) price bytes (omega arith) (omega arith),
        slice-splice_self (start_of i + 8) 80 w (put_uint64 (start_of i) price bytes) wide
            (omega arith),
      )

  written-elsewhere : (j : ℕ) → j < 5 → i ≢ j → SameFields bytes (written i price w bytes) j
  unfolding unit_price window
  written-elsewhere j hj ne =
      let inner = length-put_uint64 (start_of i) price bytes (omega arith) in
      record {
        price =
            uint64_at-splice (start_of i + 8) w _ (start_of j) (omega arith) (omega arith)
            ∙ uint64_at-put_other (start_of i) price bytes (start_of j) (omega arith) (omega arith);
        window =
            slice-splice (start_of i + 8) w _ (start_of j + 8) 80 (omega arith) (omega arith)
            ∙ slice-put_uint64 (start_of i) price bytes (start_of j + 8) 80 (omega arith)
                (omega arith);
        consumed = written-consumed j hj;
      }

module _ (m : SafeMath) (safe : IsChecked m) (r : Rules) (since : ℕ) (raw : Bytes)
    (size : length raw ≡ raw_len) (prices : (j : ℕ) → j < 5 → unit_price j raw ≤ max_uint64)
    (minima : (j : ℕ) → at r.min_unit_price j ≤ max_uint64)
    (targets : (j : ℕ) → j < 5 → 0 < at r.target_units j)
    (denoms : (j : ℕ) → j < 5 → 0 < at r.change_denom j) where
  -- The rounds from `i` price their dimensions, and leave the others as `bytes` has them.
  record Rounds (i n : ℕ) (bytes raw' : Bytes) : Type 0 where
    length_kept : length raw' ≡ raw_len
    time_kept : uint64_at 0 raw' ≡ uint64_at 0 bytes
    consumed_kept : (j : ℕ) → j < 5 → last_consumed j raw' ≡ last_consumed j bytes
    priced : (j : ℕ) → i ≤ j → j < i + n → Priced m r since raw raw' j
    before : (j : ℕ) → j < 5 → j < i → SameFields bytes raw' j

  next_loop-Rounds :
      (n i : ℕ) (bytes : Bytes)
      → length bytes ≡ raw_len
      → i + n ≤ 5
      → (raw' : Bytes) × (next_loop m n i r since raw bytes ≡ some raw') × Rounds i n bytes raw'
  unfolding next_loop
  next_loop-Rounds zero i bytes b h = (
    bytes,
    refl,
    record {
      length_kept = b;
      time_kept = refl;
      consumed_kept = λ j p. refl;
      priced = λ j p q. absurd (omega arith);
      before = λ j p q. record { price = refl; window = refl; consumed = refl };
    },
  )
  next_loop-Rounds (suc n) i bytes b h =
      let wide = length-window raw i size (omega arith) in
      let (moved, e, _) =
        compute_next_price_window-Moves m safe (window i raw) (last_consumed i raw)
          (unit_price i raw) (at r.target_units i) (at r.change_denom i) (at r.min_unit_price i)
          since (targets i (omega arith)) (denoms i (omega arith)) (prices i (omega arith)) in
      let price : ℕ = max moved (at r.min_unit_price i) in
      let w : Bytes = next_window m (window i raw) (last_consumed i raw) since in
      let (small, wide') =
        compute_next_price_window-fits m safe (window i raw) (last_consumed i raw)
          (unit_price i raw) (at r.target_units i) (at r.change_denom i) (at r.min_unit_price i)
          since price w wide (prices i (omega arith)) (minima i) e in
      let first = written-here i price w bytes (omega arith) b wide' small in
      let others = written-elsewhere i price w bytes (omega arith) b wide' small in
      let kept = written-consumed i price w bytes (omega arith) b wide' small in
      let (raw', done, rest) =
        next_loop-Rounds n (i + 1) (written i price w bytes)
          (length-written i price w bytes (omega arith) b wide' small) (omega arith) in
      let here = rest.before i (omega arith) (omega arith) in
      let mine : Priced m r since raw raw' i = record {
        priced =
            e
            ∙ ap some (
                ap₂ (λ (p : ℕ) (v : Bytes). (p, v)) (sym (here.price ∙ first.0))
                  (sym (here.window ∙ first.1)));
      } in
      (
        raw',
        ground (arith, e, done),
        record {
          length_kept = rest.length_kept;
          time_kept = rest.time_kept ∙ written-time i price w bytes (omega arith) b wide' small;
          consumed_kept = λ j p. rest.consumed_kept j p ∙ kept j p;
          priced = λ j p q. elim (Bool-cases (nat_beq i j)) [
            | inl same ↦ let eq : j ≡ i = ground arith in rw eq mine
            | inr other ↦ rest.priced j (ground arith) (omega arith)
          ];
          before = λ j p q.
              let a = rest.before j p (omega arith) in
              let c = others j p (omega arith) in
              record {
                price = a.price ∙ c.price;
                window = a.window ∙ c.window;
                consumed = a.consumed ∙ c.consumed;
              };
        },
      )

length-blank : length blank ≡ raw_len
unfolding blank
length-blank = refl

div_int64-lt : (a : ℕ) → div_int64 a 1000 < 2 ^ 64
div_int64-lt a = ground arith

unused : (seconds j : ℕ) → last_consumed j (put_uint64 0 seconds blank) ≡ 0
unfolding last_consumed
unused seconds j =
    uint64_at-put_other 0 seconds blank (start_of j + 8 + 80) (omega (arith, length-blank))
      (inr (omega arith))
    ∙ zero_at (start_of j + 8 + 80)
  where
    zero_at : (o : ℕ) → uint64_at o blank ≡ 0
    zero_at o = unfold uint64_at blank in zeros-slice 488 o 8

-- A manager of the full length has a next one whenever the rules have no zero target and no zero
-- denominator, which would panic: it carries the new time in seconds, every dimension's price and
-- window come from that dimension's price, window, units consumed and rules and the seconds gone,
-- and nothing is consumed yet.
pub compute_next-prices :
    (m : SafeMath) (safe : IsChecked m) (r : Rules) (curr_time : ℕ) (raw : Bytes)
    → length raw ≡ raw_len
    → ((j : ℕ) → j < 5 → unit_price j raw ≤ max_uint64)
    → ((j : ℕ) → at r.min_unit_price j ≤ max_uint64)
    → ((j : ℕ) → j < 5 → 0 < at r.target_units j)
    → ((j : ℕ) → j < 5 → 0 < at r.change_denom j)
    → (raw' : Bytes) × (compute_next m curr_time r raw ≡ some raw')
      × (length raw' ≡ raw_len)
      × (uint64_at 0 raw' ≡ div_int64 curr_time 1000)
      × ((j : ℕ)
          → j < 5
          → Priced m r (sub_wrap (div_int64 curr_time 1000) (uint64_at 0 raw)) raw raw' j
            × (last_consumed j raw' ≡ 0))
unfolding compute_next
compute_next-prices m safe r curr_time raw size prices minima targets denoms =
    let seconds : ℕ = div_int64 curr_time 1000 in
    let since : ℕ = sub_wrap seconds (uint64_at 0 raw) in
    let start : Bytes = put_uint64 0 seconds blank in
    let long : length start ≡ raw_len =
      length-put_uint64 0 seconds blank (omega (arith, length-blank)) ∙ length-blank in
    let (raw', done, rounds) =
      next_loop-Rounds m safe r since raw size prices minima targets denoms 5 0 start long
        (omega arith) in
    (
      raw',
      done,
      rounds.length_kept,
      rounds.time_kept
          ∙ uint64_at-put_uint64 0 seconds blank (div_int64-lt curr_time)
              (omega (arith, length-blank)),
      λ j p. (
        rounds.priced j (omega arith) (omega arith),
        rounds.consumed_kept j p ∙ unused seconds j,
      ),
    )
