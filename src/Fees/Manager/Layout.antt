-- ===== src/Fees/Manager/Layout.antt =====
-- The fields of a manager's bytes do not overlap.
use haven_claw.Prelude.{ℕ, ◌+◌, ◌^◌, ◌<◌, ◌≡◌, ◌∙◌, arith, nat_beq, if◌then◌else◌, length}
use haven_claw.Bytes.{
  Bytes, uint64_at, uint64_at-put_uint64, uint64_at-put_other, slice-put_uint64, length-put_uint64,
}
use haven_claw.Fees.Manager.{
  unit_price, window, last_consumed, set_last_consumed, start_of, raw_len,
}

-- The other fields of all the dimensions, and the timestamp.
pub record SamePrices (raw raw' : Bytes) : Type 0 where
  pub size : length raw' ≡ length raw
  pub time : uint64_at 0 raw' ≡ uint64_at 0 raw
  pub prices : (j : ℕ) → j < 5 → unit_price j raw' ≡ unit_price j raw
  pub windows : (j : ℕ) → j < 5 → window j raw' ≡ window j raw

pub SamePrices-trans : {a b c : Bytes} → SamePrices a b → SamePrices b c → SamePrices a c
SamePrices-trans p q = record {
  size = q.size ∙ p.size;
  time = q.time ∙ p.time;
  prices = λ j h. q.prices j h ∙ p.prices j h;
  windows = λ j h. q.windows j h ∙ p.windows j h;
}

module _ (raw : Bytes) (size : length raw ≡ raw_len) (i v : ℕ) (hi : i < 5) where
  pub set_last_consumed-SamePrices : SamePrices raw (set_last_consumed i v raw)
  unfolding set_last_consumed unit_price window
  set_last_consumed-SamePrices = record {
    size = length-put_uint64 (start_of i + 8 + 80) v raw (omega arith);
    time = uint64_at-put_other (start_of i + 8 + 80) v raw 0 (omega arith) (omega arith);
    prices = λ j h.
        uint64_at-put_other (start_of i + 8 + 80) v raw (start_of j) (omega arith) (omega arith);
    windows = λ j h.
        slice-put_uint64 (start_of i + 8 + 80) v raw (start_of j + 8) 80 (omega arith)
          (omega arith);
  }

  -- Setting the units consumed in one dimension sets just these.
  pub last_consumed-set :
      (j : ℕ)
      → v < 2 ^ 64
      → last_consumed j (set_last_consumed i v raw)
        ≡ (if nat_beq i j then v else last_consumed j raw)
  unfolding set_last_consumed last_consumed
  last_consumed-set j h = ground (
    arith,
    uint64_at-put_uint64 (start_of i + 8 + 80) v raw h (omega arith),
    uint64_at-put_other (start_of i + 8 + 80) v raw (start_of j + 8 + 80) (omega arith),
  )
