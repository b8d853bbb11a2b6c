-- ===== src/Balances/Handler/Laws.antt =====
-- What Deduct and AddBalance do to the balances that GetBalance returns.
use haven_claw.Prelude.{
  ℕ, ◌+◌, ◌-◌, ◌≤◌, ◌<◌, ◌≡◌, refl, ap, ◌∙◌, ◌⊎◌, ◌↔◌, inl, inr, none, some, Option-cases,
  Bool-cases, arith, ltb, leb, if◌then◌else◌, bytes_comparable,
}
use haven_claw.Prelude.Words.{max_uint64}
use haven_claw.Bytes.{Bytes}
use haven_claw.SafeMath.{SafeMath, IsChecked}
use haven_claw.TState.{
  invalid_key_or_permission, invalid_key_value, not_found, storage_error, Result, ok, err,
}
use haven_claw.Mutable.{Mutable, IsStore, Readable, SameElsewhere}
use haven_claw.Balances.{state_error-none, overflow, insufficient_balance, Uint64Codec, IsBigEndian}
use haven_claw.Balances.Handler.{
  balance_key, known_balance, get_balance, can_deduct, put_balance, deduct_parsed, deduct_known,
  deduct, add_to, add_balance,
}

module _ {S : Type 0} (m : Mutable S) (c : Uint64Codec) (big : IsBigEndian c) where
  -- Where a balance is known, its key may be read and the balance is a uint64.
  pub known_balance-Readable :
      (s : S) (key : Bytes) (b : ℕ)
      → known_balance c (m.get_value s key) ≡ (b, none)
      → Readable m s key × (b ≤ max_uint64)
  known_balance-Readable s key b h = go (m.get_value s key) refl h
    where
      go :
          (r : Result Bytes)
          → m.get_value s key ≡ r
          → known_balance c r ≡ (b, none)
          → Readable m s key × (b ≤ max_uint64)
      go (ok value) e h = elim (Option-cases (c.parse value)) [
        | inl bad ↦ ground arith
        | inr (n, good) ↦ (inl (value, e), ground (arith, big.parse_bound value n good))
      ]
      go (err not_found) e h = (inr e, ground arith)
      go (err invalid_key_or_permission) e h = ground arith
      go (err invalid_key_value) e h = ground arith
      go (err (storage_error code)) e h = ground arith

  module _ (sm : SafeMath) (prefix : Bytes) where
    deduct-cases :
        (s : S) (addr : Bytes) (b amount : ℕ)
        → get_balance m c sm prefix s addr ≡ (b, none)
        → (b ≡ 0) × (deduct m c sm prefix s addr amount ≡ (s, some insufficient_balance))
          ⊎ (deduct m c sm prefix s addr amount ≡ (
              if ltb b amount
              then (s, some insufficient_balance)
              else put_balance m c sm prefix s (balance_key prefix addr) (b - amount)))
    unfolding get_balance deduct
    deduct-cases s addr b amount h = go (m.get_value s (balance_key prefix addr)) h
      where
        go :
            (r : Result Bytes)
            → known_balance c r ≡ (b, none)
            → (b ≡ 0)
                × (deduct_known m c sm prefix s (balance_key prefix addr) amount r
                    ≡ (s, some insufficient_balance))
              ⊎ (deduct_known m c sm prefix s (balance_key prefix addr) amount r ≡ (
                  if ltb b amount
                  then (s, some insufficient_balance)
                  else put_balance m c sm prefix s (balance_key prefix addr) (b - amount)))
        go (ok value) h = elim (Option-cases (c.parse value)) [
          | inl bad ↦ ground arith
          | inr (n, good) ↦ inr (
              rw good (
                ap (λ k. deduct_parsed m c sm prefix s (balance_key prefix addr) amount (some k))
                  (ground arith)))
        ]
        go (err not_found) h = ground arith
        go (err invalid_key_or_permission) h = ground arith
        go (err invalid_key_value) h = ground arith
        go (err (storage_error code)) h = ground arith

    add_balance-known :
        IsChecked sm
        → (s : S) (addr : Bytes) (b amount : ℕ) → get_balance m c sm prefix s addr ≡ (b, none)
        → add_balance m c sm prefix s addr amount ≡ (
            if leb (b + amount) max_uint64
            then put_balance m c sm prefix s (balance_key prefix addr) (b + amount)
            else (s, some overflow))
    unfolding get_balance add_balance
    add_balance-known law s addr b amount h =
        let e : add_to m c sm prefix s (balance_key prefix addr) amount (b, none) ≡ (
            if leb (b + amount) max_uint64
            then put_balance m c sm prefix s (balance_key prefix addr) (b + amount)
            else (s, some overflow)) =
          ground (arith, law.add_lem b amount) in
        ap (add_to m c sm prefix s (balance_key prefix addr) amount) h ∙ e

    absent_refused :
        (s : S) (addr : Bytes) (b amount : ℕ)
        → get_balance m c sm prefix s addr ≡ (b, none)
        → m.get_value s (balance_key prefix addr) ≡ err not_found
        → (b ≡ 0) × (deduct m c sm prefix s addr amount ≡ (s, some insufficient_balance))
    unfolding get_balance deduct
    absent_refused s addr b amount h absent = (ground arith, rw absent refl)

    -- The errors that depend on the amount: CanDeduct refuses exactly more than the balance, and
    -- then Deduct returns the same error; where the key has no value Deduct refuses every amount,
    -- also 0, which CanDeduct lets pass; AddBalance refuses a sum that is no uint64. No refusal
    -- changes the state.
    pub balance_errors :
        IsChecked sm
        → (s : S) (addr : Bytes) (b amount : ℕ) → get_balance m c sm prefix s addr ≡ (b, none)
        → ((can_deduct m c sm prefix (m.get_value s) addr amount ≡ none) ↔ (amount ≤ b))
          × (b < amount
              → (can_deduct m c sm prefix (m.get_value s) addr amount ≡ some insufficient_balance)
                × (deduct m c sm prefix s addr amount ≡ (s, some insufficient_balance)))
          × (m.get_value s (balance_key prefix addr) ≡ err not_found
              → (b ≡ 0) × (deduct m c sm prefix s addr amount ≡ (s, some insufficient_balance)))
          × (max_uint64 < b + amount → add_balance m c sm prefix s addr amount ≡ (s, some overflow))
    unfolding can_deduct get_balance
    balance_errors law s addr b amount h = (
      ground (arith, h),
      λ short. (
        ground (arith, h),
        elim (deduct-cases s addr b amount h) [
          | inl (zero_balance, refused) ↦ refused
          | inr e ↦ ground (arith, e)
        ],
      ),
      λ absent. absent_refused s addr b amount h absent,
      λ big_sum. ground (arith, add_balance-known law s addr b amount h),
    )

  module _ (sm : SafeMath) (prefix : Bytes) (store : IsStore m) where
    -- The key holds the balance, and the others hold what they did.
    abbrev pub Credits : S → S → Bytes → ℕ → Type 0
    Credits s t addr balance =
        (get_balance m c sm prefix t addr ≡ (balance, none))
        × SameElsewhere m s t (balance_key prefix addr)

    known :
        (s : S) (addr : Bytes) (b : ℕ)
        → get_balance m c sm prefix s addr ≡ (b, none)
        → Readable m s (balance_key prefix addr) × (b ≤ max_uint64)
    unfolding get_balance
    known s addr b h = known_balance-Readable s (balance_key prefix addr) b h

    put_balance-Credits :
        (s : S) (addr : Bytes) (n : ℕ)
        → Readable m s (balance_key prefix addr)
        → n ≤ max_uint64
        → (put_balance m c sm prefix s (balance_key prefix addr) n).1 ≡ none
        → Credits s (put_balance m c sm prefix s (balance_key prefix addr) n).0 addr n
    unfolding get_balance
    put_balance-Credits s addr n readable bound h =
        let done = state_error-none _ h in
        let key = balance_key prefix addr in
        (
          ground (
            arith,
            store.insert_same s key (c.pack n) readable done,
            big.pack_lem n,
            big.parse_lem n bound,
          ),
          store.insert_other s key (c.pack n) done,
        )

    -- A Deduct that returns no error took the amount from a balance that had it, and wrote nothing
    -- else.
    pub deduct-Credits :
        (s : S) (addr : Bytes) (b amount : ℕ)
        → get_balance m c sm prefix s addr ≡ (b, none)
        → (deduct m c sm prefix s addr amount).1 ≡ none
        → (amount ≤ b) × Credits s (deduct m c sm prefix s addr amount).0 addr (b - amount)
    deduct-Credits s addr b amount h done =
        let (readable, bound) = known s addr b h in
        elim (deduct-cases sm prefix s addr b amount h) [
          | inl (zero_balance, refused) ↦ absurd (ground arith)
          | inr e ↦ elim (Bool-cases (ltb b amount)) [
            | inl short ↦ absurd (ground arith)
            | inr enough ↦
                rw (e, enough)
                  (
                    ground (arith, enough),
                    put_balance-Credits s addr (b - amount) readable (omega arith)
                        (rw (e, enough) at done),
                  )
          ]
        ]

    -- An AddBalance that returns no error added the amount, which fits, and wrote nothing else.
    pub add_balance-Credits :
        IsChecked sm
        → (s : S) (addr : Bytes) (b amount : ℕ) → get_balance m c sm prefix s addr ≡ (b, none)
        → (add_balance m c sm prefix s addr amount).1 ≡ none
        → (b + amount ≤ max_uint64)
          × Credits s (add_balance m c sm prefix s addr amount).0 addr (b + amount)
    add_balance-Credits law s addr b amount h done =
        let (readable, bound) = known s addr b h in
        let e = add_balance-known sm prefix law s addr b amount h in
        elim (Bool-cases (leb (b + amount) max_uint64)) [
          | inl fits ↦
              rw (e, fits)
                (
                  ground (arith, fits),
                  put_balance-Credits s addr (b + amount) readable (ground (arith, fits))
                      (rw (e, fits) at done),
                )
          | inr too_big ↦ absurd (ground arith)
        ]
