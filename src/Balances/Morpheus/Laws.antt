-- ===== src/Balances/Morpheus/Laws.antt =====
-- What SetBalance, AddBalance and SubBalance do to the balances that GetBalance returns.
use haven_claw.Prelude.{
  ℕ, ◌+◌, ◌-◌, ◌≤◌, ◌≡◌, refl, ap, ◌∙◌, Bool, true, false, inl, inr, ◌⊎◌, none, some, Option-cases,
  Bool-cases, arith, leb, nat_beq, if◌then◌else◌,
}
use haven_claw.Prelude.Words.{max_uint64}
use haven_claw.Bytes.{Bytes, to_be}
use haven_claw.SafeMath.{SafeMath, IsChecked}
use haven_claw.TState.{
  invalid_key_or_permission, invalid_key_value, not_found, storage_error, Result, ok, err,
}
use haven_claw.Mutable.{Mutable, IsStore, Removes, Readable, SameElsewhere}
use haven_claw.Balances.{state_error-none, invalid_balance, Uint64Codec, IsBigEndian}
use haven_claw.Balances.Morpheus.{
  balance_key, inner_get_balance, get_balance, set_balance_at, remove_balance_at, returning,
  add_known, add_balance, sub_rest, sub_known, sub_balance,
}

module _ {S : Type 0} (m : Mutable S) (c : Uint64Codec) (big : IsBigEndian c) (sm : SafeMath) where
  -- Where GetBalance returns no error, the key may be read, and getBalance says if it exists.
  pub get_balance-known :
      (s : S) (addr : Bytes) (b : ℕ)
      → get_balance m c sm s addr ≡ (b, none)
      → Readable m s (balance_key addr)
        × (b ≤ max_uint64)
        × ((inner_get_balance c (m.get_value s (balance_key addr)) ≡ (b, true, none))
            ⊎ (inner_get_balance c (m.get_value s (balance_key addr)) ≡ (b, false, none)))
  unfolding get_balance
  get_balance-known s addr b h =
      go (m.get_value s (balance_key addr)) refl (ap (λ p. p.0) h) (ap (λ p. p.1) h)
    where
      go :
          (r : Result Bytes)
          → m.get_value s (balance_key addr) ≡ r
          → (inner_get_balance c r).0 ≡ b
          → (inner_get_balance c r).2 ≡ none
          → Readable m s (balance_key addr)
            × (b ≤ max_uint64)
            × ((inner_get_balance c r ≡ (b, true, none))
                ⊎ (inner_get_balance c r ≡ (b, false, none)))
      go (ok value) e h n = elim (Option-cases (c.parse value)) [
        | inl bad ↦ ground arith
        | inr (k, good) ↦
            (inl (value, e), ground (arith, big.parse_bound value k good), inl (ground arith))
      ]
      go (err not_found) e h n = (inr e, ground arith, inr (ground arith))
      go (err invalid_key_or_permission) e h n = ground arith
      go (err invalid_key_value) e h n = ground arith
      go (err (storage_error code)) e h n = ground arith

  pub add_balance-known :
      IsChecked sm
      → (s : S) (addr : Bytes) (b amount : ℕ) → get_balance m c sm s addr ≡ (b, none)
      → add_balance m c sm s addr amount ≡ (
          if leb (b + amount) max_uint64
          then returning m c sm
              (b + amount)
              (set_balance_at m c sm s (balance_key addr) (b + amount))
          else (s, 0, some invalid_balance))
  unfolding add_balance
  add_balance-known law s addr b amount h = elim (get_balance-known s addr b h).2 [
    | inl e ↦ ap (add_known m c sm s (balance_key addr) amount) e ∙ total true
    | inr e ↦ ap (add_known m c sm s (balance_key addr) amount) e ∙ total false
  ]
    where
      total :
          (exists : Bool)
          → add_known m c sm s (balance_key addr) amount (b, exists, none) ≡ (
              if leb (b + amount) max_uint64
              then returning m c sm
                  (b + amount)
                  (set_balance_at m c sm s (balance_key addr) (b + amount))
              else (s, 0, some invalid_balance))
      total exists = ground (arith, law.add_lem b amount)

  -- SubBalance on an account that does not exist, and on one that does.
  pub sub_balance-known :
      IsChecked sm
      → (s : S) (addr : Bytes) (b amount : ℕ) → get_balance m c sm s addr ≡ (b, none)
      → (sub_balance m c sm s addr amount ≡ (s, 0, some invalid_balance))
        ⊎ (sub_balance m c sm s addr amount ≡ (
            if leb amount b
            then sub_rest m c sm s (balance_key addr) (some (b - amount))
            else (s, 0, some invalid_balance)))
  unfolding sub_balance
  sub_balance-known law s addr b amount h = elim (get_balance-known s addr b h).2 [
    | inl e ↦ inr (ap (sub_known m c sm s (balance_key addr) amount) e ∙ rest)
    | inr e ↦ inl (ap (sub_known m c sm s (balance_key addr) amount) e)
  ]
    where
      rest : sub_rest m c sm s (balance_key addr) (sm.sub b amount) ≡ (
          if leb amount b
          then sub_rest m c sm s (balance_key addr) (some (b - amount))
          else (s, 0, some invalid_balance))
      rest = ground (arith, law.sub_lem b amount)

  module _ (store : IsStore m) where
    -- The account has the balance, and every other key holds what it did.
    abbrev pub Leaves : S → S → Bytes → ℕ → Type 0
    Leaves s t addr balance =
        (get_balance m c sm t addr ≡ (balance, none)) × SameElsewhere m s t (balance_key addr)

    set_balance_at-Leaves :
        (s : S) (addr : Bytes) (n : ℕ)
        → Readable m s (balance_key addr)
        → n ≤ max_uint64
        → (set_balance_at m c sm s (balance_key addr) n).1 ≡ none
        → Leaves s (set_balance_at m c sm s (balance_key addr) n).0 addr n
    unfolding get_balance
    set_balance_at-Leaves s addr n readable bound h =
        let done = state_error-none _ h in
        let key = balance_key addr in
        (
          ground (arith, store.insert_same s key (to_be 8 n) readable done, big.parse_lem n bound),
          store.insert_other s key (to_be 8 n) done,
        )

    remove_balance_at-Leaves :
        (s : S) (addr : Bytes)
        → Removes m s (balance_key addr)
        → Readable m s (balance_key addr)
        → (remove_balance_at m c sm s (balance_key addr)).1 ≡ none
        → Leaves s (remove_balance_at m c sm s (balance_key addr)).0 addr 0
    unfolding get_balance
    remove_balance_at-Leaves s addr removes readable h =
        let done = state_error-none _ h in
        let key = balance_key addr in
        (ground (arith, removes readable done), store.remove_other s key done)

    -- An AddBalance that returns no error returns the sum, which fits, and stores it.
    pub add_balance-Leaves :
        IsChecked sm
        → (s : S) (addr : Bytes) (b amount : ℕ) → get_balance m c sm s addr ≡ (b, none)
        → (add_balance m c sm s addr amount).2 ≡ none
        → (b + amount ≤ max_uint64)
          × ((add_balance m c sm s addr amount).1 ≡ b + amount)
          × Leaves s (add_balance m c sm s addr amount).0 addr (b + amount)
    add_balance-Leaves law s addr b amount h done =
        let (readable, bound, found) = get_balance-known s addr b h in
        let e = add_balance-known law s addr b amount h in
        elim (Bool-cases (leb (b + amount) max_uint64)) [
          | inl fits ↦
              rw (e, fits)
                (
                  ground (arith, fits),
                  refl,
                  set_balance_at-Leaves s addr (b + amount) readable (ground (arith, fits))
                      (rw (e, fits) at done),
                )
          | inr too_big ↦ absurd (ground arith)
        ]

    sub_rest-Leaves :
        (s : S) (addr : Bytes) (n : ℕ)
        → Removes m s (balance_key addr)
        → Readable m s (balance_key addr)
        → n ≤ max_uint64
        → (sub_rest m c sm s (balance_key addr) (some n)).2 ≡ none
        → ((sub_rest m c sm s (balance_key addr) (some n)).1 ≡ n)
          × Leaves s (sub_rest m c sm s (balance_key addr) (some n)).0 addr n
    sub_rest-Leaves s addr n removes readable bound done = elim (Bool-cases (nat_beq n 0)) [
      | inl e ↦
          let is_zero : n ≡ 0 = ground (arith, e) in
          rw is_zero (refl, remove_balance_at-Leaves s addr removes readable (rw is_zero at done))
      | inr e ↦ rw e (refl, set_balance_at-Leaves s addr n readable bound (rw e at done))
    ]

    -- A SubBalance that returns no error returns the rest of a balance that had the amount, and
    -- stores it, or removes the key where nothing is left.
    pub sub_balance-Leaves :
        IsChecked sm
        → (s : S) (addr : Bytes) (b amount : ℕ) → Removes m s (balance_key addr)
        → get_balance m c sm s addr ≡ (b, none)
        → (sub_balance m c sm s addr amount).2 ≡ none
        → (amount ≤ b)
          × ((sub_balance m c sm s addr amount).1 ≡ b - amount)
          × Leaves s (sub_balance m c sm s addr amount).0 addr (b - amount)
    sub_balance-Leaves law s addr b amount removes h done =
        let (readable, bound, found) = get_balance-known s addr b h in
        elim (sub_balance-known law s addr b amount h) [
          | inl e ↦ absurd (ground arith)
          | inr e ↦ elim (Bool-cases (leb amount b)) [
            | inl enough ↦
                rw (e, enough)
                  (let (value, left) =
                      sub_rest-Leaves s addr (b - amount) removes readable (omega arith)
                        (rw (e, enough) at done) in
                    (ground (arith, enough), value, left))
            | inr short ↦ absurd (ground arith)
          ]
        ]
