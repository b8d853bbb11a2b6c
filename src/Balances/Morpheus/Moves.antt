-- ===== src/Balances/Morpheus/Moves.antt =====
-- What a transfer does to the balances of its two accounts.
use haven_claw.Prelude.{
  ℕ, ◌+◌, ◌-◌, ◌≤◌, ◌<◌, ◌≡◌, ◌≢◌, refl, sym, ap, ◌∙◌, false, inl, inr, Option, none, some,
  Bool-cases, arith, ltb, nat_beq, ◌==◌, bytes_comparable, bytes_beq_iff, length, take, take-append,
  ◌∷◌, [],
}
use haven_claw.Prelude.Words.{max_uint64}
use haven_claw.Bytes.{Bytes, to_be}
use haven_claw.SafeMath.{SafeMath, IsChecked}
use haven_claw.Mutable.{Mutable, IsStore, Removes, SameElsewhere}
use haven_claw.Balances.{
  Failure, invalid_balance, value_zero, memo_too_large, Uint64Codec, IsBigEndian,
}
use haven_claw.Balances.Morpheus.{
  balance_key, get_balance, add_balance, sub_balance, Transfer, max_memo_size, execute_transfer,
  sent, received,
}
use haven_claw.Balances.Morpheus.Laws.{add_balance-Leaves, sub_balance-Leaves, sub_balance-known}

-- codec.AddressLen
abbrev address_len : ℕ
address_len = 33

pub balance_key-injective :
    (a b : Bytes) → length a ≡ length b → balance_key a ≡ balance_key b → a ≡ b
balance_key-injective a b same e =
    let tails = ap (λ k. take (length a) (drop_prefix k)) e in
    sym (take-append a (to_be 2 1) (length a) refl)
    ∙ tails
    ∙ take-append b (to_be 2 1) (length a) (sym same)
  where
    drop_prefix : Bytes → Bytes
    drop_prefix [] = []
    drop_prefix (x ∷ rest) = rest

balance_key-differ :
    (a b : Bytes) → length a ≡ length b → a ≢ b → (balance_key a == balance_key b) ≡ false
balance_key-differ a b same ne = elim (Bool-cases (balance_key a == balance_key b)) [
  | inl e ↦ absurd (ne (balance_key-injective a b same ((bytes_beq_iff _ _).0 e)))
  | inr e ↦ e
]

module _ {S : Type 0} (m : Mutable S) (c : Uint64Codec) (sm : SafeMath) (law : IsChecked sm)
    (big : IsBigEndian c) where
  untouched :
      (s t : S) (k addr : Bytes)
      → (k == balance_key addr) ≡ false
      → SameElsewhere m s t k
      → get_balance m c sm t addr ≡ get_balance m c sm s addr
  unfolding get_balance
  untouched s t k addr ne same = rw (same (balance_key addr) ne) refl

  -- Execute refuses a transfer of nothing, one with a long memo, and one of more than the actor
  -- has, each with its error, no result, and the state as it was.
  pub execute_transfer-refuses :
      (t : Transfer) (s : S) (actor : Bytes) (a : ℕ)
      → get_balance m c sm s actor ≡ (a, none)
      → (t.value ≡ 0 → execute_transfer m c sm t s actor ≡ (s, none, some value_zero))
        × (0 < t.value
            → max_memo_size < length t.memo
            → execute_transfer m c sm t s actor ≡ (s, none, some memo_too_large))
        × (length t.memo ≤ max_memo_size
            → a < t.value
            → execute_transfer m c sm t s actor ≡ (s, none, some invalid_balance))
  unfolding execute_transfer
  execute_transfer-refuses t s actor a h = (
    λ nothing. ground arith,
    λ some_value long. ground arith,
    λ short poor. elim (sub_balance-known m c big sm law s actor a t.value h) [
      | inl e ↦ ground (arith, e)
      | inr e ↦ ground (arith, e)
    ],
  )

  execute_transfer-sent :
      (t : Transfer) (s : S) (actor : Bytes)
      → (execute_transfer m c sm t s actor).2 ≡ none
      → (0 < t.value)
        × (execute_transfer m c sm t s actor ≡ sent m c sm t (sub_balance m c sm s actor t.value))
  unfolding execute_transfer
  execute_transfer-sent t s actor done = elim (Bool-cases (nat_beq t.value 0)) [
    | inl nothing ↦ absurd (ground arith)
    | inr some_value ↦ elim (Bool-cases (ltb max_memo_size (length t.memo))) [
      | inl long ↦ absurd (ground arith)
      | inr short ↦ (ground (arith, some_value), rw (some_value, short) refl)
    ]
  ]

  received-sum :
      (sender : ℕ) (r : S × ℕ × Option Failure)
      → (received m c sm sender r).2 ≡ none
      → (r.2 ≡ none)
        × (received m c sm sender r
            ≡ (r.0, some (record { sender_balance = sender; receiver_balance = r.1 }), none))
  received-sum sender (s, balance, none) done = (refl, refl)
  received-sum sender (s, balance, some e) done = cc

  sent-both :
      (t : Transfer) (r : S × ℕ × Option Failure)
      → (sent m c sm t r).2 ≡ none
      → (r.2 ≡ none)
        × ((add_balance m c sm r.0 t.to t.value).2 ≡ none)
        × (sent m c sm t r ≡ (
          (add_balance m c sm r.0 t.to t.value).0,
          some (record {
            sender_balance = r.1;
            receiver_balance = (add_balance m c sm r.0 t.to t.value).1;
          }),
          none,
        ))
  sent-both t (s, balance, none) done =
      let (added, e) = received-sum balance (add_balance m c sm s t.to t.value) done in
      (refl, added, e)
  sent-both t (s, balance, some e) done = cc

  module _ (store : IsStore m) where
    -- Execute between two accounts with addresses of one length, on a store that reads the key of
    -- the actor as absent once it is removed, where it returns no error: the value goes from the actor, who had it, to the
    -- recipient, whose balance stays a uint64; the result holds the two new balances; every other
    -- key of the state holds what it did.
    pub execute_transfer-moves :
        (t : Transfer) (s : S) (actor : Bytes) (a b : ℕ)
        → length actor ≡ length t.to
        → actor ≢ t.to
        → Removes m s (balance_key actor)
        → get_balance m c sm s actor ≡ (a, none)
        → get_balance m c sm s t.to ≡ (b, none)
        → (execute_transfer m c sm t s actor).2 ≡ none
        → (0 < t.value)
          × (t.value ≤ a)
          × (b + t.value ≤ max_uint64)
          × ((execute_transfer m c sm t s actor).1
              ≡ some (record { sender_balance = a - t.value; receiver_balance = b + t.value }))
          × (get_balance m c sm (execute_transfer m c sm t s actor).0 actor ≡ (a - t.value, none))
          × (get_balance m c sm (execute_transfer m c sm t s actor).0 t.to ≡ (b + t.value, none))
          × ((j : Bytes)
              → (balance_key actor == j) ≡ false
              → (balance_key t.to == j) ≡ false
              → m.get_value (execute_transfer m c sm t s actor).0 j ≡ m.get_value s j)
    execute_transfer-moves t s actor a b same ne removes ha hb done =
        let (positive, e) = execute_transfer-sent t s actor done in
        let (debited, credited, moved) =
          sent-both t (sub_balance m c sm s actor t.value) (rw e at done) in
        let (enough, left, (here, others)) =
          sub_balance-Leaves m c big sm store law s actor a t.value removes ha debited in
        let key_ne = balance_key-differ actor t.to same ne in
        let before =
          untouched s (sub_balance m c sm s actor t.value).0 (balance_key actor) t.to key_ne others
          ∙ hb in
        let (fits, total, (there, others2)) =
          add_balance-Leaves m c big sm store law (sub_balance m c sm s actor t.value).0 t.to b
            t.value before credited in
        let key_ne2 = balance_key-differ t.to actor (sym same) (λ q. ne (sym q)) in
        rw (e, moved)
          (
            positive,
            enough,
            fits,
            rw (left, total) refl,
            untouched _ _ (balance_key t.to) actor key_ne2 others2 ∙ here,
            there,
            λ j ne1 ne2. others2 j ne2 ∙ others j ne1,
          )
