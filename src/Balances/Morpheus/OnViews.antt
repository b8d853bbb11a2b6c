-- ===== src/Balances/Morpheus/OnViews.antt =====
-- What a transfer does to a view of the temporary state.
use haven_claw.Prelude.{
  ℕ, ◌+◌, ◌-◌, ◌≤◌, ◌<◌, ◌≡◌, ◌≢◌, false, none, some, length, ◌==◌, bytes_comparable,
}
use haven_claw.Prelude.Words.{max_uint64}
use haven_claw.Bytes.{Bytes}
use haven_claw.SafeMath.{SafeMath, IsChecked}
use haven_claw.TState.{TState}
use haven_claw.TState.View.{View, get_value}
use haven_claw.Mutable.Views.{
  view_mutable, view_mutable-IsStore, view_mutable-Removes, NotRecreated,
}
use haven_claw.Balances.{Uint64Codec, IsBigEndian}
use haven_claw.Balances.Morpheus.{balance_key, get_balance, Transfer, execute_transfer}
use haven_claw.Balances.Morpheus.Moves.{execute_transfer-moves}

module _ (ts : TState) (c : Uint64Codec) (sm : SafeMath) (law : IsChecked sm)
    (big : IsBigEndian c) where
  -- Execute on a view, between two accounts with addresses of one length, where it returns no error,
  -- and the view has no allocation of the actor's key or its parent no such key: the value goes from
  -- the actor, who had it, to the recipient, whose balance stays a uint64; the result holds the two
  -- new balances; every other key of the state reads as it did.
  pub execute_transfer-pays :
      (t : Transfer) (v : View) (actor : Bytes) (a b : ℕ)
      → length actor ≡ length t.to
      → actor ≢ t.to
      → NotRecreated ts v (balance_key actor)
      → get_balance (view_mutable ts) c sm v actor ≡ (a, none)
      → get_balance (view_mutable ts) c sm v t.to ≡ (b, none)
      → (execute_transfer (view_mutable ts) c sm t v actor).2 ≡ none
      → (0 < t.value)
        × (t.value ≤ a)
        × (b + t.value ≤ max_uint64)
        × ((execute_transfer (view_mutable ts) c sm t v actor).1
            ≡ some (record { sender_balance = a - t.value; receiver_balance = b + t.value }))
        × (get_balance
              (view_mutable ts)
              c
              sm
              (execute_transfer (view_mutable ts) c sm t v actor).0
              actor
            ≡ (a - t.value, none))
        × (get_balance
              (view_mutable ts)
              c
              sm
              (execute_transfer (view_mutable ts) c sm t v actor).0
              t.to
            ≡ (b + t.value, none))
        × ((j : Bytes)
            → (balance_key actor == j) ≡ false
            → (balance_key t.to == j) ≡ false
            → get_value ts (execute_transfer (view_mutable ts) c sm t v actor).0 j
              ≡ get_value ts v j)
  execute_transfer-pays t v actor a b same ne fresh =
      execute_transfer-moves (view_mutable ts) c sm law big (view_mutable-IsStore ts) t v actor a b
        same ne (view_mutable-Removes ts v (balance_key actor) fresh)
