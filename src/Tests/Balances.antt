-- ===== src/Tests/Balances.antt =====
-- Tests of the balances.
use haven_claw.Prelude.{
  ℕ, ◌+◌, ◌≤◌, ◌<◌, ◌≡◌, ◌≢◌, ◌↔◌, refl, false, inl, none, some, [], ◌∷◌, arith, ◌==◌,
  bytes_comparable, bytes_beq_iff, replicate,
}
use haven_claw.Prelude.Words.{max_uint64}
use haven_claw.Dict.{Dict, lookup, insert, delete}
use haven_claw.Bytes.{Bytes, from_be, to_be}
use haven_claw.SafeMath.{checked, checked-IsChecked}
use haven_claw.StateKeys.{complete_permissions}
use haven_claw.Keys.{verify_value, num_chunks, max_chunks}
use haven_claw.TState.{not_found, err, new, get_changed_value}
use haven_claw.TState.View.{
  View, new_view, get_value, read_value, read_below, insert_value, insert_over, is_unchanged,
}
use haven_claw.Mutable.{Mutable}
use haven_claw.Mutable.Plain.{found, plain, plain-IsStore}
use haven_claw.Mutable.Views.{view_mutable}
use haven_claw.Balances.{insufficient_balance, overflow, big_endian, big_endian-IsBigEndian}
use haven_claw.Balances.Handler.{get_balance, can_deduct, deduct, add_balance, balance_key}
use haven_claw.Balances.Handler.Laws.{deduct-Credits, balance_errors, Credits}
use haven_claw.Balances.Morpheus.{Transfer, execute_transfer, max_memo_size}
use haven_claw.Balances.Morpheus as Morpheus
use haven_claw.Balances.Morpheus.OnViews.{execute_transfer-pays}

abbrev alice : Bytes
alice = replicate 33 1

abbrev bob : Bytes
bob = replicate 33 2

abbrev prefix : Bytes
prefix = 5 ∷ []

-- Alice has 7 with the handler of fees, and 9 in the example's storage.
abbrev ledger : Dict Bytes Bytes
ledger = (balance_key prefix alice, to_be 8 7) ∷ (Morpheus.balance_key alice, to_be 8 9) ∷ []

abbrev alices : ℕ
alices = 7

alice_has : get_balance plain big_endian checked prefix ledger alice ≡ (7, none)
unfolding get_balance lookup to_be from_be
alice_has = refl

deduct_succeeds : (deduct plain big_endian checked prefix ledger alice 3).1 ≡ none
unfolding deduct lookup to_be from_be
deduct_succeeds = refl

deduct-Credits_example :
    (3 ≤ 7)
    × Credits plain big_endian big_endian-IsBigEndian checked prefix plain-IsStore ledger
        (deduct plain big_endian checked prefix ledger alice 3).0
        alice
        4
deduct-Credits_example =
    deduct-Credits plain big_endian big_endian-IsBigEndian checked prefix plain-IsStore ledger alice
      7 3 alice_has deduct_succeeds

add_succeeds : (add_balance plain big_endian checked prefix ledger alice 3).1 ≡ none
unfolding add_balance lookup to_be from_be
add_succeeds = refl

balance_errors_example :
    ((can_deduct plain big_endian checked prefix (plain.get_value ledger) alice 8 ≡ none) ↔ (8 ≤ 7))
    × (7 < 8
        → (can_deduct plain big_endian checked prefix (plain.get_value ledger) alice 8
            ≡ some insufficient_balance)
          × (deduct plain big_endian checked prefix ledger alice 8
              ≡ (ledger, some insufficient_balance)))
    × (plain.get_value ledger (balance_key prefix alice) ≡ err not_found
        → (alices ≡ 0)
          × (deduct plain big_endian checked prefix ledger alice 8
              ≡ (ledger, some insufficient_balance)))
    × (max_uint64 < 7 + 8
        → add_balance plain big_endian checked prefix ledger alice 8 ≡ (ledger, some overflow))
balance_errors_example =
    balance_errors plain big_endian big_endian-IsBigEndian checked prefix checked-IsChecked ledger
      alice 7 8 alice_has

abbrev payment : Transfer
payment = record { to = bob; value = 4; memo = [] }

-- The ledger is the storage of a new view, which may do everything.
abbrev fresh : View
fresh = new_view complete_permissions (λ k. found (lookup k ledger))

abbrev on_view : Mutable View
on_view = view_mutable new

abbrev paid : View
paid = (execute_transfer on_view big_endian checked payment fresh alice).0

alice_owns : Morpheus.get_balance on_view big_endian checked fresh alice ≡ (9, none)
unfolding Morpheus.get_balance get_value new_view read_value read_below get_changed_value new lookup
    to_be from_be
alice_owns = refl

bob_owns : Morpheus.get_balance on_view big_endian checked fresh bob ≡ (0, none)
unfolding Morpheus.get_balance get_value new_view read_value read_below get_changed_value new lookup
    to_be from_be
bob_owns = refl

payment_succeeds : (execute_transfer on_view big_endian checked payment fresh alice).2 ≡ none
unfolding execute_transfer Morpheus.sub_balance Morpheus.add_balance get_value new_view read_value
    read_below get_changed_value new insert_value insert_over is_unchanged verify_value num_chunks
    max_chunks lookup insert delete to_be from_be
payment_succeeds = refl

two_people : alice ≢ bob
two_people e = absurd (ground (arith, bytes_beq_iff alice bob))

execute_transfer-pays_example :
    (0 < 4)
    × (4 ≤ 9)
    × (0 + 4 ≤ max_uint64)
    × ((execute_transfer on_view big_endian checked payment fresh alice).1
        ≡ some (record { sender_balance = 5; receiver_balance = 4 }))
    × (Morpheus.get_balance on_view big_endian checked paid alice ≡ (5, none))
    × (Morpheus.get_balance on_view big_endian checked paid bob ≡ (4, none))
    × ((j : Bytes)
        → (Morpheus.balance_key alice == j) ≡ false
        → (Morpheus.balance_key bob == j) ≡ false
        → get_value new paid j ≡ get_value new fresh j)
unfolding new_view lookup
execute_transfer-pays_example =
    execute_transfer-pays new big_endian checked checked-IsChecked big_endian-IsBigEndian payment
      fresh alice 9 0 refl two_people (inl refl) alice_owns bob_owns payment_succeeds
