-- ===== src/Eheap.antt =====
-- hypersdk/internal/eheap: items in a min-heap by their expiry, each under its id. The methods GetID
-- and GetExpiry of an item are parameters.
pub mod Laws
pub mod Expiry
use haven_claw.Prelude.{
  ℕ, zero, suc, ◌+◌, Bool, true, false, Option, none, some, List, [], ◌∷◌, ◌++◌, ltb,
}
use haven_claw.Heap
use haven_claw.Heap.{Heap, Entry}

module _ {ℓ} {I : Type ℓ} where
  unfoldable pub new_eheap : Heap I
  new_eheap = Heap.new true

  unfoldable pub peek_min : Heap I → Option I
  peek_min h = elim (Heap.first h) [ none ↦ none | some e ↦ some e.item ]

  -- Remove
  unfoldable pub remove_id : ℕ → Heap I → Option I × Heap I
  remove_id id h = elim (Heap.get h id) [
    | none ↦ (none, h)
    | some e ↦ (some e.item, (Heap.remove e.index h).1)
  ]

module _ {ℓ} {I : Type ℓ} (get_id get_expiry : I → ℕ) where
  unfoldable pub add : I → Heap I → Heap I
  add x h = Heap.push (record { id = get_id x; val = get_expiry x; item = x; index = Heap.len h }) h

  unfoldable pub pop_min : Heap I → Option I × Heap I
  pop_min h = elim (Heap.first h) [
    | none ↦ (none, h)
    | some e ↦ (some e.item, (remove_id (get_id e.item) h).1)
  ]

  -- The loop of SetMin, with the number of rounds it may take and the items removed so far.
  unfoldable pub set_min_loop : ℕ → ℕ → List I → Heap I → List I × Heap I
  set_min_loop zero val removed h = (removed, h)
  set_min_loop (suc fuel) val removed h = elim (peek_min h) [
    | none ↦ (removed, h)
    | some x ↦ elim (ltb (get_expiry x) val) [
      | true ↦ set_min_loop fuel val (removed ++ x ∷ []) (pop_min h).1
      | false ↦ (removed, h)
    ]
  ]

  unfoldable pub set_min : ℕ → Heap I → List I × Heap I
  set_min val h = set_min_loop (Heap.len h + 1) val [] h
