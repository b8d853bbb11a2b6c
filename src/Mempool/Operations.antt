-- ===== src/Mempool/Operations.antt =====
-- Every operation of the mempool keeps its invariant.
use haven_claw.Prelude.{
  ℕ, ◌-◌, ◌≡◌, refl, sym, ap, ◌∙◌, Bool, Bool-cases, Option-cases, none, some, List, [], ◌∷◌,
  nat_beq, nat_beq_iff, if◌then◌else◌, arith, inl, inr,
}
use haven_claw.Sets.{IdSet}
use haven_claw.Heap
use haven_claw.Heap.{Heap}
use haven_claw.Eheap.{remove_id}
use haven_claw.Eheap.Laws.{remove_id-Holds, remove_id-absent}
use haven_claw.Eheap.Expiry.{find}
use haven_claw.Mempool.{
  Item, Mempool, get_id, get_expiry, remove_elem, is_refused, enter, add_items, pop_next, peek_next,
  remove_item, remove_items,
}
use haven_claw.Mempool.Queue.{find-remove_elem}
use haven_claw.Mempool.Longer.{queued}
use haven_claw.Mempool.Invariant.{IsMempool, enter-IsMempool, discount-Held}

removed_first : (x : Item) (rest : List Item) → remove_elem x.id (x ∷ rest) ≡ rest
unfolding remove_elem
removed_first x rest = ground (arith, nat_beq_iff x.id x.id)

-- Items that are those of their ids
abbrev pub AllGiven : (ℕ → Item) → List Item → Type 0
AllGiven item [] = Unit
AllGiven item (x ∷ xs) = (x ≡ item x.id) × AllGiven item xs

module _ {S : Type 0} ⦃sets : IdSet S⦄ where
  -- Adding any items, at either end, keeps the invariant: the heap has the items of the queue, each
  -- under its id; the pending size is the sum of theirs; the numbers owned by the sponsors are those
  -- of their items; and neither the limit of items nor the limit of a sponsor is exceeded.
  pub add_items-IsMempool :
      (xs : List Item) (front : Bool) (m : Mempool S)
      → IsMempool m
      → IsMempool (add_items xs front m)
  unfolding add_items
  add_items-IsMempool [] front m v = v
  add_items-IsMempool (x ∷ xs) front m v = elim (Bool-cases (is_refused x m)) [
    | inl pass ↦ rw (pass, add_items) (add_items-IsMempool xs front m v)
    | inr go ↦
        rw (go, add_items)
          (add_items-IsMempool xs front (enter x front m) (enter-IsMempool x front m v go))
  ]

  -- PopNext takes the first item of the queue.
  pub pop_next-IsMempool :
      (m : Mempool S)
      → IsMempool m
      → IsMempool (pop_next m).1
        × ((pop_next m).0 ≡ peek_next m)
        × (Heap.len (pop_next m).1.eh ≡ Heap.len m.eh - 1)
  unfolding pop_next peek_next
  pop_next-IsMempool m v = go m.queue v
    where
      go :
          (q : List Item)
          → IsMempool (record m { queue = q })
          → IsMempool (pop_next (record m { queue = q })).1
            × ((pop_next (record m { queue = q })).0 ≡ peek_next (record m { queue = q }))
            × (Heap.len (pop_next (record m { queue = q })).1.eh ≡ Heap.len m.eh - 1)
      go [] v = (v, refl, omega (arith, v.number))
      go (x ∷ rest) v =
          let first : queued (x ∷ rest) x.id ≡ some x = ground (arith, nat_beq_iff x.id x.id) in
          let front : remove_elem x.id (x ∷ rest) ≡ rest = removed_first x rest in
          let held = rw front at (discount-Held x (record m { queue = x ∷ rest }) v first) in
          (held, refl, omega (arith, held.number, v.number))

  remove_item-IsMempool :
      (x : Item) (m : Mempool S)
      → IsMempool m
      → ((y : Item) → queued m.queue x.id ≡ some y → y ≡ x)
      → IsMempool (remove_item x m)
        × ((j : ℕ)
            → queued (remove_item x m).queue j
              ≡ (if nat_beq x.id j then none else queued m.queue j))
  unfolding remove_item
  remove_item-IsMempool x m v own =
      let item = (remove_id-Holds get_id get_expiry (queued m.queue) m.eh v.heap x.id).0 in
      elim (Option-cases (remove_id x.id m.eh).0) [
        | inl absent ↦
            rw (absent, remove_id-absent x.id m.eh absent, remove_item)
              (v, λ j. ground (arith, item, absent, nat_beq_iff x.id j))
        | inr (y, there) ↦
            let same : y ≡ x = own y (sym item ∙ there) in
            rw (there, remove_item, same)
              (
                discount-Held x m v (sym item ∙ there ∙ ap some same),
                λ j. find-remove_elem x.id j m.queue v.accounts.distinct,
              )
      ]

  -- Remove, of items that are the queued ones where their ids are queued, keeps the invariant of the
  -- mempool and leaves in the queue exactly the items with other ids.
  pub remove_items-IsMempool :
      (item : ℕ → Item) (xs : List Item) (m : Mempool S)
      → IsMempool m
      → ((id : ℕ) (y : Item) → queued m.queue id ≡ some y → y ≡ item id)
      → AllGiven item xs
      → IsMempool (remove_items xs m)
        × ((j : ℕ)
            → queued (remove_items xs m).queue j
              ≡ elim (find get_id j xs) [ none ↦ queued m.queue j | some y ↦ none ])
  unfolding remove_items
  remove_items-IsMempool item [] m v own given = (v, λ j. refl)
  remove_items-IsMempool item (x ∷ xs) m v own given =
      let (w, left) = remove_item-IsMempool x m v (λ y e. own x.id y e ∙ sym given.0) in
      let (all, rest) =
        remove_items-IsMempool item xs (remove_item x m) w
          (λ id y e. own id y (ground (arith, left id, e))) given.1 in
      (all, λ j. ground (arith, rest j, left j))
