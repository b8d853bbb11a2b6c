-- ===== src/Mempool/Expiry.antt =====
-- SetMinTimestamp, Top and the streaming of the mempool keep its invariant.
use haven_claw.Prelude.{
  ℕ, ◌+◌, ◌≤◌, ◌≡◌, refl, ap, fun_ext, none, some, List, [], ◌∷◌, nat_beq_iff, arith, length,
}
use haven_claw.Bytes.{Bytes}
use haven_claw.Sets.{IdSet}
use haven_claw.Heap
use haven_claw.Heap.{Heap}
use haven_claw.Eheap
use haven_claw.Eheap.{remove_id}
use haven_claw.Eheap.Expiry.{find, AllDistinct, expired, unexpired, set_min-Expires}
use haven_claw.Mempool.{
  Item, Mempool, get_id, get_expiry, remove_elem, discount, drop_removed, set_min_timestamp,
}
use haven_claw.Mempool.Queue.{
  count, Accounts, length-remove_elem, count-remove_elem, find-remove_elem, discount-Accounts,
}
use haven_claw.Mempool.Longer.{queued}
use haven_claw.Mempool.Invariant.{IsMempool}

module _ {S : Type 0} ⦃sets : IdSet S⦄ where
  -- What the loop of SetMinTimestamp leaves
  record Dropped (removed : List Item) (m r : Mempool S) : Type 0 where
    eh : r.eh ≡ m.eh
    max_size : r.max_size ≡ m.max_size
    max_sponsor_size : r.max_sponsor_size ≡ m.max_sponsor_size
    accounts : Accounts r.queue r.owned r.pending_size
    left :
        (j : ℕ)
        → queued r.queue j
          ≡ elim (find get_id j removed) [ none ↦ queued m.queue j | some y ↦ none ]
    number : length r.queue + length removed ≡ length m.queue
    fewer : (s : Bytes) → count s r.queue ≤ count s m.queue

  drop_removed-Dropped :
      (removed : List Item) (m : Mempool S)
      → Accounts m.queue m.owned m.pending_size
      → AllDistinct get_id removed
      → ((j : ℕ) (y : Item) → find get_id j removed ≡ some y → queued m.queue j ≡ some y)
      → Dropped removed m (drop_removed removed m)
  unfolding drop_removed
  drop_removed-Dropped [] m a d there = record {
    eh = refl;
    max_size = refl;
    max_sponsor_size = refl;
    accounts = a;
    left = λ j. refl;
    number = omega arith;
    fewer = λ s. omega arith;
  }
  drop_removed-Dropped (x ∷ xs) m a d there =
      let here : queued m.queue x.id ≡ some x =
        there x.id x (ground (arith, nat_beq_iff x.id x.id)) in
      let without = λ (j : ℕ). find-remove_elem x.id j m.queue a.distinct in
      let rest =
        drop_removed-Dropped xs (discount x (record m { queue = remove_elem x.id m.queue }))
          (discount-Accounts x.id x m.queue m.owned m.pending_size a here) d.1
          (λ j y e. ground (arith, there j y, without j, d.0, e, nat_beq_iff x.id j)) in
      record {
        eh = rest.eh;
        max_size = rest.max_size;
        max_sponsor_size = rest.max_sponsor_size;
        accounts = rest.accounts;
        left = λ j. ground (arith, rest.left j, without j);
        number = omega (arith, rest.number, length-remove_elem x.id x m.queue here);
        fewer = λ s. omega (arith, rest.fewer s, count-remove_elem x.id x s m.queue here);
      }

  -- SetMinTimestamp keeps the invariant of the mempool, returns exactly the items that expire before
  -- t, and leaves all the others in the queue.
  pub set_min_timestamp-IsMempool :
      (t : ℕ) (m : Mempool S)
      → IsMempool m
      → IsMempool (set_min_timestamp t m).1
        × ((j : ℕ)
            → find get_id j (set_min_timestamp t m).0
              ≡ expired get_id get_expiry t (queued m.queue j))
        × ((j : ℕ)
            → queued (set_min_timestamp t m).1.queue j
              ≡ unexpired get_id get_expiry t (queued m.queue j))
  unfolding set_min_timestamp
  set_min_timestamp-IsMempool t m v =
      let (removed, eh) = Eheap.set_min get_id get_expiry t m.eh in
      let e = set_min-Expires get_id get_expiry t (queued m.queue) m.eh v.heap in
      let d =
        drop_removed-Dropped removed (record m { eh = eh }) v.accounts e.distinct
          (λ j y there. ground (arith, e.taken j, there)) in
      let r : Mempool S = (set_min_timestamp t m).1 in
      let left : (j : ℕ) → queued r.queue j ≡ unexpired get_id get_expiry t (queued m.queue j) =
        λ j. ground (arith, d.left j, e.taken j) in
      (
        record {
          heap = rw (fun_ext left, d.eh) e.left;
          number = omega (arith, d.number, e.number, v.number, ap Heap.len d.eh);
          accounts = d.accounts;
          bounded = omega (arith, d.number, d.max_size, v.bounded);
          shared = λ s. omega (arith, d.fewer s, d.max_sponsor_size, v.shared s);
        },
        e.taken,
        left,
      )
