-- ===== src/Mempool/Invariant.antt =====
-- The heap, the queue and the accounts of the mempool agree, and its limits are kept.
use haven_claw.Prelude.{
  ℕ, ◌+◌, ◌≤◌, ◌≡◌, refl, fun_ext, Bool, false, none, some, arith, length, bytes_comparable,
  bytes_beq_iff,
}
use haven_claw.Dict
use haven_claw.Dict.{Dict, lookup-insert, lookup-delete}
use haven_claw.Bytes.{Bytes}
use haven_claw.Sets.{IdSet}
use haven_claw.Heap
use haven_claw.Heap.{Heap}
use haven_claw.Heap.Slots.{content}
use haven_claw.Eheap.{remove_id, new_eheap}
use haven_claw.Eheap.Laws.{Holds, new_eheap-Holds, add-Holds, remove_id-Holds}
use haven_claw.Mempool.{
  Item, Mempool, get_id, get_expiry, owned_by, remove_elem, new_mempool, is_refused, enter,
  discount,
}
use haven_claw.Mempool.Longer.{
  queued, length-longer, total-longer, count-longer, find-longer, longer-AllDistinct,
}
use haven_claw.Mempool.Queue.{
  count, Accounts, length-remove_elem, count-remove_elem, find-remove_elem, discount-Accounts,
}

module _ {S : Type 0} ⦃sets : IdSet S⦄ where
  pub record IsMempool (m : Mempool S) : Type 0 where
    pub heap : Holds get_id get_expiry (queued m.queue) m.eh
    pub number : Heap.len m.eh ≡ length m.queue
    pub accounts : Accounts m.queue m.owned m.pending_size
    pub bounded : length m.queue ≤ m.max_size
    pub shared : (s : Bytes) → count s m.queue ≤ m.max_sponsor_size

  pub new_mempool-IsMempool :
      (max_size max_sponsor_size : ℕ) → IsMempool (new_mempool max_size max_sponsor_size)
  unfolding new_mempool new_eheap Heap.new owned_by Dict.lookup
  new_mempool-IsMempool max_size max_sponsor_size = record {
    heap = new_eheap-Holds get_id get_expiry;
    number = refl;
    accounts = record {
      distinct = tt;
      sizes = refl;
      counts = λ s. refl;
      positive = λ s e. ground arith;
    };
    bounded = omega arith;
    shared = λ s. omega arith;
  }

  not_queued :
      (m : Mempool S) (id : ℕ) → IsMempool m → Heap.has m.eh id ≡ false → queued m.queue id ≡ none
  unfolding Heap.has content
  not_queued m id v h = ground (arith, v.heap.entries id, queued m.queue id)

  -- An item that add does not pass over keeps the limits.
  pub enter-IsMempool :
      (x : Item) (front : Bool) (m : Mempool S)
      → IsMempool m
      → is_refused x m ≡ false
      → IsMempool (enter x front m)
  unfolding enter is_refused owned_by
  enter-IsMempool x front m v h =
      let new : queued m.queue x.id ≡ none = not_queued m x.id v (ground arith) in
      let (holds, size) = add-Holds get_id get_expiry (queued m.queue) m.eh v.heap x new in
      record {
        heap = rw (fun_ext (λ id. find-longer x m.queue front id new)) holds;
        number = omega (arith, size, v.number, length-longer x m.queue front);
        accounts = record {
          distinct = longer-AllDistinct x m.queue front v.accounts.distinct new;
          sizes = omega (arith, v.accounts.sizes, total-longer x m.queue front);
          counts = λ s. ground (
            arith,
            lookup-insert x.sponsor s (owned_by x.sponsor m.owned + 1) m.owned,
            v.accounts.counts s,
            v.accounts.counts x.sponsor,
            count-longer x m.queue front s,
            bytes_beq_iff x.sponsor s,
          );
          positive = λ s e. ground (
            arith,
            lookup-insert x.sponsor s (owned_by x.sponsor m.owned + 1) m.owned,
            v.accounts.positive s,
          );
        };
        bounded = ground (arith, length-longer x m.queue front, v.bounded);
        shared = λ s. ground (
          arith,
          count-longer x m.queue front s,
          v.shared s,
          v.accounts.counts x.sponsor,
          bytes_beq_iff x.sponsor s,
        );
      }

  pub discount-Held :
      (x : Item) (m : Mempool S)
      → IsMempool m
      → queued m.queue x.id ≡ some x
      → IsMempool
          (discount x (record m { queue = remove_elem x.id m.queue; eh = (remove_id x.id m.eh).1 }))
  discount-Held x m v there =
      let (item, holds, size) =
        remove_id-Holds get_id get_expiry (queued m.queue) m.eh v.heap x.id in
      let shorter = length-remove_elem x.id x m.queue there in
      record {
        heap = rw (fun_ext (λ j. find-remove_elem x.id j m.queue v.accounts.distinct)) holds;
        number = omega (arith, size (λ e. ground (arith, there, e)), v.number, shorter);
        accounts = discount-Accounts x.id x m.queue m.owned m.pending_size v.accounts there;
        bounded = omega (arith, shorter, v.bounded);
        shared = λ s. omega (arith, count-remove_elem x.id x s m.queue there, v.shared s);
      }
