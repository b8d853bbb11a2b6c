-- ===== src/Tests/Mempools.antt =====
-- Tests of the mempool.
use haven_claw.Prelude.{
  ℕ, ◌*◌, ◌≡◌, refl, true, false, some, List, [], ◌∷◌, nat_beq_iff, nat_comparable, arith, take,
  drop, bytes_comparable,
}
use haven_claw.Dict
use haven_claw.Heap
use haven_claw.Eheap
use haven_claw.Eheap.Expiry.{find, expired, unexpired}
use haven_claw.Mempool.{
  Item, Mempool, get_id, get_expiry, new_mempool, add_items, set_min_timestamp, top_loop, Answer,
  stream_items, is_refused, enter, owned_by,
}
use haven_claw.Mempool.Longer.{queued}
use haven_claw.Mempool.Invariant.{IsMempool, new_mempool-IsMempool}
use haven_claw.Mempool.Operations.{add_items-IsMempool}
use haven_claw.Mempool.Expiry.{set_min_timestamp-IsMempool}
use haven_claw.Mempool.Streams.{top_loop-enough, stream_items-take}
use haven_claw.Tests.IdLists.{list_set}

-- Two items of one sponsor
abbrev item_of : ℕ → Item
item_of id = record { id = id; expiry = 10 * id; sponsor = 1 ∷ []; size = 100 }

abbrev pool0 : Mempool (List ℕ)
pool0 = new_mempool 10 5

abbrev pool1 : Mempool (List ℕ)
pool1 = add_items (item_of 3 ∷ item_of 4 ∷ []) false pool0

add_items-IsMempool_example : IsMempool pool1
add_items-IsMempool_example =
    add_items-IsMempool (item_of 3 ∷ item_of 4 ∷ []) false pool0 (new_mempool-IsMempool 10 5)

pool1-queue : pool1.queue ≡ item_of 3 ∷ item_of 4 ∷ []
unfolding add_items is_refused enter owned_by new_mempool Eheap.new_eheap Eheap.add Heap.push
    Heap.up Heap.append_entry Heap.has Heap.new Heap.get Heap.less Heap.val_at Dict.lookup
    Dict.insert Dict.delete
pool1-queue = refl

set_min_timestamp-IsMempool_example :
    IsMempool (set_min_timestamp 35 pool1).1
    × ((j : ℕ)
        → find get_id j (set_min_timestamp 35 pool1).0
          ≡ expired get_id get_expiry 35 (queued pool1.queue j))
    × ((j : ℕ)
        → queued (set_min_timestamp 35 pool1).1.queue j
          ≡ unexpired get_id get_expiry 35 (queued pool1.queue j))
set_min_timestamp-IsMempool_example =
    set_min_timestamp-IsMempool 35 pool1 add_items-IsMempool_example

pool1-given : (id : ℕ) (y : Item) → queued pool1.queue id ≡ some y → y ≡ item_of id
pool1-given id y e = ground (arith, rw pool1-queue at e, nat_beq_iff 3 id, nat_beq_iff 4 id)

abbrev keep_all : ℕ → Item → Answer
keep_all round x = record { cont = true; restore = true; failed = false }

top_loop-enough_example :
    top_loop 9 0 keep_all (λ round. false) [] pool1
    ≡ top_loop 3 0 keep_all (λ round. false) [] pool1
unfolding add_items is_refused enter owned_by new_mempool Eheap.new_eheap Eheap.add Heap.push
    Heap.up Heap.append_entry Heap.has Heap.new Heap.get Heap.less Heap.val_at Dict.lookup
    Dict.insert Dict.delete
top_loop-enough_example =
    top_loop-enough 3 9 0 keep_all (λ round. false) [] pool1 add_items-IsMempool_example
      (omega arith) (omega arith)

stream_items-take_example :
    ((stream_items 1 pool1).0 ≡ take 1 pool1.queue)
    × ((stream_items 1 pool1).1.queue ≡ drop 1 pool1.queue)
stream_items-take_example = stream_items-take 1 pool1
