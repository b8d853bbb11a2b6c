-- ===== src/Mempool/Streams.antt =====
-- Top and the streaming of the mempool: items leave in the order of the queue, and the invariant is
-- kept.
use haven_claw.Prelude.{
  ℕ, zero, suc, ◌+◌, ◌<◌, ◌≡◌, refl, ap, Bool, true, false, not, Bool-cases, Option-cases, Option,
  none, List, [], ◌∷◌, ◌++◌, ◌||◌, ltb, if◌then◌else◌, arith, inl, inr, take, drop,
}
use haven_claw.Sets.{IdSet}
use haven_claw.Heap
use haven_claw.Heap.{Heap}
use haven_claw.Mempool.{
  Item, Mempool, add_items, pop_next, top_loop, top, Answer, stream_items, prepare_stream,
  finish_streaming, mark_streamed,
}
use haven_claw.Mempool.Queue.{count}
use haven_claw.Mempool.Invariant.{IsMempool}
use haven_claw.Mempool.Operations.{add_items-IsMempool, pop_next-IsMempool}

module _ {S : Type 0} ⦃sets : IdSet S⦄ where
  -- The streamed items, and what is prefetched, are no part of the invariant.
  streamed-IsMempool :
      (m : Mempool S) (s : Option S) (next : List Item) (fetched : Bool)
      → IsMempool m
      → IsMempool
          (record m { streamed_items = s; next_stream = next; next_stream_fetched = fetched })
  streamed-IsMempool m s next fetched v = record {
    heap = v.heap;
    number = v.number;
    accounts = v.accounts;
    bounded = v.bounded;
    shared = v.shared;
  }

  pub stream_items-IsMempool :
      (count : ℕ) (m : Mempool S) → IsMempool m → IsMempool (stream_items count m).1
  unfolding stream_items
  stream_items-IsMempool zero m v = v
  stream_items-IsMempool (suc count) m v =
      let after = (pop_next-IsMempool m v).0 in
      elim (Option-cases (pop_next m).0) [
        | inl none_left ↦ rw (none_left, stream_items) v
        | inr (x, there) ↦
            rw (there, stream_items)
              (stream_items-IsMempool count
                (record (pop_next m).1 { streamed_items = mark_streamed x.id m.streamed_items })
                (streamed-IsMempool (pop_next m).1 (mark_streamed x.id m.streamed_items)
                  (pop_next m).1.next_stream (pop_next m).1.next_stream_fetched after))
      ]

  -- Streaming returns the first items of the queue, in their order, and leaves the rest.
  pub stream_items-take :
      (count : ℕ) (m : Mempool S)
      → ((stream_items count m).0 ≡ take count m.queue)
        × ((stream_items count m).1.queue ≡ drop count m.queue)
  unfolding stream_items pop_next
  stream_items-take zero m = (refl, refl)
  stream_items-take (suc count) m = go m.queue m (λ r. stream_items-take count r)
    where
      go :
          (q : List Item) (n : Mempool S)
          → ((r : Mempool S)
              → ((stream_items count r).0 ≡ take count r.queue)
                × ((stream_items count r).1.queue ≡ drop count r.queue))
          → ((stream_items (suc count) (record n { queue = q })).0 ≡ take (suc count) q)
            × ((stream_items (suc count) (record n { queue = q })).1.queue ≡ drop (suc count) q)
      go [] n rest = (refl, refl)
      go (x ∷ q) n rest = (ap (λ l. x ∷ l) (rest _).0, (rest _).1)

  pub prepare_stream-IsMempool :
      (count : ℕ) (m : Mempool S) → IsMempool m → IsMempool (prepare_stream count m)
  unfolding prepare_stream
  prepare_stream-IsMempool count m v =
      let w = stream_items-IsMempool count m v in
      streamed-IsMempool (stream_items count m).1 (stream_items count m).1.streamed_items
        (stream_items count m).0 true w

  pub finish_streaming-IsMempool :
      (restorable : List Item) (m : Mempool S)
      → IsMempool m
      → IsMempool (finish_streaming restorable m).1
  unfolding finish_streaming add_items
  finish_streaming-IsMempool restorable m v =
      let start : Mempool S = record m { streamed_items = none } in
      let r : Mempool S = add_items restorable true start in
      let w =
        add_items-IsMempool restorable true start
          (streamed-IsMempool m none m.next_stream m.next_stream_fetched v) in
      elim (Bool-cases r.next_stream_fetched) [
        | inl fetched ↦
            rw (fetched, finish_streaming)
              (streamed-IsMempool (add_items r.next_stream true r)
                (add_items r.next_stream true r).streamed_items [] false
                (add_items-IsMempool r.next_stream true r w))
        | inr idle ↦ rw (idle, finish_streaming) w
      ]

  top_loop-IsMempool :
      (fuel round : ℕ) (f : ℕ → Item → Answer) (late : ℕ → Bool) (restorable : List Item)
      (m : Mempool S)
      → IsMempool m
      → IsMempool (top_loop fuel round f late restorable m).1
  unfolding top_loop
  top_loop-IsMempool zero round f late restorable m v = v
  top_loop-IsMempool (suc fuel) round f late restorable m v =
      let after = (pop_next-IsMempool m v).0 in
      elim (Bool-cases (ltb 0 (Heap.len m.eh))) [
        | inr empty ↦ rw (empty, top_loop) v
        | inl full ↦ elim (Option-cases (pop_next m).0) [
          | inl none_left ↦ rw (full, none_left, top_loop) v
          | inr (x, there) ↦
              elim (Bool-cases (not (f round x).cont || late round || (f round x).failed)) [
                | inl stop ↦ rw (full, there, stop, top_loop) after
                | inr more ↦
                    rw (full, there, more, top_loop)
                      (top_loop-IsMempool fuel (round + 1) f late
                        (if (f round x).restore then restorable ++ x ∷ [] else restorable)
                        (pop_next m).1 after)
              ]
        ]
      ]

  pub top-IsMempool :
      (f : ℕ → Item → Answer) (late : ℕ → Bool) (m : Mempool S)
      → IsMempool m
      → IsMempool (top f late m).1
  unfolding top
  top-IsMempool f late m v =
      let w = top_loop-IsMempool (Heap.len m.eh + 1) 0 f late [] m v in
      add_items-IsMempool (top_loop (Heap.len m.eh + 1) 0 f late [] m).0.0 true
        (top_loop (Heap.len m.eh + 1) 0 f late [] m).1 w

  -- The loop of Top needs at most one round more than the mempool has items, whatever f answers:
  -- any numbers of rounds greater than that of the items give the same result.
  pub top_loop-enough :
      (fuel more round : ℕ) (f : ℕ → Item → Answer) (late : ℕ → Bool) (restorable : List Item)
      (m : Mempool S)
      → IsMempool m
      → Heap.len m.eh < fuel
      → Heap.len m.eh < more
      → top_loop more round f late restorable m ≡ top_loop fuel round f late restorable m
  unfolding top_loop
  top_loop-enough zero more round f late restorable m v p q = absurd (omega arith)
  top_loop-enough (suc fuel) zero round f late restorable m v p q = absurd (omega arith)
  top_loop-enough (suc fuel) (suc more) round f late restorable m v p q =
      let (after, first, size) = pop_next-IsMempool m v in
      elim (Bool-cases (ltb 0 (Heap.len m.eh))) [
        | inr empty ↦ rw (empty, top_loop) refl
        | inl full ↦ elim (Option-cases (pop_next m).0) [
          | inl none_left ↦ rw (full, none_left, top_loop) refl
          | inr (x, there) ↦
              elim (Bool-cases (not (f round x).cont || late round || (f round x).failed)) [
                | inl stop ↦ rw (full, there, stop, top_loop) refl
                | inr more_left ↦
                    let some_left : 0 < Heap.len m.eh = ground arith in
                    rw (full, there, more_left, top_loop)
                      (top_loop-enough fuel more (round + 1) f late
                        (if (f round x).restore then restorable ++ x ∷ [] else restorable)
                        (pop_next m).1 after (omega (arith, size)) (omega (arith, size)))
              ]
        ]
      ]
