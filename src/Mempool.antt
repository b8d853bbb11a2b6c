-- ===== src/Mempool.antt =====
-- hypersdk/internal/mempool: the pending items in a queue, and in a heap by expiry, with a limit on
-- them and one on those of a sponsor. The queue is hypersdk/internal/list: a pointer to an element
-- of it is the id of its item, since the mempool queues no id twice.
pub mod Queue
pub mod Longer
pub mod Invariant
pub mod Operations
pub mod Expiry
pub mod Streams
use haven_claw.Prelude.{
  ℕ, zero, suc, ◌+◌, ◌-◌, Bool, true, false, ◌||◌, not, ◌&&◌, Option, none, some, List, [], ◌∷◌,
  ◌++◌, ltb, nat_beq, if◌then◌else◌, length, bytes_comparable,
}
use haven_claw.Dict
use haven_claw.Dict.{Dict}
use haven_claw.Bytes.{Bytes}
use haven_claw.Sets.{IdSet}
use haven_claw.Heap
use haven_claw.Heap.{Heap}
use haven_claw.Eheap
use haven_claw.Eheap.{new_eheap, remove_id}

-- Item: GetID, GetExpiry, GetSponsor and Size.
pub record Item : Type 0 where
  pub id : ℕ
  pub expiry : ℕ
  pub sponsor : Bytes
  pub size : ℕ

abbrev pub get_id : Item → ℕ
get_id x = x.id

abbrev pub get_expiry : Item → ℕ
get_expiry x = x.expiry

pub record Mempool (S : Type 0) : Type 0 where
  pub pending_size : ℕ
  pub max_size : ℕ
  pub max_sponsor_size : ℕ
  pub queue : List Item
  pub eh : Heap Item
  pub owned : Dict Bytes ℕ
  pub streamed_items : Option S
  pub next_stream : List Item
  pub next_stream_fetched : Bool

-- What Top's function f returns for an item: cont, restore, and whether there is an error.
pub record Answer : Type 0 where
  pub cont : Bool
  pub restore : Bool
  pub failed : Bool

-- The number of items owned by a sponsor, zero where the map has none
abbrev pub or_zero : Option ℕ → ℕ
or_zero none = 0
or_zero (some n) = n

unfoldable pub owned_by : Bytes → Dict Bytes ℕ → ℕ
owned_by sponsor owned = or_zero (Dict.lookup sponsor owned)

-- removeFromOwned
unfoldable pub remove_from_owned : Item → Dict Bytes ℕ → Dict Bytes ℕ
remove_from_owned x owned = elim (Dict.lookup x.sponsor owned) [
  | none ↦ owned
  | some n ↦
      if nat_beq n 1 then Dict.delete x.sponsor owned else Dict.insert x.sponsor (n - 1) owned
]

-- list.List.Remove, of the element with an id
unfoldable pub remove_elem : ℕ → List Item → List Item
remove_elem id [] = []
remove_elem id (x ∷ xs) = let rest = remove_elem id xs in if nat_beq x.id id then xs else x ∷ rest

module _ {S : Type 0} ⦃sets : IdSet S⦄ where
  unfoldable pub new_mempool : ℕ → ℕ → Mempool S
  new_mempool max_size max_sponsor_size = record {
    pending_size = 0;
    max_size = max_size;
    max_sponsor_size = max_sponsor_size;
    queue = [];
    eh = new_eheap;
    owned = [];
    streamed_items = none;
    next_stream = [];
    next_stream_fetched = false;
  }

  unfoldable pub has : ℕ → Mempool S → Bool
  has id m = Heap.has m.eh id

  -- m.streamedItems != nil && m.streamedItems.Contains(itemID)
  abbrev pub is_streamed : ℕ → Option S → Bool
  is_streamed id none = false
  is_streamed id (some s) = sets.contains s id

  -- Whether add passes over the item
  unfoldable pub is_refused : Item → Mempool S → Bool
  is_refused x m =
      is_streamed x.id m.streamed_items
      || Heap.has m.eh x.id
      || nat_beq (owned_by x.sponsor m.owned) m.max_sponsor_size
      || nat_beq (length m.queue) m.max_size

  unfoldable pub enter : Item → Bool → Mempool S → Mempool S
  enter x front m = record m {
    queue = if front then x ∷ m.queue else m.queue ++ x ∷ [];
    eh = Eheap.add get_id get_expiry x m.eh;
    owned = Dict.insert x.sponsor (owned_by x.sponsor m.owned + 1) m.owned;
    pending_size = m.pending_size + x.size;
  }

  -- add
  unfoldable pub add_items : List Item → Bool → Mempool S → Mempool S
  add_items [] front m = m
  add_items (x ∷ xs) front m = add_items xs front (if is_refused x m then m else enter x front m)

  unfoldable pub peek_next : Mempool S → Option Item
  peek_next m = elim m.queue [ [] ↦ none | x ∷ _ ↦ some x ]

  -- What follows the removal of an item from the queue
  abbrev pub discount : Item → Mempool S → Mempool S
  discount x m = record m {
    owned = remove_from_owned x m.owned;
    pending_size = m.pending_size - x.size;
  }

  unfoldable pub pop_next : Mempool S → Option Item × Mempool S
  pop_next m = elim m.queue [
    | [] ↦ (none, m)
    | x ∷ rest ↦ (some x, discount x (record m { queue = rest; eh = (remove_id x.id m.eh).1 }))
  ]

  -- One round of Remove
  unfoldable pub remove_item : Item → Mempool S → Mempool S
  remove_item x m =
      let (found, eh) = remove_id x.id m.eh in
      elim found [
        | none ↦ record m { eh = eh }
        | some y ↦ discount x (record m { eh = eh; queue = remove_elem y.id m.queue })
      ]

  -- Remove
  unfoldable pub remove_items : List Item → Mempool S → Mempool S
  remove_items [] m = m
  remove_items (x ∷ xs) m = remove_items xs (remove_item x m)

  unfoldable pub len : Mempool S → ℕ
  len m = Heap.len m.eh

  unfoldable pub size : Mempool S → ℕ
  size m = m.pending_size

  -- The loop of SetMinTimestamp over the items removed from the heap
  unfoldable pub drop_removed : List Item → Mempool S → Mempool S
  drop_removed [] m = m
  drop_removed (x ∷ xs) m =
      drop_removed xs (discount x (record m { queue = remove_elem x.id m.queue }))

  unfoldable pub set_min_timestamp : ℕ → Mempool S → List Item × Mempool S
  set_min_timestamp t m =
      let (removed, eh) = Eheap.set_min get_id get_expiry t m.eh in
      (removed, drop_removed removed (record m { eh = eh }))

  -- The loop of Top, with the number of rounds it may take and the items to restore so far: f
  -- answers for an item in a round, and `late` says whether the duration is over then. popNext has
  -- an item as long as the heap has one.
  unfoldable pub top_loop :
      ℕ
      → ℕ
      → (ℕ → Item → Answer)
      → (ℕ → Bool)
      → List Item
      → Mempool S
      → (List Item × Bool) × Mempool S
  top_loop zero round f late restorable m = ((restorable, false), m)
  top_loop (suc fuel) round f late restorable m = elim (ltb 0 (Heap.len m.eh)) [
    | false ↦ ((restorable, false), m)
    | true ↦ elim (pop_next m).0 [
      | none ↦ ((restorable, false), m)
      | some x ↦
          let answer : Answer = f round x in
          let kept : List Item = if answer.restore then restorable ++ x ∷ [] else restorable in
          elim (not answer.cont || late round || answer.failed) [
            | true ↦ ((kept, answer.failed), (pop_next m).1)
            | false ↦ top_loop fuel (round + 1) f late kept (pop_next m).1
          ]
    ]
  ]

  unfoldable pub top : (ℕ → Item → Answer) → (ℕ → Bool) → Mempool S → Bool × Mempool S
  top f late m =
      let ((restorable, failed), after) = top_loop (Heap.len m.eh + 1) 0 f late [] m in
      (failed, add_items restorable true after)

  unfoldable pub start_streaming : Mempool S → Mempool S
  start_streaming m = record m { streamed_items = some sets.empty_set }

  -- Add, which makes a set of a nil one.
  abbrev pub mark_streamed : ℕ → Option S → Option S
  mark_streamed id none = some (sets.add sets.empty_set id)
  mark_streamed id (some s) = some (sets.add s id)

  -- streamItems, between StartStreaming and FinishStreaming
  unfoldable pub stream_items : ℕ → Mempool S → List Item × Mempool S
  stream_items zero m = ([], m)
  stream_items (suc count) m = elim (pop_next m).0 [
    | none ↦ ([], m)
    | some x ↦
        (let (txs, after) =
            stream_items count
              (record (pop_next m).1 { streamed_items = mark_streamed x.id m.streamed_items }) in
          (x ∷ txs, after))
  ]

  unfoldable pub prepare_stream : ℕ → Mempool S → Mempool S
  prepare_stream count m =
      let (txs, after) = stream_items count m in
      record after { next_stream = txs; next_stream_fetched = true }

  unfoldable pub stream : ℕ → Mempool S → List Item × Mempool S
  stream count m =
      if m.next_stream_fetched
      then (m.next_stream, record m { next_stream = []; next_stream_fetched = false })
      else stream_items count m

  unfoldable pub finish_streaming : List Item → Mempool S → ℕ × Mempool S
  finish_streaming restorable m =
      let restored : Mempool S = add_items restorable true (record m { streamed_items = none }) in
      if restored.next_stream_fetched
      then (
        length restorable + length restored.next_stream,
        record (add_items restored.next_stream true restored) {
          next_stream = [];
          next_stream_fetched = false;
        },
      )
      else (length restorable, restored)
