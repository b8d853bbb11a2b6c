-- ===== src/Emap.antt =====
-- hypersdk/internal/emap: the ids seen, in a bucket for each expiry time. A pointer to a bucket is
-- its time: the map of buckets by time has the bucket for as long as the heap does. Times are not
-- negative.
pub mod Laws
pub mod Eviction
use haven_claw.Prelude.{
  ℕ, zero, suc, ◌+◌, Bool, true, false, Option, none, some, List, [], ◌∷◌, ◌++◌, nat_comparable,
  nat_beq, leb, if◌then◌else◌,
}
use haven_claw.Dict
use haven_claw.Dict.{Dict}
use haven_claw.Sets.{IdSet, remove_all}
use haven_claw.Heap
use haven_claw.Heap.{Heap, Entry}

-- emap.Item: an id and an expiry time.
pub record Item : Type 0 where
  pub id : ℕ
  pub expiry : ℕ

pub record Bucket : Type 0 where
  pub t : ℕ
  pub items : List ℕ

pub record Emap (S : Type 0) : Type 0 where
  pub bh : Heap ℕ
  pub seen : S
  pub times : Dict ℕ Bucket

abbrev pub bucket_items : Option Bucket → List ℕ
bucket_items none = []
bucket_items (some b) = b.items

module _ {S : Type 0} ⦃sets : IdSet S⦄ where
  unfoldable pub new_emap : Emap S
  new_emap = record { bh = Heap.new true; seen = sets.empty_set; times = [] }

  -- The end of add: the id goes to the bucket of its time, or to a new one.
  unfoldable pub put_in_bucket : ℕ → ℕ → Emap S → Emap S
  put_in_bucket id t e = elim (Dict.lookup t e.times) [
    | some b ↦ record e { times = Dict.insert t (record b { items = b.items ++ id ∷ [] }) e.times }
    | none ↦ record e {
      times = Dict.insert t (record { t = t; items = id ∷ [] }) e.times;
      bh = Heap.push (record { id = id; item = t; val = t; index = Heap.len e.bh }) e.bh;
    }
  ]

  unfoldable pub add : ℕ → ℕ → Emap S → Emap S
  add id t e =
      if nat_beq t 0
      then e
      else (if sets.contains e.seen id
          then e
          else put_in_bucket id t (record e { seen = sets.add e.seen id }))

  -- Add
  unfoldable pub add_items : List Item → Emap S → Emap S
  add_items [] e = e
  add_items (x ∷ xs) e = add_items xs (add x.id x.expiry e)

  -- The ids of the bucket that b points to
  unfoldable pub items_of : Entry ℕ → Emap S → List ℕ
  items_of b e = bucket_items (Dict.lookup b.item e.times)

  -- One round of the loop of SetMin, for its first entry
  unfoldable pub evict_first : Entry ℕ → Emap S → Emap S
  evict_first b e = record {
    bh = (Heap.pop e.bh).1;
    seen = remove_all (items_of b e) e.seen;
    times = Dict.delete b.val e.times;
  }

  -- The loop of SetMin, with the number of rounds it may take and the ids evicted so far.
  unfoldable pub set_min_loop : ℕ → ℕ → List ℕ → Emap S → List ℕ × Emap S
  set_min_loop zero t evicted e = (evicted, e)
  set_min_loop (suc fuel) t evicted e = elim (Heap.first e.bh) [
    | none ↦ (evicted, e)
    | some b ↦ elim (leb t b.val) [
      | true ↦ (evicted, e)
      | false ↦ set_min_loop fuel t (evicted ++ items_of b e) (evict_first b e)
    ]
  ]

  unfoldable pub set_min : ℕ → Emap S → List ℕ × Emap S
  set_min t e = set_min_loop (Heap.len e.bh + 1) t [] e

  unfoldable pub any : List Item → Emap S → Bool
  any [] e = false
  any (x ∷ xs) e = if sets.contains e.seen x.id then true else any xs e

  -- Contains, from the item at index i on
  unfoldable pub contains_from :
      {B : Type 0} ⦃bits : IdSet B⦄ → ℕ → List Item → B → Bool → Emap S → B
  contains_from ⦃bits⦄ i [] marker stop e = marker
  contains_from ⦃bits⦄ i (x ∷ xs) marker stop e = elim (bits.contains marker i) [
    | true ↦ contains_from (i + 1) xs marker stop e
    | false ↦ elim (sets.contains e.seen x.id) [
      | false ↦ contains_from (i + 1) xs marker stop e
      | true ↦ elim stop [
        | true ↦ bits.add marker i
        | false ↦ contains_from (i + 1) xs (bits.add marker i) false e
      ]
    ]
  ]
