-- ===== src/Heap.antt =====
-- hypersdk/internal/heap: a heap with a lookup of its entries by id. Go's container/heap does the
-- sifting, and is written out here as heap.go calls it. A pointer to an entry is the entry's id: the
-- entries that are pointed to are those in the lookup map, and no two of them share an id.
pub mod Slots
pub mod Ends
pub mod Order
pub mod Sift
pub mod Laws
pub mod Removal
use haven_claw.Prelude.{
  ℕ, zero, suc, ◌+◌, ◌-◌, ◌*◌, ◌/◌, Bool, true, false, not, ◌||◌, ◌&&◌, Option, none, some, List,
  [], ◌∷◌, ◌++◌, nat_comparable, nat_beq, ltb, leb, if◌then◌else◌, length, get_or, set, take,
}
use haven_claw.Dict
use haven_claw.Dict.{Dict}

pub record Entry {ℓ} (I : Type ℓ) : Type ℓ where
  pub id : ℕ
  pub item : I
  pub val : ℕ
  pub index : ℕ

-- innerHeap, which Heap wraps.
pub record Heap {ℓ} (I : Type ℓ) : Type ℓ where
  pub is_min_heap : Bool
  pub items : List ℕ
  pub lookup : Dict ℕ (Entry I)

module _ {ℓ} {I : Type ℓ} where
  unfoldable pub new : Bool → Heap I
  new is_min_heap = record { is_min_heap = is_min_heap; items = []; lookup = [] }

  abbrev pub len : Heap I → ℕ
  len h = length h.items

  unfoldable pub get : Heap I → ℕ → Option (Entry I)
  get h id = Dict.lookup id h.lookup

  unfoldable pub has : Heap I → ℕ → Bool
  unfolding get
  has h id = elim (get h id) [ none ↦ false | some _ ↦ true ]

  -- h.items[i], as a pointer
  abbrev pub pointer : Heap I → ℕ → ℕ
  pointer h i = get_or h.items i 0

  abbrev pub val_of : Option (Entry I) → ℕ
  val_of none = 0
  val_of (some e) = e.val

  -- h.items[i].Val
  unfoldable pub val_at : Heap I → ℕ → ℕ
  unfolding get
  val_at h i = val_of (get h (pointer h i))

  unfoldable pub less : Heap I → ℕ → ℕ → Bool
  less h i j =
      if h.is_min_heap then ltb (val_at h i) (val_at h j) else ltb (val_at h j) (val_at h i)

  abbrev pub set_index : ℕ → ℕ → Dict ℕ (Entry I) → Dict ℕ (Entry I)
  set_index id i d = elim (Dict.lookup id d) [
    | none ↦ d
    | some e ↦ Dict.insert id (record e { index = i }) d
  ]

  unfoldable pub swap : ℕ → ℕ → Heap I → Heap I
  swap i j h =
      let a : ℕ = pointer h i in
      let b : ℕ = pointer h j in
      record h {
        items = set (set h.items i b) j a;
        lookup = set_index a j (set_index b i h.lookup);
      }

  -- innerHeap.Push
  unfoldable pub append_entry : Entry I → Heap I → Heap I
  append_entry e h =
      if has h e.id
      then h
      else record h { items = h.items ++ e.id ∷ []; lookup = Dict.insert e.id e h.lookup }

  -- innerHeap.Pop, of a heap that is not empty
  unfoldable pub drop_last : Heap I → Option (Entry I) × Heap I
  unfolding get
  drop_last h =
      let n : ℕ = len h in
      let id : ℕ = pointer h (n - 1) in
      (get h id, record h { items = take (n - 1) h.items; lookup = Dict.delete id h.lookup })

  -- up of container/heap, with the number of rounds it may take.
  unfoldable pub up : ℕ → ℕ → Heap I → Heap I
  up zero j h = h
  up (suc fuel) j h = elim (nat_beq ((j - 1) / 2) j || not (less h j ((j - 1) / 2))) [
    | true ↦ h
    | false ↦ up fuel ((j - 1) / 2) (swap ((j - 1) / 2) j h)
  ]

  -- The child that down compares with, among the first n entries.
  unfoldable pub next_child : ℕ → ℕ → Heap I → ℕ
  next_child i n h =
      if ltb (2 * i + 2) n && less h (2 * i + 2) (2 * i + 1) then 2 * i + 2 else 2 * i + 1

  -- The loop of down, which also gives where it stopped.
  unfoldable pub down : ℕ → ℕ → ℕ → Heap I → Heap I × ℕ
  down zero i n h = (h, i)
  down (suc fuel) i n h = elim (leb n (2 * i + 1)) [
    | true ↦ (h, i)
    | false ↦ elim (less h (next_child i n h) i) [
      | false ↦ (h, i)
      | true ↦ down fuel (next_child i n h) n (swap i (next_child i n h) h)
    ]
  ]

  unfoldable pub push : Entry I → Heap I → Heap I
  push e h = let g = append_entry e h in up (len g) (len g - 1) g

  unfoldable pub pop : Heap I → Option (Entry I) × Heap I
  pop h =
      let n : ℕ = len h in
      if nat_beq n 0 then (none, h) else drop_last (down n 0 (n - 1) (swap 0 (n - 1) h)).0

  -- heap.Remove of container/heap, before its call of Pop
  abbrev pub bring_last : ℕ → Heap I → Heap I
  bring_last i h =
      let n : ℕ = len h - 1 in
      if nat_beq n i
      then h
      else (let (g, stop) = down (len h) i n (swap i n h) in
          if ltb i stop then g else up (len h) i g)

  unfoldable pub remove : ℕ → Heap I → Option (Entry I) × Heap I
  remove index h = if leb (len h) index then (none, h) else drop_last (bring_last index h)

  unfoldable pub first : Heap I → Option (Entry I)
  unfolding get
  first h = if nat_beq (len h) 0 then none else get h (pointer h 0)
