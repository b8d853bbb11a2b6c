-- ===== src/Heap/Slots.antt =====
-- The entries of a heap by their places: what Swap, and the Push and Pop of innerHeap, do to them.
use haven_claw.Prelude.{
  ℕ, ◌<◌, ◌≡◌, ◌≢◌, refl, ap, ◌∙◌, Bool-cases, Option-cases, Option, none, some, inl, inr, arith,
  nat_beq, nat_beq_iff, ◌==◌, nat_comparable, if◌then◌else◌, set, length-set, get_or-set_same,
  get_or-set_other,
}
use haven_claw.Dict
use haven_claw.Dict.{Dict, lookup-insert, lookup-delete}
use haven_claw.Heap.{Entry, Heap, len, get, pointer, val_of, val_at, set_index, swap}

module _ {ℓ} {I : Type ℓ} where
  -- Where an entry says that it stands.
  abbrev pub place_of : Option (Entry I) → Option ℕ
  place_of none = none
  place_of (some e) = some e.index

  -- What an entry is, apart from its place.
  abbrev pub content_of : Option (Entry I) → Option (ℕ × I × ℕ)
  content_of none = none
  content_of (some e) = some (e.id, e.item, e.val)

  unfoldable pub place : Heap I → ℕ → Option ℕ
  place h id = place_of (get h id)

  unfoldable pub content : Heap I → ℕ → Option (ℕ × I × ℕ)
  content h id = content_of (get h id)

  abbrev pub val_in : Option (ℕ × I × ℕ) → ℕ
  val_in none = 0
  val_in (some c) = c.2

  pub val_at-content : (h : Heap I) (k : ℕ) → val_at h k ≡ val_in (content h (pointer h k))
  unfolding val_at content
  val_at-content h k = go (get h (pointer h k))
    where
      go : (o : Option (Entry I)) → val_of o ≡ val_in (content_of o)
      go none = refl
      go (some e) = refl

  -- The entries know their places, and the lookup has exactly those of the list.
  pub record IsIndexed (h : Heap I) : Type ℓ where
    pub at_place : (k : ℕ) → k < len h → place h (pointer h k) ≡ some k
    pub placed : (id k : ℕ) → place h id ≡ some k → (k < len h) × (pointer h k ≡ id)

  lookup-set_index :
      (id i : ℕ) (d : Dict ℕ (Entry I)) (j : ℕ)
      → (content_of (Dict.lookup j (set_index id i d)) ≡ content_of (Dict.lookup j d))
        × (place_of (Dict.lookup id d) ≢ none
            → place_of (Dict.lookup j (set_index id i d))
              ≡ (if id == j then some i else place_of (Dict.lookup j d)))
  lookup-set_index id i d j = elim (Option-cases (Dict.lookup id d)) [
    | inl e ↦ (ground arith, λ present. absurd (present (ap place_of e)))
    | inr (found, e) ↦ (
      ground (arith, lookup-insert id j (record found { index = i }) d, nat_beq_iff id j),
      λ present. ground (arith, lookup-insert id j (record found { index = i }) d),
    )
  ]

  pub len-swap : (i j : ℕ) (h : Heap I) → len (swap i j h) ≡ len h
  unfolding swap
  len-swap i j h =
      length-set (set h.items i (pointer h j)) j (pointer h i) ∙ length-set h.items i (pointer h j)

  pub content-swap : (i j : ℕ) (h : Heap I) (id : ℕ) → content (swap i j h) id ≡ content h id
  unfolding swap content get
  content-swap i j h id =
      (lookup-set_index (pointer h i) j (set_index (pointer h j) i h.lookup) id).0
      ∙ (lookup-set_index (pointer h j) i h.lookup id).0

  pub pointer-swap :
      (i j : ℕ) (h : Heap I) (k : ℕ)
      → i < len h
      → j < len h
      → pointer (swap i j h) k
        ≡ (if nat_beq j k then pointer h i else (if nat_beq i k then pointer h j else pointer h k))
  unfolding swap
  pointer-swap i j h k hi hj = elim (Bool-cases (nat_beq j k)) [
    | inl e ↦ ground (
      arith,
      get_or-set_same (set h.items i (pointer h j)) j (pointer h i) 0,
      length-set h.items i (pointer h j),
    )
    | inr ne ↦ ground (
      arith,
      get_or-set_other (set h.items i (pointer h j)) j k (pointer h i) 0,
      get_or-set_same h.items i (pointer h j) 0,
      get_or-set_other h.items i k (pointer h j) 0,
    )
  ]

  module _ (i j : ℕ) (h : Heap I) (v : IsIndexed h) (hi : i < len h) (hj : j < len h) where
    place-swap :
        (id : ℕ)
        → place (swap i j h) id ≡ (
            if nat_beq (pointer h i) id
            then some j
            else (if nat_beq (pointer h j) id then some i else place h id))
    unfolding swap place get
    place-swap id =
        let there = v.at_place i hi in
        let here = v.at_place j hj in
        let once = λ (k : ℕ). (lookup-set_index (pointer h j) i h.lookup k).1 (λ e. cc) in
        let twice =
          (lookup-set_index (pointer h i) j (set_index (pointer h j) i h.lookup) id).1
            (λ e. ground (arith, once (pointer h i))) in
        ground (arith, twice, once id)

    pub swap-IsIndexed : IsIndexed (swap i j h)
    swap-IsIndexed = record {
      at_place = λ k hk. ground (
        arith,
        place-swap (pointer (swap i j h) k),
        pointer-swap i j h k hi hj,
        len-swap i j h,
        v.at_place i hi,
        v.at_place j hj,
        v.at_place k,
      );
      placed = λ id k e.
          ground (arith, place-swap id, pointer-swap i j h k hi hj, len-swap i j h, v.placed id k);
    }
