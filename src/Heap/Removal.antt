-- ===== src/Heap/Removal.antt =====
-- Taking an entry out of a min-heap: heap.Pop and heap.Remove of container/heap.
use haven_claw.Prelude.{
  ℕ, ◌-◌, ◌≤◌, ◌<◌, ◌≡◌, refl, ap, ◌∙◌, false, Bool-cases, Option, none, inl, inr, ◌⊎◌, arith,
  nat_beq, ltb, leb, ◌&&◌, if◌then◌else◌,
}
use haven_claw.Heap.{
  Entry, Heap, len, pointer, val_at, swap, drop_last, up, down, pop, bring_last, remove,
}
use haven_claw.Heap.Slots.{content, content_of, val_at-content, IsIndexed, pointer-swap}
use haven_claw.Heap.Ends.{len-drop_last, content-drop_last, pointer-drop_last, drop_last-IsIndexed}
use haven_claw.Heap.Order.{parent, IsOrdered, val_at-swap}
use haven_claw.Heap.Sift.{
  Moved, stays, swap-Moved, Moved-trans, Rising, ordered-Rising, Sinking, up-IsOrdered,
  down-IsOrdered, down_stays,
}
use haven_claw.Heap.Laws.{IsHeap}

module _ {ℓ} {I : Type ℓ} where
  -- What taking out the entry id of h gives.
  pub record Taken (id : ℕ) (h : Heap I) (r : Option (Entry I) × Heap I) : Type ℓ where
    pub result : content_of r.0 ≡ content h id
    pub is_heap : IsHeap r.1
    pub size : len r.1 ≡ len h - 1
    pub left : (j : ℕ) → content r.1 j ≡ (if nat_beq id j then none else content h j)

  val_at-drop_last :
      (h : Heap I) (k : ℕ) → IsIndexed h → k < len h - 1 → val_at (drop_last h).1 k ≡ val_at h k
  val_at-drop_last h k v hk = ground (
    arith,
    val_at-content (drop_last h).1 k,
    val_at-content h k,
    pointer-drop_last h (omega arith) k hk,
    content-drop_last h (omega arith) (pointer h k),
    v.at_place k,
    v.at_place (len h - 1),
  )

  -- h with its entries moved so that the one to take out is the last.
  record Prepared (id : ℕ) (h g : Heap I) : Type ℓ where
    size : len g ≡ len h
    kind : g.is_min_heap ≡ h.is_min_heap
    same : (j : ℕ) → content g j ≡ content h j
    last : pointer g (len h - 1) ≡ id
    indexed : IsIndexed g
    ordered : IsOrdered (len h - 1) g

  drop_last-Taken :
      (id : ℕ) (h g : Heap I) → IsHeap h → 0 < len h → Prepared id h g → Taken id h (drop_last g)
  unfolding drop_last content
  drop_last-Taken id h g v pos p =
      let some_left : 0 < len g = omega (arith, p.size, pos) in
      let left_size : len (drop_last g).1 ≡ len h - 1 =
        omega (arith, len-drop_last g some_left, p.size) in
      record {
        result = ap (content g) (ap (λ n. pointer g (n - 1)) p.size ∙ p.last) ∙ p.same id;
        is_heap = record {
          min = p.kind ∙ v.min;
          indexed = drop_last-IsIndexed g some_left p.indexed;
          ordered = λ c q r. ground (
            arith,
            left_size,
            val_at-drop_last g c p.indexed,
            val_at-drop_last g (parent c) p.indexed,
            p.ordered c,
            p.size,
          );
        };
        size = left_size;
        left = λ j. ground (arith, content-drop_last g some_left j, p.same j, p.size, p.last);
      }

  module _ (h : Heap I) (v : IsHeap h) (i : ℕ) (hi : i < len h) where
    abbrev brought : Heap I
    brought = swap i (len h - 1) h

    at :
        (k : ℕ)
        → k < len h - 1
        → val_at brought k ≡ (if nat_beq i k then val_at h (len h - 1) else val_at h k)
    at k p = ground (arith, val_at-swap i (len h - 1) h k (omega arith) (omega arith))

    brought-Moved : Moved (len h) h brought
    brought-Moved =
        swap-Moved (len h) i (len h - 1) h v.indexed (omega arith) (omega arith) (omega arith)

    brought-last : pointer brought (len h - 1) ≡ pointer h i
    brought-last =
        ground (arith, pointer-swap i (len h - 1) h (len h - 1) (omega arith) (omega arith))

    brought-Sinking : Sinking (len h - 1) brought i
    brought-Sinking = record {
      others = λ c p q ne ne2. ground (arith, at c, at (parent c), v.ordered c);
      across = λ c p q e pos. ground (arith, at c, at (parent i), v.ordered c, v.ordered i);
    }

    brought-Rising :
        ((c : ℕ) → 0 < c → c < len h - 1 → parent c ≡ i → val_at brought i ≤ val_at brought c)
        → Rising (len h - 1) brought i
    brought-Rising below = record {
      others = λ c p q ne. ground (arith, brought-Sinking.others c, below c);
      across = brought-Sinking.across;
    }

    -- After down, or down and up, the rest is in order.
    prepared :
        (g : Heap I)
        → IsOrdered (len h - 1) g
        → Moved (len h - 1) brought g
        → Prepared (pointer h i) h g
    prepared g sorted moved = record {
      size = moved.size ∙ brought-Moved.size;
      kind = moved.kind ∙ brought-Moved.kind;
      same = λ j. moved.same j ∙ brought-Moved.same j;
      last = moved.tail (len h - 1) (omega arith) ∙ brought-last;
      indexed = moved.indexed;
      ordered = sorted;
    }

    Settled : Heap I × ℕ → Type ℓ
    Settled r = IsOrdered (len h - 1) r.0 × Moved (len h - 1) brought r.0

    Untouched : Heap I × ℕ → Type ℓ
    Untouched r =
        (r ≡ (brought, i))
        × ((c : ℕ) → 0 < c → c < len h - 1 → parent c ≡ i → val_at brought i ≤ val_at brought c)

    up-Prepared :
        (g : Heap I)
        → i < len h - 1
        → Moved (len h - 1) brought g
        → Rising (len h - 1) g i
        → Prepared (pointer h i) h (up (len h) i g)
    up-Prepared g strict moved rising =
        let (sorted, risen) =
          up-IsOrdered (len h) i (len h - 1) g (omega arith) strict
            (omega (arith, moved.size, brought-Moved.size))
            (moved.kind ∙ brought-Moved.kind ∙ v.min) moved.indexed rising in
        prepared (up (len h) i g) sorted (Moved-trans moved risen)

    after_down :
        (r : Heap I × ℕ)
        → i < len h - 1
        → Settled r ⊎ Untouched r
        → Prepared (pointer h i) h (if ltb i r.1 then r.0 else up (len h) i r.0)
    unfolding Settled Untouched
    after_down r strict (inl (sorted, moved)) = elim (Bool-cases (ltb i r.1)) [
      | inl e ↦ rw e (prepared r.0 sorted moved)
      | inr e ↦ rw e (up-Prepared r.0 strict moved (ordered-Rising (len h - 1) r.0 i strict sorted))
    ]
    after_down r strict (inr (same, below)) =
        let stop : ltb i r.1 ≡ false = ground (arith, ap (λ (p : Heap I × ℕ). p.1) same) in
        rw (stop, same)
          (up-Prepared brought strict (stays (len h - 1) brought brought-Moved.indexed)
            (brought-Rising below))

    -- Where the entry at i is less than its parent, down leaves it to up.
    bring_last-Prepared : i < len h - 1 → Prepared (pointer h i) h (bring_last i h)
    unfolding Settled Untouched
    bring_last-Prepared strict =
        let n : ℕ = len h - 1 in
        let g = brought in
        let kind = brought-Moved.kind ∙ v.min in
        let other : nat_beq n i ≡ false = ground arith in
        rw other (
          after_down (down (len h) i n g) strict
            (elim (Bool-cases (ltb 0 i && ltb (val_at g i) (val_at g (parent i)))) [
              | inl rise ↦
                  let below : (c : ℕ) → 0 < c → c < n → parent c ≡ i → val_at g i ≤ val_at g c =
                    λ c p q e. ground (arith, brought-Sinking.across c) in
                  inr (down_stays (len h) i n g kind below, below)
              | inr down_it ↦
                  let (sorted, moved, later) =
                    down-IsOrdered (len h) i n g (omega arith) (omega (arith, brought-Moved.size))
                      kind brought-Moved.indexed brought-Sinking (λ pos. ground arith) in
                  inl (sorted, moved)
            ]))

  last-Prepared : (h : Heap I) (i : ℕ) → IsHeap h → len h - 1 ≡ i → Prepared (pointer h i) h h
  last-Prepared h i v e = record {
    size = refl;
    kind = refl;
    same = λ j. refl;
    last = ap (pointer h) e;
    indexed = v.indexed;
    ordered = λ c p q. v.ordered c p (omega arith);
  }

  -- Remove at an index of a well-formed min-heap returns the entry there, and leaves a well-formed
  -- min-heap with all the others as they were, in whatever direction the moved entry is sifted.
  pub remove-Taken :
      (h : Heap I) (i : ℕ) → IsHeap h → i < len h → Taken (pointer h i) h (remove i h)
  unfolding remove
  remove-Taken h i v hi =
      let inside : leb (len h) i ≡ false = ground arith in
      rw inside (elim (Bool-cases (nat_beq (len h - 1) i)) [
        | inl e ↦ rw e (
            drop_last-Taken (pointer h i) h h v (omega arith)
              (last-Prepared h i v (ground (arith, e))))
        | inr e ↦
            drop_last-Taken (pointer h i) h (bring_last i h) v (omega arith)
              (bring_last-Prepared h v i hi (ground arith))
      ])

  -- heap.Pop of a heap that is not empty
  pub pop-Taken : (h : Heap I) → IsHeap h → 0 < len h → Taken (pointer h 0) h (pop h)
  unfolding pop
  pop-Taken h v pos =
      let full : nat_beq (len h) 0 ≡ false = ground arith in
      let moved_first = brought-Moved h v 0 pos in
      let (sorted, moved, later) =
        down-IsOrdered (len h) 0 (len h - 1) (brought h v 0 pos) (omega arith)
          (omega (arith, moved_first.size)) (moved_first.kind ∙ v.min) moved_first.indexed
          (brought-Sinking h v 0 pos) (λ p. absurd (omega arith)) in
      let g = (down (len h) 0 (len h - 1) (swap 0 (len h - 1) h)).0 in
      rw full (drop_last-Taken (pointer h 0) h g v pos (prepared h v 0 pos g sorted moved))
